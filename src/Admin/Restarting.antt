-- ===== src/Admin/Restarting.antt =====
-- Which agents the pages of aqap/admin.py know: `get_agent` and `restart_agent`.
use aqap.Prelude.{
  String, Bool, true, false, Option, none, get, ◌||◌, some, has, get-none_of_has, get-some_of_has,
  ◌≡◌, refl, ◌∙◌, Bool-cases, Option-cases, inl, inr,
}
use aqap.Agent.Supervisor.{Member, Supervisor, health_check}
use aqap.Agent.Supervisor as Supervisors
use aqap.Agent.Supervisor.Health.{KeepsMembers, health_check_lem}
use aqap.Engine.{EngineState}
use aqap.Engine.Starting.{health}
use aqap.Cli.{Office}
use aqap.Admin.{Reply, answered, refused, get_agent, restart_agent}

abbrev is_answered : {A : Type 0} → Reply A → Bool
is_answered (answered a) = true
is_answered (refused code text) = false

-- the world after the stop and the start of an agent, or of none
abbrev world_after : {W : Type 0} → Option (Member W) → W → W
world_after none w = w
world_after (some a) w = (a.start (a.stop w).1).1

restart-world_after :
    {W : Type 0} (agent_id : String) (s : Supervisor W) (w : W)
    → Supervisors.restart_agent agent_id s w ≡ world_after (get agent_id s.agents) w
unfolding Supervisors.restart_agent
restart-world_after agent_id s w = elim (Option-cases (get agent_id s.agents)) [
  | inl missing ↦ rw (missing, Supervisors.restart_agent) refl
  | inr (a, found) ↦ rw (found, Supervisors.restart_agent) refl
]

module _ {T B W : Type 0} (o : Office T B W) where
  answered-get :
      (agent_id : String) (e : EngineState T B W)
      → is_answered (get_agent o agent_id (some e))
        ≡ has agent_id (health_check (o.now e.world) e.supervisor).0
  unfolding get_agent health
  answered-get agent_id e =
      elim (Bool-cases (has agent_id (health_check (o.now e.world) e.supervisor).0)) [
        | inl known ↦
            let (status, found) =
              get-some_of_has agent_id (health_check (o.now e.world) e.supervisor).0 known in
            rw (found, get_agent, known) refl
        | inr missing ↦
            rw
              (
                get-none_of_has agent_id (health_check (o.now e.world) e.supervisor).0 missing,
                get_agent,
                missing,
              )
              refl
      ]

  -- The page of an agent answers exactly for the agents that are registered or have sent a heartbeat,
  -- and a restart exactly for those that are registered, whatever their stop and start raise. A restart
  -- that is answered has run the agent's stop and then its start, and changed nothing else; one that is
  -- refused has changed nothing.
  agent_pages_answer :
      (agent_id : String) (e : EngineState T B W)
      → KeepsMembers (o.now e.world) e.supervisor
      → (is_answered (get_agent o agent_id (some e))
          ≡ (has agent_id e.supervisor.agents || has agent_id e.supervisor.last_heartbeat))
        × (is_answered (restart_agent agent_id (some e)).0 ≡ has agent_id e.supervisor.agents)
        × ((restart_agent agent_id (some e)).1
            ≡ some (record e { world = world_after (get agent_id e.supervisor.agents) e.world }))
  unfolding restart_agent
  agent_pages_answer agent_id e ordered = (
    answered-get agent_id e ∙ (health_check_lem (o.now e.world) e.supervisor agent_id ordered).0,
    elim (Bool-cases (has agent_id e.supervisor.agents)) [
      | inl known ↦ rw known refl
      | inr missing ↦ rw missing refl
    ],
    elim (Bool-cases (has agent_id e.supervisor.agents)) [
      | inl known ↦ rw (known, restart-world_after agent_id e.supervisor e.world) refl
      | inr missing ↦ rw (missing, get-none_of_has agent_id e.supervisor.agents missing) refl
    ],
  )
