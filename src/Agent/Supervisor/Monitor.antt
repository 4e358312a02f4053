-- ===== src/Agent/Supervisor/Monitor.antt =====
-- What a round of the monitor does.
use aqap.Prelude.{
  ℕ, ◌+◌, String, Bool, false, Option, none, some, List, [], ◌∷◌, ltb, get, keep, ◌≡◌, refl,
  Bool-cases, inl, inr, Option-cases,
}
use aqap.Agent.Supervisor.{
  Supervisor, Member, status_of, statuses, all_ids, health_check, restart_agent, restart_stale,
  monitor_round,
}

-- no heartbeat since `timeout` before `now`, but one before that
abbrev is_silent : ℕ → ℕ → Option ℕ → Bool
is_silent now timeout none = false
is_silent now timeout (some beat) = ltb (beat + timeout) now

-- each of the agents stopped, then started
abbrev pub restarted : {W : Type 0} → List (Option (Member W)) → W → W
restarted [] w = w
restarted (none ∷ rest) w = restarted rest w
restarted (some a ∷ rest) w = restarted rest (a.start (a.stop w).1).1

module _ {W : Type 0} (now : ℕ) (s : Supervisor W) where
  abbrev pub silent_ids : List String → List String
  silent_ids ks = keep (λ k. is_silent now s.heartbeat_timeout (get k s.last_heartbeat)) ks

  abbrev pub members : List String → List (Option (Member W))
  members [] = []
  members (k ∷ ks) = get k s.agents ∷ members ks

  restart_stale-statuses :
      (ks : List String) (w : W)
      → restart_stale (statuses now s ks) s w ≡ restarted (members (silent_ids ks)) w
  unfolding restart_stale statuses restart_agent status_of
  restart_stale-statuses [] w = refl
  restart_stale-statuses (k ∷ ks) w = elim (Option-cases (get k s.last_heartbeat)) [
    | inl e ↦ rw (e) (restart_stale-statuses ks w)
    | inr (beat, e) ↦ elim (Bool-cases (ltb (beat + s.heartbeat_timeout) now)) [
      | inr fresh ↦ rw (e, fresh) (restart_stale-statuses ks w)
      | inl late ↦ elim (Option-cases (get k s.agents)) [
        | inl absent ↦ rw (e, late, absent, restart_agent) (restart_stale-statuses ks w)
        | inr (a, known) ↦
            rw (e, late, known, restart_agent) (restart_stale-statuses ks (a.start (a.stop w).1).1)
      ]
    ]
  ]

  -- A round of the monitor stops and starts, one agent after the other in the order in which the set of
  -- identifiers is gone through, the registered agents among the identifiers known whose last heartbeat is older than the timeout. An
  -- agent that never sent a heartbeat is not restarted.
  pub monitor_round_lem :
      (w : W) → monitor_round now s w ≡ restarted (members (silent_ids (s.set_order (all_ids s)))) w
  unfolding monitor_round health_check
  monitor_round_lem w = restart_stale-statuses (s.set_order (all_ids s)) w
