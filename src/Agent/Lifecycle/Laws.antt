-- ===== src/Agent/Lifecycle/Laws.antt =====
-- What starting and stopping does.
use aqap.Prelude.{
  Bool, true, false, List, [], ◌∷◌, ◌++◌, ok, err, value_error, raised, ◌>>=◌, ◌≡◌, refl, ap, ◌∙◌,
}
use aqap.Message.{Fresh, system_events}
use aqap.Agent.State.{Agent, AgentState, published, connected, disconnected, publish}
use aqap.Agent.Base.Failure.{publish_calm}
use aqap.Agent.Lifecycle.{
  heartbeat_loop, Task, Live, Hooks, register_message, shutdown_message, tasks_of, launch, start,
  stop, wait_tasks,
}

module _ {W : Type 0} (a : Agent W) (h : Hooks W) where
  -- A start of an agent that does not run, whose connection raises, leaves the agent marked as
  -- running, with no task more: another start does nothing and raises nothing.
  start_after_failure :
      (s : Live W) (later : List Bool)
      → s.agent.running ≡ false
      → s.agent.faults ≡ true ∷ later
      → ((start a h s).0 ≡ err (raised "transport"))
        × ((start a h s).1.tasks ≡ s.tasks)
        × (start a h (start a h s).1 ≡ (ok tt, (start a h s).1))
  unfolding start launch ◌>>=◌
  start_after_failure s later idle down = rw (idle, down) (refl, refl, refl)

  -- Where the transport raises nothing, stopping an agent that has no task raises, and leaves the
  -- agent draining and connected.
  stop_without_tasks :
      (s : Live W)
      → s.tasks ≡ []
      → s.agent.faults ≡ []
      → ((stop a h s).0 ≡ err value_error)
        × ((stop a h s).1.agent.draining ≡ true)
        × ((stop a h s).1.agent.log
            ≡ s.agent.log
              ++ published system_events (shutdown_message (a.draw s.agent.world).0 a.agent_id)
                ∷ [])
  unfolding stop wait_tasks ◌>>=◌
  stop_without_tasks s none_left calm =
      let agent : AgentState W = s.agent in
      let w = (a.draw agent.world).1 in
      let u : AgentState W = record agent { running = false; draining = true; world = w } in
      rw
        (
          publish_calm a system_events (shutdown_message (a.draw agent.world).0 a.agent_id) u calm,
          none_left,
        )
        (refl, refl, refl)

  -- the agent after a start, and after a stop, that nothing disturbs
  abbrev started : Live W → Live W
  started s = record {
    agent = record s.agent {
      running = true;
      log =
          (s.agent.log ++ connected ∷ [])
          ++ published system_events
              (register_message (a.draw s.agent.world).0 a.agent_id h.agent_type)
            ∷ [];
      world = (a.draw s.agent.world).1;
    };
    tasks = s.tasks ++ tasks_of h.skip_consume h.topics;
  }

  abbrev stopped : Live W → Live W
  stopped s = record {
    agent = record s.agent {
      running = false;
      draining = false;
      log =
          (s.agent.log
            ++ published system_events (shutdown_message (a.draw s.agent.world).0 a.agent_id) ∷ [])
          ++ disconnected ∷ [];
      world = (a.draw s.agent.world).1;
    };
    tasks = [];
  }

  start_calm :
      ((t : AgentState W) → h.on_start t ≡ (ok tt, t))
      → (s : Live W) → s.agent.running ≡ false
      → s.agent.faults ≡ []
      → start a h s ≡ (ok tt, started s)
  unfolding start launch publish ◌>>=◌
  start_calm starts s idle calm = rw (idle, calm, starts) refl

  stop_calm :
      ((t : AgentState W) → h.on_stop t ≡ (ok tt, t))
      → ((t : AgentState W) → h.drain t ≡ t)
      → (s : Live W) (task : Task) (tasks : List Task) → s.tasks ≡ task ∷ tasks
      → s.agent.faults ≡ []
      → stop a h s ≡ (ok tt, stopped s)
  unfolding stop wait_tasks publish ◌>>=◌
  stop_calm stops drains s task tasks left calm =
      let agent : AgentState W = s.agent in
      let w = (a.draw agent.world).1 in
      let u : AgentState W = record agent { running = false; draining = true; world = w } in
      rw
        (
          publish_calm a system_events (shutdown_message (a.draw agent.world).0 a.agent_id) u calm,
          left,
          drains,
          stops,
          calm,
        )
        refl

  -- Where the transport raises nothing and the subclass's hooks and the tasks leave the agent alone,
  -- starting an idle agent and stopping it comes back without an exception: the transport has been
  -- connected, the registration and the shutdown have been published in this order, and the transport
  -- has been disconnected; no task is left, and the agent neither runs nor drains.
  pub stop-start :
      ((t : AgentState W) → h.on_start t ≡ (ok tt, t))
      → ((t : AgentState W) → h.on_stop t ≡ (ok tt, t))
      → ((t : AgentState W) → h.drain t ≡ t)
      → (s : Live W) → s.agent.running ≡ false
      → s.tasks ≡ []
      → s.agent.faults ≡ []
      → (f : Fresh) × (g : Fresh) × ((stop a h (start a h s).1).0 ≡ ok tt)
        × ((stop a h (start a h s).1).1.tasks ≡ [])
        × ((stop a h (start a h s).1).1.agent.running ≡ false)
        × ((stop a h (start a h s).1).1.agent.draining ≡ false)
        × ((stop a h (start a h s).1).1.agent.log
            ≡ (((s.agent.log ++ connected ∷ [])
                  ++ published system_events (register_message f a.agent_id h.agent_type) ∷ [])
                ++ published system_events (shutdown_message g a.agent_id) ∷ [])
              ++ disconnected ∷ [])
  unfolding tasks_of
  stop-start starts stops drains s idle none_left calm =
      let begun = start_calm starts s idle calm in
      let ended =
        stop_calm stops drains (started s) heartbeat_loop _
          (ap (λ l. l ++ tasks_of h.skip_consume h.topics) none_left) calm in
      (
        (a.draw s.agent.world).0,
        (a.draw (a.draw s.agent.world).1).0,
        ap (λ r. (stop a h r.1).0) begun ∙ ap (λ r. r.0) ended,
        ap (λ r. (stop a h r.1).1.tasks) begun ∙ ap (λ r. r.1.tasks) ended,
        ap (λ r. (stop a h r.1).1.agent.running) begun ∙ ap (λ r. r.1.agent.running) ended,
        ap (λ r. (stop a h r.1).1.agent.draining) begun ∙ ap (λ r. r.1.agent.draining) ended,
        ap (λ r. (stop a h r.1).1.agent.log) begun ∙ ap (λ r. r.1.agent.log) ended,
      )
