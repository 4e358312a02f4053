-- ===== src/Agent/Lifecycle.antt =====
-- Starting and stopping an agent: `start`, `stop` and `_heartbeat_loop` of aqap/agent/base.py. A
-- task is what `asyncio.create_task` was called with; `drain` is what the tasks do to the agent while
-- `stop` waits for them, for five seconds at most.
pub mod Laws
use aqap.Prelude.{
  ℕ, String, Bool, true, false, Option, none, some, List, [], ◌∷◌, ◌++◌, map, Result, ok, err, Exc,
  value_error, Exec, if◌then◌else◌, return, ◌>>=◌, ◌>>◌, Dict, put,
}
use aqap.Value.{Fields, end, field, str}
use aqap.Message.{MessageType, Message, Fresh, new_message, heartbeat, system_events}
use aqap.Agent.State.{Agent, AgentState, Event, connected, disconnected, call, publish, fresh}

pub data Task : Type 0 where
  heartbeat_loop idempotency_cleanup_loop : Task
  consume_loop : String → Task

pub record Live (W : Type 0) : Type 0 where
  pub agent : AgentState W
  pub tasks : List Task

-- what a subclass gives, and the topics it subscribed to
pub record Hooks (W : Type 0) : Type 0 where
  pub agent_type : String
  pub topics : List String
  pub skip_consume : Bool
  pub on_start : Exec (AgentState W) (Unit {0})
  pub on_stop : Exec (AgentState W) (Unit {0})
  pub drain : AgentState W → AgentState W

unfoldable pub register_message : Fresh → String → String → Message
unfolding new_message
register_message f agent_id agent_type =
    new_message f MessageType.register agent_id (field "agent_type" (str agent_type) end)

unfoldable pub shutdown_message : Fresh → String → Message
unfolding new_message
shutdown_message f agent_id = new_message f MessageType.shutdown agent_id end

unfoldable pub tasks_of : Bool → List String → List Task
tasks_of skip_consume topics =
    heartbeat_loop
    ∷ idempotency_cleanup_loop
    ∷ (if skip_consume then [] else map consume_loop topics)

module _ {W : Type 0} (a : Agent W) (h : Hooks W) where
  abbrev on_agent : {A : Type 0} → Exec (AgentState W) A → Exec (Live W) A
  on_agent m s = ((m s.agent).0, record s { agent = (m s.agent).1 })

  -- what follows `self._running = True`
  unfoldable pub launch : Exec (Live W) (Unit {0})
  unfolding publish register_message tasks_of
  launch = do
    on_agent (λ s. call s.faults connected s)
    on_agent h.on_start
    f ← on_agent (fresh a)
    on_agent (publish system_events (register_message f a.agent_id h.agent_type))
    (λ s. (ok tt, record s { tasks = s.tasks ++ tasks_of h.skip_consume h.topics }))

  -- Agent.start
  unfoldable pub start : Exec (Live W) (Unit {0})
  unfolding launch
  start s =
      let agent : AgentState W = s.agent in
      if agent.running
      then (ok tt, s)
      else launch (record s { agent = record agent { running = true } })

  -- `asyncio.wait` of no task is a ValueError
  unfoldable pub wait_tasks : Exec (Live W) (Unit {0})
  wait_tasks s = elim s.tasks [
    | [] ↦ (err value_error, s)
    | task ∷ tasks ↦ (ok tt, record s { agent = h.drain s.agent; tasks = [] })
  ]

  -- Agent.stop
  unfoldable pub stop : Exec (Live W) (Unit {0})
  unfolding publish shutdown_message wait_tasks
  stop = do
    on_agent (λ s. (ok tt, record s { running = false; draining = true }))
    f ← on_agent (fresh a)
    on_agent (publish system_events (shutdown_message f a.agent_id))
    wait_tasks
    on_agent (λ s. (ok tt, record s { draining = false }))
    on_agent h.on_stop
    on_agent (λ s. call s.faults disconnected s)

-- one round of `_heartbeat_loop`, before its sleep, with the supervisor's record of heartbeats
unfoldable heartbeat_round :
    {W : Type 0} → Agent W → ℕ → Option (Dict ℕ) → Exec (AgentState W) (Option (Dict ℕ))
unfolding heartbeat publish
heartbeat_round a now beats = do
  f ← fresh a
  publish system_events (heartbeat f a.agent_id none)
  return
      (elim beats [ none ↦ none | some last_heartbeat ↦ some (put a.agent_id now last_heartbeat) ])
