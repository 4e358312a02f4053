-- ===== src/Agent/State.antt =====
-- The state of an agent (`Agent.__init__` of aqap/agent/base.py) and its calls of the transport.
use aqap.Prelude.{
  ℕ, String, Bool, true, false, Option, none, some, List, [], ◌∷◌, ◌++◌, Dict, Result, ok, err, Exc,
  raised, Exec, ◌==◌, if◌then◌else◌,
}
use aqap.Value.{Fields}
use aqap.Text.{Python}
use aqap.Message.{Message, Fresh}

-- a call of the transport that did not raise
pub data Event : Type 0 where
  published : String → Message → Event
  acked : String → String → String → Event
  connected disconnected : Event

-- `W` is the world outside the modelled fields: the plugins, the clock, a subclass's own fields.
-- `log` lists the calls of the transport, and `faults` decides for each later call, in turn, whether
-- it raises; after its end no call does.
pub record AgentState (W : Type 0) : Type 0 where
  pub running : Bool
  pub draining : Bool
  pub retry_counts : Dict ℕ
  pub current_message : Option Message
  pub last_topic : String
  pub last_group : String
  pub last_msg_id : Option String
  pub processed_ids : Dict ℕ
  pub log : List Event
  pub faults : List Bool
  pub world : W

-- What does not change while an agent runs: its settings, the subclass's handler, and what the
-- agent uses of Python, of the cipher and of the identifier and time sources.
pub record Agent (W : Type 0) : Type 0 where
  pub agent_id : String
  pub group : String
  pub max_retries : ℕ
  pub idempotency_ttl : ℕ
  pub idempotency_max_size : ℕ
  pub py : Python
  pub text : Exc → String
  pub encrypt_payload : Fields → W → Result Fields × W
  pub decrypt_payload : Fields → W → Result Fields × W
  pub draw : W → Fresh × W
  pub handle_message : Message → AgentState W → Result (Option (List Message)) × AgentState W

module _ {W : Type 0} where
  abbrev pub call : List Bool → Event → AgentState W → Result (Unit {0}) × AgentState W
  call [] e s = (ok tt, record s { log = s.log ++ e ∷ [] })
  call (false ∷ later) e s = (ok tt, record s { log = s.log ++ e ∷ []; faults = later })
  call (true ∷ later) e s = (err (raised "transport"), record s { faults = later })

  -- self._transport.publish(topic, message)
  unfoldable pub publish : String → Message → Exec (AgentState W) (Unit {0})
  publish topic m s = call s.faults (published topic m) s

  -- self._transport.ack(topic, message_id, group)
  unfoldable pub ack : String → String → String → Exec (AgentState W) (Unit {0})
  ack topic message_id group s = call s.faults (acked topic message_id group) s

  -- A computation on the world alone.
  abbrev pub with_world : {A : Type 0} → (W → Result A × W) → Exec (AgentState W) A
  with_world f s = ((f s.world).0, record s { world = (f s.world).1 })

  abbrev pub fresh : Agent W → Exec (AgentState W) Fresh
  fresh a s = (ok (a.draw s.world).0, record s { world = (a.draw s.world).1 })

  -- `if self._last_msg_id: await self._transport.ack(topic, self._last_msg_id, self._last_group)`
  unfoldable pub ack_last : String → Exec (AgentState W) (Unit {0})
  unfolding ack
  ack_last topic s = elim s.last_msg_id [
    | none ↦ (ok tt, s)
    | some message_id ↦ if message_id == "" then (ok tt, s) else ack topic message_id s.last_group s
  ]
