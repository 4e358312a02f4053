-- ===== src/Agent/Base.antt =====
-- Handling messages: `Agent` of aqap/agent/base.py.
pub mod Failure
pub mod Redelivery
pub mod Marks
pub mod Once
pub mod Replies
pub mod Lost
pub mod Delivery
use text.Mathlib.Text.{starts_with}
use aqap.Prelude.{
  ℕ, ◌+◌, String, Bool, true, false, not, ◌||◌, Option, none, some, List, [], ◌∷◌, ◌++◌, Dict, get,
  get_or, put, remove, Result, ok, err, Exc, Exec, ◌==◌, if◌then◌else◌, return, ◌>>=◌, ◌>>◌,
  try_else, leb, ltb,
}
use aqap.Value.{Fields, end}
use aqap.Message.{
  MessageType, Message, Fresh, value, wire, to_dict, new_message, error_message, heartbeat,
  agent_inbox, agent_probe, agent_judge, agent_reporter, broadcast, system_events,
}
use aqap.Text.{◌+s◌}
use aqap.Validate.{Issue, validate_message}
use aqap.Dlq
use aqap.Dlq.{dlq_topic, create_dlq_message}
use aqap.Agent.State.{Agent, AgentState, publish, ack_last, with_world, fresh}

-- The topic that an answer to a message is published to, where it names no target.
unfoldable pub determine_reply_topic : Message → String
unfolding agent_inbox
determine_reply_topic m =
    if m.topic == agent_probe
    then agent_judge
    else if m.topic == agent_judge
    then agent_reporter
    else if m.topic == agent_reporter
    then broadcast
    else if starts_with m.topic agent_probe
    then agent_judge
    else if starts_with m.topic agent_judge
    then agent_reporter
    else if starts_with m.topic agent_reporter
    then broadcast
    else agent_inbox m.source

unfoldable pub msg_key : Message → String
unfolding value
msg_key m = m.source +s ":" +s m.trace_id +s ":" +s value m.type

-- How a round of the consume loop ends, when it does not raise.
pub data Flow : Type 0 where
  goes_on stops : Flow

abbrev pub replies_of : Option (List Message) → List Message
replies_of none = []
replies_of (some replies) = replies

abbrev pub is_nil : List Issue → Bool
is_nil [] = true
is_nil (i ∷ is) = false

abbrev pub is_unknown : MessageType → Bool
is_unknown MessageType.unknown = true
is_unknown _ = false

module _ {W : Type 0} (a : Agent W) where
  -- Agent.send
  unfoldable pub send : Message → Exec (AgentState W) (Unit {0})
  unfolding publish agent_inbox
  send m = publish (if m.target == "" then broadcast else agent_inbox m.target) m

  -- the record and the message that `_handle_failure` publishes
  unfoldable pub dlq_message : Fresh → Fresh → Message → String → ℕ → Message
  unfolding create_dlq_message Dlq.to_dict new_message to_dict wire
  dlq_message f g m error retry_count =
      record (new_message g MessageType.error a.agent_id (
        Dlq.to_dict (
          create_dlq_message f.timestamp (to_dict (wire m)) error retry_count a.max_retries
            a.agent_id))) { trace_id = m.trace_id }

  -- the branch of `_handle_failure` for a message that has used up its retries
  unfoldable pub to_dlq : Message → String → ℕ → String → Exec (AgentState W) Bool
  unfolding dlq_message publish ack_last
  to_dlq m error retry_count topic = do
    f ← fresh a
    g ← fresh a
    publish dlq_topic (dlq_message f g m error retry_count)
    (λ s. (ok tt, record s { retry_counts = remove (msg_key m) s.retry_counts }))
    ack_last topic
    return true

  unfoldable pub handle_failure : Message → String → String → Exec (AgentState W) Bool
  unfolding to_dlq msg_key
  handle_failure m error topic s =
      let retry_count = get_or (msg_key m) 0 s.retry_counts + 1 in
      let s' = record s { retry_counts = put (msg_key m) retry_count s.retry_counts } in
      if leb a.max_retries retry_count then to_dlq m error retry_count topic s' else (ok false, s')

  -- the loop over the replies
  unfoldable pub send_replies : Message → List Message → Exec (AgentState W) (Unit {0})
  unfolding determine_reply_topic publish
  send_replies m [] = return tt
  send_replies m (reply ∷ replies) = do
    payload ← with_world (a.encrypt_payload reply.payload)
    publish (if reply.target == "" then determine_reply_topic m else agent_inbox reply.target)
        (record reply { payload = payload })
    send_replies m replies

  -- the `try` part of `_process_one`, up to its `return True`
  unfoldable pub attempt : Message → Exec (AgentState W) (Unit {0})
  unfolding send_replies
  attempt m = do
    (λ s. (ok tt, record s { current_message = some m }))
    replies ← a.handle_message m
    (λ s. (ok tt, record s { current_message = none }))
    send_replies m (replies_of replies)
    (λ s. (ok tt, record s { retry_counts = remove (msg_key m) s.retry_counts }))

  -- the `finally` part of `_process_one`: an exception in it takes the place of the outcome
  unfoldable pub finally : Bool → String → Result Bool → Exec (AgentState W) Bool
  unfolding ack_last
  finally true topic r = do ack_last topic; (λ s. (r, s))
  finally false topic r = λ s. (r, s)

  -- What follows `_handle_failure`. `should_ack` is cleared only where it returned False: also where
  -- it raised, `finally` acknowledges the message.
  unfoldable pub after_failure : String → Result Bool → Exec (AgentState W) Bool
  unfolding finally
  after_failure topic (ok true) = finally true topic (ok true)
  after_failure topic (ok false) = finally false topic (ok false)
  after_failure topic (err e) = finally true topic (err e)

  unfoldable pub process_one : Message → String → Exec (AgentState W) Bool
  unfolding attempt handle_failure after_failure
  process_one m topic =
      try_else (attempt m) (λ _. finally true topic (ok true))
        (λ e s.
          let (r, s') = handle_failure m (a.text e) topic (record s { current_message = none }) in
          after_failure topic r s')

  -- the ERROR message that answers a message of an unknown type
  unfoldable unknown_reply : Fresh → Message → Message
  unfolding error_message new_message
  unknown_reply f m =
      record (error_message f a.agent_id "UNKNOWN_TYPE" "不识别消息类型" m.trace_id m.message_id) {
        target = m.source;
      }

  unfoldable pub reject_unknown : Message → Exec (AgentState W) (Unit {0})
  unfolding unknown_reply publish agent_inbox
  reject_unknown m = do
    f ← fresh a
    publish (if m.source == "" then broadcast else agent_inbox m.source) (unknown_reply f m)

  -- `message.payload = self._cipher.decrypt_payload(message.payload)`; an exception is logged, and the
  -- payload stays as it was
  unfoldable pub decrypted : Message → Exec (AgentState W) Message
  decrypted m =
      try_else (with_world (a.decrypt_payload m.payload))
        (λ payload. return (record m { payload = payload })) (λ e. return m)

  -- what a round does with a message that is neither an echo nor a duplicate
  unfoldable pub accept : Message → String → Exec (AgentState W) Flow
  unfolding validate_message reject_unknown decrypted process_one
  accept m topic = do
    issues ← (λ s. (validate_message a.py (to_dict (wire m)), s))
    if is_nil issues
        then if is_unknown m.type
          then (do reject_unknown m; return goes_on)
          else (do m' ← decrypted m; process_one m' topic; return goes_on)
        else return goes_on

  -- `ts is not None and now - ts < ttl`
  unfoldable pub is_duplicate : ℕ → Option ℕ → Bool
  is_duplicate now none = false
  is_duplicate now (some ts) = ltb now (ts + a.idempotency_ttl)

  -- One round of `_consume_loop`, on a message that came with the transport's own identifier.
  unfoldable pub consume : String → ℕ → Option String → Message → Exec (AgentState W) Flow
  unfolding accept is_duplicate
  consume topic now transport_msg_id m s =
      if not s.running
      then (ok stops, s)
      else let s' = record s {
        last_topic = topic;
        last_group = a.group;
        last_msg_id = transport_msg_id;
      } in
        if m.source == a.agent_id
        then (ok goes_on, s')
        else if is_duplicate now (get m.message_id s.processed_ids)
        then (ok goes_on, s')
        else accept m topic (record s' { processed_ids = put m.message_id now s.processed_ids })
