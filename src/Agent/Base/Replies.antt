-- ===== src/Agent/Base/Replies.antt =====
-- What `process_one` does with a message that is handled.
use aqap.Prelude.{
  String, true, Option, none, some, List, [], ◌∷◌, ◌++◌, remove, Result, ok, ◌==◌, if◌then◌else◌,
  ◌>>=◌, try_else, ◌≡◌, ap, sym, ◌∙◌,
}
use mathlib.Core.List.{append_assoc, append-nil}
use aqap.Message.{Message}
use aqap.Agent.State.{Agent, AgentState, Event, published}
use aqap.Agent.Base.{msg_key, attempt, process_one}
use aqap.Value.{Fields}
use aqap.Message.{agent_inbox}
use aqap.Agent.Base.{determine_reply_topic, send_replies, replies_of}
use aqap.Agent.Base.Failure.{acks, publish_calm, finally_calm}

module _ {W : Type 0} (a : Agent W) (encrypted : Fields → Fields)
    (encrypts : (p : Fields) (w : W) → a.encrypt_payload p w ≡ (ok (encrypted p), w)) where
  -- the publication of one reply
  abbrev reply_event : Message → Message → Event
  reply_event m reply =
      published (if reply.target == "" then determine_reply_topic m else agent_inbox reply.target)
        (record reply { payload = encrypted reply.payload })

  abbrev pub reply_events : Message → List Message → List Event
  reply_events m [] = []
  reply_events m (reply ∷ replies) = reply_event m reply ∷ reply_events m replies

  send_replies_calm :
      (m : Message) (replies : List Message) (s : AgentState W)
      → s.faults ≡ []
      → send_replies a m replies s ≡ (ok tt, record s { log = s.log ++ reply_events m replies })
  unfolding send_replies ◌>>=◌
  send_replies_calm m [] s calm =
      ap {B = Result (Unit {0}) × AgentState W} (λ l. (ok tt, record s { log = l }))
        (sym (append-nil s.log))
  send_replies_calm m (reply ∷ replies) s calm =
      let topic =
        (if reply.target == "" then determine_reply_topic m else agent_inbox reply.target) in
      let sent : Message = record reply { payload = encrypted reply.payload } in
      let t : AgentState W = record s { log = s.log ++ published topic sent ∷ [] } in
      rw (encrypts reply.payload s.world, publish_calm a topic sent s calm)
        (send_replies_calm m replies t calm
          ∙ ap {B = Result (Unit {0}) × AgentState W} (λ l. (ok tt, record s { log = l }))
              (append_assoc s.log (published topic sent ∷ []) (reply_events m replies)))

  -- A handled message: its replies are published in their order, encrypted, each to the inbox of
  -- its target or else to the topic that answers the message's topic; the message is acknowledged
  -- after them, and its failures are forgotten. The transport raises nothing, and encryption
  -- succeeds and leaves the world alone.
  pub process_one_handles :
      (m : Message) (topic : String) (s t : AgentState W) (replies : Option (List Message))
      → a.handle_message m (record s { current_message = some m }) ≡ (ok replies, t)
      → t.faults ≡ []
      → process_one a m topic s ≡ (
        ok true,
        record t {
          current_message = none;
          retry_counts = remove (msg_key m) t.retry_counts;
          log =
              (t.log ++ reply_events m (replies_of replies))
              ++ acks topic t.last_group t.last_msg_id;
        },
      )
  unfolding process_one attempt ◌>>=◌ try_else
  process_one_handles m topic s t replies handled calm =
      rw
        (
          handled,
          send_replies_calm m (replies_of replies) (record t { current_message = none }) calm,
        )
        (finally_calm a topic (ok true) _ calm)
