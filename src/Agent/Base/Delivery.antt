-- ===== src/Agent/Base/Delivery.antt =====
-- An agent on the in-memory transport: what becomes of its calls in the queues.
use aqap.Prelude.{
  ℕ, ◌≤◌, String, Bool, true, false, Option, none, some, List, [], ◌∷◌, ◌++◌, length, ok, ◌==◌,
  if◌then◌else◌, ◌≡◌, refl, arith, ap, sym, ◌∙◌, map, try_else, Bool-cases, get, inl, inr,
}
use mathlib.Core.List.{append_assoc, append-nil}
use aqap.Value.{Fields}
use aqap.Message.{Message, agent_inbox}
use aqap.InMemory
use aqap.InMemory.{InMemory, groups_of, queues_of}
use aqap.InMemory.Shutdown.{Op, run}
use aqap.InMemory.Subscribed.{run-IsFresh, init-IsFresh, subscribe-Owns}
use aqap.InMemory.Inbox.{Owns, publish-Owns, owned-publish, running-publish, received, received_all}
use aqap.Agent.State.{Agent, AgentState, Event, published, acked, connected, disconnected}
use aqap.Agent.Base.{determine_reply_topic, process_one, decrypted, replies_of}
use aqap.Agent.Base.Failure.{acks}
use aqap.Agent.Base.Replies.{reply_events, process_one_handles}

-- a call of the agent, made on the in-memory transport, which raises nothing
unfoldable perform : InMemory Message → Event → InMemory Message
perform t (published topic m) = InMemory.publish topic m t
perform t (acked topic id group) = InMemory.ack t
perform t connected = InMemory.connect t
perform t disconnected = InMemory.disconnect t

unfoldable pub perform_all : InMemory Message → List Event → InMemory Message
unfolding perform
perform_all t [] = t
perform_all t (e ∷ es) = perform_all (perform t e) es

abbrev reply_topic : Message → Message → String
reply_topic m reply =
    if reply.target == "" then determine_reply_topic m else agent_inbox reply.target

-- the replies that go to a topic, in their order
abbrev pub replies_to : String → Message → List Message → List Message
replies_to topic m [] = []
replies_to topic m (reply ∷ replies) =
    let rest = replies_to topic m replies in
    if topic == reply_topic m reply then reply ∷ rest else rest

perform_all-append :
    (t : InMemory Message) (es fs : List Event)
    → perform_all t (es ++ fs) ≡ perform_all (perform_all t es) fs
unfolding perform_all
perform_all-append t [] fs = refl
perform_all-append t (e ∷ es) fs = perform_all-append (perform t e) es fs

perform_all-acks :
    (t : InMemory Message) (topic group : String) (id : Option String)
    → perform_all t (acks topic group id) ≡ t
unfolding perform_all perform InMemory.ack
perform_all-acks t topic group none = refl
perform_all-acks t topic group (some id) = ground arith

module _ {W : Type 0} (a : Agent W) (encrypted : Fields → Fields)
    (encrypts : (p : Fields) (w : W) → a.encrypt_payload p w ≡ (ok (encrypted p), w)) where
  abbrev pub sealed : Message → Message
  sealed reply = record reply { payload = encrypted reply.payload }

  append-map_kept :
      (kept : Bool) (xs : List Message) (reply : Message) (rest : List Message)
      → (xs ++ (if kept then sealed reply ∷ [] else [])) ++ map sealed rest
        ≡ xs ++ map sealed (if kept then reply ∷ rest else rest)
  append-map_kept true xs reply rest = append_assoc xs (sealed reply ∷ []) (map sealed rest)
  append-map_kept false xs reply rest = ap (λ l. l ++ map sealed rest) (append-nil xs)

  performed_replies :
      (q : ℕ) (inbox : String) (m : Message) (replies : List Message) (t : InMemory Message)
      → Owns q inbox t
      → ((perform_all t (reply_events a encrypted encrypts m replies)).store q
          ≡ t.store q ++ map sealed (replies_to inbox m replies))
        × ((perform_all t (reply_events a encrypted encrypts m replies)).running ≡ t.running)
  unfolding perform_all perform
  performed_replies q inbox m [] t owns = (sym (append-nil _), refl)
  performed_replies q inbox m (reply ∷ replies) t owns =
      let topic = reply_topic m reply in
      let t' = InMemory.publish topic (sealed reply) t in
      let rest =
        performed_replies q inbox m replies t' (publish-Owns q inbox topic (sealed reply) t owns) in
      (
        rest.0
            ∙ ap (λ l. l ++ map sealed (replies_to inbox m replies))
                (owned-publish q inbox topic (sealed reply) t owns)
            ∙ append-map_kept (inbox == topic) (t.store q) reply (replies_to inbox m replies),
        rest.1 ∙ running-publish topic (sealed reply) t,
      )

  length-replies_to :
      (topic : String) (m : Message) (replies : List Message)
      → length (map sealed (replies_to topic m replies)) ≤ length replies
  length-replies_to topic m [] = omega arith
  length-replies_to topic m (reply ∷ replies) = elim (Bool-cases (topic == reply_topic m reply)) [
    | inl same ↦ rw same (omega (arith, length-replies_to topic m replies))
    | inr differ ↦ rw differ (omega (arith, length-replies_to topic m replies))
  ]

  performed_all :
      (q rounds : ℕ) (inbox : String) (m : Message) (replies : List Message) (t : InMemory Message)
      (topic group : String) (id : Option String)
      → Owns q inbox t
      → t.running ≡ true
      → t.store q ≡ []
      → length replies ≤ rounds
      → received rounds q
          (perform_all t (reply_events a encrypted encrypts m replies ++ acks topic group id))
        ≡ map sealed (replies_to inbox m replies)
  performed_all q rounds inbox m replies t topic group id owns up empty enough =
      let net = perform_all t (reply_events a encrypted encrypts m replies) in
      let (queue, running) = performed_replies q inbox m replies t owns in
      rw (perform_all-append, perform_all-acks)
        (received_all rounds q net _ (running ∙ up)
          (queue ∙ ap (λ l. l ++ map sealed (replies_to inbox m replies)) empty)
          (omega (arith, enough, length-replies_to inbox m replies)))

  opened :
      {V : Type 0} (b : Agent V) (reply : Message) (s : AgentState V)
      → ((p : Fields) (v : V) → b.decrypt_payload (encrypted p) v ≡ (ok p, v))
      → decrypted b (sealed reply) s ≡ (ok reply, s)
  unfolding decrypted try_else
  opened b reply s decrypts = rw (decrypts reply.payload s.world) refl

  -- A new in-memory transport runs after any calls. A consumer subscribes to a topic in a group that
  -- has no other consumer of it. Then an agent handles a message: the transport raises nothing, and
  -- encryption succeeds and leaves the world alone. What the agent calls after its handler brings to the
  -- consumer, which has a round for each reply, exactly the replies for its topic, in their order and
  -- encrypted; and an agent whose cipher undoes that encryption then has each reply as it was.
  pub process_one-received :
      (m : Message) (topic : String) (s t : AgentState W) (replies : Option (List Message))
      {V : Type 0} (b : Agent V) (ops : List (Op Message)) (inbox group : String) (rounds : ℕ)
      → a.handle_message m (record s { current_message = some m }) ≡ (ok replies, t)
      → t.faults ≡ []
      → ((p : Fields) (v : V) → b.decrypt_payload (encrypted p) v ≡ (ok p, v))
      → (run InMemory.init ops).running ≡ true
      → queues_of (get group (groups_of (get inbox (run InMemory.init ops).groups))) ≡ []
      → length (replies_of replies) ≤ rounds
      → let (net, q) = InMemory.subscribe inbox group (run InMemory.init ops) in
        (events : List Event) × ((process_one a m topic s).1.log ≡ t.log ++ events)
        × (received rounds q (perform_all net events)
            ≡ map sealed (replies_to inbox m (replies_of replies)))
        × ((reply : Message) (u : AgentState V) → decrypted b (sealed reply) u ≡ (ok reply, u))
  process_one-received m topic s t replies b ops inbox group rounds handled calm decrypts up
        none_yet enough =
      let net = run InMemory.init ops in
      let new = run-IsFresh ops InMemory.init init-IsFresh in
      (
        reply_events a encrypted encrypts m (replies_of replies)
            ++ acks topic t.last_group t.last_msg_id,
        ap (λ r. r.1.log)
              (process_one_handles a encrypted encrypts m topic s t replies handled calm)
            ∙ append_assoc t.log _ _,
        unfold InMemory.subscribe in
            performed_all net.next_queue rounds inbox m (replies_of replies)
              (InMemory.subscribe inbox group net).0 topic t.last_group t.last_msg_id
              (subscribe-Owns inbox group net new none_yet) up (new.1 _ (omega arith)) enough,
        λ reply u. opened b reply u decrypts,
      )
