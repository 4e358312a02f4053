-- ===== src/Agent/Base/Failure.antt =====
-- Retries and dead letters: what `process_one` does with a message whose handler raises.
use aqap.Prelude.{
  ℕ, ◌+◌, ◌≤◌, ◌<◌, String, Bool, true, false, Option, none, some, List, [], ◌∷◌, ◌++◌, get_or, put,
  remove, Result, ok, err, Exc, ◌==◌, if◌then◌else◌, ◌>>=◌, try_else, ◌≡◌, ◌∙◌, arith,
}
use mathlib.Core.List.{append-nil}
use aqap.Message.{Message}
use aqap.Dlq.{dlq_topic}
use aqap.Agent.State.{Agent, AgentState, Event, published, acked, publish, ack_last}
use aqap.Agent.Base.{
  msg_key, dlq_message, to_dlq, handle_failure, attempt, finally, after_failure, process_one,
}

-- what `ack_last` adds to the log of calls
abbrev pub acks : String → String → Option String → List Event
acks topic group none = []
acks topic group (some id) = if id == "" then [] else acked topic id group ∷ []

module _ {W : Type 0} (a : Agent W) where
  abbrev pub count_of : Message → AgentState W → ℕ
  count_of m s = get_or (msg_key m) 0 s.retry_counts

  ack_last_calm :
      (topic : String) (s : AgentState W)
      → s.faults ≡ []
      → ack_last topic s
        ≡ (ok tt, record s { log = s.log ++ acks topic s.last_group s.last_msg_id })
  unfolding ack_last
  ack_last_calm topic s calm = ground (arith, append-nil s.log)

  pub finally_calm :
      (topic : String) (r : Result Bool) (s : AgentState W)
      → s.faults ≡ []
      → finally a true topic r s
        ≡ (r, record s { log = s.log ++ acks topic s.last_group s.last_msg_id })
  unfolding finally ◌>>=◌
  finally_calm topic r s calm = rw (ack_last_calm topic s calm)

  -- The handler raises, and leaves the agent's own fields as it found them.
  abbrev pub Raises : Message → Exc → Type 0
  Raises m e = (s : AgentState W) → a.handle_message m s ≡ (err e, s)

  -- the state in which a failed attempt leaves the agent before the failure is counted
  abbrev pub idle : AgentState W → AgentState W
  idle s = record s { current_message = none }

  pub process_one-Raises :
      (m : Message) (e : Exc) (topic : String) (s : AgentState W)
      → Raises m e
      → process_one a m topic s
        ≡ (let r = handle_failure a m (a.text e) topic (idle s) in after_failure a topic r.0 r.1)
  unfolding process_one attempt ◌>>=◌ try_else
  process_one-Raises m e topic s h = rw (h (record s { current_message = some m }))

  -- A failure below the limit is counted, and nothing is published or acknowledged.
  pub process_one_retries :
      (m : Message) (e : Exc) (topic : String) (s : AgentState W)
      → Raises m e
      → count_of m s + 1 < a.max_retries
      → process_one a m topic s ≡ (
        ok false,
        record s {
          current_message = none;
          retry_counts = put (msg_key m) (count_of m s + 1) s.retry_counts;
        },
      )
  unfolding handle_failure after_failure finally ◌>>=◌
  process_one_retries m e topic s h below = process_one-Raises m e topic s h ∙ ground arith

  pub publish_calm :
      (topic : String) (m : Message) (s : AgentState W)
      → s.faults ≡ []
      → publish topic m s ≡ (ok tt, record s { log = s.log ++ published topic m ∷ [] })
  unfolding publish
  publish_calm topic m s calm = ground arith

  -- the dead letter of a message whose handler raised `e` in the state `s`
  abbrev pub letter : Message → Exc → AgentState W → Message
  letter m e s =
      let (f, w) = a.draw s.world in dlq_message a f (a.draw w).0 m (a.text e) (count_of m s + 1)

  drawn : AgentState W → AgentState W
  drawn s = record s { world = (a.draw (a.draw s.world).1).1 }

  to_dlq_calm :
      (m : Message) (error : String) (n : ℕ) (topic : String) (s : AgentState W)
      → s.faults ≡ []
      → to_dlq a m error n topic s ≡ (
        ok true,
        record s {
          retry_counts = remove (msg_key m) s.retry_counts;
          log =
              (s.log
                ++ published dlq_topic
                    (dlq_message a (a.draw s.world).0 (a.draw (a.draw s.world).1).0 m error n)
                  ∷ [])
              ++ acks topic s.last_group s.last_msg_id;
          world = (a.draw (a.draw s.world).1).1;
        },
      )
  unfolding to_dlq ◌>>=◌
  to_dlq_calm m error n topic s calm =
      let d = dlq_message a (a.draw s.world).0 (a.draw (a.draw s.world).1).0 m error n in
      let t : AgentState W = record s { world = (a.draw (a.draw s.world).1).1 } in
      let u : AgentState W = record t { log = s.log ++ published dlq_topic d ∷ [] } in
      rw (
        publish_calm dlq_topic d t calm,
        ack_last_calm topic (record u { retry_counts = remove (msg_key m) s.retry_counts }) calm,
      )

  unfoldable pub counted : Message → AgentState W → AgentState W
  counted m s = record s { retry_counts = put (msg_key m) (count_of m s + 1) s.retry_counts }

  pub handle_failure_limit :
      (m : Message) (error topic : String) (s : AgentState W)
      → a.max_retries ≤ count_of m s + 1
      → handle_failure a m error topic s ≡ to_dlq a m error (count_of m s + 1) topic (counted m s)
  unfolding handle_failure counted
  handle_failure_limit m error topic s limit = ground arith

  -- A failure at the limit publishes the dead letter, acknowledges the message, as often as the
  -- code does it, and forgets the count.
  pub process_one_gives_up :
      (m : Message) (e : Exc) (topic : String) (s : AgentState W)
      → Raises m e
      → s.faults ≡ []
      → a.max_retries ≤ count_of m s + 1
      → process_one a m topic s ≡ (
        ok true,
        record s {
          current_message = none;
          retry_counts = remove (msg_key m) (put (msg_key m) (count_of m s + 1) s.retry_counts);
          log =
              ((s.log ++ published dlq_topic (letter m e s) ∷ [])
                ++ acks topic s.last_group s.last_msg_id)
              ++ acks topic s.last_group s.last_msg_id;
          world = (a.draw (a.draw s.world).1).1;
        },
      )
  unfolding after_failure finally counted ◌>>=◌
  process_one_gives_up m e topic s h calm limit =
      process_one-Raises m e topic s h
      ∙ (rw
          (
            handle_failure_limit m (a.text e) topic (idle s) limit,
            to_dlq_calm m (a.text e) (count_of m s + 1) topic (counted m (idle s)) calm,
          )
          (finally_calm topic (ok true) _ calm))
