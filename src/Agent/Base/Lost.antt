-- ===== src/Agent/Base/Lost.antt =====
-- What becomes of a message when the dead letter cannot be published.
use aqap.Prelude.{
  ℕ, ◌+◌, ◌≤◌, String, true, some, [], ◌∷◌, ◌++◌, err, Exc, raised, ◌>>=◌, ◌≡◌, ◌≢◌, arith, eq_iff,
}
use aqap.Message.{Message}
use aqap.Agent.State.{Agent, AgentState, acked, publish, ack, ack_last}
use aqap.Agent.Base.{to_dlq, finally, after_failure, process_one}
use aqap.Agent.Base.Failure.{
  Raises, count_of, counted, idle, process_one-Raises, handle_failure_limit,
}

module _ {W : Type 0} (a : Agent W) where
  to_dlq_raises :
      (m : Message) (error : String) (n : ℕ) (topic : String) (s : AgentState W)
      → s.faults ≡ true ∷ []
      → to_dlq a m error n topic s ≡ (
        err (raised "transport"),
        record s { faults = []; world = (a.draw (a.draw s.world).1).1 },
      )
  unfolding to_dlq publish ◌>>=◌
  to_dlq_raises m error n topic s down = ground arith

  -- The last attempt of a message with a transport identifier fails, and so does the publication of
  -- the dead letter: `process_one` raises, and its `finally` has acknowledged the message, which
  -- was published nowhere.
  pub process_one_loses :
      (m : Message) (e : Exc) (topic : String) (id : String) (s : AgentState W)
      → Raises a m e
      → a.max_retries ≤ count_of a m s + 1
      → s.faults ≡ true ∷ []
      → s.last_msg_id ≡ some id
      → id ≢ ""
      → ((process_one a m topic s).0 ≡ err (raised "transport"))
        × ((process_one a m topic s).1.log ≡ s.log ++ acked topic id s.last_group ∷ [])
  unfolding after_failure finally ack_last ack counted ◌>>=◌
  process_one_loses m e topic id s h limit down known named =
      rw
        (
          process_one-Raises a m e topic s h,
          handle_failure_limit a m (a.text e) topic (idle a s) limit,
          to_dlq_raises m (a.text e) (count_of a m s + 1) topic (counted a m (idle a s)) down,
        )
        (ground (arith, eq_iff id ""))
