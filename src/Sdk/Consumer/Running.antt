-- ===== src/Sdk/Consumer/Running.antt =====
-- `start`, `stop` and the loop of sdk/aqap_sdk/consumer.py.
use aqap.Prelude.{
  ℕ, zero, suc, String, Bool, true, false, Option, none, some, List, [], ◌∷◌, ◌++◌, if◌then◌else◌,
  Dict, Result, keep, Exec, ◌>>=◌, Keeps, Keeps-then, Keeps-lift, ◌≡◌, refl, ◌∙◌, arith,
}
use aqap.Value.{Fields}
use aqap.Validate.{Issue}
use aqap.Sdk.Message.{sdk_validate_message}
use aqap.Sdk.Consumer.{
  parse, Datum, Delivery, group_created, closed, Consumer, ConsumerState, call, on_world,
  decode_message, count_acked, xack, settle, attempt, process_message, count_received, receive_all,
  receive_streams, consume_once,
}
use aqap.Sdk.Consumer.Pending.{
  ids_of, is_stale, is_claimable, ack_all, process_all, claim, claim_pending,
}

-- `n` rounds without a call of `stop`
abbrev pub undisturbed : ℕ → List Bool
undisturbed zero = []
undisturbed (suc n) = false ∷ undisturbed n

module _ {W : Type 0} where
  -- A round of the loop. An exception ends the round, not the loop.
  unfoldable pub round : Consumer W → ConsumerState W → ConsumerState W
  unfolding consume_once claim_pending ◌>>=◌
  round c s = ((consume_once c >>= λ _. claim_pending c) s).1

  unfoldable pub stop : ConsumerState W → ConsumerState W
  stop s = record s { running = false }

  abbrev stop_if : Bool → ConsumerState W → ConsumerState W
  stop_if true s = stop s
  stop_if false s = s

  -- `while self._running`. Each entry of the list says of a round whether `stop` is called while it
  -- runs; `none` is a loop that has not ended after these rounds.
  unfoldable loop : Consumer W → List Bool → ConsumerState W → Option (ConsumerState W)
  unfolding round stop
  loop c [] s = if s.running then none else some s
  loop c (stopped ∷ later) s = elim s.running [
    | true ↦ loop c later (stop_if stopped (round c s))
    | false ↦ some s
  ]

  -- `start` up to the loop; the group may exist already
  unfoldable pub begin : Consumer W → ConsumerState W → ConsumerState W
  begin c s =
      let (r, s') = call s.faults (group_created c.topic c.group) s in record s' { running = true }

  abbrev pub close : ConsumerState W → Result (Unit {0}) × ConsumerState W
  close s = call s.faults closed s

  unfoldable pub start :
      Consumer W → List Bool → ConsumerState W → Option (Result (Unit {0}) × ConsumerState W)
  unfolding begin loop
  start c stops s = elim (loop c stops (begin c s)) [ none ↦ none | some t ↦ some (close t) ]

  -- A computation that leaves the flag `_running` alone.
  abbrev KeepsRunning : {A : Type 0} → Exec (ConsumerState W) A → Type 0
  KeepsRunning m = Keeps (λ (s : ConsumerState W). s.running) m

  on_world-Keeps : {A : Type 0} (f : W → Result A × W) → KeepsRunning (on_world f)
  on_world-Keeps f = record { kept = λ s. refl }

  xack-Keeps : (c : Consumer W) (msg_id : String) → KeepsRunning (xack c msg_id)
  unfolding xack
  xack-Keeps c msg_id = record { kept = λ s. ground arith }

  settle-Keeps :
      (c : Consumer W) (msg_id : String) (entries : Fields) (errors : List Issue)
      → KeepsRunning (settle c msg_id entries errors)
  unfolding settle count_acked
  settle-Keeps c msg_id entries (e ∷ errors) = xack-Keeps c msg_id
  settle-Keeps c msg_id entries [] =
      Keeps-then _ _ (on_world-Keeps (decode_message c entries)) (λ message.
        Keeps-then _ _ (on_world-Keeps (c.handler message))
          (λ _. Keeps-then _ _ (xack-Keeps c msg_id) (λ _. record { kept = λ s. refl })))

  attempt-Keeps :
      (c : Consumer W) (msg_id : String) (msg_data : Dict Datum)
      → KeepsRunning (attempt c msg_id msg_data)
  unfolding attempt
  attempt-Keeps c msg_id msg_data = Keeps-then _ _ (Keeps-lift (parse c msg_data)) (λ entries.
      Keeps-then _ _ (Keeps-lift (sdk_validate_message c.py entries))
        (λ errors. settle-Keeps c msg_id entries errors))

  process_message-running :
      (c : Consumer W) (msg_id : String) (msg_data : Dict Datum) (s : ConsumerState W)
      → (process_message c msg_id msg_data s).running ≡ s.running
  unfolding process_message
  process_message-running c msg_id msg_data s =
      ground (arith, (attempt-Keeps c msg_id msg_data).kept s)

  receive_all-running :
      (c : Consumer W) (messages : List Delivery) (s : ConsumerState W)
      → (receive_all c messages s).running ≡ s.running
  unfolding receive_all
  receive_all-running c [] s = refl
  receive_all-running c ((msg_id, msg_data) ∷ messages) s =
      receive_all-running c messages (process_message c msg_id msg_data (count_received s))
      ∙ process_message-running c msg_id msg_data (count_received s)

  receive_streams-running :
      (c : Consumer W) (results : List (String × List Delivery)) (s : ConsumerState W)
      → (receive_streams c results s).running ≡ s.running
  unfolding receive_streams
  receive_streams-running c [] s = refl
  receive_streams-running c ((stream_name, messages) ∷ results) s =
      receive_streams-running c results (receive_all c messages s)
      ∙ receive_all-running c messages s

  process_all-running :
      (c : Consumer W) (messages : List Delivery) (s : ConsumerState W)
      → (process_all c messages s).running ≡ s.running
  unfolding process_all
  process_all-running c [] s = refl
  process_all-running c ((msg_id, msg_data) ∷ messages) s =
      process_all-running c messages (process_message c msg_id msg_data s)
      ∙ process_message-running c msg_id msg_data s

  ack_all-Keeps : (c : Consumer W) (ids : List String) → KeepsRunning (ack_all c ids)
  unfolding ack_all
  ack_all-Keeps c [] = record { kept = λ s. refl }
  ack_all-Keeps c (mid ∷ ids) = Keeps-then _ _ (xack-Keeps c mid) (λ _. ack_all-Keeps c ids)

  claim-Keeps : (c : Consumer W) (ids : List String) → KeepsRunning (claim c ids)
  unfolding claim
  claim-Keeps c [] = record { kept = λ s. refl }
  claim-Keeps c (mid ∷ ids) =
      Keeps-then _ _ (record { kept = λ s. ground arith })
        (λ _.
          Keeps-then _ _ (on_world-Keeps (c.xclaim c.claim_interval (mid ∷ ids)))
            (λ messages. record { kept = process_all-running c messages }))

  consume_once-Keeps : (c : Consumer W) → KeepsRunning (consume_once c)
  unfolding consume_once
  consume_once-Keeps c =
      Keeps-then _ _ (on_world-Keeps (c.xreadgroup c.batch_size c.poll_interval))
        (λ results. record { kept = receive_streams-running c results })

  claim_pending-Keeps : (c : Consumer W) → KeepsRunning (claim_pending c)
  unfolding claim_pending
  claim_pending-Keeps c = Keeps-then _ _ (on_world-Keeps (c.xpending_range 10)) (λ pending.
      Keeps-then _ _ (ack_all-Keeps c (ids_of (keep (is_stale c) pending)))
        (λ _. claim-Keeps c (ids_of (keep (is_claimable c) pending))))

  round-running : (c : Consumer W) (s : ConsumerState W) → (round c s).running ≡ s.running
  unfolding round
  round-running c s = (Keeps-then _ _ (consume_once-Keeps c) (λ _. claim_pending-Keeps c)).kept s

  -- `n` rounds, one after the other
  abbrev pub rounds : Consumer W → ℕ → ConsumerState W → ConsumerState W
  rounds c zero s = s
  rounds c (suc n) s = rounds c n (round c s)

  loop_step :
      (c : Consumer W) (stopped : Bool) (later : List Bool) (s : ConsumerState W)
      → s.running ≡ true
      → loop c (stopped ∷ later) s ≡ loop c later (stop_if stopped (round c s))
  unfolding loop
  loop_step c stopped later s h = rw h refl

  loop-stop :
      (c : Consumer W) (later : List Bool) (s : ConsumerState W)
      → loop c later (stop s) ≡ some (stop s)
  unfolding loop stop
  loop-stop c [] s = refl
  loop-stop c (stopped ∷ later) s = refl

  loop_lem :
      (c : Consumer W) (n : ℕ) (later : List Bool) (s : ConsumerState W)
      → s.running ≡ true
      → loop c (undisturbed n ++ true ∷ later) s ≡ some (stop (rounds c (suc n) s))
  loop_lem c zero later s h = loop_step c true later s h ∙ loop-stop c later (round c s)
  loop_lem c (suc n) later s h =
      loop_step c false (undisturbed n ++ true ∷ later) s h
      ∙ loop_lem c n later (round c s) (round-running c s ∙ h)

  -- Whatever the client and the handler do in the rounds, exceptions included: a consumer that
  -- stop() is called on in a round finishes that round and no other, closes the connection and ends.
  pub start_ends :
      (c : Consumer W) (n : ℕ) (later : List Bool) (s : ConsumerState W)
      → start c (undisturbed n ++ true ∷ later) s
        ≡ some (close (stop (rounds c (suc n) (begin c s))))
  unfolding start begin
  start_ends c n later s = rw (loop_lem c n later (begin c s) refl, start) refl
