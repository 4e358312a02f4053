-- ===== src/Agent/Base/Redelivery.antt =====
-- A message that is delivered again and again, and whose handler raises each time.
use aqap.Prelude.{
  ℕ, zero, suc, ◌+◌, ◌≤◌, ◌<◌, String, true, false, Option, some, List, [], ◌∷◌, ◌++◌, get, ok, Exc,
  ◌>>=◌, try_else, ◌≡◌, ◌≢◌, refl, ap, ◌∙◌, arith, get-put, eq_refl, get_or-put_self,
  get_or-remove_self, Result-cases, inl, inr, resume,
}
use aqap.Value.{Fields}
use aqap.Message.{Message, to_dict, wire}
use aqap.Validate.{validate_message}
use aqap.Dlq.{dlq_topic}
use aqap.Agent.State.{Agent, AgentState, Event, published}
use aqap.Agent.Base.{
  msg_key, dlq_message, process_one, is_duplicate, is_unknown, accept, decrypted, consume,
}
use aqap.Agent.Base.Failure.{acks, count_of, Raises, process_one_retries, process_one_gives_up}
use aqap.Agent.Base.Once.{taken, consume_new}

module _ {W : Type 0} (a : Agent W) (topic : String) (id : Option String) (m : Message)
    (plain : Fields) (at : ℕ → ℕ) where
  -- the message as the handler gets it
  abbrev pub opened : Message
  opened = record m { payload = plain }

  -- the rounds of the consume loop on the first `n` deliveries, the `k`-th at the time `at k`
  unfoldable pub deliveries : ℕ → AgentState W → AgentState W
  deliveries zero s = s
  deliveries (suc n) s = (consume a topic (at n) id m (deliveries n s)).1

  -- The message is another agent's, it passes the validator, it has a type of the enum, and its payload
  -- can be decrypted, which leaves the world alone.
  pub record IsAcceptable : Type 0 where
    pub foreign : m.source ≢ a.agent_id
    pub valid : validate_message a.py (to_dict (wire m)) ≡ ok []
    pub known : is_unknown m.type ≡ false
    pub decrypts : (w : W) → a.decrypt_payload m.payload w ≡ (ok plain, w)

  consume_lem :
      (now : ℕ) (s : AgentState W)
      → IsAcceptable
      → s.running ≡ true
      → is_duplicate a now (get m.message_id s.processed_ids) ≡ false
      → (consume a topic now id m s).1 ≡ (process_one a opened topic (taken a topic now id m s)).1
  unfolding accept decrypted ◌>>=◌ try_else
  consume_lem now s h up new =
      let u = taken a topic now id m s in
      ap (λ r. r.1) (consume_new a topic now id m s up h.foreign new)
      ∙ elim (Result-cases (process_one a opened topic u).0) [
        | inl (done, e) ↦ rw (h.valid, h.known, h.decrypts u.world, e, resume) refl
        | inr (x, e) ↦ rw (h.valid, h.known, h.decrypts u.world, e, resume) refl
      ]

  -- Each delivery comes when the one before is no longer remembered.
  abbrev IsSpaced : Type 0
  IsSpaced = (k : ℕ) → at k + a.idempotency_ttl ≤ at (suc k)

  -- `k` failures have been counted, and nothing has been published or acknowledged; the agent takes
  -- the next delivery up.
  pub record IsPending (k : ℕ) (s t : AgentState W) : Type 0 where
    pub running : t.running ≡ true
    pub is_new : is_duplicate a (at k) (get m.message_id t.processed_ids) ≡ false
    pub count : count_of a opened t ≡ k
    pub log : t.log ≡ s.log
    pub faults : t.faults ≡ s.faults
    pub world : t.world ≡ s.world

  is_duplicate_late :
      (now ts : ℕ) (o : Option ℕ)
      → o ≡ some ts
      → ts + a.idempotency_ttl ≤ now
      → is_duplicate a now o ≡ false
  unfolding is_duplicate
  is_duplicate_late now ts o e late = rw e (ground (arith, late))

  get-taken :
      (now : ℕ) (t : AgentState W)
      → get m.message_id (taken a topic now id m t).processed_ids ≡ some now
  get-taken now t = rw (get-put, eq_refl m.message_id) refl

  deliveries-IsPending :
      (k : ℕ) (e : Exc) (s : AgentState W)
      → IsAcceptable
      → IsSpaced
      → Raises a opened e
      → IsPending 0 s s
      → k < a.max_retries
      → IsPending k s (deliveries k s)
  unfolding deliveries
  deliveries-IsPending zero e s h spaced raises ready below = ready
  deliveries-IsPending (suc k) e s h spaced raises ready below =
      let t : AgentState W = deliveries k s in
      let ih = deliveries-IsPending k e s h spaced raises ready (omega (arith, below)) in
      let u = taken a topic (at k) id m t in
      let step =
        consume_lem (at k) t h ih.running ih.is_new
        ∙ ap (λ r. r.1)
            (process_one_retries a opened e topic u raises (omega (arith, ih.count, below))) in
      record {
        running = ap (λ v. v.running) step ∙ ih.running;
        is_new =
            is_duplicate_late (at (suc k)) (at k) _
              (ap (λ v. get m.message_id v.processed_ids) step ∙ get-taken (at k) t) (spaced k);
        count =
            ap (λ v. count_of a opened v) step
            ∙ (get_or-put_self (msg_key opened) 0 (count_of a opened t + 1) t.retry_counts
                ∙ omega (arith, ih.count));
        log = ap (λ v. v.log) step ∙ ih.log;
        faults = ap (λ v. v.faults) step ∙ ih.faults;
        world = ap (λ v. v.world) step ∙ ih.world;
      }

  -- the log after the last delivery, where the transport raises nothing
  abbrev pub dead_letter_log : Exc → AgentState W → List Event
  dead_letter_log e s =
      let (f, w) = a.draw s.world in
      ((s.log
          ++ published dlq_topic (dlq_message a f (a.draw w).0 opened (a.text e) a.max_retries)
            ∷ [])
        ++ acks topic a.group id)
      ++ acks topic a.group id

  last_delivery :
      (n : ℕ) (e : Exc) (s : AgentState W)
      → IsAcceptable
      → IsSpaced
      → Raises a opened e
      → IsPending 0 s s
      → s.faults ≡ []
      → 0 < n
      → n ≡ a.max_retries
      → ((deliveries n s).log ≡ dead_letter_log e s) × (count_of a opened (deliveries n s) ≡ 0)
  unfolding deliveries
  last_delivery zero e s h spaced raises ready calm positive same = absurd (omega (arith, positive))
  last_delivery (suc k) e s h spaced raises ready calm positive same =
      let t : AgentState W = deliveries k s in
      let ih = deliveries-IsPending k e s h spaced raises ready (omega (arith, same)) in
      let u = taken a topic (at k) id m t in
      let step =
        consume_lem (at k) t h ih.running ih.is_new
        ∙ ap (λ r. r.1)
            (process_one_gives_up a opened e topic u raises (ih.faults ∙ calm)
              (omega (arith, ih.count, same))) in
      let total : count_of a opened t + 1 ≡ a.max_retries = omega (arith, ih.count, same) in
      (
        ap (λ v. v.log) step ∙ (rw (ih.log, ih.world, total)),
        ap (λ v. count_of a opened v) step ∙ get_or-remove_self (msg_key opened) 0 _,
      )

  -- A message of another sender passes the validator, has a type of the enum, and can be decrypted,
  -- which leaves the world alone; its handler always raises, and leaves the agent's fields alone. It is
  -- delivered again and again, each time the time to live or more after the delivery before, and
  -- nothing else comes between. Then each delivery is an attempt: before `max_retries` of them, which is
  -- positive, nothing is published or acknowledged, and with the last one the message, decrypted, with
  -- its error and the number of attempts, goes to the dead letter topic, it is acknowledged after that,
  -- and its count starts again at 0. The agent runs, the first delivery is no duplicate, the count
  -- starts at 0, and the transport raises nothing.
  pub deliveries_lem :
      (e : Exc) (s : AgentState W)
      → IsAcceptable
      → IsSpaced
      → Raises a opened e
      → IsPending 0 s s
      → s.faults ≡ []
      → 0 < a.max_retries
      → ((k : ℕ) → k < a.max_retries → IsPending k s (deliveries k s))
        × ((deliveries a.max_retries s).log ≡ dead_letter_log e s)
        × (count_of a opened (deliveries a.max_retries s) ≡ 0)
  deliveries_lem e s h spaced raises ready calm positive =
      let (log, count) = last_delivery a.max_retries e s h spaced raises ready calm positive refl in
      (λ k below. deliveries-IsPending k e s h spaced raises ready below, log, count)
