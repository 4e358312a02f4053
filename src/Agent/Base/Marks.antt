-- ===== src/Agent/Base/Marks.antt =====
-- What handling a message leaves alone: the identifiers that have been seen, and whether the agent
-- runs.
use aqap.Prelude.{
  ℕ, ◌+◌, String, Bool, true, false, Option, none, some, List, [], ◌∷◌, get_or, put, remove, Result,
  ok, err, Exc, Exec, ◌==◌, if◌then◌else◌, return, ◌>>=◌, resume, caught, try_else, leb, ◌≡◌, refl,
  ◌∙◌, Bool-cases, Option-cases, inl, inr,
}
use aqap.Message.{Message}
use aqap.Agent.State.{
  Agent, AgentState, Event, published, acked, call, publish, ack, ack_last, with_world, fresh,
}
use aqap.Agent.Base.{
  goes_on, msg_key, to_dlq, handle_failure, send_replies, attempt, finally, after_failure,
  process_one, reject_unknown, decrypted, accept, is_nil, is_unknown,
}

module _ {W : Type 0} where
  abbrev SameMarks : AgentState W → AgentState W → Type 0
  SameMarks s t = (t.processed_ids ≡ s.processed_ids) × (t.running ≡ s.running)

  module _ {A : Type 0} where
    pub record KeepsMarks (m : Exec (AgentState W) A) : Type 0 where
      pub at : (s : AgentState W) → SameMarks s (m s).1

  trans : (s t u : AgentState W) → SameMarks s t → SameMarks t u → SameMarks s u
  trans s t u (p, q) (p', q') = (p' ∙ p, q' ∙ q)

  call-marks : (l : List Bool) (e : Event) (s : AgentState W) → SameMarks s (call l e s).1
  call-marks [] e s = (refl, refl)
  call-marks (false ∷ l) e s = (refl, refl)
  call-marks (true ∷ l) e s = (refl, refl)

  publish-KeepsMarks : (topic : String) (m : Message) → KeepsMarks (publish topic m)
  unfolding publish
  publish-KeepsMarks topic m = record { at = λ s. call-marks s.faults (published topic m) s }

  ack_named-marks :
      (topic message_id : String) (s : AgentState W)
      → SameMarks s (if message_id == "" then (ok tt, s) else ack topic message_id s.last_group s).1
  unfolding ack
  ack_named-marks topic message_id s = elim (Bool-cases (message_id == "")) [
    | inl e ↦ rw e (refl, refl)
    | inr e ↦ rw e (call-marks s.faults (acked topic message_id s.last_group) s)
  ]

  ack_last-KeepsMarks : (topic : String) → KeepsMarks (ack_last topic)
  unfolding ack_last
  ack_last-KeepsMarks topic = record {
    at = λ s. elim (Option-cases s.last_msg_id) [
      | inl e ↦ rw (e, ack_last) (refl, refl)
      | inr (message_id, e) ↦ rw (e, ack_last) (ack_named-marks topic message_id s)
    ];
  }

  fresh-KeepsMarks : (a : Agent W) → KeepsMarks (fresh a)
  fresh-KeepsMarks a = record { at = λ s. (refl, refl) }

module _ {W A : Type 0} where
  return-KeepsMarks : (x : A) → KeepsMarks {W = W} (return x)
  return-KeepsMarks x = record { at = λ s. (refl, refl) }

  result-KeepsMarks : (r : Result A) → KeepsMarks {W = W} (λ s. (r, s))
  result-KeepsMarks r = record { at = λ s. (refl, refl) }

  with_world-KeepsMarks : (f : W → Result A × W) → KeepsMarks (with_world f)
  with_world-KeepsMarks f = record { at = λ s. (refl, refl) }

module _ {W A B : Type 0} where
  resume-marks :
      (f : A → Exec (AgentState W) B) (r : Result A) (s : AgentState W)
      → ((x : A) → KeepsMarks (f x))
      → SameMarks s (resume f r s).1
  resume-marks f (ok x) s k = (k x).at s
  resume-marks f (err e) s k = (refl, refl)

  bind-KeepsMarks :
      (m : Exec (AgentState W) A) (f : A → Exec (AgentState W) B)
      → KeepsMarks m
      → ((x : A) → KeepsMarks (f x))
      → KeepsMarks (m >>= f)
  unfolding ◌>>=◌
  bind-KeepsMarks m f k l = record {
    at = λ s.
        trans s (m s).1 (resume f (m s).0 (m s).1).1 (k.at s) (resume-marks f (m s).0 (m s).1 l);
  }

  caught-marks :
      (f : A → Exec (AgentState W) B) (g : Exc → Exec (AgentState W) B) (r : Result A)
      (s : AgentState W)
      → ((x : A) → KeepsMarks (f x))
      → ((e : Exc) → KeepsMarks (g e))
      → SameMarks s (caught f g r s).1
  caught-marks f g (ok x) s k l = (k x).at s
  caught-marks f g (err e) s k l = (l e).at s

  try_else-KeepsMarks :
      (m : Exec (AgentState W) A) (f : A → Exec (AgentState W) B) (g : Exc → Exec (AgentState W) B)
      → KeepsMarks m
      → ((x : A) → KeepsMarks (f x))
      → ((e : Exc) → KeepsMarks (g e))
      → KeepsMarks (try_else m f g)
  unfolding try_else
  try_else-KeepsMarks m f g k l j = record {
    at = λ s.
        trans s (m s).1 (caught f g (m s).0 (m s).1).1 (k.at s)
          (caught-marks f g (m s).0 (m s).1 l j);
  }

module _ {W : Type 0} (a : Agent W) where
  forget-KeepsMarks :
      (m : Message)
      → KeepsMarks {W = W}
          (λ s. (ok tt, record s { retry_counts = remove (msg_key m) s.retry_counts }))
  forget-KeepsMarks m = record { at = λ s. (refl, refl) }

  current-KeepsMarks :
      (o : Option Message) → KeepsMarks {W = W} (λ s. (ok tt, record s { current_message = o }))
  current-KeepsMarks o = record { at = λ s. (refl, refl) }

  to_dlq-KeepsMarks :
      (m : Message) (error : String) (n : ℕ) (topic : String)
      → KeepsMarks (to_dlq a m error n topic)
  unfolding to_dlq
  to_dlq-KeepsMarks m error n topic = bind-KeepsMarks _ _ (fresh-KeepsMarks a) λ f.
      bind-KeepsMarks _ _ (fresh-KeepsMarks a) λ g.
        bind-KeepsMarks _ _ (publish-KeepsMarks _ _) λ _.
          bind-KeepsMarks _ _ (forget-KeepsMarks m)
            λ _. bind-KeepsMarks _ _ (ack_last-KeepsMarks topic) λ _. return-KeepsMarks true

  handle_failure-KeepsMarks :
      (m : Message) (error topic : String) → KeepsMarks (handle_failure a m error topic)
  unfolding handle_failure
  handle_failure-KeepsMarks m error topic = record {
    at = λ s.
        let n = get_or (msg_key m) 0 s.retry_counts + 1 in
        let t : AgentState W = record s { retry_counts = put (msg_key m) n s.retry_counts } in
        elim (Bool-cases (leb a.max_retries n)) [
          | inl limit ↦ rw limit ((to_dlq-KeepsMarks m error n topic).at t)
          | inr below ↦ rw below (refl, refl)
        ];
  }

  send_replies-KeepsMarks :
      (m : Message) (replies : List Message) → KeepsMarks (send_replies a m replies)
  unfolding send_replies
  send_replies-KeepsMarks m [] = return-KeepsMarks tt
  send_replies-KeepsMarks m (reply ∷ replies) =
      bind-KeepsMarks _ _ (with_world-KeepsMarks (a.encrypt_payload reply.payload)) λ payload.
        bind-KeepsMarks _ _ (publish-KeepsMarks _ _) λ _. send_replies-KeepsMarks m replies

  finally-KeepsMarks :
      (b : Bool) (topic : String) (r : Result Bool) → KeepsMarks (finally a b topic r)
  unfolding finally
  finally-KeepsMarks true topic r =
      bind-KeepsMarks _ _ (ack_last-KeepsMarks topic) λ _. result-KeepsMarks r
  finally-KeepsMarks false topic r = result-KeepsMarks r

  after_failure-KeepsMarks :
      (topic : String) (r : Result Bool) → KeepsMarks (after_failure a topic r)
  unfolding after_failure
  after_failure-KeepsMarks topic (ok true) = finally-KeepsMarks true topic (ok true)
  after_failure-KeepsMarks topic (ok false) = finally-KeepsMarks false topic (ok false)
  after_failure-KeepsMarks topic (err e) = finally-KeepsMarks true topic (err e)

  reject_unknown-KeepsMarks : (m : Message) → KeepsMarks (reject_unknown a m)
  unfolding reject_unknown
  reject_unknown-KeepsMarks m = bind-KeepsMarks _ _ (fresh-KeepsMarks a) λ f. publish-KeepsMarks _ _

  decrypted-KeepsMarks : (m : Message) → KeepsMarks (decrypted a m)
  unfolding decrypted
  decrypted-KeepsMarks m =
      try_else-KeepsMarks _ _ _ (with_world-KeepsMarks (a.decrypt_payload m.payload))
        (λ payload. return-KeepsMarks (record m { payload = payload })) (λ e. return-KeepsMarks m)

  module _ (handles : (m : Message) → KeepsMarks (a.handle_message m)) where
    attempt-KeepsMarks : (m : Message) → KeepsMarks (attempt a m)
    unfolding attempt
    attempt-KeepsMarks m = bind-KeepsMarks _ _ (current-KeepsMarks (some m)) λ _.
        bind-KeepsMarks _ _ (handles m) λ replies.
          bind-KeepsMarks _ _ (current-KeepsMarks none)
            λ _. bind-KeepsMarks _ _ (send_replies-KeepsMarks m _) λ _. forget-KeepsMarks m

    process_one-KeepsMarks : (m : Message) (topic : String) → KeepsMarks (process_one a m topic)
    unfolding process_one
    process_one-KeepsMarks m topic =
        try_else-KeepsMarks _ _ _ (attempt-KeepsMarks m)
          (λ _. finally-KeepsMarks true topic (ok true))
          (λ e. record {
            at = λ s.
                let t : AgentState W = record s { current_message = none } in
                let f = handle_failure a m (a.text e) topic in
                trans t (f t).1 (after_failure a topic (f t).0 (f t).1).1
                  ((handle_failure-KeepsMarks m (a.text e) topic).at t)
                  ((after_failure-KeepsMarks topic (f t).0).at (f t).1);
          })

    -- Handling a message changes neither the seen identifiers nor whether the agent runs.
    pub accept-KeepsMarks : (m : Message) (topic : String) → KeepsMarks (accept a m topic)
    unfolding accept
    accept-KeepsMarks m topic = bind-KeepsMarks _ _ (result-KeepsMarks _) λ issues.
        elim (Bool-cases (is_nil issues)) [
          | inr bad ↦ rw bad (return-KeepsMarks goes_on)
          | inl good ↦ rw good (elim (Bool-cases (is_unknown m.type)) [
            | inl u ↦
                rw u
                  (bind-KeepsMarks _ _ (reject_unknown-KeepsMarks m) λ _. return-KeepsMarks goes_on)
            | inr k ↦ rw k (
                bind-KeepsMarks _ _ (decrypted-KeepsMarks m) λ m'.
                  bind-KeepsMarks _ _ (process_one-KeepsMarks m' topic)
                    λ _. return-KeepsMarks goes_on)
          ])
        ]
