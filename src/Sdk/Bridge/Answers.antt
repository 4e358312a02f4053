-- ===== src/Sdk/Bridge/Answers.antt =====
-- What a connection that comes to its end has got: `handle` of sdk/aqap_sdk/bridge/__init__.py.
use mathlib.Core.Path.{subst}
use aqap.Prelude.{
  ℕ, String, true, Option, none, some, List, [], ◌∷◌, ◌++◌, Result, ok, err, bind, Exc, ◌>>=◌,
  try_else, ◌⊎◌, inl, inr, ◌≡◌, refl, Result-cases,
}
use aqap.Value.{Fields, str, end, field}
use aqap.Message.{RawMessage, Message, wire}
use aqap.Sdk.Producer.{
  ProducerState, Producer, Added, publish, stream_of, append_entry, ensure_connected_lem,
}
use aqap.Sdk.Message.{to_dict}
use aqap.Sdk.Bridge.{Bytes, Reader, Request}
use aqap.Sdk.Bridge.Serving.{
  Bridge, Connection, external_request, bridged, publish_message, drawn, reply, accepted, response,
  write, accept, refuse, receive, answer, handle, handled,
}

-- the same list, or one more behind it
abbrev Grows : {A : Type 0} → List A → List A → Type 0
Grows {A} xs ys = (ys ≡ xs) ⊎ ((e : A) × (ys ≡ xs ++ e ∷ []))

module _ {W : Type 0} (b : Bridge W) (read : Result (Option Request)) (s : Connection W) where
  -- The exception of the reading, or that of the work on the request.
  abbrev Raised : Exc → Type 0
  Raised x = (read ≡ err x) ⊎ ((r : Request) × (read ≡ ok (some r)) × ((accept b r s).0 ≡ err x))

  -- the bytes of the answer to an exception
  abbrev error_body : Exc → Result Bytes
  error_body x = bind (b.dumps (field "error" (str (b.text_of x)) end)) b.encode

  -- What has become of what was read, and why.
  pub data Served (t : Connection W) : Type 0 where
    accepted_by :
        (r : Request) (e : Added) (resp : Bytes)
        → read ≡ ok (some r)
        → (accept b r s).0 ≡ ok tt
        → t.producer.log ≡ s.producer.log ++ e ∷ []
        → t.written ≡ s.written ++ response "HTTP/1.1 202 Accepted" resp ∷ []
        → Served t
    refused_by :
        (x : Exc) (resp : Bytes)
        → Raised x
        → error_body x ≡ ok resp
        → Grows s.producer.log t.producer.log
        → t.written ≡ s.written ++ response "HTTP/1.1 500" resp ∷ []
        → Served t
    unasked : read ≡ ok none → t.producer.log ≡ s.producer.log → t.written ≡ s.written → Served t
    unanswered :
        (x y : Exc)
        → Raised x
        → error_body x ≡ err y
        → Grows s.producer.log t.producer.log
        → t.written ≡ s.written
        → Served t

module _ {W : Type 0} where
  -- One publication appends an entry or raises.
  data Appended (before : List Added) (r : Result String × ProducerState W) : Type 0 where
    appended :
        (id : String) (e : Added) → r.0 ≡ ok id → r.1.log ≡ before ++ e ∷ [] → Appended before r
    raises : (x : Exc) → r.0 ≡ err x → r.1.log ≡ before → Appended before r

  append_entry-Appended :
      (p : Producer W) (e : Added) (s : ProducerState W) → Appended s.log (append_entry p e s)
  unfolding append_entry
  append_entry-Appended p e s = elim (Result-cases (p.xadd s.world).0) [
    | inl (id, added) ↦ appended id e added (rw added refl)
    | inr (x, failed) ↦ raises x failed (rw failed refl)
  ]

  publish-Appended :
      (p : Producer W) (m : RawMessage) (maxlen : ℕ) (s : ProducerState W)
      → Appended s.log (publish p m maxlen s)
  unfolding publish
  publish-Appended p m maxlen s = elim (Result-cases (p.dumps (to_dict m))) [
    | inl (raw, dumped) ↦
        rw (ensure_connected_lem s, dumped)
          (append_entry-Appended p (record { stream = stream_of m; json = raw; maxlen = maxlen })
            (record s { connected = true }))
    | inr (x, failed) ↦ rw (ensure_connected_lem s, failed) (raises x refl refl)
  ]

  -- A response is written, or the connection is as it was and an exception is raised.
  data Replied (bytes : Result Bytes) (status : String) (before : Connection W)
      (r : Result (Unit {0}) × Connection W) : Type 0 where
    replied :
        (resp : Bytes)
        → bytes ≡ ok resp
        → r ≡ (ok tt, record before { written = before.written ++ response status resp ∷ [] })
        → Replied bytes status before r
    silent : (x : Exc) → bytes ≡ err x → r ≡ (err x, before) → Replied bytes status before r

  reply-Replied :
      (b : Bridge W) (status : String) (entries : Fields) (s : Connection W)
      → Replied (bind (b.dumps entries) b.encode) status s (reply b status entries s)
  unfolding reply write ◌>>=◌
  reply-Replied b status entries s = elim (Result-cases (bind (b.dumps entries) b.encode)) [
    | inl (resp, encoded) ↦ replied resp encoded (rw encoded refl)
    | inr (x, failed) ↦ silent x failed (rw failed refl)
  ]

  -- what `accept` comes to
  data Accepting (log : List Added) (written : List Bytes) (r : Result (Unit {0}) × Connection W)
      : Type 0 where
    done :
        (e : Added) (resp : Bytes)
        → r.0 ≡ ok tt
        → r.1.producer.log ≡ log ++ e ∷ []
        → r.1.written ≡ written ++ response "HTTP/1.1 202 Accepted" resp ∷ []
        → Accepting log written r
    fails :
        (x : Exc)
        → r.0 ≡ err x
        → Grows log r.1.producer.log
        → r.1.written ≡ written
        → Accepting log written r

  publish_and_reply-Accepting :
      (b : Bridge W) (m : Message) (s : Connection W)
      → Accepting s.producer.log s.written
          ((publish_message b m >>= λ id. reply b "HTTP/1.1 202 Accepted" (accepted m)) s)
  unfolding publish_message ◌>>=◌
  publish_and_reply-Accepting b m s = elim (publish-Appended b.producer (wire m) 10000 s.producer) [
    | raises x failed same ↦ fails x (rw failed refl) (rw failed (inl same)) (rw failed refl)
    | appended id e published longer ↦
        elim (reply-Replied b "HTTP/1.1 202 Accepted" (accepted m)
          (record s { producer = (publish b.producer (wire m) 10000 s.producer).1 })) [
            | replied resp encoded written ↦
                done e resp (rw (published, written) refl) (rw (published, written) longer)
                  (rw (published, written) refl)
            | silent x unencoded failed ↦
                fails x (rw (published, failed) refl) (rw (published, failed) (inr (e, longer)))
                  (rw (published, failed) refl)
          ]
  ]

  accept-Accepting :
      (b : Bridge W) (r : Request) (s : Connection W)
      → Accepting s.producer.log s.written (accept b r s)
  unfolding accept drawn ◌>>=◌
  accept-Accepting b r s = elim (Result-cases (external_request b r.body)) [
    | inl (payload, read) ↦ rw read (
        let (f, w) = b.draw s.producer.world in
        publish_and_reply-Accepting b (bridged b f r payload)
          (record s { producer = record s.producer { world = w } }))
    | inr (x, failed) ↦ fails x (rw failed refl) (rw failed (inl refl)) (rw failed refl)
  ]

  refuse-Served :
      (b : Bridge W) (read : Result (Option Request)) (x : Exc) (s t : Connection W)
      → Raised b read s x
      → Grows s.producer.log t.producer.log
      → t.written ≡ s.written
      → Served b read s (refuse b x t).1
  unfolding refuse
  refuse-Served b read x s t raised longer same =
      elim (reply-Replied b "HTTP/1.1 500" (field "error" (str (b.text_of x)) end) t) [
        | replied resp encoded e ↦ rw e (refused_by x resp raised encoded longer (rw same refl))
        | silent y failed e ↦ rw e (unanswered x y raised failed longer same)
      ]

  answer-Served :
      (b : Bridge W) (read : Result (Option Request)) (s : Connection W)
      → Served b read s (answer b read s).1
  unfolding answer refuse try_else
  answer-Served b (ok none) s = unasked refl refl refl
  answer-Served b (ok (some r)) s = elim (accept-Accepting b r s) [
    | done e resp fine longer written ↦ rw fine (accepted_by r e resp refl fine longer written)
    | fails x failed longer same ↦
        rw failed
          (refuse-Served b (ok (some r)) x s (accept b r s).1 (inr (r, refl, failed)) longer same)
  ]
  answer-Served b (err x) s = refuse-Served b (err x) x s s (inl refl) (inl refl) refl

  closed-Served :
      (b : Bridge W) (read : Result (Option Request)) (s t : Connection W)
      → Served b read s t
      → Served b read s (record t { closed = true })
  closed-Served b read s t (accepted_by r e resp asked fine longer written) =
      accepted_by r e resp asked fine longer written
  closed-Served b read s t (refused_by x resp raised encoded longer written) =
      refused_by x resp raised encoded longer written
  closed-Served b read s t (unasked nothing same same') = unasked nothing same same'
  closed-Served b read s t (unanswered x y raised failed longer same) =
      unanswered x y raised failed longer same

  handled-Served :
      (b : Bridge W) (s t : Connection W) (res : Result (Unit {0}))
      (o : Option (Result (Option Request)))
      → handled b s o ≡ some (res, t)
      → (read : Result (Option Request)) × (o ≡ some read) × (t.closed ≡ true) × Served b read s t
  handled-Served b s t res none e = cc
  handled-Served b s t res (some read) e =
      let same : record (answer b read s).1 { closed = true } ≡ t = cc in
      let (closed, served) =
        subst (λ u. (u.closed ≡ true) × Served b read s u) same
          (refl, closed-Served b read s (answer b read s).1 (answer-Served b read s)) in
      (read, refl, closed, served)

  -- A connection whose handler comes to its end is closed, whatever raises, and has one answer or
  -- none: 202 where a request was read and the work on it raised nothing, and then one entry is
  -- appended; 500 where the reading or that work raised and the error can be encoded, and then at most
  -- one entry is appended; and none where the client sent nothing, which appends nothing, or where the
  -- error of the reading or of the work cannot be encoded.
  pub handle-Served :
      (fuel : ℕ) (b : Bridge W) (r : Reader) (s t : Connection W) (res : Result (Unit {0}))
      → handle fuel b r s ≡ some (res, t)
      → (read : Result (Option Request)) × (receive fuel b r ≡ some read)
        × (t.closed ≡ true)
        × Served b read s t
  unfolding handle
  handle-Served fuel b r s t res ended = handled-Served b s t res (receive fuel b r) ended
