-- ===== src/Sdk/Consumer/Settling.antt =====
-- Which deliveries the SDK's consumer acknowledges, and what it counts.
use aqap.Prelude.{
  ℕ, ◌+◌, suc, String, List, [], ◌∷◌, ◌++◌, Dict, Result, ok, err, Exec, resume, Result-cases, inl,
  inr, ◌>>=◌, ◌≡◌, refl, arith, Bool, true, false, Exc, ap, sym, ◌∙◌, length, length-append,
}
use mathlib.Core.Path.{subst}
use mathlib.Core.List.{append_assoc, append-nil}
use aqap.Value.{Value, Fields}
use aqap.Message.{RawMessage}
use aqap.Validate.{Issue}
use aqap.Sdk.Message.{from_dict, sdk_validate_message}
use aqap.Sdk.Consumer.{
  Datum, Delivery, Call, acked, ConsumerState, Consumer, call, on_world, xack, parse,
  decode_message, count_acked, settle, attempt, process_message, count_received, receive_all,
  receive_streams, consume_once,
}

-- What has become of received messages, by their identifiers and in their order: each is acknowledged,
-- in the consumer's topic and group, or counted as failed.
pub data Settles (topic group : String) : List String → List Call → ℕ → Type 0 where
  settled : Settles topic group [] [] 0
  by_ack :
      (msg_id : String) (ids : List String) (calls : List Call) (failures : ℕ)
      → Settles topic group ids calls failures
      → Settles topic group (msg_id ∷ ids) (acked topic group msg_id ∷ calls) failures
  by_failure :
      (msg_id : String) (ids : List String) (calls : List Call) (failures : ℕ)
      → Settles topic group ids calls failures
      → Settles topic group (msg_id ∷ ids) calls (suc failures)

abbrev pub ids_of : List Delivery → List String
ids_of [] = []
ids_of ((msg_id, msg_data) ∷ messages) = msg_id ∷ ids_of messages

-- the identifiers in what a reading gives
abbrev pub all_ids : List (String × List Delivery) → List String
all_ids [] = []
all_ids ((stream_name, messages) ∷ results) = ids_of messages ++ all_ids results

abbrev ids_read : Result (List (String × List Delivery)) → List String
ids_read (ok results) = all_ids results
ids_read (err e) = []

Settles-append :
    (topic group : String) (ids js : List String) (calls later : List Call) (n k : ℕ)
    → Settles topic group ids calls n
    → Settles topic group js later k
    → Settles topic group (ids ++ js) (calls ++ later) (n + k)
Settles-append topic group _ js _ later _ k settled h =
    let same : k ≡ 0 + k = omega arith in subst (λ n. Settles topic group js later n) same h
Settles-append topic group _ js _ later _ k (by_ack msg_id ids calls n g) h =
    by_ack msg_id (ids ++ js) (calls ++ later) (n + k)
      (Settles-append topic group ids js calls later n k g h)
Settles-append topic group _ js _ later _ k (by_failure msg_id ids calls n g) h =
    let same : suc (n + k) ≡ suc n + k = omega arith in
    subst (λ f. Settles topic group (msg_id ∷ ids ++ js) (calls ++ later) f) same
      (by_failure msg_id (ids ++ js) (calls ++ later) (n + k)
        (Settles-append topic group ids js calls later n k g h))

module _ {W : Type 0} where
  -- what came of the messages between two states
  pub record Settled (c : Consumer W) (ids : List String) (s t : ConsumerState W) : Type 0 where
    pub calls : List Call
    pub failures : ℕ
    pub log : t.log ≡ s.log ++ calls
    pub failed : t.stats.failed ≡ s.stats.failed + failures
    pub received : t.stats.received ≡ s.stats.received + length ids
    pub settles : Settles c.topic c.group ids calls failures

  abbrev SameCounts : ConsumerState W → ConsumerState W → Type 0
  SameCounts s t = (t.stats.failed ≡ s.stats.failed) × (t.stats.received ≡ s.stats.received)

  -- A computation acknowledges the message, or raises and acknowledges nothing.
  data Acks (c : Consumer W) (msg_id : String) (s : ConsumerState W)
      (r : Result (Unit {0}) × ConsumerState W) : Type 0 where
    acks :
        r.0 ≡ ok tt
        → r.1.log ≡ s.log ++ acked c.topic c.group msg_id ∷ []
        → SameCounts s r.1
        → Acks c msg_id s r
    raises : (x : Exc) → r.0 ≡ err x → r.1.log ≡ s.log → SameCounts s r.1 → Acks c msg_id s r

  call-Acks :
      (c : Consumer W) (msg_id : String) (faults : List Bool) (s : ConsumerState W)
      → Acks c msg_id s (call faults (acked c.topic c.group msg_id) s)
  call-Acks c msg_id [] s = acks refl refl (refl, refl)
  call-Acks c msg_id (false ∷ later) s = acks refl refl (refl, refl)
  call-Acks c msg_id (true ∷ later) s = raises _ refl refl (refl, refl)

  xack-Acks :
      (c : Consumer W) (msg_id : String) (s : ConsumerState W) → Acks c msg_id s (xack c msg_id s)
  unfolding xack
  xack-Acks c msg_id s = call-Acks c msg_id s.faults s

  -- what follows a computation that leaves the log and the counters alone
  quietly :
      {A : Type 0} (c : Consumer W) (msg_id : String) (m : Exec (ConsumerState W) A)
      (k : A → Exec (ConsumerState W) (Unit {0})) (s : ConsumerState W) (w : W)
      → (m s).1 ≡ record s { world = w }
      → ((a : A) → Acks c msg_id (record s { world = w }) (k a (record s { world = w })))
      → Acks c msg_id s ((m >>= k) s)
  unfolding ◌>>=◌
  quietly c msg_id m k s w same h = elim (Result-cases (m s).0) [
    | inl (a, e) ↦
        rw (same, e, resume)
          (elim (h a) [
            | acks fine log counts ↦ acks fine log counts
            | raises x failed log counts ↦ raises x failed log counts
          ])
    | inr (x, e) ↦ rw (same, e, resume) (raises x refl refl (refl, refl))
  ]

  counted-Acks :
      (c : Consumer W) (msg_id : String) (s : ConsumerState W)
      → Acks c msg_id s ((xack c msg_id >>= λ _. count_acked) s)
  unfolding ◌>>=◌ count_acked
  counted-Acks c msg_id s = elim (xack-Acks c msg_id s) [
    | acks fine log counts ↦ rw (fine, resume) (acks refl log counts)
    | raises x failed log counts ↦ rw (failed, resume) (raises x refl log counts)
  ]

  settle-Acks :
      (c : Consumer W) (msg_id : String) (entries : Fields) (errors : List Issue)
      (s : ConsumerState W)
      → Acks c msg_id s (settle c msg_id entries errors s)
  unfolding settle decode_message
  settle-Acks c msg_id entries (e ∷ errors) s = xack-Acks c msg_id s
  settle-Acks c msg_id entries [] s =
      quietly c msg_id (on_world (decode_message c entries)) _ s _ refl (λ message.
        let t = record s { world = (c.draw s.world).1 } in
        quietly c msg_id (on_world (c.handler message)) _ t _ refl
          (λ _. counted-Acks c msg_id (record t { world = (c.handler message t.world).1 })))

  attempt-Acks :
      (c : Consumer W) (msg_id : String) (msg_data : Dict Datum) (s : ConsumerState W)
      → Acks c msg_id s (attempt c msg_id msg_data s)
  unfolding attempt
  attempt-Acks c msg_id msg_data s =
      quietly c msg_id (λ s. (parse c msg_data, s)) _ s s.world refl
        (λ entries.
          quietly c msg_id (λ s. (sdk_validate_message c.py entries, s)) _ s s.world refl
            (λ errors. settle-Acks c msg_id entries errors s))

  process_message-Settled :
      (c : Consumer W) (msg_id : String) (msg_data : Dict Datum) (s : ConsumerState W)
      → Settled c (msg_id ∷ []) s (process_message c msg_id msg_data (count_received s))
  unfolding process_message
  process_message-Settled c msg_id msg_data s =
      elim (attempt-Acks c msg_id msg_data (count_received s)) [
        | acks fine log (failed, received) ↦ rw fine (record {
          calls = acked c.topic c.group msg_id ∷ [];
          failures = 0;
          log = log;
          failed = omega (arith, failed);
          received = received;
          settles = by_ack msg_id [] [] 0 settled;
        })
        | raises x raised log (failed, received) ↦ rw raised (record {
          calls = [];
          failures = 1;
          log = log ∙ sym (append-nil s.log);
          failed = omega (arith, failed);
          received = received;
          settles = by_failure msg_id [] [] 0 settled;
        })
      ]

  Settled-nil : (c : Consumer W) (s : ConsumerState W) → Settled c [] s s
  Settled-nil c s = record {
    calls = [];
    failures = 0;
    log = sym (append-nil s.log);
    failed = omega arith;
    received = omega arith;
    settles = settled;
  }

  Settled-append :
      (c : Consumer W) (ids js : List String) (s t u : ConsumerState W)
      → Settled c ids s t
      → Settled c js t u
      → Settled c (ids ++ js) s u
  Settled-append c ids js s t u g h = record {
    calls = g.calls ++ h.calls;
    failures = g.failures + h.failures;
    log = h.log ∙ ap (λ l. l ++ h.calls) g.log ∙ append_assoc s.log g.calls h.calls;
    failed = omega (arith, g.failed, h.failed);
    received = omega (arith, g.received, h.received, length-append ids js);
    settles =
        Settles-append c.topic c.group ids js g.calls h.calls g.failures h.failures g.settles
          h.settles;
  }

  receive_all-Settled :
      (c : Consumer W) (messages : List Delivery) (s : ConsumerState W)
      → Settled c (ids_of messages) s (receive_all c messages s)
  unfolding receive_all
  receive_all-Settled c [] s = Settled-nil c s
  receive_all-Settled c ((msg_id, msg_data) ∷ messages) s =
      let t = process_message c msg_id msg_data (count_received s) in
      Settled-append c (msg_id ∷ []) (ids_of messages) s t (receive_all c messages t)
        (process_message-Settled c msg_id msg_data s) (receive_all-Settled c messages t)

  receive_streams-Settled :
      (c : Consumer W) (results : List (String × List Delivery)) (s : ConsumerState W)
      → Settled c (all_ids results) s (receive_streams c results s)
  unfolding receive_streams
  receive_streams-Settled c [] s = Settled-nil c s
  receive_streams-Settled c ((stream_name, messages) ∷ results) s =
      let t = receive_all c messages s in
      Settled-append c (ids_of messages) (all_ids results) s t (receive_streams c results t)
        (receive_all-Settled c messages s) (receive_streams-Settled c results t)

  -- Whatever the client returns or raises and whatever the handler does: each message that
  -- _consume_once reads is counted as received, and is then either acknowledged, under its identifier
  -- in the consumer's topic and group, or counted as failed, and not both. The acknowledgements are in
  -- the order of the messages, and the client is called for nothing else.
  pub consume_once-Settled :
      (c : Consumer W) (s : ConsumerState W)
      → Settled c
          (ids_read (c.xreadgroup c.batch_size c.poll_interval s.world).0)
          s
          (consume_once c s).1
  unfolding consume_once ◌>>=◌
  consume_once-Settled c s =
      let w = (c.xreadgroup c.batch_size c.poll_interval s.world).1 in
      elim (Result-cases (c.xreadgroup c.batch_size c.poll_interval s.world).0) [
        | inl (results, e) ↦
            rw (e, resume)
              (let h = receive_streams-Settled c results (record s { world = w }) in
                record {
                  calls = h.calls;
                  failures = h.failures;
                  log = h.log;
                  failed = h.failed;
                  received = h.received;
                  settles = h.settles;
                })
        | inr (x, e) ↦
            rw (e, resume)
              (let h = Settled-nil c s in
                record {
                  calls = h.calls;
                  failures = h.failures;
                  log = h.log;
                  failed = h.failed;
                  received = h.received;
                  settles = h.settles;
                })
      ]

  -- A valid message, decoded and handled, is acknowledged and then counted.
  pub process_message-handled :
      (c : Consumer W) (msg_id : String) (msg_data : Dict Datum) (s : ConsumerState W)
      (entries : Fields) (message : RawMessage) (v : Value) (w : W)
      → s.faults ≡ []
      → parse c msg_data ≡ ok entries
      → sdk_validate_message c.py entries ≡ ok []
      → from_dict c.py (c.draw s.world).0 entries ≡ ok message
      → c.handler message (c.draw s.world).1 ≡ (ok v, w)
      → process_message c msg_id msg_data s ≡ record s {
        stats = record s.stats { acked = s.stats.acked + 1 };
        log = s.log ++ acked c.topic c.group msg_id ∷ [];
        world = w;
      }
  unfolding process_message attempt settle decode_message xack count_acked ◌>>=◌
  process_message-handled c msg_id msg_data s entries message v w calm parsed valid decoded
        handled =
      rw (calm, parsed, valid, decoded, handled) refl
