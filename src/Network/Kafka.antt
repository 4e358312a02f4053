-- ===== src/Network/Kafka.antt =====
-- aqap/transport/kafka_transport.py. A consumer is given by a number. The client's calls are in a
-- log; a schedule says which of them raise.
use aqap.Prelude.{
  ℕ, suc, ◌+◌, String, Bool, true, false, Option, none, some, List, [], ◌∷◌, ◌++◌, if◌then◌else◌,
  Result, ok, err, Exc, raised, runtime_error, Exec, return, ◌>>=◌, ◌>>◌, Dict, get, put, remove,
  get-remove, eq_refl, ◌≡◌, refl, arith,
}
use aqap.Message.{RawMessage, Fresh, to_dict}
use aqap.Network.{Codec, Parsed, parsed, no_json, fatal, of_json}

-- a call that did not raise
pub data Call : Type 0 where
  producer_started producer_stopped : Call
  sent : String → List ℕ → Call
  consumer_started consumer_stopped committed : ℕ → Call

pub record Transport : Type 0 where
  pub producer : Bool
  pub consumers : Dict ℕ
  pub running : Bool
  pub made : ℕ
  pub log : List Call
  pub faults : List Bool

pub data Status : Type 0 where
  connected disconnected : Status

abbrev pub call : List Bool → Call → Exec Transport (Unit {0})
call [] e s = (ok tt, record s { log = s.log ++ e ∷ [] })
call (false ∷ later) e s = (ok tt, record s { log = s.log ++ e ∷ []; faults = later })
call (true ∷ later) e s = (err (raised "kafka"), record s { faults = later })

abbrev calling : Call → Exec Transport (Unit {0})
calling e s = call s.faults e s

abbrev set_running : Exec Transport (Unit {0})
set_running s = (ok tt, record s { running = true })

unfoldable pub connect : Exec Transport (Unit {0})
unfolding ◌>>=◌
connect s = (do calling producer_started; set_running) (record s { producer = true })

unfoldable pub stop_all : Dict ℕ → Exec Transport (Unit {0})
unfolding ◌>>=◌
stop_all [] = return tt
stop_all ((topic, c) ∷ rest) = do calling (consumer_stopped c); stop_all rest

abbrev clear_consumers : Exec Transport (Unit {0})
clear_consumers s = (ok tt, record s { consumers = [] })

abbrev stop_producer : Exec Transport (Unit {0})
stop_producer s = if s.producer then call s.faults producer_stopped s else (ok tt, s)

unfoldable pub disconnect : Exec Transport (Unit {0})
unfolding stop_all ◌>>=◌
disconnect s =
    (do stop_all s.consumers; clear_consumers; stop_producer) (record s { running = false })

unfoldable pub publish : Codec → String → RawMessage → Exec Transport (Unit {0})
unfolding ◌>>=◌
publish k topic m s =
    if s.producer
    then (do payload ← (λ s. (k.dumps (to_dict m), s)); calling (sent topic (k.encode payload))) s
    else (err runtime_error, s)

-- the consumer of the topic, whatever the message and the group; every exception is ignored
unfoldable pub ack : String → Option String → String → Transport → Transport
unfolding get
ack topic message_id group s = elim (get topic s.consumers) [
  | none ↦ s
  | some c ↦ (call s.faults (committed c) s).1
]

-- a new consumer takes the topic's place in the dict
unfoldable open_consumer : String → Exec Transport ℕ
unfolding put ◌>>=◌
open_consumer topic s =
    (calling (consumer_started s.made) >>= λ _. return s.made)
      (record s { consumers = put topic s.made s.consumers; made = s.made + 1 })

-- the `finally` part: the topic's entry goes, whichever consumer it holds
unfoldable close_consumer : String → ℕ → Exec Transport (Unit {0})
unfolding remove
close_consumer topic c s =
    call s.faults (consumer_stopped c) (record s { consumers = remove topic s.consumers })

abbrev parse_value : Codec → Fresh → Option String → Parsed
parse_value k f none = fatal (raised "UnicodeDecodeError")
parse_value k f (some text) = of_json k.py f (k.loads text)

unfoldable pub parse : Codec → Fresh → List ℕ → Parsed
parse k f value = parse_value k f (k.decode value)

-- What the loop yields of these records, and how it ends. Between two messages the one who took the
-- first acknowledges it or not: `acks` says which.
unfoldable pub receive_all :
    Codec
    → (ℕ → Fresh)
    → (ℕ → Bool)
    → String
    → String
    → ℕ
    → List (List ℕ)
    → Transport
    → (Result (Unit {0}) × List RawMessage) × Transport
unfolding ack
receive_all k draws acks topic group i [] s = ((ok tt, []), s)
receive_all k draws acks topic group i (value ∷ values) s =
    if s.running
    then elim (parse k (draws i) value) [
      | parsed m ↦
          let ((r, ms), s') =
            receive_all k draws acks topic group (suc i) values
              (if acks i then ack topic none group s else s) in
          ((r, m ∷ ms), s')
      | no_json ↦ receive_all k draws acks topic group (suc i) values s
      | fatal e ↦ ((err e, []), s)
    ]
    else ((ok tt, []), s)

-- an exception of the `finally` part takes the place of another
abbrev finally : Result (Unit {0}) → Result (Unit {0}) → Result (Unit {0})
finally r (ok _) = r
finally r (err e) = err e

-- the generator from the start of its consumer to the end, for the records that there are
unfoldable pub subscription :
    Codec
    → (ℕ → Fresh)
    → (ℕ → Bool)
    → String
    → String
    → ℕ
    → List (List ℕ)
    → Transport
    → (Result (Unit {0}) × List RawMessage) × Transport
unfolding receive_all close_consumer
subscription k draws acks topic group c values s =
    let ((r, ms), s') = receive_all k draws acks topic group 0 values s in
    let (q, s'') = close_consumer topic c s' in ((finally r q, ms), s'')

unfoldable pub health : Transport → Status
health s = if s.producer then connected else disconnected

module _ (k : Codec) (draws : ℕ → Fresh) (acks : ℕ → Bool) (topic group : String) where
  -- Nothing after a record that raises otherwise than by its JSON counts.
  receive_all-fatal :
      (i : ℕ) (before after : List (List ℕ)) (value : List ℕ) (e : Exc) (s : Transport)
      → ((f : Fresh) → parse k f value ≡ fatal e)
      → receive_all k draws acks topic group i (before ++ value ∷ after) s
        ≡ receive_all k draws acks topic group i (before ++ value ∷ []) s
  unfolding receive_all
  receive_all-fatal i [] after value e s h = rw (h (draws i)) refl
  receive_all-fatal i (v ∷ before) after value e s h = ground (
    arith,
    receive_all-fatal (suc i) before after value e s h,
    receive_all-fatal (suc i) before after value e (if acks i then ack topic none group s else s) h,
  )

  ack-none :
      (message_id : Option String) (g : String) (s : Transport)
      → get topic s.consumers ≡ none
      → ack topic message_id g s ≡ s
  unfolding ack
  ack-none message_id g s h = rw (h, ack) refl

  close_consumer-consumers :
      (c : ℕ) (s : Transport) → get topic (close_consumer topic c s).1.consumers ≡ none
  unfolding close_consumer
  close_consumer-consumers c s = ground (arith, get-remove topic topic s.consumers, eq_refl topic)

  -- Where a record in the stream is JSON of no object, or no UTF-8, the generator ends there: the
  -- records after it change nothing and none of them is yielded; and whatever ended the generator,
  -- the topic has no consumer any more, so that an ack() that comes later commits nothing.
  pub subscription-fatal :
      (c : ℕ) (before after : List (List ℕ)) (value : List ℕ) (e : Exc) (s : Transport)
      (message_id : Option String) (g : String)
      → ((f : Fresh) → parse k f value ≡ fatal e)
      → (subscription k draws acks topic group c (before ++ value ∷ after) s
          ≡ subscription k draws acks topic group c (before ++ value ∷ []) s)
        × (ack topic message_id g
              (subscription k draws acks topic group c (before ++ value ∷ after) s).1
            ≡ (subscription k draws acks topic group c (before ++ value ∷ after) s).1)
  unfolding subscription
  subscription-fatal c before after value e s message_id g h = (
    rw (receive_all-fatal 0 before after value e s h) refl,
    ack-none message_id g _ (close_consumer-consumers c _),
  )
