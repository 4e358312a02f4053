-- ===== src/Network/RabbitMq.antt =====
-- aqap/transport/rabbitmq_transport.py. The client's calls are in a log; a schedule says which of
-- them raise.
use mathlib.Core.List.{append_assoc, append-nil}
use aqap.Prelude.{
  ℕ, String, Bool, true, false, Option, none, some, List, [], ◌∷◌, ◌++◌, if◌then◌else◌, Result, ok,
  err, Exc, raised, runtime_error, Exec, ◌>>=◌, ◌>>◌, ◌≡◌, refl, ap,
}
use aqap.Text.{◌+s◌}
use aqap.Message.{RawMessage, Fresh, to_dict}
use aqap.Network.{Codec, Parsed, parsed, no_json, fatal, of_json}

-- a call that did not raise
pub data Call : Type 0 where
  opened : ℕ → Call
  closed_channel closed_connection : Call
  declared_exchange : String → Call
  bound_queue : String → String → Call
  published : String → List ℕ → Call
  acked : ℕ → Call

-- `channel` and `connection`: the fields are set; `connection` says whether it is closed
pub record Transport : Type 0 where
  pub channel : Bool
  pub connection : Option Bool
  pub running : Bool
  pub log : List Call
  pub faults : List Bool

-- a delivery: its tag and its body
pub record Delivery : Type 0 where
  pub delivery_tag : ℕ
  pub body : List ℕ

-- what a generator has yielded: the messages with their tags
pub record Yielded : Type 0 where
  pub message : RawMessage
  pub delivery_tag : ℕ

pub data Status : Type 0 where
  connected disconnected : Status

abbrev pub init : Transport
init = record { channel = false; connection = none; running = false; log = []; faults = [] }

abbrev pub call : List Bool → Call → Exec Transport (Unit {0})
call [] e s = (ok tt, record s { log = s.log ++ e ∷ [] })
call (false ∷ later) e s = (ok tt, record s { log = s.log ++ e ∷ []; faults = later })
call (true ∷ later) e s = (err (raised "amqp"), record s { faults = later })

abbrev calling : Call → Exec Transport (Unit {0})
calling e s = call s.faults e s

abbrev set_connected : Exec Transport (Unit {0})
set_connected s = (ok tt, record s { channel = true; connection = some false; running = true })

-- the connection, its channel and the prefetch count, in one call here
unfoldable pub connect : ℕ → Exec Transport (Unit {0})
unfolding ◌>>=◌
connect prefetch_count = do calling (opened prefetch_count); set_connected

abbrev close_channel : Exec Transport (Unit {0})
close_channel s = if s.channel then call s.faults closed_channel s else (ok tt, s)

abbrev is_set : Option Bool → Bool
is_set none = false
is_set (some b) = true

abbrev close_connection : Exec Transport (Unit {0})
close_connection s =
    if is_set s.connection
    then call s.faults closed_connection (record s { connection = some true })
    else (ok tt, s)

unfoldable pub disconnect : Exec Transport (Unit {0})
unfolding ◌>>=◌
disconnect s = (do close_channel; close_connection) (record s { running = false })

unfoldable pub publish : Codec → String → RawMessage → Exec Transport (Unit {0})
unfolding ◌>>=◌
publish k topic m s =
    if s.channel
    then (do
      calling (declared_exchange topic)
      body ← (λ s. (k.dumps (to_dict m), s))
      calling (published topic (k.encode body)))
        s
    else (err runtime_error, s)

-- the queue of a group: "{topic}:{group}"
unfoldable open_queue : String → String → Exec Transport (Unit {0})
unfolding ◌>>=◌
open_queue topic group s =
    if s.channel
    then (do calling (declared_exchange topic); calling (bound_queue (topic +s ":" +s group) topic))
        s
    else (err runtime_error, s)

abbrev parse_body : Codec → Fresh → Option String → Parsed
parse_body k f none = fatal (raised "UnicodeDecodeError")
parse_body k f (some text) = of_json k.py f (k.loads text)

unfoldable pub parse : Codec → Fresh → Delivery → Parsed
parse k f d = parse_body k f (k.decode d.body)

-- What the loop of `_subscribe_loop` yields of these deliveries, and how it ends: a message is
-- yielded and not acknowledged, a body that is no JSON is acknowledged, another exception ends the
-- generator. `draws` are the identifiers for each.
unfoldable pub receive_all :
    Codec → (ℕ → Fresh) → List Delivery → Transport → (Result (Unit {0}) × List Yielded) × Transport
receive_all k draws [] s = ((ok tt, []), s)
receive_all k draws (d ∷ ds) s =
    if s.running
    then elim (parse k (draws d.delivery_tag) d) [
      | parsed m ↦
          let ((r, ys), s') = receive_all k draws ds s in
          ((r, record { message = m; delivery_tag = d.delivery_tag } ∷ ys), s')
      | no_json ↦
          let (r, s') = call s.faults (acked d.delivery_tag) s in
          elim r [ ok _ ↦ receive_all k draws ds s' | err e ↦ ((err e, []), s') ]
      | fatal e ↦ ((err e, []), s)
    ]
    else ((ok tt, []), s)

-- "auto-ack": the call of an agent does nothing
unfoldable pub ack : String → Option String → String → Exec Transport (Unit {0})
ack topic message_id group s = (ok tt, s)

unfoldable pub health : Transport → Status
health s = elim s.connection [
  | none ↦ disconnected
  | some closed ↦ if closed then disconnected else connected
]

data Case (p : Parsed) : Type 0 where
  parsed_case : (m : RawMessage) → p ≡ parsed m → Case p
  no_json_case : p ≡ no_json → Case p
  fatal_case : (e : Exc) → p ≡ fatal e → Case p

Parsed-cases : (p : Parsed) → Case p
Parsed-cases (parsed m) = parsed_case m refl
Parsed-cases no_json = no_json_case refl
Parsed-cases (fatal e) = fatal_case e refl

-- the transport while it runs and no call raises
abbrev live : Transport → Transport
live s = record s { running = true; faults = [] }

module _ (k : Codec) (draws : ℕ → Fresh) where
  -- the messages of a list of deliveries, and the acknowledgements of the bodies that are no JSON
  abbrev yielded_of : Parsed → Delivery → List Yielded → List Yielded
  yielded_of (parsed m) d ys = record { message = m; delivery_tag = d.delivery_tag } ∷ ys
  yielded_of _ d ys = ys

  abbrev yielded : List Delivery → List Yielded
  yielded [] = []
  yielded (d ∷ ds) = yielded_of (parse k (draws d.delivery_tag) d) d (yielded ds)

  abbrev rejected_of : Parsed → Delivery → List Call → List Call
  rejected_of no_json d cs = acked d.delivery_tag ∷ cs
  rejected_of _ d cs = cs

  abbrev rejected : List Delivery → List Call
  rejected [] = []
  rejected (d ∷ ds) = rejected_of (parse k (draws d.delivery_tag) d) d (rejected ds)

  abbrev is_fatal : Parsed → Bool
  is_fatal (fatal e) = true
  is_fatal _ = false

  abbrev NoneFatal : List Delivery → Type 0
  NoneFatal [] = Unit
  NoneFatal (d ∷ ds) = (is_fatal (parse k (draws d.delivery_tag) d) ≡ false) × NoneFatal ds

  received :
      (ds : List Delivery) (s : Transport)
      → NoneFatal ds
      → receive_all k draws ds (live s)
        ≡ ((ok tt, yielded ds), record (live s) { log = s.log ++ rejected ds })
  unfolding receive_all
  received [] s h = rw append-nil refl
  received (d ∷ ds) s (fine, h) = elim (Parsed-cases (parse k (draws d.delivery_tag) d)) [
    | parsed_case m e ↦ rw (e, received ds s h) refl
    | no_json_case e ↦
        let t = record s { log = s.log ++ acked d.delivery_tag ∷ [] } in
        rw (e, received ds t h, append_assoc s.log (acked d.delivery_tag ∷ []) (rejected ds)) refl
    | fatal_case x e ↦ let bad : is_fatal (fatal x) ≡ false = rw e at fine in cc
  ]

  -- Where every body is JSON of an object or no JSON, the transport runs and its calls raise
  -- nothing: each message is yielded, in order, with its delivery tag, and none of these is ever
  -- acknowledged, since an agent's ack() does nothing; the others are acknowledged and not yielded.
  receive_all_lem :
      (ds : List Delivery) (topic group : String) (message_id : Option String) (s : Transport)
      → NoneFatal ds
      → (receive_all k draws ds (live s)
          ≡ ((ok tt, yielded ds), record (live s) { log = s.log ++ rejected ds }))
        × (ack topic message_id group (receive_all k draws ds (live s)).1
            ≡ (ok tt, record (live s) { log = s.log ++ rejected ds }))
  unfolding ack
  receive_all_lem ds topic group message_id s none_fatal =
      let e = received ds s none_fatal in (e, ap (λ r. (ok tt, r.1)) e)
