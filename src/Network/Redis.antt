-- ===== src/Network/Redis.antt =====
-- aqap/transport/redis_streams.py. What the client's reads give comes from the world `W`, its other
-- calls are in a log; a schedule says which of these raise. A topic is its text.
use aqap.Prelude.{
  String, Bool, true, false, Option, none, some, List, [], ◌∷◌, ◌++◌, if◌then◌else◌, Result, ok,
  err, bind, raised, key_error, Exec, return, ◌>>=◌, ◌>>◌, try_else, ◌==◌, Dict, get, ◌≡◌, refl, ap,
  Option-cases, inl, inr,
}
use aqap.Value.{Value, Fields, obj}
use aqap.Message.{RawMessage, Fresh, to_dict}
use aqap.Message.RoundTrip.{from_dict-to_dict}
use aqap.Sdk.Consumer.{Datum, text, bytes}
use aqap.Network.{Codec, Parsed, parsed, of_json}

-- a call that did not raise
pub data Call : Type 0 where
  pinged closed : Call
  group_created : String → String → Call
  added : String → String → Call
  acked : String → String → String → Call

pub record Transport (W : Type 0) : Type 0 where
  pub running : Bool
  pub log : List Call
  pub faults : List Bool
  pub world : W

-- an entry of a stream, with what it has under the keys b"json" and "json"
pub record Entry : Type 0 where
  pub msg_id : String
  pub bytes_key : Option Datum
  pub text_key : Option Datum

-- a message with its `_transport_msg_id`
abbrev Delivered : Type 0
Delivered = String × RawMessage

-- what `pending` gives of an entry
pub record PendingInfo : Type 0 where
  pub msg_id : Value
  pub consumer : Value
  pub delivered : Value
  pub last_delivered : Value

-- `d[k]`
abbrev item : String → Dict Value → Result Value
item k d = elim (get k d) [ none ↦ err key_error | some v ↦ ok v ]

unfoldable pending_info : Dict Value → Result PendingInfo
unfolding get
pending_info p = bind (item "message_id" p) (λ msg_id. bind (item "consumer" p) (λ consumer.
    bind (item "times_delivered" p) (λ delivered. bind (item "last_delivered" p) (λ last_delivered.
      ok (record {
        msg_id = msg_id;
        consumer = consumer;
        delivered = delivered;
        last_delivered = last_delivered;
      })))))

-- the list that `pending` makes of XPENDING's entries
unfoldable pub pending : List (Dict Value) → Result (List PendingInfo)
unfolding pending_info
pending [] = ok []
pending (p ∷ ps) = bind (pending_info p) (λ i. bind (pending ps) (λ is. ok (i ∷ is)))

item-then :
    {A : Type 0} (j : String) (p : Dict Value) (f : Value → Result A)
    → ((v : Value) → f v ≡ err key_error)
    → bind (item j p) f ≡ err key_error
item-then j p f h = elim (Option-cases (get j p)) [
  | inl missing ↦ rw (missing, bind) refl
  | inr (v, found) ↦ rw (found, bind) (h v)
]

pending_info_raises :
    (p : Dict Value) → get "last_delivered" p ≡ none → pending_info p ≡ err key_error
unfolding pending_info
pending_info_raises p h = item-then "message_id" p _ (λ msg_id.
    item-then "consumer" p _
      (λ consumer. item-then "times_delivered" p _ (λ delivered. rw (h, bind) refl)))

-- redis-py documents no entry "last_delivered": where there is anything pending, asking for it
-- raises KeyError.
pending_raises :
    (p : Dict Value) (ps : List (Dict Value))
    → get "last_delivered" p ≡ none
    → pending (p ∷ ps) ≡ err key_error
unfolding pending
pending_raises p ps h = rw (pending_info_raises p h) refl

module _ (k : Codec) where
  abbrev text_of : Datum → Option String
  text_of (text s) = some s
  text_of (bytes b) = k.decode b

  abbrev first_of : Option Datum → Option Datum → Option Datum
  first_of none o = o
  first_of (some d) o = some d

  abbrev message_of : Parsed → Option RawMessage
  message_of (parsed m) = some m
  message_of _ = none

  abbrev of_text : Fresh → Option String → Option RawMessage
  of_text f none = none
  of_text f (some raw) = if raw == "" then none else message_of (of_json k.py f (k.loads raw))

  -- The message of an entry. Whatever exception its decoding raises, it is skipped.
  unfoldable pub deliver : Fresh → Entry → Option RawMessage
  deliver f e = elim (first_of e.bytes_key e.text_key) [
    | none ↦ none
    | some d ↦ of_text f (text_of d)
  ]

  abbrev with_id : String → Option RawMessage → List Delivered → List Delivered
  with_id msg_id none rest = rest
  with_id msg_id (some m) rest = (msg_id, m) ∷ rest

  -- what `subscribe` yields of a batch
  unfoldable pub deliver_all : (String → Fresh) → List Entry → List Delivered
  unfolding deliver
  deliver_all draws [] = []
  deliver_all draws (e ∷ es) = with_id e.msg_id (deliver (draws e.msg_id) e) (deliver_all draws es)

  abbrev IsObject : Value → Type 0
  IsObject v = (fs : Fields) × (v ≡ obj fs)

  -- An entry that holds no message: it has neither key, its bytes are no text, its text is empty or no
  -- JSON, or its document is no object.
  pub data IsJunk (e : Entry) : Type 0 where
    no_key : e.bytes_key ≡ none → e.text_key ≡ none → IsJunk e
    no_text : (d : Datum) → first_of e.bytes_key e.text_key ≡ some d → text_of d ≡ none → IsJunk e
    empty_text :
        (d : Datum) → first_of e.bytes_key e.text_key ≡ some d → text_of d ≡ some "" → IsJunk e
    no_json :
        (d : Datum) (raw : String)
        → first_of e.bytes_key e.text_key ≡ some d
        → text_of d ≡ some raw
        → k.loads raw ≡ none
        → IsJunk e
    no_object :
        (d : Datum) (raw : String) (v : Value)
        → first_of e.bytes_key e.text_key ≡ some d
        → text_of d ≡ some raw
        → k.loads raw ≡ some v
        → ¬ IsObject v
        → IsJunk e

  -- A batch that carries these messages: each as an entry that `publish` made, read as bytes or as
  -- text, and between them entries that hold no message.
  pub data Carries (draws : String → Fresh) : List Delivered → List Entry → Type 0 where
    nothing : Carries draws [] []
    junk :
        (e : Entry) (ms : List Delivered) (es : List Entry)
        → IsJunk e
        → Carries draws ms es
        → Carries draws ms (e ∷ es)
    sent :
        (e : Entry) (m : RawMessage) (raw : String) (d : Datum) (ms : List Delivered)
        (es : List Entry)
        → first_of e.bytes_key e.text_key ≡ some d
        → text_of d ≡ some raw
        → (raw == "") ≡ false
        → k.loads raw ≡ some (obj (to_dict m))
        → Carries draws ms es
        → Carries draws ((e.msg_id, m) ∷ ms) (e ∷ es)

  deliver-sent :
      (f : Fresh) (e : Entry) (m : RawMessage) (raw : String) (d : Datum)
      → first_of e.bytes_key e.text_key ≡ some d
      → text_of d ≡ some raw
      → (raw == "") ≡ false
      → k.loads raw ≡ some (obj (to_dict m))
      → deliver f e ≡ some m
  unfolding deliver
  deliver-sent f e m raw d found decoded some_text loaded =
      rw (found, deliver, decoded, some_text, loaded) (ap some (from_dict-to_dict k.py f m))

  of_document-no_object :
      (f : Fresh) (v : Value) → ¬ IsObject v → message_of (of_json k.py f (some v)) ≡ none
  of_document-no_object f (obj fs) n = absurd (n (fs, refl))
  of_document-no_object f _ n = refl

  if_none : {A : Type 0} (b : Bool) (o : Option A) → o ≡ none → (if b then none else o) ≡ none
  if_none true o e = refl
  if_none false o e = e

  deliver-IsJunk : (f : Fresh) (e : Entry) → IsJunk e → deliver f e ≡ none
  unfolding deliver
  deliver-IsJunk f e (no_key h i) = rw (h, deliver, i) refl
  deliver-IsJunk f e (no_text d found h) = rw (found, deliver, h) refl
  deliver-IsJunk f e (empty_text d found h) = rw (found, deliver, h) refl
  deliver-IsJunk f e (no_json d raw found decoded h) =
      rw (found, deliver, decoded, h) (if_none (raw == "") none refl)
  deliver-IsJunk f e (no_object d raw v found decoded h n) =
      rw (found, deliver, decoded, h) (if_none (raw == "") _ (of_document-no_object f v n))

  -- From a batch in which published messages and entries that hold no message (neither key, no text,
  -- an empty text, no JSON, or no object) stand in any order, subscribe yields the published messages, field by field what was published, in their order and
  -- with their identifiers, and nothing else.
  pub deliver_all-Carries :
      (draws : String → Fresh) (ms : List Delivered) (es : List Entry)
      → Carries draws ms es
      → deliver_all draws es ≡ ms
  unfolding deliver_all
  deliver_all-Carries draws _ _ nothing = refl
  deliver_all-Carries draws _ _ (junk e ms es none_there rest) =
      rw (deliver-IsJunk (draws e.msg_id) e none_there, deliver_all-Carries draws ms es rest) refl
  deliver_all-Carries draws _ _ (sent e m raw d ms es found decoded some_text loaded rest) =
      rw
        (
          deliver-sent (draws e.msg_id) e m raw d found decoded some_text loaded,
          deliver_all-Carries draws ms es rest,
        )
        refl

-- `group or "aqap-default"`
abbrev group_or_default : String → String
group_or_default group = if group == "" then "aqap-default" else group

module _ {W : Type 0} where
  abbrev pub call : List Bool → Call → Exec (Transport W) (Unit {0})
  call [] e s = (ok tt, record s { log = s.log ++ e ∷ [] })
  call (false ∷ later) e s = (ok tt, record s { log = s.log ++ e ∷ []; faults = later })
  call (true ∷ later) e s = (err (raised "redis"), record s { faults = later })

  abbrev calling : Call → Exec (Transport W) (Unit {0})
  calling e s = call s.faults e s

  abbrev set_running : Exec (Transport W) (Unit {0})
  set_running s = (ok tt, record s { running = true })

  unfoldable pub connect : Exec (Transport W) (Unit {0})
  unfolding ◌>>=◌
  connect = do calling pinged; set_running

  unfoldable pub disconnect : Exec (Transport W) (Unit {0})
  disconnect s = calling closed (record s { running = false })

  -- The group may exist already: every exception is ignored.
  unfoldable pub create_group : String → String → Transport W → Transport W
  create_group topic group s = (calling (group_created topic group) s).1

  unfoldable pub publish : Codec → String → RawMessage → Exec (Transport W) (Unit {0})
  unfolding ◌>>=◌
  publish k topic m = do payload ← (λ s. (k.dumps (to_dict m), s)); calling (added topic payload)

  unfoldable pub ack : String → Option String → String → Exec (Transport W) (Unit {0})
  ack topic none group s = (ok tt, s)
  ack topic (some message_id) group s = calling (acked topic (group_or_default group) message_id) s

  -- after an exception of XREADGROUP: a ping, and a new connection where that raises
  unfoldable reconnect : Exec (Transport W) (Unit {0})
  unfolding connect
  reconnect = try_else (calling pinged) return (λ e. connect)

  -- a round of `subscribe`: `read` is XREADGROUP, with what it returns of this stream
  unfoldable pub round :
      Codec → (String → Fresh) → (W → Result (List Entry) × W) → Exec (Transport W) (List Delivered)
  unfolding deliver_all reconnect ◌>>=◌
  round k draws read s =
      let (r, w) = read s.world in
      elim r [
        | ok es ↦ (ok (deliver_all k draws es), record s { world = w })
        | err e ↦ (reconnect >>= λ _. return []) (record s { world = w })
      ]
