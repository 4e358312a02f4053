-- ===== src/Sdk/Producer.antt =====
-- `StreamProducer` of sdk/aqap_sdk/consumer.py, and the way of a message to a consumer's handler.
use aqap.Prelude.{
  get_or, ℕ, ◌+◌, String, Bool, true, false, List, [], ◌∷◌, ◌++◌, if◌then◌else◌, ◌==◌, Result, ok,
  Exec, ◌>>=◌, ◌≡◌, refl, arith,
}
use aqap.Value.{Value, str, obj, Fields, truthy}
use aqap.Message.{MessageType, Message, RawMessage, Fresh, wire, agent_probe}
use aqap.Sdk.Message.{to_dict, new_message, sdk_validate_message}
use aqap.Sdk.Message.Interop.{from_dict-to_dict}
use aqap.Sdk.Consumer.Settling.{process_message-handled}
use aqap.Sdk.Consumer.{ConsumerState, Consumer, text, acked, process_message, parse, raw_text}

-- an entry that XADD appended: the stream, its field "json", and the length asked for
pub record Added : Type 0 where
  pub stream : Value
  pub json : String
  pub maxlen : ℕ

-- `connected`: `_redis` is a client
pub record ProducerState (W : Type 0) : Type 0 where
  pub connected : Bool
  pub log : List Added
  pub world : W

-- `dumps` is json.dumps on a dict; `xadd` says which identifier Redis gives, or what it raises.
pub record Producer (W : Type 0) : Type 0 where
  pub dumps : Fields → Result String
  pub xadd : W → Result String × W

-- the stream of a message: `message.topic or Topic.AGENT_PROBE`
abbrev pub stream_of : RawMessage → Value
stream_of m = if truthy m.topic then m.topic else str agent_probe

abbrev logged {ℓ} : {A : Type ℓ} → Result A → Added → List Added → List Added
logged (ok a) e log = log ++ e ∷ []
logged _ e log = log

-- `f` is what the message's identifiers and its time are drawn as
unfoldable pub outgoing : Fresh → MessageType → String → String → String → Fields → String → Message
unfolding new_message
outgoing f msg_type source target topic payload trace_id =
    record (new_message f msg_type source payload) {
      target = target;
      topic = topic;
      trace_id = (if trace_id == "" then f.trace_id else trace_id);
    }

-- No identifier of an outgoing message is falsy.
pub some_identifiers :
    (f : Fresh) (msg_type : MessageType) (source target topic : String) (payload : Fields)
    (trace_id : String)
    → (f.message_id == "") ≡ false
    → (f.trace_id == "") ≡ false
    → (f.timestamp == "") ≡ false
    → let m = wire (outgoing f msg_type source target topic payload trace_id) in
      (truthy m.message_id ≡ true) × (truthy m.trace_id ≡ true) × (truthy m.timestamp ≡ true)
unfolding wire outgoing new_message truthy
some_identifiers f msg_type source target topic payload trace_id h k l =
    (rw h refl, ground arith, rw l refl)

module _ {W : Type 0} where
  unfoldable pub connect : ProducerState W → ProducerState W
  connect s = record s { connected = true }

  unfoldable pub ensure_connected : ProducerState W → ProducerState W
  unfolding connect
  ensure_connected s = if s.connected then s else connect s

  -- await self._redis.xadd(...)
  unfoldable pub append_entry : Producer W → Added → Exec (ProducerState W) String
  append_entry p e s =
      let (r, w) = p.xadd s.world in (r, record s { log = logged r e s.log; world = w })

  unfoldable pub publish : Producer W → RawMessage → ℕ → Exec (ProducerState W) String
  unfolding ensure_connected append_entry ◌>>=◌
  publish p m maxlen s =
      ((λ s. (p.dumps (to_dict m), s)) >>= λ raw.
      append_entry p (record { stream = stream_of m; json = raw; maxlen = maxlen }))
        (ensure_connected s)

  unfoldable pub send_to :
      Producer W
      → Fresh
      → MessageType
      → String
      → String
      → String
      → Fields
      → String
      → Exec (ProducerState W) String
  unfolding publish outgoing wire
  send_to p f msg_type source target topic payload trace_id =
      publish p (wire (outgoing f msg_type source target topic payload trace_id)) 10000

  pub ensure_connected_lem :
      (s : ProducerState W) → ensure_connected s ≡ record s { connected = true }
  unfolding ensure_connected connect
  ensure_connected_lem s = ground arith

  pub publish_lem :
      (p : Producer W) (m : RawMessage) (maxlen : ℕ) (s : ProducerState W) (raw id : String) (w : W)
      → p.dumps (to_dict m) ≡ ok raw
      → p.xadd s.world ≡ (ok id, w)
      → publish p m maxlen s ≡ (
        ok id,
        record s {
          connected = true;
          log = s.log ++ record { stream = stream_of m; json = raw; maxlen = maxlen } ∷ [];
          world = w;
        },
      )
  unfolding publish append_entry ◌>>=◌
  publish_lem p m maxlen s raw id w dumped added = rw (ensure_connected_lem s, dumped, added) refl

  pub parse_json :
      (c : Consumer W) (raw : String) (entries : Fields)
      → (raw == "") ≡ false
      → c.loads raw ≡ ok (obj entries)
      → parse c (("json", text raw) ∷ []) ≡ ok entries
  unfolding parse raw_text get_or
  parse_json c raw entries h loaded = rw (h, loaded) refl

  -- Where json.loads reads back what json.dumps wrote, and none of the message's identifiers is
  -- empty: a message that the validator accepts and send_to sends is appended to its topic's stream,
  -- and a consumer that gets the entry hands the same message, field by field, to its handler and
  -- acknowledges the entry once the handler has come back.
  pub process_message-send_to :
      (p : Producer W) (c : Consumer W) (f : Fresh) (msg_type : MessageType)
      (source target topic : String) (payload : Fields) (trace_id raw id : String)
      (s : ProducerState W) (t : ConsumerState W) (w w' : W) (v : Value)
      → let sent = outgoing f msg_type source target topic payload trace_id in
        p.dumps (to_dict (wire sent)) ≡ ok raw
        → (raw == "") ≡ false
        → c.loads raw ≡ ok (obj (to_dict (wire sent)))
        → sdk_validate_message c.py (to_dict (wire sent)) ≡ ok []
        → (f.message_id == "") ≡ false
        → (f.trace_id == "") ≡ false
        → (f.timestamp == "") ≡ false
        → p.xadd s.world ≡ (ok id, w)
        → t.faults ≡ []
        → c.handler (wire sent) (c.draw t.world).1 ≡ (ok v, w')
        → (send_to p f msg_type source target topic payload trace_id s ≡ (
          ok id,
          record s {
            connected = true;
            log =
                s.log ++ record { stream = stream_of (wire sent); json = raw; maxlen = 10000 } ∷ [];
            world = w;
          },
        ))
          × (process_message c id (("json", text raw) ∷ []) t ≡ record t {
            stats = record t.stats { acked = t.stats.acked + 1 };
            log = t.log ++ acked c.topic c.group id ∷ [];
            world = w';
          })
  unfolding send_to
  process_message-send_to p c f msg_type source target topic payload trace_id raw id s t w w' v
        dumped some_text loaded valid some_id some_trace some_time added calm handled =
      let sent = outgoing f msg_type source target topic payload trace_id in
      let entries = to_dict (wire sent) in
      let (h, k, l) =
        some_identifiers f msg_type source target topic payload trace_id some_id some_trace
          some_time in
      (
        publish_lem p (wire sent) 10000 s raw id w dumped added,
        process_message-handled c id (("json", text raw) ∷ []) t entries (wire sent) v w' calm
            (parse_json c raw entries some_text loaded) valid
            (from_dict-to_dict c.py (c.draw t.world).0 (wire sent) h k l) handled,
      )
