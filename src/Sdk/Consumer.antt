-- ===== src/Sdk/Consumer.antt =====
-- `Consumer` of sdk/aqap_sdk/consumer.py, over a Redis client: what the client's reads return comes
-- from the world `W`, its other calls are in a log, and a schedule says which of them raise. Times
-- are whole milliseconds. The values of a stream entry are texts or bytes.
pub mod Settling
pub mod Pending
pub mod Running
use aqap.Prelude.{
  ℕ, ◌+◌, String, Bool, true, false, ◌&&◌, Option, none, some, List, [], ◌∷◌, ◌++◌, if◌then◌else◌,
  leb, ltb, keep, map, Dict, get_or, ◌==◌, Result, ok, err, bind, Exc, raised, type_error,
  attribute_error, Exec, return, ◌>>=◌, ◌>>◌,
}
use aqap.Value.{Value, str, arr, obj, Fields}
use aqap.Text.{Python}
use aqap.Message.{RawMessage, Fresh}
use aqap.Validate.{Issue}
use aqap.Sdk.Message.{from_dict, sdk_validate_message}

pub data Datum : Type 0 where
  text : String → Datum
  bytes : List ℕ → Datum

abbrev pub Delivery : Type 0
Delivery = String × Dict Datum

-- an entry of XPENDING; the second and the third field are what `get` finds under these keys
pub record PendingEntry : Type 0 where
  pub message_id : String
  pub times_delivered : Option ℕ
  pub elapsed_time : Option ℕ

-- a call of the client that did not raise
pub data Call : Type 0 where
  group_created : String → String → Call
  acked : String → String → String → Call
  claimed : String → String → String → ℕ → List String → Call
  closed : Call

pub record Stats : Type 0 where
  pub received : ℕ
  pub acked : ℕ
  pub failed : ℕ

pub record ConsumerState (W : Type 0) : Type 0 where
  pub running : Bool
  pub stats : Stats
  pub log : List Call
  pub faults : List Bool
  pub world : W

-- The settings, the handler, and what the consumer uses of the client and of Python.
pub record Consumer (W : Type 0) : Type 0 where
  pub topic : String
  pub group : String
  pub consumer_id : String
  pub batch_size : ℕ
  pub poll_interval : ℕ
  pub claim_interval : ℕ
  pub max_retries : ℕ
  pub handler : RawMessage → W → Result Value × W
  pub py : Python
  pub decode : List ℕ → Result String
  pub loads : String → Result Value
  pub draw : W → Fresh × W
  pub xreadgroup : ℕ → ℕ → W → Result (List (String × List Delivery)) × W
  pub xpending_range : ℕ → W → Result (List PendingEntry) × W
  pub xclaim : ℕ → List String → W → Result (List Delivery) × W

-- The validator raises for a document that is no object: a list and a text have no `get`, the
-- others no `in`.
abbrev as_object : Value → Result Fields
as_object (obj entries) = ok entries
as_object (arr vs) = err attribute_error
as_object (str s) = err attribute_error
as_object _ = err type_error

module _ {W : Type 0} where
  abbrev pub call : List Bool → Call → Exec (ConsumerState W) (Unit {0})
  call [] e s = (ok tt, record s { log = s.log ++ e ∷ [] })
  call (false ∷ later) e s = (ok tt, record s { log = s.log ++ e ∷ []; faults = later })
  call (true ∷ later) e s = (err (raised "redis"), record s { faults = later })

  -- a computation on the world alone
  abbrev pub on_world : {A : Type 0} → (W → Result A × W) → Exec (ConsumerState W) A
  on_world f s = ((f s.world).0, record s { world = (f s.world).1 })

  unfoldable pub xack : Consumer W → String → Exec (ConsumerState W) (Unit {0})
  xack c msg_id s = call s.faults (acked c.topic c.group msg_id) s

  abbrev pub text_of : Consumer W → Datum → Result String
  text_of c (text s) = ok s
  text_of c (bytes b) = c.decode b

  abbrev first_value : Consumer W → Dict Datum → Result String
  first_value c [] = ok ""
  first_value c ((k, v) ∷ d) = text_of c v

  -- `msg_data.get("json", "")`, or the first value
  unfoldable pub raw_text : Consumer W → Dict Datum → Result String
  raw_text c msg_data =
      bind (text_of c (get_or "json" (text "") msg_data))
        (λ raw. if raw == "" then first_value c msg_data else ok raw)

  unfoldable pub parse : Consumer W → Dict Datum → Result Fields
  unfolding raw_text
  parse c msg_data = bind (raw_text c msg_data) (λ raw. bind (c.loads raw) as_object)

  unfoldable pub decode_message : Consumer W → Fields → W → Result RawMessage × W
  decode_message c entries w = let (f, w') = c.draw w in (from_dict c.py f entries, w')

  unfoldable pub count_acked : Exec (ConsumerState W) (Unit {0})
  count_acked s =
      let stats : Stats = s.stats in
      (ok tt, record s { stats = record stats { acked = stats.acked + 1 } })

  -- what follows the validation: an invalid message is acknowledged and not counted
  unfoldable pub settle :
      Consumer W → String → Fields → List Issue → Exec (ConsumerState W) (Unit {0})
  unfolding decode_message xack count_acked ◌>>=◌
  settle c msg_id entries (e ∷ errors) = xack c msg_id
  settle c msg_id entries [] = do
    message ← on_world (decode_message c entries)
    on_world (c.handler message)
    xack c msg_id
    count_acked

  -- the `try` of `_process_message`
  unfoldable pub attempt : Consumer W → String → Dict Datum → Exec (ConsumerState W) (Unit {0})
  unfolding parse settle ◌>>=◌
  attempt c msg_id msg_data = do
    entries ← (λ s. (parse c msg_data, s))
    errors ← (λ s. (sdk_validate_message c.py entries, s))
    settle c msg_id entries errors

  abbrev count_failed : Result (Unit {0}) → ConsumerState W → ConsumerState W
  count_failed (ok _) s = s
  count_failed (err e) s =
      let stats : Stats = s.stats in record s { stats = record stats { failed = stats.failed + 1 } }

  unfoldable pub process_message :
      Consumer W → String → Dict Datum → ConsumerState W → ConsumerState W
  unfolding attempt
  process_message c msg_id msg_data s =
      let (r, s') = attempt c msg_id msg_data s in count_failed r s'

  abbrev pub count_received : ConsumerState W → ConsumerState W
  count_received s =
      let stats : Stats = s.stats in
      record s { stats = record stats { received = stats.received + 1 } }

  unfoldable pub receive_all : Consumer W → List Delivery → ConsumerState W → ConsumerState W
  unfolding process_message
  receive_all c [] s = s
  receive_all c ((msg_id, msg_data) ∷ messages) s =
      receive_all c messages (process_message c msg_id msg_data (count_received s))

  unfoldable pub receive_streams :
      Consumer W → List (String × List Delivery) → ConsumerState W → ConsumerState W
  unfolding receive_all
  receive_streams c [] s = s
  receive_streams c ((stream_name, messages) ∷ results) s =
      receive_streams c results (receive_all c messages s)

  unfoldable pub consume_once : Consumer W → Exec (ConsumerState W) (Unit {0})
  unfolding receive_streams ◌>>=◌
  consume_once c = do
    results ← on_world (c.xreadgroup c.batch_size c.poll_interval)
    (λ s. (ok tt, receive_streams c results s))
