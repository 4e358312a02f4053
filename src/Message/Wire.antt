-- ===== src/Message/Wire.antt =====
-- The envelope `Message` and its wire dict (aqap/core/message.py). Its annotations are not checked
-- at run time: what `from_dict` builds from a document has a JSON value in every field
-- (`RawMessage`), and what the agents build has text and a dict (`Message`).
use aqap.Prelude.{String}
use aqap.Value.{Value, str, obj, Fields, end, field, get_field_or}
use aqap.Text.{Python}
use aqap.Message.Types.{MessageType, value, resolve_type}

pub record Envelope (S P : Type 0) : Type 0 where
  pub type : MessageType
  pub source : S
  pub payload : P
  pub message_id : S
  pub target : S
  pub topic : S
  pub trace_id : S
  pub correlation_id : S
  pub version : S
  pub timestamp : S

abbrev pub Message : Type 0
Message = Envelope String Fields

abbrev pub RawMessage : Type 0
RawMessage = Envelope Value Value

-- What the default factories draw: two identifiers of `uuid4` and the time.
pub record Fresh : Type 0 where
  pub message_id : String
  pub trace_id : String
  pub timestamp : String

-- Message(type, source, payload), every other field by its default
unfoldable pub new_message : Fresh → MessageType → String → Fields → Message
new_message f type source payload = record {
  type = type;
  source = source;
  payload = payload;
  message_id = f.message_id;
  target = "";
  topic = "";
  trace_id = f.trace_id;
  correlation_id = "";
  version = "1.0";
  timestamp = f.timestamp;
}

-- A message of text and a dict, as a message of JSON values.
unfoldable pub wire : Message → RawMessage
wire m = record {
  type = m.type;
  source = str m.source;
  payload = obj m.payload;
  message_id = str m.message_id;
  target = str m.target;
  topic = str m.topic;
  trace_id = str m.trace_id;
  correlation_id = str m.correlation_id;
  version = str m.version;
  timestamp = str m.timestamp;
}

unfoldable pub to_dict : RawMessage → Fields
to_dict m = field "type" (str (value m.type)) (
    field "message_id" m.message_id (
      field "source" m.source (
        field "target" m.target (
          field "topic" m.topic (
            field "trace_id" m.trace_id (
              field "correlation_id" m.correlation_id (
                field "version" m.version
                  (field "payload" m.payload (field "timestamp" m.timestamp end)))))))))

unfoldable pub from_dict : Python → Fresh → Fields → RawMessage
from_dict py f entries = record {
  type = resolve_type py (get_field_or "type" (str "") entries);
  source = get_field_or "source" (str "") entries;
  payload = get_field_or "payload" (obj end) entries;
  message_id = get_field_or "message_id" (str f.message_id) entries;
  target = get_field_or "target" (str "") entries;
  topic = get_field_or "topic" (str "") entries;
  trace_id = get_field_or "trace_id" (str f.trace_id) entries;
  correlation_id = get_field_or "correlation_id" (str "") entries;
  version = get_field_or "version" (str "1.0") entries;
  timestamp = get_field_or "timestamp" (str f.timestamp) entries;
}
