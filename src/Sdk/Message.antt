-- ===== src/Sdk/Message.antt =====
-- `AQAPMessage` of sdk/aqap_sdk/message.py, over the same record of fields as the core's `Message`,
-- and the SDK's copy of the validator.
pub mod Interop
pub mod Validator
unfoldable pub use Validator.{sdk_validate_message}
use aqap.Prelude.{
  ℕ, String, Bool, true, false, Option, none, some, List, [], ◌∷◌, ◌++◌, ◌||◌, if◌then◌else◌,
  Result, ok, err, bind, attribute_error, ◌==◌,
}
use aqap.Value.{
  Value, str, obj, null, Fields, end, field, truthy, get_field, get_field_or, type_name,
}
use aqap.Text.{Python, codes, upper}
use aqap.Message.{
  MessageType, Message, RawMessage, Fresh, value, of_value, wire, agent_probe, agent_judge,
  agent_reporter, broadcast,
}
use aqap.Validate.{
  Issue, unknown_type, type_not_string, among, missing_issues, required, source_issues,
  version_issues, text_issues, payload_issues,
}

-- `_resolve_type`; a raw value that is no text has no `upper`
unfoldable pub resolve_type : Python → Value → Result MessageType
unfolding of_value
resolve_type py (str raw) = elim (of_value (codes raw)) [
  | some t ↦ ok t
  | none ↦ elim (of_value (upper py (codes raw))) [ some t ↦ ok t | none ↦ ok MessageType.unknown ]
]
resolve_type py _ = err attribute_error

-- `v or default`
abbrev pub or_fresh : Value → Value → Value
or_fresh v w = if truthy v then v else w

-- AQAPMessage(...), with every argument given; `null` stands for the default `None`
unfoldable pub construct :
    Python
    → Fresh
    → Value
    → Value
    → Value
    → Value
    → Value
    → Value
    → Value
    → Value
    → Value
    → Value
    → Result RawMessage
unfolding resolve_type
construct py f type source payload message_id target topic trace_id correlation_id version
      timestamp =
    bind (resolve_type py type) (λ t. ok (record {
      type = t;
      source = source;
      payload = payload;
      message_id = or_fresh message_id (str f.message_id);
      target = target;
      topic = topic;
      trace_id = or_fresh trace_id (str f.trace_id);
      correlation_id = correlation_id;
      version = version;
      timestamp = or_fresh timestamp (str f.timestamp);
    }))

unfoldable pub to_dict : RawMessage → Fields
to_dict m = field "type" (str (value m.type)) (
    field "message_id" m.message_id (
      field "source" m.source (
        field "target" m.target (
          field "topic" m.topic (
            field "trace_id" m.trace_id (
              field "correlation_id" m.correlation_id (
                field "version" m.version
                  (field "payload" m.payload (field "timestamp" m.timestamp end)))))))))

unfoldable pub from_dict : Python → Fresh → Fields → Result RawMessage
unfolding construct
from_dict py f entries =
    construct py f (get_field_or "type" (str "") entries) (get_field_or "source" (str "") entries)
      (get_field_or "payload" (obj end) entries) (get_field_or "message_id" null entries)
      (get_field_or "target" (str "") entries) (get_field_or "topic" (str "") entries)
      (get_field_or "trace_id" null entries) (get_field_or "correlation_id" (str "") entries)
      (get_field_or "version" (str "1.0") entries) (get_field_or "timestamp" null entries)

-- A message of the SDK with text in its fields; the identifiers and the time are fresh.
unfoldable pub new_message : Fresh → MessageType → String → Fields → Message
new_message f type source payload = record {
  type = type;
  source = source;
  payload = payload;
  message_id = f.message_id;
  target = "";
  topic = "";
  trace_id = f.trace_id;
  correlation_id = "";
  version = "1.0";
  timestamp = f.timestamp;
}

-- `trace_id or ...`: an empty trace is replaced by a fresh one
unfoldable pub reply : Fresh → Message → MessageType → Fields → Message
unfolding new_message
reply f m type payload =
    record (new_message f type (if m.target == "" then m.source else m.target) payload) {
      target = m.source;
      topic = m.topic;
      trace_id = (if m.trace_id == "" then f.trace_id else m.trace_id);
      correlation_id = m.message_id;
      version = m.version;
    }

unfoldable pub task_dispatch : Fresh → String → Fields → Message
unfolding new_message
task_dispatch f source payload = record (new_message f MessageType.task_dispatch source payload) {
  topic = agent_probe;
}

unfoldable pub task_result : Fresh → String → Fields → Message
unfolding new_message
task_result f source payload = record (new_message f MessageType.task_result source payload) {
  topic = agent_judge;
}

unfoldable pub judge_verdict : Fresh → String → Fields → Message
unfolding new_message
judge_verdict f source payload = record (new_message f MessageType.judge_verdict source payload) {
  topic = agent_reporter;
}

-- the status is the payload itself
unfoldable pub heartbeat : Fresh → String → Fields → Message
heartbeat f source status = new_message f MessageType.heartbeat source status

unfoldable pub error : Fresh → String → String → String → String → String → Message
error f source code message trace_id original_message_id = new_message f MessageType.error source (
    field "code" (str code) (
      field "message" (str message) (
        field "trace_id" (str trace_id)
          (field "original_message_id" (str original_message_id) end))))

-- Topic.all()
abbrev all_topics : List String
all_topics = broadcast ∷ agent_probe ∷ agent_judge ∷ agent_reporter ∷ []
