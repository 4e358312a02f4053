-- ===== src/Message/Types.antt =====
-- Message types, topics and error codes (the first part of aqap/core/message.py).
use Prim.Native.String
use aqap.Prelude.{ℕ, String, Option, none, some, List, [], ◌∷◌, if◌then◌else◌}
use aqap.Value.{Value, str}
use aqap.Text.{codes, same_codes, Python, upper}

pub data MessageType : Type 0 where
  unknown heartbeat register shutdown : MessageType
  task_dispatch task_result judge_request judge_verdict report_request report_deliver : MessageType
  plugin_event error log : MessageType

-- MessageType.X.value, and str(MessageType.X)
unfoldable pub value : MessageType → String
value unknown = "UNKNOWN"
value heartbeat = "HEARTBEAT"
value register = "REGISTER"
value shutdown = "SHUTDOWN"
value task_dispatch = "TASK_DISPATCH"
value task_result = "TASK_RESULT"
value judge_request = "JUDGE_REQUEST"
value judge_verdict = "JUDGE_VERDICT"
value report_request = "REPORT_REQUEST"
value report_deliver = "REPORT_DELIVER"
value plugin_event = "PLUGIN_EVENT"
value error = "ERROR"
value log = "LOG"

-- the members, in the order of their definition
abbrev pub members : List MessageType
members =
    unknown ∷ heartbeat ∷ register ∷ shutdown ∷ task_dispatch ∷ task_result ∷ judge_request
    ∷ judge_verdict ∷ report_request ∷ report_deliver ∷ plugin_event ∷ error ∷ log ∷ []

unfoldable pub find_type : List MessageType → List ℕ → Option MessageType
unfolding value
find_type [] s = none
find_type (t ∷ ts) s = if same_codes s (codes (value t)) then some t else find_type ts s

-- MessageType(s); `none` is its ValueError
unfoldable pub of_value : List ℕ → Option MessageType
unfolding find_type
of_value s = find_type members s

-- The type that `from_dict` reads from the entry "type": exact, then in upper case, else UNKNOWN.
unfoldable pub resolve_type : Python → Value → MessageType
unfolding of_value
resolve_type py (str raw) = elim (of_value (codes raw)) [
  | some t ↦ t
  | none ↦ elim (of_value (upper py (codes raw))) [ some t ↦ t | none ↦ unknown ]
]
resolve_type py _ = unknown

-- Topic

abbrev pub agent_probe : String
agent_probe = "aqap:agent:probe"

abbrev pub agent_judge : String
agent_judge = "aqap:agent:judge"

abbrev pub agent_reporter : String
agent_reporter = "aqap:agent:reporter"

abbrev pub broadcast : String
broadcast = "aqap:broadcast"

abbrev pub system_events : String
system_events = "aqap:system:events"

abbrev pub plugin_events : String
plugin_events = "aqap:plugin:events"

abbrev pub dlq : String
dlq = "aqap:dlq"

unfoldable pub agent_inbox : String → String
agent_inbox agent_id = String.◌++◌ "aqap:inbox:" agent_id

pub data ErrorCode : Type 0 where
  unknown_type version_mismatch malformed routing_failure processing_error : ErrorCode
  timeout auth_failure forbidden : ErrorCode

unfoldable pub error_value : ErrorCode → String
error_value unknown_type = "UNKNOWN_TYPE"
error_value version_mismatch = "VERSION_MISMATCH"
error_value malformed = "MALFORMED"
error_value routing_failure = "ROUTING_FAILURE"
error_value processing_error = "PROCESSING_ERROR"
error_value timeout = "TIMEOUT"
error_value auth_failure = "AUTH_FAILURE"
error_value forbidden = "FORBIDDEN"
