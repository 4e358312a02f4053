-- ===== src/Tests.antt =====
-- The theorems at concrete inputs, and the data that these share.
mod Envelopes
mod Handling
mod Letters
mod Transports
mod Workflow
mod Running
mod Streams
mod Bridges
mod Traces
mod Engines
mod Networks
mod Offices
mod Logs
use aqap.Prelude.{
  ℕ, String, Bool, true, false, Option, none, some, List, [], ◌∷◌, Result, ok, err, Exc, raised,
  Exec,
}
use aqap.Value.{Value, null, bool, int, pos, str, obj, Fields, end, field}
use aqap.Text.{ascii}
use aqap.Message.{MessageType, Message, RawMessage, Fresh}
use aqap.Agent.State.{Agent, AgentState}

abbrev pub sample_fresh : Fresh
sample_fresh = record {
  message_id = "id-1";
  trace_id = "trace-1";
  timestamp = "2024-01-01T00:00:00";
}

abbrev pub sample_payload : Fields
sample_payload = field "task_id" (str "task-1") end

abbrev pub sample_message : Message
sample_message = record {
  type = MessageType.task_dispatch;
  source = "sender-1";
  payload = sample_payload;
  message_id = "id-1";
  target = "";
  topic = "aqap:agent:probe";
  trace_id = "trace-1";
  correlation_id = "";
  version = "1.0";
  timestamp = "2024-01-01T00:00:00";
}

abbrev pub sample_raw : RawMessage
sample_raw = record {
  type = MessageType.task_dispatch;
  source = str "sender-1";
  payload = obj sample_payload;
  message_id = str "id-1";
  target = str "";
  topic = str "aqap:agent:probe";
  trace_id = str "trace-1";
  correlation_id = null;
  version = int (pos 1);
  timestamp = str "2024-01-01T00:00:00";
}

abbrev pub answering : Message → AgentState ℕ → Result (Option (List Message)) × AgentState ℕ
answering m s = (ok (some (sample_message ∷ [])), s)

abbrev pub failing : Message → AgentState ℕ → Result (Option (List Message)) × AgentState ℕ
failing m s = (err (raised "handler"), s)

-- an agent over a world that is a counter, with no encryption
abbrev pub sample_agent :
    (Message → AgentState ℕ → Result (Option (List Message)) × AgentState ℕ) → Agent ℕ
sample_agent handler = record {
  agent_id = "probe-1";
  group = "aqap-default";
  max_retries = 3;
  idempotency_ttl = 300;
  idempotency_max_size = 10000;
  py = ascii;
  text = λ e. "failed";
  encrypt_payload = λ p w. (ok p, w);
  decrypt_payload = λ p w. (ok p, w);
  draw = λ w. (sample_fresh, w);
  handle_message = handler;
}

abbrev pub sample_state : AgentState ℕ
sample_state = record {
  running = true;
  draining = false;
  retry_counts = [];
  current_message = none;
  last_topic = "aqap:agent:probe";
  last_group = "aqap-default";
  last_msg_id = some "1-0";
  processed_ids = [];
  log = [];
  faults = [];
  world = 0;
}
