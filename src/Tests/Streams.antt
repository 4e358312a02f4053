-- ===== src/Tests/Streams.antt =====
-- The SDK's consumer and producer at concrete inputs.
use aqap.Prelude.{
  ℕ, String, true, false, none, some, List, [], ◌∷◌, ◌++◌, ok, err, value_error, ◌≡◌, ◌+◌, refl,
  ◌==◌, if◌then◌else◌, arith,
}
use aqap.Value.{null, obj, Fields, get_field_or, truthy, has_field, get_field}
use aqap.Text.{ascii, isdigit, int_of, strip}
use aqap.Message.{MessageType, Message, wire, value}
use aqap.Sdk.Message.{to_dict, sdk_validate_message}
use aqap.Sdk.Consumer.{
  Consumer, ConsumerState, Delivery, PendingEntry, text, acked, consume_once, process_message,
}
use aqap.Sdk.Consumer.Pending.{claim_pending}
use aqap.Sdk.Consumer.Running.{undisturbed, rounds, begin, stop, close, start, start_ends}
use aqap.Sdk.Consumer.Settling.{Settled, consume_once-Settled}
use aqap.Sdk.Consumer.Pending.{claim_pending_lem}
use aqap.Sdk.Producer.{
  Producer, ProducerState, stream_of, outgoing, send_to, process_message-send_to,
}
use aqap.Tests.{sample_fresh, sample_payload}

abbrev pub sent : Message
sent =
    outgoing sample_fresh MessageType.task_dispatch "sender-1" "" "aqap:agent:probe" sample_payload
      "trace-2"

-- the text of the message that is sent
abbrev pub document : Fields
document = to_dict (wire sent)

abbrev pending_entries : List PendingEntry
pending_entries =
    record { message_id = "1-0"; times_delivered = some 3; elapsed_time = none }
    ∷ record { message_id = "2-0"; times_delivered = some 1; elapsed_time = none }
    ∷ []

abbrev batch : List (String × List Delivery)
batch =
    (
      "aqap:agent:probe",
      ("1-0", ("json", text "message") ∷ []) ∷ ("2-0", ("json", text "rubbish") ∷ []) ∷ [],
    )
    ∷ []

-- a world that counts the messages handled; two deliveries come with each reading
abbrev pub sample_consumer : Consumer ℕ
sample_consumer = record {
  topic = "aqap:agent:probe";
  group = "group-1";
  consumer_id = "worker-1";
  batch_size = 2;
  poll_interval = 1000;
  claim_interval = 30000;
  max_retries = 3;
  handler = λ m w. (ok null, w + 1);
  py = ascii;
  decode = λ b. err value_error;
  loads = λ s. if s == "message" then ok (obj document) else err value_error;
  draw = λ w. (sample_fresh, w);
  xreadgroup = λ count block w. (ok batch, w);
  xpending_range = λ count w. (ok pending_entries, w);
  xclaim = λ idle ids w. (ok [], w);
}

abbrev pub idle : ConsumerState ℕ
idle = record {
  running = false;
  stats = record { received = 0; acked = 0; failed = 0 };
  log = [];
  faults = [];
  world = 0;
}

abbrev pub sample_producer : Producer ℕ
sample_producer = record { dumps = λ fs. ok "message"; xadd = λ w. (ok "7-0", w + 1) }

abbrev pub unconnected : ProducerState ℕ
unconnected = record { connected = false; log = []; world = 0 }

consume_once-Settled_example :
    Settled sample_consumer ("1-0" ∷ "2-0" ∷ []) idle (consume_once sample_consumer idle).1
consume_once-Settled_example = consume_once-Settled sample_consumer idle

claim_pending_lem_example :
    claim_pending sample_consumer idle
    ≡ (ok tt, record idle { log = acked "aqap:agent:probe" "group-1" "1-0" ∷ [] })
claim_pending_lem_example =
    claim_pending_lem sample_consumer idle pending_entries 0 refl refl (omega arith)
      (refl, (refl, tt))

start_ends_example :
    start sample_consumer (undisturbed 2 ++ true ∷ false ∷ []) idle
    ≡ some (close (stop (rounds sample_consumer 3 (begin sample_consumer idle))))
start_ends_example = start_ends sample_consumer 2 (false ∷ []) idle

process_message-send_to_example :
    (send_to sample_producer sample_fresh MessageType.task_dispatch "sender-1" "" "aqap:agent:probe"
        sample_payload "trace-2" unconnected
      ≡ (
        ok "7-0",
        record {
          connected = true;
          log = record { stream = stream_of (wire sent); json = "message"; maxlen = 10000 } ∷ [];
          world = 1;
        },
      ))
    × (process_message sample_consumer "7-0" (("json", text "message") ∷ []) idle ≡ record idle {
      stats = record { received = 0; acked = 1; failed = 0 };
      log = acked "aqap:agent:probe" "group-1" "7-0" ∷ [];
      world = 1;
    })
unfolding sdk_validate_message truthy get_field_or to_dict wire outgoing isdigit int_of has_field
    strip get_field value
process_message-send_to_example =
    process_message-send_to sample_producer sample_consumer sample_fresh MessageType.task_dispatch
      "sender-1" "" "aqap:agent:probe" sample_payload "trace-2" "message" "7-0" unconnected idle 1 1
      null refl refl refl refl refl refl refl refl refl refl
