-- ===== src/Agent/DlqConsumer.antt =====
-- The consumer of the dead letter topic: aqap/agent/dlq_consumer.py. Its fields beside those of an
-- agent, with the publications of `replay` in a log, and a schedule of the calls of the transport
-- that raise.
pub mod Accounting
pub mod Replay
use mathlib.Core.List.{reverse}
use aqap.Prelude.{
  ℕ, suc, ◌+◌, ◌-◌, ◌/◌, ◌*◌, String, Bool, true, false, not, ◌||◌, ◌&&◌, Option, none, some, List,
  [], ◌∷◌, ◌++◌, if◌then◌else◌, leb, ltb, length, drop, keep, ◌==◌, Result, ok, err, Exc, raised,
  attribute_error, value_error, bind, Exec, return, throw, ◌>>=◌, ◌>>◌,
}
use aqap.Value.{Value, null, str, obj, int, pos, Fields, end, field, get_field, get_field_or}
use aqap.Text.{codes}
use aqap.Message.{MessageType, Message, RawMessage, Fresh, of_value, agent_probe}

pub record DeadLetter : Type 0 where
  pub message_id : String
  pub trace_id : String
  pub original_message : Fields
  pub error : Value
  pub retry_count : Value
  pub failed_by : Value
  pub failed_at : Value
  pub received_at : ℕ

pub record Stats : Type 0 where
  pub total_dead_letters : ℕ
  pub replayed : ℕ
  pub expired : ℕ

pub record DlqState : Type 0 where
  pub dead_letters : List DeadLetter
  pub stats : Stats
  pub log : List (Value × RawMessage)
  pub faults : List Bool

abbrev pub init : DlqState
init = record {
  dead_letters = [];
  stats = record { total_dead_letters = 0; replayed = 0; expired = 0 };
  log = [];
  faults = [];
}

abbrev pub index_limit : ℕ
index_limit = 5000

-- xs[-n:], for a positive n
unfoldable pub last_of : {A : Type 0} → ℕ → List A → List A
last_of n xs = drop (length xs - n) xs

-- `original.get("type", "?")`, which is evaluated for the log line, raises where it is no dict
unfoldable pub original_of : Fields → Result Fields
original_of payload =
    elim (get_field_or "original_message" (get_field_or "original" (obj end) payload) payload) [
      | obj fields ↦ ok fields
      | _ ↦ err attribute_error
    ]

unfoldable pub dead_letter : ℕ → String → Message → Fields → DeadLetter
dead_letter now now_text m original = record {
  message_id = m.message_id;
  trace_id = m.trace_id;
  original_message = original;
  error = get_field_or "error" (str "unknown") m.payload;
  retry_count = get_field_or "retry_count" (int (pos 0)) m.payload;
  failed_by = get_field_or "failed_by" (str "unknown") m.payload;
  failed_at = get_field_or "failed_at" (str now_text) m.payload;
  received_at = now;
}

unfoldable pub append_letter : DeadLetter → DlqState → DlqState
unfolding last_of
append_letter letter s =
    let letters = s.dead_letters ++ letter ∷ [] in
    let stats : Stats = s.stats in
    record s {
      dead_letters =
          (if ltb index_limit (length letters) then last_of index_limit letters else letters);
      stats = record stats { total_dead_letters = stats.total_dead_letters + 1 };
    }

-- A dead letter is answered by nothing.
unfoldable pub handle_message : ℕ → String → Message → Exec DlqState (Option (List Message))
unfolding append_letter original_of dead_letter
handle_message now now_text m s = elim (original_of m.payload) [
  | ok original ↦ (ok none, append_letter (dead_letter now now_text m original) s)
  | err e ↦ (err e, s)
]

-- `wanted and text == wanted`; None and "" match nothing
abbrev asks_for : Option String → String → Bool
asks_for none text = false
asks_for (some wanted) text = not (wanted == "") && text == wanted

unfoldable pub is_match : Option String → Option String → DeadLetter → Bool
is_match message_id trace_id letter =
    asks_for message_id letter.message_id || asks_for trace_id letter.trace_id

-- MessageType(original.get("type", "TASK_DISPATCH"))
unfoldable pub original_type : Fields → Result MessageType
unfolding of_value
original_type original = elim (get_field_or "type" (str "TASK_DISPATCH") original) [
  | str raw ↦ elim (of_value (codes raw)) [ none ↦ err value_error | some t ↦ ok t ]
  | _ ↦ err value_error
]

unfoldable pub replay_message : Fresh → DeadLetter → MessageType → RawMessage
replay_message f letter t = record {
  type = t;
  source = str "dlq-consumer";
  payload = get_field_or "payload" (obj end) letter.original_message;
  message_id = str f.message_id;
  target = get_field_or "target" (str "") letter.original_message;
  topic = get_field_or "topic" (str agent_probe) letter.original_message;
  trace_id = str letter.trace_id;
  correlation_id = get_field_or "correlation_id" (str "") letter.original_message;
  version = str "1.0";
  timestamp = str f.timestamp;
}

unfoldable pub publish : Value → RawMessage → Exec DlqState (Unit {0})
publish topic m s = elim s.faults [
  | [] ↦ (ok tt, record s { log = s.log ++ (topic, m) ∷ [] })
  | fails ∷ later ↦
      if fails
      then (err (raised "transport"), record s { faults = later })
      else (ok tt, record s { log = s.log ++ (topic, m) ∷ []; faults = later })
]

unfoldable pub replay_letter : Fresh → DeadLetter → Exec DlqState (Unit {0})
unfolding original_type replay_message publish ◌>>=◌
replay_letter f letter = elim letter.original_message [
  | end ↦ return tt
  | field k v rest ↦ (do
    t ← (λ s. (original_type letter.original_message, s))
    publish (get_field_or "topic" (str agent_probe) letter.original_message)
        (replay_message f letter t))
]

-- The loop over the letters to replay; `draws` are the identifiers for each.
unfoldable pub replay_all : (ℕ → Fresh) → ℕ → List DeadLetter → Exec DlqState (Unit {0})
unfolding replay_letter
replay_all draws i [] = return tt
replay_all draws i (letter ∷ letters) = do
  replay_letter (draws i) letter
  replay_all draws (i + 1) letters

-- What `replay` does after the last publication: the index becomes the list of the letters that did
-- not match when it began.
unfoldable pub settle : ℕ → List DeadLetter → Exec DlqState ℕ
settle count remaining t =
    let stats : Stats = t.stats in
    (
      ok count,
      record t {
        dead_letters = remaining;
        stats = record stats { replayed = stats.replayed + count };
      },
    )

unfoldable pub replay : (ℕ → Fresh) → Option String → Option String → Exec DlqState ℕ
unfolding replay_all is_match settle
replay draws message_id trace_id s =
    let to_replay = keep (is_match message_id trace_id) s.dead_letters in
    let remaining = keep (λ l. not (is_match message_id trace_id l)) s.dead_letters in
    (replay_all draws 0 to_replay >>= λ _. settle (length to_replay) remaining) s

-- list(reversed(self._dead_letters[-limit:])); `[-0:]` is the whole list
unfoldable pub get_dead_letters : ℕ → DlqState → List DeadLetter
unfolding last_of
get_dead_letters limit s =
    reverse (if leb limit 0 then s.dead_letters else last_of limit s.dead_letters)

-- one round of `_cleanup_loop`, after its sleep
unfoldable pub cleanup_round : ℕ → ℕ → DlqState → DlqState
cleanup_round now dlq_ttl s =
    let stats : Stats = s.stats in
    let expired_count = length (keep (λ l. ltb l.received_at (now - dlq_ttl)) s.dead_letters) in
    if leb expired_count 0 then s else record s {
      dead_letters = keep (λ l. leb (now - dlq_ttl) l.received_at) s.dead_letters;
      stats = record stats { expired = stats.expired + expired_count };
    }
