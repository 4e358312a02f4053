-- ===== src/Tests/Letters.antt =====
-- The theorems on dead letters and encrypted payloads, at concrete inputs.
use aqap.Prelude.{
  ℕ, ◌+◌, String, true, none, some, List, [], ◌∷◌, ◌++◌, Result, ok, err, value_error, ◌≡◌, refl,
  arith, inr, length, ◌==◌, eq_iff, if◌then◌else◌,
}
use aqap.Value.{null, bool, int, pos, float, arr, str, obj, Fields, end, field, get_field_or}
use aqap.Message.{MessageType, Fresh, of_value, value}
use aqap.Agent.DlqConsumer.{DeadLetter, DlqState, init, replay, original_type, is_match}
use aqap.Agent.DlqConsumer.Accounting.{
  IsAccounted, Op, receives, replays, cleans, run, run-IsAccounted,
}
use aqap.Agent.DlqConsumer.Replay.{replay_lem, replay_poison, publications, matching, others}
use aqap.Security.{Crypto, new_cipher, encrypt_payload, decrypt_payload, sealed_payload}
use aqap.Security.RoundTrip.{IsSound, decrypt_payload-encrypt_payload}
use aqap.Tests.{sample_fresh, sample_message, sample_payload}

abbrev letter_of : String → Fields → DeadLetter
letter_of trace_id original = record {
  message_id = "id-1";
  trace_id = trace_id;
  original_message = original;
  error = str "failed";
  retry_count = int (pos 3);
  failed_by = str "probe-1";
  failed_at = str "";
  received_at = 10;
}

abbrev pub good_letter : DeadLetter
good_letter = letter_of "trace-1" (field "type" (str "TASK_DISPATCH") end)

abbrev odd_letter : DeadLetter
odd_letter = letter_of "trace-1" (field "type" (str "NEWER_TYPE") end)

abbrev pub other_letter : DeadLetter
other_letter = letter_of "trace-2" end

abbrev holding : List DeadLetter → DlqState
holding letters = record {
  dead_letters = letters;
  stats = record { total_dead_letters = 2; replayed = 0; expired = 0 };
  log = [];
  faults = [];
}

abbrev pub draws : ℕ → Fresh
draws i = sample_fresh

abbrev some_ops : List Op
some_ops =
    receives 5 "now" sample_message ∷ replays draws none (some "trace-1") ∷ cleans 9000 100 ∷ []

run-IsAccounted_example : IsAccounted (run some_ops init)
run-IsAccounted_example =
    run-IsAccounted some_ops init (record { bounded = omega arith; accounted = omega arith })

abbrev pub two_letters : DlqState
two_letters = holding (good_letter ∷ other_letter ∷ [])

replay_lem_example :
    (let found = matching none (some "trace-1") (good_letter ∷ other_letter ∷ []) in
      let r = replay draws none (some "trace-1") two_letters in
      (r.0 ≡ ok (length found))
      × (r.1.log ≡ [] ++ publications draws 0 found)
      × (r.1.dead_letters ≡ others none (some "trace-1") (good_letter ∷ other_letter ∷ []))
      × (r.1.stats.replayed ≡ 0 + length found))
unfolding is_match original_type of_value value get_field_or
replay_lem_example =
    replay_lem draws none (some "trace-1") two_letters refl
      (inr (MessageType.task_dispatch, refl), tt)

abbrev poisoned : DlqState
poisoned = holding (good_letter ∷ odd_letter ∷ [])

replay_poison_example :
    replay draws none (some "trace-1") poisoned
    ≡ (err value_error, record poisoned { log = [] ++ publications draws 0 (good_letter ∷ []) })
unfolding is_match original_type of_value value get_field_or
replay_poison_example =
    replay_poison draws none (some "trace-1") (good_letter ∷ []) [] odd_letter value_error poisoned
      refl refl (inr (MessageType.task_dispatch, refl), tt) (λ e. cc) refl

-- Stand-ins for the packages: byte strings are texts, and only the payload of a task can be dumped.
abbrev pub dumped : Fields → Result String
dumped (field k (str s) end) = if k == "task_id" then ok s else err value_error
dumped _ = err value_error

abbrev pub plain_on : (W : Type 0) → Crypto String W
plain_on W = record {
  available = true;
  encode = λ s. s;
  hkdf = λ info secret. secret;
  dumps = dumped;
  loads = λ b. ok (field "task_id" (str b) end);
  random_nonce = λ w. ("nonce", w);
  seal = λ key nonce b. b;
  unseal = λ key nonce b. ok b;
  to_base64 = λ b. b;
  of_base64 = λ s. ok s;
}

abbrev pub plain : Crypto String ℕ
plain = plain_on ℕ

plain-loads-dumps : (p : Fields) (b : String) → dumped p ≡ ok b → plain.loads b ≡ ok p
plain-loads-dumps end b h = cc
plain-loads-dumps (field k (str s) end) b h = ground (arith, eq_iff k "task_id")
plain-loads-dumps (field k (str s) (field j w fs)) b h = cc
plain-loads-dumps (field k null fs) b h = cc
plain-loads-dumps (field k (bool x) fs) b h = cc
plain-loads-dumps (field k (int n) fs) b h = cc
plain-loads-dumps (field k (float x) fs) b h = cc
plain-loads-dumps (field k (arr vs) fs) b h = cc
plain-loads-dumps (field k (obj os) fs) b h = cc

plain-IsSound : IsSound plain
plain-IsSound = record {
  loads-dumps = plain-loads-dumps;
  decodes = λ b. refl;
  opens = λ key nonce b. refl;
}

abbrev sealed : Fields
sealed =
    field "_encrypted" (bool true)
      (field "_ciphertext" (str "task-1") (field "_nonce" (str "nonce") end))

decrypt_payload-encrypt_payload_example :
    decrypt_payload plain (new_cipher plain (some "secret")) sealed ≡ ok sample_payload
unfolding new_cipher encrypt_payload sealed_payload
decrypt_payload-encrypt_payload_example =
    decrypt_payload-encrypt_payload plain plain-IsSound (some "secret") sample_payload sealed 0 0
      refl
