-- ===== src/Tests/Networks.antt =====
-- The transports over a network at concrete inputs.
use aqap.Prelude.{
  ℕ, String, Bool, true, Option, none, some, List, [], ◌∷◌, ok, attribute_error, ◌≡◌, refl, ◌==◌,
  if◌then◌else◌,
}
use aqap.Value.{Value, null, obj}
use aqap.Text.{ascii}
use aqap.Message.{Fresh, to_dict}
use aqap.Sdk.Consumer.{text}
use aqap.Network.{Codec}
use aqap.Network.Kafka as Kafka
use aqap.Network.Kafka.{subscription, subscription-fatal}
use aqap.Network.Redis.{
  Entry, deliver, deliver_all, deliver_all-Carries, no_json, nothing, junk, sent,
}
use aqap.Tests.{sample_fresh, sample_raw}

-- "m" is the text of a message, "[]" that of no object
abbrev documents : String → Option Value
documents s =
    if s == "m" then some (obj (to_dict sample_raw)) else if s == "null" then some null else none

abbrev texts : List ℕ → Option String
texts [] = none
texts (c ∷ cs) = elim cs [
  | [] ↦ some "m"
  | d ∷ ds ↦ elim ds [ [] ↦ some "null" | e ∷ es ↦ some "rubbish" ]
]

-- one byte is a message, two are null, three are no JSON, none is no UTF-8
abbrev codec : Codec
codec = record {
  py = ascii;
  dumps = λ fs. ok "m";
  encode = λ s. 1 ∷ [];
  decode = texts;
  loads = documents;
}

abbrev a_message : List ℕ
a_message = 1 ∷ []

abbrev no_object : List ℕ
no_object = 1 ∷ 2 ∷ []

abbrev draws : ℕ → Fresh
draws i = sample_fresh

abbrev subscribed : Kafka.Transport
subscribed = record {
  producer = true;
  consumers = ("t", 0) ∷ [];
  running = true;
  made = 1;
  log = [];
  faults = [];
}

abbrev taken : ℕ → Bool
taken i = true

subscription-fatal_example :
    (subscription codec draws taken "t" "g" 0 (a_message ∷ no_object ∷ a_message ∷ []) subscribed
      ≡ subscription codec draws taken "t" "g" 0 (a_message ∷ no_object ∷ []) subscribed)
    × (Kafka.ack "t" none "g"
          (subscription codec draws taken "t" "g" 0
            (a_message ∷ no_object ∷ a_message ∷ [])
            subscribed).1
        ≡ (subscription codec draws taken "t" "g" 0
            (a_message ∷ no_object ∷ a_message ∷ [])
            subscribed).1)
unfolding Kafka.parse
subscription-fatal_example =
    subscription-fatal codec draws taken "t" "g" 0 (a_message ∷ []) (a_message ∷ []) no_object
      attribute_error subscribed none "g" (λ f. refl)

abbrev entry : String → String → Entry
entry msg_id raw = record { msg_id = msg_id; bytes_key = none; text_key = some (text raw) }

deliver_all-Carries_example :
    deliver_all codec (λ i. sample_fresh) (entry "1-0" "rubbish" ∷ entry "2-0" "m" ∷ [])
    ≡ ("2-0", sample_raw) ∷ []
unfolding deliver
deliver_all-Carries_example =
    deliver_all-Carries codec (λ i. sample_fresh) (("2-0", sample_raw) ∷ [])
      (entry "1-0" "rubbish" ∷ entry "2-0" "m" ∷ [])
      (junk (entry "1-0" "rubbish") (("2-0", sample_raw) ∷ []) (entry "2-0" "m" ∷ [])
        (no_json (text "rubbish") "rubbish" refl refl refl)
        (sent (entry "2-0" "m") sample_raw "m" (text "m") [] [] refl refl refl refl nothing))
