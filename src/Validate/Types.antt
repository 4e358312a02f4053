-- ===== src/Validate/Types.antt =====
-- The validator's list of known types against the enum that `from_dict` reads by.
use aqap.Prelude.{
  ℕ, String, Bool, true, false, Option, none, some, List, [], ◌∷◌, ◌≡◌, ◌↔◌, ◌⊎◌, arith,
}
use aqap.Value.{str}
use aqap.Text.{Python, codes, upper}
use aqap.Message.{MessageType, value, of_value, resolve_type}
use aqap.Validate.{Issue, among, known_message_types, type_issues}

abbrev is_some : Option MessageType → Bool
is_some none = false
is_some (some t) = true

-- The set of names and the enum accept the same texts.
among-known_message_types : (s : List ℕ) → among s known_message_types ≡ is_some (of_value s)
unfolding of_value value
among-known_message_types s = ground arith

-- The type that `from_dict` gives to a raw text is UNKNOWN exactly when the validator reports the
-- text as an unknown type, or the text spells "UNKNOWN" itself, exactly or else in upper case.
unknown_iff_issue :
    (py : Python) (raw : String)
    → (resolve_type py (str raw) ≡ MessageType.unknown) ↔ (
        (type_issues py (some (str raw)) ≡ Issue.unknown_type raw ∷ [])
        ⊎ ((of_value (codes raw) ≡ some MessageType.unknown)
            ⊎ (of_value (codes raw) ≡ none)
              × (of_value (upper py (codes raw)) ≡ some MessageType.unknown)))
unfolding resolve_type type_issues
unknown_iff_issue py raw =
    ground (
      arith,
      among-known_message_types (codes raw),
      among-known_message_types (upper py (codes raw)),
    )
