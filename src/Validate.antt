-- ===== src/Validate.antt =====
-- `validate_message` of aqap/core/validate.py, on a decoded JSON object. The strings of its error
-- list are the constructors of `Issue`. An exception that it raises is a result.
pub mod Types
pub mod Laws
use aqap.Prelude.{
  ℕ, String, Bool, true, false, not, ◌&&◌, ◌||◌, Option, none, some, List, [], ◌∷◌, ◌++◌,
  if◌then◌else◌, nat_eq, Result, ok, err, bind, type_error, attribute_error,
}
use aqap.Value.{
  Value, null, bool, int, float, str, arr, obj, Fields, truthy, type_name, is_str, is_dict,
  get_field, get_field_or, has_field,
}
use aqap.Text.{Python, codes, same_codes, has_dot, before_dot, upper, strip, isdigit, int_of}

pub data Issue : Type 0 where
  missing : String → Issue
  blank_source : Issue
  unknown_type : String → Issue
  type_not_string : String → Issue
  version_mismatch : String → Issue
  field_not_string : String → String → Issue
  payload_not_object : Issue

-- KNOWN_MESSAGE_TYPES
abbrev pub known_message_types : List String
known_message_types =
    "UNKNOWN" ∷ "HEARTBEAT" ∷ "REGISTER" ∷ "SHUTDOWN" ∷ "TASK_DISPATCH" ∷ "TASK_RESULT"
    ∷ "JUDGE_REQUEST" ∷ "JUDGE_VERDICT" ∷ "REPORT_REQUEST" ∷ "REPORT_DELIVER" ∷ "ERROR" ∷ "LOG"
    ∷ "PLUGIN_EVENT" ∷ []

-- s in names
abbrev pub among : List ℕ → List String → Bool
among s [] = false
among s (name ∷ names) = same_codes s (codes name) || among s names

abbrev pub required : List String
required = "type" ∷ "source" ∷ "payload" ∷ "version" ∷ []

unfoldable pub missing_issues : List String → Fields → List Issue
missing_issues [] entries = []
missing_issues (name ∷ names) entries =
    if has_field name entries
    then missing_issues names entries
    else missing name ∷ missing_issues names entries

abbrev is_empty : List ℕ → Bool
is_empty [] = true
is_empty (c ∷ s) = false

-- target and correlation_id
unfoldable pub text_issues : String → Option Value → List Issue
text_issues name none = []
text_issues name (some null) = []
text_issues name (some v) = if is_str v then [] else field_not_string name (type_name v) ∷ []

unfoldable pub payload_issues : Option Value → List Issue
payload_issues none = []
payload_issues (some null) = []
payload_issues (some v) = if is_dict v then [] else payload_not_object ∷ []

module _ (py : Python) where
  unfoldable pub source_issues : Value → List Issue
  source_issues (str s) = if is_empty (strip py (codes s)) then blank_source ∷ [] else []
  source_issues _ = blank_source ∷ []

  unfoldable pub is_known : String → Bool
  is_known raw =
      among (codes raw) known_message_types || among (upper py (codes raw)) known_message_types

  unfoldable pub type_issues : Option Value → List Issue
  unfolding is_known
  type_issues none = []
  type_issues (some null) = []
  type_issues (some (str raw)) = if is_known raw then [] else unknown_type raw ∷ []
  type_issues (some v) = type_not_string (type_name v) ∷ []

  -- `major.isdigit()` and `int(major) == 1`
  unfoldable pub is_major_one : List ℕ → Result Bool
  is_major_one major =
      if isdigit py major then bind (int_of py major) (λ n. ok (nat_eq n 1)) else ok false

  -- What follows `if version:`. `"." in version` is a TypeError of a number; `.isdigit` and `.split`
  -- are missing from a list and a dict.
  unfoldable check_version : Value → Result (List Issue)
  unfolding is_major_one
  check_version (str s) =
      bind (is_major_one (if has_dot (codes s) then before_dot (codes s) else codes s))
        (λ one. ok (if one then [] else version_mismatch s ∷ []))
  check_version (arr vs) = err attribute_error
  check_version (obj fs) = err attribute_error
  check_version v = err type_error

  unfoldable pub version_issues : Value → Result (List Issue)
  unfolding check_version
  version_issues v = if truthy v then check_version v else ok []

  unfoldable pub validate_message : Fields → Result (List Issue)
  unfolding missing_issues source_issues type_issues version_issues text_issues payload_issues
  validate_message entries =
      let before : List Issue =
        missing_issues required entries
        ++ (source_issues (get_field_or "source" (str "") entries)
            ++ type_issues (get_field "type" entries)) in
      let after : List Issue =
        text_issues "target" (get_field "target" entries)
        ++ (text_issues "correlation_id" (get_field "correlation_id" entries)
            ++ payload_issues (get_field "payload" entries)) in
      bind (version_issues (get_field_or "version" (str "") entries))
        (λ vs. ok (before ++ (vs ++ after)))
