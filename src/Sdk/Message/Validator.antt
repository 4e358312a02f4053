-- ===== src/Sdk/Message/Validator.antt =====
-- `validate_message` of sdk/aqap_sdk/message.py: the steps that add to its list `errors`, in turn. The
-- texts in the list are those of the core's validator, constructors of `Issue`.
use aqap.Prelude.{
  ℕ, String, Bool, true, false, Option, none, some, List, [], ◌∷◌, ◌++◌, if◌then◌else◌, nat_eq,
  Result, ok, err, bind, type_error, attribute_error,
}
use aqap.Value.{
  Value, null, str, arr, obj, Fields, truthy, type_name, has_field, get_field, get_field_or,
}
use aqap.Text.{Python, codes, same_codes, has_dot, before_dot, upper, strip, isdigit, int_of}
use aqap.Validate.{
  Issue, missing, blank_source, unknown_type, type_not_string, version_mismatch, field_not_string,
  payload_not_object,
}

-- _KNOWN_TYPES
abbrev pub known_types : List String
known_types =
    "UNKNOWN" ∷ "HEARTBEAT" ∷ "REGISTER" ∷ "SHUTDOWN" ∷ "TASK_DISPATCH" ∷ "TASK_RESULT"
    ∷ "JUDGE_REQUEST" ∷ "JUDGE_VERDICT" ∷ "REPORT_REQUEST" ∷ "REPORT_DELIVER" ∷ "ERROR" ∷ "LOG"
    ∷ "PLUGIN_EVENT" ∷ []

-- `raw_type in _KNOWN_TYPES`
unfoldable pub is_in : List ℕ → List String → Bool
is_in s [] = false
is_in s (name ∷ names) = if same_codes s (codes name) then true else is_in s names

-- the loop over the required fields
unfoldable pub check_required : List String → Fields → List Issue → List Issue
check_required [] entries errors = errors
check_required (name ∷ names) entries errors =
    check_required names entries
      (if has_field name entries then errors else errors ++ missing name ∷ [])

abbrev pub is_blank : List ℕ → Bool
is_blank [] = true
is_blank (c ∷ s) = false

-- a value that may be None and has to be a text
unfoldable pub check_text : String → Option Value → List Issue → List Issue
check_text name none errors = errors
check_text name (some null) errors = errors
check_text name (some (str s)) errors = errors
check_text name (some v) errors = errors ++ field_not_string name (type_name v) ∷ []

unfoldable pub check_payload : Option Value → List Issue → List Issue
check_payload none errors = errors
check_payload (some null) errors = errors
check_payload (some (obj fs)) errors = errors
check_payload (some v) errors = errors ++ payload_not_object ∷ []

module _ (py : Python) where
  unfoldable pub check_source : Value → List Issue → List Issue
  check_source (str s) errors =
      if is_blank (strip py (codes s)) then errors ++ blank_source ∷ [] else errors
  check_source _ errors = errors ++ blank_source ∷ []

  unfoldable pub check_type : Option Value → List Issue → List Issue
  unfolding is_in
  check_type none errors = errors
  check_type (some null) errors = errors
  check_type (some (str raw)) errors =
      if is_in (codes raw) known_types
      then errors
      else if is_in (upper py (codes raw)) known_types
      then errors
      else errors ++ unknown_type raw ∷ []
  check_type (some v) errors = errors ++ type_not_string (type_name v) ∷ []

  -- version.split(".")[0] if "." in version else version
  abbrev pub major_of : List ℕ → List ℕ
  major_of s = if has_dot s then before_dot s else s

  -- `not major.isdigit() or int(major) != 1`
  unfoldable is_other_major : List ℕ → Result Bool
  is_other_major major =
      if isdigit py major
      then bind (int_of py major) (λ n. ok (if nat_eq n 1 then false else true))
      else ok true

  -- `if version:`; a number has no `in`, and a list and a dict have no `isdigit` or no `split`
  unfoldable pub check_version : Value → List Issue → Result (List Issue)
  unfolding is_other_major
  check_version (str s) errors =
      if truthy (str s)
      then bind (is_other_major (major_of (codes s)))
          (λ mismatch. ok (if mismatch then errors ++ version_mismatch s ∷ [] else errors))
      else ok errors
  check_version (arr vs) errors = if truthy (arr vs) then err attribute_error else ok errors
  check_version (obj fs) errors = if truthy (obj fs) then err attribute_error else ok errors
  check_version v errors = if truthy v then err type_error else ok errors

  unfoldable pub sdk_validate_message : Fields → Result (List Issue)
  unfolding check_required check_source check_type check_version check_text check_payload
  sdk_validate_message entries =
      let required = "type" ∷ "source" ∷ "payload" ∷ "version" ∷ [] in
      let errors = check_required required entries [] in
      let errors' = check_source (get_field_or "source" (str "") entries) errors in
      let errors'' = check_type (get_field "type" entries) errors' in
      bind (check_version (get_field_or "version" (str "") entries) errors'') (λ found. ok (
        check_payload (get_field "payload" entries) (
          check_text "correlation_id" (get_field "correlation_id" entries)
            (check_text "target" (get_field "target" entries) found))))
