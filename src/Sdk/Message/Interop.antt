-- ===== src/Sdk/Message/Interop.antt =====
-- The SDK's messages and the core's.
use aqap.Prelude.{
  Result, ℕ, String, true, false, List, [], ◌∷◌, ◌++◌, sym, bind, Bool-cases, Result-cases, Option,
  refl, none, some, ok, err, attribute_error, ◌≡◌, ◌∙◌, ap, arith, ◌⊎◌, inl, inr,
}
use aqap.Value.{
  Value, str, null, arr, obj, has_field, Fields, truthy, get_field, get_field_or, is_str,
  get_field_or_lem,
}
use aqap.Text.{Python, codes, upper, strip, isdigit, int_of}
use aqap.Message
use aqap.Message.{MessageType, RawMessage, Fresh, value, of_value}
use aqap.Message.RoundTrip.{resolve_type-value}
use mathlib.Core.List.{append_assoc, append-nil}
use aqap.Validate.{
  Issue, missing, required, among, missing_issues, text_issues, payload_issues, source_issues,
  type_issues, version_issues, is_known, validate_message,
}
use aqap.Sdk.Message.Validator.{
  is_in, check_required, check_text, check_payload, check_source, check_type, check_version,
  known_types, is_blank, major_of,
}
use aqap.Sdk.Message.{sdk_validate_message, resolve_type, or_fresh, to_dict, from_dict}

resolve_type-str :
    (py : Python) (raw : String)
    → resolve_type py (str raw) ≡ ok (Message.resolve_type py (str raw))
unfolding resolve_type Message.resolve_type
resolve_type-str py raw = ground arith

resolve_type-text :
    (py : Python) (v : Value) → is_str v ≡ true → resolve_type py v ≡ ok (Message.resolve_type py v)
resolve_type-text py (str raw) h = resolve_type-str py raw
resolve_type-text py _ h = cc

-- What the SDK writes, the core reads back unchanged.
core_reads_sdk : (py : Python) (f : Fresh) (m : RawMessage) → Message.from_dict py f (to_dict m) ≡ m
unfolding to_dict Message.from_dict get_field_or
core_reads_sdk py f m = ap (λ t. record m { type = t }) (resolve_type-value py m.type)

-- An entry whose value the SDK keeps: it is absent, or it is not falsy.
abbrev IsKept : String → Fields → Type 0
IsKept k entries =
    (get_field k entries ≡ none)
    ⊎ ((v : Value) × (get_field k entries ≡ some v) × (truthy v ≡ true))

kept :
    (k : String) (w : String) (entries : Fields)
    → IsKept k entries
    → or_fresh (get_field_or k null entries) (str w) ≡ get_field_or k (str w) entries
unfolding truthy
kept k w entries (inl h) =
    rw (get_field_or_lem k null entries, get_field_or_lem k (str w) entries, h)
kept k w entries (inr (v, h, t)) =
    rw (get_field_or_lem k null entries, get_field_or_lem k (str w) entries, h, t)

-- Where the type is text or absent, and the identifiers and the timestamp are absent or not falsy,
-- the SDK's decoder does what the core's does.
pub from_dict-eq-core :
    (py : Python) (f : Fresh) (entries : Fields)
    → is_str (get_field_or "type" (str "") entries) ≡ true
    → IsKept "message_id" entries
    → IsKept "trace_id" entries
    → IsKept "timestamp" entries
    → from_dict py f entries ≡ ok (Message.from_dict py f entries)
unfolding from_dict Message.from_dict
from_dict-eq-core py f entries s h k l = rw (
  resolve_type-text py _ s,
  kept "message_id" f.message_id entries h,
  kept "trace_id" f.trace_id entries k,
  kept "timestamp" f.timestamp entries l,
)

-- What the SDK writes, the SDK reads back, unless an identifier or the time is falsy.
pub from_dict-to_dict :
    (py : Python) (f : Fresh) (m : RawMessage)
    → truthy m.message_id ≡ true
    → truthy m.trace_id ≡ true
    → truthy m.timestamp ≡ true
    → from_dict py f (to_dict m) ≡ ok m
unfolding to_dict get_field get_field_or
from_dict-to_dict py f m h k l =
    from_dict-eq-core py f (to_dict m) refl (inr (m.message_id, refl, h))
      (inr (m.trace_id, refl, k)) (inr (m.timestamp, refl, l))
    ∙ ap ok (core_reads_sdk py f m)

-- A type that is no text is UNKNOWN to the core, and makes the SDK raise.
type_not_text :
    (py : Python) (f : Fresh) (entries : Fields)
    → is_str (get_field_or "type" (str "") entries) ≡ false
    → ((Message.from_dict py f entries).type ≡ MessageType.unknown)
      × (from_dict py f entries ≡ err attribute_error)
unfolding from_dict Message.from_dict Message.resolve_type
type_not_text py f entries h = ground arith

-- Each step of the SDK's validator adds what the core's finds there.
check_required_lem :
    (names : List String) (entries : Fields) (errors : List Issue)
    → check_required names entries errors ≡ errors ++ missing_issues names entries
unfolding check_required missing_issues
check_required_lem [] entries errors = sym (append-nil errors)
check_required_lem (name ∷ names) entries errors = elim (Bool-cases (has_field name entries)) [
  | inl there ↦ rw there (check_required_lem names entries errors)
  | inr absent ↦ rw absent (
      check_required_lem names entries (errors ++ missing name ∷ [])
      ∙ append_assoc errors (missing name ∷ []) (missing_issues names entries))
]

is_in_lem : (s : List ℕ) (names : List String) → is_in s names ≡ among s names
unfolding is_in
is_in_lem s [] = refl
is_in_lem s (name ∷ names) = ground (arith, is_in_lem s names)

check_text_lem :
    (name : String) (o : Option Value) (errors : List Issue)
    → check_text name o errors ≡ errors ++ text_issues name o
unfolding check_text text_issues
check_text_lem name none errors = sym (append-nil errors)
check_text_lem name (some null) errors = sym (append-nil errors)
check_text_lem name (some (str s)) errors = sym (append-nil errors)
check_text_lem name (some _) errors = refl

check_payload_lem :
    (o : Option Value) (errors : List Issue) → check_payload o errors ≡ errors ++ payload_issues o
unfolding check_payload payload_issues
check_payload_lem none errors = sym (append-nil errors)
check_payload_lem (some null) errors = sym (append-nil errors)
check_payload_lem (some (obj fs)) errors = sym (append-nil errors)
check_payload_lem (some _) errors = refl

module _ (py : Python) where
  check_source_lem :
      (v : Value) (errors : List Issue) → check_source py v errors ≡ errors ++ source_issues py v
  unfolding check_source source_issues
  check_source_lem (str s) errors = elim (Bool-cases (is_blank (strip py (codes s)))) [
    | inl blank ↦ rw blank refl
    | inr text ↦ rw text (sym (append-nil errors))
  ]
  check_source_lem _ errors = refl

  check_type_lem :
      (o : Option Value) (errors : List Issue) → check_type py o errors ≡ errors ++ type_issues py o
  unfolding check_type type_issues is_known
  check_type_lem none errors = sym (append-nil errors)
  check_type_lem (some null) errors = sym (append-nil errors)
  check_type_lem (some (str raw)) errors = ground (
    arith,
    is_in_lem (codes raw) known_types,
    is_in_lem (upper py (codes raw)) known_types,
    append-nil errors,
  )
  check_type_lem (some _) errors = refl

  check_version_lem :
      (v : Value) (errors : List Issue)
      → check_version py v errors ≡ bind (version_issues py v) (λ vs. ok (errors ++ vs))
  unfolding check_version version_issues
  check_version_lem (str s) errors = ground (
    arith,
    append-nil errors,
    Bool-cases (truthy (str s)),
    Bool-cases (isdigit py (major_of py (codes s))),
    Result-cases (int_of py (major_of py (codes s))),
  )
  check_version_lem (arr vs) errors = ground (arith, append-nil errors)
  check_version_lem (obj vs) errors = ground (arith, append-nil errors)
  check_version_lem v errors = ground (arith, append-nil errors)

  -- what is found before and after the version, put together
  appended :
      (versions checked : Result (List Issue)) (before rest : List Issue)
      (after : List Issue → List Issue)
      → checked ≡ bind versions (λ vs. ok (before ++ vs))
      → ((found : List Issue) → after found ≡ found ++ rest)
      → bind checked (λ found. ok (after found)) ≡ bind versions (λ vs. ok (before ++ (vs ++ rest)))
  appended (ok vs) checked before rest after h k =
      rw (h, k (before ++ vs), append_assoc before vs rest) refl
  appended (err e) checked before rest after h k = rw h refl

  before_lem :
      (entries : Fields)
      → check_type py (get_field "type" entries) (
          check_source py
            (get_field_or "source" (str "") entries)
            (check_required required entries []))
        ≡ missing_issues required entries
          ++ (source_issues py (get_field_or "source" (str "") entries)
              ++ type_issues py (get_field "type" entries))
  before_lem entries =
      rw (check_type_lem, check_source_lem, check_required_lem)
        (append_assoc (missing_issues required entries)
          (source_issues py (get_field_or "source" (str "") entries))
          (type_issues py (get_field "type" entries)))

  after_lem :
      (entries : Fields) (found : List Issue)
      → check_payload (get_field "payload" entries) (
          check_text "correlation_id"
            (get_field "correlation_id" entries)
            (check_text "target" (get_field "target" entries) found))
        ≡ found
          ++ (text_issues "target" (get_field "target" entries)
              ++ (text_issues "correlation_id" (get_field "correlation_id" entries)
                  ++ payload_issues (get_field "payload" entries)))
  after_lem entries found =
      rw (check_payload_lem, check_text_lem, check_text_lem, append_assoc, append_assoc) refl

  -- The SDK's validator, step by step, finds in every object what the core's does, in the same order,
  -- or raises what it raises.
  pub sdk_validate_message_lem :
      (entries : Fields) → sdk_validate_message py entries ≡ validate_message py entries
  sdk_validate_message_lem entries =
      let version = get_field_or "version" (str "") entries in
      let before =
        missing_issues required entries
        ++ (source_issues py (get_field_or "source" (str "") entries)
            ++ type_issues py (get_field "type" entries)) in
      unfold sdk_validate_message validate_message in
      appended (version_issues py version) _ before _ _
        (rw (before_lem entries) (check_version_lem version before)) (after_lem entries)
