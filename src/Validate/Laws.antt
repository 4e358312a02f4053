-- ===== src/Validate/Laws.antt =====
-- What `validate_message` accepts, and when it raises.
use aqap.Prelude.{
  ℕ, String, Bool, true, false, Option, none, some, List, [], ◌∷◌, ◌++◌, if◌then◌else◌, ◌≡◌, refl,
  ◌⊎◌, arith, inl, inr, Bool-cases, ◌≤◌, ◌≢◌, All, Result, ok, err, Exc, ap, ◌∙◌, bind, bind-eq-ok,
  ok_injective, type_error, attribute_error,
}
use mathlib.Core.List.{append-nil}
use aqap.Value.{
  Value, null, bool, int, float, str, arr, obj, Fields, truthy, is_str, get_field, get_field_or,
  has_field, get_field_or_lem, has_field_lem, or_default,
}
use aqap.Text.{Python, codes, strip, decimal, isdigit, int_of, has_dot, before_dot}
use aqap.Message.{MessageType, value, Fresh, new_message, wire, to_dict}
use aqap.Validate.{
  Issue, is_known, is_empty, missing_issues, required, source_issues, type_issues, version_issues,
  text_issues, payload_issues, is_major_one, validate_message,
}

-- A truthy version that is no text makes the validator raise, whatever else the object holds.
validate_message_raises :
    (py : Python) (entries : Fields) (v : Value)
    → get_field_or "version" (str "") entries ≡ v
    → truthy v ≡ true
    → is_str v ≡ false
    → (e : Exc) × (validate_message py entries ≡ err e)
unfolding validate_message version_issues truthy
validate_message_raises py entries (bool b) h t s = (type_error, ground arith)
validate_message_raises py entries (int n) h t s = (type_error, ground arith)
validate_message_raises py entries (float x) h t s = (type_error, ground arith)
validate_message_raises py entries (arr vs) h t s = (attribute_error, ground arith)
validate_message_raises py entries (obj fs) h t s = (attribute_error, ground arith)
validate_message_raises py entries null h t s = absurd (ground arith)
validate_message_raises py entries (str x) h t s = absurd (ground arith)

append-eq-nil : {A : Type 0} (xs ys : List A) → xs ++ ys ≡ [] → (xs ≡ []) × (ys ≡ [])
append-eq-nil [] ys h = (refl, h)
append-eq-nil (x ∷ xs) ys h = cc

before_dot_lem : (s : List ℕ) → has_dot s ≡ false → before_dot s ≡ s
before_dot_lem [] h = refl
before_dot_lem (c ∷ s) h = ground (arith, before_dot_lem s)

major : (s : List ℕ) → (if has_dot s then before_dot s else s) ≡ before_dot s
major s = ground (arith, before_dot_lem s)

-- absent, null or text
abbrev IsText : Option Value → Type 0
IsText o = (o ≡ none) ⊎ ((o ≡ some null) ⊎ ((s : String) × (o ≡ some (str s))))

-- What the validator lets pass, field by field: less than PROTOCOL.md demands, since null passes for a
-- type, a payload and a target, and any falsy value for a version.
pub record IsValid (py : Python) (entries : Fields) : Type 0 where
  pub type :
      (get_field "type" entries ≡ some null)
      ⊎ ((s : String) × (get_field "type" entries ≡ some (str s)) × (is_known py s ≡ true))
  pub source :
      (s : String) × (get_field "source" entries ≡ some (str s))
      × (is_empty (strip py (codes s)) ≡ false)
  pub payload :
      (get_field "payload" entries ≡ some null)
      ⊎ ((fs : Fields) × (get_field "payload" entries ≡ some (obj fs)))
  pub version :
      (v : Value) × (get_field "version" entries ≡ some v)
      × ((truthy v ≡ false)
          ⊎ ((s : String) × (v ≡ str s) × (is_major_one py (before_dot (codes s)) ≡ ok true)))
  pub target : IsText (get_field "target" entries)
  pub correlation_id : IsText (get_field "correlation_id" entries)

text_issues-IsText : (name : String) (o : Option Value) → text_issues name o ≡ [] → IsText o
unfolding text_issues
text_issues-IsText name none h = inl refl
text_issues-IsText name (some null) h = inr (inl refl)
text_issues-IsText name (some (str s)) h = inr (inr (s, refl))
text_issues-IsText name (some (bool b)) h = cc
text_issues-IsText name (some (int n)) h = cc
text_issues-IsText name (some (float x)) h = cc
text_issues-IsText name (some (arr vs)) h = cc
text_issues-IsText name (some (obj fs)) h = cc

missing_none :
    (entries : Fields)
    → missing_issues required entries ≡ []
    → All (λ k. has_field k entries ≡ true) required
unfolding missing_issues
missing_none entries h = ground arith

payload_of :
    (o : Option Value)
    → o ≢ none
    → payload_issues o ≡ []
    → (o ≡ some null) ⊎ ((fs : Fields) × (o ≡ some (obj fs)))
unfolding payload_issues
payload_of none n h = absurd (n refl)
payload_of (some null) n h = inl refl
payload_of (some (obj fs)) n h = inr (fs, refl)
payload_of (some (str s)) n h = cc
payload_of (some (bool b)) n h = cc
payload_of (some (int x)) n h = cc
payload_of (some (float x)) n h = cc
payload_of (some (arr vs)) n h = cc

type_of :
    (py : Python) (o : Option Value)
    → o ≢ none
    → type_issues py o ≡ []
    → (o ≡ some null) ⊎ ((s : String) × (o ≡ some (str s)) × (is_known py s ≡ true))
unfolding type_issues
type_of py none n h = absurd (n refl)
type_of py (some null) n h = inl refl
type_of py (some (str s)) n h = inr (s, refl, unfold is_known in ground arith)
type_of py (some (obj fs)) n h = cc
type_of py (some (bool b)) n h = cc
type_of py (some (int x)) n h = cc
type_of py (some (float x)) n h = cc
type_of py (some (arr vs)) n h = cc

source_of :
    (py : Python) (o : Option Value)
    → o ≢ none
    → source_issues py (or_default (str "") o) ≡ []
    → (s : String) × (o ≡ some (str s)) × (is_empty (strip py (codes s)) ≡ false)
unfolding source_issues
source_of py none n h = absurd (n refl)
source_of py (some (str s)) n h = (s, refl, ground arith)
source_of py (some null) n h = cc
source_of py (some (obj fs)) n h = cc
source_of py (some (bool b)) n h = cc
source_of py (some (int x)) n h = cc
source_of py (some (float x)) n h = cc
source_of py (some (arr vs)) n h = cc

one_of :
    (s : String) (r : Result Bool)
    → bind r (λ one. ok (if one then [] else Issue.version_mismatch s ∷ [])) ≡ ok []
    → r ≡ ok true
one_of s (ok true) h = refl
one_of s (ok false) h = cc
one_of s (err e) h = cc

version_of :
    (py : Python) (v : Value)
    → version_issues py v ≡ ok []
    → (truthy v ≡ false)
      ⊎ ((s : String) × (v ≡ str s) × (is_major_one py (before_dot (codes s)) ≡ ok true))
unfolding version_issues
version_of py (str s) h = elim (Bool-cases (truthy (str s))) [
  | inl t ↦ inr (s, refl, rw major at (one_of s _ (rw t at h)))
  | inr f ↦ inl f
]
version_of py null h = inl (unfold truthy in refl)
version_of py (obj fs) h = inl (ground arith)
version_of py (bool b) h = inl (ground arith)
version_of py (int x) h = inl (ground arith)
version_of py (float x) h = inl (ground arith)
version_of py (arr vs) h = inl (ground arith)

some_of_present : (o : Option Value) → o ≢ none → (v : Value) × (o ≡ some v)
some_of_present none n = absurd (n refl)
some_of_present (some v) n = (v, refl)

present : (k : String) (entries : Fields) → has_field k entries ≡ true → get_field k entries ≢ none
present k entries h e = ground (arith, has_field_lem k entries)

-- An object that passes the validator has these fields.
validate_message-IsValid :
    (py : Python) (entries : Fields) → validate_message py entries ≡ ok [] → IsValid py entries
unfolding validate_message
validate_message-IsValid py entries h =
    let (vs, checked, e) =
      bind-eq-ok (version_issues py (get_field_or "version" (str "") entries)) _ h in
    let (before, rest) = append-eq-nil _ _ (ok_injective _ _ e) in
    let (none_missing, here) = append-eq-nil _ _ before in
    let (no_source, no_type) =
      append-eq-nil (source_issues py (get_field_or "source" (str "") entries)) _ here in
    let (no_version, after) = append-eq-nil vs _ rest in
    let (no_target, more) = append-eq-nil _ _ after in
    let (no_correlation, no_payload) = append-eq-nil _ _ more in
    let (has_type, (has_source, (has_payload, (has_version, _)))) =
      missing_none entries none_missing in
    let (v, found) = some_of_present _ (present "version" entries has_version) in
    let version_is : get_field_or "version" (str "") entries ≡ v =
      get_field_or_lem "version" (str "") entries ∙ ap (or_default (str "")) found in
    record {
      type = type_of py _ (present "type" entries has_type) no_type;
      source =
          source_of py _ (present "source" entries has_source) (rw get_field_or_lem at no_source);
      payload = payload_of _ (present "payload" entries has_payload) no_payload;
      version = (v, found, version_of py v (rw (← version_is) (checked ∙ ap ok no_version)));
      target = text_issues-IsText "target" _ no_target;
      correlation_id = text_issues-IsText "correlation_id" _ no_correlation;
    }

version_one :
    (py : Python)
    → py.digit_of b'1' ≡ decimal 1
    → 1 ≤ py.max_str_digits
    → version_issues py (str "1.0") ≡ ok []
unfolding version_issues truthy isdigit int_of
version_one py digit room = ground arith

type_known : (py : Python) (t : MessageType) → type_issues py (some (str (value t))) ≡ []
unfolding type_issues value
type_known py MessageType.unknown = refl
type_known py _ = refl

-- A message that an agent builds with the default fields passes, unless its source is blank, which
-- is then the one issue; "1" has to be a decimal digit, and `int` has to read one digit.
pub validate-new_message :
    (py : Python) (f : Fresh) (t : MessageType) (source : String) (payload : Fields)
    → py.digit_of b'1' ≡ decimal 1
    → 1 ≤ py.max_str_digits
    → validate_message py (to_dict (wire (new_message f t source payload)))
      ≡ ok (source_issues py (str source))
unfolding validate_message to_dict wire new_message get_field get_field_or has_field
validate-new_message py f t source payload digit room =
    rw (version_one py digit room, type_known py t) (simp append-nil)
