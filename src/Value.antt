-- ===== src/Value.antt =====
-- The values of a decoded JSON document, as Python holds them: `None`, `bool`, `int`, `float`,
-- `str`, `list` and `dict`. A `dict` keeps its entries in insertion order. A float is its 64-bit
-- pattern: nothing here computes with floats, and a component that does takes the operations as a
-- parameter.
use aqap.Prelude.{
  List, [], ◌∷◌, Result, ok, err, type_error, ℕ, ◌^◌, String, Bool, true, false, not, ◌||◌, Option,
  none, some, ◌≡◌, refl, arith, ◌==◌, eq_iff, nat_eq, if◌then◌else◌,
}

-- `negsuc n` is -(n + 1).
pub data ℤ : Type 0 where
  pos : ℕ → ℤ
  negsuc : ℕ → ℤ

pub record Float : Type 0 where
  pub bits : ℕ

mutual
  pub data Value : Type 0 where
    null : Value
    bool : Bool → Value
    int : ℤ → Value
    float : Float → Value
    str : String → Value
    obj : Fields → Value
    arr : Items → Value

  pub data Fields : Type 0 where
    end : Fields
    field : String → Value → Fields → Fields

  pub data Items : Type 0 where
    nil : Items
    cons : Value → Items → Items

-- bool(v); 0.0 and -0.0 are falsy
unfoldable pub truthy : Value → Bool
truthy null = false
truthy (bool b) = b
truthy (int (pos n)) = not (nat_eq n 0)
truthy (int (negsuc n)) = true
truthy (float x) = not (nat_eq x.bits 0 || nat_eq x.bits (2 ^ 63))
truthy (str s) = not (s == "")
truthy (arr nil) = false
truthy (arr (cons v vs)) = true
truthy (obj end) = false
truthy (obj (field k v fs)) = true

-- type(v).__name__
unfoldable pub type_name : Value → String
type_name null = "NoneType"
type_name (bool b) = "bool"
type_name (int n) = "int"
type_name (float x) = "float"
type_name (str s) = "str"
type_name (arr vs) = "list"
type_name (obj fs) = "dict"

abbrev pub is_str : Value → Bool
is_str (str s) = true
is_str _ = false

abbrev pub is_dict : Value → Bool
is_dict (obj fs) = true
is_dict _ = false

abbrev pub is_bool : Value → Bool
is_bool (bool b) = true
is_bool _ = false

-- d.get(k)
unfoldable pub get_field : String → Fields → Option Value
get_field k end = none
get_field k (field j v fs) = if j == k then some v else get_field k fs

-- d.get(k, default)
unfoldable pub get_field_or : String → Value → Fields → Value
get_field_or k w end = w
get_field_or k w (field j v fs) = if j == k then v else get_field_or k w fs

-- k in d
unfoldable pub has_field : String → Fields → Bool
has_field k end = false
has_field k (field j v fs) = if j == k then true else has_field k fs

-- d[k] = v
unfoldable pub put_field : String → Value → Fields → Fields
put_field k v end = field k v end
put_field k v (field j w fs) = if j == k then field j v fs else field j w (put_field k v fs)

pub get_field-put_field :
    (k j : String) (v : Value) (fs : Fields)
    → get_field j (put_field k v fs) ≡ (if k == j then some v else get_field j fs)
unfolding get_field put_field
get_field-put_field k j v end = refl
get_field-put_field k j v (field i w fs) =
    ground (arith, eq_iff k j, eq_iff i k, eq_iff i j, get_field-put_field k j v fs)

abbrev pub or_default : Value → Option Value → Value
or_default w none = w
or_default w (some v) = v

pub get_field_or_lem :
    (k : String) (w : Value) (fs : Fields) → get_field_or k w fs ≡ or_default w (get_field k fs)
unfolding get_field_or get_field
get_field_or_lem k w end = refl
get_field_or_lem k w (field j v fs) = ground (arith, get_field_or_lem k w fs)

abbrev is_present : Option Value → Bool
is_present none = false
is_present (some v) = true

pub has_field_lem : (k : String) (fs : Fields) → has_field k fs ≡ is_present (get_field k fs)
unfolding has_field get_field
has_field_lem k end = refl
has_field_lem k (field j v fs) = ground (arith, has_field_lem k fs)

abbrev keys_of : Fields → List Value
keys_of end = []
keys_of (field k v fs) = str k ∷ keys_of fs

abbrev values_of : Items → List Value
values_of nil = []
values_of (cons v vs) = v ∷ values_of vs

abbrev characters : String → List Value
characters String.[] = []
characters (String.◌∷◌ c s) = str (String.◌∷◌ c String.[]) ∷ characters s

-- what a `for` loop over a value goes through
unfoldable pub iterated : Value → Result (List Value)
iterated (arr vs) = ok (values_of vs)
iterated (obj fs) = ok (keys_of fs)
iterated (str s) = ok (characters s)
iterated _ = err type_error
