-- ===== src/Config/Environment.antt =====
-- `_env_override` of aqap/core/config.py. Lower case, and what Unicode says of digits, are parameters.
use Prim.Native.Char.{code, Char}
use aqap.Prelude.{
  String, true, false, Option, none, some, List, [], ◌∷◌, if◌then◌else◌, Result, ok, err, bind,
  type_error, nat_eq, ◌==◌,
}
use aqap.Value.{Value, bool, int, pos, str, obj, end, get_field, put_field}
use aqap.Text.{Python, codes, isdigit, int_of}

-- key[len(prefix):] where key starts with prefix
unfoldable pub after_prefix : String → String → Option String
after_prefix String.[] key = some key
after_prefix (String.◌∷◌ c prefix) String.[] = none
after_prefix (String.◌∷◌ c prefix) (String.◌∷◌ d key) =
    let rest = after_prefix prefix key in if nat_eq (code c) (code d) then rest else none

abbrev pub add_char : Char → List String → List String
add_char c [] = String.◌∷◌ c String.[] ∷ []
add_char c (s ∷ parts) = String.◌∷◌ c s ∷ parts

-- s.split("_")
unfoldable pub split : String → List String
split String.[] = String.[] ∷ []
split (String.◌∷◌ c s) =
    let parts = split s in if nat_eq (code c) b'_' then String.[] ∷ parts else add_char c parts

unfoldable pub convert : Python → (String → String) → String → Result Value
unfolding isdigit int_of
convert py lower val =
    if lower val == "true"
    then ok (bool true)
    else if lower val == "false"
    then ok (bool false)
    else if isdigit py (codes val)
    then bind (int_of py (codes val)) (λ n. ok (int (pos n)))
    else ok (str val)

-- The section that a part leads to, made where it is missing. A text, a list, a number, a truth value
-- or None has no sections: looking for one or making one raises.
unfoldable pub section_at : String → Value → Result Value
unfolding get_field
section_at part (obj fs) = elim (get_field part fs) [ none ↦ ok (obj end) | some v ↦ ok v ]
section_at part _ = err type_error

-- target[part] = value
unfoldable pub put_at : String → Value → Value → Result Value
unfolding put_field
put_at part value (obj fs) = ok (obj (put_field part value fs))
put_at part value _ = err type_error

-- `parts` walked from `target`, and the value put under the last part
unfoldable pub set_path : List String → Result Value → Value → Result Value
unfolding section_at put_at
set_path [] value target = ok target
set_path (key_part ∷ []) value target = bind value (λ v. put_at key_part v target)
set_path (part ∷ next ∷ parts) value target =
    bind (section_at part target)
      (λ inner. bind (set_path (next ∷ parts) value inner) (λ inner'. put_at part inner' target))

-- The loop over the environment, whose variables are texts.
unfoldable pub env_override :
    Python → (String → String) → String → List (String × String) → Value → Result Value
unfolding after_prefix split convert set_path
env_override py lower prefix [] config = ok config
env_override py lower prefix ((key, val) ∷ environ) config = elim (after_prefix prefix key) [
  | none ↦ env_override py lower prefix environ config
  | some name ↦
      bind (set_path (split (lower name)) (convert py lower val) config)
        (λ config'. env_override py lower prefix environ config')
]
