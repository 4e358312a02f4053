-- ===== src/Config/Overrides.antt =====
-- What an override from the environment changes in a configuration.
use Prim.Native.Char.{Char, code}
use aqap.Prelude.{
  String, Bool, false, ◌||◌, some, List, [], ◌∷◌, Result, ok, nat_eq, eq_refl, All, ◌≡◌, refl, sym,
  ◌∙◌, Bool-cases, inl, inr, bind-eq-ok, ok_injective,
}
use aqap.Value.{Value, obj, Fields, get_field, put_field, get_field-put_field}
use aqap.Config.{get_path}
use aqap.Config.Environment.{add_char, split, section_at, put_at, set_path}

put_at-ok :
    (part : String) (v target result : Value)
    → put_at part v target ≡ ok result
    → (fs : Fields) × (target ≡ obj fs) × (result ≡ obj (put_field part v fs))
unfolding put_at
put_at-ok part v (obj fs) result h = (fs, refl, sym (ok_injective _ _ h))
put_at-ok part v _ result h = cc

get_path-some :
    (k : String) (ks : List String) (v : Value) (fs : Fields)
    → get_field k fs ≡ some v
    → get_path (k ∷ ks) (obj fs) ≡ get_path ks v
unfolding get_path
get_path-some k ks v fs e = rw (e, get_path) refl

get_path-put_field :
    (part : String) (ks : List String) (v : Value) (fs : Fields)
    → get_path (part ∷ ks) (obj (put_field part v fs)) ≡ get_path ks v
get_path-put_field part ks v fs =
    get_path-some part ks v (put_field part v fs)
      (get_field-put_field part part v fs ∙ rw (eq_refl part) refl)

-- An override that raises nothing can be read back: the path of its parts leads to its value.
get_path-set_path :
    (part : String) (parts : List String) (v target result : Value)
    → set_path (part ∷ parts) (ok v) target ≡ ok result
    → get_path (part ∷ parts) result ≡ some v
unfolding set_path get_path
get_path-set_path part [] v target result h =
    let (fs, _, e) = put_at-ok part v target result h in
    rw (e, get_path-put_field part [] v fs) refl
get_path-set_path part (next ∷ parts) v target result h =
    let (inner, found, h') = bind-eq-ok (section_at part target) _ h in
    let (inner', set, h'') = bind-eq-ok (set_path (next ∷ parts) (ok v) inner) _ h' in
    let (fs, _, e) = put_at-ok part inner' target result h'' in
    rw (e, get_path-put_field part (next ∷ parts) inner' fs)
      (get_path-set_path next parts v inner inner' set)

unfoldable pub has_underscore : String → Bool
has_underscore String.[] = false
has_underscore (String.◌∷◌ c s) = nat_eq (code c) b'_' || has_underscore s

abbrev pub AllPlain : List String → Type 0
AllPlain parts = All (λ part. has_underscore part ≡ false) parts

add_char-plain :
    (c : Char) (parts : List String)
    → nat_eq (code c) b'_' ≡ false
    → AllPlain parts
    → AllPlain (add_char c parts)
unfolding has_underscore
add_char-plain c [] h k = (rw h refl, tt)
add_char-plain c (s ∷ parts) h (plain, k) = (rw (h, plain) refl, k)

-- no part has an underscore
pub split-plain : (s : String) → AllPlain (split s)
unfolding split has_underscore
split-plain String.[] = (refl, tt)
split-plain (String.◌∷◌ c s) = elim (Bool-cases (nat_eq (code c) b'_')) [
  | inl separator ↦ rw separator (refl, split-plain s)
  | inr other ↦ rw other (add_char-plain c (split s) other (split-plain s))
]

-- an override changes one entry of a dict
pub set_path-puts :
    (part : String) (parts : List String) (value : Result Value) (target result : Value)
    → set_path (part ∷ parts) value target ≡ ok result
    → (fs : Fields) × (v : Value) × (target ≡ obj fs) × (result ≡ obj (put_field part v fs))
unfolding set_path
set_path-puts part [] value target result h =
    let (v, _, h') = bind-eq-ok value _ h in
    let (fs, e, e') = put_at-ok part v target result h' in (fs, v, e, e')
set_path-puts part (next ∷ parts) value target result h =
    let (inner, _, h') = bind-eq-ok (section_at part target) _ h in
    let (inner', _, h'') = bind-eq-ok (set_path (next ∷ parts) value inner) _ h' in
    let (fs, e, e') = put_at-ok part inner' target result h'' in (fs, inner', e, e')
