-- ===== src/Prelude/Dicts.antt =====
-- Python's `dict` with string keys: the entries in insertion order. Writing an existing key keeps
-- its place, a new key goes to the end.
use Prim.Native.Nat.{◌≤◌}
use Prim.Native.String.{String}
use mathlib.Core.Path.{◌≡◌, refl}
use mathlib.Core.Bool.{Bool, true, false}
use mathlib.Core.Option.{Option, none, some}
use mathlib.Core.List.{List, [], ◌∷◌}
use native.Mathlib.Omega.{arith}
use text.Mathlib.Text.{◌==◌}
use text.Mathlib.TextEquality.{eq_iff}
use text.Mathlib.TextPositions.{eq_refl}
use mathlib.Core.Logic.{inl, inr}
use aqap.Prelude.Tests.{if◌then◌else◌, Bool-cases}
use aqap.Prelude.Lists.{length}

abbrev pub Dict {ℓ} : Type ℓ → Type ℓ
Dict V = List (String × V)

module _ {ℓ} {V : Type ℓ} where
  -- d.get(k)
  unfoldable pub get : String → Dict V → Option V
  get k [] = none
  get k ((j, v) ∷ d) = if j == k then some v else get k d

  -- d.get(k, default)
  unfoldable pub get_or : String → V → Dict V → V
  get_or k v [] = v
  get_or k v ((j, w) ∷ d) = if j == k then w else get_or k v d

  -- k in d
  unfoldable pub has : String → Dict V → Bool
  has k [] = false
  has k ((j, v) ∷ d) = if j == k then true else has k d

  -- d[k] = v
  unfoldable pub put : String → V → Dict V → Dict V
  put k v [] = (k, v) ∷ []
  put k v ((j, w) ∷ d) = if j == k then (j, v) ∷ d else (j, w) ∷ put k v d

  -- d.pop(k, None), del d[k]
  unfoldable pub remove : String → Dict V → Dict V
  remove k [] = []
  remove k ((j, v) ∷ d) = let rest = remove k d in if j == k then rest else (j, v) ∷ rest

  pub get-put :
      (k j : String) (v : V) (d : Dict V) → get j (put k v d) ≡ (if k == j then some v else get j d)
  unfolding get put
  get-put k j v [] = refl
  get-put k j v ((i, w) ∷ d) = ground (arith, eq_iff k j, eq_iff i k, eq_iff i j, get-put k j v d)

  pub get-remove :
      (k j : String) (d : Dict V) → get j (remove k d) ≡ (if k == j then none else get j d)
  unfolding get remove
  get-remove k j [] = ground arith
  get-remove k j ((i, v) ∷ d) = ground (arith, get-remove k j d, eq_iff i k, eq_iff i j, eq_iff k j)

  pub length-remove-le : (k : String) (d : Dict V) → length (remove k d) ≤ length d
  unfolding remove
  length-remove-le k [] = omega arith
  length-remove-le k ((i, v) ∷ d) = ground (arith, length-remove-le k d)

pub get-none_of_has {ℓ} : {V : Type ℓ} (k : String) (d : Dict V) → has k d ≡ false → get k d ≡ none
unfolding get has
get-none_of_has k [] h = refl
get-none_of_has k ((j, v) ∷ d) h = ground (arith, get-none_of_has k d)

pub get-some_of_has {ℓ} :
    {V : Type ℓ} (k : String) (d : Dict V) → has k d ≡ true → (v : V) × (get k d ≡ some v)
unfolding get has
get-some_of_has k [] h = cc
get-some_of_has k ((j, v) ∷ d) h = elim (Bool-cases (j == k)) [
  | inl same ↦ (v, rw same)
  | inr differ ↦ rw differ (get-some_of_has k d (rw differ at h))
]

pub get_or_lem {ℓ} :
    {V : Type ℓ} (k : String) (v : V) (d : Dict V)
    → get_or k v d ≡ elim (get k d) [ none ↦ v | some w ↦ w ]
unfolding get get_or
get_or_lem k v [] = refl
get_or_lem k v ((j, w) ∷ d) = ground (arith, get_or_lem k v d)

pub get_or-put_self {ℓ} :
    {V : Type ℓ} (k : String) (v w : V) (d : Dict V) → get_or k v (put k w d) ≡ w
unfolding get_or put
get_or-put_self k v w [] = rw (eq_refl k)
get_or-put_self k v w ((j, u) ∷ d) = ground (arith, get_or-put_self k v w d)

pub get_or-remove_self {ℓ} :
    {V : Type ℓ} (k : String) (v : V) (d : Dict V) → get_or k v (remove k d) ≡ v
unfolding get_or remove
get_or-remove_self k v [] = refl
get_or-remove_self k v ((j, u) ∷ d) = ground (arith, get_or-remove_self k v d)

pub ruleset dict_laws = (get-put, get-remove)
