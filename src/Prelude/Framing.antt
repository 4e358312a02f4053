-- ===== src/Prelude/Framing.antt =====
-- Computations that leave a part of the state alone.
use mathlib.Core.Path.{◌≡◌, refl, ◌∙◌}
use mathlib.Core.Logic.{inl, inr}
use aqap.Prelude.Results.{Result, Result-cases}
use aqap.Prelude.Methods.{Exec, resume, ◌>>=◌}

-- The part that `f` reads is as it was, whether `m` returns or raises.
pub record Keeps {ℓ} {S F A : Type ℓ} (f : S → F) (m : Exec S A) : Type ℓ where
  pub kept : (s : S) → f (m s).1 ≡ f s

pub Keeps-then {ℓ} :
    {S F A B : Type ℓ} {f : S → F} (m : Exec S A) (k : A → Exec S B)
    → Keeps f m
    → ((a : A) → Keeps f (k a))
    → Keeps f (m >>= k)
unfolding ◌>>=◌
Keeps-then m k h l = record {
  kept = λ s. elim (Result-cases (m s).0) [
    | inl (a, e) ↦ rw (e, resume) ((l a).kept (m s).1 ∙ h.kept s)
    | inr (x, e) ↦ rw (e, resume) (h.kept s)
  ];
}

-- a result that is there already
pub Keeps-lift {ℓ} : {S F A : Type ℓ} {f : S → F} (r : Result A) → Keeps f (λ s. (r, s))
Keeps-lift r = record { kept = λ s. refl }
