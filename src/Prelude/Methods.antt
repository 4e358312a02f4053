-- ===== src/Prelude/Methods.antt =====
-- Methods that change an object and may raise. What a method did before a raise stays done, so the
-- state comes back beside the exception too.
use aqap.Prelude.Results.{Result, ok, err, Exc}

abbrev pub Exec {ℓ} : Type ℓ → Type ℓ → Type ℓ
Exec S A = S → Result A × S

abbrev pub return {ℓ} : {S A : Type ℓ} → A → Exec S A
return a s = (ok a, s)

abbrev pub throw {ℓ} : {S A : Type ℓ} → Exc → Exec S A
throw e s = (err e, s)

-- what follows a call that has come back with `r`
abbrev pub resume {ℓ} : {S A B : Type ℓ} → (A → Exec S B) → Result A → S → Result B × S
resume f (ok a) s = f a s
resume f (err e) s = (err e, s)

infixl 10 ◌>>=◌ ◌>>◌
unfoldable pub ◌>>=◌ {ℓ} : {S A B : Type ℓ} → Exec S A → (A → Exec S B) → Exec S B
◌>>=◌ m f s = resume f (m s).0 (m s).1

abbrev pub ◌>>◌ {ℓ} : {S A B : Type ℓ} → Exec S A → Exec S B → Exec S B
m >> n = m >>= λ _. n

abbrev pub caught {ℓ} :
    {S A B : Type ℓ} → (A → Exec S B) → (Exc → Exec S B) → Result A → S → Result B × S
caught f g (ok a) s = f a s
caught f g (err e) s = g e s

-- try m, then f; except: g. An exception of f is not caught.
unfoldable pub try_else {ℓ} :
    {S A B : Type ℓ} → Exec S A → (A → Exec S B) → (Exc → Exec S B) → Exec S B
try_else m f g s = caught f g (m s).0 (m s).1
