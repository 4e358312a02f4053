-- ===== src/Config/Leak.antt =====
-- What one configuration leaves for the next.
use aqap.Prelude.{String, none, some, ◌≡◌, refl, ◌==◌, eq_iff, Bool-cases, inl, inr, ◌∙◌, ap}
use aqap.Value.{Value, obj, Fields, end, field, get_field}
use aqap.Config.{merge, shared, merge_file}

some_injective : {a b : Value} → some a ≡ some b → a ≡ b
some_injective h = cc

get_field-shared :
    (key : String) (defaults user base overlay : Fields)
    → get_field key defaults ≡ some (obj base)
    → get_field key user ≡ some (obj overlay)
    → get_field key (shared defaults user) ≡ some (obj (merge base overlay))
unfolding shared get_field
get_field-shared key end user base overlay h k = cc
get_field-shared key (field j value rest) user base overlay h k = elim (Bool-cases (j == key)) [
  | inl same ↦
      let e : j ≡ key = (eq_iff j key).0 same in
      let v : value ≡ obj base = some_injective (rw same at h) in
      let there : get_field j user ≡ some (obj overlay) = ap (λ i. get_field i user) e ∙ k in
      rw (same, there, v) refl
  | inr differs ↦ rw differs (get_field-shared key rest user base overlay (rw differs at h) k)
]

-- A section that a configuration file changes stays changed for the next configuration, before the
-- overrides from the environment: where the default and the file have a dict for the section, also a
-- configuration without a file has the two merged.
merge_file_after :
    (key : String) (defaults user base overlay : Fields)
    → get_field key defaults ≡ some (obj base)
    → get_field key user ≡ some (obj overlay)
    → get_field key (merge_file none (merge_file (some user) defaults).1).0
      ≡ some (obj (merge base overlay))
unfolding merge_file
merge_file_after key defaults user base overlay h k =
    get_field-shared key defaults user base overlay h k
