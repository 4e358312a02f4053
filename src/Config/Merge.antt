-- ===== src/Config/Merge.antt =====
-- What a merged configuration holds.
use aqap.Prelude.{
  String, Option, none, some, ◌≡◌, refl, ◌==◌, eq_iff, Bool-cases, inl, inr, ◌∙◌, ap, sym,
}
use aqap.Value.{Value, Fields, end, field, get_field, put_field, get_field-put_field}
use aqap.Config.{merge, merged}

-- No key stands twice, as in every dict.
abbrev pub IsDistinct : Fields → Type 0
IsDistinct end = Unit
IsDistinct (field key value rest) = (get_field key rest ≡ none) × IsDistinct rest

-- an entry of the base under an entry of the overlay
abbrev combined : Option Value → Option Value → Option Value
combined base none = base
combined base (some value) = some (merged base value)

-- Each key of a merged configuration has what the overlay, in which no key stands twice, gives it,
-- merged with the base's dict where both are dicts, and what the base has where the overlay does
-- not name it.
get_field-merge :
    (key : String) (base overlay : Fields)
    → IsDistinct overlay
    → get_field key (merge base overlay) ≡ combined (get_field key base) (get_field key overlay)
unfolding merge get_field
get_field-merge key base end distinct = refl
get_field-merge key base (field k value rest) (once, distinct) =
    let base' = put_field k (merged (get_field k base) value) base in
    get_field-merge key base' rest distinct ∙ elim (Bool-cases (k == key)) [
      | inl same ↦
          let e : k ≡ key = (eq_iff k key).0 same in
          let here : get_field key base' ≡ some (merged (get_field k base) value) =
            get_field-put_field k key (merged (get_field k base) value) base ∙ rw same refl in
          let gone : get_field key rest ≡ none = ap (λ j. get_field j rest) (sym e) ∙ once in
          rw (same, here, gone) (ap (λ j. some (merged (get_field j base) value)) e)
      | inr differs ↦
          let here : get_field key base' ≡ get_field key base =
            get_field-put_field k key (merged (get_field k base) value) base ∙ rw differs refl in
          rw (differs, here) refl
    ]
