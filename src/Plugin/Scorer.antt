-- ===== src/Plugin/Scorer.antt =====
-- aqap/plugins/scorer.py. What it computes with floats is a parameter.
pub mod Health
use aqap.Prelude.{
  ℕ, zero, suc, String, Bool, true, false, List, [], ◌∷◌, if◌then◌else◌, Result, ok, err, bind,
  type_error, attribute_error, key_error, Option, none, some, length,
}
use aqap.Value.{
  Value, Float, null, bool, float, str, arr, obj, Items, nil, cons, Fields, end, field, get_field,
  get_field_or, has_field, truthy, iterated,
}
use aqap.Plugin.Validator.{items_of}
use aqap.Agent.Workers.{dict_at}

-- `rate n m` is `n / m`; `weighted` is the weighted sum, which looks the weights up; `passes` is
-- `score >= 0.7`; `rounded` is `round(x, 4)`.
pub record Arithmetic : Type 0 where
  pub one : Float
  pub rate : ℕ → ℕ → Float
  pub weighted : Value → Float → Float → Float → Result Float
  pub passes : Float → Bool
  pub rounded : Float → Float

-- f in result; a list or a dict has no hash
abbrev is_in : Value → Fields → Result Bool
is_in (str k) result = ok (has_field k result)
is_in (arr vs) result = err type_error
is_in (obj fs) result = err type_error
is_in _ result = ok false

abbrev add_if : Bool → ℕ → ℕ
add_if true n = suc n
add_if false n = n

unfoldable pub filled : List Value → Fields → Result ℕ
filled [] result = ok 0
filled (f ∷ fs) result =
    bind (is_in f result) (λ found. bind (filled fs result) (λ n. ok (add_if found n)))

unfoldable pub passed_count : Items → Result ℕ
unfolding dict_at truthy
passed_count nil = ok 0
passed_count (cons (obj pr) rest) = bind (dict_at "result" pr) (λ result.
    bind (passed_count rest)
      (λ n. ok (add_if (truthy (get_field_or "passed" (bool true) result)) n)))
passed_count (cons _ rest) = err attribute_error

abbrev is_null : Value → Bool
is_null null = true
is_null _ = false

unfoldable pub healthy : Items → Result ℕ
unfolding get_field
healthy nil = ok 0
healthy (cons (obj pr) rest) = elim (get_field "error" pr) [
  | none ↦ err key_error
  | some e ↦ bind (healthy rest) (λ n. ok (add_if (is_null e) n))
]
healthy (cons _ rest) = err type_error

abbrev size : Items → ℕ
size nil = 0
size (cons v vs) = suc (size vs)

-- n / m if m > 0 else 1.0
abbrev pub rate_of : Arithmetic → ℕ → ℕ → Float
rate_of a n zero = a.one
rate_of a n (suc m) = a.rate n (suc m)

abbrev pub default_required : Value
default_required = arr (cons (str "task_id") (cons (str "result") nil))

unfoldable pub report : Arithmetic → Value → Float → Float → Float → Float → Fields
report a weights score pass_rate completeness health = field "score" (float (a.rounded score)) (
    field "passed" (bool (a.passes score)) (
      field "details"
        (obj (
          field "pass_rate" (float (a.rounded pass_rate)) (
            field "completeness" (float (a.rounded completeness)) (
              field "plugin_health" (float (a.rounded health))
                (field "weights_used" weights end)))))
        end))

unfoldable pub score : Arithmetic → Value → Float → Float → Float → Result Fields
unfolding report
score a weights pass_rate completeness health =
    bind (a.weighted weights pass_rate completeness health)
      (λ total. ok (report a weights total pass_rate completeness health))

-- ScorerPlugin.execute; `weights` is `self.weights`
unfoldable pub execute : Arithmetic → Value → Fields → Result Fields
unfolding dict_at items_of iterated filled passed_count healthy score
execute a weights context = bind (dict_at "result" context) (λ result.
    bind (items_of (get_field_or "plugin_results" (arr nil) result)) (λ plugin_results.
      bind (passed_count plugin_results) (λ passed. bind (dict_at "task" context) (λ task.
        bind (iterated (get_field_or "required_fields" default_required task)) (λ required.
          bind (filled required result) (λ found. bind (healthy plugin_results) (λ well.
            score a weights (rate_of a passed (size plugin_results))
              (rate_of a found (length required)) (rate_of a well (size plugin_results)))))))))
