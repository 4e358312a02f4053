-- ===== src/Plugin/Scorer/Health.antt =====
-- The scorer on the results of plugins, as an agent passes them on.
use aqap.Prelude.{
  ℕ, String, Bool, true, false, List, [], ◌∷◌, if◌then◌else◌, ok, err, bind, attribute_error, Exc,
  Option, none, some, length, All, Option-cases, Bool-cases, inl, inr, ◌≡◌, refl, arith,
}
use aqap.Value.{
  iterated, Value, nil, get_field_or_lem, bool, arr, Fields, get_field, get_field_or, truthy,
}
use aqap.Plugin.Registry.{Registry, PluginResult, execute_all}
use aqap.Plugin.Registry.Execute.{IsReport, execute_all_lem}
use aqap.Plugin.Validator.{items_of}
use aqap.Plugin.Scorer.{
  Arithmetic, rate_of, filled, passed_count, healthy, default_required, score, execute, size,
  add_if,
}
use aqap.Agent.Workers.{dict_at, results_value}

-- a plugin raised an exception
abbrev any_raised : List PluginResult → Bool
any_raised [] = false
any_raised (r ∷ rs) = elim r.error [ none ↦ any_raised rs | some e ↦ true ]

abbrev is_passed : Option Fields → Bool
is_passed none = false
is_passed (some fs) = truthy (get_field_or "passed" (bool true) fs)

-- the plugins that answered and did not object
abbrev passes_in : List PluginResult → ℕ
passes_in [] = 0
passes_in (r ∷ rs) = add_if (is_passed r.result) (passes_in rs)

bind_if :
    (b : Bool) (n : ℕ) (f : ℕ → ℕ)
    → bind (if b then err attribute_error else ok n) (λ m. ok (f m))
      ≡ (if b then err attribute_error else ok (f n))
bind_if true n f = refl
bind_if false n f = refl

passed_count-results_value :
    (rs : List PluginResult)
    → All IsReport rs
    → passed_count (results_value rs)
      ≡ (if any_raised rs then err attribute_error else ok (passes_in rs))
unfolding passed_count results_value dict_at get_field
passed_count-results_value [] h = refl
passed_count-results_value (r ∷ rs) (inl (fields, result, fine), h) =
    rw (result, fine, passed_count-results_value rs h) (bind_if (any_raised rs) (passes_in rs) _)
passed_count-results_value (r ∷ rs) (inr (s, result, failed), h) = rw (result, failed) refl

healthy-results_value :
    (rs : List PluginResult) → any_raised rs ≡ false → healthy (results_value rs) ≡ ok (length rs)
unfolding healthy results_value get_field
healthy-results_value [] h = refl
healthy-results_value (r ∷ rs) h = elim (Option-cases r.error) [
  | inl fine ↦ rw (fine, healthy-results_value rs (rw fine at h)) refl
  | inr (e, failed) ↦ cc
]

size-results_value : (rs : List PluginResult) → size (results_value rs) ≡ length rs
unfolding results_value
size-results_value [] = refl
size-results_value (r ∷ rs) = omega (arith, size-results_value rs)

module _ {W : Type 0} where
  -- On the results that execute_all gave, where the task names its required fields properly: the
  -- scorer raises if a plugin raised an exception; else the pass rate is the share of the plugins
  -- that did not object, and the plugins' health is the same for all results: all of them are well.
  execute-execute_all :
      (a : Arithmetic) (weights : Value) (text : Exc → String) (topic : String)
      (given context : Fields) (r : Registry W) (w : W) (result task : Fields)
      (required : List Value) (found : ℕ)
      → let rs = (execute_all text topic given r w).0 in
        dict_at "result" context ≡ ok result
        → get_field "plugin_results" result ≡ some (arr (results_value rs))
        → dict_at "task" context ≡ ok task
        → iterated (get_field_or "required_fields" default_required task) ≡ ok required
        → filled required result ≡ ok found
        → execute a weights context ≡ (
            if any_raised rs
            then err attribute_error
            else score a weights
                (rate_of a (passes_in rs) (length rs))
                (rate_of a found (length required))
                (rate_of a (length rs) (length rs)))
  unfolding execute items_of
  execute-execute_all a weights text topic given context r w result task required found at_result
        results at_task iterates fills =
      let rs = (execute_all text topic given r w).0 in
      let reports = (execute_all_lem text topic given r w).1 in
      elim (Bool-cases (any_raised rs)) [
        | inl failed ↦
            rw
              (
                at_result,
                get_field_or_lem "plugin_results" (arr nil) result,
                results,
                passed_count-results_value rs reports,
                failed,
              )
              refl
        | inr fine ↦
            rw
              (
                at_result,
                get_field_or_lem "plugin_results" (arr nil) result,
                results,
                passed_count-results_value rs reports,
                fine,
                at_task,
                iterates,
                fills,
                healthy-results_value rs fine,
                size-results_value rs,
              )
              refl
      ]
