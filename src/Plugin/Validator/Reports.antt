-- ===== src/Plugin/Validator/Reports.antt =====
-- The validator on the reports of probes.
use aqap.Prelude.{
  String, Bool, true, false, List, [], ◌∷◌, if◌then◌else◌, ok, none, some, ◌==◌, ◌≡◌, refl,
  Bool-cases, Option-cases, inl, inr, ap,
}
use aqap.Value.{Value, bool, str, Fields, get_field, get_field_or, has_field, truthy}
use aqap.Text.{◌+s◌}
use aqap.Plugin.Registry.{PluginResult}
use aqap.Plugin.Validator.{
  is_clean, default_required, missing_fields, passed_issues, items_of, error_issues, report,
  execute,
}
use aqap.Agent.Workers.{results_value}
use aqap.Agent.Workers.Probe.{probe_report}

-- no exception of a plugin has a text
abbrev no_error_text : List PluginResult → Bool
no_error_text [] = true
no_error_text (r ∷ rs) = elim r.error [
  | none ↦ no_error_text rs
  | some e ↦ if e == "" then no_error_text rs else false
]

error_issues-results_value :
    (shown : Value → String) (rs : List PluginResult)
    → (issues : List String) × (error_issues shown (results_value rs) ≡ ok issues)
      × (is_clean issues ≡ no_error_text rs)
unfolding error_issues results_value get_field get_field_or truthy
error_issues-results_value shown [] = ([], refl, refl)
error_issues-results_value shown (r ∷ rs) =
    let (issues, found, same) = error_issues-results_value shown rs in
    elim (Option-cases r.error) [
      | inl fine ↦ (issues, rw fine found, rw fine same)
      | inr (e, failed) ↦ elim (Bool-cases (e == "")) [
        | inl blank ↦ (issues, rw (failed, blank) found, rw (failed, blank) same)
        | inr text ↦ (
          ("插件执行错误: " +s shown (str r.plugin) +s " — " +s shown (str e)) ∷ issues,
          rw (failed, text, found) refl,
          rw (failed, text) refl,
        )
      ]
    ]

-- With the default required fields, the validator comes back on every report of a probe, and passes
-- it unless a plugin raised an exception whose text is not empty; a plugin that raised one with an
-- empty text, or that objected, does not count.
execute-probe_report :
    (shown : Value → String) (now agent_id : String) (task : Fields) (rs : List PluginResult)
    (passed : Bool)
    → (verdict : Fields) × (execute shown default_required now
          (probe_report agent_id task rs passed)
        ≡ ok verdict)
      × (get_field "passed" verdict ≡ some (bool (no_error_text rs)))
unfolding execute probe_report missing_fields passed_issues items_of get_field get_field_or
    has_field report
execute-probe_report shown now agent_id task rs passed =
    let (issues, found, same) = error_issues-results_value shown rs in
    (
      report now (probe_report agent_id task rs passed) issues,
      rw found refl,
      ap (λ b. some (bool b)) same,
    )
