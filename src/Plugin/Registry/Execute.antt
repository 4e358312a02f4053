-- ===== src/Plugin/Registry/Execute.antt =====
-- What `execute_all` reports.
use aqap.Prelude.{
  String, none, some, List, [], ◌∷◌, map, ◌≡◌, ◌⊎◌, inl, inr, refl, Result, ok, err, Exc, All,
}
use aqap.Value.{Fields}
use aqap.Plugin.Registry.{
  Plugin, Registry, PluginResult, to_result, get_for_topic, execute_each, execute_all,
}

-- a dict, or the text of an exception, and never both
abbrev pub IsReport : PluginResult → Type 0
IsReport r =
    ((fields : Fields) × (r.result ≡ some fields) × (r.error ≡ none))
    ⊎ ((s : String) × (r.result ≡ none) × (r.error ≡ some s))

abbrev pub reported : List PluginResult → List String
reported = map (λ r. r.plugin)

to_result_lem :
    (text : Exc → String) (name : String) (r : Result Fields)
    → ((to_result text name r).plugin ≡ name) × IsReport (to_result text name r)
to_result_lem text name (ok fields) = (refl, inl (fields, refl, refl))
to_result_lem text name (err e) = (refl, inr (text e, refl, refl))

module _ {W : Type 0} where
  abbrev plugin_names : List (Plugin W) → List String
  plugin_names = map (λ p. p.name)

  execute_each_lem :
      (text : Exc → String) (ps : List (Plugin W)) (context : Fields) (w : W)
      → (reported (execute_each text ps context w).0 ≡ plugin_names ps)
        × All IsReport (execute_each text ps context w).0
  unfolding execute_each
  execute_each_lem text [] context w = (refl, tt)
  execute_each_lem text (p ∷ ps) context w =
      let (r, w') = p.execute context w in
      let (same, reports) = execute_each_lem text ps context w' in
      let (here, report) = to_result_lem text p.name r in (λ i. here i ∷ same i, (report, reports))

  -- `execute_all` reports every plugin that is bound to the topic, in the order of the binding,
  -- whichever of them raise; each report holds a result or the text of an exception, not both.
  pub execute_all_lem :
      (text : Exc → String) (topic : String) (context : Fields) (r : Registry W) (w : W)
      → (reported (execute_all text topic context r w).0 ≡ plugin_names (get_for_topic topic r))
        × All IsReport (execute_all text topic context r w).0
  unfolding execute_all
  execute_all_lem text topic context r w = execute_each_lem text (get_for_topic topic r) context w
