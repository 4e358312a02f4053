-- ===== src/Agent/Workers.antt =====
-- What the working agents of aqap/agent share: their call of the plugins (`run_plugins` of
-- aqap/agent/base.py), its results as values, and dicts inside a payload. The registry is the one
-- global object of aqap/plugin/registry.py; the agents do not change it.
pub mod Probe
pub mod Judge
pub mod Reporter
pub mod Outcomes
pub mod Pipeline
use aqap.Prelude.{
  ℕ, String, Bool, true, false, Option, none, some, List, [], ◌∷◌, Result, ok, err, Exc,
  attribute_error, Exec, ◌==◌, if◌then◌else◌,
}
use aqap.Value.{
  Value, Float, null, bool, int, float, str, arr, obj, Items, nil, cons, Fields, end, field,
  get_field, put_field,
}
use aqap.Message.{Message, value}
use aqap.Plugin.Registry.{Registry, PluginResult, execute_all}
use aqap.Agent.State.{Agent, AgentState}

-- What the agents compute with numbers and print of values: `mean` is
-- `round(sum(scores) / len(scores), 4)`, `is_excellent` is `score >= 0.9`, `shown` is `f"{v}"`.
pub record Numbers : Type 0 where
  pub mean : List Value → Result Value
  pub is_excellent : Value → Result Bool
  pub shown : Value → String

-- the four entries that are added to a context
unfoldable pub traced : Float → Message → Fields → Fields
unfolding value
traced start_time m context = put_field "_aqap_source" (str m.source) (
    put_field "_aqap_message_type" (str (value m.type)) (
      put_field "_aqap_trace_id" (str m.trace_id)
        (put_field "_aqap_start_time" (float start_time) context)))

-- data.get(k, {}), where a method of dict is called on it
unfoldable pub dict_at : String → Fields → Result Fields
dict_at k fields = elim (get_field k fields) [
  | none ↦ ok end
  | some v ↦ elim v [
    | null ↦ err attribute_error
    | bool b ↦ err attribute_error
    | int n ↦ err attribute_error
    | float x ↦ err attribute_error
    | str s ↦ err attribute_error
    | arr vs ↦ err attribute_error
    | obj fs ↦ ok fs
  ]
]

abbrev result_value : Option Fields → Value
result_value none = null
result_value (some fs) = obj fs

abbrev pub error_value : Option String → Value
error_value none = null
error_value (some e) = str e

unfoldable pub results_value : List PluginResult → Items
results_value [] = nil
results_value (r ∷ rs) =
    cons
      (obj (
        field "plugin" (str r.plugin)
          (field "result" (result_value r.result) (field "error" (error_value r.error) end))))
      (results_value rs)

-- what `Agent.run_plugins` runs on: the clock gives the start time
unfoldable pub run_plugins :
    {W : Type 0}
    → Agent W
    → Registry W
    → (W → Float × W)
    → String
    → Fields
    → Exec (AgentState W) (List PluginResult)
unfolding traced execute_all
run_plugins a plugins clock topic context s = elim s.current_message [
  | none ↦
      let (results, w) = execute_all a.text topic context plugins s.world in
      (ok results, record s { world = w })
  | some m ↦
      let (start_time, w) = clock s.world in
      let (results, w') = execute_all a.text topic (traced start_time m context) plugins w in
      (ok results, record s { world = w' })
]

abbrev pub lift : {S A : Type 0} → Result A → Exec S A
lift r s = (r, s)
