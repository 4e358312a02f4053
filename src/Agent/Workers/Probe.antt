-- ===== src/Agent/Workers/Probe.antt =====
-- aqap/agent/probe.py
pub mod Laws
use aqap.Prelude.{
  ℕ, String, Bool, true, false, Option, none, some, List, [], ◌∷◌, Result, ok, err, Exc,
  attribute_error, Exec, ◌==◌, if◌then◌else◌, bind, return, ◌>>=◌, ◌>>◌,
}
use aqap.Value.{Value, Float, null, bool, str, arr, obj, Fields, end, field, get_field_or, truthy}
use aqap.Message.{MessageType, Message, Fresh, task_result, reply}
use aqap.Plugin.Registry.{Registry, PluginResult}
use aqap.Agent.State.{Agent, AgentState, fresh}
use aqap.Agent.Workers.{run_plugins, results_value, lift}

abbrev is_task_dispatch : MessageType → Bool
is_task_dispatch MessageType.task_dispatch = true
is_task_dispatch _ = false

-- r.get("result", {}).get("passed", True)
unfoldable pub passes : PluginResult → Result Bool
passes r = elim r.result [
  | none ↦ err attribute_error
  | some fs ↦ ok (truthy (get_field_or "passed" (bool true) fs))
]

-- `all(... for r in plugin_results if r["error"] is None)`
unfoldable pub all_passed : List PluginResult → Result Bool
unfolding passes
all_passed [] = ok true
all_passed (r ∷ rs) =
    let rest = all_passed rs in
    elim r.error [ some e ↦ rest | none ↦ bind (passes r) (λ b. if b then rest else ok false) ]

unfoldable pub probe_report : String → Fields → List PluginResult → Bool → Fields
unfolding results_value
probe_report agent_id task results passed =
    field "task_id" (get_field_or "task_id" (str "unknown") task) (
      field "agent" (str agent_id)
        (field "plugin_results" (arr (results_value results)) (field "passed" (bool passed) end)))

unfoldable pub judge_message : Fresh → Message → String → Fields → Message
unfolding reply
judge_message g m judge_target result =
    record (reply g m MessageType.judge_request
      (some (field "task" (obj m.payload) (field "result" (obj result) end)))) {
        target = judge_target;
      }

module _ {W : Type 0} (a : Agent W) (plugins : Registry W) (clock : W → Float × W) where
  -- ProbeAgent._probe
  unfoldable pub probe : Fields → Exec (AgentState W) Fields
  unfolding run_plugins all_passed probe_report
  probe task = do
    results ← run_plugins a plugins clock "probe" task
    passed ← lift (all_passed results)
    return (probe_report a.agent_id task results passed)

  -- ProbeAgent.handle_message
  unfoldable pub handle_message : String → Message → Exec (AgentState W) (Option (List Message))
  unfolding probe task_result judge_message
  handle_message judge_target m =
      if is_task_dispatch m.type
      then (do
        result ← probe m.payload
        f ← fresh a
        g ← fresh a
        return
            (some (task_result f a.agent_id result ∷ judge_message g m judge_target result ∷ [])))
      else return none
