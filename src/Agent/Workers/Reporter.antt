-- ===== src/Agent/Workers/Reporter.antt =====
-- aqap/agent/reporter.py
pub mod Laws
use aqap.Prelude.{
  ℕ, String, Bool, true, false, not, Option, none, some, List, [], ◌∷◌, ◌++◌, Result, ok, err, Exc,
  attribute_error, Exec, ◌==◌, if◌then◌else◌, bind, return, ◌>>=◌, ◌>>◌, ◌&&◌,
}
use aqap.Value.{
  Value, Float, pos, null, bool, int, float, str, arr, obj, Fields, end, field, get_field_or,
  truthy,
}
use aqap.Message.{MessageType, Message, Fresh, new_message}
use aqap.Plugin.Registry.{Registry, PluginResult}
use aqap.Agent.State.{Agent, AgentState, fresh}
use aqap.Text.{◌+s◌}
use aqap.Agent.Base.{send}
use aqap.Agent.Workers.{Numbers, run_plugins, results_value, dict_at, lift}

abbrev is_report_request : MessageType → Bool
is_report_request MessageType.report_request = true
is_report_request _ = false

-- `_build_summary`, on the verdict of the data
unfoldable pub build_summary : Numbers → Fields → Result String
build_summary numbers verdict =
    let score = get_field_or "score" (int (pos 0)) verdict in
    let passed = get_field_or "passed" (bool false) verdict in
    if truthy passed
    then bind (numbers.is_excellent score) (λ excellent. ok (
        if excellent
        then "✅ 质量优秀 (得分: " +s numbers.shown score +s ")"
        else "⚠\u{fe0f} 质量达标但需关注 (得分: " +s numbers.shown score +s ")"))
    else ok ("❌ 质量不达标 (得分: " +s numbers.shown score +s ") — 需人工复审")

unfoldable pub report_of : Numbers → String → Fields → Fields → String → List PluginResult → Fields
unfolding results_value
report_of numbers timestamp task verdict summary results =
    field "task_id" (get_field_or "task_id" (str "unknown") task) (
      field "title"
        (str ("AQAP Report — " +s numbers.shown (get_field_or "name" (str "unknown") task)))
        (field "generated_at" (str timestamp) (
          field "score" (get_field_or "score" (float record { bits = 0 }) verdict) (
            field "passed" (get_field_or "passed" (bool false) verdict) (
              field "summary" (str summary)
                (field "plugin_results" (arr (results_value results)) end))))))

unfoldable pub deliver_message : Fresh → String → Message → Fields → Message
unfolding new_message
deliver_message f agent_id m report =
    record (new_message f MessageType.report_deliver agent_id report) {
      target = m.source;
      trace_id = m.trace_id;
      correlation_id = m.correlation_id;
    }

unfoldable pub broadcast_message : Fresh → String → Message → Fields → Message
unfolding new_message
broadcast_message f agent_id m report =
    record (new_message f MessageType.report_deliver agent_id report) { trace_id = m.trace_id }

module _ {W : Type 0} (a : Agent W) (plugins : Registry W) (clock : W → Float × W)
    (numbers : Numbers) where
  -- ReporterAgent._generate_report
  unfoldable pub generate_report : Fields → Exec (AgentState W) Fields
  unfolding run_plugins dict_at build_summary report_of
  generate_report fields = do
    results ← run_plugins a plugins clock "reporter" fields
    task ← lift (dict_at "task" fields)
    f ← fresh a
    verdict ← lift (dict_at "verdict" fields)
    summary ← lift (build_summary numbers verdict)
    return (report_of numbers f.timestamp task verdict summary results)

  -- ReporterAgent.handle_message
  unfoldable pub handle_message : Message → Exec (AgentState W) (Option (List Message))
  unfolding generate_report deliver_message broadcast_message send
  handle_message m =
      if is_report_request m.type
      then (do
        report ← generate_report m.payload
        f ← fresh a
        g ← fresh a
        send a (broadcast_message g a.agent_id m report)
        return (some (deliver_message f a.agent_id m report ∷ [])))
      else return none
