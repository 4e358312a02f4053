-- ===== src/Agent/Workers/Judge.antt =====
-- aqap/agent/judge.py
pub mod Laws
use aqap.Prelude.{
  ℕ, String, Bool, true, false, Option, none, some, List, [], ◌∷◌, ◌++◌, Result, ok, err, Exc,
  attribute_error, Exec, ◌==◌, if◌then◌else◌, bind, return, ◌>>=◌, ◌>>◌, ◌&&◌,
}
use aqap.Value.{
  Value, Float, null, bool, float, str, arr, obj, Fields, end, field, get_field_or, truthy,
}
use aqap.Message.{MessageType, Message, Fresh, judge_verdict, reply}
use aqap.Plugin.Registry.{Registry, PluginResult}
use aqap.Agent.State.{Agent, AgentState, fresh}
use aqap.Agent.Workers.{Numbers, run_plugins, results_value, dict_at, lift}

abbrev is_judge_request : MessageType → Bool
is_judge_request MessageType.judge_request = true
is_judge_request _ = false

-- 0.0, and 0.5
abbrev pub zero_float : Value
zero_float = float record { bits = 0 }

abbrev pub half_float : Value
half_float = float record { bits = 4602678819172646912 }

-- The loop over the plugin results, with `scores` and `passed`.
unfoldable pub tally : List PluginResult → List Value → Bool → Result (List Value × Bool)
tally [] scores passed = ok (scores, passed)
tally (r ∷ rs) scores passed = elim r.error [
  | some e ↦ tally rs (scores ++ zero_float ∷ []) false
  | none ↦ elim r.result [
    | none ↦ err attribute_error
    | some fs ↦
        tally rs (scores ++ get_field_or "score" half_float fs ∷ [])
          (if truthy (get_field_or "passed" (bool true) fs) then passed else false)
  ]
]

-- `round(sum(scores) / len(scores) if scores else 0.0, 4)`
abbrev pub average : Numbers → List Value → Result Value
average numbers [] = ok zero_float
average numbers (v ∷ vs) = numbers.mean (v ∷ vs)

unfoldable pub verdict_report : String → Value → Value → Bool → List PluginResult → Fields
unfolding results_value
verdict_report agent_id task_id score passed results = field "task_id" task_id (
    field "agent" (str agent_id) (
      field "score" score
        (field "passed" (bool passed) (field "details" (arr (results_value results)) end))))

unfoldable pub verdict_message : Fresh → String → Message → Fields → Message
unfolding judge_verdict
verdict_message f agent_id m verdict = record (judge_verdict f agent_id verdict) {
  trace_id = m.trace_id;
  correlation_id = m.correlation_id;
}

unfoldable pub report_message : Fresh → Message → String → Fields → Message
unfolding reply
report_message f m reporter_target verdict =
    record (reply f m MessageType.report_request (
      some (
        field "task" (get_field_or "task" (obj end) m.payload) (
          field "result" (get_field_or "result" (obj end) m.payload)
            (field "verdict" (obj verdict) end))))) { target = reporter_target }

module _ {W : Type 0} (a : Agent W) (plugins : Registry W) (clock : W → Float × W)
    (numbers : Numbers) where
  -- JudgeAgent._judge
  unfoldable pub judge : Fields → Exec (AgentState W) Fields
  unfolding run_plugins tally dict_at verdict_report
  judge evidence = do
    results ← run_plugins a plugins clock "judge" evidence
    t ← lift (tally results [] true)
    score ← lift (average numbers t.0)
    task ← lift (dict_at "task" evidence)
    return
        (verdict_report a.agent_id (get_field_or "task_id" (str "unknown") task) score t.1 results)

  -- JudgeAgent.handle_message
  unfoldable pub handle_message : String → Message → Exec (AgentState W) (Option (List Message))
  unfolding judge verdict_message report_message
  handle_message reporter_target m =
      if is_judge_request m.type
      then (do
        verdict ← judge m.payload
        f ← fresh a
        g ← fresh a
        return (
            some (
              verdict_message f a.agent_id m verdict
              ∷ report_message g m reporter_target verdict
              ∷ [])))
      else return none
