-- ===== src/Agent/Workers/Pipeline.antt =====
-- A task on its way through the three working agents: `handle_message` of aqap/agent/probe.py,
-- judge.py and reporter.py, one after the other, each on the message that the one before sends to it.
-- What an agent publishes arrives as it was; the agents share one world.
use aqap.Prelude.{
  String, false, Option, Result, none, some, List, [], ◌∷◌, ok, err, Exc, ◌>>=◌, ◌≡◌, refl, ap, All,
  Result-cases, inl, inr, map, ◌==◌,
}
use aqap.Value.{Value, Float, bool, str, Fields, get_field, get_field_or}
use aqap.Message.{MessageType, Message, Fresh, reply, judge_verdict, task_result}
use aqap.Plugin.Registry.{Registry, PluginResult}
use aqap.Plugin.Registry.Execute.{IsReport}
use aqap.Agent.State.{Agent, AgentState}
use aqap.Agent.Workers.{Numbers, dict_at}
use aqap.Agent.Workers.Outcomes.{outcomes, run_plugins-IsReport}
use aqap.Agent.Workers.Probe
use aqap.Agent.Workers.Probe.{judge_message, probe_report}
use aqap.Agent.Workers.Probe.Laws.{probe_answers, none_objects}
use aqap.Agent.Workers.Judge
use aqap.Agent.Workers.Judge.{average, report_message, verdict_message, verdict_report}
use aqap.Agent.Workers.Judge.Laws.{judge_answers, score_of, all_approve}
use aqap.Agent.Workers.Reporter
use aqap.Agent.Workers.Reporter.{build_summary, report_of, deliver_message, generate_report}
use aqap.Agent.Workers.Reporter.Laws.{reporter_answers}

-- The request of a probe to its judge holds the task as it was.
task-judge_message :
    (g : Fresh) (m : Message) (judge_target : String) (result : Fields)
    → dict_at "task" (judge_message g m judge_target result).payload ≡ ok m.payload
unfolding dict_at get_field judge_message reply
task-judge_message g m judge_target result = refl

type-judge_message :
    (g : Fresh) (m : Message) (judge_target : String) (result : Fields)
    → (judge_message g m judge_target result).type ≡ MessageType.judge_request
unfolding judge_message reply
type-judge_message g m judge_target result = refl

task-report_message :
    (g h : Fresh) (m : Message) (judge_target reporter_target : String) (result verdict : Fields)
    → dict_at "task"
        (report_message h (judge_message g m judge_target result) reporter_target verdict).payload
      ≡ ok m.payload
unfolding dict_at get_field get_field_or judge_message report_message reply
task-report_message g h m judge_target reporter_target result verdict = refl

verdict-report_message :
    (h : Fresh) (q : Message) (reporter_target : String) (verdict : Fields)
    → dict_at "verdict" (report_message h q reporter_target verdict).payload ≡ ok verdict
unfolding dict_at get_field report_message reply
verdict-report_message h q reporter_target verdict = refl

module _ {W : Type 0} (plugins : Registry W) (clock : W → Float × W) (numbers : Numbers)
    (a : Agent W) where
  -- A summary that cannot be made is the end of the report.
  reporter_fails :
      (m : Message) (task verdict : Fields) (e : Exc) (s : AgentState W)
      → m.type ≡ MessageType.report_request
      → dict_at "task" m.payload ≡ ok task
      → dict_at "verdict" m.payload ≡ ok verdict
      → build_summary numbers verdict ≡ err e
      → (Reporter.handle_message a plugins clock numbers m s).0 ≡ err e
  unfolding Reporter.handle_message generate_report ◌>>=◌
  reporter_fails m task verdict e s asked has_task has_verdict failed =
      let (rs, w, ran, reports) = run_plugins-IsReport a plugins clock "reporter" m.payload s in
      rw (asked, ran, has_task, has_verdict, failed) refl

-- The three agents, and whom the first two send their requests to.
pub record Team (W : Type 0) : Type 0 where
  pub probe : Agent W
  pub judge : Agent W
  pub reporter : Agent W
  pub judge_target : String
  pub reporter_target : String

module _ {W : Type 0} (plugins : Registry W) (clock : W → Float × W) (numbers : Numbers)
    (team : Team W) (m : Message) (s t u : AgentState W) where
  open team use {judge_target, reporter_target}

  -- the handlers, the world handed on
  abbrev probed : Result (Option (List Message)) × AgentState W
  probed = Probe.handle_message team.probe plugins clock judge_target m s

  abbrev judged : Message → Result (Option (List Message)) × AgentState W
  judged request =
      Judge.handle_message team.judge plugins clock numbers reporter_target request
        (record t { world = probed.1.world })

  -- what the plugins bound to "judge" report on a request
  abbrev reports_on : Message → List PluginResult
  reports_on request =
      (outcomes team.judge plugins clock "judge" request.payload
        (record t { world = probed.1.world })).0

  abbrev reported : Message → Message → Result (Option (List Message)) × AgentState W
  reported request order =
      Reporter.handle_message team.reporter plugins clock numbers order
        (record u { world = (judged request).1.world })

  -- How far the task came: no mean of the scores, no summary of the verdict, or a report.
  pub data Passage : Type 0 where
    unjudged :
        (result request : Message) (e : Exc)
        → probed.0 ≡ ok (some (result ∷ request ∷ []))
        → average numbers (map score_of (reports_on request)) ≡ err e
        → (judged request).0 ≡ err e
        → Passage
    unreported :
        (result request verdict order : Message) (e : Exc)
        → probed.0 ≡ ok (some (result ∷ request ∷ []))
        → (judged request).0 ≡ ok (some (verdict ∷ order ∷ []))
        → build_summary numbers verdict.payload ≡ err e
        → (reported request order).0 ≡ err e
        → Passage
    delivered :
        (result request verdict order delivery : Message)
        → probed.0 ≡ ok (some (result ∷ request ∷ []))
        → (judged request).0 ≡ ok (some (verdict ∷ order ∷ []))
        → (reported request order).0 ≡ ok (some (delivery ∷ []))
        → delivery.trace_id ≡ m.trace_id
        → get_field "task_id" delivery.payload
          ≡ some (get_field_or "task_id" (str "unknown") m.payload)
        → All IsReport (reports_on request)
        → get_field "passed" delivery.payload ≡ some (bool (all_approve (reports_on request)))
        → get_field "score" delivery.payload ≡ get_field "score" verdict.payload
        → delivery.target ≡ judge_target
        → ((x : AgentState W)
            → Judge.handle_message team.judge plugins clock numbers reporter_target delivery x
              ≡ (ok none, x))
        → Passage

  -- from the judge's answer on
  from_order :
      (f g h : Fresh) (first : Message) (result : Fields) (score : Value)
      → (judge_target == "") ≡ false
      → u.faults ≡ []
      → let q = judge_message g m judge_target result in
        let reports = reports_on q in
        let verdict =
          verdict_report team.judge.agent_id
            (get_field_or "task_id" (str "unknown") m.payload)
            score
            (all_approve reports)
            reports in
        All IsReport reports
        → probed.0 ≡ ok (some (first ∷ q ∷ []))
        → (judged q).0
          ≡ ok (
              some (
                verdict_message f team.judge.agent_id q verdict
                ∷ report_message h q reporter_target verdict
                ∷ []))
        → Passage
  unfolding judge_message report_message reply verdict_report report_of deliver_message get_field
      get_field_or Judge.handle_message verdict_message judge_verdict
  from_order f g h first result score some_judge calm honest asked answered =
      let q = judge_message g m judge_target result in
      let reports = reports_on q in
      let verdict =
        verdict_report team.judge.agent_id (get_field_or "task_id" (str "unknown") m.payload) score
          (all_approve reports) reports in
      let order = report_message h q reporter_target verdict in
      let before = record u { world = (judged q).1.world } in
      let has_task = task-report_message g h m judge_target reporter_target result verdict in
      let has_verdict = verdict-report_message h q reporter_target verdict in
      elim (Result-cases (build_summary numbers verdict)) [
        | inr (e, failed) ↦
            unreported first q (verdict_message f team.judge.agent_id q verdict) order e asked
              answered failed
              (reporter_fails plugins clock numbers team.reporter order m.payload verdict e before
                refl has_task has_verdict failed)
        | inl (summary, summed) ↦
            let (rs, d, b, w, timestamp, honest', ran) =
              reporter_answers team.reporter plugins clock numbers order m.payload verdict summary
                before refl has_task has_verdict summed calm in
            delivered first q (verdict_message f team.judge.agent_id q verdict) order
              (deliver_message d team.reporter.agent_id order
                (report_of numbers timestamp m.payload verdict summary rs))
              asked answered (ap (λ p. p.0) ran) refl refl honest refl refl (rw some_judge refl)
              (λ x. refl)
      ]

  -- A TASK_DISPATCH to a probe whose judge has a name, and a reporter whose transport raises nothing,
  -- whatever the plugins do: the probe sends its judge a request. Then either the mean of the scores
  -- that the judge's plugins gave raises, and the judge with it; or the judge sends the reporter an
  -- order, and either its summary raises, and the reporter with it, or the reporter answers with a
  -- report. The report belongs to the trace of the dispatch, names its task, has the score of the
  -- verdict, and passes if and only if every plugin of the judge came back and none objected. It is
  -- addressed to the judge, which does nothing with it.
  pub task_passes :
      m.type ≡ MessageType.task_dispatch → (judge_target == "") ≡ false → u.faults ≡ [] → Passage
  task_passes dispatched some_judge calm =
      let (rs, f, g, w, ran, honest) =
        probe_answers team.probe plugins clock judge_target m s dispatched in
      let result = probe_report team.probe.agent_id m.payload rs (none_objects rs) in
      let q = judge_message g m judge_target result in
      let first = task_result f team.probe.agent_id result in
      let asked : probed.0 ≡ ok (some (first ∷ q ∷ [])) = ap (λ p. p.0) ran in
      let (honest', alternatives) =
        judge_answers team.judge plugins clock numbers reporter_target q m.payload
          (record t { world = probed.1.world }) (type-judge_message g m judge_target result)
          (task-judge_message g m judge_target result) in
      elim alternatives [
        | inl (e, no_mean, failed) ↦ unjudged first q e asked no_mean (ap (λ p. p.0) failed)
        | inr (score, mean, answered) ↦
            from_order _ g _ first result score some_judge calm honest' asked
              (ap (λ p. p.0) answered)
      ]
