-- ===== src/Agent/Workers/Probe/Laws.antt =====
-- What a probe answers.
use aqap.Prelude.{
  String, Bool, true, false, none, some, List, [], ◌∷◌, ok, if◌then◌else◌, ◌>>=◌, ◌≡◌, refl, All,
  inl, inr, Bool-cases,
}
use aqap.Value.{Float, bool, get_field_or, truthy}
use aqap.Message.{MessageType, Message, Fresh, task_result}
use aqap.Plugin.Registry.{Registry, PluginResult}
use aqap.Plugin.Registry.Execute.{IsReport}
use aqap.Agent.State.{Agent, AgentState}
use aqap.Agent.Workers.Outcomes.{run_plugins-IsReport}
use aqap.Agent.Workers.Probe.{
  passes, all_passed, probe_report, judge_message, probe, handle_message,
}

-- A plugin that came back said no.
abbrev objects : PluginResult → Bool
objects r = elim r.result [
  | none ↦ false
  | some fs ↦ if truthy (get_field_or "passed" (bool true) fs) then false else true
]

abbrev pub none_objects : List PluginResult → Bool
none_objects [] = true
none_objects (r ∷ rs) = if objects r then false else none_objects rs

pub all_passed_lem :
    (rs : List PluginResult) → All IsReport rs → all_passed rs ≡ ok (none_objects rs)
unfolding all_passed passes
all_passed_lem [] h = refl
all_passed_lem (r ∷ rs) (inl (fs, back, fine), h) =
    elim (Bool-cases (truthy (get_field_or "passed" (bool true) fs))) [
      | inl agrees ↦ rw (fine, passes, back, agrees) (all_passed_lem rs h)
      | inr opposed ↦ rw (fine, passes, back, opposed) refl
    ]
all_passed_lem (r ∷ rs) (inr (e, nothing, failed), h) = rw (nothing, failed) (all_passed_lem rs h)

module _ {W : Type 0} (a : Agent W) (plugins : Registry W) (clock : W → Float × W) where
  -- Whatever the plugins do, a probe answers a TASK_DISPATCH with two messages: a TASK_RESULT, and a
  -- JUDGE_REQUEST to its judge that carries the trace of the task, answers its identifier, and holds
  -- the task and the same result. The result passes unless a plugin that came back objected. Only the
  -- world changes.
  pub probe_answers :
      (judge_target : String) (m : Message) (s : AgentState W)
      → m.type ≡ MessageType.task_dispatch
      → (rs : List PluginResult) × (f : Fresh) × (g : Fresh) × (w : W) × (handle_message a plugins
            clock judge_target m s
          ≡ (
            ok (
                some (
                  task_result f a.agent_id (probe_report a.agent_id m.payload rs (none_objects rs))
                  ∷ judge_message g m judge_target
                      (probe_report a.agent_id m.payload rs (none_objects rs))
                  ∷ [])),
            record s { world = w },
          ))
        × All IsReport rs
  unfolding handle_message probe ◌>>=◌
  probe_answers judge_target m s dispatched =
      let (rs, w, ran, reports) = run_plugins-IsReport a plugins clock "probe" m.payload s in
      (
        rs,
        (a.draw w).0,
        (a.draw (a.draw w).1).0,
        (a.draw (a.draw w).1).1,
        rw (dispatched, ran, all_passed_lem rs reports) refl,
        reports,
      )
