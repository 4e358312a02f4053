-- ===== src/Agent/Workers/Reporter/Laws.antt =====
-- What a reporter answers and broadcasts.
use aqap.Prelude.{String, some, List, [], ◌∷◌, ◌++◌, ok, ◌>>=◌, ◌≡◌, refl, All}
use aqap.Value.{Float, Fields}
use aqap.Message.{MessageType, Message, Fresh, broadcast}
use aqap.Plugin.Registry.{Registry, PluginResult}
use aqap.Plugin.Registry.Execute.{IsReport}
use aqap.Agent.State.{Agent, AgentState, published}
use aqap.Agent.Base.{send}
use aqap.Agent.Base.Failure.{publish_calm}
use aqap.Agent.Workers.{Numbers, dict_at}
use aqap.Agent.Workers.Outcomes.{run_plugins-IsReport}
use aqap.Agent.Workers.Reporter.{
  build_summary, report_of, deliver_message, broadcast_message, generate_report, handle_message,
}

module _ {W : Type 0} (a : Agent W) (plugins : Registry W) (clock : W → Float × W)
    (numbers : Numbers) where
  -- A reporter whose request holds a task and a verdict that are dicts, or none, and whose score can
  -- be compared, answers a REPORT_REQUEST with one REPORT_DELIVER to the sender of the request, and
  -- has published the same report on the broadcast topic before, both in the trace of the request.
  -- The transport raises nothing.
  pub reporter_answers :
      (m : Message) (task verdict : Fields) (summary : String) (s : AgentState W)
      → m.type ≡ MessageType.report_request
      → dict_at "task" m.payload ≡ ok task
      → dict_at "verdict" m.payload ≡ ok verdict
      → build_summary numbers verdict ≡ ok summary
      → s.faults ≡ []
      → (rs : List PluginResult) × (f : Fresh) × (g : Fresh) × (w : W) × (timestamp : String) × All
          IsReport rs
        × (handle_message a plugins clock numbers m s ≡ (
          ok (
              some (
                deliver_message f a.agent_id m (report_of numbers timestamp task verdict summary rs)
                ∷ [])),
          record s {
            world = w;
            log =
                s.log
                ++ published broadcast (
                    broadcast_message g a.agent_id m
                      (report_of numbers timestamp task verdict summary rs))
                  ∷ [];
          },
        ))
  unfolding handle_message generate_report ◌>>=◌ send broadcast_message
  reporter_answers m task verdict summary s asked has_task has_verdict summed calm =
      let (rs, w, ran, reports) = run_plugins-IsReport a plugins clock "reporter" m.payload s in
      let (e, w₁) = a.draw w in
      let (f, w₂) = a.draw w₁ in
      let (g, w₃) = a.draw w₂ in
      let report = report_of numbers e.timestamp task verdict summary rs in
      let sent = broadcast_message g a.agent_id m report in
      (
        rs,
        f,
        g,
        w₃,
        e.timestamp,
        reports,
        rw
            (
              asked,
              ran,
              has_task,
              has_verdict,
              summed,
              publish_calm a broadcast sent (record s { world = w₃ }) calm,
            )
            refl,
      )
