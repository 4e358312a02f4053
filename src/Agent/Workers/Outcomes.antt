-- ===== src/Agent/Workers/Outcomes.antt =====
-- The reports that `run_plugins` gives.
use aqap.Prelude.{String, List, none, some, ok, ◌≡◌, refl, All, inl, inr, Option-cases}
use aqap.Value.{Float, Fields}
use aqap.Plugin.Registry.{Registry, PluginResult, execute_all}
use aqap.Plugin.Registry.Execute.{IsReport, execute_all_lem}
use aqap.Agent.State.{Agent, AgentState}
use aqap.Agent.Workers.{run_plugins, traced}

module _ {W : Type 0} (a : Agent W) (plugins : Registry W) (clock : W → Float × W) (topic : String)
    (context : Fields) (s : AgentState W) where
  -- what the plugins bound to the topic give, in their order, on the context with the entries of the
  -- message that is handled; and the world after them
  abbrev pub outcomes : List PluginResult × W
  outcomes = elim s.current_message [
    | none ↦ execute_all a.text topic context plugins s.world
    | some m ↦
        execute_all a.text topic (traced (clock s.world).0 m context) plugins (clock s.world).1
  ]

  pub run_plugins_lem :
      (run_plugins a plugins clock topic context s
        ≡ (ok outcomes.0, record s { world = outcomes.1 }))
      × All IsReport outcomes.0
  unfolding run_plugins
  run_plugins_lem = elim (Option-cases s.current_message) [
    | inl e ↦ rw e (refl, (execute_all_lem a.text topic context plugins s.world).1)
    | inr (m, e) ↦ rw e (
      refl,
      (execute_all_lem a.text topic (traced (clock s.world).0 m context) plugins
          (clock s.world).1).1,
    )
  ]

module _ {W : Type 0} where
  pub run_plugins-IsReport :
      (a : Agent W) (plugins : Registry W) (clock : W → Float × W) (topic : String)
      (context : Fields) (s : AgentState W)
      → (rs : List PluginResult) × (w : W) × (run_plugins a plugins clock topic context s
          ≡ (ok rs, record s { world = w }))
        × All IsReport rs
  run_plugins-IsReport a plugins clock topic context s =
      let (ran, reports) = run_plugins_lem a plugins clock topic context s in
      (
        (outcomes a plugins clock topic context s).0,
        (outcomes a plugins clock topic context s).1,
        ran,
        reports,
      )
