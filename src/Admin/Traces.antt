-- ===== src/Admin/Traces.antt =====
-- What reads traces: `get_trace` of aqap/admin.py and the commands of aqap/cli.py.
use aqap.Prelude.{ℕ, String, true, none, some, [], ◌∷◌, ◌++◌, ok, ◌≡◌, refl, ap, ◌∙◌}
use aqap.Plugin.Registry.{get_plugin}
use aqap.Engine.Starting.{start}
use aqap.Engine.Steady.{start-registry}
use aqap.Cli as Cli
use aqap.Cli.{Session, Office}
use aqap.Cli.Commands.{cmd_trace_show, cmd_trace_recent}
use aqap.Cli.Unreachable.{begun, trace_commands_find_none}
use aqap.Admin.{answered, no_collector, get_trace}

module _ {T B W : Type 0} (o : Office T B W) where
  -- A process whose registry has no trace collector, as none has at its beginning, starts its engine
  -- without an exception: whatever plugins the configuration names and whatever trace is asked for,
  -- both commands on traces print that no collector is registered and come back with the engine still
  -- started, and the page of a trace says the same and shows no event.
  pub traces_unreachable :
      (s : Session T B W) (trace_id : String) (n : ℕ)
      → (start o.system o.topics_of s.engine).0 ≡ ok tt
      → get_plugin "trace-collector" s.engine.registry ≡ none
      → (cmd_trace_show o trace_id s
          ≡ (ok tt, record (begun o s) { out = s.out ++ Cli.no_collector ∷ [] }))
        × (cmd_trace_recent o n s
            ≡ (ok tt, record (begun o s) { out = s.out ++ Cli.no_collector ∷ [] }))
        × ((begun o s).engine.started ≡ true)
        × (get_trace o trace_id (some (begun o s).engine) ≡ answered (no_collector trace_id))
  unfolding get_trace
  traces_unreachable s trace_id n fine missing =
      let (show, recent, started) = trace_commands_find_none o s trace_id n fine missing in
      let still =
        ap (get_plugin "trace-collector") (start-registry o.system o.topics_of s.engine)
        ∙ missing in
      (show, recent, started, rw (still, get_trace) refl)
