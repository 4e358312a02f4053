-- ===== src/Cli/Unreachable.antt =====
-- What the commands on traces of aqap/cli.py find.
use aqap.Prelude.{ℕ, String, true, none, [], ◌∷◌, ◌++◌, ok, Exec, resume, ◌>>=◌, ◌≡◌, refl, ap, ◌∙◌}
use aqap.Plugin.Registry.{get_plugin}
use aqap.Engine.Starting.{start}
use aqap.Engine.Steady.{start-registry, start-started}
use aqap.Cli.{no_collector, Session, Office, start_engine, with_collector}
use aqap.Cli.Commands.{cmd_trace_show, cmd_trace_recent}

module _ {T B W : Type 0} (o : Office T B W) where
  -- the session after a start
  abbrev pub begun : Session T B W → Session T B W
  begun s = record s { engine = (start o.system o.topics_of s.engine).1 }

  no_collector_found :
      (s : Session T B W) (k : Exec (Session T B W) (Unit {0}))
      → get_plugin "trace-collector" s.engine.registry ≡ none
      → with_collector k s ≡ (ok tt, record s { out = s.out ++ no_collector ∷ [] })
  unfolding with_collector
  no_collector_found s k missing = rw (missing, with_collector) refl

  after_start :
      (s : Session T B W) (k : Exec (Session T B W) (Unit {0}))
      → (start o.system o.topics_of s.engine).0 ≡ ok tt
      → get_plugin "trace-collector" s.engine.registry ≡ none
      → (start_engine o >>= λ _. with_collector k) s
        ≡ (ok tt, record (begun s) { out = s.out ++ no_collector ∷ [] })
  unfolding start_engine ◌>>=◌
  after_start s k fine missing =
      rw (fine, resume)
        (no_collector_found (begun s) k (
          ap (get_plugin "trace-collector") (start-registry o.system o.topics_of s.engine)
          ∙ missing))

  -- A process whose registry has no trace collector, as none has at its beginning: both commands on
  -- traces start the engine, whatever plugins the configuration names, print that no collector is
  -- registered, whatever trace is asked for, and come back without stopping the engine.
  pub trace_commands_find_none :
      (s : Session T B W) (trace_id : String) (n : ℕ)
      → (start o.system o.topics_of s.engine).0 ≡ ok tt
      → get_plugin "trace-collector" s.engine.registry ≡ none
      → (cmd_trace_show o trace_id s
          ≡ (ok tt, record (begun s) { out = s.out ++ no_collector ∷ [] }))
        × (cmd_trace_recent o n s ≡ (ok tt, record (begun s) { out = s.out ++ no_collector ∷ [] }))
        × ((begun s).engine.started ≡ true)
  unfolding cmd_trace_show cmd_trace_recent
  trace_commands_find_none s trace_id n fine missing = (
    after_start s _ fine missing,
    after_start s _ fine missing,
    start-started o.system o.topics_of s.engine fine,
  )
