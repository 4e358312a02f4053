-- ===== src/Cli/Commands.antt =====
-- The commands on traces, agents and health of aqap/cli.py, and its `main`, which picks a command.
use aqap.Prelude.{
  ℕ, String, Option, none, some, List, [], ◌∷◌, if◌then◌else◌, Dict, map, Exec, return, ◌>>=◌, ◌>>◌,
  ◌==◌,
}
use aqap.Plugin.TraceCollector.{TraceRecord, query_trace, query_recent}
use aqap.Agent.Supervisor.{Status}
use aqap.Engine.Starting.{Health, health}
use aqap.Cli.{
  Line, no_events, no_agents, no_trace, event, recent, agent, status, secret, Session, Office,
  print, start_engine, stop_engine, with_collector, print_all, cmd_dlq_list, cmd_dlq_replay,
  cmd_dlq_stats,
}

-- What argparse makes of the command line; an attribute that no option sets is none.
pub record Args : Type 0 where
  pub command : Option String
  pub dlq_action : Option String
  pub trace_action : Option String
  pub limit : ℕ
  pub message_id : Option String
  pub trace_id : Option String
  pub shown_trace : String
  pub n : ℕ

pub data Command : Type 0 where
  dlq_list dlq_replay dlq_stats trace_show trace_recent agents health_check make_secret : Command

-- the keys of `disp`
pub data Key : Type 0 where
  single : String → Key
  pair : String → Option String → Key

-- disp.get(cmd)
unfoldable find_command : Key → Option Command
find_command (single name) =
    if name == "agents"
    then some agents
    else if name == "health"
    then some health_check
    else if name == "secret"
    then some make_secret
    else none
find_command (pair group none) = none
find_command (pair group (some action)) =
    if group == "dlq"
    then (if action == "list"
        then some dlq_list
        else if action == "replay"
        then some dlq_replay
        else if action == "stats"
        then some dlq_stats
        else none)
    else if group == "trace"
    then (if action == "show"
        then some trace_show
        else if action == "recent"
        then some trace_recent
        else none)
    else none

-- The key for a command; `getattr` finds the attribute of the group, be it None.
unfoldable key_of : Args → String → Key
key_of a cmd =
    if cmd == "dlq"
    then pair cmd a.dlq_action
    else if cmd == "trace"
    then pair cmd a.trace_action
    else single cmd

-- how `main` ends: `sys.exit(1)`, the help alone, or a command that was run
pub data Ending : Type 0 where
  exited helped ran : Ending

abbrev agent_lines : Dict Status → List Line
agent_lines [] = []
agent_lines ((aid, s) ∷ rest) = agent aid s ∷ agent_lines rest

module _ {T B W : Type 0} where
  unfoldable show_events :
      Line → (TraceRecord → Line) → List TraceRecord → Exec (Session T B W) (Unit {0})
  unfolding print_all stop_engine ◌>>=◌
  show_events nothing line [] = print nothing
  show_events nothing line (e ∷ events) = do print_all (map line (e ∷ events)); stop_engine

  unfoldable pub cmd_trace_show : Office T B W → String → Exec (Session T B W) (Unit {0})
  unfolding start_engine with_collector show_events query_trace ◌>>=◌
  cmd_trace_show o trace_id = do
    start_engine o
    with_collector (λ s.
        show_events (no_trace trace_id) event (query_trace trace_id (o.collector s.engine.world)) s)

  unfoldable pub cmd_trace_recent : Office T B W → ℕ → Exec (Session T B W) (Unit {0})
  unfolding start_engine with_collector show_events query_recent ◌>>=◌
  cmd_trace_recent o n = do
    start_engine o
    with_collector
        (λ s. show_events no_events recent (query_recent n (o.collector s.engine.world)) s)

  -- h = await engine.health()
  abbrev health_now : Office T B W → Session T B W → Health
  health_now o s = health o.system (o.now s.engine.world) s.engine

  unfoldable show_agents : Dict Status → Exec (Session T B W) (Unit {0})
  unfolding print_all stop_engine ◌>>=◌
  show_agents [] = print no_agents
  show_agents (a ∷ rest) = do print_all (agent_lines (a ∷ rest)); stop_engine

  unfoldable cmd_agents : Office T B W → Exec (Session T B W) (Unit {0})
  unfolding start_engine show_agents health ◌>>=◌
  cmd_agents o = do start_engine o; (λ s. show_agents (health_now o s).agents.0 s)

  unfoldable cmd_health : Office T B W → Exec (Session T B W) (Unit {0})
  unfolding start_engine stop_engine health ◌>>=◌
  cmd_health o = do start_engine o; (λ s. print (status (health_now o s)) s); stop_engine

  -- `generated` is what generate_secret gives
  unfoldable run_command : Office T B W → String → Args → Command → Exec (Session T B W) (Unit {0})
  unfolding cmd_dlq_list cmd_dlq_replay cmd_dlq_stats cmd_trace_show cmd_trace_recent cmd_agents
      cmd_health
  run_command o generated a dlq_list = cmd_dlq_list o a.limit
  run_command o generated a dlq_replay = cmd_dlq_replay o a.message_id a.trace_id
  run_command o generated a dlq_stats = cmd_dlq_stats o
  run_command o generated a trace_show = cmd_trace_show o a.shown_trace
  run_command o generated a trace_recent = cmd_trace_recent o a.n
  run_command o generated a agents = cmd_agents o
  run_command o generated a health_check = cmd_health o
  run_command o generated a make_secret = print (secret generated)

  unfoldable dispatch : Office T B W → String → Args → Option Command → Exec (Session T B W) Ending
  unfolding run_command ◌>>=◌
  dispatch o generated a none = return helped
  dispatch o generated a (some fn) = do run_command o generated a fn; return ran

  unfoldable main : Office T B W → String → Args → Exec (Session T B W) Ending
  unfolding dispatch key_of find_command
  main o generated a = elim a.command [
    | none ↦ return exited
    | some cmd ↦
        if cmd == "" then return exited else dispatch o generated a (find_command (key_of a cmd))
  ]
