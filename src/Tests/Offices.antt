-- ===== src/Tests/Offices.antt =====
-- The command line and the admin pages at concrete inputs. The world is the state of the DLQ consumer.
use mathlib.Core.List.{reverse}
use aqap.Prelude.{
  ℕ, String, true, false, none, some, [], ◌∷◌, ok, length, get, ◌≡◌, refl, arith, inr, ◌+◌,
}
use aqap.Value.{str, obj, Fields, end, field, get_field, get_field_or}
use aqap.Message.{MessageType, value, of_value}
use aqap.Config
use aqap.Agent.DlqConsumer.{DlqState, Stats, last_of, is_match, original_type}
use aqap.Agent.DlqConsumer.Replay.{matching, others}
use aqap.Agent.Supervisor.{Member}
use aqap.Engine.{EngineState, System}
use aqap.Engine.Agents.{class_of, takes_all}
use aqap.Engine.Starting.{start}
use aqap.Plugin.Registry.{Plugin, get_plugin}
use aqap.Cli as Cli
use aqap.Cli.{Office, Session}
use aqap.Cli.Commands.{cmd_trace_show, cmd_trace_recent}
use aqap.Cli.Unreachable.{begun}
use aqap.Admin.{
  answered, letters, statistics, no_collector, dlq_replay, dlq_list, dlq_stats, get_trace,
}
use aqap.Admin.Letters.{dlq_list-dlq_replay}
use aqap.Admin.Traces.{traces_unreachable}
use aqap.Tests.Letters.{plain_on, good_letter, other_letter, two_letters, draws}

abbrev settings : Fields
settings = field "transport" (obj (field "backend" (str "in-memory") end)) (
    field "plugins"
      (obj (field "trace" (obj (field "class" (str "plugins.TraceCollector") end)) end)) end)

abbrev member : Member DlqState
member = record { start = λ w. (ok tt, w); stop = λ w. (ok tt, w) }

abbrev collector_plugin : Plugin DlqState
collector_plugin = record {
  name = "trace-collector";
  version = "1.0.0";
  initialize = λ config w. (ok tt, w);
  execute = λ context w. (ok end, w);
  cleanup = λ w. (ok tt, w);
}

abbrev system : System ℕ String DlqState
system = record {
  crypto = plain_on DlqState;
  setup_logging = λ debug config w. (ok tt, w);
  construct = λ backend argument w. (ok 0, w);
  connect = λ t w. (ok tt, w);
  transport_name = λ t. "in-memory";
  construct_agent = λ spec w. (ok (λ topics. member), w);
  load_plugin = λ class_path w. (ok collector_plugin, w);
}

abbrev office : Office ℕ String DlqState
office = record {
  system = system;
  topics_of = λ v. [];
  letters = λ w. w;
  with_letters = λ d w. d;
  draws = λ w. draws;
  collector = λ w. record { buffer = []; trace_index = []; world = tt };
  now = λ w. 100;
}

-- two agents, one of them only heard of
abbrev engine : EngineState ℕ String DlqState
engine = record {
  config = settings;
  transport = none;
  supervisor = record {
    agents = ("dlq-consumer", member) ∷ [];
    heartbeat_timeout = 90;
    last_heartbeat = ("remote-1", 50) ∷ [];
    set_order = λ ks. ks;
    running = false;
  };
  started = false;
  cipher = none;
  registry = record { plugins = []; topic_mapping = [] };
  world = two_letters;
}

abbrev opened : Session ℕ String DlqState
opened = record { engine = engine; out = [] }

traces_unreachable_example :
    (cmd_trace_show office "trace-1" opened
      ≡ (ok tt, record (begun office opened) { out = Cli.no_collector ∷ [] }))
    × (cmd_trace_recent office 20 opened
        ≡ (ok tt, record (begun office opened) { out = Cli.no_collector ∷ [] }))
    × ((begun office opened).engine.started ≡ true)
    × (get_trace office "trace-1" (some (begun office opened).engine)
        ≡ answered (no_collector "trace-1"))
unfolding start Config.get class_of takes_all get_field get_field_or get_plugin
traces_unreachable_example = traces_unreachable office opened "trace-1" 20 refl refl

dlq_list-dlq_replay_example :
    let found = matching none (some "trace-1") (good_letter ∷ other_letter ∷ []) in
    let left = others none (some "trace-1") (good_letter ∷ other_letter ∷ []) in
    let r = dlq_replay office none (some "trace-1") (some engine) in
    (r.0 ≡ ok (answered (length found)))
    × (dlq_list office 50 r.1 ≡ answered (letters (reverse (last_of 50 left))))
    × ((stats : Stats) × (dlq_stats office r.1 ≡ answered (statistics stats (length left)))
        × (stats.replayed ≡ 0 + length found))
unfolding is_match original_type of_value value get_field_or get
dlq_list-dlq_replay_example =
    dlq_list-dlq_replay office none (some "trace-1") 50 engine member (omega arith) refl refl
      (λ d w. refl) refl (inr (MessageType.task_dispatch, refl), tt)
