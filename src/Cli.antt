-- ===== src/Cli.antt =====
-- The commands of aqap/cli.py, without their parser: a line printed is the call of `print` with its
-- values. The agent registered as "dlq-consumer" is a DLQ consumer, and the plugin registered as
-- "trace-collector" a trace collector; numbers given to -n are natural.
pub mod Commands
pub mod Unreachable
use Prim.Native.String
use mathlib.Core.List.{reverse}
use aqap.Prelude.{
  ℕ, zero, suc, ◌+◌, String, Bool, true, false, Option, none, some, List, [], ◌∷◌, ◌++◌,
  if◌then◌else◌, length, Dict, get, Result, ok, err, Exc, raised, type_error, Exec, resume, return,
  throw, ◌>>=◌, ◌>>◌, ◌==◌,
}
use aqap.Value.{Value, null, bool, int, float, str, arr, obj, Items, nil, cons, Float}
use aqap.Message.{Fresh}
use aqap.Plugin.Registry.{Plugin, Registry, get_plugin}
use aqap.Plugin.TraceCollector.{TraceRecord, Collector, query_trace, query_recent}
use aqap.Agent.DlqConsumer.{DeadLetter, DlqState, Stats, get_dead_letters, replay}
use aqap.Agent.Supervisor.{Status, Member}
use aqap.Engine.{EngineState, System}
use aqap.Engine.Starting.{Health, start, stop, health}

-- A call of `print`.
pub data Line : Type 0 where
  no_consumer no_letters no_collector no_events no_agents : Line
  letter : ℕ → String → String → Value → Value → Line
  total replayed : ℕ → Line
  statistics : Stats → ℕ → Line
  no_trace : String → Line
  event recent : TraceRecord → Line
  agent : String → Status → Line
  status : Health → Line
  secret : String → Line

pub record Session (T B W : Type 0) : Type 0 where
  pub engine : EngineState T B W
  pub out : List Line

-- What the commands find: the state of the DLQ consumer and of the trace collector in the world,
-- the identifiers that a replay draws, and the clock.
pub record Office (T B W : Type 0) : Type 0 where
  pub system : System T B W
  pub topics_of : Value → List String
  pub letters : W → DlqState
  pub with_letters : DlqState → W → W
  pub draws : W → ℕ → Fresh
  pub collector : W → Collector (Unit {0})
  pub now : W → ℕ

-- s[:n] of a text
unfoldable pub prefix : ℕ → String → String
prefix zero s = String.[]
prefix (suc n) String.[] = String.[]
prefix (suc n) (String.◌∷◌ c s) = String.◌∷◌ c (prefix n s)

-- the first items of a list
unfoldable first_items : ℕ → Items → Items
first_items zero vs = nil
first_items (suc n) nil = nil
first_items (suc n) (cons v vs) = cons v (first_items n vs)

-- v[:n]: a dict is looked up at the slice, and the others have no items
unfoldable slice : ℕ → Value → Result Value
unfolding prefix first_items
slice n (str s) = ok (str (prefix n s))
slice n (arr vs) = ok (arr (first_items n vs))
slice n (obj fs) = err (raised "slice")
slice n _ = err type_error

module _ {T B W : Type 0} where
  abbrev pub print : Line → Exec (Session T B W) (Unit {0})
  print l s = (ok tt, record s { out = s.out ++ l ∷ [] })

  -- _get_engine() has made the engine of the session
  unfoldable pub start_engine : Office T B W → Exec (Session T B W) (Unit {0})
  unfolding start
  start_engine o s =
      let (r, engine) = start o.system o.topics_of s.engine in (r, record s { engine = engine })

  unfoldable pub stop_engine : Exec (Session T B W) (Unit {0})
  unfolding stop
  stop_engine s = (ok tt, record s { engine = stop s.engine })

  -- dlq = engine.supervisor._agents.get("dlq-consumer"), and what follows if there is one
  unfoldable with_consumer : Exec (Session T B W) (Unit {0}) → Exec (Session T B W) (Unit {0})
  unfolding get
  with_consumer k s = elim (get "dlq-consumer" s.engine.supervisor.agents) [
    | none ↦ print no_consumer s
    | some dlq ↦ k s
  ]

  unfoldable print_letter : ℕ → DeadLetter → Exec (Session T B W) (Unit {0})
  unfolding slice prefix
  print_letter i dl s = elim (slice 40 dl.error) [
    | ok error ↦
        print (letter i (prefix 12 dl.message_id) (prefix 12 dl.trace_id) error dl.retry_count) s
    | err e ↦ throw e s
  ]

  unfoldable print_letters : ℕ → List DeadLetter → Exec (Session T B W) (Unit {0})
  unfolding print_letter ◌>>=◌
  print_letters i [] = return tt
  print_letters i (dl ∷ letters) = do print_letter i dl; print_letters (i + 1) letters

  unfoldable show_letters : List DeadLetter → Exec (Session T B W) (Unit {0})
  unfolding print_letters stop_engine ◌>>=◌
  show_letters [] = print no_letters
  show_letters (dl ∷ letters) = do
    print_letters 1 (dl ∷ letters)
    print (total (length (dl ∷ letters)))
    stop_engine

  unfoldable pub cmd_dlq_list : Office T B W → ℕ → Exec (Session T B W) (Unit {0})
  unfolding start_engine with_consumer show_letters get_dead_letters ◌>>=◌
  cmd_dlq_list o limit = do
    start_engine o
    with_consumer (λ s. show_letters (get_dead_letters limit (o.letters s.engine.world)) s)

  -- count = await dlq.replay(...)
  unfoldable pub replay_letters :
      Office T B W → Option String → Option String → Exec (Session T B W) ℕ
  unfolding replay
  replay_letters o message_id trace_id s =
      let w : W = s.engine.world in
      let (r, d) = replay (o.draws w) message_id trace_id (o.letters w) in
      (r, record s { engine = record s.engine { world = o.with_letters d w } })

  unfoldable pub cmd_dlq_replay :
      Office T B W → Option String → Option String → Exec (Session T B W) (Unit {0})
  unfolding start_engine with_consumer replay_letters stop_engine ◌>>=◌
  cmd_dlq_replay o message_id trace_id = do
    start_engine o
    with_consumer
        (do count ← replay_letters o message_id trace_id; print (replayed count); stop_engine)

  unfoldable pub cmd_dlq_stats : Office T B W → Exec (Session T B W) (Unit {0})
  unfolding start_engine with_consumer stop_engine ◌>>=◌
  cmd_dlq_stats o = do
    start_engine o
    with_consumer (do
      (λ s.
          let d : DlqState = o.letters s.engine.world in
          print (statistics d.stats (length d.dead_letters)) s)
      stop_engine)

  -- tc = registry.get("trace-collector"), and what follows if there is one
  unfoldable pub with_collector : Exec (Session T B W) (Unit {0}) → Exec (Session T B W) (Unit {0})
  unfolding get_plugin
  with_collector k s = elim (get_plugin "trace-collector" s.engine.registry) [
    | none ↦ print no_collector s
    | some tc ↦ k s
  ]

  unfoldable pub print_all : List Line → Exec (Session T B W) (Unit {0})
  unfolding ◌>>=◌
  print_all [] = return tt
  print_all (l ∷ lines) = do print l; print_all lines
