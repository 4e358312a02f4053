-- ===== src/Admin.antt =====
-- The endpoints of aqap/admin.py over the engine that `serve_admin` hands over; the web framework,
-- which checks the bounds of a query and turns an exception into a response, is not modelled. The
-- agent registered as "dlq-consumer" is a DLQ consumer.
pub mod Restarting
pub mod Letters
pub mod Traces
use aqap.Prelude.{
  ℕ, String, Bool, true, false, ◌&&◌, not, Option, none, some, List, [], ◌∷◌, ◌++◌, if◌then◌else◌,
  length, leb, Dict, get, has, Result, ok, err, type_error, bind, Exec, ◌==◌,
}
use Prim.Native.String
use aqap.Value.{
  Value, null, bool, int, float, pos, str, arr, obj, Fields, end, field, Items, nil, cons,
}
use aqap.Text.{◌+s◌}
use aqap.Plugin.Registry.{get_plugin}
use aqap.Plugin.TraceCollector.{TraceRecord, query_trace, sorted}
use aqap.Agent.DlqConsumer.{DeadLetter, DlqState, Stats, get_dead_letters, replay}
use aqap.Agent.Supervisor as Supervisors
use aqap.Agent.Supervisor.{Status, Member, Supervisor}
use aqap.Engine.{EngineState, setting}
use aqap.Engine.Starting.{Health, health, name_of}
use aqap.Cli.{Office, replay_letters, Session}

-- a response, or an HTTPException with its status and its text
pub data Reply (A : Type 0) : Type 0 where
  answered : A → Reply A
  refused : ℕ → String → Reply A

-- what the endpoints of health and agents return
pub data Overview : Type 0 where
  not_initialized no_engine : Overview
  healthy : Health → Overview
  agents : Dict Status → Overview

pub data LettersReply : Type 0 where
  not_registered : LettersReply
  letters : List DeadLetter → LettersReply

pub data StatsReply : Type 0 where
  no_stats : StatsReply
  statistics : Stats → ℕ → StatsReply

pub data TraceReply : Type 0 where
  no_collector : String → TraceReply
  events : String → List TraceRecord → TraceReply

pub record TopicsReply : Type 0 where
  pub topics : List String
  pub transport_backend : String

pub record ConfigReply : Type 0 where
  pub app : Value
  pub backend : Value
  pub security_enabled : Value
  pub agent_count : ℕ
  pub plugin_count : ℕ

abbrev pub among : String → List String → Bool
among k [] = false
among k (j ∷ ks) = let rest = among k ks in if j == k then true else rest

-- `topics.add(t)`, in the order of the first addition
unfoldable add_topics : List String → List String → List String
add_topics seen [] = seen
add_topics seen (t ∷ ts) = add_topics (if among t seen then seen else seen ++ t ∷ []) ts

abbrev count_fields : Fields → ℕ
count_fields end = 0
count_fields (field k v fs) = ℕ.suc (count_fields fs)

abbrev count_items : Items → ℕ
count_items nil = 0
count_items (cons v vs) = ℕ.suc (count_items vs)

abbrev text_length : String → ℕ
text_length String.[] = 0
text_length (String.◌∷◌ c s) = ℕ.suc (text_length s)

-- len(v)
unfoldable len : Value → Result ℕ
len (obj fs) = ok (count_fields fs)
len (arr vs) = ok (count_items vs)
len (str s) = ok (text_length s)
len _ = err type_error

-- `not message_id`
abbrev pub is_blank : Option String → Bool
is_blank none = true
is_blank (some s) = s == ""

abbrev name_or_unknown : Option String → String
name_or_unknown none = "unknown"
name_or_unknown (some name) = name

abbrev not_ready : {A : Type 0} → Reply A
not_ready = refused 503 "Engine 未初始化"

abbrev no_agent : {A : Type 0} → String → Reply A
no_agent agent_id = refused 404 ("Agent '" +s agent_id +s "' 不存在")

-- `topics_of` gives the topics of an agent object
unfoldable collect_topics :
    {W : Type 0} → (Member W → List String) → List String → Dict (Member W) → List String
unfolding add_topics
collect_topics topics_of seen [] = seen
collect_topics topics_of seen ((agent_id, a) ∷ rest) =
    collect_topics topics_of (add_topics seen (topics_of a)) rest

module _ {T B W : Type 0} where
  unfoldable health_page : Office T B W → Option (EngineState T B W) → Overview
  unfolding health
  health_page o none = not_initialized
  health_page o (some e) = healthy (health o.system (o.now e.world) e)

  unfoldable list_agents : Office T B W → Option (EngineState T B W) → Overview
  unfolding health
  list_agents o none = no_engine
  list_agents o (some e) = agents (health o.system (o.now e.world) e).agents.0

  unfoldable pub get_agent : Office T B W → String → Option (EngineState T B W) → Reply Status
  unfolding health get
  get_agent o agent_id none = not_ready
  get_agent o agent_id (some e) = elim (get agent_id (health o.system (o.now e.world) e).agents.0) [
    | none ↦ no_agent agent_id
    | some status ↦ answered status
  ]

  unfoldable pub restart_agent :
      String → Option (EngineState T B W) → Reply String × Option (EngineState T B W)
  unfolding has Supervisors.restart_agent
  restart_agent agent_id none = (not_ready, none)
  restart_agent agent_id (some e) =
      if has agent_id e.supervisor.agents
      then (
        answered agent_id,
        some (record e { world = Supervisors.restart_agent agent_id e.supervisor e.world }),
      )
      else (no_agent agent_id, some e)

  unfoldable pub dlq_stats : Office T B W → Option (EngineState T B W) → Reply StatsReply
  unfolding get
  dlq_stats o none = not_ready
  dlq_stats o (some e) = elim (get "dlq-consumer" e.supervisor.agents) [
    | none ↦ answered no_stats
    | some dlq ↦
        let d : DlqState = o.letters e.world in
        answered (statistics d.stats (length d.dead_letters))
  ]

  -- `limit` has passed the bounds of the query
  unfoldable pub dlq_list : Office T B W → ℕ → Option (EngineState T B W) → Reply LettersReply
  unfolding get
  dlq_list o limit none = not_ready
  dlq_list o limit (some e) = elim (get "dlq-consumer" e.supervisor.agents) [
    | none ↦ answered not_registered
    | some dlq ↦ answered (letters (get_dead_letters limit (o.letters e.world)))
  ]

  -- count = await dlq_consumer.replay(...), which may raise
  unfoldable pub replay_found :
      Office T B W
      → Option String
      → Option String
      → EngineState T B W
      → Result (Reply ℕ) × EngineState T B W
  unfolding replay
  replay_found o message_id trace_id e =
      let w : W = e.world in
      let (r, d) = replay (o.draws w) message_id trace_id (o.letters w) in
      (bind r (λ count. ok (answered count)), record e { world = o.with_letters d w })

  unfoldable pub dlq_replay :
      Office T B W
      → Option String
      → Option String
      → Option (EngineState T B W)
      → Result (Reply ℕ) × Option (EngineState T B W)
  unfolding replay_found get
  dlq_replay o message_id trace_id none = (ok not_ready, none)
  dlq_replay o message_id trace_id (some e) =
      if is_blank message_id && is_blank trace_id
      then (ok (refused 400 "至少需要 message_id 或 trace_id"), some e)
      else elim (get "dlq-consumer" e.supervisor.agents) [
        | none ↦ (ok (refused 503 "DLQ Consumer 未注册"), some e)
        | some dlq ↦ let (r, e') = replay_found o message_id trace_id e in (r, some e')
      ]

  unfoldable pub get_trace : Office T B W → String → Option (EngineState T B W) → Reply TraceReply
  unfolding get_plugin query_trace
  get_trace o trace_id none = not_ready
  get_trace o trace_id (some e) = elim (get_plugin "trace-collector" e.registry) [
    | none ↦ answered (no_collector trace_id)
    | some tc ↦ answered (events trace_id (query_trace trace_id (o.collector e.world)))
  ]

  unfoldable list_topics :
      Office T B W → (Member W → List String) → Option (EngineState T B W) → Reply TopicsReply
  unfolding collect_topics sorted
  list_topics o topics_of none = not_ready
  list_topics o topics_of (some e) = answered (record {
    topics = sorted (collect_topics topics_of [] e.supervisor.agents);
    transport_backend = name_or_unknown (name_of o.system e.transport);
  })

  unfoldable config_summary : Option (EngineState T B W) → Result (Reply ConfigReply)
  unfolding len
  config_summary none = ok not_ready
  config_summary (some e) = bind (len (setting ("agents" ∷ []) (obj end) e)) (λ agent_count.
      bind (len (setting ("plugins" ∷ []) (obj end) e)) (λ plugin_count. ok (
        answered (record {
          app = setting ("app" ∷ []) (obj end) e;
          backend = setting ("transport" ∷ "backend" ∷ []) null e;
          security_enabled = setting ("security" ∷ "enabled" ∷ []) (bool false) e;
          agent_count = agent_count;
          plugin_count = plugin_count;
        }))))
