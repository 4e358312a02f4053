-- ===== src/Engine/Agents.antt =====
-- `_init_agents` of aqap/core/engine.py.
pub mod Registration
use mathlib.Core.Path.{subst}
use aqap.Prelude.{
  String, Bool, true, false, ◌&&◌, ◌||◌, Option, none, some, List, [], ◌∷◌, if◌then◌else◌, Dict,
  get, has, put, Result, ok, err, type_error, Exec, resume, return, ◌>>=◌, ◌>>◌, ◌==◌, eq_iff, ◌≡◌,
  refl, ◌∙◌, ap, arith, Bool-cases, Option-cases, inl, inr,
}
use aqap.Value.{
  Value, null, int, pos, str, arr, obj, nil, Fields, end, field, get_field, get_field_or, truthy,
  iterated,
}
use aqap.Text.{◌+s◌}
use aqap.Agent.Supervisor as Supervisors
use aqap.Agent.Supervisor.{Supervisor, Member}
use aqap.Engine.{
  AgentClass, probe, judge, reporter, scheduler, dlq_consumer, agent_map, AgentSpec, EngineState,
  System, on_world, setting, as_dict,
}

-- the keywords of a class that the engine does not pass itself
abbrev keywords : AgentClass → List String
keywords probe = "judge_target" ∷ "max_concurrency" ∷ []
keywords judge = "reporter_target" ∷ "max_concurrency" ∷ []
keywords reporter = "max_concurrency" ∷ []
keywords scheduler = "schedule" ∷ "max_concurrency" ∷ []
keywords dlq_consumer = "dlq_ttl" ∷ "max_concurrency" ∷ []

abbrev pub among : String → List String → Bool
among k [] = false
among k (j ∷ ks) = k == j || among k ks

unfoldable pub takes_all : List String → Fields → Bool
takes_all ks end = true
takes_all ks (field k v fs) = among k ks && takes_all ks fs

-- AGENT_MAP.get(agent_type): a list or a dict has no hash
unfoldable pub class_of : Value → Result (Option AgentClass)
unfolding get
class_of (str s) = ok (get s agent_map)
class_of (arr vs) = err type_error
class_of (obj fs) = err type_error
class_of _ = ok none

-- f"aqap-{agent_type}s", for the types of AGENT_MAP
abbrev group_of : Value → Value
group_of (str s) = str ("aqap-" +s s +s "s")
group_of _ = null

-- what stands after `**` in a call, where the callee takes the keywords `ks` beside those given
abbrev unpacked : List String → Value → Result Fields
unpacked ks (obj fs) = if takes_all ks fs then ok fs else err type_error
unpacked ks _ = err type_error

module _ {T B W : Type 0} where
  abbrev pub lift : {A : Type 0} → Result A → Exec (EngineState T B W) A
  lift r s = (r, s)

  unfoldable agent_spec : AgentClass → String → Fields → Fields → EngineState T B W → AgentSpec T B
  unfolding get_field_or
  agent_spec class agent_id cfg targets s = record {
    class = class;
    agent_id = agent_id;
    transport = s.transport;
    group = get_field_or "group" (group_of (get_field_or "type" (str "") cfg)) cfg;
    max_retries = get_field_or "max_retries" (int (pos 3)) cfg;
    heartbeat_interval = get_field_or "heartbeat_interval" (int (pos 30)) cfg;
    cipher = s.cipher;
    targets = targets;
  }

  unfoldable pub make_agent :
      System T B W
      → AgentClass
      → String
      → Fields
      → Fields
      → Exec (EngineState T B W) (List Value → Member W)
  unfolding agent_spec
  make_agent y class agent_id cfg targets s =
      on_world (y.construct_agent (agent_spec class agent_id cfg targets s)) s

  unfoldable pub register : String → Member W → Exec (EngineState T B W) (Unit {0})
  unfolding Supervisors.register
  register agent_id agent s =
      (ok tt, record s { supervisor = Supervisors.register agent_id agent s.supervisor })

  -- the body of the loop for an agent of a known type
  unfoldable pub create_agent :
      System T B W → AgentClass → String → Fields → Exec (EngineState T B W) (Unit {0})
  unfolding make_agent register takes_all iterated ◌>>=◌
  create_agent y class agent_id cfg = do
    targets ← lift (unpacked (keywords class) (get_field_or "targets" (obj end) cfg))
    agent ← make_agent y class agent_id cfg targets
    topics ← lift (iterated (get_field_or "topics" (arr nil) cfg))
    register agent_id (agent topics)

  -- an agent of an unknown type is skipped
  unfoldable pub create_known :
      System T B W → String → Fields → Option AgentClass → Exec (EngineState T B W) (Unit {0})
  unfolding create_agent
  create_known y agent_id cfg none = return tt
  create_known y agent_id cfg (some class) = create_agent y class agent_id cfg

  unfoldable pub init_agent : System T B W → String → Value → Exec (EngineState T B W) (Unit {0})
  unfolding class_of create_known ◌>>=◌
  init_agent y agent_id value = do
    cfg ← as_dict value
    class ← lift (class_of (get_field_or "type" (str "") cfg))
    create_known y agent_id cfg class

  unfoldable pub init_each : System T B W → Fields → Exec (EngineState T B W) (Unit {0})
  unfolding init_agent ◌>>=◌
  init_each y end = return tt
  init_each y (field agent_id cfg rest) = do init_agent y agent_id cfg; init_each y rest

  unfoldable pub init_agents : System T B W → Exec (EngineState T B W) (Unit {0})
  unfolding init_each truthy ◌>>=◌
  init_agents y s =
      let agent_configs = setting ("agents" ∷ []) (obj end) s in
      (if truthy agent_configs then as_dict agent_configs >>= init_each y else return tt) s
