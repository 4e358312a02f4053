-- ===== src/Engine.antt =====
-- `AQAPEngine` of aqap/core/engine.py. `T` is the type of transport objects, `B` that of byte
-- strings, `W` the world: what the transports, the agents, the imported modules and the logging
-- change.
pub mod Plugins
pub mod Agents
pub mod Starting
pub mod Steady
pub mod Failure
pub mod HotReload
use aqap.Prelude.{
  ℕ, String, Bool, true, false, Option, none, some, List, [], ◌∷◌, if◌then◌else◌, Dict, get, put,
  Result, ok, err, Exc, value_error, type_error, attribute_error, Exec, return, throw, ◌>>=◌, ◌>>◌,
}
use aqap.Value.{
  Value, null, bool, int, float, pos, str, arr, obj, Fields, end, field, get_field, get_field_or,
  truthy, iterated,
}
use aqap.Text.{◌+s◌}
use aqap.Config
use aqap.Security.{Crypto, PayloadCipher, new_cipher}
use aqap.Plugin.Registry.{Plugin, Registry, register}
use aqap.Agent.Supervisor as Supervisors
use aqap.Agent.Supervisor.{Supervisor, Member, Status}

-- the transport classes of TRANSPORT_MAP
pub data Backend : Type 0 where
  redis_streams in_memory kafka rabbitmq : Backend

abbrev pub transport_map : Dict Backend
transport_map =
    ("redis-streams", redis_streams)
    ∷ ("in-memory", in_memory)
    ∷ ("kafka", kafka)
    ∷ ("rabbitmq", rabbitmq)
    ∷ []

-- the agent classes of AGENT_MAP
pub data AgentClass : Type 0 where
  probe judge reporter scheduler dlq_consumer : AgentClass

abbrev pub agent_map : Dict AgentClass
agent_map =
    ("probe", probe)
    ∷ ("judge", judge)
    ∷ ("reporter", reporter)
    ∷ ("scheduler", scheduler)
    ∷ ("dlq-consumer", dlq_consumer)
    ∷ []

-- the arguments of an agent's class
pub record AgentSpec (T B : Type 0) : Type 0 where
  pub class : AgentClass
  pub agent_id : String
  pub transport : Option T
  pub group : Value
  pub max_retries : Value
  pub heartbeat_interval : Value
  pub cipher : Option (PayloadCipher B)
  pub targets : Fields

pub record EngineState (T B W : Type 0) : Type 0 where
  pub config : Fields
  pub transport : Option T
  pub supervisor : Supervisor W
  pub started : Bool
  pub cipher : Option (PayloadCipher B)
  pub registry : Registry W
  pub world : W

-- What the engine calls. `construct` makes a transport of a class, with the URL or the servers where
-- the class takes them; `construct_agent` gives the agent object of a class, once it knows the topics
-- subscribed to, or what the constructor raises for arguments that it takes; `load_plugin` imports a class by its path and makes an object of it.
pub record System (T B W : Type 0) : Type 0 where
  pub crypto : Crypto B W
  pub setup_logging : Value → Value → W → Result (Unit {0}) × W
  pub construct : Backend → Option Value → W → Result T × W
  pub connect : T → W → Result (Unit {0}) × W
  pub transport_name : T → String
  pub construct_agent : AgentSpec T B → W → Result (List Value → Member W) × W
  pub load_plugin : String → W → Result (Plugin W) × W

module _ {T B W : Type 0} where
  -- a computation on the world alone
  abbrev pub on_world : {A : Type 0} → (W → Result A × W) → Exec (EngineState T B W) A
  on_world f s = ((f s.world).0, record s { world = (f s.world).1 })

  abbrev pub setting : List String → Value → EngineState T B W → Value
  setting keys default s = Config.get keys default s.config

  -- data.get(...) of a value that should be a dict
  abbrev pub as_dict : Value → Exec (EngineState T B W) Fields
  as_dict (obj fs) = return fs
  as_dict _ = throw attribute_error
