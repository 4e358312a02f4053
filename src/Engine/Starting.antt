-- ===== src/Engine/Starting.antt =====
-- `start`, `stop` and `health` of aqap/core/engine.py.
use aqap.Prelude.{
  ℕ, String, Bool, true, false, Option, none, some, List, [], ◌∷◌, if◌then◌else◌, get, Result, ok,
  err, value_error, type_error, attribute_error, Exec, return, throw, ◌>>=◌, ◌>>◌, Dict,
}
use aqap.Value.{Value, null, bool, str, arr, obj, end, get_field_or, truthy}
use aqap.Security.{PayloadCipher, new_cipher}
use aqap.Agent.Supervisor as Supervisors
use aqap.Agent.Supervisor.{Supervisor, Member, Status}
use aqap.Engine.{
  Backend, redis_streams, in_memory, kafka, rabbitmq, transport_map, EngineState, System, on_world,
  setting, as_dict,
}
use aqap.Engine.Agents.{lift, init_agents}
use aqap.Engine.Plugins.{init_plugins}

-- TRANSPORT_MAP.get(backend)
unfoldable pub transport_class : Value → Result (Option Backend)
unfolding get
transport_class (str s) = ok (get s transport_map)
transport_class (arr vs) = err type_error
transport_class (obj fs) = err type_error
transport_class _ = ok none

-- engine.health(): started, transport.type, encryption_enabled, and what health_check returns
pub record Health : Type 0 where
  pub started : Bool
  pub transport_type : Option String
  pub encryption_enabled : Bool
  pub agents : Dict Status × ℕ

abbrev is_enabled : {B : Type 0} → Option (PayloadCipher B) → Bool
is_enabled none = false
is_enabled (some cipher) = elim cipher.key [ none ↦ false | some key ↦ true ]

module _ {T B W : Type 0} where
  -- PayloadCipher(secret) for a truthy secret; one that is no text cannot be encoded
  abbrev pub made_cipher : System T B W → Value → Result (PayloadCipher B)
  made_cipher y (str secret) = ok (new_cipher y.crypto (some secret))
  made_cipher y _ =
      if y.crypto.available then err attribute_error else ok (new_cipher y.crypto none)

  unfoldable pub set_cipher : PayloadCipher B → Exec (EngineState T B W) (Unit {0})
  set_cipher cipher s = (ok tt, record s { cipher = some cipher })

  unfoldable pub init_security : System T B W → Exec (EngineState T B W) (Unit {0})
  unfolding new_cipher truthy get_field_or set_cipher ◌>>=◌
  init_security y s =
      (as_dict (setting ("security" ∷ []) (obj end) s) >>= λ sec_cfg.
      let secret = get_field_or "secret" null sec_cfg in
      if truthy (get_field_or "enabled" null sec_cfg)
      then (if truthy secret then lift (made_cipher y secret) >>= set_cipher else return tt)
      else set_cipher (new_cipher y.crypto none))
        s

  -- the argument that a class is called with
  abbrev pub argument : Backend → EngineState T B W → Option Value
  argument redis_streams s = some (setting ("transport" ∷ "redis_url" ∷ []) null s)
  argument kafka s = some (setting ("transport" ∷ "kafka_servers" ∷ []) null s)
  argument in_memory s = none
  argument rabbitmq s = none

  unfoldable pub make_transport : System T B W → Backend → Exec (EngineState T B W) T
  make_transport y backend s = on_world (y.construct backend (argument backend s)) s

  unfoldable pub set_transport : T → Exec (EngineState T B W) (Unit {0})
  set_transport t s = (ok tt, record s { transport = some t })

  unfoldable pub open_transport :
      System T B W → Option Backend → Exec (EngineState T B W) (Unit {0})
  unfolding make_transport set_transport ◌>>=◌
  open_transport y none = throw value_error
  open_transport y (some backend) = do
    transport ← make_transport y backend
    set_transport transport
    on_world (y.connect transport)

  unfoldable pub init_transport : System T B W → Exec (EngineState T B W) (Unit {0})
  unfolding transport_class open_transport ◌>>=◌
  init_transport y s =
      (do
        transport_cls ← lift (transport_class (setting ("transport" ∷ "backend" ∷ []) null s))
        open_transport y transport_cls)
        s

  unfoldable pub configure_logging : System T B W → Exec (EngineState T B W) (Unit {0})
  configure_logging y s =
      on_world
        (y.setup_logging (setting ("app" ∷ "debug" ∷ []) (bool false) s)
          (setting ("logging" ∷ []) null s))
        s

  -- `await self._supervisor.start_all()`, `self._started = True`
  unfoldable pub start_agents : Exec (EngineState T B W) (Unit {0})
  unfolding Supervisors.start_all
  start_agents s =
      let (supervisor, w) = Supervisors.start_all s.supervisor s.world in
      (ok tt, record s { supervisor = supervisor; started = true; world = w })

  -- the steps before the agents are started
  unfoldable pub prepare :
      System T B W → (Value → List String) → Exec (EngineState T B W) (Unit {0})
  unfolding configure_logging init_security init_transport init_plugins init_agents ◌>>=◌
  prepare y topics_of = do
    configure_logging y
    init_security y
    init_transport y
    init_plugins y topics_of
    init_agents y

  unfoldable pub start : System T B W → (Value → List String) → Exec (EngineState T B W) (Unit {0})
  unfolding prepare start_agents ◌>>=◌
  start y topics_of = do prepare y topics_of; start_agents

  unfoldable pub stop : EngineState T B W → EngineState T B W
  unfolding Supervisors.stop_all
  stop s =
      let (supervisor, w) = Supervisors.stop_all s.supervisor s.world in
      if s.started then record s { supervisor = supervisor; started = false; world = w } else s

  abbrev pub name_of : System T B W → Option T → Option String
  name_of y none = none
  name_of y (some t) = some (y.transport_name t)

  unfoldable pub health : System T B W → ℕ → EngineState T B W → Health
  unfolding Supervisors.health_check
  health y now s = record {
    started = s.started;
    transport_type = name_of y s.transport;
    encryption_enabled = is_enabled s.cipher;
    agents = Supervisors.health_check now s.supervisor;
  }
