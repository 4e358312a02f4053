-- ===== src/Tests/Engines.antt =====
-- The engine and the overrides of the configuration at concrete inputs.
use aqap.Prelude.{
  ℕ, String, true, false, Option, none, some, List, [], ◌∷◌, ok, err, raised, ◌≡◌, refl, ap, ◌==◌,
  if◌then◌else◌, has,
}
use aqap.Value.{
  Value, null, str, obj, arr, nil, Fields, end, field, get_field, get_field_or, iterated,
}
use aqap.Text.{ascii}
use aqap.Tests.Letters.{plain}
use aqap.Engine.{probe}
use aqap.Engine.Agents.{class_of, takes_all}
use aqap.Config
use aqap.Config.{get_path}
use aqap.Config.Environment.{env_override, after_prefix, split}
use aqap.Config.Overrides.{has_underscore}
use aqap.Config.Spared.{get-env_override}
use aqap.Agent.Supervisor.{Member}
use aqap.Plugin.Registry.{Plugin}
use aqap.Engine.{EngineState, System}
use aqap.Engine.Agents.{init_agents}
use aqap.Engine.Agents.Registration.{init_agents-registers}
use aqap.Engine.Starting.{start, stop}
use aqap.Engine.Failure.{stop-failed_start}

abbrev settings : Fields
settings =
    field "transport"
      (obj (field "backend" (str "in-memory") (field "redis_url" (str "redis://h") end)))
      (field "plugins"
        (obj (
          field "strict"
            (obj (field "class" (str "checks.Strict") (field "topic_bind" (arr nil) end))) end))
        (field "agents" (obj (field "probe-1" (obj (field "type" (str "probe") end)) end)) end))

abbrev member : Member ℕ
member = record { start = λ w. (ok tt, w); stop = λ w. (ok tt, w) }

abbrev some_plugin : Plugin ℕ
some_plugin = record {
  name = "strict";
  version = "1.0";
  initialize = λ config w. (ok tt, w);
  execute = λ context w. (ok end, w);
  cleanup = λ w. (ok tt, w);
}

abbrev system : System ℕ String ℕ
system = record {
  crypto = plain;
  setup_logging = λ debug config w. (ok tt, w);
  construct = λ backend argument w. (ok 0, w);
  connect = λ t w. (err (raised "refused"), w);
  transport_name = λ t. "in-memory";
  construct_agent = λ spec w. (ok (λ topics. member), w);
  load_plugin = λ class_path w. (ok some_plugin, w);
}

abbrev engine : EngineState ℕ String ℕ
engine = record {
  config = settings;
  transport = none;
  supervisor = record {
    agents = [];
    heartbeat_timeout = 90;
    last_heartbeat = [];
    running = false;
    set_order = λ ks. ks;
  };
  started = false;
  cipher = none;
  registry = record { plugins = []; topic_mapping = [] };
  world = 0;
}

abbrev no_topics : Value → List String
no_topics v = []

init_agents-registers_example :
    ((init_agents system engine).0 ≡ ok tt)
    × (has "probe-1" (init_agents system engine).1.supervisor.agents ≡ true)
unfolding Config.get class_of takes_all get_field get_field_or iterated
init_agents-registers_example =
    init_agents-registers system (field "probe-1" (obj (field "type" (str "probe") end)) end) engine
      "probe-1" refl (λ spec w. (λ topics. member, w, refl))
      (
        refl,
        record {
          class = some probe;
          targets = end;
          topics = [];
          has_class = refl;
          has_targets = λ c e. refl;
          has_topics = refl;
        },
        tt,
      )

-- the connection of the transport is refused
stop-failed_start_example :
    ((start system no_topics engine).1.started ≡ false)
    × (stop (start system no_topics engine).1 ≡ (start system no_topics engine).1)
unfolding start Config.get
stop-failed_start_example = stop-failed_start system no_topics engine (raised "refused") refl refl

abbrev lower : String → String
lower s = if s == "TRANSPORT_REDIS_URL" then "transport_redis_url" else s

-- with an entry of its own for the variable's value
abbrev overridden : Fields
overridden =
    field "transport"
      (obj (
        field "backend" (str "in-memory") (
          field "redis_url" (str "redis://h")
            (field "redis" (obj (field "url" (str "redis://other") end)) end))))
      (field "plugins"
        (obj (
          field "strict"
            (obj (field "class" (str "checks.Strict") (field "topic_bind" (arr nil) end))) end))
        (field "agents" (obj (field "probe-1" (obj (field "type" (str "probe") end)) end)) end))

abbrev parts_of : Option String → List String
parts_of none = []
parts_of (some name) = split (lower name)

get-env_override_example :
    (config' : Fields) × (obj overridden ≡ obj config')
    × (Config.get ("transport" ∷ "redis_url" ∷ []) null config'
        ≡ Config.get ("transport" ∷ "redis_url" ∷ []) null settings)
unfolding env_override after_prefix has_underscore split
get-env_override_example =
    get-env_override ascii lower "AQAP_" "transport" "redis_url"
      (("AQAP_TRANSPORT_REDIS_URL", "redis://other") ∷ []) null (obj overridden) settings refl
      (
        λ name e same.
            let parts : "transport" ∷ "redis" ∷ "url" ∷ [] ≡ split (lower name) = ap parts_of e in
            cc,
        tt,
      )
      refl
