-- ===== src/Engine/Steady.antt =====
-- What the steps before the start of the agents leave alone: `start` of aqap/core/engine.py.
use aqap.Prelude.{
  String, Bool, true, false, ◌&&◌, Option, none, some, List, [], ◌∷◌, if◌then◌else◌, Result, Exec,
  return, ◌>>=◌, Keeps, Keeps-then, Keeps-lift, ◌≡◌, refl, ap, Result-cases, inl, inr, ok, err,
  resume,
}
use aqap.Value.{
  Value, Fields, end, field, obj, truthy, get_field_or, null, bool, arr, nil, iterated, str,
}
use aqap.Security.{PayloadCipher}
use aqap.Engine.{EngineState, System, Backend, AgentClass, on_world, setting, as_dict}
use aqap.Plugin.Registry.{Plugin, Registry}
use aqap.Agent.Supervisor.{Member}
use aqap.Engine.Agents.{
  class_of, make_agent, register, create_agent, create_known, init_agent, init_agents,
}
use aqap.Engine.Agents as Agents
use aqap.Engine.Plugins.{load_class, register_by, try_register, init_plugin, init_plugins}
use aqap.Engine.Plugins as Plugins
use aqap.Engine.Starting.{
  start, start_agents, configure_logging, init_security, open_transport, init_transport,
  transport_class, made_cipher, set_cipher, make_transport, set_transport, prepare,
}

module _ {T B W : Type 0} where
  -- the flag `_started` and the registry of plugins
  abbrev pub parts : EngineState T B W → Bool × Registry W
  parts s = (s.started, s.registry)

  abbrev KeepsParts : {A : Type 0} → Exec (EngineState T B W) A → Type 0
  KeepsParts m = Keeps parts m

  on_world-Keeps : {A : Type 0} (f : W → Result A × W) → KeepsParts (on_world f)
  on_world-Keeps f = record { kept = λ s. refl }

  as_dict-Keeps : (v : Value) → KeepsParts (as_dict v)
  as_dict-Keeps (obj fs) = record { kept = λ s. refl }
  as_dict-Keeps _ = record { kept = λ s. refl }

  Keeps-if :
      {A : Type 0} (b : Bool) (m n : Exec (EngineState T B W) A)
      → KeepsParts m
      → KeepsParts n
      → KeepsParts (if b then m else n)
  Keeps-if true m n h k = h
  Keeps-if false m n h k = k

  configure_logging-Keeps : (y : System T B W) → KeepsParts (configure_logging y)
  unfolding configure_logging
  configure_logging-Keeps y = record { kept = λ s. refl }

  make_transport-Keeps : (y : System T B W) (b : Backend) → KeepsParts (make_transport y b)
  unfolding make_transport
  make_transport-Keeps y b = record { kept = λ s. refl }

  set_transport-Keeps : (t : T) → KeepsParts {A = Unit {0}} (set_transport t)
  unfolding set_transport
  set_transport-Keeps t = record { kept = λ s. refl }

  set_cipher-Keeps : (cipher : PayloadCipher B) → KeepsParts {A = Unit {0}} (set_cipher cipher)
  unfolding set_cipher
  set_cipher-Keeps cipher = record { kept = λ s. refl }

  open_transport-Keeps : (y : System T B W) (o : Option Backend) → KeepsParts (open_transport y o)
  unfolding open_transport
  open_transport-Keeps y none = record { kept = λ s. refl }
  open_transport-Keeps y (some backend) =
      Keeps-then _ _ (make_transport-Keeps y backend) (λ transport.
        Keeps-then _ _ (set_transport-Keeps transport) (λ _. on_world-Keeps (y.connect transport)))

  init_transport-Keeps : (y : System T B W) → KeepsParts (init_transport y)
  unfolding init_transport
  init_transport-Keeps y = record {
    kept = λ s.
        (Keeps-then _ _
            (Keeps-lift (transport_class (setting ("transport" ∷ "backend" ∷ []) null s)))
            (λ o. open_transport-Keeps y o)).kept
          s;
  }

  init_security-Keeps : (y : System T B W) → KeepsParts (init_security y)
  unfolding init_security
  init_security-Keeps y = record {
    kept = λ s.
        (Keeps-then _ _ (as_dict-Keeps (setting ("security" ∷ []) (obj end) s)) (λ cfg.
            let secret = get_field_or "secret" null cfg in
            Keeps-if (truthy (get_field_or "enabled" null cfg)) _ _
              (Keeps-if (truthy secret) _ _
                (Keeps-then _ _ (Keeps-lift (made_cipher y secret)) (λ c. set_cipher-Keeps c))
                (record { kept = λ s. refl }))
              (set_cipher-Keeps _))).kept
          s;
  }

  load_class-Keeps : (y : System T B W) (path : Value) → KeepsParts (load_class y path)
  unfolding load_class
  load_class-Keeps y (str class_path) = record { kept = λ s. refl }
  load_class-Keeps y _ = record { kept = λ s. refl }

  register_by-Keeps :
      (plugin : Plugin W) (topics : List String)
      → KeepsParts (register_by "topic_bind" plugin topics)
  unfolding register_by
  register_by-Keeps plugin topics = record { kept = λ s. refl }

  try_register-Keeps :
      (y : System T B W) (topics_of : Value → List String) (cfg : Fields) (path : Value)
      → KeepsParts (try_register y topics_of cfg path)
  unfolding try_register
  try_register-Keeps y topics_of cfg path = record {
    kept = λ s.
        (Keeps-then _ _ (load_class-Keeps y path) (λ plugin.
            register_by-Keeps plugin (topics_of (get_field_or "topic_bind" (arr nil) cfg)))).kept
          s;
  }

  init_plugin-Keeps :
      (y : System T B W) (topics_of : Value → List String) (v : Value)
      → KeepsParts (init_plugin y topics_of v)
  unfolding init_plugin
  init_plugin-Keeps y topics_of v = Keeps-then _ _ (as_dict-Keeps v) (λ cfg.
      let path = get_field_or "class" null cfg in
      Keeps-if (truthy (get_field_or "enabled" (bool true) cfg) && truthy path)
        (try_register y topics_of cfg path) (return tt) (try_register-Keeps y topics_of cfg path)
        (record { kept = λ s. refl }))

  plugins-Keeps :
      (y : System T B W) (topics_of : Value → List String) (configs : Fields)
      → KeepsParts (Plugins.init_each y topics_of configs)
  unfolding Plugins.init_each
  plugins-Keeps y topics_of end = record { kept = λ s. refl }
  plugins-Keeps y topics_of (field name cfg rest) =
      Keeps-then _ _ (init_plugin-Keeps y topics_of cfg) (λ _. plugins-Keeps y topics_of rest)

  init_plugins-Keeps :
      (y : System T B W) (topics_of : Value → List String) → KeepsParts (init_plugins y topics_of)
  unfolding init_plugins
  init_plugins-Keeps y topics_of = record {
    kept = λ s.
        (let configs = setting ("plugins" ∷ []) (obj end) s in
            Keeps-if (truthy configs) (as_dict configs >>= Plugins.init_each y topics_of)
              (return tt) (Keeps-then _ _ (as_dict-Keeps configs) (plugins-Keeps y topics_of))
              (record { kept = λ s. refl })).kept
          s;
  }

  make_agent-Keeps :
      (y : System T B W) (c : AgentClass) (agent_id : String) (cfg targets : Fields)
      → KeepsParts (make_agent y c agent_id cfg targets)
  unfolding make_agent
  make_agent-Keeps y c agent_id cfg targets = record { kept = λ s. refl }

  register-Keeps :
      (agent_id : String) (m : Member W) → KeepsParts {A = Unit {0}} (register agent_id m)
  unfolding register
  register-Keeps agent_id m = record { kept = λ s. refl }

  create_agent-Keeps :
      (y : System T B W) (c : AgentClass) (agent_id : String) (cfg : Fields)
      → KeepsParts (create_agent y c agent_id cfg)
  unfolding create_agent
  create_agent-Keeps y c agent_id cfg = Keeps-then _ _ (Keeps-lift _) (λ targets.
      Keeps-then _ _ (make_agent-Keeps y c agent_id cfg targets) (λ agent.
        Keeps-then _ _ (Keeps-lift (iterated _))
          (λ topics. register-Keeps agent_id (agent topics))))

  create_known-Keeps :
      (y : System T B W) (agent_id : String) (cfg : Fields) (class : Option AgentClass)
      → KeepsParts (create_known y agent_id cfg class)
  unfolding create_known
  create_known-Keeps y agent_id cfg none = record { kept = λ s. refl }
  create_known-Keeps y agent_id cfg (some c) = create_agent-Keeps y c agent_id cfg

  init_agent-Keeps :
      (y : System T B W) (agent_id : String) (v : Value) → KeepsParts (init_agent y agent_id v)
  unfolding init_agent
  init_agent-Keeps y agent_id v = Keeps-then _ _ (as_dict-Keeps v) (λ cfg.
      Keeps-then _ _ (Keeps-lift (class_of (get_field_or "type" (str "") cfg)))
        (create_known-Keeps y agent_id cfg))

  agents-Keeps : (y : System T B W) (configs : Fields) → KeepsParts (Agents.init_each y configs)
  unfolding Agents.init_each
  agents-Keeps y end = record { kept = λ s. refl }
  agents-Keeps y (field agent_id cfg rest) =
      Keeps-then _ _ (init_agent-Keeps y agent_id cfg) (λ _. agents-Keeps y rest)

  init_agents-Keeps : (y : System T B W) → KeepsParts (init_agents y)
  unfolding init_agents
  init_agents-Keeps y = record {
    kept = λ s.
        (let configs = setting ("agents" ∷ []) (obj end) s in
            Keeps-if (truthy configs) (as_dict configs >>= Agents.init_each y) (return tt)
              (Keeps-then _ _ (as_dict-Keeps configs) (agents-Keeps y))
              (record { kept = λ s. refl })).kept
          s;
  }

  pub prepare-Keeps :
      (y : System T B W) (topics_of : Value → List String) → KeepsParts (prepare y topics_of)
  unfolding prepare
  prepare-Keeps y topics_of = Keeps-then _ _ (configure_logging-Keeps y) (λ _.
      Keeps-then _ _ (init_security-Keeps y) (λ _.
        Keeps-then _ _ (init_transport-Keeps y)
          (λ _. Keeps-then _ _ (init_plugins-Keeps y topics_of) (λ _. init_agents-Keeps y))))

  -- The whole of `start` leaves the registry alone, and sets the flag where it comes back.
  pub start-registry :
      (y : System T B W) (topics_of : Value → List String) (s : EngineState T B W)
      → (start y topics_of s).1.registry ≡ s.registry
  unfolding start start_agents ◌>>=◌
  start-registry y topics_of s =
      let same = ap (λ p. p.1) ((prepare-Keeps y topics_of).kept s) in
      elim (Result-cases (prepare y topics_of s).0) [
        | inl (_, fine) ↦ rw (fine, resume) same
        | inr (x, raised) ↦ rw (raised, resume) same
      ]

  pub start-started :
      (y : System T B W) (topics_of : Value → List String) (s : EngineState T B W)
      → (start y topics_of s).0 ≡ ok tt
      → (start y topics_of s).1.started ≡ true
  unfolding start start_agents ◌>>=◌
  start-started y topics_of s h = elim (Result-cases (prepare y topics_of s).0) [
    | inl (_, fine) ↦ rw (fine, resume) refl
    | inr (x, raised) ↦ let bad : err x ≡ ok tt = rw (raised, resume) at h in cc
  ]
