-- ===== src/Engine/Plugins.antt =====
-- `_init_plugins` of aqap/core/engine.py. A plugin's constructor and the import of its module change
-- the world.
use aqap.Prelude.{
  String, true, ◌&&◌, List, [], ◌∷◌, if◌then◌else◌, Result, ok, err, type_error, attribute_error,
  Exec, resume, return, ◌>>=◌, ◌>>◌, Keeps, Keeps-then, ◌∙◌, ◌≡◌, refl, Bool-cases, inl, inr,
}
use aqap.Value.{
  Value, null, bool, str, obj, Fields, end, field, get_field_or, truthy, is_dict, arr, nil,
}
use aqap.Plugin.Registry.{Plugin, register}
use aqap.Engine.{EngineState, System, on_world, setting, as_dict}
use aqap.Engine.Agents.{among}

-- the names of the parameters of PluginRegistry.register
abbrev register_parameters : List String
register_parameters = "plugin" ∷ "topics" ∷ []

-- each entry has a dict
abbrev pub AllDicts : Fields → Type 0
AllDicts end = Unit
AllDicts (field name cfg rest) = (is_dict cfg ≡ true) × AllDicts rest

module _ {T B W : Type 0} where
  -- registry.register(plugin, **{keyword: topics}); the list of topics holds texts here
  unfoldable pub register_by : String → Plugin W → List String → Exec (EngineState T B W) (Unit {0})
  unfolding register
  register_by keyword plugin topics s =
      if among keyword register_parameters
      then (ok tt, record s { registry = register plugin topics s.registry })
      else (err type_error, s)

  -- the class path is split by a method of texts
  unfoldable pub load_class : System T B W → Value → Exec (EngineState T B W) (Plugin W)
  load_class y (str class_path) s = on_world (y.load_plugin class_path) s
  load_class y _ s = (err attribute_error, s)

  -- the `try`: every exception is logged
  unfoldable pub try_register :
      System T B W → (Value → List String) → Fields → Value → Exec (EngineState T B W) (Unit {0})
  unfolding load_class register_by get_field_or ◌>>=◌
  try_register y topics_of cfg class_path s = (
    ok tt,
    ((do
      plugin ← load_class y class_path
      register_by "topic_bind" plugin (topics_of (get_field_or "topic_bind" (arr nil) cfg)))
        s).1,
  )

  unfoldable pub init_plugin :
      System T B W → (Value → List String) → Value → Exec (EngineState T B W) (Unit {0})
  unfolding try_register truthy ◌>>=◌
  init_plugin y topics_of value = as_dict value >>= λ cfg.
      let class_path = get_field_or "class" null cfg in
      if truthy (get_field_or "enabled" (bool true) cfg) && truthy class_path
      then try_register y topics_of cfg class_path
      else return tt

  unfoldable pub init_each :
      System T B W → (Value → List String) → Fields → Exec (EngineState T B W) (Unit {0})
  unfolding init_plugin ◌>>=◌
  init_each y topics_of end = return tt
  init_each y topics_of (field name cfg rest) = do
    init_plugin y topics_of cfg
    init_each y topics_of rest

  unfoldable pub init_plugins :
      System T B W → (Value → List String) → Exec (EngineState T B W) (Unit {0})
  unfolding init_each truthy ◌>>=◌
  init_plugins y topics_of s =
      let plugin_configs = setting ("plugins" ∷ []) (obj end) s in
      (if truthy plugin_configs
          then as_dict plugin_configs >>= init_each y topics_of
          else return tt)
        s

  -- A computation that leaves the registry of plugins alone.
  abbrev KeepsRegistry : {A : Type 0} → Exec (EngineState T B W) A → Type 0
  KeepsRegistry m = Keeps (λ (s : EngineState T B W). s.registry) m

  load_class-Keeps : (y : System T B W) (path : Value) → KeepsRegistry (load_class y path)
  unfolding load_class
  load_class-Keeps y (str class_path) = record { kept = λ s. refl }
  load_class-Keeps y _ = record { kept = λ s. refl }

  -- `topic_bind` is no parameter of `register`
  register_by-Keeps :
      (plugin : Plugin W) (topics : List String)
      → KeepsRegistry (register_by "topic_bind" plugin topics)
  unfolding register_by
  register_by-Keeps plugin topics = record { kept = λ s. refl }

  try_register-registry :
      (y : System T B W) (topics_of : Value → List String) (cfg : Fields) (class_path : Value)
      (s : EngineState T B W)
      → (try_register y topics_of cfg class_path s).1.registry ≡ s.registry
  unfolding try_register
  try_register-registry y topics_of cfg class_path s =
      (Keeps-then _ _ (load_class-Keeps y class_path) (λ plugin.
          register_by-Keeps plugin (topics_of (get_field_or "topic_bind" (arr nil) cfg)))).kept
        s

  -- what a state that `init_plugins` returns has to do with the one it got
  abbrev Idle : EngineState T B W → Result (Unit {0}) × EngineState T B W → Type 0
  Idle s r = (r.0 ≡ ok tt) × (r.1.registry ≡ s.registry)

  init_plugin-Idle :
      (y : System T B W) (topics_of : Value → List String) (cfg : Fields) (s : EngineState T B W)
      → Idle s (init_plugin y topics_of (obj cfg) s)
  unfolding init_plugin ◌>>=◌ try_register
  init_plugin-Idle y topics_of cfg s =
      elim (Bool-cases (
        truthy (get_field_or "enabled" (bool true) cfg)
        && truthy (get_field_or "class" null cfg))) [
          | inl wanted ↦
              rw wanted
                (refl, try_register-registry y topics_of cfg (get_field_or "class" null cfg) s)
          | inr skipped ↦ rw skipped (refl, refl)
        ]

  init_each-Idle :
      (y : System T B W) (topics_of : Value → List String) (configs : Fields)
      (s : EngineState T B W)
      → AllDicts configs
      → Idle s (init_each y topics_of configs s)
  unfolding init_each ◌>>=◌
  init_each-Idle y topics_of end s h = (refl, refl)
  init_each-Idle y topics_of (field name (obj cfg) rest) s (_, h) =
      let (fine, same) = init_plugin-Idle y topics_of cfg s in
      let (fine', same') =
        init_each-Idle y topics_of rest (init_plugin y topics_of (obj cfg) s).1 h in
      rw (fine, resume) (fine', same' ∙ same)
  init_each-Idle y topics_of (field name _ rest) s (e, h) = cc

  -- Whatever plugins the configuration names, if each has a dict of settings: the engine comes back
  -- from registering them without an exception, and the registry is what it was before.
  init_plugins-registers_none :
      (y : System T B W) (topics_of : Value → List String) (configs : Fields)
      (s : EngineState T B W)
      → setting ("plugins" ∷ []) (obj end) s ≡ obj configs
      → AllDicts configs
      → ((init_plugins y topics_of s).0 ≡ ok tt)
        × ((init_plugins y topics_of s).1.registry ≡ s.registry)
  unfolding init_plugins ◌>>=◌ truthy
  init_plugins-registers_none y topics_of end s found h = rw found (refl, refl)
  init_plugins-registers_none y topics_of (field name cfg rest) s found h =
      rw found (init_each-Idle y topics_of (field name cfg rest) s h)
