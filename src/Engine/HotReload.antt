-- ===== src/Engine/HotReload.antt =====
-- aqap/config_hotreload.py. `W` is the world: the file, and what the logging package keeps.
pub mod Watching
pub mod Refresh
use mathlib.Core.Path.{subst}
use aqap.Prelude.{
  ℕ, ◌<◌, lt→ltb, Result-cases, String, Bool, true, false, not, ◌&&◌, Option, none, some, List, [],
  ◌∷◌, ◌++◌, if◌then◌else◌, ltb, Dict, get, put, get-put, Result, ok, err, raised, attribute_error,
  Exec, return, throw, resume, ◌>>=◌, ◌>>◌, ◌==◌, eq_iff, ◌≡◌, refl, ap, ◌∙◌, arith, Bool-cases,
  Option-cases, inl, inr,
}
use aqap.Value.{
  Value, null, bool, obj, Fields, end, field, get_field, get_field_or, truthy, is_dict,
  get_field_or_lem,
}
use aqap.Config.Merge.{IsDistinct}

-- what reading the file gives: a document, an OSError, or an error of the YAML parser
pub data Reading : Type 0 where
  document : Value → Reading
  os_error yaml_error : Reading

-- the file in a round: its time of change where it exists, and what reading it then gives
pub record File : Type 0 where
  pub modified : Option ℕ
  pub reading : Reading

pub record Watcher (S : Type 0) : Type 0 where
  pub running : Bool
  pub last_mtime : ℕ
  pub target : S

module _ {S : Type 0} (callback : Value → Exec S (Unit {0})) where
  -- An exception of the callback is logged, one of the YAML parser is not caught.
  unfoldable reload : ℕ → Reading → Exec (Watcher S) (Unit {0})
  unfolding truthy
  reload mtime os_error s = (ok tt, s)
  reload mtime yaml_error s = (err (raised "YAMLError"), s)
  reload mtime (document new_cfg) s = (
    ok tt,
    record s {
      last_mtime = mtime;
      target = (if truthy new_cfg then (callback new_cfg s.target).1 else s.target);
    },
  )

  -- a round of `_watch_loop`, after its sleep
  unfoldable watch_round : File → Exec (Watcher S) (Unit {0})
  unfolding reload
  watch_round f s = elim f.modified [
    | none ↦ (ok tt, s)
    | some current_mtime ↦
        if ltb s.last_mtime current_mtime then reload current_mtime f.reading s else (ok tt, s)
  ]

  -- The loop for the rounds with these files; an exception ends it.
  unfoldable watch : List File → Exec (Watcher S) (Unit {0})
  unfolding watch_round ◌>>=◌
  watch [] = return tt
  watch (f ∷ fs) = do watch_round f; watch fs

  unfoldable pub start : Option ℕ → Watcher S → Watcher S
  start none s = s
  start (some mtime) s = record s { last_mtime = mtime; running = true }

  unfoldable pub stop : Watcher S → Watcher S
  stop s = record s { running = false }

-- What a reload works on: the heartbeat intervals of the registered agents, and the logging.
pub record Target (W : Type 0) : Type 0 where
  pub heartbeat_intervals : Dict Value
  pub world : W

-- `setup_logging(debug=..., config=...)`, and `==` on values
pub record Effects (W : Type 0) : Type 0 where
  pub setup_logging : Value → Value → W → Result (Unit {0}) × W
  pub same : Value → Value → Bool

module _ {W : Type 0} (y : Effects W) where
  -- data.get(...) of a value that should be a dict
  abbrev as_dict : {A : Type 0} → Value → (Fields → Exec (Target W) A) → Exec (Target W) A
  as_dict (obj fs) f = f fs
  as_dict _ f = throw attribute_error

  abbrev set_up : Value → Value → Exec (Target W) (Unit {0})
  set_up debug config s = (
    (y.setup_logging debug config s.world).0,
    record s { world = (y.setup_logging debug config s.world).1 },
  )

  unfoldable change_logging : Fields → Exec (Target W) (Unit {0})
  unfolding truthy get_field_or
  change_logging new_config =
      let logging_cfg = get_field_or "logging" (obj end) new_config in
      if truthy logging_cfg
      then as_dict (get_field_or "app" (obj end) new_config)
          (λ app. set_up (get_field_or "debug" (bool false) app) logging_cfg)
      else return tt

  -- The names of the plugins are looked up among the agents, and no class of agents has a method
  -- `initialize`: the loop does nothing.
  unfoldable change_plugins : Fields → Exec (Target W) (Unit {0})
  unfolding truthy get_field_or
  change_plugins new_config =
      let plugin_configs = get_field_or "plugins" (obj end) new_config in
      if truthy plugin_configs then as_dict plugin_configs (λ configs. return tt) else return tt

  unfoldable new_interval : Fields → Value → Value
  unfolding truthy get_field_or
  new_interval cfg old =
      let interval = get_field_or "heartbeat_interval" null cfg in
      if truthy interval && not (y.same interval old) then interval else old

  abbrev set_interval : String → Value → Exec (Target W) (Unit {0})
  set_interval agent_id v s =
      (ok tt, record s { heartbeat_intervals = put agent_id v s.heartbeat_intervals })

  unfoldable change_agent : String → Value → Exec (Target W) (Unit {0})
  unfolding new_interval
  change_agent agent_id value s = elim (get agent_id s.heartbeat_intervals) [
    | none ↦ (ok tt, s)
    | some old ↦ as_dict value (λ cfg. set_interval agent_id (new_interval cfg old)) s
  ]

  unfoldable change_agents : Fields → Exec (Target W) (Unit {0})
  unfolding change_agent ◌>>=◌
  change_agents end = return tt
  change_agents (field agent_id cfg rest) = do change_agent agent_id cfg; change_agents rest

  unfoldable on_config_changed : Value → Exec (Target W) (Unit {0})
  unfolding change_logging change_plugins change_agents ◌>>=◌
  on_config_changed value = as_dict value (λ new_config. (do
    change_logging new_config
    change_plugins new_config
    as_dict (get_field_or "agents" (obj end) new_config) change_agents))
