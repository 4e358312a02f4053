-- ===== src/Plugin/Registry.antt =====
-- aqap/plugin/base.py and aqap/plugin/registry.py. `W` is the state that plugins act on: their own
-- fields, files, the clock.
pub mod Execute
pub mod Lookup
use aqap.Prelude.{
  ℕ, ◌+◌, String, Bool, true, false, Option, none, some, List, [], ◌∷◌, ◌++◌, if◌then◌else◌, Dict,
  get, get_or, has, put, remove, ◌==◌, Result, ok, err, Exc, length,
}
use aqap.Value.{Value, null, str, obj, Fields, end, field, Items, nil, cons}

-- the interface that a plugin implements
pub record Plugin (W : Type 0) : Type 0 where
  pub name : String
  pub version : String
  pub initialize : Fields → W → Result (Unit {0}) × W
  pub execute : Fields → W → Result Fields × W
  pub cleanup : W → Result (Unit {0}) × W

pub record Registry (W : Type 0) : Type 0 where
  pub plugins : Dict (Plugin W)
  pub topic_mapping : Dict (List String)

-- {"plugin": ..., "result": ..., "error": ...}
pub record PluginResult : Type 0 where
  pub plugin : String
  pub result : Option Fields
  pub error : Option String

abbrev pub names_of : Option (List String) → List String
names_of none = []
names_of (some names) = names

-- names.remove(name): the first occurrence
unfoldable remove_first : String → List String → List String
remove_first name [] = []
remove_first name (n ∷ names) = if n == name then names else n ∷ remove_first name names

-- `for topic in topics: mapping.setdefault(topic, []).append(name)`
unfoldable pub bind_topics : String → List String → Dict (List String) → Dict (List String)
bind_topics name [] mapping = mapping
bind_topics name (topic ∷ topics) mapping =
    bind_topics name topics (put topic (names_of (get topic mapping) ++ name ∷ []) mapping)

abbrev or_drop : String → List String → Dict (List String) → Dict (List String)
or_drop topic [] rest = rest
or_drop topic (n ∷ names) rest = (topic, n ∷ names) ∷ rest

-- the loop of `unregister` over the mapping; a topic without plugins is deleted
unfoldable unbind : String → Dict (List String) → Dict (List String)
unbind name [] = []
unbind name ((topic, names) ∷ rest) = or_drop topic (remove_first name names) (unbind name rest)

abbrev pub to_result : (Exc → String) → String → Result Fields → PluginResult
to_result text name (ok fields) = record { plugin = name; result = some fields; error = none }
to_result text name (err e) = record { plugin = name; result = none; error = some (text e) }

pub keys : Dict (List String) → List String
keys [] = []
keys ((topic, names) ∷ rest) = topic ∷ keys rest

module _ {W : Type 0} where
  -- `topics` is None or a list: both [] and None bind nothing
  unfoldable pub register : Plugin W → List String → Registry W → Registry W
  unfolding bind_topics
  register p topics r = record {
    plugins = put p.name p r.plugins;
    topic_mapping = bind_topics p.name topics r.topic_mapping;
  }

  unfoldable pub unregister : String → Registry W → Registry W × Bool
  unfolding unbind remove_first
  unregister name r =
      if has name r.plugins
      then (
        record { plugins = remove name r.plugins; topic_mapping = unbind name r.topic_mapping },
        true,
      )
      else (r, false)

  unfoldable pub get_plugin : String → Registry W → Option (Plugin W)
  get_plugin name r = get name r.plugins

  -- registry.list(), with each name the version
  unfoldable versions : Dict (Plugin W) → Dict String
  versions [] = []
  versions ((name, p) ∷ rest) = (name, p.version) ∷ versions rest

  -- [plugins[n] for n in names if n in plugins]
  unfoldable pub select : List String → Dict (Plugin W) → List (Plugin W)
  select [] plugins = []
  select (n ∷ names) plugins = elim (get n plugins) [
    | none ↦ select names plugins
    | some p ↦ p ∷ select names plugins
  ]

  unfoldable pub get_for_topic : String → Registry W → List (Plugin W)
  unfolding select
  get_for_topic topic r = select (names_of (get topic r.topic_mapping)) r.plugins

  unfoldable pub topics : Registry W → List String
  unfolding keys
  topics r = keys r.topic_mapping

  -- The loop of `execute_all`. An exception ends only the plugin that raised it; `text` is `str`.
  unfoldable pub execute_each :
      (Exc → String) → List (Plugin W) → Fields → W → List PluginResult × W
  execute_each text [] context w = ([], w)
  execute_each text (p ∷ ps) context w =
      let (r, w') = p.execute context w in
      let (rs, w'') = execute_each text ps context w' in (to_result text p.name r ∷ rs, w'')

  unfoldable pub execute_all :
      (Exc → String) → String → Fields → Registry W → W → List PluginResult × W
  unfolding execute_each
  execute_all text topic context r w = execute_each text (get_for_topic topic r) context w

  -- An exception ends the whole loop; `configs` holds a dict for each plugin.
  unfoldable initialize_all : Dict (Plugin W) → Dict Fields → W → Result (Unit {0}) × W
  initialize_all [] configs w = (ok tt, w)
  initialize_all ((name, p) ∷ rest) configs w =
      let later = λ (w' : W). initialize_all rest configs w' in
      let (r, w') = p.initialize (get_or name end configs) w in
      elim r [ ok _ ↦ later w' | err e ↦ (err e, w') ]

  unfoldable cleanup_all : Dict (Plugin W) → W → Result (Unit {0}) × W
  cleanup_all [] w = (ok tt, w)
  cleanup_all ((name, p) ∷ rest) w =
      let later = λ (w' : W). cleanup_all rest w' in
      let (r, w') = p.cleanup w in elim r [ ok _ ↦ later w' | err e ↦ (err e, w') ]

  unfoldable pub count : Registry W → ℕ
  count r = length r.plugins
