-- ===== src/Config.antt =====
-- `AQAPConfig` of aqap/core/config.py, but for the overrides from the environment. What YAML reads
-- from the file is a parameter; its document is a dict here.
pub mod Merge
pub mod Leak
pub mod Environment
pub mod Overrides
pub mod Spared
use aqap.Prelude.{false, String, Option, none, some, List, [], ◌∷◌}
use aqap.Value.{
  Value, null, bool, int, float, pos, str, arr, obj, Fields, end, field, get_field, put_field,
}

-- DEFAULTS
abbrev pub defaults : Fields
defaults =
    field "app"
      (obj (
        field "name" (str "Agent Quality Assurance")
          (field "version" (str "1.0.0") (field "debug" (bool false) end))))
      (field "logging"
        (obj (
          field "level" (str "DEBUG")
            (field "format" (str "detailed") (field "loggers" (obj end) end))))
        (field "transport"
          (obj (
            field "backend" (str "redis-streams") (
              field "redis_url" (str "redis://127.0.0.1:6379")
                (field "kafka_servers" (str "127.0.0.1:9092") end))))
          (field "security" (obj (field "enabled" (bool false) (field "secret" (str "") end))) (
            field "agents" (obj end) (
              field "plugins" (obj end)
                (field "supervisor" (obj (field "heartbeat_timeout" (int (pos 90)) end)) end))))))

-- `_merge`, and the value that a key has after its turn
unfoldable mutual
  unfolding get_field put_field

  pub merge : Fields → Fields → Fields
  merge base end = base
  merge base (field key value rest) =
      merge (put_field key (merged (get_field key base) value) base) rest

  pub merged : Option Value → Value → Value
  merged (some (obj base)) (obj overlay) = obj (merge base overlay)
  merged _ value = value

abbrev kept : Value → Option Value → Value
kept (obj base) (some (obj overlay)) = obj (merge base overlay)
kept value _ = value

-- What `_merge` leaves in DEFAULTS: `dict(self.DEFAULTS)` copies the entries, and its dicts are those
-- of DEFAULTS, which `_merge` changes.
unfoldable pub shared : Fields → Fields → Fields
unfolding get_field merge
shared end user = end
shared (field key value rest) user = field key (kept value (get_field key user)) (shared rest user)

-- What `_load` does before the overrides from the environment: the configuration, and DEFAULTS after
-- it.
unfoldable pub merge_file : Option Fields → Fields → Fields × Fields
unfolding shared
merge_file none defaults = (defaults, defaults)
merge_file (some user) defaults = (merge defaults user, shared defaults user)

-- the loop of `get`; `none` is its return of the default
unfoldable pub get_path : List String → Value → Option Value
unfolding get_field
get_path [] target = some target
get_path (k ∷ ks) target = elim target [
  | null ↦ none
  | bool b ↦ none
  | int n ↦ none
  | float x ↦ none
  | str s ↦ none
  | arr vs ↦ none
  | obj fs ↦ elim (get_field k fs) [ none ↦ get_path ks null | some v ↦ get_path ks v ]
]

-- `target if target is not None else default`
abbrev pub or_default : Value → Option Value → Value
or_default default none = default
or_default default (some null) = default
or_default default (some v) = v

unfoldable pub get : List String → Value → Fields → Value
unfolding get_path
get keys default config = or_default default (get_path keys (obj config))
