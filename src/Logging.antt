-- ===== src/Logging.antt =====
-- aqap/core/log_config.py: the configuration that setup_logging hands to the logging package, and
-- what it leaves in DEFAULT_LOGGING_CONFIG, whose dicts the copy shares.
pub mod Sticky
use Prim.Native.String
use aqap.Prelude.{
  String, Bool, true, false, ◌&&◌, ◌||◌, Option, none, some, List, [], ◌∷◌, if◌then◌else◌, Result,
  ok, err, type_error, bind, Exec, return, ◌>>=◌, ◌>>◌, ◌==◌,
}
use aqap.Value.{
  Value, null, bool, int, float, pos, str, arr, obj, Fields, end, field, Items, nil, cons, is_dict,
  get_field, get_field_or, put_field,
}
use aqap.Config.Environment.{after_prefix}

abbrev time_format : Value
time_format = str "%Y-%m-%d %H:%M:%S"

abbrev formatters : Fields
formatters =
    field "standard"
      (obj (
        field "format" (str "%(asctime)s [%(levelname)s] %(name)s: %(message)s")
          (field "datefmt" time_format end)))
      (field "detailed"
        (obj (
          field "format"
            (str
              "%(asctime)s.%(msecs)03d [%(levelname)-5s] %(name)s (%(filename)s:%(lineno)d): %(message)s")
            (field "datefmt" time_format end)))
        end)

abbrev pub console : Value
console = arr (cons (str "console") nil)

-- DEFAULT_LOGGING_CONFIG
abbrev pub default_logging : Fields
default_logging = field "version" (int (pos 1)) (
    field "disable_existing_loggers" (bool false) (
      field "formatters" (obj formatters) (
        field "handlers"
          (obj (
            field "console"
              (obj (
                field "class" (str "logging.StreamHandler") (
                  field "level" (str "DEBUG") (
                    field "formatter" (str "detailed")
                      (field "stream" (str "ext://sys.stderr") end)))))
              end))
          (field "root" (obj (field "level" (str "INFO") (field "handlers" console end))) (
            field "loggers"
              (obj (
                field "aqap"
                  (obj (
                    field "level" (str "DEBUG")
                      (field "handlers" console (field "propagate" (bool false) end))))
                  end))
              end)))))

-- `_deep_merge`, and the value that a key has after its turn
unfoldable mutual
  unfolding get_field put_field

  pub deep_merge : Fields → Fields → Fields
  deep_merge base end = base
  deep_merge base (field key value rest) =
      deep_merge (put_field key (overridden (get_field key base) value) base) rest

  pub overridden : Option Value → Value → Value
  overridden (some (obj base)) (obj override) = obj (deep_merge base override)
  overridden _ value = value

-- v["level"] = "DEBUG"
unfoldable pub set_level : Value → Result Value
unfolding put_field
set_level (obj fs) = ok (obj (put_field "level" (str "DEBUG") fs))
set_level _ = err type_error

abbrev names_aqap : Items → Bool
names_aqap nil = false
names_aqap (cons (str s) vs) = s == "aqap" || names_aqap vs
names_aqap (cons v vs) = names_aqap vs

-- "aqap" in s
unfoldable contains_aqap : String → Bool
unfolding after_prefix
contains_aqap String.[] = false
contains_aqap (String.◌∷◌ c s) =
    let later = contains_aqap s in
    elim (after_prefix "aqap" (String.◌∷◌ c s)) [ some rest ↦ true | none ↦ later ]

-- what becomes of cfg["loggers"]
unfoldable pub set_aqap : Value → Result Value
unfolding set_level contains_aqap get_field put_field
set_aqap (obj fs) = elim (get_field "aqap" fs) [
  | none ↦ ok (obj fs)
  | some v ↦ bind (set_level v) (λ v'. ok (obj (put_field "aqap" v' fs)))
]
set_aqap (arr vs) = if names_aqap vs then err type_error else ok (arr vs)
set_aqap (str s) = if contains_aqap s then err type_error else ok (str s)
set_aqap _ = err type_error

-- a change of the entry of a key, if there is one
unfoldable pub change_at : String → (Value → Result Value) → Exec Fields (Unit {0})
unfolding get_field put_field
change_at key f cfg = elim (get_field key cfg) [
  | none ↦ (ok tt, cfg)
  | some v ↦ elim (f v) [ ok v' ↦ (ok tt, put_field key v' cfg) | err e ↦ (err e, cfg) ]
]

-- `if debug`
unfoldable pub lower_levels : Bool → Exec Fields (Unit {0})
unfolding change_at set_aqap set_level ◌>>=◌
lower_levels false = return tt
lower_levels true = do change_at "loggers" set_aqap; change_at "root" set_level

-- `if config`: an empty dict changes nothing either
abbrev pub merged_with : Option Fields → Fields → Fields
merged_with none default = default
merged_with (some config) default = deep_merge default config

-- The dict that is handed to dictConfig, if nothing raised.
unfoldable pub configuration : Bool → Option Fields → Fields → Result (Unit {0}) × Fields
unfolding lower_levels deep_merge
configuration debug config default = lower_levels debug (merged_with config default)

-- what `config` has at a key
abbrev override_at : String → Option Fields → Option Value
override_at key none = none
override_at key (some config) = get_field key config

-- an entry of the copy that is the default's own dict: it was no dict, or it was replaced, otherwise
abbrev pub is_shared : Value → Option Value → Bool
is_shared value none = is_dict value
is_shared value (some override) = is_dict value && is_dict override

-- DEFAULT_LOGGING_CONFIG after a call that has made `cfg`
unfoldable pub left : Option Fields → Fields → Fields → Fields
unfolding get_field get_field_or
left config cfg end = end
left config cfg (field key value rest) =
    field key
      (if is_shared value (override_at key config) then get_field_or key value cfg else value)
      (left config cfg rest)

-- What setup_logging works on: DEFAULT_LOGGING_CONFIG, and the world of the logging package.
pub record Setup (W : Type 0) : Type 0 where
  pub default : Fields
  pub world : W

-- `dict_config` is logging.config.dictConfig
unfoldable pub setup_logging :
    {W : Type 0}
    → (Fields → W → Result (Unit {0}) × W)
    → Bool
    → Option Fields
    → Exec (Setup W) (Unit {0})
unfolding configuration left
setup_logging dict_config debug config s =
    let (r, cfg) = configuration debug config s.default in
    let t = record s { default = left config cfg s.default } in
    elim r [
      | err e ↦ (err e, t)
      | ok done ↦ let (r', w) = dict_config cfg s.world in (r', record t { world = w })
    ]
