-- ===== src/Tests/Logs.antt =====
-- The logging and the default configuration at concrete inputs.
use aqap.Prelude.{true, false, Option, none, some, List, [], ◌∷◌, ok, Result, Bool, ◌≡◌, refl}
use aqap.Value.{null, str, int, pos, Fields, get_field, obj, end, field}
use aqap.Config.{defaults}
use aqap.Config
use aqap.Logging.{console, default_logging, configuration, Setup, setup_logging}
use aqap.Logging.Sticky.{IsVerbose, calls, debug_stays}

-- the section that the engine hands over when no file changes it
abbrev section : Fields
section =
    field "level" (str "DEBUG") (field "format" (str "detailed") (field "loggers" (obj end) end))

section_test : get_field "logging" defaults ≡ some (obj section)
unfolding get_field
section_test = refl

backend_test : Config.get ("transport" ∷ "backend" ∷ []) null defaults ≡ str "redis-streams"
unfolding Config.get
backend_test = refl

timeout_test : Config.get ("supervisor" ∷ "heartbeat_timeout" ∷ []) null defaults ≡ int (pos 90)
unfolding Config.get
timeout_test = refl

abbrev accepting : Fields → Unit {0} → Result (Unit {0}) × Unit {0}
accepting cfg w = (ok tt, w)

abbrev fresh_process : Setup (Unit {0})
fresh_process = record { default = default_logging; world = tt }

abbrev quiet_calls : List (Bool × Option Fields)
quiet_calls = (false, some section) ∷ (false, none) ∷ []

debug_stays_example :
    IsVerbose
      (configuration false
        (some section)
        (calls accepting quiet_calls
          (setup_logging accepting true (some section) fresh_process).1).default).1
unfolding configuration get_field
debug_stays_example =
    debug_stays accepting (some section) (some section) quiet_calls false fresh_process
      (field "level" (str "INFO") (field "handlers" console end)) refl refl refl (refl, (refl, tt))
      refl
