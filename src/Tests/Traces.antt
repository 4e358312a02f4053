-- ===== src/Tests/Traces.antt =====
-- The trace collector and the scorer at concrete inputs.
use aqap.Prelude.{ℕ, String, none, some, [], ◌∷◌, ok, err, raised, arith}
use aqap.Value.{Float}
use aqap.Plugin.Registry.{Plugin, Registry}
use aqap.Plugin.TraceCollector.{Context, Settings, System, default_settings, initialize}
use aqap.Plugin.TraceCollector.Bounds.{executes, cleans, IsBounded, run, run-IsBounded}

abbrev float_of : ℕ → Float
float_of n = record { bits = n }

abbrev timed : String → Context
timed trace_id = record {
  start_time = some (float_of 1);
  trace_id = some trace_id;
  message_type = none;
  source = some "sender-1";
}

abbrev clockwork : System ℕ
clockwork = record {
  elapsed_ms = λ start w. (start, w);
  now = λ w. ("2024-01-01T00:00:00", w);
  write = λ dir records w. (ok tt, w);
}

-- two traces at most, and a report after each three records
abbrev small : Settings
small = record default_settings { report_interval = 3; max_traces = 2 }

run-IsBounded_example : IsBounded small (
    run small clockwork
      (executes (timed "trace-1") ∷ executes (timed "trace-2") ∷ cleans ∷ [])
      (initialize 0))
run-IsBounded_example =
    run-IsBounded small clockwork
      (executes (timed "trace-1") ∷ executes (timed "trace-2") ∷ cleans ∷ []) 0 (omega arith)

abbrev failing_plugin : Plugin ℕ
failing_plugin = record {
  name = "strict";
  version = "1.0";
  initialize = λ config w. (ok tt, w);
  execute = λ context w. (err (raised "strict"), w);
  cleanup = λ w. (ok tt, w);
}

abbrev plugins : Registry ℕ
plugins = record {
  plugins = ("strict", failing_plugin) ∷ [];
  topic_mapping = ("probe", "strict" ∷ []) ∷ [];
}
