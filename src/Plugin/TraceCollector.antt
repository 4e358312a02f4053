-- ===== src/Plugin/TraceCollector.antt =====
-- aqap/plugins/trace_collector.py. Of the context it reads what `run_plugins` of aqap/agent/base.py
-- writes: a time and texts. `W` is the world that the clock and the exported files are in.
pub mod Eviction
pub mod Bounds
pub mod Queries
use Prim.Native.Nat.{Ordering}
use Prim.Native.String.{compare}
use mathlib.Core.List.{reverse}
use aqap.Prelude.{
  ℕ, ◌-◌, ◌/◌, String, Bool, true, false, ◌&&◌, not, Option, none, some, List, [], ◌∷◌, ◌++◌,
  if◌then◌else◌, leb, ltb, length, take, drop, Dict, get_or, put, remove, ◌==◌, Result, Exec,
}
use aqap.Value.{Float, float, truthy}

pub record TraceRecord : Type 0 where
  pub trace_id : String
  pub type : String
  pub source : String
  pub elapsed_ms : Float
  pub timestamp : String

-- the entries "_aqap_..." of a context
pub record Context : Type 0 where
  pub start_time : Option Float
  pub trace_id : Option String
  pub message_type : Option String
  pub source : Option String

pub record Settings : Type 0 where
  pub report_interval : ℕ
  pub max_events_per_trace : ℕ
  pub max_traces : ℕ
  pub export_dir : String
  pub export_enabled : Bool

-- The clock and the file system: `elapsed_ms` is `round((time.time() - start) * 1000, 2)`, `now` the
-- time stamp, `write` the body of the `try` in `_export_to_file`.
pub record System (W : Type 0) : Type 0 where
  pub elapsed_ms : Float → W → Float × W
  pub now : W → String × W
  pub write : String → List TraceRecord → Exec W (Unit {0})

pub record Collector (W : Type 0) : Type 0 where
  pub buffer : List TraceRecord
  pub trace_index : Dict (List TraceRecord)
  pub world : W

pub record Summary : Type 0 where
  pub buffer_size : ℕ
  pub traces_indexed : ℕ
  pub export_enabled : Bool
  pub export_dir : String

abbrev or_unknown : Option String → String
or_unknown none = "unknown"
or_unknown (some s) = s

-- the order of `sorted` on texts
abbrev precedes : String → String → Bool
precedes s t = elim (compare s t) [ Ordering.gt ↦ false | _ ↦ true ]

unfoldable pub insert : String → List String → List String
insert k [] = k ∷ []
insert k (j ∷ ks) = let rest = insert k ks in if precedes k j then k ∷ j ∷ ks else j ∷ rest

unfoldable pub sorted : List String → List String
unfolding insert
sorted [] = []
sorted (k ∷ ks) = insert k (sorted ks)

unfoldable pub keys_of : Dict (List TraceRecord) → List String
keys_of [] = []
keys_of ((k, v) ∷ d) = k ∷ keys_of d

-- for k in ks: del d[k]
unfoldable pub remove_all : List String → Dict (List TraceRecord) → Dict (List TraceRecord)
unfolding remove
remove_all [] d = d
remove_all (k ∷ ks) d = remove_all ks (remove k d)

-- the events of a trace, and the record where there is room for it
unfoldable pub add_event : Settings → TraceRecord → List TraceRecord → List TraceRecord
add_event c r events =
    if ltb (length events) c.max_events_per_trace then events ++ r ∷ [] else events

unfoldable pub index_record :
    Settings → TraceRecord → Dict (List TraceRecord) → Dict (List TraceRecord)
unfolding add_event put get_or
index_record c r index = put r.trace_id (add_event c r (get_or r.trace_id [] index)) index

-- a quarter of the traces goes, by the order of their identifiers
unfoldable pub limit_index : Settings → Dict (List TraceRecord) → Dict (List TraceRecord)
unfolding sorted keys_of remove_all
limit_index c index =
    let keys = sorted (keys_of index) in
    if ltb c.max_traces (length index)
    then remove_all (take (length keys / 4) keys) index
    else index

unfoldable pub new_record : Context → Float → String → TraceRecord
new_record context elapsed timestamp = record {
  trace_id = or_unknown context.trace_id;
  type = or_unknown context.message_type;
  source = or_unknown context.source;
  elapsed_ms = elapsed;
  timestamp = timestamp;
}

-- what `initialize` takes for the entries that a configuration does not have
abbrev pub default_settings : Settings
default_settings = record {
  report_interval = 60;
  max_events_per_trace = 1000;
  max_traces = 10000;
  export_dir = "";
  export_enabled = false;
}

module _ {W : Type 0} where
  unfoldable pub initialize : W → Collector W
  initialize w = record { buffer = []; trace_index = []; world = w }

  -- Every exception that writing raises is an OSError, and is only logged.
  unfoldable export_to_file : Settings → System W → List TraceRecord → W → W
  export_to_file c y records w =
      if c.export_dir == "" then w else (y.write c.export_dir records w).1

  unfoldable pub flush : Settings → System W → Collector W → Collector W
  unfolding export_to_file
  flush c y s = elim s.buffer [
    | [] ↦ s
    | r ∷ records ↦ record s {
      buffer = [];
      world =
          (if c.export_enabled && not (c.export_dir == "")
            then export_to_file c y (r ∷ records) s.world
            else s.world);
    }
  ]

  unfoldable pub add_record : Settings → TraceRecord → Collector W → Collector W
  unfolding index_record limit_index
  add_record c r s = record s {
    buffer = s.buffer ++ r ∷ [];
    trace_index = limit_index c (index_record c r s.trace_index);
  }

  unfoldable pub flush_if_due : Settings → System W → Collector W → Collector W
  unfolding flush
  flush_if_due c y s = if leb c.report_interval (length s.buffer) then flush c y s else s

  -- `none`: the answer is {}; else the elapsed time, which the answer holds
  unfoldable pub execute : Settings → System W → Context → Collector W → Option Float × Collector W
  unfolding truthy add_record flush_if_due new_record
  execute c y context s = elim context.start_time [
    | none ↦ (none, s)
    | some start ↦
        if truthy (float start)
        then (let (elapsed, w) = y.elapsed_ms start s.world in
            let (timestamp, w') = y.now w in
            let r = new_record context elapsed timestamp in
            (some elapsed, flush_if_due c y (add_record c r (record s { world = w' }))))
        else (none, s)
  ]

  unfoldable pub query_trace : String → Collector W → List TraceRecord
  query_trace trace_id s = get_or trace_id [] s.trace_index

  -- list(reversed(self._buffer[-limit:])); `[-0:]` is the whole list
  unfoldable pub query_recent : ℕ → Collector W → List TraceRecord
  query_recent limit s =
      reverse (if leb limit 0 then s.buffer else drop (length s.buffer - limit) s.buffer)

  unfoldable pub stats : Settings → Collector W → Summary
  stats c s = record {
    buffer_size = length s.buffer;
    traces_indexed = length s.trace_index;
    export_enabled = c.export_enabled;
    export_dir = c.export_dir;
  }

  unfoldable pub cleanup : Settings → System W → Collector W → Collector W
  unfolding flush
  cleanup c y s = flush c y s
