-- ===== src/Plugin/TraceCollector/Bounds.antt =====
-- What the trace collector's buffer and index hold at most.
use Prim.Native.Nat.{max}
use aqap.Prelude.{
  ℕ, suc, ◌/◌, ◌≤◌, ◌<◌, String, List, [], ◌∷◌, Dict, All, length, length-append, take, ltb, leb,
  get_or, put, remove, ◌==◌, Bool-cases, Option-cases, inl, inr, ◌≡◌, arith,
}
use aqap.Value.{float, truthy}
use aqap.Plugin.TraceCollector.{
  TraceRecord, Context, Settings, System, Collector, sorted, keys_of, remove_all, add_event,
  index_record, limit_index, initialize, flush, add_record, flush_if_due, execute, cleanup,
}
use aqap.Plugin.TraceCollector.Eviction.{length-evicted, length-sorted, length-keys_of}

abbrev Index : Type 0
Index = Dict (List TraceRecord)

length-put-le :
    (k : String) (v : List TraceRecord) (d : Index) → length (put k v d) ≤ suc (length d)
unfolding put
length-put-le k v [] = omega arith
length-put-le k v ((j, w) ∷ d) = ground (arith, length-put-le k v d)

-- The traces that hold at most `n` events.
abbrev Within : ℕ → Index → Type 0
Within n index = All (λ (e : String × List TraceRecord). length e.1 ≤ n) index

Within-put :
    (n : ℕ) (k : String) (v : List TraceRecord) (d : Index)
    → length v ≤ n
    → Within n d
    → Within n (put k v d)
unfolding put
Within-put n k v [] h w = (h, tt)
Within-put n k v ((j, u) ∷ d) h (e, w) = elim (Bool-cases (j == k)) [
  | inl same ↦ rw same (h, w)
  | inr other ↦ rw other (e, Within-put n k v d h w)
]

Within-remove : (n : ℕ) (k : String) (d : Index) → Within n d → Within n (remove k d)
unfolding remove
Within-remove n k [] w = tt
Within-remove n k ((j, u) ∷ d) (e, w) = elim (Bool-cases (j == k)) [
  | inl same ↦ rw same (Within-remove n k d w)
  | inr other ↦ rw other (e, Within-remove n k d w)
]

Within-remove_all : (n : ℕ) (ks : List String) (d : Index) → Within n d → Within n (remove_all ks d)
unfolding remove_all
Within-remove_all n [] d w = w
Within-remove_all n (k ∷ ks) d w = Within-remove_all n ks (remove k d) (Within-remove n k d w)

Within-get_or : (n : ℕ) (k : String) (d : Index) → Within n d → length (get_or k [] d) ≤ n
unfolding get_or
Within-get_or n k [] w = omega arith
Within-get_or n k ((j, u) ∷ d) (e, w) = ground (arith, Within-get_or n k d w)

Within-index_record :
    (c : Settings) (r : TraceRecord) (d : Index)
    → Within c.max_events_per_trace d
    → Within c.max_events_per_trace (index_record c r d)
unfolding index_record add_event
Within-index_record c r d w =
    Within-put _ r.trace_id (add_event c r (get_or r.trace_id [] d)) d
      (ground (
        arith,
        length-append {0} (get_or r.trace_id [] d) (r ∷ []),
        Within-get_or c.max_events_per_trace r.trace_id d w,
      ))
      w

-- where a quarter of the traces goes, and what stays where none does
Within-limit_index : (n : ℕ) (c : Settings) (d : Index) → Within n d → Within n (limit_index c d)
unfolding limit_index
Within-limit_index n c d w = elim (Bool-cases (ltb c.max_traces (length d))) [
  | inl over ↦
      rw over
        (Within-remove_all n (take (length (sorted (keys_of d)) / 4) (sorted (keys_of d))) d w)
  | inr under ↦ rw under w
]

abbrev index_bound : Settings → ℕ
index_bound c = max c.max_traces 3

length-limit_index :
    (c : Settings) (d : Index)
    → length d ≤ suc (index_bound c)
    → length (limit_index c d) ≤ index_bound c
unfolding limit_index
length-limit_index c d h = ground (
  arith,
  length-evicted (length (sorted (keys_of d)) / 4) d,
  length-sorted (keys_of d),
  length-keys_of d,
)

-- what happens to a collector
pub data Op : Type 0 where
  executes : Context → Op
  cleans : Op

module _ {W : Type 0} where
  pub record IsBounded (c : Settings) (s : Collector W) : Type 0 where
    pub buffered : length s.buffer < c.report_interval
    pub indexed : length s.trace_index ≤ index_bound c
    pub events_bounded : Within c.max_events_per_trace s.trace_index

  unfoldable pub run_op : Settings → System W → Op → Collector W → Collector W
  unfolding execute cleanup
  run_op c y (executes context) s = (execute c y context s).1
  run_op c y cleans s = cleanup c y s

  unfoldable pub run : Settings → System W → List Op → Collector W → Collector W
  unfolding run_op
  run c y [] s = s
  run c y (op ∷ ops) s = run c y ops (run_op c y op s)

  flush-buffer :
      (c : Settings) (y : System W) (s : Collector W)
      → ((flush c y s).buffer ≡ []) × ((flush c y s).trace_index ≡ s.trace_index)
  unfolding flush
  flush-buffer c y s = ground arith

  flush_if_due-IsBounded :
      (c : Settings) (y : System W) (s : Collector W)
      → 0 < c.report_interval
      → length s.trace_index ≤ index_bound c
      → Within c.max_events_per_trace s.trace_index
      → IsBounded c (flush_if_due c y s)
  unfolding flush_if_due
  flush_if_due-IsBounded c y s h k w = elim (Bool-cases (leb c.report_interval (length s.buffer))) [
    | inl due ↦
        let (b, e) = flush-buffer c y s in
        rw (due) (record { buffered = rw b h; indexed = rw e k; events_bounded = rw e w })
    | inr early ↦ rw early (record { buffered = ground arith; indexed = k; events_bounded = w })
  ]

  record_added :
      (c : Settings) (y : System W) (r : TraceRecord) (s : Collector W)
      → 0 < c.report_interval
      → IsBounded c s
      → IsBounded c (flush_if_due c y (add_record c r s))
  unfolding add_record index_record
  record_added c y r s h b =
      let index = index_record c r s.trace_index in
      flush_if_due-IsBounded c y (add_record c r s) h
        (length-limit_index c index (
          omega (
            arith,
            b.indexed,
            length-put-le r.trace_id (add_event c r (get_or r.trace_id [] s.trace_index))
                s.trace_index,
          )))
        (Within-limit_index c.max_events_per_trace c index
          (Within-index_record c r s.trace_index b.events_bounded))

  execute-IsBounded :
      (c : Settings) (y : System W) (context : Context) (s : Collector W)
      → 0 < c.report_interval
      → IsBounded c s
      → IsBounded c (execute c y context s).1
  unfolding execute
  execute-IsBounded c y context s h b = elim (Option-cases context.start_time) [
    | inl none_given ↦ rw none_given b
    | inr (start, given) ↦ elim (Bool-cases (truthy (float start))) [
      | inr zero ↦ rw (given, zero) b
      | inl some_time ↦
          rw (given, some_time)
            (record_added c y _ (record s { world = _ }) h
              (record {
                buffered = b.buffered;
                indexed = b.indexed;
                events_bounded = b.events_bounded;
              }))
    ]
  ]

  run_op-IsBounded :
      (c : Settings) (y : System W) (op : Op) (s : Collector W)
      → 0 < c.report_interval
      → IsBounded c s
      → IsBounded c (run_op c y op s)
  unfolding run_op cleanup
  run_op-IsBounded c y (executes context) s h b = execute-IsBounded c y context s h b
  run_op-IsBounded c y cleans s h b =
      let (e, k) = flush-buffer c y s in
      record { buffered = rw e h; indexed = rw k b.indexed; events_bounded = rw k b.events_bounded }

  runs-IsBounded :
      (c : Settings) (y : System W) (ops : List Op) (s : Collector W)
      → 0 < c.report_interval
      → IsBounded c s
      → IsBounded c (run c y ops s)
  unfolding run
  runs-IsBounded c y [] s h b = b
  runs-IsBounded c y (op ∷ ops) s h b =
      runs-IsBounded c y ops (run_op c y op s) h (run_op-IsBounded c y op s h b)

  -- With a positive report_interval, from the empty collector on and whatever contexts it gets: the
  -- buffer holds fewer records than report_interval, the index at most max_traces traces, or three
  -- where max_traces is less, and each trace at most max_events_per_trace events.
  pub run-IsBounded :
      (c : Settings) (y : System W) (ops : List Op) (w : W)
      → 0 < c.report_interval
      → IsBounded c (run c y ops (initialize w))
  unfolding initialize
  run-IsBounded c y ops w h =
      runs-IsBounded c y ops (initialize w) h
        (record { buffered = h; indexed = omega arith; events_bounded = tt })
