-- ===== src/Plugin/TraceCollector/Queries.antt =====
-- What the trace collector's queries find after a plugin run.
use aqap.Prelude.{
  ◌/◌, String, true, List, [], ◌∷◌, Dict, some, length, take, ltb, if◌then◌else◌, get_or, put,
  remove, ◌==◌, eq_iff, Bool-cases, inl, inr, ◌≡◌, refl, ap, ◌∙◌, arith,
}
use aqap.Value.{Float, float, truthy}
use aqap.Plugin.TraceCollector.{
  TraceRecord, Context, Settings, System, Collector, sorted, keys_of, remove_all, add_event,
  index_record, limit_index, new_record, flush, add_record, flush_if_due, execute, query_trace,
}
use aqap.Plugin.TraceCollector.Eviction.{among}

abbrev Index : Type 0
Index = Dict (List TraceRecord)

-- the traces that go when the index is too long: the first quarter of the sorted identifiers
abbrev evicted : Settings → Index → List String
evicted c d =
    if ltb c.max_traces (length d)
    then take (length (sorted (keys_of d)) / 4) (sorted (keys_of d))
    else []

get_or-remove :
    (k j : String) (d : Index) → get_or j [] (remove k d) ≡ (if j == k then [] else get_or j [] d)
unfolding get_or remove
get_or-remove k j [] = ground arith
get_or-remove k j ((i, v) ∷ d) =
    ground (arith, get_or-remove k j d, eq_iff i k, eq_iff i j, eq_iff j k)

get_or-remove_all :
    (ks : List String) (j : String) (d : Index)
    → get_or j [] (remove_all ks d) ≡ (if among ks j then [] else get_or j [] d)
unfolding remove_all
get_or-remove_all [] j d = refl
get_or-remove_all (k ∷ ks) j d =
    ground (arith, get_or-remove_all ks j (remove k d), get_or-remove k j d)

get_or-put :
    (k j : String) (v : List TraceRecord) (d : Index)
    → get_or j [] (put k v d) ≡ (if k == j then v else get_or j [] d)
unfolding get_or put
get_or-put k j v [] = refl
get_or-put k j v ((i, w) ∷ d) =
    ground (arith, get_or-put k j v d, eq_iff i k, eq_iff i j, eq_iff k j)

get_or-index_record :
    (c : Settings) (r : TraceRecord) (j : String) (d : Index)
    → get_or j [] (index_record c r d)
      ≡ (if r.trace_id == j then add_event c r (get_or r.trace_id [] d) else get_or j [] d)
unfolding index_record
get_or-index_record c r j d = get_or-put r.trace_id j (add_event c r (get_or r.trace_id [] d)) d

get_or-limit_index :
    (c : Settings) (j : String) (d : Index)
    → get_or j [] (limit_index c d) ≡ (if among (evicted c d) j then [] else get_or j [] d)
unfolding limit_index
get_or-limit_index c j d = elim (Bool-cases (ltb c.max_traces (length d))) [
  | inl over ↦ rw over (get_or-remove_all _ j d)
  | inr under ↦ rw under refl
]

module _ {W : Type 0} where
  flush_if_due-index :
      (c : Settings) (y : System W) (s : Collector W)
      → (flush_if_due c y s).trace_index ≡ s.trace_index
  unfolding flush_if_due flush
  flush_if_due-index c y s = ground arith

  query_trace-added :
      (c : Settings) (y : System W) (r : TraceRecord) (s : Collector W) (k : String)
      → query_trace k (flush_if_due c y (add_record c r s)) ≡ (
          if among (evicted c (index_record c r s.trace_index)) k
          then []
          else (if r.trace_id == k
              then add_event c r (query_trace r.trace_id s)
              else query_trace k s))
  unfolding add_record query_trace
  query_trace-added c y r s k =
      ap (λ (d : Index). get_or k [] d) (flush_if_due-index c y (add_record c r s))
      ∙ get_or-limit_index c k (index_record c r s.trace_index)
      ∙ ap (λ events. if among (evicted c (index_record c r s.trace_index)) k then [] else events)
          (get_or-index_record c r k s.trace_index)

  -- A run that is timed adds its record to its trace, unless the trace is full, and changes no other
  -- trace, but for the traces that are evicted, which have no events any more: where the index is
  -- then longer than max_traces, those with the first quarter of the sorted identifiers, the new one
  -- not excepted.
  query_trace-execute :
      (c : Settings) (y : System W) (context : Context) (s : Collector W) (start : Float)
      (k : String)
      → context.start_time ≡ some start
      → truthy (float start) ≡ true
      → let (elapsed, w) = y.elapsed_ms start s.world in
        let r = new_record context elapsed (y.now w).0 in
        query_trace k (execute c y context s).1 ≡ (
          if among (evicted c (index_record c r s.trace_index)) k
          then []
          else (if r.trace_id == k
              then add_event c r (query_trace r.trace_id s)
              else query_trace k s))
  unfolding execute new_record query_trace
  query_trace-execute c y context s start k given some_time =
      rw (given, some_time)
        (query_trace-added c y _ (record s { world = (y.now (y.elapsed_ms start s.world).1).1 }) k)
