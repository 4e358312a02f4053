-- ===== src/Agent/Cleanup.antt =====
-- The background cleaning of the seen identifiers: `_idempotency_cleanup_loop` of
-- aqap/agent/base.py. Times are whole units of the clock.
pub mod Bounds
use aqap.Prelude.{
  ℕ, ◌-◌, ◌/◌, String, Bool, true, false, not, List, [], ◌∷◌, Dict, remove, if◌then◌else◌, leb, ltb,
  length, take, keep,
}
use aqap.Agent.State.{Agent, AgentState}

-- sorted(d.items(), key=lambda x: x[1]), which is stable
unfoldable pub insert_by_time : String × ℕ → Dict ℕ → Dict ℕ
insert_by_time e [] = e ∷ []
insert_by_time e (x ∷ d) = if leb e.1 x.1 then e ∷ x ∷ d else x ∷ insert_by_time e d

unfoldable pub sort_by_time : Dict ℕ → Dict ℕ
unfolding insert_by_time
sort_by_time [] = []
sort_by_time (e ∷ d) = insert_by_time e (sort_by_time d)

-- `for mid, _ in entries: del d[mid]`
unfoldable pub delete_all : Dict ℕ → Dict ℕ → Dict ℕ
delete_all [] d = d
delete_all ((key, time) ∷ entries) d = delete_all entries (remove key d)

-- one round of the loop, after its sleep
unfoldable pub clean : ℕ → ℕ → ℕ → Dict ℕ → Dict ℕ
unfolding sort_by_time delete_all
clean now ttl max_size ids =
    let fresh = delete_all (keep (λ e. ltb e.1 (now - ttl)) ids) ids in
    let sorted = sort_by_time fresh in
    if ltb max_size (length fresh)
    then delete_all (take (length sorted - max_size / 2) sorted) fresh
    else fresh

unfoldable pub cleanup_round : {W : Type 0} → Agent W → ℕ → AgentState W → AgentState W
unfolding clean
cleanup_round a now s = record s {
  processed_ids = clean now a.idempotency_ttl a.idempotency_max_size s.processed_ids;
}
