-- ===== src/Agent/Supervisor/Health.antt =====
-- What `health_check` reports, and the effect of a heartbeat on it.
use aqap.Prelude.{
  ℕ, ◌+◌, ◌-◌, String, true, ◌||◌, some, List, [], ◌∷◌, ◌++◌, if◌then◌else◌, ltb, Dict, get, has,
  ◌≡◌, refl, ◌∙◌, arith, get-put, eq_refl, eq_iff, ◌==◌, Bool-cases, inl, inr,
}
use aqap.Agent.Supervisor.{
  Supervisor, stale, healthy, status_of, record_heartbeat, statuses, all_ids, keys_of, new_keys,
  health_check,
}

module _ {W : Type 0} (now : ℕ) (s : Supervisor W) where
  get-statuses :
      (ks : List String) (k : String)
      → has k (statuses now s ks) ≡ true
      → get k (statuses now s ks)
        ≡ some (status_of now s.heartbeat_timeout (get k s.last_heartbeat))
  unfolding statuses get has
  get-statuses [] k h = cc
  get-statuses (j ∷ ks) k h = elim (Bool-cases (j == k)) [
    | inl same ↦ rw (same, (eq_iff j k).0 same) refl
    | inr differ ↦ rw differ (get-statuses ks k (rw differ at h))
  ]

  has-append :
      (ks js : List String) (k : String)
      → has k (statuses now s (ks ++ js)) ≡ (has k (statuses now s ks) || has k (statuses now s js))
  unfolding statuses has
  has-append [] js k = refl
  has-append (i ∷ ks) js k = ground (arith, has-append ks js k)

  has-keys_of :
      {V : Type 0} → (d : Dict V) (k : String) → has k (statuses now s (keys_of d)) ≡ has k d
  unfolding statuses has keys_of
  has-keys_of [] k = refl
  has-keys_of ((j, v) ∷ d) k = ground (arith, has-keys_of d k)

  has-new_keys :
      {V : Type 0}
      → (d : Dict V) (ks : List String) (k : String)
      → (has k d || has k (statuses now s (new_keys d ks))) ≡ (has k d || has k (statuses now s ks))
  unfolding statuses has new_keys
  has-new_keys d [] k = refl
  has-new_keys d (j ∷ ks) k =
      ground (arith, has-new_keys d ks k, eq_iff j k, Bool-cases (has j d), Bool-cases (has k d))

  -- The order of a set has the members of the set.
  abbrev pub KeepsMembers : Type 0
  KeepsMembers =
      (ks : List String) (k : String)
      → has k (statuses now s (s.set_order ks)) ≡ has k (statuses now s ks)

  -- The identifiers reported are those registered and those a heartbeat came from, and each has the
  -- status of its last heartbeat.
  pub health_check_lem :
      (k : String)
      → KeepsMembers
      → (has k (health_check now s).0 ≡ (has k s.agents || has k s.last_heartbeat))
        × (has k (health_check now s).0 ≡ true
            → get k (health_check now s).0
              ≡ some (status_of now s.heartbeat_timeout (get k s.last_heartbeat)))
  unfolding health_check all_ids
  health_check_lem k ordered = (
    ordered (all_ids s) k
        ∙ has-append (keys_of s.agents) (new_keys s.agents (keys_of s.last_heartbeat)) k
        ∙ ground (
          arith,
          has-keys_of s.agents k,
          has-keys_of s.last_heartbeat k,
          has-new_keys s.agents (keys_of s.last_heartbeat) k,
        ),
    get-statuses (s.set_order (all_ids s)) k,
  )

has_of_get : {V : Type 0} → (k : String) (v : V) (d : Dict V) → get k d ≡ some v → has k d ≡ true
unfolding get has
has_of_get k v [] h = ground arith
has_of_get k v ((j, w) ∷ d) h = ground (arith, has_of_get k v d)

-- After a heartbeat from an agent at `beat`, a check at `now` reports the agent, registered or not:
-- healthy up to and including `beat` plus the timeout, stale from then on.
health_check-record_heartbeat :
    {W : Type 0}
    → (k : String) (beat now : ℕ) (s : Supervisor W) → KeepsMembers now (record_heartbeat k beat s)
    → get k (health_check now (record_heartbeat k beat s)).0
      ≡ some (
          if ltb (beat + s.heartbeat_timeout) now
          then stale beat (now - beat)
          else healthy (now - beat))
unfolding record_heartbeat status_of
health_check-record_heartbeat k beat now s ordered =
    let s' = record_heartbeat k beat s in
    let (reported, report) = health_check_lem now s' k ordered in
    let beaten : get k s'.last_heartbeat ≡ some beat =
      get-put k k beat s.last_heartbeat ∙ rw (eq_refl k) refl in
    report (reported ∙ ground (arith, has_of_get k beat s'.last_heartbeat beaten)) ∙ rw beaten refl
