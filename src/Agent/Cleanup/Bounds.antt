-- ===== src/Agent/Cleanup/Bounds.antt =====
-- What the cleaning leaves.
use aqap.Prelude.{
  ℕ, zero, suc, ◌+◌, ◌-◌, ◌/◌, ◌≤◌, String, Bool, true, [], ◌∷◌, Dict, has, remove, leb, ltb,
  length, take, keep, ◌≡◌, ◌≢◌, ◌⊎◌, refl, ap, sym, ◌∙◌, arith, Bool-cases, inl, inr, All, eq_iff,
  eq_refl, ◌==◌, ltb→lt, length-take, length-remove-le,
}
use aqap.Agent.Cleanup.{insert_by_time, sort_by_time, delete_all, clean}

-- No key twice, as in every dict.
abbrev IsDict : Dict ℕ → Type 0
IsDict [] = Unit
IsDict (e ∷ d) = All (λ x. e.0 ≢ x.0) d × IsDict d

module _ (P : String × ℕ → Type 0) where
  All-insert : (e : String × ℕ) (d : Dict ℕ) → P e → All P d → All P (insert_by_time e d)
  unfolding insert_by_time
  All-insert e [] p h = (p, tt)
  All-insert e (x ∷ d) p (q, h) = elim (Bool-cases (leb e.1 x.1)) [
    | inl before ↦ rw before (p, (q, h))
    | inr after ↦ rw after (q, All-insert e d p h)
  ]

  All-sort : (d : Dict ℕ) → All P d → All P (sort_by_time d)
  unfolding sort_by_time
  All-sort [] h = tt
  All-sort (e ∷ d) (p, h) = All-insert e (sort_by_time d) p (All-sort d h)

  All-take : (n : ℕ) (d : Dict ℕ) → All P d → All P (take n d)
  All-take zero d h = tt
  All-take (suc n) [] h = tt
  All-take (suc n) (e ∷ d) (p, h) = (p, All-take n d h)

  All-remove : (k : String) (d : Dict ℕ) → All P d → All P (remove k d)
  unfolding remove
  All-remove k [] h = tt
  All-remove k ((j, t) ∷ d) (p, h) = elim (Bool-cases (j == k)) [
    | inl same ↦ rw same (All-remove k d h)
    | inr differ ↦ rw differ (p, All-remove k d h)
  ]

  All-delete_all : (es d : Dict ℕ) → All P d → All P (delete_all es d)
  unfolding delete_all
  All-delete_all [] d h = h
  All-delete_all ((k, t) ∷ es) d h = All-delete_all es (remove k d) (All-remove k d h)

insert-IsDict :
    (e : String × ℕ) (d : Dict ℕ) → All (λ x. e.0 ≢ x.0) d → IsDict d → IsDict (insert_by_time e d)
unfolding insert_by_time
insert-IsDict e [] n h = (tt, tt)
insert-IsDict e (x ∷ d) (n, ns) (m, h) = elim (Bool-cases (leb e.1 x.1)) [
  | inl before ↦ rw before ((n, ns), (m, h))
  | inr after ↦
      rw after (All-insert (λ y. x.0 ≢ y.0) e d (λ same. n (sym same)) m, insert-IsDict e d ns h)
]

sort-IsDict : (d : Dict ℕ) → IsDict d → IsDict (sort_by_time d)
unfolding sort_by_time
sort-IsDict [] h = tt
sort-IsDict (e ∷ d) (n, h) =
    insert-IsDict e (sort_by_time d) (All-sort (λ x. e.0 ≢ x.0) d n) (sort-IsDict d h)

take-IsDict : (n : ℕ) (d : Dict ℕ) → IsDict d → IsDict (take n d)
take-IsDict zero d h = tt
take-IsDict (suc n) [] h = tt
take-IsDict (suc n) (e ∷ d) (m, h) = (All-take (λ x. e.0 ≢ x.0) n d m, take-IsDict n d h)

remove-IsDict : (k : String) (d : Dict ℕ) → IsDict d → IsDict (remove k d)
unfolding remove
remove-IsDict k [] h = tt
remove-IsDict k ((j, t) ∷ d) (n, h) = elim (Bool-cases (j == k)) [
  | inl same ↦ rw same (remove-IsDict k d h)
  | inr differ ↦ rw differ (All-remove (λ x. j ≢ x.0) k d n, remove-IsDict k d h)
]

delete_all-IsDict : (es d : Dict ℕ) → IsDict d → IsDict (delete_all es d)
unfolding delete_all
delete_all-IsDict [] d h = h
delete_all-IsDict ((k, t) ∷ es) d h = delete_all-IsDict es (remove k d) (remove-IsDict k d h)

length-insert : (e : String × ℕ) (d : Dict ℕ) → length (insert_by_time e d) ≡ suc (length d)
unfolding insert_by_time
length-insert e [] = refl
length-insert e (x ∷ d) = ground (arith, length-insert e d)

length-sort : (d : Dict ℕ) → length (sort_by_time d) ≡ length d
unfolding sort_by_time
length-sort [] = refl
length-sort (e ∷ d) = length-insert e (sort_by_time d) ∙ ap suc (length-sort d)

length-remove : (k : String) (d : Dict ℕ) → has k d ≡ true → length (remove k d) + 1 ≤ length d
unfolding remove has
length-remove k [] h = cc
length-remove k ((j, t) ∷ d) h = ground (arith, length-remove k d, length-remove-le k d)

has-remove : (j k : String) (d : Dict ℕ) → k ≢ j → has j d ≡ true → has j (remove k d) ≡ true
unfolding remove has
has-remove j k [] n h = h
has-remove j k ((i, t) ∷ d) n h = ground (arith, has-remove j k d n, eq_iff i j, eq_iff i k)

All-map :
    {P Q : String × ℕ → Type 0} (d : Dict ℕ) → ((e : String × ℕ) → P e → Q e) → All P d → All Q d
All-map [] f h = tt
All-map (e ∷ d) f (p, h) = (f e p, All-map d f h)

All-both :
    {P Q R : String × ℕ → Type 0} (d : Dict ℕ)
    → ((e : String × ℕ) → P e → Q e → R e)
    → All P d
    → All Q d
    → All R d
All-both [] f h k = tt
All-both (e ∷ d) f (p, h) (q, k) = (f e p q, All-both d f h k)

-- Deleting distinct keys that are there takes away as many entries.
length-delete_all :
    (es d : Dict ℕ)
    → IsDict es
    → All (λ e. has e.0 d ≡ true) es
    → length (delete_all es d) + length es ≤ length d
unfolding delete_all
length-delete_all [] d u h = omega arith
length-delete_all ((k, t) ∷ es) d (n, u) (here, h) = omega (
  arith,
  length-remove k d here,
  length-delete_all es (remove k d) u (All-both es (λ e m p. has-remove e.0 k d m p) n h),
)

abbrev Listed : String → Dict ℕ → Type 0
Listed k [] = ⊥
Listed k (e ∷ d) = (k ≡ e.0) ⊎ Listed k d

remove_lem :
    (P : String × ℕ → Type 0) (k : String) (d : Dict ℕ)
    → All P d
    → All (λ e. P e × (e.0 ≢ k)) (remove k d)
unfolding remove
remove_lem P k [] h = tt
remove_lem P k ((j, t) ∷ d) (p, h) = elim (Bool-cases (j == k)) [
  | inl same ↦ rw same (remove_lem P k d h)
  | inr differ ↦ rw differ ((p, ground (arith, eq_iff j k)), remove_lem P k d h)
]

delete_all-All :
    (P : String × ℕ → Type 0) (es d : Dict ℕ)
    → All (λ e. P e ⊎ Listed e.0 es) d
    → All P (delete_all es d)
unfolding delete_all
delete_all-All P [] d h = All-map d (λ e. elim [ inl p ↦ p | inr l ↦ absurd l ]) h
delete_all-All P ((k, t) ∷ es) d h = delete_all-All P es (remove k d) (
    All-map (remove k d) (λ e w. still e w.0 w.1)
      (remove_lem (λ e. P e ⊎ Listed e.0 ((k, t) ∷ es)) k d h))
  where
    still : (e : String × ℕ) → (P e ⊎ Listed e.0 ((k, t) ∷ es)) → e.0 ≢ k → P e ⊎ Listed e.0 es
    still e (inl p) n = inl p
    still e (inr (inl same)) n = absurd (n same)
    still e (inr (inr l)) n = inr l

module _ (now ttl : ℕ) where
  abbrev stale : String × ℕ → Bool
  stale e = ltb e.1 (now - ttl)

  abbrev pub IsFresh : String × ℕ → Type 0
  IsFresh e = now ≤ e.1 + ttl

  Listed-keep-cons :
      (k : String) (e : String × ℕ) (d : Dict ℕ)
      → Listed k (keep stale d)
      → Listed k (keep stale (e ∷ d))
  Listed-keep-cons k e d l = elim (Bool-cases (stale e)) [
    | inl old ↦ rw old (inr l)
    | inr new ↦ rw new l
  ]

  stale-cover : (d : Dict ℕ) → All (λ e. IsFresh e ⊎ Listed e.0 (keep stale d)) d
  stale-cover [] = tt
  stale-cover (e ∷ d) = (
    elim (Bool-cases (stale e)) [
      | inl old ↦ rw old (inr (inl refl))
      | inr new ↦ inl (ground arith)
    ],
    All-map d (λ x. elim [ inl f ↦ inl f | inr l ↦ inr (Listed-keep-cons x.0 e d l) ])
        (stale-cover d),
  )

has-entries : (d : Dict ℕ) → All (λ e. has e.0 d ≡ true) d
unfolding has
has-entries [] = tt
has-entries (e ∷ d) = (rw (eq_refl e.0), All-map d (λ x h. ground (arith, h)) (has-entries d))

evict_bound :
    (n : ℕ) (d : Dict ℕ)
    → IsDict d
    → n ≤ length d
    → length (delete_all (take n (sort_by_time d)) d) + n ≤ length d
evict_bound n d u fits = omega (
  arith,
  length-take n (sort_by_time d),
  length-sort d,
  length-delete_all (take n (sort_by_time d)) d (take-IsDict n (sort_by_time d) (sort-IsDict d u)) (
      All-take (λ e. has e.0 d ≡ true) n (sort_by_time d)
        (All-sort (λ e. has e.0 d ≡ true) d (has-entries d))),
)

-- After a round of the cleaning of a dict no identifier is older than the time to live, and no more
-- than `max_size` are left.
pub clean_lem :
    (now ttl max_size : ℕ) (ids : Dict ℕ)
    → IsDict ids
    → (length (clean now ttl max_size ids) ≤ max_size)
      × All (IsFresh now ttl) (clean now ttl max_size ids)
unfolding clean
clean_lem now ttl max_size ids u =
    let d : Dict ℕ = delete_all (keep (stale now ttl) ids) ids in
    let n : ℕ = length (sort_by_time d) - max_size / 2 in
    let fresh =
      delete_all-All (IsFresh now ttl) (keep (stale now ttl) ids) ids (stale-cover now ttl ids) in
    elim (Bool-cases (ltb max_size (length d))) [
      | inl over ↦ rw over (
        omega (
          arith,
          ltb→lt max_size (length d) over,
          length-sort d,
          evict_bound n d (delete_all-IsDict (keep (stale now ttl) ids) ids u)
              (omega (arith, length-sort d)),
        ),
        All-delete_all (IsFresh now ttl) (take n (sort_by_time d)) d fresh,
      )
      | inr fits ↦ rw fits (ground arith, fresh)
    ]
