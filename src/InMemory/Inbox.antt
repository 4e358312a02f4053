-- ===== src/InMemory/Inbox.antt =====
-- A queue that one consumer has for itself, as an agent has the queue of its inbox.
use aqap.Prelude.{
  ℕ, zero, suc, ◌≤◌, length, String, true, false, List, [], ◌∷◌, ◌++◌, if◌then◌else◌, nat_eq, ◌≡◌,
  ◌⊎◌, refl, arith, ap, sym, ◌∙◌, Dict, get, Option, get-put, Option-cases, Bool-cases, none, some,
  inl, inr, ◌==◌,
}
use text.Mathlib.TextEquality.{eq_iff}
use aqap.InMemory.{groups_of, GroupQueue, InMemory, publish, take}
use aqap.InMemory.Fanout.{rotate_all, groups-publish_groups, count_of, firsts, store-publish}

-- No group has the queue.
abbrev pub Elsewhere : ℕ → Dict GroupQueue → Type 0
Elsewhere q [] = Unit
Elsewhere q ((name, gq) ∷ rest) = (count_of q gq ≡ 0) × Elsewhere q rest

-- One group has the queue, and no other one; the other groups do not have it.
abbrev pub Alone : ℕ → Dict GroupQueue → Type 0
Alone q [] = ⊥
Alone q ((name, gq) ∷ rest) =
    ((gq ≡ q ∷ []) × Elsewhere q rest) ⊎ ((count_of q gq ≡ 0) × Alone q rest)

module _ {M : Type 0} where
  -- A consumer of the topic has the queue for itself, and no other topic has it.
  abbrev pub Owns : ℕ → String → InMemory M → Type 0
  Owns q topic t =
      Alone q (groups_of (get topic t.groups))
      × ((k : String) → (topic == k) ≡ false → Elsewhere q (groups_of (get k t.groups)))

count_of-rotate : (j q : ℕ) (gq : GroupQueue) → count_of j (gq ++ q ∷ []) ≡ count_of j (q ∷ gq)
count_of-rotate j q [] = refl
count_of-rotate j q (p ∷ gq) = ground (arith, count_of-rotate j q gq)

Elsewhere-rotate : (j : ℕ) (gs : Dict GroupQueue) → Elsewhere j gs → Elsewhere j (rotate_all gs)
Elsewhere-rotate j [] h = tt
Elsewhere-rotate j ((name, []) ∷ rest) (n, h) = (n, Elsewhere-rotate j rest h)
Elsewhere-rotate j ((name, q ∷ gq) ∷ rest) (n, h) =
    (count_of-rotate j q gq ∙ n, Elsewhere-rotate j rest h)

rotate_one : (j q : ℕ) (gq : GroupQueue) → q ∷ gq ≡ j ∷ [] → gq ++ q ∷ [] ≡ j ∷ []
rotate_one j q [] e = e
rotate_one j q (p ∷ gq) e = cc

Alone-rotate : (j : ℕ) (gs : Dict GroupQueue) → Alone j gs → Alone j (rotate_all gs)
Alone-rotate j [] h = elim h [ ]
Alone-rotate j ((name, []) ∷ rest) (inl (e, h)) = cc
Alone-rotate j ((name, []) ∷ rest) (inr (n, h)) = inr (n, Alone-rotate j rest h)
Alone-rotate j ((name, q ∷ gq) ∷ rest) (inl (e, h)) =
    inl (rotate_one j q gq e, Elsewhere-rotate j rest h)
Alone-rotate j ((name, q ∷ gq) ∷ rest) (inr (n, h)) =
    inr (count_of-rotate j q gq ∙ n, Alone-rotate j rest h)

pub firsts-Elsewhere : (j : ℕ) (gs : Dict GroupQueue) → Elsewhere j gs → count_of j (firsts gs) ≡ 0
firsts-Elsewhere j [] h = refl
firsts-Elsewhere j ((name, []) ∷ rest) (n, h) = firsts-Elsewhere j rest h
firsts-Elsewhere j ((name, q ∷ gq) ∷ rest) (n, h) = ground (arith, firsts-Elsewhere j rest h)

firsts-Alone : (j : ℕ) (gs : Dict GroupQueue) → Alone j gs → count_of j (firsts gs) ≡ 1
firsts-Alone j [] h = elim h [ ]
firsts-Alone j ((name, []) ∷ rest) (inl (e, h)) = cc
firsts-Alone j ((name, []) ∷ rest) (inr (n, h)) = firsts-Alone j rest h
firsts-Alone j ((name, q ∷ gq) ∷ rest) (inl (e, h)) = ground (arith, firsts-Elsewhere j rest h)
firsts-Alone j ((name, q ∷ gq) ∷ rest) (inr (n, h)) = ground (arith, firsts-Alone j rest h)

module _ {M : Type 0} where
  pub groups-publish :
      (topic k : String) (m : M) (t : InMemory M)
      → groups_of (get k (publish topic m t).groups) ≡ (
          if topic == k
          then rotate_all (groups_of (get k t.groups))
          else groups_of (get k t.groups))
  unfolding publish
  groups-publish topic k m t = elim (Option-cases (get topic t.groups)) [
    | inl e ↦ rw (e, publish) (ground (arith, eq_iff topic k))
    | inr (gs, e) ↦ rw (e, publish, get-put, groups-publish_groups) (ground (arith, eq_iff topic k))
  ]

  pub publish-Owns :
      (q : ℕ) (inbox topic : String) (m : M) (t : InMemory M)
      → Owns q inbox t
      → Owns q inbox (publish topic m t)
  publish-Owns q inbox topic m t (alone, others) = (
    elim (Bool-cases (topic == inbox)) [
      | inl same ↦ rw (groups-publish, same) (Alone-rotate q _ alone)
      | inr differ ↦ rw (groups-publish, differ) alone
    ],
    λ k n. elim (Bool-cases (topic == k)) [
      | inl same ↦ rw (groups-publish, same) (Elsewhere-rotate q _ (others k n))
      | inr differ ↦ rw (groups-publish, differ) (others k n)
    ],
  )

  -- What a publication puts into an owned queue: the message, where its topic is the queue's.
  pub owned-publish :
      (q : ℕ) (inbox topic : String) (m : M) (t : InMemory M)
      → Owns q inbox t
      → (publish topic m t).store q ≡ t.store q ++ (if inbox == topic then m ∷ [] else [])
  owned-publish q inbox topic m t (alone, others) = elim (Bool-cases (inbox == topic)) [
    | inl same ↦
        let e : inbox ≡ topic = ground (arith, eq_iff inbox topic) in
        rw (same, store-publish, firsts-Alone q (groups_of (get topic t.groups)) (rw (sym e) alone))
          refl
    | inr differ ↦ rw (differ, store-publish, firsts-Elsewhere q _ (others topic differ)) refl
  ]

  abbrev pub given : Option M → List M → List M
  given none rest = rest
  given (some m) rest = m ∷ rest

  -- what a consumer is given in so many rounds of its generator's loop, where no one else calls the
  -- transport
  unfoldable pub received : ℕ → ℕ → InMemory M → List M
  unfolding take
  received zero q t = []
  received (suc rounds) q t =
      let rest = received rounds q (take q t).0 in if t.running then given (take q t).1 rest else []

  take_nothing : (q : ℕ) (t : InMemory M) → t.store q ≡ [] → take q t ≡ (t, none)
  unfolding take
  take_nothing q t e = rw (e, take) refl

  abbrev rest_of : ℕ → List M → InMemory M → InMemory M
  rest_of q ms t = record t { store = λ j. if nat_eq q j then ms else t.store j }

  take_oldest :
      (q : ℕ) (t : InMemory M) (m : M) (ms : List M)
      → t.store q ≡ m ∷ ms
      → take q t ≡ (rest_of q ms t, some m)
  unfolding take
  take_oldest q t m ms e = rw (e, take) refl

  received_up :
      (rounds q : ℕ) (t : InMemory M)
      → t.running ≡ true
      → received (suc rounds) q t ≡ given (take q t).1 (received rounds q (take q t).0)
  unfolding received
  received_up rounds q t up = ground arith

  -- A consumer that has a round for each message of its queue is given them all, oldest first.
  pub received_all :
      (rounds q : ℕ) (t : InMemory M) (ms : List M)
      → t.running ≡ true
      → t.store q ≡ ms
      → length ms ≤ rounds
      → received rounds q t ≡ ms
  unfolding received
  received_all zero q t [] up e h = refl
  received_all zero q t (m ∷ ms) up e h = absurd (omega (arith, h))
  received_all (suc rounds) q t [] up e h =
      received_up rounds q t up
      ∙ ap (λ r. given r.1 (received rounds q r.0)) (take_nothing q t e)
      ∙ received_all rounds q t [] up e (omega arith)
  received_all (suc rounds) q t (m ∷ ms) up e h =
      received_up rounds q t up
      ∙ ap (λ r. given r.1 (received rounds q r.0)) (take_oldest q t m ms e)
      ∙ ap (λ l. m ∷ l)
          (received_all rounds q (rest_of q ms t) ms up (ground arith) (omega (arith, h)))

  pub running-publish :
      (topic : String) (m : M) (t : InMemory M) → (publish topic m t).running ≡ t.running
  unfolding publish
  running-publish topic m t = ground arith
