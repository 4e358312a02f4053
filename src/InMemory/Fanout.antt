-- ===== src/InMemory/Fanout.antt =====
-- What a publication does to the queues.
use aqap.Prelude.{
  ℕ, zero, suc, String, List, [], ◌∷◌, ◌++◌, if◌then◌else◌, nat_eq, ◌≡◌, refl, arith, ap, sym, ◌∙◌,
  Dict, get, Option, Option-cases, none, some, inl, inr,
}
use mathlib.Core.List.{append_assoc, append-nil}
use aqap.InMemory.{groups_of, GroupQueue, InMemory, Store, enqueue, publish_groups, publish}

-- The number of a queue that a publication serves: the first of the group.
abbrev first : GroupQueue → Option ℕ
first [] = none
first (q ∷ gq) = some q

-- the queues that a publication to the groups serves
abbrev pub firsts : Dict GroupQueue → List ℕ
firsts [] = []
firsts ((name, []) ∷ rest) = firsts rest
firsts ((name, q ∷ gq) ∷ rest) = q ∷ firsts rest

abbrev pub count_of : ℕ → List ℕ → ℕ
count_of j [] = 0
count_of j (q ∷ qs) = if nat_eq q j then suc (count_of j qs) else count_of j qs

abbrev pub copies : {M : Type 0} → ℕ → M → List M
copies zero m = []
copies (suc n) m = m ∷ copies n m

-- the first queue of each group moved to its end
abbrev pub rotate_all : Dict GroupQueue → Dict GroupQueue
rotate_all [] = []
rotate_all ((name, []) ∷ rest) = (name, []) ∷ rotate_all rest
rotate_all ((name, q ∷ gq) ∷ rest) = (name, gq ++ q ∷ []) ∷ rotate_all rest

module _ {M : Type 0} where
  append-copies :
      (n : ℕ) (m : M) (xs : List M) → (xs ++ m ∷ []) ++ copies n m ≡ xs ++ copies (suc n) m
  append-copies n m xs = append_assoc xs (m ∷ []) (copies n m)

  store-publish_groups :
      (m : M) (gs : Dict GroupQueue) (store : Store M) (j : ℕ)
      → (publish_groups m gs store).1 j ≡ store j ++ copies (count_of j (firsts gs)) m
  unfolding publish_groups enqueue
  store-publish_groups m [] store j = sym (append-nil _)
  store-publish_groups m ((name, []) ∷ rest) store j = store-publish_groups m rest store j
  store-publish_groups m ((name, q ∷ gq) ∷ rest) store j =
      store-publish_groups m rest (enqueue q m store) j
      ∙ ground (arith, append-copies (count_of j (firsts rest)) m (store j))

  -- A publication puts one copy of the message behind what is in the first queue of each group of
  -- the topic, for each group that has a queue, and leaves every other queue as it was; without a
  -- group of the topic the message is dropped.
  pub store-publish :
      (topic : String) (m : M) (t : InMemory M) (j : ℕ)
      → (publish topic m t).store j
        ≡ t.store j ++ copies (count_of j (firsts (groups_of (get topic t.groups)))) m
  unfolding publish
  store-publish topic m t j = elim (Option-cases (get topic t.groups)) [
    | inl e ↦ rw (e, publish) (sym (append-nil _))
    | inr (gs, e) ↦ rw (e, publish) (store-publish_groups m gs t.store j)
  ]

  pub groups-publish_groups :
      (m : M) (gs : Dict GroupQueue) (store : Store M)
      → (publish_groups m gs store).0 ≡ rotate_all gs
  unfolding publish_groups
  groups-publish_groups m [] store = refl
  groups-publish_groups m ((name, []) ∷ rest) store =
      ap (λ d. (name, []) ∷ d) (groups-publish_groups m rest store)
  groups-publish_groups m ((name, q ∷ gq) ∷ rest) store =
      ap (λ d. (name, gq ++ q ∷ []) ∷ d) (groups-publish_groups m rest (enqueue q m store))
