-- ===== src/InMemory/RoundRobin.antt =====
-- How a group's consumers share messages.
use aqap.Prelude.{ℕ, List, [], ◌∷◌, ◌++◌, ◌≡◌, ◌≢◌, refl, arith, All, length, ap, ◌∙◌}
use mathlib.Core.Path.{subst}
use mathlib.Core.List.{append_assoc, append-nil}
use aqap.InMemory.{GroupQueue, Store, enqueue, publish_group}

-- No consumer has its queue twice in the group.
abbrev pub IsDistinct : GroupQueue → Type 0
IsDistinct [] = Unit
IsDistinct (q ∷ gq) = All (λ p. q ≢ p) gq × IsDistinct gq

module _ {M : Type 0} where
  -- messages published one after another to one group
  pub publish_each : List M → GroupQueue → Store M → GroupQueue × Store M
  publish_each [] gq store = (gq, store)
  publish_each (m ∷ ms) gq store = let r = publish_group m gq store in publish_each ms r.0 r.1

  -- The first queue has the first message at its end, the second the second, and so on.
  abbrev pub Served : List M → GroupQueue → Store M → Store M → Type 0
  Served [] [] before after = Unit
  Served [] (q ∷ gq) before after = ⊥
  Served (m ∷ ms) [] before after = ⊥
  Served (m ∷ ms) (q ∷ gq) before after = (after q ≡ before q ++ m ∷ []) × Served ms gq before after

  deliver : List M → GroupQueue → Store M → Store M
  deliver [] gq store = store
  deliver (m ∷ ms) [] store = store
  deliver (m ∷ ms) (q ∷ gq) store = deliver ms gq (enqueue q m store)

  publish_each-append :
      (ms : List M) (gq rest : GroupQueue) (store : Store M)
      → length ms ≡ length gq
      → publish_each ms (gq ++ rest) store ≡ (rest ++ gq, deliver ms gq store)
  unfolding publish_each deliver publish_group
  publish_each-append [] [] rest store h = rw append-nil
  publish_each-append [] (q ∷ gq) rest store h = absurd (omega arith)
  publish_each-append (m ∷ ms) [] rest store h = absurd (omega arith)
  publish_each-append (m ∷ ms) (q ∷ gq) rest store h = rw append_assoc (
      publish_each-append ms gq (rest ++ q ∷ []) (enqueue q m store) (omega arith)
      ∙ ap (λ l. (l, deliver ms gq (enqueue q m store))) (append_assoc rest (q ∷ []) gq))

  deliver_other :
      (ms : List M) (gq : GroupQueue) (store : Store M) (j : ℕ)
      → All (λ p. j ≢ p) gq
      → deliver ms gq store j ≡ store j
  unfolding deliver enqueue
  deliver_other [] gq store j h = refl
  deliver_other (m ∷ ms) [] store j h = refl
  deliver_other (m ∷ ms) (q ∷ gq) store j (n, h) =
      deliver_other ms gq (enqueue q m store) j h ∙ ground arith

  Served-enqueue :
      (ms : List M) (gq : GroupQueue) (q : ℕ) (m : M) (before after : Store M)
      → All (λ p. q ≢ p) gq
      → Served ms gq (enqueue q m before) after
      → Served ms gq before after
  unfolding enqueue
  Served-enqueue [] [] q m before after n s = tt
  Served-enqueue [] (p ∷ gq) q m before after n s = s
  Served-enqueue (x ∷ ms) [] q m before after n s = s
  Served-enqueue (x ∷ ms) (p ∷ gq) q m before after (n, ns) (s, ss) =
      (ground arith, Served-enqueue ms gq q m before after ns ss)

  Served-deliver :
      (ms : List M) (gq : GroupQueue) (store : Store M)
      → IsDistinct gq
      → length ms ≡ length gq
      → Served ms gq store (deliver ms gq store)
  unfolding deliver
  Served-deliver [] [] store d h = tt
  Served-deliver [] (q ∷ gq) store d h = absurd (omega arith)
  Served-deliver (m ∷ ms) [] store d h = absurd (omega arith)
  Served-deliver (m ∷ ms) (q ∷ gq) store (n, d) h = (
    deliver_other ms gq (enqueue q m store) q n ∙ unfold enqueue in ground arith,
    Served-enqueue ms gq q m store _ n (Served-deliver ms gq (enqueue q m store) d (omega arith)),
  )

  -- One message for each consumer of a group whose queues are distinct: each gets one, in turn, and
  -- the turn is back at the first.
  pub publish_each_lem :
      (ms : List M) (gq : GroupQueue) (store : Store M)
      → IsDistinct gq
      → length ms ≡ length gq
      → ((publish_each ms gq store).0 ≡ gq) × Served ms gq store (publish_each ms gq store).1
  publish_each_lem ms gq store d h =
      let e : publish_each ms gq store ≡ (gq, deliver ms gq store) =
        subst (λ l. publish_each ms l store ≡ (gq, deliver ms gq store)) (append-nil gq)
          (publish_each-append ms gq [] store h) in
      rw e (refl, Served-deliver ms gq store d h)
