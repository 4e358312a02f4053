-- ===== src/InMemory/Subscribed.antt =====
-- Whose queue a subscription makes: what the calls on a transport leave of the numbers not given out.
use aqap.Prelude.{
  ℕ, ◌+◌, ◌≤◌, String, List, [], ◌∷◌, ◌++◌, if◌then◌else◌, ◌≡◌, refl, arith, ap, get, put, get-put,
  Option-cases, Bool-cases, inl, inr, ◌==◌,
}
use text.Mathlib.TextEquality.{eq_iff}
use text.Mathlib.TextPositions.{eq_refl}
use aqap.InMemory.{
  groups_of, queues_of, InMemory, add_consumer, init, publish, connect, disconnect, create_group,
  subscribe, take, unsubscribe, ack,
}
use aqap.InMemory.Fanout.{store-publish}
use aqap.InMemory.Inbox.{Owns, firsts-Elsewhere, groups-publish}
use aqap.InMemory.Numbering.{
  AllBelow, Below, AllBelow-append, AllBelow-suc, AllBelow-remove_consumer, Below-Elsewhere,
  Below-suc, Below-rotate, Below-put, Below-get, put-Alone, with_group, Below-with_group,
  get-with_group,
}
use aqap.InMemory.Shutdown.{
  Op, publishes, connects, disconnects, acks, creates_group, subscribes, receives, unsubscribes,
  run_op, run,
}

module _ {M : Type 0} where
  -- Numbers that were not given out are in no group, and their queues are empty.
  abbrev pub IsFresh : InMemory M → Type 0
  IsFresh t =
      ((k : String) → Below t.next_queue (groups_of (get k t.groups)))
      × ((j : ℕ) → t.next_queue ≤ j → t.store j ≡ [])

le_of_add_one : (n j : ℕ) → n + 1 ≤ j → n ≤ j
le_of_add_one n j l = omega (arith, l)

module _ {M : Type 0} where
  groups-create_group :
      (topic group k : String) (t : InMemory M)
      → groups_of (get k (create_group topic group t).groups) ≡ (
          if topic == k
          then with_group group (groups_of (get topic t.groups))
          else groups_of (get k t.groups))
  unfolding create_group
  groups-create_group topic group k t = rw get-put (ground (arith, eq_iff topic k))

  groups-subscribe :
      (topic group k : String) (t : InMemory M)
      → groups_of (get k (subscribe topic group t).0.groups) ≡ (
          if topic == k
          then (let gs = with_group group (groups_of (get topic t.groups)) in
              put group
                (queues_of (get group (groups_of (get topic t.groups))) ++ t.next_queue ∷ [])
                gs)
          else groups_of (get k t.groups))
  unfolding subscribe add_consumer create_group
  groups-subscribe topic group k t = elim (Bool-cases (topic == k)) [
    | inl same ↦
        let gs = groups_of (get topic t.groups) in
        rw (get-put, same, get-put, eq_refl topic)
          (ap (λ gq. put group (gq ++ t.next_queue ∷ []) (with_group group gs))
            (get-with_group group gs))
    | inr differ ↦ rw (get-put, differ, get-put, differ) refl
  ]

  create_group-IsFresh :
      (topic group : String) (t : InMemory M) → IsFresh t → IsFresh (create_group topic group t)
  create_group-IsFresh topic group t (below, empty) = (
    λ k. elim (Bool-cases (topic == k)) [
      | inl same ↦
          rw (groups-create_group, same)
            (unfold create_group in Below-with_group _ group _ (below topic))
      | inr differ ↦ rw (groups-create_group, differ) (unfold create_group in below k)
    ],
    unfold create_group in empty,
  )

  subscribe-IsFresh :
      (topic group : String) (t : InMemory M) → IsFresh t → IsFresh (subscribe topic group t).0
  subscribe-IsFresh topic group t (below, empty) = (
    λ k. elim (Bool-cases (topic == k)) [
      | inl same ↦
          rw (groups-subscribe, same)
            (unfold subscribe in
              Below-put _ group _ _
                (AllBelow-append _ t.next_queue _
                  (AllBelow-suc _ _ (Below-get _ group _ (below topic))) (omega arith))
                (Below-suc _ _ (Below-with_group _ group _ (below topic))))
      | inr differ ↦ rw (groups-subscribe, differ) (unfold subscribe in Below-suc _ _ (below k))
    ],
    λ j l. unfold subscribe create_group in (empty j (le_of_add_one t.next_queue j l)),
  )

  next_queue-publish :
      (topic : String) (m : M) (t : InMemory M) → (publish topic m t).next_queue ≡ t.next_queue
  unfolding publish
  next_queue-publish topic m t = ground arith

  publish-IsFresh :
      (topic : String) (m : M) (t : InMemory M) → IsFresh t → IsFresh (publish topic m t)
  publish-IsFresh topic m t (below, empty) = (
    λ k. rw next_queue-publish (elim (Bool-cases (topic == k)) [
      | inl same ↦ rw (groups-publish, same) (Below-rotate _ _ (below k))
      | inr differ ↦ rw (groups-publish, differ) (below k)
    ]),
    λ j l.
        let given_out : t.next_queue ≤ j = rw next_queue-publish at l in
        rw
          (
            store-publish,
            empty j given_out,
            firsts-Elsewhere j _ (Below-Elsewhere _ j _ (below topic) given_out),
          )
          refl,
  )

  take_keeps :
      (q : ℕ) (t : InMemory M)
      → ((take q t).0.next_queue ≡ t.next_queue) × ((take q t).0.groups ≡ t.groups)
  unfolding take
  take_keeps q t = (ground arith, ground arith)

  store-take : (q j : ℕ) (t : InMemory M) → t.store j ≡ [] → (take q t).0.store j ≡ []
  unfolding take
  store-take q j t e = ground (arith, e)

  take-IsFresh : (q : ℕ) (t : InMemory M) → IsFresh t → IsFresh (take q t).0
  take-IsFresh q t (below, empty) = (
    λ k. rw ((take_keeps q t).0, (take_keeps q t).1) (below k),
    λ j l. store-take q j t (empty j (rw (take_keeps q t).0 at l)),
  )

  unsubscribe_keeps :
      (topic group : String) (q : ℕ) (t : InMemory M)
      → ((unsubscribe topic group q t).next_queue ≡ t.next_queue)
        × ((unsubscribe topic group q t).store ≡ t.store)
  unfolding unsubscribe
  unsubscribe_keeps topic group q t = (ground arith, ground arith)

  Below-unsubscribe :
      (topic group : String) (q : ℕ) (t : InMemory M) (n : ℕ)
      → ((k : String) → Below n (groups_of (get k t.groups)))
      → (k : String) → Below n (groups_of (get k (unsubscribe topic group q t).groups))
  unfolding unsubscribe
  Below-unsubscribe topic group q t n below k = elim (Option-cases (get topic t.groups)) [
    | inl e ↦ rw (e, unsubscribe) (below k)
    | inr (gs, e) ↦ elim (Option-cases (get group gs)) [
      | inl f ↦ rw (e, unsubscribe) (rw (f, unsubscribe) (below k))
      | inr (gq, f) ↦
          let b : Below n gs = rw e at (below topic) in
          let c : AllBelow n gq = rw f at (Below-get n group gs b) in
          elim (Bool-cases (topic == k)) [
            | inl same ↦
                rw (e, unsubscribe, f, get-put, same)
                  (Below-put n group _ gs (AllBelow-remove_consumer n q gq c) b)
            | inr differ ↦ rw (e, unsubscribe, f, get-put, differ) (below k)
          ]
    ]
  ]

  unsubscribe-IsFresh :
      (topic group : String) (q : ℕ) (t : InMemory M)
      → IsFresh t
      → IsFresh (unsubscribe topic group q t)
  unsubscribe-IsFresh topic group q t (below, empty) = (
    λ k. rw (unsubscribe_keeps topic group q t).0 (Below-unsubscribe topic group q t _ below k),
    λ j l.
        rw (unsubscribe_keeps topic group q t).1
          (empty j (rw (unsubscribe_keeps topic group q t).0 at l)),
  )

  run_op-IsFresh : (t : InMemory M) (op : Op M) → IsFresh t → IsFresh (run_op t op)
  unfolding run_op
  run_op-IsFresh t (publishes topic m) h = publish-IsFresh topic m t h
  run_op-IsFresh t connects h = unfold connect in h
  run_op-IsFresh t disconnects h = unfold disconnect in h
  run_op-IsFresh t acks h = unfold ack in h
  run_op-IsFresh t (creates_group topic group) h = create_group-IsFresh topic group t h
  run_op-IsFresh t (subscribes topic group) h = subscribe-IsFresh topic group t h
  run_op-IsFresh t (receives q) h = take-IsFresh q t h
  run_op-IsFresh t (unsubscribes topic group q) h = unsubscribe-IsFresh topic group q t h

  -- Whatever is called on a new transport: the numbers that it has not given out are in no group, and
  -- their queues are empty.
  pub run-IsFresh : (ops : List (Op M)) (t : InMemory M) → IsFresh t → IsFresh (run t ops)
  unfolding run
  run-IsFresh [] t h = h
  run-IsFresh (op ∷ ops) t h = run-IsFresh ops (run_op t op) (run_op-IsFresh t op h)

  pub init-IsFresh : IsFresh (init {M = M})
  unfolding get
  init-IsFresh = (λ k. tt, λ j l. refl)

  -- A subscription to a topic's group without a consumer, on a transport that has not given out its
  -- next number, makes a queue that the consumer has for itself.
  pub subscribe-Owns :
      (topic group : String) (t : InMemory M)
      → IsFresh t
      → queues_of (get group (groups_of (get topic t.groups))) ≡ []
      → Owns t.next_queue topic (subscribe topic group t).0
  subscribe-Owns topic group t (below, empty) none_yet = (
    rw (groups-subscribe, eq_refl topic, none_yet)
        (put-Alone _ group _
          (Below-Elsewhere _ _ _ (Below-with_group _ group _ (below topic)) (omega arith))),
    λ k n. rw (groups-subscribe, n) (Below-Elsewhere _ _ _ (below k) (omega arith)),
  )
