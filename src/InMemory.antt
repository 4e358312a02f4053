-- ===== src/InMemory.antt =====
-- aqap/transport/inmemory.py. An `asyncio.Queue` is an object with an identity: the transport holds
-- queue numbers, and the store holds what each queue contains. `topic` is the topic's text.
pub mod RoundRobin
pub mod Fanout
pub mod Shutdown
pub mod Inbox
pub mod Numbering
pub mod Subscribed
use aqap.Prelude.{
  ℕ, ◌+◌, String, Bool, true, false, Option, none, some, List, [], ◌∷◌, ◌++◌, if◌then◌else◌, nat_eq,
  Dict, get, has, put,
}

-- the queues of the consumers, the next one to be served first
abbrev pub GroupQueue : Type 0
GroupQueue = List ℕ

abbrev pub Store : Type 0 → Type 0
Store M = ℕ → List M

pub record InMemory (M : Type 0) : Type 0 where
  pub groups : Dict (Dict GroupQueue)
  pub running : Bool
  pub store : Store M
  pub next_queue : ℕ

-- q.put(message); the queues are unbounded
unfoldable pub enqueue : {M : Type 0} → ℕ → M → Store M → Store M
enqueue q m store j = if nat_eq q j then store j ++ m ∷ [] else store j

unfoldable pub add_consumer : ℕ → GroupQueue → GroupQueue
add_consumer q gq = gq ++ q ∷ []

-- the first occurrence
unfoldable pub remove_consumer : ℕ → GroupQueue → GroupQueue
remove_consumer q [] = []
remove_consumer q (p ∷ gq) = if nat_eq p q then gq else p ∷ remove_consumer q gq

abbrev pub groups_of : Option (Dict GroupQueue) → Dict GroupQueue
groups_of none = []
groups_of (some gs) = gs

abbrev pub queues_of : Option GroupQueue → GroupQueue
queues_of none = []
queues_of (some gq) = gq

module _ {M : Type 0} where
  abbrev pub init : InMemory M
  init = record { groups = []; running = true; store = λ q. []; next_queue = 0 }

  -- _GroupQueue.publish
  unfoldable pub publish_group : M → GroupQueue → Store M → GroupQueue × Store M
  publish_group m [] store = ([], store)
  publish_group m (q ∷ gq) store = (gq ++ q ∷ [], enqueue q m store)

  -- `for group_name, gq in topic_groups.items()`
  unfoldable pub publish_groups : M → Dict GroupQueue → Store M → Dict GroupQueue × Store M
  unfolding publish_group
  publish_groups m [] store = ([], store)
  publish_groups m ((name, gq) ∷ rest) store =
      let (gq', store') = publish_group m gq store in
      let (rest', store'') = publish_groups m rest store' in ((name, gq') ∷ rest', store'')

  -- InMemoryTransport.publish; with no group the message is dropped
  unfoldable pub publish : String → M → InMemory M → InMemory M
  unfolding publish_groups get put
  publish topic m t = elim (get topic t.groups) [
    | none ↦ t
    | some gs ↦
        let (gs', store') = publish_groups m gs t.store in
        record t { groups = put topic gs' t.groups; store = store' }
  ]

  unfoldable pub connect : InMemory M → InMemory M
  connect t = t

  unfoldable pub disconnect : InMemory M → InMemory M
  disconnect t = record t { running = false }

  unfoldable pub create_group : String → String → InMemory M → InMemory M
  unfolding get has put
  create_group topic group t =
      let gs = groups_of (get topic t.groups) in
      record t { groups = put topic (if has group gs then gs else put group [] gs) t.groups }

  -- what the generator does before its first `yield`; the result is the consumer's queue
  unfoldable pub subscribe : String → String → InMemory M → InMemory M × ℕ
  unfolding create_group add_consumer
  subscribe topic group t =
      let t' = create_group topic group t in
      let gs = groups_of (get topic t'.groups) in
      (
        record t' {
          groups =
              put topic (put group (add_consumer t.next_queue (queues_of (get group gs))) gs)
                t'.groups;
          next_queue = t.next_queue + 1;
        },
        t.next_queue,
      )

  -- The end of a wait for the queue, in a loop that has tested `running` before the wait: the oldest
  -- message of the queue is yielded, or nothing came within the second (`none`).
  unfoldable pub take : ℕ → InMemory M → InMemory M × Option M
  take q t = elim (t.store q) [
    | [] ↦ (t, none)
    | m ∷ ms ↦ (record t { store = λ j. if nat_eq q j then ms else t.store j }, some m)
  ]

  -- the generator's `finally`
  unfoldable pub unsubscribe : String → String → ℕ → InMemory M → InMemory M
  unfolding remove_consumer get put
  unsubscribe topic group q t = elim (get topic t.groups) [
    | none ↦ t
    | some gs ↦ elim (get group gs) [
      | none ↦ t
      | some gq ↦ record t { groups = put topic (put group (remove_consumer q gq) gs) t.groups }
    ]
  ]

  -- InMemory needs no acknowledgement
  unfoldable pub ack : InMemory M → InMemory M
  ack t = t
