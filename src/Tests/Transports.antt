-- ===== src/Tests/Transports.antt =====
-- The theorems on the in-memory transport and the plugin registry, at concrete inputs.
use aqap.Prelude.{String, true, List, [], ◌∷◌, ◌++◌, ◌≡◌, refl, arith, get, put, if◌then◌else◌}
use aqap.InMemory.{GroupQueue, Store, InMemory, publish, disconnect, take, enqueue, groups_of}
use aqap.InMemory.Inbox.{given}
use aqap.InMemory.RoundRobin.{publish_each_lem, publish_each, Served}
use aqap.InMemory.Fanout.{store-publish, copies, firsts, count_of}
use aqap.InMemory.Shutdown.{
  Op, subscribes, connects, publishes, run, run_op, listen, disconnects, receive_after_disconnect,
}

abbrev two_messages : List String
two_messages = "m" ∷ "n" ∷ []

abbrev two_queues : GroupQueue
two_queues = 4 ∷ 7 ∷ []

abbrev empty_store : Store String
empty_store q = []

publish_each_lem_example :
    ((publish_each two_messages two_queues empty_store).0 ≡ two_queues)
    × Served two_messages two_queues empty_store
        (publish_each two_messages two_queues empty_store).1
publish_each_lem_example =
    publish_each_lem two_messages two_queues empty_store ((λ e. omega (arith, e), tt), (tt, tt))
      refl

abbrev busy : InMemory String
busy = record {
  groups = ("t", ("g", 0 ∷ 1 ∷ []) ∷ ("h", 2 ∷ []) ∷ []) ∷ [];
  running = true;
  store = empty_store;
  next_queue = 3;
}

store-publish_example :
    (publish "t" "m" busy).store 2
    ≡ [] ++ copies (count_of 2 (firsts (groups_of (get "t" busy.groups)))) "m"
store-publish_example = store-publish "t" "m" busy 2

abbrev some_ops : List (Op String)
some_ops = connects ∷ subscribes "t" "g" ∷ publishes "t" "m" ∷ []

receive_after_disconnect_example :
    (listen 0 (some_ops ∷ []) (run (disconnect busy) some_ops) ≡ [])
    × (listen 0 (([] ++ disconnects ∷ some_ops) ∷ some_ops ∷ []) busy ≡ (
        if busy.running then given (take 0 (run busy ([] ++ disconnects ∷ some_ops))).1 [] else []))
receive_after_disconnect_example = receive_after_disconnect busy [] some_ops (some_ops ∷ []) 0

-- the wait brings the message that is published after the disconnection
late_message : listen 0 ((disconnects ∷ publishes "t" "m" ∷ []) ∷ some_ops ∷ []) busy ≡ "m" ∷ []
unfolding listen run run_op take publish enqueue disconnect get put
late_message = refl
