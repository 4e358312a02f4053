-- ===== src/InMemory/Shutdown.antt =====
-- The transport after one of its users has disconnected it.
use aqap.Prelude.{ℕ, String, false, if◌then◌else◌, ◌++◌, ◌∙◌, List, [], ◌∷◌, ◌≡◌, refl, arith}
use aqap.InMemory.Inbox.{given}
use aqap.InMemory.{
  InMemory, publish, connect, disconnect, create_group, subscribe, take, unsubscribe, ack,
}

-- what the agents that share the transport may call
pub data Op (M : Type 0) : Type 0 where
  publishes : String → M → Op M
  connects disconnects acks : Op M
  creates_group subscribes : String → String → Op M
  -- the end of a consumer's wait
  receives : ℕ → Op M
  unsubscribes : String → String → ℕ → Op M

module _ {M : Type 0} where
  unfoldable pub run_op : InMemory M → Op M → InMemory M
  run_op t (publishes topic m) = publish topic m t
  run_op t connects = connect t
  run_op t disconnects = disconnect t
  run_op t acks = ack t
  run_op t (creates_group topic group) = create_group topic group t
  run_op t (subscribes topic group) = (subscribe topic group t).0
  run_op t (receives q) = (take q t).0
  run_op t (unsubscribes topic group q) = unsubscribe topic group q t

  unfoldable pub run : InMemory M → List (Op M) → InMemory M
  unfolding run_op
  run t [] = t
  run t (op ∷ ops) = run (run_op t op) ops

  down_step : (t : InMemory M) (op : Op M) → t.running ≡ false → (run_op t op).running ≡ false
  unfolding run_op publish connect disconnect create_group subscribe take unsubscribe ack
  down_step t (publishes topic m) h = ground arith
  down_step t (unsubscribes topic group q) h = ground arith
  down_step t (receives q) h = ground arith
  down_step t disconnects h = refl
  down_step t _ h = h

  down_run : (t : InMemory M) (ops : List (Op M)) → t.running ≡ false → (run t ops).running ≡ false
  unfolding run
  down_run t [] h = h
  down_run t (op ∷ ops) h = down_run (run_op t op) ops (down_step t op h)

  running-take : (q : ℕ) (t : InMemory M) → (take q t).0.running ≡ t.running
  unfolding take
  running-take q t = ground arith

  run-append :
      (t : InMemory M) (ops later : List (Op M)) → run t (ops ++ later) ≡ run (run t ops) later
  unfolding run
  run-append t [] later = refl
  run-append t (op ∷ ops) later = run-append (run_op t op) ops later

  -- What a consumer is given. The list says, for each of its waits, what is called on the transport
  -- between the loop's test of `running` and the end of the wait.
  unfoldable pub listen : ℕ → List (List (Op M)) → InMemory M → List M
  unfolding take run
  listen q [] t = []
  listen q (ops ∷ waits) t =
      let (t', m) = take q (run t ops) in
      let rest = listen q waits t' in if t.running then given m rest else []

  listen_down :
      (q : ℕ) (waits : List (List (Op M))) (t : InMemory M)
      → t.running ≡ false
      → listen q waits t ≡ []
  unfolding listen
  listen_down q [] t down = refl
  listen_down q (ops ∷ waits) t down = ground arith

  down_after :
      (t : InMemory M) (before after : List (Op M))
      → (run t (before ++ disconnects ∷ after)).running ≡ false
  unfolding run run_op disconnect
  down_after t before after = rw run-append (down_run (disconnect (run t before)) after refl)

  listen_last :
      (q : ℕ) (ops : List (Op M)) (waits : List (List (Op M))) (t : InMemory M)
      → (run t ops).running ≡ false
      → listen q (ops ∷ waits) t ≡ (if t.running then given (take q (run t ops)).1 [] else [])
  unfolding listen
  listen_last q ops waits t down =
      rw (listen_down q waits (take q (run t ops)).0 (running-take q (run t ops) ∙ down)) refl

  -- A consumer that tests `running` after the transport has been disconnected is given nothing, not
  -- from a queue that holds messages, not after publications and new subscriptions, and not after
  -- `connect`. A consumer that was waiting when it was disconnected is given what that wait brings, a
  -- message that came after the disconnection included, and nothing more.
  pub receive_after_disconnect :
      (t : InMemory M) (before after : List (Op M)) (waits : List (List (Op M))) (q : ℕ)
      → (listen q waits (run (disconnect t) after) ≡ [])
        × (listen q ((before ++ disconnects ∷ after) ∷ waits) t ≡ (
            if t.running then given (take q (run t (before ++ disconnects ∷ after))).1 [] else []))
  receive_after_disconnect t before after waits q = (
    listen_down q waits _ (down_run (disconnect t) after (unfold disconnect in refl)),
    listen_last q (before ++ disconnects ∷ after) waits t (down_after t before after),
  )
