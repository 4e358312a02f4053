-- ===== src/Sdk/Consumer/Pending.antt =====
-- `_claim_pending` of sdk/aqap_sdk/consumer.py, and what becomes of the deliveries that failed.
use mathlib.Core.List.{append_assoc, append-nil}
use aqap.Prelude.{
  ℕ, ◌<◌, String, Bool, ◌&&◌, Option, none, some, List, [], ◌∷◌, ◌++◌, All, ok, leb, ltb, keep, map,
  Exec, return, ◌>>=◌, ◌>>◌, ◌≡◌, refl, arith,
}
use aqap.Sdk.Consumer.{
  Delivery, PendingEntry, Call, claimed, acked, Consumer, ConsumerState, call, on_world, xack,
  process_message,
}

abbrev or_zero : Option ℕ → ℕ
or_zero none = 0
or_zero (some n) = n

abbrev pub ids_of : List PendingEntry → List String
ids_of ps = map (λ (p : PendingEntry). p.message_id) ps

module _ {W : Type 0} where
  abbrev pub is_stale : Consumer W → PendingEntry → Bool
  is_stale c p = leb c.max_retries (or_zero p.times_delivered)

  abbrev pub is_claimable : Consumer W → PendingEntry → Bool
  is_claimable c p =
      leb c.claim_interval (or_zero p.elapsed_time) && ltb (or_zero p.times_delivered) c.max_retries

  unfoldable pub ack_all : Consumer W → List String → Exec (ConsumerState W) (Unit {0})
  unfolding xack ◌>>=◌
  ack_all c [] = return tt
  ack_all c (mid ∷ stale_ids) = do xack c mid; ack_all c stale_ids

  -- the claimed messages are not counted as received
  unfoldable pub process_all : Consumer W → List Delivery → ConsumerState W → ConsumerState W
  unfolding process_message
  process_all c [] s = s
  process_all c ((msg_id, msg_data) ∷ messages) s =
      process_all c messages (process_message c msg_id msg_data s)

  unfoldable pub claim : Consumer W → List String → Exec (ConsumerState W) (Unit {0})
  unfolding process_all ◌>>=◌
  claim c [] = return tt
  claim c (mid ∷ mids) = do
    (λ s. call s.faults (claimed c.topic c.group c.consumer_id c.claim_interval (mid ∷ mids)) s)
    messages ← on_world (c.xclaim c.claim_interval (mid ∷ mids))
    (λ s. (ok tt, process_all c messages s))

  unfoldable pub claim_pending : Consumer W → Exec (ConsumerState W) (Unit {0})
  unfolding ack_all claim ◌>>=◌
  claim_pending c = do
    pending ← on_world (c.xpending_range 10)
    ack_all c (ids_of (keep (is_stale c) pending))
    claim c (ids_of (keep (is_claimable c) pending))

  abbrev acks_of : Consumer W → List String → List Call
  acks_of c ids = map (acked c.topic c.group) ids

  ack_all_lem :
      (c : Consumer W) (ids : List String) (s : ConsumerState W)
      → s.faults ≡ []
      → ack_all c ids s ≡ (ok tt, record s { log = s.log ++ acks_of c ids })
  unfolding ack_all xack ◌>>=◌
  ack_all_lem c [] s calm = rw (append-nil {0} s.log) refl
  ack_all_lem c (mid ∷ ids) s calm =
      let t = record s { log = s.log ++ acked c.topic c.group mid ∷ []; faults = [] } in
      rw
        (
          calm,
          ack_all_lem c ids t refl,
          append_assoc s.log (acked c.topic c.group mid ∷ []) (acks_of c ids),
        )
        refl

  nothing_claimable :
      (c : Consumer W) (pending : List PendingEntry)
      → 0 < c.claim_interval
      → All (λ (p : PendingEntry). p.elapsed_time ≡ none) pending
      → keep (is_claimable c) pending ≡ []
  nothing_claimable c [] h k = refl
  nothing_claimable c (p ∷ pending) h (e, k) = ground (arith, nothing_claimable c pending h k)

  -- Where the transport raises nothing, claim_interval is positive and no entry of XPENDING has an
  -- elapsed_time, as redis-py documents them, _claim_pending claims and handles nothing: it
  -- acknowledges the entries delivered at least max_retries times, in order, and does no more.
  pub claim_pending_lem :
      (c : Consumer W) (s : ConsumerState W) (pending : List PendingEntry) (w : W)
      → c.xpending_range 10 s.world ≡ (ok pending, w)
      → s.faults ≡ []
      → 0 < c.claim_interval
      → All (λ (p : PendingEntry). p.elapsed_time ≡ none) pending
      → claim_pending c s ≡ (
        ok tt,
        record s { log = s.log ++ acks_of c (ids_of (keep (is_stale c) pending)); world = w },
      )
  unfolding claim_pending claim ◌>>=◌
  claim_pending_lem c s pending w read calm h undated =
      rw
        (
          read,
          ack_all_lem c (ids_of (keep (is_stale c) pending)) (record s { world = w }) calm,
          nothing_claimable c pending h undated,
        )
        refl
