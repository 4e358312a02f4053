-- ===== src/Agent/DlqConsumer/Accounting.antt =====
-- The size of the index of dead letters, and the statistics.
use aqap.Prelude.{
  ℕ, ◌+◌, ◌-◌, ◌≤◌, String, Bool, not, Option, List, [], ◌∷◌, ◌++◌, leb, ltb, length, keep, ◌>>=◌,
  resume, Result-cases, ◌≡◌, refl, arith, length-drop, length-append, inl, inr,
}
use aqap.Value.{Value}
use aqap.Message.{Message, RawMessage, Fresh}
use aqap.Agent.DlqConsumer.{
  DeadLetter, DlqState, index_limit, last_of, append_letter, original_of, dead_letter,
  handle_message, is_match, publish, replay_letter, replay_all, settle, replay, cleanup_round,
}

pub record IsAccounted (s : DlqState) : Type 0 where
  pub bounded : length s.dead_letters ≤ index_limit
  pub accounted :
      length s.dead_letters + s.stats.replayed + s.stats.expired ≤ s.stats.total_dead_letters

-- what the consumer does over time
pub data Op : Type 0 where
  receives : ℕ → String → Message → Op
  replays : (ℕ → Fresh) → Option String → Option String → Op
  cleans : ℕ → ℕ → Op

unfoldable pub run_op : Op → DlqState → DlqState
run_op (receives now now_text m) s = (handle_message now now_text m s).1
run_op (replays draws message_id trace_id) s = (replay draws message_id trace_id s).1
run_op (cleans now ttl) s = cleanup_round now ttl s

unfoldable pub run : List Op → DlqState → DlqState
unfolding run_op
run [] s = s
run (op ∷ ops) s = run ops (run_op op s)

length-partition :
    (p : DeadLetter → Bool) (xs : List DeadLetter)
    → length (keep p xs) + length (keep (λ x. not (p x)) xs) ≡ length xs
length-partition p [] = refl
length-partition p (x ∷ xs) = ground (arith, length-partition p xs)

append_letter-IsAccounted :
    (letter : DeadLetter) (s : DlqState) → IsAccounted s → IsAccounted (append_letter letter s)
unfolding append_letter last_of
append_letter-IsAccounted letter s h =
    let letters = s.dead_letters ++ letter ∷ [] in
    ground (
      arith,
      h.bounded,
      h.accounted,
      length-append {0} s.dead_letters (letter ∷ []),
      length-drop {0} (length letters - index_limit) letters,
    )

-- the fields that the accounts are about
abbrev SameAccount : DlqState → DlqState → Type 0
SameAccount s t = (t.dead_letters ≡ s.dead_letters) × (t.stats ≡ s.stats)

publish-SameAccount :
    (topic : Value) (m : RawMessage) (s : DlqState) → SameAccount s (publish topic m s).1
unfolding publish
publish-SameAccount topic m s = ground arith

replay_letter-SameAccount :
    (f : Fresh) (letter : DeadLetter) (s : DlqState) → SameAccount s (replay_letter f letter s).1
unfolding replay_letter publish
replay_letter-SameAccount f letter s = ground arith

replay_all-SameAccount :
    (draws : ℕ → Fresh) (i : ℕ) (letters : List DeadLetter) (s : DlqState)
    → SameAccount s (replay_all draws i letters s).1
unfolding replay_all ◌>>=◌
replay_all-SameAccount draws i [] s = (refl, refl)
replay_all-SameAccount draws i (letter ∷ letters) s = ground (
  arith,
  replay_letter-SameAccount (draws i) letter s,
  replay_all-SameAccount draws (i + 1) letters (replay_letter (draws i) letter s).1,
)

expired-or-kept :
    (c : ℕ) (xs : List DeadLetter)
    → length (keep (λ l. ltb l.received_at c) xs) + length (keep (λ l. leb c l.received_at) xs)
      ≡ length xs
expired-or-kept c [] = refl
expired-or-kept c (x ∷ xs) = ground (arith, expired-or-kept c xs)

receives-IsAccounted :
    (now : ℕ) (now_text : String) (m : Message) (s : DlqState)
    → IsAccounted s
    → IsAccounted (handle_message now now_text m s).1
unfolding handle_message
receives-IsAccounted now now_text m s h = elim (Result-cases (original_of m.payload)) [
  | inl (original, e) ↦
      rw (e, handle_message) (append_letter-IsAccounted (dead_letter now now_text m original) s h)
  | inr (x, e) ↦ rw (e, handle_message) h
]

settle-IsAccounted :
    (p : DeadLetter → Bool) (s t : DlqState)
    → SameAccount s t
    → IsAccounted s
    → IsAccounted
        (settle (length (keep p s.dead_letters)) (keep (λ l. not (p l)) s.dead_letters) t).1
unfolding settle
settle-IsAccounted p s t (letters, stats) h = record {
  bounded = omega (arith, h.bounded, length-partition p s.dead_letters);
  accounted = rw stats (omega (arith, h.accounted, length-partition p s.dead_letters));
}

IsAccounted-same : (s t : DlqState) → SameAccount s t → IsAccounted s → IsAccounted t
IsAccounted-same s t (letters, stats) h = record {
  bounded = rw letters h.bounded;
  accounted = rw (letters, stats) h.accounted;
}

replays-IsAccounted :
    (draws : ℕ → Fresh) (message_id trace_id : Option String) (s : DlqState)
    → IsAccounted s
    → IsAccounted (replay draws message_id trace_id s).1
unfolding replay ◌>>=◌
replays-IsAccounted draws message_id trace_id s h =
    let p = is_match message_id trace_id in
    let r = replay_all draws 0 (keep p s.dead_letters) s in
    let same = replay_all-SameAccount draws 0 (keep p s.dead_letters) s in
    elim (Result-cases r.0) [
      | inl (_, e) ↦ rw (e, resume) (settle-IsAccounted p s r.1 same h)
      | inr (_, e) ↦ rw (e, resume) (IsAccounted-same s r.1 same h)
    ]

cleans-IsAccounted :
    (now ttl : ℕ) (s : DlqState) → IsAccounted s → IsAccounted (cleanup_round now ttl s)
unfolding cleanup_round
cleans-IsAccounted now ttl s h =
    ground (arith, h.bounded, h.accounted, expired-or-kept (now - ttl) s.dead_letters)

run_op-IsAccounted : (op : Op) (s : DlqState) → IsAccounted s → IsAccounted (run_op op s)
unfolding run_op
run_op-IsAccounted (receives now now_text m) s h = receives-IsAccounted now now_text m s h
run_op-IsAccounted (replays draws message_id trace_id) s h =
    replays-IsAccounted draws message_id trace_id s h
run_op-IsAccounted (cleans now ttl) s h = cleans-IsAccounted now ttl s h

-- From a state that is accounted for, whatever the consumer receives, replays and cleans, and
-- whichever calls of the transport raise: the index holds at most 5000 letters, and the letters in
-- it, those replayed and those expired are no more than those counted as received.
pub run-IsAccounted : (ops : List Op) (s : DlqState) → IsAccounted s → IsAccounted (run ops s)
unfolding run
run-IsAccounted [] s h = h
run-IsAccounted (op ∷ ops) s h = run-IsAccounted ops (run_op op s) (run_op-IsAccounted op s h)
