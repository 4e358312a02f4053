-- ===== src/Agent/DlqConsumer/Replay.antt =====
-- What `replay` publishes, and what is left when it raises.
use aqap.Prelude.{
  ℕ, ◌+◌, String, not, Option, List, [], ◌∷◌, ◌++◌, length, keep, ok, err, Exc, ◌>>=◌, ◌≡◌, ◌≢◌,
  refl, sym, ◌∙◌, arith, ap, ap₂, All, ◌⊎◌,
}
use mathlib.Core.List.{append_assoc, append-nil}
use aqap.Value.{Value, str, end, field, get_field_or}
use aqap.Message.{MessageType, RawMessage, Fresh, agent_probe}
use aqap.Agent.DlqConsumer.{
  DeadLetter, DlqState, original_type, is_match, replay_message, publish, replay_letter, replay_all,
  settle, replay,
}

-- the publication of one letter; a letter without an original has none
abbrev publication : Fresh → DeadLetter → List (Value × RawMessage)
publication f letter = elim letter.original_message [
  | end ↦ []
  | field k v rest ↦ elim (original_type letter.original_message) [
    | ok t ↦
        (get_field_or "topic" (str agent_probe) letter.original_message, replay_message f letter t)
        ∷ []
    | err e ↦ []
  ]
]

abbrev pub publications : (ℕ → Fresh) → ℕ → List DeadLetter → List (Value × RawMessage)
publications draws i [] = []
publications draws i (letter ∷ letters) =
    publication (draws i) letter ++ publications draws (i + 1) letters

-- The original is empty, or the enum has its type.
abbrev pub IsReplayable : DeadLetter → Type 0
IsReplayable letter =
    (letter.original_message ≡ end)
    ⊎ ((t : MessageType) × (original_type letter.original_message ≡ ok t))

replay_letter_calm :
    (f : Fresh) (letter : DeadLetter) (s : DlqState)
    → s.faults ≡ []
    → IsReplayable letter
    → replay_letter f letter s ≡ (ok tt, record s { log = s.log ++ publication f letter })
unfolding replay_letter publish ◌>>=◌
replay_letter_calm f letter s calm h = ground (arith, append-nil s.log)

replay_all-append :
    (draws : ℕ → Fresh) (i : ℕ) (good rest : List DeadLetter) (s : DlqState)
    → s.faults ≡ []
    → All IsReplayable good
    → replay_all draws i (good ++ rest) s
      ≡ replay_all draws
          (i + length good)
          rest
          (record s { log = s.log ++ publications draws i good })
unfolding replay_all ◌>>=◌
replay_all-append draws i [] rest s calm h =
    ap₂ (λ j l. replay_all draws j rest (record s { log = l })) (omega arith)
      (sym (append-nil s.log))
replay_all-append draws i (letter ∷ good) rest s calm (p, h) =
    let t : DlqState = record s { log = s.log ++ publication (draws i) letter } in
    rw (replay_letter_calm (draws i) letter s calm p) (
      replay_all-append draws (i + 1) good rest t calm h
      ∙ ap₂ (λ j l. replay_all draws j rest (record s { log = l })) (omega arith)
          (append_assoc s.log (publication (draws i) letter) (publications draws (i + 1) good)))

replay_all_calm :
    (draws : ℕ → Fresh) (good : List DeadLetter) (s : DlqState)
    → s.faults ≡ []
    → All IsReplayable good
    → replay_all draws 0 good s ≡ (ok tt, record s { log = s.log ++ publications draws 0 good })
replay_all_calm draws good s calm h =
    ap (λ l. replay_all draws 0 l s) (sym (append-nil good))
    ∙ (replay_all-append draws 0 good [] s calm h ∙ unfold replay_all in refl)

abbrev pub matching : Option String → Option String → List DeadLetter → List DeadLetter
matching message_id trace_id = keep (is_match message_id trace_id)

abbrev pub others : Option String → Option String → List DeadLetter → List DeadLetter
others message_id trace_id = keep (λ l. not (is_match message_id trace_id l))

-- Where the transport raises nothing and every matching letter has a type of the enum or no
-- original: `replay` publishes the matching letters in the order of the index, takes exactly
-- them out of it, and counts and returns their number, those without an original included.
pub replay_lem :
    (draws : ℕ → Fresh) (message_id trace_id : Option String) (s : DlqState)
    → s.faults ≡ []
    → All IsReplayable (matching message_id trace_id s.dead_letters)
    → (let found = matching message_id trace_id s.dead_letters in
        let r = replay draws message_id trace_id s in
        (r.0 ≡ ok (length found))
        × (r.1.log ≡ s.log ++ publications draws 0 found)
        × (r.1.dead_letters ≡ others message_id trace_id s.dead_letters)
        × (r.1.stats.replayed ≡ s.stats.replayed + length found))
unfolding replay ◌>>=◌ settle
replay_lem draws message_id trace_id s calm h =
    rw (replay_all_calm draws (matching message_id trace_id s.dead_letters) s calm h)
      (refl, refl, refl, refl)

replay_letter_poison :
    (f : Fresh) (letter : DeadLetter) (e : Exc) (s : DlqState)
    → letter.original_message ≢ end
    → original_type letter.original_message ≡ err e
    → replay_letter f letter s ≡ (err e, s)
unfolding replay_letter ◌>>=◌
replay_letter_poison f letter e s n h = ground arith

-- Where the transport raises nothing, a matching letter whose type the enum does not have, after
-- matching letters that can be replayed, makes `replay` raise: the letters before it have been
-- published, no letter leaves the index, and none is counted as replayed.
pub replay_poison :
    (draws : ℕ → Fresh) (message_id trace_id : Option String) (good rest : List DeadLetter)
    (bad : DeadLetter) (e : Exc) (s : DlqState)
    → s.faults ≡ []
    → matching message_id trace_id s.dead_letters ≡ good ++ bad ∷ rest
    → All IsReplayable good
    → bad.original_message ≢ end
    → original_type bad.original_message ≡ err e
    → replay draws message_id trace_id s
      ≡ (err e, record s { log = s.log ++ publications draws 0 good })
unfolding replay ◌>>=◌
replay_poison draws message_id trace_id good rest bad e s calm found h n x =
    let t : DlqState = record s { log = s.log ++ publications draws 0 good } in
    let stop : replay_all draws 0 (good ++ bad ∷ rest) s ≡ (err e, t) =
      replay_all-append draws 0 good (bad ∷ rest) s calm h
      ∙ unfold replay_all ◌>>=◌ in
        rw (replay_letter_poison (draws (0 + length good)) bad e t n x) in
    rw (found, stop)
