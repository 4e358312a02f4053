-- ===== src/Agent/Scheduler/Intervals.antt =====
-- Which interval an expression with `*/` means.
use aqap.Prelude.{ℕ, false, List, [], ◌∷◌, ◌++◌, nat_eq, ok, ◌≡◌, refl}
use aqap.Value.{ℤ}
use aqap.Text.{Python}
use aqap.Text.Numbers.{int_text}
use aqap.Agent.Scheduler.{drop_last, ends_with, next_seconds, times}

drop_last-append : (s : List ℕ) (c : ℕ) → drop_last (s ++ c ∷ []) ≡ s
unfolding drop_last
drop_last-append [] c = refl
drop_last-append (d ∷ []) c = refl
drop_last-append (d ∷ e ∷ s) c = rw (drop_last-append (e ∷ s) c) refl

ends_with-append : (s : List ℕ) (c d : ℕ) → ends_with c (s ++ d ∷ []) ≡ nat_eq d c
unfolding ends_with
ends_with-append [] c d = refl
ends_with-append (e ∷ []) c d = refl
ends_with-append (e ∷ f ∷ s) c d = ends_with-append (f ∷ s) c d

ends_with-every : (s : List ℕ) (d c : ℕ) → ends_with c (b'*' ∷ b'/' ∷ s ++ d ∷ []) ≡ nat_eq d c
unfolding ends_with
ends_with-every [] d c = refl
ends_with-every (e ∷ s) d c = ends_with-append (e ∷ s) c d

ends_with-bare :
    (s : List ℕ) (c : ℕ)
    → nat_eq b'/' c ≡ false
    → ends_with c s ≡ false
    → ends_with c (b'*' ∷ b'/' ∷ s) ≡ false
unfolding ends_with
ends_with-bare [] c slash h = slash
ends_with-bare (d ∷ s) c slash h = h

-- Where the text `s`, which ends with none of `s`, `m` and `h`, reads as the number `n`, the
-- expression `*/s` with `s` for seconds, `m` or `h` after it is an interval of `n`, 60 n or 3600 n
-- seconds; with none of these at its end, of 60 n.
next_seconds_lem :
    (py : Python) (s : List ℕ) (n : ℤ)
    → int_text py s ≡ ok n
    → ends_with b's' s ≡ false
    → ends_with b'm' s ≡ false
    → ends_with b'h' s ≡ false
    → (next_seconds py (b'*' ∷ b'/' ∷ s ++ b's' ∷ []) ≡ ok n)
      × (next_seconds py (b'*' ∷ b'/' ∷ s ++ b'm' ∷ []) ≡ ok (times n 60))
      × (next_seconds py (b'*' ∷ b'/' ∷ s ++ b'h' ∷ []) ≡ ok (times n 3600))
      × (next_seconds py (b'*' ∷ b'/' ∷ s) ≡ ok (times n 60))
unfolding next_seconds
next_seconds_lem py s n reads no_s no_m no_h = (
  rw (ends_with-every s b's' b's', drop_last-append s b's') reads,
  rw (ends_with-every s b'm' b's', ends_with-every s b'm' b'm', drop_last-append s b'm', reads)
      refl,
  rw
      (
        ends_with-every s b'h' b's',
        ends_with-every s b'h' b'm',
        ends_with-every s b'h' b'h',
        drop_last-append s b'h',
        reads,
      )
      refl,
  rw
      (
        ends_with-bare s b's' refl no_s,
        ends_with-bare s b'm' refl no_m,
        ends_with-bare s b'h' refl no_h,
        reads,
      )
      refl,
)
