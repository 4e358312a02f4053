-- ===== src/Sdk/Bridge/Pieces.antt =====
-- How a request may be cut into pieces: `handle` of sdk/aqap_sdk/bridge/__init__.py, its two loops.
use mathlib.Core.List.{append_assoc, append-nil}
use aqap.Prelude.{
  ℕ, zero, suc, ◌+◌, ◌≤◌, ◌<◌, true, false, Option, none, some, List, [], ◌∷◌, ◌++◌, ltb, take,
  drop, length, length-append, Result, ok, Exc, ◌≡◌, refl, sym, ◌∙◌, arith, Bool-cases,
  Option-cases, inl, inr,
}
use aqap.Sdk.Bridge.{
  Bytes, starts_blank, next_index, find_blank, is_empty, read_head, read, read_body,
}

abbrev pub joined : List Bytes → Bytes
joined [] = []
joined (chunk ∷ chunks) = chunk ++ joined chunks

-- `read` gives no empty bytes before the end.
abbrev pub AllFull : List Bytes → Type 0
AllFull [] = Unit
AllFull (chunk ∷ chunks) = (is_empty chunk ≡ false) × AllFull chunks

-- Four bytes decide, and those before a blank line are followed by four.
starts_blank-append :
    (b : ℕ) (ds e : Bytes) (j : ℕ)
    → find_blank ds ≡ some j
    → starts_blank (b ∷ ds ++ e) ≡ starts_blank (b ∷ ds)
unfolding find_blank starts_blank
starts_blank-append b [] e j h = cc
starts_blank-append b (c ∷ []) e j h = cc
starts_blank-append b (c ∷ d ∷ []) e j h = cc
starts_blank-append b (c ∷ d ∷ f ∷ ds) e j h = refl

starts_blank-append_true : (ds e : Bytes) → starts_blank ds ≡ true → starts_blank (ds ++ e) ≡ true
unfolding starts_blank
starts_blank-append_true [] e h = cc
starts_blank-append_true (a ∷ []) e h = cc
starts_blank-append_true (a ∷ b ∷ []) e h = cc
starts_blank-append_true (a ∷ b ∷ c ∷ []) e h = cc
starts_blank-append_true (a ∷ b ∷ c ∷ d ∷ ds) e h = h

next_index-some :
    (o : Option ℕ) (i : ℕ) → next_index o ≡ some i → (j : ℕ) × (o ≡ some j) × (i ≡ suc j)
next_index-some none i h = cc
next_index-some (some j) i h = (j, refl, ground arith)

-- Bytes that come later do not move the first blank line.
find_blank-append : (d e : Bytes) (i : ℕ) → find_blank d ≡ some i → find_blank (d ++ e) ≡ some i
unfolding find_blank
find_blank-append [] e i h = cc
find_blank-append (b ∷ d) e i h = elim (Bool-cases (starts_blank (b ∷ d))) [
  | inl here ↦ rw (starts_blank-append_true (b ∷ d) e here) (rw here at h)
  | inr later ↦
      let (j, found, same) = next_index-some (find_blank d) i (rw later at h) in
      rw (starts_blank-append b d e j found, later, find_blank-append d e j found, same) refl
]

starts_blank-le : (d : Bytes) → starts_blank d ≡ true → 4 ≤ length d
unfolding starts_blank
starts_blank-le [] h = cc
starts_blank-le (a ∷ []) h = cc
starts_blank-le (a ∷ b ∷ []) h = cc
starts_blank-le (a ∷ b ∷ c ∷ []) h = cc
starts_blank-le (a ∷ b ∷ c ∷ d ∷ ds) h = omega arith

first_index : (i : ℕ) → some 0 ≡ some i → i ≡ 0
first_index i h = ground arith

pub find_blank-le : (d : Bytes) (i : ℕ) → find_blank d ≡ some i → i + 4 ≤ length d
unfolding find_blank
find_blank-le [] i h = cc
find_blank-le (b ∷ d) i h = elim (Bool-cases (starts_blank (b ∷ d))) [
  | inl here ↦ omega (arith, starts_blank-le (b ∷ d) here, first_index i (rw here at h))
  | inr later ↦
      let (j, found, same) = next_index-some (find_blank d) i (rw later at h) in
      omega (arith, find_blank-le d j found)
]

pub take-append : (i : ℕ) (d e : Bytes) → i ≤ length d → take i (d ++ e) ≡ take i d
take-append zero d e h = refl
take-append (suc i) [] e h = absurd (omega arith)
take-append (suc i) (b ∷ d) e h = rw (take-append i d e (omega arith)) refl

pub drop-append : (i : ℕ) (d e : Bytes) → i ≤ length d → drop i (d ++ e) ≡ drop i d ++ e
drop-append zero d e h = refl
drop-append (suc i) [] e h = absurd (omega arith)
drop-append (suc i) (b ∷ d) e h = drop-append i d e (omega arith)

full-length : (chunk : Bytes) → is_empty chunk ≡ false → 0 < length chunk
full-length [] h = cc
full-length (b ∷ chunk) h = omega arith

-- What the first loop leaves: `got` of the bytes have been read, up to the blank line or past it.
pub record HeadRead (whole : Bytes) (i bound : ℕ) (r : Result Bytes × List Bytes) : Type 0 where
  pub got : Bytes
  pub rest : List Bytes
  pub result : r ≡ (ok got, rest)
  pub found : find_blank got ≡ some i
  pub parts : got ++ joined rest ≡ whole
  pub full : AllFull rest
  pub short : length rest ≤ bound

pub read_head-HeadRead :
    (failure : Option Exc) (got : Bytes) (chunks : List Bytes) (i : ℕ)
    → AllFull chunks
    → find_blank (got ++ joined chunks) ≡ some i
    → HeadRead (got ++ joined chunks) i (length chunks) (read_head failure got chunks)
unfolding read_head
read_head-HeadRead failure got [] i h found =
    let found' : find_blank got ≡ some i = rw append-nil at found in
    record {
      got = got;
      rest = [];
      result = rw (found', read_head) refl;
      found = found';
      parts = refl;
      full = tt;
      short = omega arith;
    }
read_head-HeadRead failure got (chunk ∷ rest) i (full, h) found =
    elim (Option-cases (find_blank got)) [
      | inl more ↦
          rw (more, read_head, full, ← append_assoc got chunk (joined rest))
            (let r =
                read_head-HeadRead failure (got ++ chunk) rest i h
                  (rw (append_assoc got chunk (joined rest)) found) in
              record {
                got = r.got;
                rest = r.rest;
                result = r.result;
                found = r.found;
                parts = r.parts;
                full = r.full;
                short = omega (arith, r.short);
              })
      | inr (j, done) ↦ record {
        got = got;
        rest = chunk ∷ rest;
        result = rw (done, read_head) refl;
        found = done ∙ sym (find_blank-append got (chunk ++ joined rest) j done) ∙ found;
        parts = refl;
        full = (full, h);
        short = omega arith;
      }
    ]

-- The second loop reads a body that is all there, whatever its pieces.
pub read_body_complete :
    (fuel clen : ℕ) (failure : Option Exc) (body : Bytes) (chunks : List Bytes)
    → AllFull chunks
    → length body + length (joined chunks) ≡ clen
    → length chunks < fuel
    → read_body fuel clen failure body chunks ≡ some (ok (body ++ joined chunks))
unfolding read_body read
read_body_complete zero clen failure body chunks h e fuel = absurd (omega arith)
read_body_complete (suc fuel) clen failure body [] h e enough =
    let done : ltb (length body) clen ≡ false = ground arith in
    rw (done, read_body, append-nil body) refl
read_body_complete (suc fuel) clen failure body (chunk ∷ chunks) (full, h) e enough =
    let more : ltb (length body) clen ≡ true =
      ground (arith, full-length chunk, length-append chunk (joined chunks)) in
    rw (more, read_body, ← append_assoc body chunk (joined chunks))
      (read_body_complete fuel clen failure (body ++ chunk) chunks h
        (omega (arith, length-append body chunk, length-append chunk (joined chunks), e))
        (omega arith))

-- At the end of the connection every further call gives no bytes, and the test never fails.
pub read_body_starves :
    (fuel clen : ℕ) (failure : Option Exc) (body : Bytes) (chunks : List Bytes)
    → failure ≡ none
    → length body + length (joined chunks) < clen
    → read_body fuel clen failure body chunks ≡ none
unfolding read_body read
read_body_starves zero clen failure body chunks calm h = refl
read_body_starves (suc fuel) clen failure body [] calm h =
    let more : ltb (length body) clen ≡ true = ground arith in
    rw (more, read_body, calm, append-nil body) (read_body_starves fuel clen failure body [] calm h)
read_body_starves (suc fuel) clen failure body (chunk ∷ chunks) calm h =
    let more : ltb (length body) clen ≡ true =
      ground (arith, length-append chunk (joined chunks)) in
    rw (more, read_body)
      (read_body_starves fuel clen failure (body ++ chunk) chunks calm
        (omega (arith, length-append body chunk, length-append chunk (joined chunks), h)))
