-- ===== src/Sdk/Bridge/Requests.antt =====
-- What becomes of a whole request, and of one that is cut off: `handle` of
-- sdk/aqap_sdk/bridge/__init__.py.
use aqap.Prelude.{
  ℕ, ◌+◌, ◌<◌, false, Option, none, some, List, [], ◌∷◌, ◌++◌, take, drop, length, length-append,
  length-drop, ok, Exc, ◌≡◌, refl, sym, ap, ◌∙◌, arith,
}
use aqap.Value.{ℤ, pos}
use aqap.Sdk.Bridge.{
  Bytes, Reader, find_blank, is_empty, read_head, read_body, head_of, body_of, split_lines,
  content_length,
}
use aqap.Sdk.Bridge.Pieces.{
  joined, AllFull, HeadRead, read_head-HeadRead, read_body_complete, read_body_starves,
  find_blank-le, take-append, drop-append,
}
use aqap.Sdk.Bridge.Serving.{
  Bridge, Connection, all_read, receive, receive_body, received, handle, handled,
}

-- the length that the head names
abbrev pub NamesLength : {W : Type 0} → Bridge W → Bytes → ℤ → Type 0
NamesLength b head n = content_length b.py b.lower (pos 0) (split_lines (b.decode head)) ≡ ok n

found-full : (got : Bytes) (i : ℕ) → find_blank got ≡ some i → is_empty got ≡ false
unfolding find_blank
found-full [] i h = cc
found-full (c ∷ got) i h = refl

head_of-found : (got : Bytes) (i : ℕ) → find_blank got ≡ some i → head_of got ≡ take i got
unfolding head_of
head_of-found got i found = rw (found, head_of) refl

body_of-found : (got : Bytes) (i : ℕ) → find_blank got ≡ some i → body_of got ≡ drop (i + 4) got
unfolding body_of
body_of-found got i found = rw (found, body_of) refl

module _ {W : Type 0} (b : Bridge W) where
  receive_body_lem :
      (fuel : ℕ) (failure : Option Exc) (got : Bytes) (rest : List Bytes) (i n : ℕ)
      → find_blank got ≡ some i
      → NamesLength b (take i got) (pos n)
      → receive_body fuel b failure got rest
        ≡ all_read (take i got) (read_body fuel n failure (drop (i + 4) got) rest)
  unfolding receive_body
  receive_body_lem fuel failure got rest i n found named =
      rw (head_of-found got i found, receive_body, named)
        (rw (head_of-found got i found, body_of-found got i found) refl)

  receive_got :
      (fuel : ℕ) (r : Reader) (got : Bytes) (rest : List Bytes)
      → read_head r.failure [] r.chunks ≡ (ok got, rest)
      → is_empty got ≡ false
      → receive fuel b r ≡ receive_body fuel b r.failure got rest
  unfolding receive received
  receive_got fuel r got rest e full = rw (e, full) refl

  -- the second loop runs on what the first left
  receive_lem :
      (fuel : ℕ) (r : Reader) (i n : ℕ)
      → find_blank (joined r.chunks) ≡ some i
      → NamesLength b (take i (joined r.chunks)) (pos n)
      → (h : HeadRead (joined r.chunks) i (length r.chunks) (read_head r.failure [] r.chunks))
      → receive fuel b r
        ≡ all_read
            (take i (joined r.chunks))
            (read_body fuel n r.failure (drop (i + 4) h.got) h.rest)
  receive_lem fuel r i n found named h =
      let same : take i (joined r.chunks) ≡ take i h.got =
        ap (take i) (sym h.parts)
        ∙ take-append i h.got (joined h.rest) (omega (arith, find_blank-le h.got i h.found)) in
      receive_got fuel r h.got h.rest h.result (found-full h.got i h.found)
      ∙ (rw same (receive_body_lem fuel r.failure h.got h.rest i n h.found (rw same at named)))

  -- the bytes behind the blank line, in the pieces that the second loop gets
  behind :
      (r : Reader) (i : ℕ)
      → (h : HeadRead (joined r.chunks) i (length r.chunks) (read_head r.failure [] r.chunks))
      → drop (i + 4) (joined r.chunks) ≡ drop (i + 4) h.got ++ joined h.rest
  behind r i h =
      ap (drop (i + 4)) (sym h.parts)
      ∙ drop-append (i + 4) h.got (joined h.rest) (find_blank-le h.got i h.found)

  behind-length :
      (r : Reader) (i : ℕ)
      → (h : HeadRead (joined r.chunks) i (length r.chunks) (read_head r.failure [] r.chunks))
      → length (drop (i + 4) h.got) + length (joined h.rest) + (i + 4) ≡ length (joined r.chunks)
  behind-length r i h = omega (
    arith,
    length-drop (i + 4) h.got,
    find_blank-le h.got i h.found,
    length-append h.got (joined h.rest),
    ap length h.parts,
  )

  -- A request that is all there is read as a whole.
  pub receive_complete :
      (fuel : ℕ) (r : Reader) (i n : ℕ)
      → AllFull r.chunks
      → find_blank (joined r.chunks) ≡ some i
      → NamesLength b (take i (joined r.chunks)) (pos n)
      → length (joined r.chunks) ≡ i + 4 + n
      → length r.chunks < fuel
      → receive fuel b r
        ≡ some (
            ok (
              some (record {
                head = take i (joined r.chunks);
                body = drop (i + 4) (joined r.chunks);
              })))
  receive_complete fuel r i n full found named whole enough =
      let h = read_head-HeadRead r.failure [] r.chunks i full found in
      receive_lem fuel r i n found named h
      ∙ ap (all_read (take i (joined r.chunks))) (
          read_body_complete fuel n r.failure (drop (i + 4) h.got) h.rest h.full
            (omega (arith, behind-length r i h)) (omega (arith, h.short))
          ∙ ap (λ body. some (ok body)) (sym (behind r i h)))

  -- A connection whose client names more bytes than it sends, and then sends no more, is never
  -- answered and never closed: the loop over the body does not end.
  pub handle_starves :
      (r : Reader) (i n fuel : ℕ) (s : Connection W)
      → r.failure ≡ none
      → AllFull r.chunks
      → find_blank (joined r.chunks) ≡ some i
      → NamesLength b (take i (joined r.chunks)) (pos n)
      → length (joined r.chunks) < i + 4 + n
      → handle fuel b r s ≡ none
  unfolding handle
  handle_starves r i n fuel s calm full found named short =
      let h = read_head-HeadRead r.failure [] r.chunks i full found in
      ap (handled b s) (
        receive_lem fuel r i n found named h
        ∙ ap (all_read (take i (joined r.chunks))) (
            read_body_starves fuel n r.failure (drop (i + 4) h.got) h.rest calm
              (omega (arith, behind-length r i h))))
