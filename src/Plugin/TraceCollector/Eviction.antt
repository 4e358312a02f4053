-- ===== src/Plugin/TraceCollector/Eviction.antt =====
-- How many traces the eviction removes from the index.
use mathlib.Core.Path.{subst}
use mathlib.Core.List.{append_assoc}
use aqap.Prelude.{
  eq_refl, ℕ, ◌+◌, ◌-◌, ◌≤◌, String, Bool, true, false, not, ◌||◌, ◌&&◌, List, [], ◌∷◌, ◌++◌, Dict,
  length, keep, take, drop, length-keep-le, length-drop, take-append-drop, remove, ◌==◌, ◌≡◌, refl,
  ap, ◌∙◌, arith,
}
use aqap.Plugin.TraceCollector.{TraceRecord, insert, sorted, keys_of, remove_all}

abbrev pub among : List String → String → Bool
among [] k = false
among (j ∷ ks) k = k == j || among ks k

pub length-keys_of : (d : Dict (List TraceRecord)) → length (keys_of d) ≡ length d
unfolding keys_of
length-keys_of [] = refl
length-keys_of ((k, v) ∷ d) = omega (arith, length-keys_of d)

-- Sorting changes no count.
length-keep-insert :
    (p : String → Bool) (k : String) (ks : List String)
    → length (keep p (insert k ks)) ≡ length (keep p (k ∷ ks))
unfolding insert
length-keep-insert p k [] = refl
length-keep-insert p k (j ∷ ks) = ground (arith, length-keep-insert p k ks)

length-keep-sorted :
    (p : String → Bool) (ks : List String) → length (keep p (sorted ks)) ≡ length (keep p ks)
unfolding sorted
length-keep-sorted p [] = refl
length-keep-sorted p (k ∷ ks) =
    ground (arith, length-keep-insert p k (sorted ks), length-keep-sorted p ks)

length-keep-all : (ks : List String) → length (keep (λ k. true) ks) ≡ length ks
length-keep-all [] = refl
length-keep-all (k ∷ ks) = omega (arith, length-keep-all ks)

pub length-sorted : (ks : List String) → length (sorted ks) ≡ length ks
length-sorted ks =
    omega
      (arith, length-keep-all (sorted ks), length-keep-sorted (λ k. true) ks, length-keep-all ks)

length-keep-append :
    (p : String → Bool) (xs ys : List String)
    → length (keep p (xs ++ ys)) ≡ length (keep p xs) + length (keep p ys)
length-keep-append p [] ys = omega arith
length-keep-append p (x ∷ xs) ys = ground (arith, length-keep-append p xs ys)

length-keep-same :
    (p q : String → Bool) (ks : List String)
    → ((k : String) → p k ≡ q k)
    → length (keep p ks) ≡ length (keep q ks)
length-keep-same p q [] h = refl
length-keep-same p q (k ∷ ks) h = ground (arith, h k, length-keep-same p q ks h)

-- Removing keys, counted by the keys that stay.
length-remove :
    (p : String → Bool) (k : String) (d : Dict (List TraceRecord))
    → length (keep p (keys_of (remove k d))) ≡ length (keep (λ j. not (j == k) && p j) (keys_of d))
unfolding keys_of remove
length-remove p k [] = refl
length-remove p k ((j, v) ∷ d) = ground (arith, length-remove p k d)

length-remove_all :
    (p : String → Bool) (ks : List String) (d : Dict (List TraceRecord))
    → length (keep p (keys_of (remove_all ks d)))
      ≡ length (keep (λ j. not (among ks j) && p j) (keys_of d))
unfolding remove_all
length-remove_all p [] d = length-keep-same p _ (keys_of d) (λ j. refl)
length-remove_all p (k ∷ ks) d =
    length-remove_all p ks (remove k d)
    ∙ length-remove (λ j. not (among ks j) && p j) k d
    ∙ length-keep-same _ _ (keys_of d) (λ j. ground arith)

among-middle : (js : List String) (k : String) (ks : List String) → among (js ++ k ∷ ks) k ≡ true
among-middle [] k ks = rw (eq_refl k) refl
among-middle (j ∷ js) k ks = ground (arith, among-middle js k ks)

-- no key of the list stays
none_stays : (js ks : List String) → keep (λ k. not (among (js ++ ks) k) && true) ks ≡ []
none_stays js [] = refl
none_stays js (k ∷ ks) = rw (among-middle js k ks) (
    subst (λ l. keep (λ i. not (among l i) && true) ks ≡ []) (append_assoc js (k ∷ []) ks)
      (none_stays (js ++ k ∷ []) ks))

pub length-evicted :
    (n : ℕ) (d : Dict (List TraceRecord))
    → length (remove_all (take n (sorted (keys_of d))) d) ≤ length d - n
length-evicted n d =
    let ks = sorted (keys_of d) in
    let p : String → Bool = λ k. not (among (take n ks) k) && true in
    let d' = remove_all (take n ks) d in
    omega (
      arith,
      length-keys_of d',
      length-keep-all (keys_of d'),
      length-remove_all (λ k. true) (take n ks) d,
      length-keep-sorted p (keys_of d),
      ap (λ (l : List String). length (keep p l)) (take-append-drop n ks),
      length-keep-append p (take n ks) (drop n ks),
      ap (λ (l : List String). length l) (none_stays [] (take n ks)),
      length-keep-le p (drop n ks),
      length-drop n ks,
      length-sorted (keys_of d),
      length-keys_of d,
    )
