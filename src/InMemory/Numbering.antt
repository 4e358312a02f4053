-- ===== src/InMemory/Numbering.antt =====
-- The numbers of the queues in the groups, which a transport gives out in turn.
use text.Mathlib.TextPositions.{eq_refl}
use aqap.Prelude.{
  if◌then◌else◌, has, get-put, get-none_of_has, ℕ, ◌+◌, ◌≤◌, ◌<◌, String, [], ◌∷◌, ◌++◌, nat_eq,
  ◌≡◌, refl, arith, All, Dict, get, put, Bool-cases, inl, inr, ◌==◌,
}
use aqap.InMemory.{queues_of, GroupQueue, remove_consumer}
use aqap.InMemory.Fanout.{rotate_all, count_of}
use aqap.InMemory.Inbox.{Elsewhere, Alone}

abbrev pub AllBelow : ℕ → GroupQueue → Type 0
AllBelow n gq = All (λ q. q < n) gq

-- The queues of the groups have numbers that were given out.
abbrev pub Below : ℕ → Dict GroupQueue → Type 0
Below n gs = All (λ e. AllBelow n e.1) gs

pub AllBelow-append :
    (n q : ℕ) (gq : GroupQueue) → AllBelow n gq → q < n → AllBelow n (gq ++ q ∷ [])
AllBelow-append n q [] h l = (l, tt)
AllBelow-append n q (p ∷ gq) (b, h) l = (b, AllBelow-append n q gq h l)

pub AllBelow-suc : (n : ℕ) (gq : GroupQueue) → AllBelow n gq → AllBelow (n + 1) gq
AllBelow-suc n [] h = tt
AllBelow-suc n (q ∷ gq) (b, h) = (omega (arith, b), AllBelow-suc n gq h)

pub AllBelow-remove_consumer :
    (n q : ℕ) (gq : GroupQueue) → AllBelow n gq → AllBelow n (remove_consumer q gq)
unfolding remove_consumer
AllBelow-remove_consumer n q [] h = tt
AllBelow-remove_consumer n q (p ∷ gq) (b, h) = elim (Bool-cases (nat_eq p q)) [
  | inl same ↦ rw same h
  | inr differ ↦ rw differ (b, AllBelow-remove_consumer n q gq h)
]

count_of-AllBelow : (n j : ℕ) (gq : GroupQueue) → AllBelow n gq → n ≤ j → count_of j gq ≡ 0
count_of-AllBelow n j [] h l = refl
count_of-AllBelow n j (q ∷ gq) (b, h) l = ground (arith, count_of-AllBelow n j gq h l)

pub Below-Elsewhere : (n j : ℕ) (gs : Dict GroupQueue) → Below n gs → n ≤ j → Elsewhere j gs
Below-Elsewhere n j [] h l = tt
Below-Elsewhere n j ((name, gq) ∷ rest) (b, h) l =
    (count_of-AllBelow n j gq b l, Below-Elsewhere n j rest h l)

pub Below-suc : (n : ℕ) (gs : Dict GroupQueue) → Below n gs → Below (n + 1) gs
Below-suc n [] h = tt
Below-suc n ((name, gq) ∷ rest) (b, h) = (AllBelow-suc n gq b, Below-suc n rest h)

pub Below-rotate : (n : ℕ) (gs : Dict GroupQueue) → Below n gs → Below n (rotate_all gs)
Below-rotate n [] h = tt
Below-rotate n ((name, []) ∷ rest) (b, h) = (b, Below-rotate n rest h)
Below-rotate n ((name, q ∷ gq) ∷ rest) ((l, b), h) =
    (AllBelow-append n q gq b l, Below-rotate n rest h)

pub Below-put :
    (n : ℕ) (group : String) (gq : GroupQueue) (gs : Dict GroupQueue)
    → AllBelow n gq
    → Below n gs
    → Below n (put group gq gs)
unfolding put
Below-put n group gq [] b h = (b, tt)
Below-put n group gq ((name, g) ∷ rest) b (c, h) = elim (Bool-cases (name == group)) [
  | inl same ↦ rw same (b, h)
  | inr differ ↦ rw differ (c, Below-put n group gq rest b h)
]

pub Below-get :
    (n : ℕ) (group : String) (gs : Dict GroupQueue)
    → Below n gs
    → AllBelow n (queues_of (get group gs))
unfolding get
Below-get n group [] h = tt
Below-get n group ((name, gq) ∷ rest) (b, h) = elim (Bool-cases (name == group)) [
  | inl same ↦ rw same b
  | inr differ ↦ rw differ (Below-get n group rest h)
]

pub put-Alone :
    (q : ℕ) (group : String) (gs : Dict GroupQueue)
    → Elsewhere q gs
    → Alone q (put group (q ∷ []) gs)
unfolding put
put-Alone q group [] h = inl (refl, tt)
put-Alone q group ((name, g) ∷ rest) (n, h) = elim (Bool-cases (name == group)) [
  | inl same ↦ rw same (inl (refl, h))
  | inr differ ↦ rw differ (inr (n, put-Alone q group rest h))
]

-- the groups of a topic after `create_group`
abbrev pub with_group : String → Dict GroupQueue → Dict GroupQueue
with_group group gs = if has group gs then gs else put group [] gs

pub Below-with_group :
    (n : ℕ) (group : String) (gs : Dict GroupQueue) → Below n gs → Below n (with_group group gs)
Below-with_group n group gs h = elim (Bool-cases (has group gs)) [
  | inl there ↦ rw there h
  | inr missing ↦ rw missing (Below-put n group [] gs tt h)
]

pub get-with_group :
    (group : String) (gs : Dict GroupQueue)
    → queues_of (get group (with_group group gs)) ≡ queues_of (get group gs)
get-with_group group gs = elim (Bool-cases (has group gs)) [
  | inl there ↦ rw there refl
  | inr missing ↦ rw (missing, get-put, eq_refl group, get-none_of_has group gs missing) refl
]
