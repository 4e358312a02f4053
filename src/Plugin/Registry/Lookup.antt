-- ===== src/Plugin/Registry/Lookup.antt =====
-- Which plugins a topic has, after registering and unregistering.
use aqap.Prelude.{
  String, none, some, List, [], ◌∷◌, ◌++◌, ◌≡◌, ◌≢◌, ◌⊎◌, inl, inr, refl, arith, ap, sym, ◌∙◌, All,
  ap, Dict, get, has, put, remove, get-put, get-remove, get-none_of_has, eq_iff, eq_refl, ◌==◌,
  Option-cases, Bool-cases,
}
use aqap.Plugin.Registry.{
  Plugin, Registry, names_of, bind_topics, register, unregister, select, get_for_topic, get_plugin,
}

abbrev Occurs : {A : Type 0} → A → List A → Type 0
Occurs x [] = ⊥
Occurs x (y ∷ ys) = (x ≡ y) ⊎ Occurs x ys

Occurs-append :
    {A : Type 0} (x : A) (xs ys : List A) → Occurs x xs ⊎ Occurs x ys → Occurs x (xs ++ ys)
Occurs-append x [] ys (inl h) = absurd h
Occurs-append x [] ys (inr h) = h
Occurs-append x (y ∷ xs) ys (inl (inl e)) = inl e
Occurs-append x (y ∷ xs) ys (inl (inr h)) = inr (Occurs-append x xs ys (inl h))
Occurs-append x (y ∷ xs) ys (inr h) = inr (Occurs-append x xs ys (inr h))

some_injective : {A : Type 0} (a b : A) → some a ≡ some b → a ≡ b
some_injective a b h = cc

abbrev Bound : String → String → Dict (List String) → Type 0
Bound name topic mapping = Occurs name (names_of (get topic mapping))

-- one more name for one topic
Bound-put :
    (name other topic t : String) (mapping : Dict (List String))
    → (Bound name t mapping ⊎ ((name ≡ other) × (topic ≡ t)))
    → Bound name t (put topic (names_of (get topic mapping) ++ other ∷ []) mapping)
Bound-put name other topic t mapping (inl h) = elim (Bool-cases (topic == t)) [
  | inl same ↦
      rw (get-put, same)
        (Occurs-append name (names_of (get topic mapping)) (other ∷ [])
          (inl (rw ((eq_iff topic t).0 same) h)))
  | inr differ ↦ rw (get-put, differ) h
]
Bound-put name other topic t mapping (inr (n, e)) =
    rw (get-put, (eq_iff topic t).1 e)
      (Occurs-append name (names_of (get topic mapping)) (other ∷ []) (inr (inl n)))

Bound-bind_topics :
    (name other t : String) (topics : List String) (mapping : Dict (List String))
    → (Bound name t mapping ⊎ ((name ≡ other) × Occurs t topics))
    → Bound name t (bind_topics other topics mapping)
unfolding bind_topics
Bound-bind_topics name other t [] mapping (inl h) = h
Bound-bind_topics name other t [] mapping (inr (n, h)) = absurd h
Bound-bind_topics name other t (topic ∷ topics) mapping (inl h) =
    Bound-bind_topics name other t topics _ (inl (Bound-put name other topic t mapping (inl h)))
Bound-bind_topics name other t (topic ∷ topics) mapping (inr (n, inl e)) =
    Bound-bind_topics name other t topics _
      (inl (Bound-put name other topic t mapping (inr (n, sym e))))
Bound-bind_topics name other t (topic ∷ topics) mapping (inr (n, inr h)) =
    Bound-bind_topics name other t topics _ (inr (n, h))

module _ {W : Type 0} where
  Occurs-select :
      (n : String) (p : Plugin W) (names : List String) (plugins : Dict (Plugin W))
      → get n plugins ≡ some p
      → Occurs n names
      → Occurs p (select names plugins)
  unfolding select
  Occurs-select n p [] plugins e h = h
  Occurs-select n p (m ∷ names) plugins e (inl same) = rw (← same) (rw (e, select) (inl refl))
  Occurs-select n p (m ∷ names) plugins e (inr h) = elim (Option-cases (get m plugins)) [
    | inl missing ↦ rw (missing, select) (Occurs-select n p names plugins e h)
    | inr (q, found) ↦ rw (found, select) (inr (Occurs-select n p names plugins e h))
  ]

  -- A plugin that is registered with a topic is executed for that topic, and is found by its name.
  register-bound :
      (p : Plugin W) (topics : List String) (r : Registry W) (t : String)
      → Occurs t topics
      → Occurs p (get_for_topic t (register p topics r))
        × (get_plugin p.name (register p topics r) ≡ some p)
  unfolding get_for_topic register get_plugin
  register-bound p topics r t h =
      let found : get p.name (put p.name p r.plugins) ≡ some p =
        rw (get-put, eq_refl p.name) refl in
      (
        Occurs-select p.name p _ _ found
            (Bound-bind_topics p.name p.name t topics r.topic_mapping (inr (refl, h))),
        found,
      )

  -- every plugin stands under its own name
  abbrev IsKeyed : Dict (Plugin W) → Type 0
  IsKeyed ps = All (λ e. e.0 ≡ e.1.name) ps

  get-name :
      (n : String) (ps : Dict (Plugin W)) (p : Plugin W)
      → IsKeyed ps
      → get n ps ≡ some p
      → n ≡ p.name
  unfolding get
  get-name n [] p k h = cc
  get-name n ((m, q) ∷ ps) p (here, k) h = elim (Bool-cases (m == n)) [
    | inl same ↦ cc (here, (eq_iff m n).0 same, some_injective q p (rw same at h))
    | inr differ ↦ get-name n ps p k (rw differ at h)
  ]

  put-IsKeyed : (p : Plugin W) (ps : Dict (Plugin W)) → IsKeyed ps → IsKeyed (put p.name p ps)
  unfolding put
  put-IsKeyed p [] k = (refl, tt)
  put-IsKeyed p ((m, q) ∷ ps) (here, k) = elim (Bool-cases (m == p.name)) [
    | inl same ↦ rw same ((eq_iff m p.name).0 same, k)
    | inr differ ↦ rw differ (here, put-IsKeyed p ps k)
  ]

  remove-IsKeyed : (n : String) (ps : Dict (Plugin W)) → IsKeyed ps → IsKeyed (remove n ps)
  unfolding remove
  remove-IsKeyed n [] k = tt
  remove-IsKeyed n ((m, q) ∷ ps) (here, k) = elim (Bool-cases (m == n)) [
    | inl same ↦ rw same (remove-IsKeyed n ps k)
    | inr differ ↦ rw differ (here, remove-IsKeyed n ps k)
  ]

  -- Registering and unregistering keep every plugin under its own name.
  register-IsKeyed :
      (p : Plugin W) (topics : List String) (r : Registry W)
      → IsKeyed r.plugins
      → IsKeyed (register p topics r).plugins
  unfolding register
  register-IsKeyed p topics r k = put-IsKeyed p r.plugins k

  unregister-IsKeyed :
      (n : String) (r : Registry W) → IsKeyed r.plugins → IsKeyed (unregister n r).0.plugins
  unfolding unregister
  unregister-IsKeyed n r k = ground (arith, remove-IsKeyed n r.plugins k)

  select-absent :
      (n : String) (names : List String) (ps : Dict (Plugin W))
      → IsKeyed ps
      → get n ps ≡ none
      → All (λ p. p.name ≢ n) (select names ps)
  unfolding select
  select-absent n [] ps k h = tt
  select-absent n (m ∷ names) ps k h = elim (Option-cases (get m ps)) [
    | inl missing ↦ rw (missing, select) (select-absent n names ps k h)
    | inr (q, found) ↦
        rw (found, select)
          (
            λ e. cc (h, found, ap (λ j. get j ps) (get-name m ps q k found ∙ e)),
            select-absent n names ps k h,
          )
  ]

  absent : (n : String) (r : Registry W) → get n (unregister n r).0.plugins ≡ none
  unfolding unregister
  absent n r = elim (Bool-cases (has n r.plugins)) [
    | inl there ↦ rw (there, get-remove, eq_refl) refl
    | inr missing ↦ rw missing (get-none_of_has n r.plugins missing)
  ]

  -- Where every plugin stands under its own name, an unregistered plugin is found neither by its
  -- name nor under any topic.
  unregister-absent :
      (n t : String) (r : Registry W)
      → IsKeyed r.plugins
      → (get_plugin n (unregister n r).0 ≡ none)
        × All (λ p. p.name ≢ n) (get_for_topic t (unregister n r).0)
  unfolding get_for_topic get_plugin
  unregister-absent n t r k =
      (absent n r, select-absent n _ _ (unregister-IsKeyed n r k) (absent n r))
