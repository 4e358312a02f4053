-- ===== src/Engine/Agents/Registration.antt =====
-- Which agents the engine registers.
use mathlib.Core.Path.{subst}
use aqap.Prelude.{
  String, Bool, true, false, ◌&&◌, ◌||◌, Option, none, some, List, [], ◌∷◌, Dict, has, put, Result,
  ok, resume, ◌>>=◌, ◌==◌, eq_iff, ◌≡◌, refl, ◌∙◌, ap, arith, Bool-cases, Option-cases, inl, inr,
}
use aqap.Value.{
  Value, str, arr, obj, nil, Fields, end, field, get_field, get_field_or, truthy, iterated,
}
use aqap.Agent.Supervisor as Supervisors
use aqap.Agent.Supervisor.{Supervisor, Member}
use aqap.Engine.{AgentClass, AgentSpec, EngineState, System, setting}
use aqap.Engine.Agents.{
  keywords, class_of, unpacked, agent_spec, make_agent, register, create_agent, create_known,
  init_agent, init_each, init_agents,
}

-- the settings of an agent that can be made
pub record IsSound (cfg : Fields) : Type 0 where
  pub class : Option AgentClass
  pub targets : Fields
  pub topics : List Value
  pub has_class : class_of (get_field_or "type" (str "") cfg) ≡ ok class
  pub has_targets :
      (c : AgentClass)
      → class ≡ some c
      → unpacked (keywords c) (get_field_or "targets" (obj end) cfg) ≡ ok targets
  pub has_topics : iterated (get_field_or "topics" (arr nil) cfg) ≡ ok topics

abbrev IsAgent : Value → Type 0
IsAgent (obj cfg) = IsSound cfg
IsAgent _ = false ≡ true

-- No key stands twice, and every agent's settings are sound.
abbrev AllSound : Fields → Type 0
AllSound end = Unit
AllSound (field agent_id cfg rest) = (get_field agent_id rest ≡ none) × IsAgent cfg × AllSound rest

abbrev is_class : Result (Option AgentClass) → Bool
is_class (ok (some c)) = true
is_class _ = false

-- an agent's settings name a type of AGENT_MAP
abbrev pub is_known : Option Value → Bool
is_known (some (obj cfg)) = is_class (class_of (get_field_or "type" (str "") cfg))
is_known _ = false

is_known-field :
    (k j : String) (cfg : Value) (rest : Fields) (b : Bool)
    → get_field k rest ≡ none
    → (is_known (get_field j rest) || ((k == j && is_known (some cfg)) || b))
      ≡ (is_known (get_field j (field k cfg rest)) || b)
unfolding get_field
is_known-field k j cfg rest b fresh = elim (Bool-cases (k == j)) [
  | inl same ↦
      let e : get_field j rest ≡ none =
        subst (λ i. get_field i rest ≡ none) ((eq_iff k j).0 same) fresh in
      rw (e, same) refl
  | inr other ↦ rw other refl
]

has-put {ℓ} :
    {V : Type ℓ} (k j : String) (v : V) (d : Dict V) → has j (put k v d) ≡ (k == j || has j d)
unfolding has put
has-put k j v [] = ground arith
has-put k j v ((i, w) ∷ d) = ground (arith, has-put k j v d, eq_iff i k, eq_iff i j, eq_iff k j)

module _ {T B W : Type 0} where
  -- the constructors raise nothing
  abbrev NeverRaises : System T B W → Type 0
  NeverRaises y =
      (spec : AgentSpec T B) (w : W)
      → (f : List Value → Member W) × (w' : W) × (y.construct_agent spec w ≡ (ok f, w'))

  create_agent-registers :
      (y : System T B W) (c : AgentClass) (agent_id : String) (cfg targets : Fields)
      (topics : List Value) (s : EngineState T B W)
      → NeverRaises y
      → unpacked (keywords c) (get_field_or "targets" (obj end) cfg) ≡ ok targets
      → iterated (get_field_or "topics" (arr nil) cfg) ≡ ok topics
      → let (r, s') = create_agent y c agent_id cfg s in
        (m : Member W) × (r ≡ ok tt) × (s'.supervisor.agents ≡ put agent_id m s.supervisor.agents)
  unfolding create_agent make_agent register Supervisors.register ◌>>=◌
  create_agent-registers y c agent_id cfg targets topics s calm h k =
      let (f, w, made) = calm (agent_spec c agent_id cfg targets s) s.world in
      (f topics, rw (h, made, k) refl, rw (h, made, k) refl)

  init_agent-registers :
      (y : System T B W) (agent_id : String) (cfg : Fields) (s : EngineState T B W) (j : String)
      → NeverRaises y
      → IsSound cfg
      → let (r, s') = init_agent y agent_id (obj cfg) s in
        (r ≡ ok tt)
        × (has j s'.supervisor.agents
            ≡ ((agent_id == j && is_known (some (obj cfg))) || has j s.supervisor.agents))
  unfolding init_agent create_known ◌>>=◌
  init_agent-registers y agent_id cfg s j calm h = elim (Option-cases h.class) [
    | inl unknown ↦ rw (h.has_class, unknown) (refl, ground arith)
    | inr (c, known) ↦
        let (m, fine, same) =
          create_agent-registers y c agent_id cfg h.targets h.topics s calm (h.has_targets c known)
            h.has_topics in
        rw (h.has_class, known)
          (fine, ap (λ d. has j d) same ∙ has-put agent_id j m s.supervisor.agents ∙ ground arith)
  ]

  init_each-registers :
      (y : System T B W) (configs : Fields) (s : EngineState T B W) (j : String)
      → NeverRaises y
      → AllSound configs
      → let (r, s') = init_each y configs s in
        (r ≡ ok tt)
        × (has j s'.supervisor.agents
            ≡ (is_known (get_field j configs) || has j s.supervisor.agents))
  unfolding init_each ◌>>=◌ get_field
  init_each-registers y end s j calm h = (refl, refl)
  init_each-registers y (field agent_id (obj cfg) rest) s j calm (fresh, sound, h) =
      let (fine, here) = init_agent-registers y agent_id cfg s j calm sound in
      let t = (init_agent y agent_id (obj cfg) s).1 in
      let (fine', later) = init_each-registers y rest t j calm h in
      rw (fine, resume)
        (
          fine',
          later
              ∙ ap (λ b. is_known (get_field j rest) || b) here
              ∙ is_known-field agent_id j (obj cfg) rest (has j s.supervisor.agents) fresh,
        )
  init_each-registers y (field agent_id _ rest) s j calm (fresh, e, h) = cc

  -- Where the constructors raise nothing, and the settings of each agent are a dict with a type that
  -- has a hash, with targets that the agent's class takes and with topics to go through: all agents
  -- of a known type are registered, those of another type are skipped, and no other is registered.
  pub init_agents-registers :
      (y : System T B W) (configs : Fields) (s : EngineState T B W) (j : String)
      → setting ("agents" ∷ []) (obj end) s ≡ obj configs
      → NeverRaises y
      → AllSound configs
      → let (r, s') = init_agents y s in
        (r ≡ ok tt)
        × (has j s'.supervisor.agents
            ≡ (is_known (get_field j configs) || has j s.supervisor.agents))
  unfolding init_agents ◌>>=◌ truthy get_field
  init_agents-registers y end s j found calm h = rw found (refl, refl)
  init_agents-registers y (field agent_id cfg rest) s j found calm h =
      rw found (init_each-registers y (field agent_id cfg rest) s j calm h)
