-- ===== src/Engine/HotReload/Refresh.antt =====
-- What a changed configuration changes.
use mathlib.Core.Path.{subst}
use aqap.Prelude.{
  String, true, Option, none, some, if◌then◌else◌, Dict, get, get-put, ok, resume, ◌>>=◌, ◌==◌,
  eq_iff, ◌≡◌, refl, ap, ◌∙◌, arith, Bool-cases, Option-cases, inl, inr,
}
use aqap.Value.{
  Value, obj, Fields, end, field, get_field, get_field_or, truthy, is_dict, get_field_or_lem,
}
use aqap.Config.Merge.{IsDistinct}
use aqap.Engine.HotReload.{
  change_logging, change_plugins, new_interval, change_agent, change_agents, on_config_changed,
  Target, Effects,
}

-- What a reload makes of an agent's interval: `o` is the agent's settings in the new configuration.
abbrev refreshed : {W : Type 0} → Effects W → Option Value → Option Value → Option Value
refreshed y (some (obj cfg)) (some old) = some (new_interval y cfg old)
refreshed y o before = before

-- each agent's settings are a dict
abbrev pub AllDicts : Fields → Type 0
AllDicts end = Unit
AllDicts (field name cfg rest) = (is_dict cfg ≡ true) × AllDicts rest

module _ {W : Type 0} (y : Effects W) where
  change_agent-refreshes :
      (agent_id j : String) (cfg : Fields) (s : Target W)
      → let (r, s') = change_agent y agent_id (obj cfg) s in
        (r ≡ ok tt)
        × (get j s'.heartbeat_intervals ≡ (
            if agent_id == j
            then refreshed y (some (obj cfg)) (get j s.heartbeat_intervals)
            else get j s.heartbeat_intervals))
  unfolding change_agent
  change_agent-refreshes agent_id j cfg s =
      let intervals : Dict Value = s.heartbeat_intervals in
      elim (Option-cases (get agent_id intervals)) [
        | inl unknown ↦
            rw (unknown, change_agent)
              (
                refl,
                elim (Bool-cases (agent_id == j)) [
                  | inl same ↦
                      let e : get j intervals ≡ none =
                        subst (λ i. get i intervals ≡ none) ((eq_iff agent_id j).0 same) unknown in
                      rw (same, e) refl
                  | inr other ↦ rw other refl
                ],
              )
        | inr (old, known) ↦
            rw (known, change_agent)
              (
                refl,
                get-put agent_id j (new_interval y cfg old) intervals
                    ∙ elim (Bool-cases (agent_id == j)) [
                      | inl same ↦
                          let e : get j intervals ≡ some old =
                            subst (λ i. get i intervals ≡ some old) ((eq_iff agent_id j).0 same)
                              known in
                          rw (same, e) refl
                      | inr other ↦ rw other refl
                    ],
              )
      ]

  refreshed-field :
      (k j : String) (cfg : Value) (rest : Fields) (b : Option Value)
      → get_field k rest ≡ none
      → refreshed y (get_field j rest) (if k == j then refreshed y (some cfg) b else b)
        ≡ refreshed y (get_field j (field k cfg rest)) b
  unfolding get_field
  refreshed-field k j cfg rest b fresh = elim (Bool-cases (k == j)) [
    | inl same ↦
        let e : get_field j rest ≡ none =
          subst (λ i. get_field i rest ≡ none) ((eq_iff k j).0 same) fresh in
        rw (e, same) refl
    | inr other ↦ rw other refl
  ]

  change_agents-refreshes :
      (configs : Fields) (j : String) (s : Target W)
      → IsDistinct configs
      → AllDicts configs
      → let (r, s') = change_agents y configs s in
        (r ≡ ok tt)
        × (get j s'.heartbeat_intervals
            ≡ refreshed y (get_field j configs) (get j s.heartbeat_intervals))
  unfolding change_agents ◌>>=◌ get_field
  change_agents-refreshes end j s d h = (refl, refl)
  change_agents-refreshes (field agent_id (obj cfg) rest) j s (fresh, d) (_, h) =
      let (fine, here) = change_agent-refreshes agent_id j cfg s in
      let (fine', later) =
        change_agents-refreshes rest j (change_agent y agent_id (obj cfg) s).1 d h in
      rw (fine, resume)
        (
          fine',
          later
              ∙ ap (λ b. refreshed y (get_field j rest) b) here
              ∙ refreshed-field agent_id j (obj cfg) rest (get j s.heartbeat_intervals) fresh,
        )
  change_agents-refreshes (field agent_id _ rest) j s d (e, h) = cc

  change_logging-none :
      (new_config : Fields) (s : Target W)
      → get_field "logging" new_config ≡ none
      → change_logging y new_config s ≡ (ok tt, s)
  unfolding change_logging truthy
  change_logging-none new_config s e = rw (get_field_or_lem "logging" (obj end) new_config, e) refl

  change_plugins-none :
      (new_config : Fields) (s : Target W)
      → is_dict (get_field_or "plugins" (obj end) new_config) ≡ true
      → change_plugins y new_config s ≡ (ok tt, s)
  unfolding change_plugins truthy
  change_plugins-none new_config s e = ground arith

  -- A new configuration without a section on logging, whose plugins and agents are dicts, sets the
  -- heartbeat interval of each registered agent that it names with an interval that is not falsy and
  -- not the same, and leaves every other interval alone.
  on_config_changed-refreshes :
      (new_config configs : Fields) (j : String) (s : Target W)
      → get_field "logging" new_config ≡ none
      → is_dict (get_field_or "plugins" (obj end) new_config) ≡ true
      → get_field "agents" new_config ≡ some (obj configs)
      → IsDistinct configs
      → AllDicts configs
      → let (r, s') = on_config_changed y (obj new_config) s in
        (r ≡ ok tt)
        × (get j s'.heartbeat_intervals
            ≡ refreshed y (get_field j configs) (get j s.heartbeat_intervals))
  unfolding on_config_changed ◌>>=◌
  on_config_changed-refreshes new_config configs j s no_logging plugins agents d h =
      rw
        (
          change_logging-none new_config s no_logging,
          change_plugins-none new_config s plugins,
          get_field_or_lem "agents" (obj end) new_config,
          agents,
        )
        (change_agents-refreshes configs j s d h)
