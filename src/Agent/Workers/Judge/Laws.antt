-- ===== src/Agent/Workers/Judge/Laws.antt =====
-- What a judge answers.
use aqap.Prelude.{
  ok_injective, ap, sym, ◌∙◌, String, Bool, true, false, none, some, List, [], ◌∷◌, ◌++◌, ok, err,
  Exc, if◌then◌else◌, ◌>>=◌, ◌≡◌, refl, All, ◌⊎◌, inl, inr, Bool-cases, Option-cases, Result-cases,
  arith, map, ◌∙◌, sym,
}
use mathlib.Core.List.{append_assoc, append-nil}
use aqap.Value.{Value, Float, bool, str, Fields, get_field_or, truthy}
use aqap.Message.{MessageType, Message}
use aqap.Plugin.Registry.{Registry, PluginResult}
use aqap.Plugin.Registry.Execute.{IsReport}
use aqap.Agent.State.{Agent, AgentState}
use aqap.Agent.Workers.{Numbers, dict_at}
use aqap.Agent.Workers.Outcomes.{outcomes, run_plugins_lem}
use aqap.Agent.Workers.Probe.{all_passed}
use aqap.Agent.Workers.Probe.Laws.{all_passed_lem, none_objects}
use aqap.Agent.Workers.Judge.{
  tally, average, zero_float, half_float, verdict_report, verdict_message, report_message, judge,
  handle_message,
}

-- A plugin that came back and did not say no.
abbrev approves : PluginResult → Bool
approves r = elim r.result [
  | none ↦ false
  | some fs ↦ truthy (get_field_or "passed" (bool true) fs)
]

abbrev pub all_approve : List PluginResult → Bool
all_approve [] = true
all_approve (r ∷ rs) = if approves r then all_approve rs else false

abbrev pub score_of : PluginResult → Value
score_of r = elim r.result [ none ↦ zero_float | some fs ↦ get_field_or "score" half_float fs ]

if_same : (b : Bool) → b ≡ (if b then true else false)
if_same b = ground arith

if_false : (b : Bool) → false ≡ (if b then false else false)
if_false b = ground arith

if_and :
    (passed agrees rest : Bool)
    → (if if agrees then passed else false then rest else false)
      ≡ (if passed then if agrees then rest else false else false)
if_and passed agrees rest = ground arith

tally_lem :
    (rs : List PluginResult) (scores : List Value) (passed : Bool)
    → All IsReport rs
    → tally rs scores passed
      ≡ ok (scores ++ map score_of rs, if passed then all_approve rs else false)
unfolding tally
tally_lem [] scores passed h = λ i. ok (sym (append-nil scores) i, (if_same passed) i)
tally_lem (r ∷ rs) scores passed (inl (fs, back, fine), h) =
    let score = get_field_or "score" half_float fs in
    let agrees = truthy (get_field_or "passed" (bool true) fs) in
    rw (fine, back)
      (tally_lem rs (scores ++ score ∷ []) (if agrees then passed else false) h ∙ λ i. ok (
        append_assoc scores (score ∷ []) (map score_of rs) i,
        if_and passed agrees (all_approve rs) i,
      ))
tally_lem (r ∷ rs) scores passed (inr (e, nothing, failed), h) =
    rw (nothing, failed)
      (tally_lem rs (scores ++ zero_float ∷ []) false h ∙ λ i.
        ok (append_assoc scores (zero_float ∷ []) (map score_of rs) i, if_false passed i))

-- A judge is at least as strict as a probe on the same reports.
all_approve-none_objects : (rs : List PluginResult) → all_approve rs ≡ true → none_objects rs ≡ true
all_approve-none_objects [] h = refl
all_approve-none_objects (r ∷ rs) h = elim (Option-cases r.result) [
  | inl e ↦ cc (rw e at h)
  | inr (fs, e) ↦ elim (Bool-cases (truthy (get_field_or "passed" (bool true) fs))) [
    | inl agrees ↦ rw (e, agrees) (all_approve-none_objects rs (rw (e, agrees) at h))
    | inr opposed ↦ cc (rw (e, opposed) at h)
  ]
]

second_of : {A : Type 0} → (p q : A × Bool) → ok p ≡ ok q → p.1 ≡ q.1
second_of p q h = ap (λ r. r.1) (ok_injective p q h)

-- Reports of plugins that let a judge pass, whatever the scores, also let a probe pass.
all_passed_of_tally :
    (rs : List PluginResult) (scores : List Value)
    → All IsReport rs
    → tally rs [] true ≡ ok (scores, true)
    → all_passed rs ≡ ok true
all_passed_of_tally rs scores reports passes =
    let approved : all_approve rs ≡ true =
      second_of _ _ (sym (tally_lem rs [] true reports) ∙ passes) in
    all_passed_lem rs reports ∙ ap (λ b. ok b) (all_approve-none_objects rs approved)

module _ {W : Type 0} (a : Agent W) (plugins : Registry W) (clock : W → Float × W)
    (numbers : Numbers) where
  pub judge_answers :
      (reporter_target : String) (m : Message) (task : Fields) (s : AgentState W)
      → m.type ≡ MessageType.judge_request
      → dict_at "task" m.payload ≡ ok task
      → let (rs, w) = outcomes a plugins clock "judge" m.payload s in
        All IsReport rs
        × (((e : Exc) × (average numbers (map score_of rs) ≡ err e)
              × (handle_message a plugins clock numbers reporter_target m s
                  ≡ (err e, record s { world = w })))
            ⊎ ((score : Value) × (average numbers (map score_of rs) ≡ ok score)
                × (handle_message a plugins clock numbers reporter_target m s ≡ (
                  ok (
                      some (
                        verdict_message (a.draw w).0 a.agent_id m (
                          verdict_report a.agent_id
                            (get_field_or "task_id" (str "unknown") task)
                            score
                            (all_approve rs)
                            rs)
                        ∷ report_message (a.draw (a.draw w).1).0 m reporter_target (
                            verdict_report a.agent_id
                              (get_field_or "task_id" (str "unknown") task)
                              score
                              (all_approve rs)
                              rs)
                        ∷ [])),
                  record s { world = (a.draw (a.draw w).1).1 },
                ))))
  unfolding handle_message judge ◌>>=◌
  judge_answers reporter_target m task s asked known =
      let (ran, reports) = run_plugins_lem a plugins clock "judge" m.payload s in
      let rs = (outcomes a plugins clock "judge" m.payload s).0 in
      let tallied = tally_lem rs [] true reports in
      (
        reports,
        elim (Result-cases (average numbers (map score_of rs))) [
          | inl (score, mean) ↦ inr (score, mean, rw (asked, ran, tallied, mean, known) refl)
          | inr (e, mean) ↦ inl (e, mean, rw (asked, ran, tallied, mean) refl)
        ],
      )
