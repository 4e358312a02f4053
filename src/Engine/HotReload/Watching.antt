-- ===== src/Engine/HotReload/Watching.antt =====
-- When the watching of the configuration file ends.
use aqap.Prelude.{
  ℕ, ◌<◌, lt→ltb, Result-cases, some, List, [], ◌∷◌, ◌++◌, Result, ok, err, raised, Exec, resume,
  ◌>>=◌, ◌≡◌, refl, ap, ◌∙◌, inl, inr,
}
use aqap.Value.{Value}
use aqap.Engine.HotReload.{reload, watch_round, watch, File, Watcher, yaml_error}

module _ {S : Type 0} (callback : Value → Exec S (Unit {0})) where
  watch-append :
      (before after : List File) (s t : Watcher S)
      → watch callback before s ≡ (ok tt, t)
      → watch callback (before ++ after) s ≡ watch callback after t
  unfolding watch ◌>>=◌
  watch-append [] after s t done = ap (λ r. watch callback after r.1) done
  watch-append (g ∷ before) after s t done = elim (Result-cases (watch_round callback g s).0) [
    | inl (_, fine) ↦
        rw (fine, resume)
          (watch-append before after (watch_round callback g s).1 t (rw (fine, resume) at done))
    | inr (x, failed) ↦
        let bad : (err x, (watch_round callback g s).1) ≡ (ok tt, t) =
          rw (failed, resume) at done in
        let worse : err x ≡ ok tt = ap (λ (r : Result (Unit {0}) × Watcher S). r.0) bad in cc
  ]

  -- The watching ends with the first change that is no YAML: no later change is noticed.
  watch-yaml_error :
      (before after : List File) (f : File) (mtime : ℕ) (s t : Watcher S)
      → watch callback before s ≡ (ok tt, t)
      → f.modified ≡ some mtime
      → t.last_mtime < mtime
      → f.reading ≡ yaml_error
      → watch callback (before ++ f ∷ after) s ≡ (err (raised "YAMLError"), t)
  unfolding watch watch_round reload ◌>>=◌
  watch-yaml_error before after f mtime s t done at_time later bad =
      watch-append before (f ∷ after) s t done ∙ rw (at_time, lt→ltb _ _ later, bad) refl
