-- ===== src/Engine/Failure.antt =====
-- What a start of the engine that raises leaves.
use aqap.Prelude.{
  String, false, List, ok, err, Exc, resume, ◌>>=◌, ◌≡◌, refl, ◌∙◌, ap, Result-cases, inl, inr,
}
use aqap.Value.{Value}
use aqap.Engine.{EngineState, System}
use aqap.Engine.Steady.{prepare-Keeps}
use aqap.Engine.Starting.{prepare, start_agents, start, stop}

module _ {T B W : Type 0} where
  -- A start that raises, at whichever step, leaves an engine that was not started so, and stop()
  -- then does nothing: what was done before the exception, such as connecting the transport, stays.
  pub stop-failed_start :
      (y : System T B W) (topics_of : Value → List String) (s : EngineState T B W) (e : Exc)
      → s.started ≡ false
      → (start y topics_of s).0 ≡ err e
      → ((start y topics_of s).1.started ≡ false)
        × (stop (start y topics_of s).1 ≡ (start y topics_of s).1)
  unfolding start start_agents stop ◌>>=◌
  stop-failed_start y topics_of s e h failed = elim (Result-cases (prepare y topics_of s).0) [
    | inl (_, fine) ↦ let bad : ok tt ≡ err e = rw (fine, resume) at failed in cc
    | inr (x, raised) ↦
        let still : (prepare y topics_of s).1.started ≡ false =
          ap (λ p. p.0) ((prepare-Keeps y topics_of).kept s) ∙ h in
        rw raised (still, rw still refl)
  ]
