-- ===== src/Triage/Guarded.antt =====
-- What the model cannot change: the rails, and the policy for a model that fails.
use arbiter_ai.Base.{String, List, ◌∙◌, sym, ◌≡◌, ◌≢◌, none, some, eq_iff, arith}
use arbiter_ai.Values.{Runtime}
use arbiter_ai.Schema.{Event, escalate, suppress, guardrail}
use arbiter_ai.Guardrails.{GuardrailHit, guardrail_check, fact_downgrade}
use arbiter_ai.Prefilter
use arbiter_ai.Triage.{Model, failed, Engine, guardrail_verdict}
use arbiter_ai.Triage.Rails.{stop, at_rail, after_check, triage}
use arbiter_ai.Triage.Suppression.{by_prefilter, by_model, triage-Justified}

module _ {F : Type 0} ⦃py : Runtime F⦄ where
  not_downgraded :
      (hit : GuardrailHit) (e : Event F) (facts : List String)
      → hit.name ≢ "privilege_expansion"
      → fact_downgrade hit e facts ≡ none
  unfolding fact_downgrade
  not_downgraded hit e facts other = ground (arith, eq_iff hit.name "privilege_expansion")

  triage-stop :
      (hit : GuardrailHit) (e : Event F)
      → guardrail_check e ≡ some hit
      → hit.name ≢ "privilege_expansion"
      → (model : Model F) (now : String) (g : Engine F) → triage model now e g ≡ stop now e hit g
  unfolding triage after_check at_rail
  triage-stop hit e fires name model now g = rw (fires, not_downgraded hit e _ name)

  -- If the first rule that fires is any but `privilege_expansion`, the event is escalated at the
  -- guardrail tier whatever the model, the facts, the history and the counters are, and two engines
  -- that differ only in the model end in the same state.
  pub triage-rail :
      (hit : GuardrailHit) (e : Event F)
      → guardrail_check e ≡ some hit
      → hit.name ≢ "privilege_expansion"
      → (model other : Model F) (now : String) (g : Engine F)
      → ((triage model now e g).0.decision ≡ escalate)
        × ((triage model now e g).0.tier ≡ guardrail)
        × (triage model now e g ≡ triage other now e g)
  unfolding stop guardrail_verdict
  triage-rail hit e fires name model other now g =
      let stops = triage-stop hit e fires name model now g in
      (rw stops, rw stops, stops ∙ sym (triage-stop hit e fires name other now g))

  -- With a model that fails on every call, only the prefilter suppresses, and only where no rail
  -- fires.
  pub triage-failing :
      (model : Model F) (now : String) (e : Event F) (g : Engine F)
      → ((c : F) (s : String) (fs : List String)
          → (reason : String) × (model e c s fs ≡ failed reason))
      → (triage model now e g).0.decision ≡ suppress
      → (guardrail_check e ≡ none) × ((Prefilter.prefilter e g.memory).0.decision ≡ suppress)
  triage-failing model now e g fails h = elim (triage-Justified model now e g h) [
    | by_prefilter quiet early ↦ (quiet, early)
    | by_model l c s fs answer sure unrailed ↦
        let (reason, failure) = fails c s fs in absurd (cc (answer, failure))
  ]
