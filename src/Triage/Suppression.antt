-- ===== src/Triage/Suppression.antt =====
-- What must hold for the engine to suppress an event.
use arbiter_ai.Base.{
  String, ◌≡◌, ◌⊎◌, inl, inr, refl, true, false, Option, none, some, List, Option-cases, Bool-cases,
  Among, arith,
}
use arbiter_ai.Values.{Runtime}
use arbiter_ai.Schema.{Event, Decision, suppress, is_ambiguous}
use arbiter_ai.Guardrails.{GuardrailHit, guardrail_check, fact_downgrade}
use arbiter_ai.Guardrails.Downgrade.{Covers, downgrade-Covers}
use arbiter_ai.Facts.{texts}
use arbiter_ai.Memory.Facts.{facts_for}
use arbiter_ai.Prefilter
use arbiter_ai.Triage.{
  Model, LlmVerdict, Answer, failed, answered, Engine, Downgraded, same_rail, confident, veto,
  judge, failure_verdict, llm_triage, guardrail_verdict, prefilter_verdict,
}
use arbiter_ai.Triage.Rails.{pass, stop, at_rail, after_check, triage}

module _ {F : Type 0} ⦃py : Runtime F⦄ where
  -- no rail fires, or the one that is reported is the downgraded one
  abbrev pub Unrailed : Event F → Option Downgraded → Type 0
  Unrailed e downgraded =
      (guardrail_check e ≡ none)
      ⊎ ((hit : GuardrailHit) × (guardrail_check e ≡ some hit) × (same_rail hit downgraded ≡ true))

  -- an answer of the model that allows a suppression
  pub record Confident (l : LlmVerdict F) : Type 0 where
    pub suppresses : l.decision ≡ suppress
    pub sure : py.lt l.confidence (py.lit 7 10) ≡ false
    pub finite : py.finite l.confidence ≡ true

  veto-suppress :
      (e : Event F) (downgraded : Option Downgraded) (d : Decision × String)
      → (veto e downgraded d).0 ≡ suppress
      → (d.0 ≡ suppress) × Unrailed e downgraded
  unfolding veto
  veto-suppress e downgraded d h = elim (Option-cases (guardrail_check e)) [
    | inl quiet ↦ (ground (arith, quiet), inl quiet)
    | inr (hit, fires) ↦ elim (Bool-cases (same_rail hit downgraded)) [
      | inl same ↦ (ground (arith, fires, same), inr (hit, fires, same))
      | inr other ↦ absurd (ground (arith, fires, other))
    ]
  ]

  confident-suppress :
      (l : LlmVerdict F)
      → (confident l).0 ≡ suppress
      → (l.decision ≡ suppress) × (py.lt l.confidence (py.lit 7 10) ≡ false)
  unfolding confident
  confident-suppress l h = ground arith

  judge-suppress :
      (now : String) (e : Event F) (score : F) (downgraded : Option Downgraded) (a : Answer F)
      → (judge now e score downgraded a).decision ≡ suppress
      → (l : LlmVerdict F) × (a ≡ answered l) × Confident l × Unrailed e downgraded
  unfolding judge failure_verdict
  judge-suppress now e score downgraded (failed reason) h = cc
  judge-suppress now e score downgraded (answered l) h =
      elim (Bool-cases (py.finite l.confidence)) [
        | inr wild ↦ absurd (ground (arith, wild))
        | inl finite ↦
            let (accepted, unrailed) = veto-suppress e downgraded (confident l) (rw finite at h) in
            let (suppresses, sure) = confident-suppress l accepted in
            (l, refl, record { suppresses = suppresses; sure = sure; finite = finite }, unrailed)
      ]

module _ {F : Type 0} ⦃py : Runtime F⦄ (model : Model F) (now : String) (e : Event F)
    (g : Engine F) where
  -- The two ways in which a suppression comes about. By the prefilter: no rail fires. By the model:
  -- some call of it answered a confident suppression, and the rail that fires, if any, is
  -- `privilege_expansion`, downgraded by a fact of the memory that covers the event.
  pub data Justified : Type 0 where
    by_prefilter :
        guardrail_check e ≡ none
        → (Prefilter.prefilter e g.memory).0.decision ≡ suppress
        → Justified
    by_model :
        (l : LlmVerdict F) (criticality : F) (summary : String) (facts : List String)
        → model e criticality summary facts ≡ answered l
        → Confident l
        → (guardrail_check e ≡ none)
          ⊎ ((hit : GuardrailHit) × (fact : String) × (guardrail_check e ≡ some hit)
              × (hit.name ≡ "privilege_expansion")
              × Among fact (texts (facts_for e.host e.source now g.memory))
              × Covers e fact)
        → Justified

  -- A call of the model that gave the verdict.
  abbrev Answered : Option Downgraded → Type 0
  Answered downgraded =
      (l : LlmVerdict F) × (criticality : F) × (summary : String) × (facts : List String) × (model e
          criticality summary facts
        ≡ answered l)
      × Confident l
      × Unrailed e downgraded

  llm_triage-Answered :
      (score : F) (downgraded : Option Downgraded)
      → (llm_triage model now e score downgraded (Prefilter.prefilter e g.memory).1).0.decision
        ≡ suppress
      → Answered downgraded
  unfolding llm_triage
  llm_triage-Answered score downgraded h =
      let (l, answer, sure, unrailed) = judge-suppress now e score downgraded _ h in
      (l, _, _, _, answer, sure, unrailed)

  pass-none :
      (pass model now e none g).0.decision ≡ suppress
      → ((Prefilter.prefilter e g.memory).0.decision ≡ suppress) ⊎ Answered none
  unfolding pass prefilter_verdict
  pass-none h = elim (Bool-cases (is_ambiguous (Prefilter.prefilter e g.memory).0.decision)) [
    | inl asked ↦ inr (llm_triage-Answered _ none (rw asked at h))
    | inr decided ↦ inl (rw decided at h)
  ]

  pass-some :
      (d : Downgraded) → (pass model now e (some d) g).0.decision ≡ suppress → Answered (some d)
  unfolding pass
  pass-some d h = llm_triage-Answered _ (some d) h

  quiet-Justified :
      guardrail_check e ≡ none → (pass model now e none g).0.decision ≡ suppress → Justified
  quiet-Justified quiet h = elim (pass-none h) [
    | inl early ↦ by_prefilter quiet early
    | inr (l, criticality, summary, facts, answer, sure, unrailed) ↦
        by_model l criticality summary facts answer sure (inl quiet)
  ]

  at_rail-Justified :
      (hit : GuardrailHit) (fact : Option String)
      → guardrail_check e ≡ some hit
      → fact_downgrade hit e (texts (facts_for e.host e.source now g.memory)) ≡ fact
      → (at_rail model now e hit fact g).0.decision ≡ suppress
      → Justified
  unfolding at_rail stop guardrail_verdict
  at_rail-Justified hit none fires stands h = absurd (cc)
  at_rail-Justified hit (some fact) fires lowered h =
      let (l, criticality, summary, facts, answer, sure, unrailed) = pass-some (hit, fact) h in
      let (rail, found, covers) = downgrade-Covers hit e _ fact lowered in
      by_model l criticality summary facts answer sure (inr (hit, fact, fires, rail, found, covers))

  after_check-Justified :
      (o : Option GuardrailHit)
      → guardrail_check e ≡ o
      → (after_check model now e o g).0.decision ≡ suppress
      → Justified
  unfolding after_check
  after_check-Justified none quiet h = quiet-Justified quiet h
  after_check-Justified (some hit) fires h = at_rail-Justified hit _ fires refl h

  pub triage-Justified : (triage model now e g).0.decision ≡ suppress → Justified
  unfolding triage
  triage-Justified h = after_check-Justified (guardrail_check e) refl h
