-- ===== src/Triage/Stats.antt =====
-- The counters of the engine, its audit file and its verdict table move together.
use arbiter_ai.Base.{◌+◌, ◌≤◌, String, ◌≡◌, refl, none, some, [], ◌∷◌, ◌++◌, Option, arith}
use arbiter_ai.Values.{Runtime}
use arbiter_ai.Schema.{Event, Verdict}
use arbiter_ai.Guardrails.{GuardrailHit, guardrail_check}
use arbiter_ai.Triage.{Model, TriageStats, Engine, Downgraded, audit_entry, remember}
use arbiter_ai.Triage.Rails.{count_decision, pass, stop, at_rail, after_check, triage}

-- Every triaged event was decided by one tier and counted by one decision.
pub record Balanced (s : TriageStats) : Type 0 where
  pub tiers : s.prefilter_decided + s.llm_decided + s.guardrail_decided ≡ s.total
  pub decisions : s.escalated + s.suppressed ≡ s.total
  pub downgrades : s.guardrail_downgraded ≤ s.llm_decided

module _ {F : Type 0} ⦃py : Runtime F⦄ (model : Model F) (now : String) (e : Event F)
    (g : Engine F) where
  -- what one call of `triage` adds
  pub record Advances (out : Verdict F × Engine F) : Type 0 where
    pub counted : out.1.stats.total ≡ g.stats.total + 1
    pub audited : out.1.audit ≡ g.audit ++ (audit_entry g.shadow e out.0 ∷ [])
    pub same_mode : out.1.shadow ≡ g.shadow

  stop-Advances : (hit : GuardrailHit) → Advances (stop now e hit g)
  unfolding stop remember
  stop-Advances hit = record { counted = refl; audited = refl; same_mode = refl }

  pass-Advances : (downgraded : Option Downgraded) → Advances (pass model now e downgraded g)
  unfolding pass remember count_decision
  pass-Advances none = record { counted = ground arith; audited = refl; same_mode = refl }
  pass-Advances (some d) = record { counted = ground arith; audited = refl; same_mode = refl }

  at_rail-Advances :
      (hit : GuardrailHit) (fact : Option String) → Advances (at_rail model now e hit fact g)
  unfolding at_rail
  at_rail-Advances hit none = stop-Advances hit
  at_rail-Advances hit (some fact) = pass-Advances (some (hit, fact))

  after_check-Advances : (hit : Option GuardrailHit) → Advances (after_check model now e hit g)
  unfolding after_check
  after_check-Advances none = pass-Advances none
  after_check-Advances (some hit) = at_rail-Advances hit _

  -- Whatever the branch, one triage counts one more event, appends exactly one audit entry, that of
  -- the verdict it returns, and leaves the shadow flag alone.
  pub triage-Advances : Advances (triage model now e g)
  unfolding triage
  triage-Advances = after_check-Advances (guardrail_check e)

  module _ (balanced : Balanced g.stats) where
    stop-Balanced : (hit : GuardrailHit) → Balanced (stop now e hit g).1.stats
    unfolding stop remember
    stop-Balanced hit = ground (arith, balanced.tiers, balanced.decisions, balanced.downgrades)

    pass-Balanced :
        (downgraded : Option Downgraded) → Balanced (pass model now e downgraded g).1.stats
    unfolding pass remember count_decision
    pass-Balanced none = ground (arith, balanced.tiers, balanced.decisions, balanced.downgrades)
    pass-Balanced (some d) = ground (arith, balanced.tiers, balanced.decisions, balanced.downgrades)

    at_rail-Balanced :
        (hit : GuardrailHit) (fact : Option String)
        → Balanced (at_rail model now e hit fact g).1.stats
    unfolding at_rail
    at_rail-Balanced hit none = stop-Balanced hit
    at_rail-Balanced hit (some fact) = pass-Balanced (some (hit, fact))

    after_check-Balanced :
        (hit : Option GuardrailHit) → Balanced (after_check model now e hit g).1.stats
    unfolding after_check
    after_check-Balanced none = pass-Balanced none
    after_check-Balanced (some hit) = at_rail-Balanced hit _

    -- From balanced counters the engine goes to balanced counters: the three tiers add up to the
    -- total, so do the two decisions, and every downgraded rail is among the model's decisions.
    pub triage-Balanced : Balanced (triage model now e g).1.stats
    unfolding triage
    triage-Balanced = after_check-Balanced (guardrail_check e)
