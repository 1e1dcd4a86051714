-- ===== src/Triage/Rails.antt =====
-- arbiter/triage.py: `triage`, from the rails on, with its counters and its audit trail.
use arbiter_ai.Base.{◌+◌, String, Bool, true, false, ◌||◌, Option, none, some, if◌then◌else◌}
use arbiter_ai.Values.{Runtime}
use arbiter_ai.Schema.{Event, Verdict, Decision, is_escalate, is_ambiguous}
use arbiter_ai.Guardrails.{GuardrailHit, guardrail_check, fact_downgrade}
use arbiter_ai.Facts.{texts}
use arbiter_ai.Memory.Facts.{facts_for}
use arbiter_ai.Prefilter
use arbiter_ai.Triage.{
  Downgraded, Engine, Model, TriageStats, audit_entry, confident, failure_verdict,
  guardrail_verdict, history_summary, judge, llm_triage, prefilter_verdict, remember, veto,
}

-- the counters of a verdict that the rails did not decide
unfoldable pub count_decision : Decision → TriageStats → TriageStats
count_decision d s =
    if is_escalate d
    then record s { total = s.total + 1; escalated = s.escalated + 1 }
    else record s { total = s.total + 1; suppressed = s.suppressed + 1 }

abbrev pub count_downgrade : Option Downgraded → TriageStats → TriageStats
count_downgrade none s = s
count_downgrade (some d) s = record s { guardrail_downgraded = s.guardrail_downgraded + 1 }

abbrev pub is_downgraded : Option Downgraded → Bool
is_downgraded none = false
is_downgraded (some d) = true

module _ {F : Type 0} ⦃py : Runtime F⦄ where
  -- the event goes past the rails, perhaps with a downgraded one
  unfoldable pub pass :
      Model F → String → Event F → Option Downgraded → Engine F → Verdict F × Engine F
  pass model now e downgraded g =
      let (pre, m) = Prefilter.prefilter e g.memory in
      let (by_model, m') = llm_triage model now e pre.score downgraded m in
      let s = count_downgrade downgraded g.stats in
      let asked = is_downgraded downgraded || is_ambiguous pre.decision in
      let v = if asked then by_model else prefilter_verdict now e pre in
      let s' : TriageStats =
        if asked
        then record s { llm_decided = s.llm_decided + 1 }
        else record s { prefilter_decided = s.prefilter_decided + 1 } in
      (
        v,
        remember e v
            (record g { memory = if asked then m' else m; stats = count_decision v.decision s' }),
      )

  -- the event stops at a rail
  unfoldable pub stop : String → Event F → GuardrailHit → Engine F → Verdict F × Engine F
  stop now e hit g =
      let v = guardrail_verdict now e hit in
      let s = g.stats in
      (
        v,
        remember e v (record g {
          stats = record s {
            guardrail_decided = s.guardrail_decided + 1;
            total = s.total + 1;
            escalated = s.escalated + 1;
          };
        }),
      )

  -- a rail fired: it stands unless a fact downgrades it
  unfoldable pub at_rail :
      Model F → String → Event F → GuardrailHit → Option String → Engine F → Verdict F × Engine F
  at_rail model now e hit none g = stop now e hit g
  at_rail model now e hit (some fact) g = pass model now e (some (hit, fact)) g

  -- the result of the guardrails: a rail that fired is held against the facts of the memory
  unfoldable pub after_check :
      Model F → String → Event F → Option GuardrailHit → Engine F → Verdict F × Engine F
  after_check model now e none g = pass model now e none g
  after_check model now e (some hit) g =
      let facts = texts (facts_for e.host e.source now g.memory) in
      at_rail model now e hit (fact_downgrade hit e facts) g

  unfoldable pub triage : Model F → String → Event F → Engine F → Verdict F × Engine F
  triage model now e g = after_check model now e (guardrail_check e) g

-- what a run of the engine computes with
unfoldable pub triage_run : Unit {0}
unfolding history_summary audit_entry remember confident veto failure_verdict judge llm_triage
    guardrail_verdict prefilter_verdict count_decision pass stop at_rail after_check triage
triage_run = tt
