-- ===== src/Triage.antt =====
-- arbiter/triage.py: guardrails, prefilter, model, verdict, audit. The model is a parameter: a
-- function that answers or fails, as any LLMBackend does.
pub mod Rails
pub mod Guarded
pub mod Suppression
pub mod Stats
use arbiter_ai.Base.{
  ℕ, ◌+◌, String, ◌≡◌, Bool, true, false, not, ◌&&◌, ◌||◌, Option, none, some, List, [], ◌∷◌, ◌++◌,
  ◌==◌, ◌<>◌, eqb, if◌then◌else◌,
}
use arbiter_ai.Base.Decimal.{decimal}
use arbiter_ai.Values.{Runtime, get_value}
use arbiter_ai.Schema.{
  Event, Verdict, Decision, escalate, suppress, Tier, prefilter, llm, guardrail, signature,
  is_escalate, is_suppress, is_ambiguous,
}
use arbiter_ai.Guardrails.{GuardrailHit, guardrail_check, fact_downgrade}
use arbiter_ai.Facts.{texts, render_all}
use arbiter_ai.Memory.{Memory, SignatureHistory, history, asset_criticality, record_verdict}
use arbiter_ai.Memory.Facts.{facts_for}
use arbiter_ai.Prefilter

pub record LlmVerdict (F : Type 0) : Type 0 where
  pub decision : Decision
  pub confidence : F
  pub evidence : String
  pub rationale : String
  pub recommended_steps : List String

-- `failed` has the text of the exception that a backend raised.
pub data Answer (F : Type 0) : Type 0 where
  failed : String → Answer F
  answered : LlmVerdict F → Answer F

-- `LLMBackend.triage`: event, criticality, history summary, facts
abbrev pub Model : Type 0 → Type 0
Model F = Event F → F → String → List String → Answer F

pub record TriageStats : Type 0 where
  pub total : ℕ
  pub prefilter_decided : ℕ
  pub llm_decided : ℕ
  pub guardrail_decided : ℕ
  pub guardrail_downgraded : ℕ
  pub escalated : ℕ
  pub suppressed : ℕ

-- an entry of the audit file: the verdict, the shadow flag and the event's `source`, `host`, `type`
-- and `message`
pub record AuditEntry (F : Type 0) : Type 0 where
  pub verdict : Verdict F
  pub shadow : Bool
  pub source : String
  pub host : String
  pub event_type : String
  pub message : String

pub record Engine (F : Type 0) : Type 0 where
  pub memory : Memory F
  pub shadow : Bool
  pub stats : TriageStats
  pub audit : List (AuditEntry F)

-- a rail that a fact downgraded, with the fact
abbrev pub Downgraded : Type 0
Downgraded = GuardrailHit × String

unfoldable pub history_summary : SignatureHistory → String
history_summary h =
    if eqb h.total 0
    then "first occurrence of this signature"
    else "seen "
      <> (decimal h.total
          <> ("x before: "
              <> (decimal h.suppressed
                  <> (" suppressed, "
                      <> (decimal h.escalated
                          <> (" escalated, " <> (decimal h.overruled <> " human-overruled")))))))

module _ {F : Type 0} where
  -- `_audit`
  unfoldable pub audit_entry : Bool → Event F → Verdict F → AuditEntry F
  audit_entry shadow e v = record {
    verdict = v;
    shadow = shadow;
    source = e.source;
    host = e.host;
    event_type = e.event_type;
    message = e.message;
  }

  -- the end of `triage`: the memory and the audit file take the verdict
  pub remember : Event F → Verdict F → Engine F → Engine F
  remember e v g = record g {
    memory = record_verdict v (get_value "_context_signature" e.fields) g.memory;
    audit = g.audit ++ (audit_entry g.shadow e v ∷ []);
  }

abbrev pub same_rail : GuardrailHit → Option Downgraded → Bool
same_rail hit none = false
same_rail hit (some (d, fact)) = hit.name == d.name

module _ {F : Type 0} ⦃py : Runtime F⦄ where
  -- a model's answer with the low-confidence rule: its decision and rationale
  unfoldable pub confident : LlmVerdict F → Decision × String
  confident l =
      if is_suppress l.decision && py.lt l.confidence (py.lit 7 10)
      then (
        escalate,
        "LLM suggested suppress at confidence "
            <> (py.fixed 2 l.confidence
                <> (" < 0.7; upgraded to escalate. LLM said: " <> l.rationale)),
      )
      else (l.decision, l.rationale)

  -- the veto: a suppression stands only if no rail fires, but for the downgraded one
  unfoldable pub veto : Event F → Option Downgraded → Decision × String → Decision × String
  veto e downgraded (decision, rationale) =
      let vetoed = λ (hit : GuardrailHit).
        if same_rail hit downgraded then (decision, rationale) else (
          escalate,
          "Security guardrail ["
              <> (hit.code <> ("] vetoed LLM suppress: " <> (hit.reason <> "."))),
        ) in
      if is_suppress decision
      then elim (guardrail_check e) [ none ↦ (decision, rationale) | some hit ↦ vetoed hit ]
      else (decision, rationale)

abbrev pub disclosed : Option Downgraded → String → String
disclosed none rationale = rationale
disclosed (some (hit, fact)) rationale =
    "[guardrail "
    <> (hit.name
        <> (" downgraded to LLM decision by standing fact: \"" <> (fact <> ("\"] " <> rationale))))

module _ {F : Type 0} ⦃py : Runtime F⦄ where
  pub failure_verdict : String → Event F → F → String → Verdict F
  failure_verdict now e score reason = record {
    event_id = e.id;
    signature = signature e;
    decision = escalate;
    score = score;
    tier = llm;
    rationale = "LLM tier failed (" <> (reason <> "); escalating by policy.");
    evidence = "Untriaged event requires human review: " <> e.message;
    timestamp = now;
    recommended_steps = [];
  }

  -- the verdict on a model's answer
  unfoldable pub judge : String → Event F → F → Option Downgraded → Answer F → Verdict F
  judge now e score downgraded (failed reason) = failure_verdict now e score reason
  judge now e score downgraded (answered l) =
      let (decision, rationale) = veto e downgraded (confident l) in
      let verdict : Verdict F = record {
        event_id = e.id;
        signature = signature e;
        decision = decision;
        score = score;
        tier = llm;
        rationale = disclosed downgraded rationale;
        evidence = l.evidence;
        timestamp = now;
        recommended_steps = l.recommended_steps;
      } in
      if py.finite l.confidence
      then verdict
      else failure_verdict now e score "invalid model confidence"

  -- `_llm_triage`
  pub llm_triage :
      Model F → String → Event F → F → Option Downgraded → Memory F → Verdict F × Memory F
  llm_triage model now e score downgraded m =
      let (h, m') = history (signature e) m in
      let facts = render_all (facts_for e.host e.source now m') e in
      let answer = model e (asset_criticality e.host m') (history_summary h) facts in
      (judge now e score downgraded answer, m')

  pub guardrail_verdict : String → Event F → GuardrailHit → Verdict F
  guardrail_verdict now e hit = record {
    event_id = e.id;
    signature = signature e;
    decision = escalate;
    score = py.lit 10 1;
    tier = guardrail;
    rationale = "Security guardrail [" <> (hit.code <> ("]: " <> (hit.reason <> ".")));
    evidence = "Non-suppressible signal: " <> e.message;
    timestamp = now;
    recommended_steps = [];
  }

  pub prefilter_verdict : String → Event F → Prefilter.PrefilterResult F → Verdict F
  prefilter_verdict now e pre = record {
    event_id = e.id;
    signature = signature e;
    decision = pre.decision;
    score = pre.score;
    tier = prefilter;
    rationale = pre.rationale;
    evidence =
        if is_escalate pre.decision then "Auto-escalated by prefilter: " <> e.message else "";
    timestamp = now;
    recommended_steps = [];
  }
