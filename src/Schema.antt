-- ===== src/Schema.antt =====
-- arbiter/schema.py: the contract between the collectors and the triage brain.
pub mod Laws
use arbiter_ai.Base.{String, Bool, true, false, List, ◌==◌, ◌<>◌, if◌then◌else◌}
use arbiter_ai.Values.{Entries, Runtime}

pub data Decision : Type 0 where
  escalate suppress ambiguous : Decision

pub data Tier : Type 0 where
  prefilter llm guardrail : Tier

pub record Event (F : Type 0) : Type 0 where
  pub source : String
  pub host : String
  pub event_type : String
  pub message : String
  pub severity : F
  pub timestamp : String
  pub id : String
  pub fields : Entries F

-- `recommended_steps` is the attribute that triage.py adds to a verdict of the model.
pub record Verdict (F : Type 0) : Type 0 where
  pub event_id : String
  pub signature : String
  pub decision : Decision
  pub score : F
  pub tier : Tier
  pub rationale : String
  pub evidence : String
  pub timestamp : String
  pub recommended_steps : List String

abbrev pub is_escalate : Decision → Bool
is_escalate escalate = true
is_escalate _ = false

abbrev pub is_suppress : Decision → Bool
is_suppress suppress = true
is_suppress _ = false

abbrev pub is_ambiguous : Decision → Bool
is_ambiguous ambiguous = true
is_ambiguous _ = false

abbrev pub is_prefilter : Tier → Bool
is_prefilter prefilter = true
is_prefilter _ = false

-- `Decision.value` and `Tier.value`
abbrev pub decision_value : Decision → String
decision_value escalate = "escalate"
decision_value suppress = "suppress"
decision_value ambiguous = "ambiguous"

abbrev pub tier_value : Tier → String
tier_value prefilter = "prefilter"
tier_value llm = "llm"
tier_value guardrail = "guardrail"

abbrev or_else : String → String → String
or_else s d = if s == "" then d else s

module _ {F : Type 0} where
  -- `Event.signature`
  unfoldable pub signature : Event F → String
  signature e = e.source <> (":" <> (e.event_type <> (":" <> e.host)))

module _ {F : Type 0} ⦃py : Runtime F⦄ where
  -- `max(0.0, min(10.0, x))`: each keeps its first argument unless the second is better
  unfoldable pub clamp : F → F
  clamp x =
      let low = if py.lt x (py.lit 10 1) then x else py.lit 10 1 in
      if py.lt (py.lit 0 1) low then low else py.lit 0 1

  -- `Event.__post_init__`, given the fresh id and the time that it may use
  unfoldable pub post_init : String → String → Event F → Event F
  unfolding clamp
  post_init fresh now e = record e {
    id = or_else e.id fresh;
    timestamp = or_else e.timestamp now;
    severity = clamp e.severity;
  }
