-- ===== src/Backends.antt =====
-- arbiter/llm.py: what is accepted of a model's text, and the two backends without a model. JSON
-- decoding and `float(...)` are parameters, which may fail.
pub mod Keywords
pub mod Parsed
pub mod Mock
use Prim.Native.Char.{code}
use Prim.Native.String.{len, slice}
use text.Mathlib.Text.{find?}
use arbiter_ai.Base.{
  ℕ, ◌+◌, String, Bool, true, false, not, ◌&&◌, ◌||◌, Option, none, some, List, [], ◌∷◌, ◌==◌, ◌<>◌,
  map, eqb, leb, if◌then◌else◌, keep, any, take, length, member,
}
use arbiter_ai.Base.Text.{lower, contains, strip, join, is_space}
use arbiter_ai.Values.{Runtime, Value, Items, Entries, get, get_value, get_or_empty, text_of}
use arbiter_ai.Schema.{Event, Decision, escalate, suppress, ambiguous}
use arbiter_ai.Triage.{LlmVerdict}

-- from the first opening brace on
unfoldable pub from_brace : String → String
from_brace String.[] = ""
from_brace (String.◌∷◌ c s) = if eqb (code c) b'{' then String.◌∷◌ c s else from_brace s

-- up to the last closing brace
unfoldable pub to_brace : String → String
to_brace String.[] = ""
to_brace (String.◌∷◌ c s) =
    let rest = to_brace s in if rest == "" && not (eqb (code c) b'}') then "" else String.◌∷◌ c rest

-- `Decision(...)` of a JSON value; `none` is the ValueError
unfoldable pub decision_of : String → Option Decision
decision_of s =
    if s == "escalate"
    then some escalate
    else if s == "suppress"
    then some suppress
    else if s == "ambiguous"
    then some ambiguous
    else none

-- a decision that a model may give
pub allowed : Option Decision → Option Decision
allowed none = none
allowed (some escalate) = some escalate
allowed (some suppress) = some suppress
allowed (some ambiguous) = none

module _ {F : Type 0} where
  unfoldable pub answered_decision : Value F → Option Decision
  unfolding decision_of allowed
  answered_decision (Value.str s) = allowed (decision_of s)
  answered_decision _ = none

  abbrev pub is_bool : Value F → Bool
  is_bool (Value.bool b) = true
  is_bool _ = false

  unfoldable pub listed : Items F → List (Value F)
  listed Items.nil = []
  listed (Items.cons v rest) = v ∷ listed rest

  -- `s.strip()` of a text; any other value is dropped as an empty text is
  abbrev pub step_text : Value F → String
  step_text (Value.str s) = strip s
  step_text _ = ""

  -- `[s.strip() for s in ... if isinstance(s, str) and 0 < len(s.strip()) <= 500]`
  pub kept_steps : List (Value F) → List String
  kept_steps [] = []
  kept_steps (v ∷ rest) =
      let more = kept_steps rest in
      let step = step_text v in if not (step == "") && leb (len step) 500 then step ∷ more else more

  unfoldable pub validated_steps : Value F → List String
  unfolding listed kept_steps
  validated_steps (Value.arr vs) = kept_steps (take 4 (listed vs))
  validated_steps _ = []

-- What the parser calls: `json.loads` of a text that holds an object, and `float(v)`, where `none`
-- stands for an exception.
pub record Decoder (F : Type 0) : Type 0 where
  pub loads : String → Option (Entries F)
  pub to_float : Value F → Option F

module _ {F : Type 0} ⦃py : Runtime F⦄ where
  -- `max(0.0, min(1.0, x))`
  unfoldable pub clamp_unit : F → F
  clamp_unit x =
      let low = if py.lt x (py.lit 1 1) then x else py.lit 1 1 in
      if py.lt (py.lit 0 1) low then low else py.lit 0 1

  -- `doc.get("confidence", 0.5)`
  abbrev pub stated_confidence : Entries F → Value F
  stated_confidence doc = elim (get "confidence" doc) [
    | none ↦ Value.float (py.lit 5 10)
    | some v ↦ v
  ]

  -- the verdict with a decision and a confidence
  pub accepted : Entries F → Decision → Option F → Option (LlmVerdict F)
  accepted doc decision none = none
  accepted doc decision (some confidence) =
      if is_bool (get_value "confidence" doc) || not (py.finite confidence)
      then none
      else some (record {
        decision = decision;
        confidence = clamp_unit confidence;
        evidence = text_of (get_or_empty "evidence" doc);
        rationale = text_of (get_or_empty "rationale" doc);
        recommended_steps = validated_steps (get_value "recommended_steps" doc);
      })

  pub from_object : Decoder F → Option (Entries F) → Option (LlmVerdict F)
  unfolding accepted
  from_object decoder none = none
  from_object decoder (some doc) = elim (answered_decision (get_value "decision" doc)) [
    | none ↦ none
    | some decision ↦ accepted doc decision (decoder.to_float (stated_confidence doc))
  ]

  -- `none` stands for the exception, which the engine takes for a failed model.
  unfoldable pub parse_response : Decoder F → String → Option (LlmVerdict F)
  unfolding from_object
  parse_response decoder text =
      if contains text "{" && contains text "}"
      then from_object decoder (decoder.loads (to_brace (from_brace text)))
      else none
