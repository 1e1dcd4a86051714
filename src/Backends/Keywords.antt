-- ===== src/Backends/Keywords.antt =====
-- arbiter/llm.py: the keyword stand-in for a model, and the policy of rules alone.

use Prim.Native.String.{len, slice}
use text.Mathlib.Text.{find?}
use arbiter_ai.Base.{
  ℕ, ◌+◌, String, Bool, true, false, not, ◌&&◌, none, some, List, [], ◌∷◌, ◌<>◌, map, eqb, leb,
  if◌then◌else◌, keep, any, length, member,
}
use arbiter_ai.Base.Text.{lower, contains, strip, join, is_space}
use arbiter_ai.Values.{Runtime, get, get_value, get_or_empty, text_of}
use arbiter_ai.Schema.{Event, escalate, suppress}
use arbiter_ai.Triage.{LlmVerdict}
use arbiter_ai.Backends.{
  answered_decision, clamp_unit, from_brace, parse_response, to_brace, validated_steps,
}

abbrev pub hot : List String
hot =
    "privilege" ∷ "sudo" ∷ "root" ∷ "reverse shell" ∷ "curl | sh" ∷ "mimikatz" ∷ "new user"
    ∷ "crontab" ∷ "authorized_keys" ∷ "disabled" ∷ "exfil" ∷ "base64 -d" ∷ []

-- `s.split(t, 1)[0]`
abbrev pub ahead_of : String → String → String
ahead_of t s = elim (find? s t) [ none ↦ s | some at ↦ slice s 0 at ]

-- one character in front of the words of a text
pub into_words : Bool → String → List String → List String
into_words spaced c [] = c ∷ []
into_words true c (w ∷ ws) = c ∷ w ∷ ws
into_words false c (w ∷ ws) = (c <> w) ∷ ws

-- white space stands at the start of a text, or nothing
abbrev pub starts_blank : String → Bool
starts_blank String.[] = true
starts_blank (String.◌∷◌ c s) = is_space c

-- `s.split()`
unfoldable pub words : String → List String
unfolding into_words
words String.[] = []
words (String.◌∷◌ c s) =
    let rest = words s in
    if is_space c then rest else into_words (starts_blank s) (String.◌∷◌ c "") rest

-- `{w for w in s.lower().split() if len(w) >= 4}`, perhaps with repetitions
unfoldable pub long_words : String → List String
unfolding words
long_words s = keep (λ w. leb 4 (len w)) (words (lower s))

-- how many different words of the first list stand in the second
unfoldable pub shared_words : List String → List String → ℕ
shared_words [] there = 0
shared_words (w ∷ ws) there =
    let rest = shared_words ws there in
    if member w there && not (member w ws) then rest + 1 else rest

-- `_fact_explains`
unfoldable pub fact_explains : String → String → Bool
unfolding long_words shared_words
fact_explains fact message =
    if contains fact "[SCOPE MISMATCH"
    then false
    else if contains fact "[scope verified"
    then true
    else leb 2 (shared_words (long_words (ahead_of " [scope" fact)) (long_words message))

-- `str(...)` of a list of texts without quotes in them
abbrev pub shown_texts : List String → String
shown_texts ts = "[" <> (join ", " (map (λ t. "'" <> (t <> "'")) ts) <> "]")

module _ {F : Type 0} ⦃py : Runtime F⦄ where
  -- `MockBackend.triage`
  unfoldable pub mock_triage : Event F → F → String → List String → LlmVerdict F
  mock_triage e criticality summary facts =
      let message = lower e.message in
      let hits = keep (contains message) hot in
      if not (eqb (length hits) 0)
      then record {
        decision = escalate;
        confidence = py.lit 85 100;
        evidence =
            "Inspect "
            <> (e.host
                <> (": matched indicators "
                    <> (shown_texts hits
                        <> (" in "
                            <> (e.source
                                <> (" event '"
                                    <> (e.event_type
                                        <> ("'. Check user/IP in fields: "
                                            <> (py.shown_entries e.fields <> ".")))))))));
        rationale = "Message contains high-risk indicators " <> (shown_texts hits <> ".");
        recommended_steps = [];
      }
      else if any (λ f. fact_explains f message) facts
      then record {
        decision = suppress;
        confidence = py.lit 75 100;
        evidence = "";
        rationale = "Anomaly matches a known environment fact for this scope.";
        recommended_steps = [];
      }
      else record {
        decision = escalate;
        confidence = py.lit 55 100;
        evidence =
            "Review "
            <> (e.source
                <> ("/"
                    <> (e.event_type
                        <> (" on " <> (e.host <> "; no history to justify suppression.")))));
        rationale = "No strong benign explanation available; erring toward escalation.";
        recommended_steps = [];
      }

  -- `RulesOnlyBackend.triage`
  unfoldable pub rules_only_triage : Event F → F → String → List String → LlmVerdict F
  rules_only_triage e criticality summary facts = record {
    decision = escalate;
    confidence = py.lit 1 1;
    evidence = "Review the event; no local model is configured.";
    rationale = "Rules-only policy: ambiguous activity requires operator review.";
    recommended_steps = [];
  }

-- what a run of the backends computes with
unfoldable pub backends_run : Unit {0}
unfolding from_brace to_brace answered_decision validated_steps clamp_unit parse_response
    fact_explains mock_triage rules_only_triage strip lower contains get get_value get_or_empty
    text_of
backends_run = tt
