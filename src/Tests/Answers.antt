-- ===== src/Tests/Answers.antt =====
-- Runs of the backends, and their theorems at concrete inputs.
use arbiter_ai.Base.{ℕ, ◌≡◌, refl, true, none, some, [], ◌∷◌, ◌==◌, if◌then◌else◌}
use arbiter_ai.Values.{Value, Items, Entries}
use arbiter_ai.Schema.{escalate, suppress}
use arbiter_ai.Triage.{LlmVerdict}
use arbiter_ai.Backends.{Decoder, parse_response}
use arbiter_ai.Backends.Keywords.{words, mock_triage, rules_only_triage, backends_run}
use arbiter_ai.Backends.Parsed.{Bounded, parse_response-Bounded}
use arbiter_ai.Tests.Fixtures.{thousandths, spike, dump}

abbrev answer : Entries ℕ
answer = Entries.entry "decision" (Value.str "suppress") (
    Entries.entry "confidence" (Value.float 1500) (
      Entries.entry "recommended_steps"
        (Value.arr
          (Items.cons (Value.str " check the job ") (Items.cons (Value.bool true) Items.nil)))
        Entries.end))

abbrev decoder : Decoder ℕ
decoder = record {
  loads = λ s. if s == "{x}" then some answer else none;
  to_float = λ v. elim v [ Value.float x ↦ some x | _ ↦ none ];
}

abbrev parsed : LlmVerdict ℕ
parsed = record {
  decision = suppress;
  confidence = 1000;
  evidence = "";
  rationale = "";
  recommended_steps = "check the job" ∷ [];
}

answers_run :
    (parse_response decoder "Sure: {x} as asked" ≡ some parsed)
    × (parse_response decoder "no json" ≡ none)
    × (words "  two  words " ≡ "two" ∷ "words" ∷ [])
    × ((mock_triage spike 1000 "" ("nightly backup reads of the db" ∷ [])).decision ≡ suppress)
    × ((mock_triage spike 1000 "" ("backup reads [SCOPE MISMATCH: user]" ∷ [])).decision ≡ escalate)
    × ((mock_triage dump 1000 "" ("backup reads" ∷ [])).decision ≡ escalate)
    × ((rules_only_triage spike 1000 "" []).decision ≡ escalate)
unfolding backends_run
answers_run = (refl, refl, refl, refl, refl, refl, refl)

parse_response-Bounded_example : Bounded parsed
parse_response-Bounded_example =
    parse_response-Bounded decoder "Sure: {x} as asked" parsed answers_run.0
