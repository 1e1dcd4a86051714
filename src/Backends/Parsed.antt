-- ===== src/Backends/Parsed.antt =====
-- What an accepted answer of a model looks like.
use Prim.Native.String.{len}
use arbiter_ai.Base.{
  ℕ, ◌≤◌, String, ◌≡◌, false, not, ◌&&◌, ◌||◌, Option, none, some, List, [], ◌∷◌, ◌==◌, leb, take,
  length, All, Bool-cases, Option-cases, inl, inr, arith, zero, suc, ◌≢◌,
}
use mathlib.Core.Option.{some-injective}
use arbiter_ai.Base.Text.{contains}
use arbiter_ai.Values.{Runtime, Value, null, Entries, get_value}
use arbiter_ai.Schema.{Decision, escalate, suppress, ambiguous}
use arbiter_ai.Schema.Laws.{asymmetric}
use arbiter_ai.Triage.{LlmVerdict}
use arbiter_ai.Backends.{
  allowed, decision_of, answered_decision, listed, kept_steps, validated_steps, Decoder, clamp_unit,
  step_text, accepted, from_object, parse_response, is_bool,
}

-- a step that an operator may see
abbrev pub IsStep : String → Type 0
IsStep s = ((s == "") ≡ false) × (len s ≤ 500)

allowed-final : (o : Option Decision) (d : Decision) → allowed o ≡ some d → d ≢ ambiguous
unfolding allowed
allowed-final none d h = absurd (cc)
allowed-final (some escalate) d h = λ e. cc (h, e)
allowed-final (some suppress) d h = λ e. cc (h, e)
allowed-final (some ambiguous) d h = absurd (cc)

module _ {F : Type 0} where
  kept_steps-IsStep : (vs : List (Value F)) → All IsStep (kept_steps vs)
  unfolding kept_steps
  kept_steps-IsStep [] = tt
  kept_steps-IsStep (v ∷ vs) =
      elim (Bool-cases (not (step_text v == "") && leb (len (step_text v)) 500)) [
        | inl fits ↦ rw fits ((ground (arith, fits), ground (arith, fits)), kept_steps-IsStep vs)
        | inr unfit ↦ rw unfit (kept_steps-IsStep vs)
      ]

  kept_steps-few : (n : ℕ) (vs : List (Value F)) → length (kept_steps (take n vs)) ≤ n
  unfolding kept_steps
  kept_steps-few zero vs = omega arith
  kept_steps-few (suc n) [] = omega arith
  kept_steps-few (suc n) (v ∷ vs) = ground (arith, kept_steps-few n vs)

  validated_steps-few : (v : Value F) → length (validated_steps v) ≤ 4
  unfolding validated_steps
  validated_steps-few null = omega arith
  validated_steps-few (Value.bool b) = omega arith
  validated_steps-few (Value.int n) = omega arith
  validated_steps-few (Value.float x) = omega arith
  validated_steps-few (Value.str s) = omega arith
  validated_steps-few (Value.arr vs) = kept_steps-few 4 (listed vs)
  validated_steps-few (Value.obj d) = omega arith

  validated_steps-IsStep : (v : Value F) → All IsStep (validated_steps v)
  unfolding validated_steps
  validated_steps-IsStep null = tt
  validated_steps-IsStep (Value.bool b) = tt
  validated_steps-IsStep (Value.int n) = tt
  validated_steps-IsStep (Value.float x) = tt
  validated_steps-IsStep (Value.str s) = tt
  validated_steps-IsStep (Value.arr vs) = kept_steps-IsStep (take 4 (listed vs))
  validated_steps-IsStep (Value.obj d) = tt

  answered_decision-final :
      (v : Value F) (d : Decision) → answered_decision v ≡ some d → d ≢ ambiguous
  unfolding answered_decision
  answered_decision-final null d h = absurd (cc)
  answered_decision-final (Value.bool b) d h = absurd (cc)
  answered_decision-final (Value.int n) d h = absurd (cc)
  answered_decision-final (Value.float x) d h = absurd (cc)
  answered_decision-final (Value.str s) d h = allowed-final (decision_of s) d h
  answered_decision-final (Value.arr vs) d h = absurd (cc)
  answered_decision-final (Value.obj o) d h = absurd (cc)

module _ {F : Type 0} ⦃py : Runtime F⦄ where
  -- an answer within the bounds of the prompt
  pub record Bounded (l : LlmVerdict F) : Type 0 where
    pub decided : l.decision ≢ ambiguous
    pub not_below : py.lt l.confidence (py.lit 0 1) ≡ false
    pub not_above : py.lt (py.lit 1 1) l.confidence ≡ false
    pub few_steps : length l.recommended_steps ≤ 4
    pub fit_steps : All IsStep l.recommended_steps

  clamp_unit-bounds :
      (x : F)
      → (py.lt (clamp_unit x) (py.lit 0 1) ≡ false) × (py.lt (py.lit 1 1) (clamp_unit x) ≡ false)
  unfolding clamp_unit
  clamp_unit-bounds x =
      let unit = py.lit_lt 0 1 (omega arith) (omega arith) in
      (
        ground (
          arith,
          unit,
          asymmetric (py.lit 0 1) x,
          asymmetric (py.lit 0 1) (py.lit 1 1),
          py.lt_irrefl (py.lit 0 1),
        ),
        ground (
          arith,
          unit,
          asymmetric x (py.lit 1 1),
          asymmetric (py.lit 0 1) (py.lit 1 1),
          py.lt_irrefl (py.lit 1 1),
        ),
      )

  accepted-Bounded :
      (doc : Entries F) (d : Decision) (o : Option F) (l : LlmVerdict F)
      → d ≢ ambiguous
      → accepted doc d o ≡ some l
      → Bounded l
  unfolding accepted
  accepted-Bounded doc d none l final h = absurd (cc)
  accepted-Bounded doc d (some x) l final h =
      elim (Bool-cases (is_bool (get_value "confidence" doc) || not (py.finite x))) [
        | inl wild ↦ absurd (ground (arith, wild, h))
        | inr sound ↦
            let (low, high) = clamp_unit-bounds x in
            let steps = get_value "recommended_steps" doc in
            rw (← some-injective _ _ (rw (sound, accepted) at h)) (record {
              decided = final;
              not_below = low;
              not_above = high;
              few_steps = validated_steps-few steps;
              fit_steps = validated_steps-IsStep steps;
            })
      ]

  from_object-Bounded :
      (decoder : Decoder F) (o : Option (Entries F)) (l : LlmVerdict F)
      → from_object decoder o ≡ some l
      → Bounded l
  unfolding from_object
  from_object-Bounded decoder none l h = absurd (cc)
  from_object-Bounded decoder (some doc) l h =
      elim (Option-cases (answered_decision (get_value "decision" doc))) [
        | inl wrong ↦ absurd (ground (arith, wrong, h))
        | inr (d, right) ↦
            accepted-Bounded doc d _ l (answered_decision-final _ d right)
              (rw (right, from_object) at h)
      ]

  -- Whatever text a model writes, an answer that is accepted is a decision other than ambiguous, with
  -- a confidence neither below 0 nor above 1 and at most four steps, each of them a text of 1 to 500
  -- characters.
  pub parse_response-Bounded :
      (decoder : Decoder F) (text : String) (l : LlmVerdict F)
      → parse_response decoder text ≡ some l
      → Bounded l
  unfolding parse_response
  parse_response-Bounded decoder text l h =
      elim (Bool-cases (contains text "{" && contains text "}")) [
        | inl object ↦ from_object-Bounded decoder _ l (rw object at h)
        | inr prose ↦ absurd (ground (arith, prose, h))
      ]
