-- ===== src/Analyst/Grounding/Cited.antt =====
-- What an accepted brief that asks for a block rests on.
use arbiter_ai.Base.{
  ap, String, ◌≡◌, Bool, true, false, Option, some, List, [], ◌∷◌, ◌==◌, if◌then◌else◌, all, member,
  require-elim, bind-elim, some_inj, Bool-cases, inl, inr, arith, All, any-elim, All-among, &&-left,
  &&-right,
}
use arbiter_ai.Analyst.Grounding.Stated.{Stated, cite_all-Stated}
use arbiter_ai.Base.Text.{same_text}
use arbiter_ai.Values.{
  Value, null, bool, int, float, str, arr, obj, Entries, Runtime, get_value, equals,
}
use arbiter_ai.Analyst.{Packet, Assessment}
use arbiter_ai.Analyst.Grounding.{
  wants_block, as_text, items_of, kinds_of, cite_all, grounded_block, validate,
}

all-member :
    (P : String → Type 0) (cited required : List String)
    → All P cited
    → all (λ id. member id cited) required ≡ true
    → All P required
all-member P cited [] h t = tt
all-member P cited (id ∷ rest) h t =
    let (other, found, same) = any-elim (λ s. id == s) cited (&&-left _ _ t) in
    (
      rw (same_text id other same) (All-among P cited h other found),
      all-member P cited rest h (&&-right (member id cited) _ t),
    )

-- A block of the proposed target and of no other, under a rule of the assessment, each of whose required
-- facts an assertion of the brief states as the packet has it.
pub record IsGrounded {F : Type 0} (packet : Packet) (assessment : Assessment)
    (proposal : Option String) (brief : Entries F) : Type 0 where
  pub target : String
  pub proposed : proposal ≡ some target
  pub unchanged : equals (get_value "target" brief) target ≡ true
  pub rule : String
  pub ruled : assessment.rule ≡ some rule
  pub assertions : List (Value F)
  pub listed : items_of (get_value "assertions" brief) ≡ some assertions
  pub stated : All (Stated packet.facts assertions) assessment.required_facts

module _ {F : Type 0} (packet : Packet) (assessment : Assessment) (proposal : Option String) where
  grounded_block-IsGrounded :
      (cited : List String) (assertions : List (Value F)) (brief after : Entries F)
      → items_of (get_value "assertions" brief) ≡ some assertions
      → cite_all packet.facts assertions ≡ some cited
      → grounded_block proposal assessment cited brief ≡ some after
      → IsGrounded packet assessment proposal brief
  unfolding grounded_block
  grounded_block-IsGrounded cited assertions brief after read known e =
      let (target, proposed, e1) = bind-elim proposal _ after e in
      let (rule, ruled, e2) = bind-elim assessment.rule _ after e1 in
      let (_, e3) = require-elim _ _ after e2 in
      let (covered, e4) =
        require-elim (all (λ id. member id cited) assessment.required_facts) _ after e3 in
      let (unchanged, e5) = require-elim (equals (get_value "target" brief) target) _ after e4 in
      record {
        target = target;
        proposed = proposed;
        unchanged = unchanged;
        rule = rule;
        ruled = ruled;
        assertions = assertions;
        listed = read;
        stated =
            all-member _ cited assessment.required_facts
              (cite_all-Stated packet.facts assertions cited known) covered;
      }

taken : {A : Type 0} → (b : Bool) (x y z : A) → b ≡ true → (if b then x else y) ≡ z → x ≡ z
taken true x y z h e = e
taken false x y z h e = absurd (ground (arith, h))

text-same :
    {F : Type 0}
    → (v : Value F) (s t : String) → as_text v ≡ some s
    → equals v t ≡ true
    → (s == t) ≡ true
text-same (str u) s t e h = let same = some_inj u s e in rw (← same) h
text-same null s t e h = absurd (ground (arith, e))
text-same (bool b) s t e h = absurd (ground (arith, e))
text-same (int n) s t e h = absurd (ground (arith, e))
text-same (float x) s t e h = absurd (ground (arith, e))
text-same (arr vs) s t e h = absurd (ground (arith, e))
text-same (obj d) s t e h = absurd (ground (arith, e))

module _ {F : Type 0} ⦃py : Runtime F⦄ (packet : Packet) (assessment : Assessment)
    (proposal : Option String) where
  -- What the accepted brief passed: the ids that its assertions cite, and the last test.
  record Passed (brief after : Entries F) : Type 0 where
    action : String
    acts : as_text (get_value "action" brief) ≡ some action
    assertions : List (Value F)
    read : items_of (get_value "assertions" brief) ≡ some assertions
    cited : List String
    known : cite_all packet.facts assertions ≡ some cited
    last :
        (if wants_block action then grounded_block proposal assessment cited brief else some brief)
        ≡ some after

  validate-Passed :
      (brief after : Entries F)
      → validate (obj brief) packet assessment proposal ≡ some after
      → Passed brief after
  unfolding validate
  validate-Passed brief after e =
      let (action, acts, e1) = bind-elim (as_text (get_value "action" brief)) _ after e in
      let (_, e2) = require-elim _ _ after e1 in
      let (_, e3) = require-elim _ _ after e2 in
      let (_, e4) = require-elim _ _ after e3 in
      let (hypotheses, _, e5) = bind-elim (items_of (get_value "hypotheses" brief)) _ after e4 in
      let (_, e6) = require-elim _ _ after e5 in
      let (kinds, _, e7) = bind-elim (kinds_of packet.facts hypotheses) _ after e6 in
      let (_, e8) = require-elim _ _ after e7 in
      let (assertions, read, e9) = bind-elim (items_of (get_value "assertions" brief)) _ after e8 in
      let (_, e10) = require-elim _ _ after e9 in
      let (cited, known, e11) = bind-elim (cite_all packet.facts assertions) _ after e10 in
      record {
        action = action;
        acts = acts;
        assertions = assertions;
        read = read;
        cited = cited;
        known = known;
        last = e11;
      }

  grounded_block-same :
      (cited : List String) (brief after : Entries F)
      → grounded_block proposal assessment cited brief ≡ some after
      → brief ≡ after
  unfolding grounded_block
  grounded_block-same cited brief after e =
      let (target, _, e1) = bind-elim proposal _ after e in
      let (rule, _, e2) = bind-elim assessment.rule _ after e1 in
      let (_, e3) = require-elim _ _ after e2 in
      let (_, e4) = require-elim _ _ after e3 in
      let (_, e5) = require-elim _ _ after e4 in some_inj brief after e5

  -- What is accepted is the answer itself, with a text as its action.
  pub validate-same :
      (v : Value F) (after : Entries F)
      → validate v packet assessment proposal ≡ some after
      → v ≡ obj after
  unfolding validate
  validate-same (obj brief) after e =
      let h = validate-Passed brief after e in
      elim (Bool-cases (wants_block h.action)) [
        | inl asked ↦ ap obj (grounded_block-same h.cited brief after (taken _ _ _ _ asked h.last))
        | inr other ↦ ap obj (some_inj brief after (rw other at h.last))
      ]
  validate-same null after e = absurd (ground (arith, e))
  validate-same (bool b) after e = absurd (ground (arith, e))
  validate-same (int n) after e = absurd (ground (arith, e))
  validate-same (float x) after e = absurd (ground (arith, e))
  validate-same (str s) after e = absurd (ground (arith, e))
  validate-same (arr vs) after e = absurd (ground (arith, e))

  -- A brief that is accepted and asks for a block names the proposed target, there is a rule in the
  -- assessment, and each required fact is cited by an assertion that states the value of one of its fields
  -- as the packet has it.
  pub validate-IsGrounded :
      (brief after : Entries F)
      → validate (obj brief) packet assessment proposal ≡ some after
      → equals (get_value "action" brief) "block_ip" ≡ true
      → IsGrounded packet assessment proposal brief
  validate-IsGrounded brief after e blocks =
      let h = validate-Passed brief after e in
      let asked = text-same (get_value "action" brief) h.action "block_ip" h.acts blocks in
      grounded_block-IsGrounded packet assessment proposal h.cited h.assertions brief after h.read
        h.known (taken (wants_block h.action) _ (some brief) (some after) asked h.last)
