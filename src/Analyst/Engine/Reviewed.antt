-- ===== src/Analyst/Engine/Reviewed.antt =====
-- What a brief for a block rests on.
use arbiter_ai.Base.{
  ◌⊎◌, &&-left, String, ◌≡◌, refl, ap, Bool, true, false, not, ◌&&◌, Option, some, ◌==◌,
  if◌then◌else◌, require-elim, bind-elim, some_inj, Bool-cases, inl, inr, arith, eq_refl, ◌∙◌,
}
use arbiter_ai.Values.{
  Value, null, bool, int, float, str, arr, obj, Runtime, get, get_value, equals,
}
use arbiter_ai.Analyst.{Packet, Route, verified_critical, dossier, assess}
use arbiter_ai.Backends.{listed}
use arbiter_ai.Analyst.Gathering.{IsSound, dossier-IsSound}
use arbiter_ai.Analyst.Grounding.{as_text, validate}
use arbiter_ai.Analyst.Grounding.Cited.{validate-IsGrounded, validate-same}
use arbiter_ai.Analyst.Engine.Challenged.{
  IsChallenged, cites-All, challenge_of-Challenge, accepted-block,
}
use arbiter_ai.Analyst.Engine.{
  Brief, Prepared, Advisor, Site, is_verified, receipt, fast_brief, challenge_of, is_accepted,
  verified_brief, reasoned_brief, review,
}

-- The assessment is on the verified route, or the brief passed the challenge; and a receipt of a packet
-- names the rule under which the proposed target may be blocked.
pub record IsBacked {F : Type 0} ⦃py : Runtime F⦄ (site : Site F) (advisor : Advisor F)
    (packet : Packet) (proposal : Option String) (brief : Brief F) : Type 0 where
  pub target : String
  pub proposed : proposal ≡ some target
  pub unchanged : equals brief.target target ≡ true
  pub rule : String
  pub ruled : (assess site.windows_path site.is_local packet proposal).rule ≡ some rule
  pub named : brief.guardrail.rule ≡ some rule
  pub accepted : brief.guardrail.critic_accepted ≡ true
  pub passed :
      ((assess site.windows_path site.is_local packet proposal).route ≡ verified_critical)
      ⊎ IsChallenged site advisor packet proposal

text-equals : {F : Type 0} → (v : Value F) (s : String) → as_text v ≡ some s → equals v s ≡ true
text-equals (str t) s e = rw (some_inj t s e) (eq_refl s)
text-equals null s e = absurd (ground (arith, e))
text-equals (bool b) s e = absurd (ground (arith, e))
text-equals (int n) s e = absurd (ground (arith, e))
text-equals (float x) s e = absurd (ground (arith, e))
text-equals (arr vs) s e = absurd (ground (arith, e))
text-equals (obj d) s e = absurd (ground (arith, e))

verified-route : (r : Route) → is_verified r ≡ true → r ≡ verified_critical
verified-route verified_critical h = refl
verified-route _ h = absurd (ground (arith, h))

-- A brief keeps the action of the answer only if it was accepted.
kept_action :
    (accepted : Bool) (action : String)
    → (if accepted then action else "human_review") ≡ "block_ip"
    → (accepted ≡ true) × (action ≡ "block_ip")
kept_action true action h = (refl, h)
kept_action false action h = absurd (ground (arith, ap (λ (s : String). s == "block_ip") h))

module _ {F : Type 0} ⦃py : Runtime F⦄ (site : Site F) (advisor : Advisor F) (packet : Packet)
    (proposal : Option String) where
  verified_brief-IsBacked :
      (brief : Brief F)
      → is_verified (assess site.windows_path site.is_local packet proposal).route ≡ true
      → verified_brief site advisor packet
          (assess site.windows_path site.is_local packet proposal)
          proposal
        ≡ some (some brief)
      → IsBacked site advisor packet proposal brief
  unfolding verified_brief fast_brief receipt get_value get
  verified_brief-IsBacked brief quick e =
      let assessment = assess site.windows_path site.is_local packet proposal in
      let (target, proposed, e1) = bind-elim proposal _ (some brief) e in
      let written = fast_brief (py.lit 1 1) target packet assessment in
      let (checked, valid, e2) =
        bind-elim (validate (obj written) packet assessment proposal) _ (some brief) e1 in
      let grounded = validate-IsGrounded packet assessment proposal written checked valid refl in
      let same = some_inj _ brief (some_inj _ (some brief) e2) in
      rw (← same) (record {
        target = target;
        proposed = proposed;
        unchanged = eq_refl target;
        rule = grounded.rule;
        ruled = grounded.ruled;
        named = grounded.ruled;
        accepted = refl;
        passed = inl (verified-route assessment.route quick);
      })

  reasoned_brief-IsBacked :
      (brief : Brief F)
      → reasoned_brief site advisor packet
          (assess site.windows_path site.is_local packet proposal)
          proposal
        ≡ some (some brief)
      → brief.action ≡ "block_ip"
      → IsBacked site advisor packet proposal brief
  unfolding reasoned_brief receipt
  reasoned_brief-IsBacked brief e blocks =
      let assessment = assess site.windows_path site.is_local packet proposal in
      let (answer, advised, e1) =
        bind-elim (advisor.advise packet assessment proposal) _ (some brief) e in
      let (checked, valid, e2) =
        bind-elim (validate answer packet assessment proposal) _ (some brief) e1 in
      let (reply, replied, e3) =
        bind-elim (advisor.challenge packet assessment proposal checked) _ (some brief) e2 in
      let (judged, held, e4) = bind-elim (challenge_of packet reply) _ (some brief) e3 in
      let (action, acts, e5) = bind-elim (as_text (get_value "action" checked)) _ (some brief) e4 in
      let same = some_inj _ brief (some_inj _ (some brief) e5) in
      let (passed, asked) =
        kept_action (is_accepted action assessment judged) action
          (ap (λ (b : Brief F). b.action) same ∙ blocks) in
      let (accepts, full) = accepted-block assessment judged action asked passed in
      let challenge = challenge_of-Challenge packet reply judged.1 (held ∙ ap some accepts) in
      let grounded =
        validate-IsGrounded packet assessment proposal checked checked
          (rw (validate-same packet assessment proposal answer checked valid) at valid)
          (text-equals (get_value "action" checked) "block_ip" (acts ∙ ap some asked)) in
      rw (← same) (record {
        target = grounded.target;
        proposed = grounded.proposed;
        unchanged = grounded.unchanged;
        rule = grounded.rule;
        ruled = grounded.ruled;
        named = grounded.ruled;
        accepted = passed;
        passed = inr (record {
          answer = answer;
          advised = advised;
          checked = checked;
          valid = valid;
          critic = challenge.critic;
          replied = replied ∙ ap some challenge.replied;
          accept = challenge.accept;
          objections = challenge.objections;
          cited = challenge.cited;
          citations = challenge.citations;
          complete =
              cites-All assessment.required_facts (listed challenge.cited) (rw challenge.same full);
        });
      })

-- A brief for a block, of a fast or of a full review, names the proposed target and carries the rule that
-- the assessment of a sound packet gives for that target. The assessment is on the verified route, or the
-- model gave a valid answer and then accepted it, without objections and citing every required fact.
pub review-IsBacked :
    {F : Type 0}
    → ⦃py : Runtime F⦄
    → (site : Site F) (advisor : Advisor F) (fast : Bool) (p : Prepared F)
      (proposal : Option String) (brief : Brief F)
    → review site advisor fast p proposal ≡ some (some brief)
    → brief.action ≡ "block_ip"
    → (packet : Packet) × (dossier site.reader p.row p.related ≡ some packet)
      × IsSound packet
      × IsBacked site advisor packet proposal brief
unfolding review
review-IsBacked site advisor fast p proposal brief e blocks =
    let (packet, made, e1) = bind-elim (dossier site.reader p.row p.related) _ (some brief) e in
    let (_, e2) = require-elim _ _ (some brief) e1 in
    let assessment = assess site.windows_path site.is_local packet proposal in
    let backed : IsBacked site advisor packet proposal brief =
      elim (Bool-cases (is_verified assessment.route && not p.deep)) [
        | inl quick ↦
            verified_brief-IsBacked site advisor packet proposal brief (&&-left _ _ quick)
              (rw quick at e2)
        | inr slow ↦ elim (Bool-cases fast) [
          | inl only ↦ absurd (ground (arith, rw (slow, only) at e2))
          | inr full ↦
              reasoned_brief-IsBacked site advisor packet proposal brief (rw (slow, full) at e2)
                blocks
        ]
      ] in
    (packet, made, dossier-IsSound site.reader p.row p.related packet made, backed)
