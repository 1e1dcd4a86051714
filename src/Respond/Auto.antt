-- ===== src/Respond/Auto.antt =====
-- Which actions run without a human.
use arbiter_ai.Base.{
  String, ◌≡◌, inl, inr, refl, true, ◌&&◌, Among, Among-map, Bool-cases, &&-left, &&-right, arith,
}
use arbiter_ai.Values.{Runtime}
use arbiter_ai.Schema.{
  Event, Verdict, Decision, Tier, escalate, suppress, ambiguous, prefilter, llm, guardrail,
  is_escalate, is_prefilter,
}
use arbiter_ai.Respond.{ResponseAction, auto, action_of, plan}
use arbiter_ai.Respond.Catalog.{Proposal, proposals}
use arbiter_ai.Respond.Catalog.Safe.{Surgical, proposals-Safe}

prefilter_tier : (t : Tier) → is_prefilter t ≡ true → t ≡ prefilter
prefilter_tier prefilter h = refl
prefilter_tier llm h = absurd (cc)
prefilter_tier guardrail h = absurd (cc)

escalated_decision : (d : Decision) → is_escalate d ≡ true → d ≡ escalate
escalated_decision escalate h = refl
escalated_decision suppress h = absurd (cc)
escalated_decision ambiguous h = absurd (cc)

module _ {F : Type 0} ⦃py : Runtime F⦄ (now : String) (e : Event F) (v : Verdict F) where
  -- why an action may run without a human
  pub record Autonomous (a : ResponseAction) : Type 0 where
    pub escalated : v.decision ≡ escalate
    pub by_prefilter : v.tier ≡ prefilter
    pub proposal : Proposal
    pub proposed : Among proposal (proposals e)
    pub surgical : Surgical e proposal
    pub planned : a ≡ action_of now e v proposal

  action-Autonomous :
      (p : Proposal)
      → Among p (proposals e)
      → v.decision ≡ escalate
      → (action_of now e v p).mode ≡ auto
      → Autonomous (action_of now e v p)
  unfolding action_of
  action-Autonomous p i d h = elim (Bool-cases (p.auto_safe && is_prefilter v.tier)) [
    | inl both ↦ record {
      escalated = d;
      by_prefilter = prefilter_tier v.tier (&&-right _ _ both);
      proposal = p;
      proposed = i;
      surgical = proposals-Safe e p i (&&-left _ _ both);
      planned = refl;
    }
    | inr neither ↦ absurd (ground (arith, neither, h))
  ]

  -- An action of the plan runs without a human only if the prefilter itself escalated the event and
  -- the action is, command included, that of one of these proposals: it drops for an hour the one source
  -- that the event names, ends the sessions of or locks the one account, kills the one process, isolates
  -- for an hour the host of a mass rename, or adds the rule that counts connections, which names no
  -- source and has its hour only in the proposal.
  pub plan-Autonomous : (a : ResponseAction) → Among a (plan now e v) → a.mode ≡ auto → Autonomous a
  unfolding plan
  plan-Autonomous a i h = elim (Bool-cases (is_escalate v.decision)) [
    | inl raised ↦
        let (p, proposed, same) = Among-map (action_of now e v) (proposals e) a (rw raised at i) in
        rw same (action-Autonomous p proposed (escalated_decision v.decision raised) (rw same at h))
    | inr calm ↦ absurd (rw calm at i)
  ]
