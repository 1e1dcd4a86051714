-- ===== src/Analyst/Engine/Authorized.antt =====
-- What an authorized brief rests on.
use arbiter_ai.Base.{
  ◌≤◌, String, ◌≡◌, refl, ap, sym, ◌∙◌, Bool, true, false, not, Option, none, some, ◌==◌, all, any,
  length, bind-elim, some_inj, Bool-cases, inl, inr, arith, &&-left, &&-right, eqb,
}
use arbiter_ai.Base.Text.{same_text}
use arbiter_ai.Values.{Runtime, equals}
use arbiter_ai.Analyst.{Fact, Packet, Assessment, dossier, assess}
use arbiter_ai.Analyst.Gathering.{IsSound, dossier-IsSound}
use arbiter_ai.Analyst.Support.{IsSupported, assess-IsSupported}
use arbiter_ai.Analyst.Grounding.{wants_block}
use arbiter_ai.Analyst.Engine.{
  Brief, Prepared, Site, same_rule, is_current, is_eligible_brief, support, authorize,
}

same_rule-elim :
    (a b : Option String) → same_rule a b ≡ true → (r : String) × (a ≡ some r) × (b ≡ some r)
same_rule-elim (some r) (some s) h = (r, refl, ap some (sym (same_text r s h)))
same_rule-elim none b h = absurd (ground (arith, h))
same_rule-elim (some r) none h = absurd (ground (arith, h))

negated-true : (b : Bool) → not b ≡ true → b ≡ false
negated-true b h = ground (arith, h)

module _ {F : Type 0} (site : Site F) where
  -- A brief that an accepted challenge stands behind, for a block of the proposed target, whose rule the
  -- packet of the moment supports by at least two facts, as do the events of the brief's own evidence.
  pub record IsCurrent (proposal : Option String) (brief : Brief F) (packet alone : Packet)
      : Type 0 where
    pub target : String
    pub proposed : proposal ≡ some target
    pub blocks : brief.action ≡ "block_ip"
    pub unchanged : equals brief.target target ≡ true
    pub accepted : brief.guardrail.critic_accepted ≡ true
    pub rule : String
    pub named : brief.guardrail.rule ≡ some rule
    pub ruled : (assess site.windows_path site.is_local packet (some target)).rule ≡ some rule
    pub supported :
        IsSupported site.windows_path target packet
          (assess site.windows_path site.is_local packet (some target))
    pub enough :
        2 ≤ length (assess site.windows_path site.is_local packet (some target)).required_facts
    pub confirmed : (assess site.windows_path site.is_local alone (some target)).rule ≡ some rule
    pub available :
        all (λ id. any (λ (f : Fact). f.event_id == id) packet.facts) brief.guardrail.evidence_ids
        ≡ true

  -- A supported assessment that names a rule requires two facts.
  two_facts :
      (target : String) (packet : Packet) (a : Assessment) (rule : String)
      → IsSupported site.windows_path target packet a
      → a.rule ≡ some rule
      → 2 ≤ length a.required_facts
  two_facts target packet a rule s e = elim s.named [
    | inl (nothing, _) ↦ absurd (ground (arith, nothing, e))
    | inr (other, _, enough) ↦ enough
  ]

module _ {F : Type 0} ⦃py : Runtime F⦄ (site : Site F) where
  is_current-IsCurrent :
      (target : String) (brief : Brief F) (packet alone : Packet)
      → is_eligible_brief brief target ≡ true
      → is_current brief.guardrail packet
          (assess site.windows_path site.is_local packet (some target))
          (assess site.windows_path site.is_local alone (some target))
        ≡ true
      → IsCurrent site (some target) brief packet alone
  is_current-IsCurrent target brief packet alone eligible current =
      let now = assess site.windows_path site.is_local packet (some target) in
      let then_ = assess site.windows_path site.is_local alone (some target) in
      let (rule, ruled, named) =
        same_rule-elim now.rule brief.guardrail.rule (&&-left _ _ current) in
      let rest = &&-right (same_rule now.rule brief.guardrail.rule) _ current in
      let (other, named', confirmed) =
        same_rule-elim brief.guardrail.rule then_.rule (&&-left _ _ rest) in
      let same = some_inj other rule (sym named' ∙ named) in
      let rest2 = &&-right (same_rule brief.guardrail.rule then_.rule) _ rest in
      let rest3 = &&-right (not (same_rule now.rule (some ""))) _ rest2 in
      let target_on = &&-right (wants_block brief.action) _ eligible in
      let guard_on = &&-right (equals brief.target target) _ target_on in
      let sealed_on = &&-right (eqb brief.guardrail.version 2) _ guard_on in
      let supported = assess-IsSupported site.windows_path site.is_local packet target in
      record {
        target = target;
        proposed = refl;
        blocks = same_text brief.action "block_ip" (&&-left _ _ eligible);
        unchanged = &&-left _ _ target_on;
        accepted = &&-right brief.guardrail.grounded _ sealed_on;
        rule = rule;
        named = named;
        ruled = ruled;
        supported = supported;
        enough = two_facts site target packet now rule supported ruled;
        confirmed = confirmed ∙ ap some same;
        available = &&-right _ _ rest3;
      }

  -- A brief is authorized only if it asks for a block of the proposed target, an accepted challenge stands
  -- behind it, and its rule is that of two assessments of the moment: of a sound packet, in which at least
  -- two facts speak for the block, and of the packet of the brief's evidence alone, all of it in the first.
  pub authorize-IsCurrent :
      (brief : Brief F) (p : Prepared F) (proposal : Option String)
      → authorize site brief p proposal ≡ some true
      → (packet : Packet) × (alone : Packet) × (dossier site.reader p.row p.related ≡ some packet)
        × (dossier site.reader p.row (support brief p) ≡ some alone)
        × IsSound packet
        × IsCurrent site proposal brief packet alone
  unfolding authorize
  authorize-IsCurrent brief p none e = absurd (ground (arith, some_inj false true e))
  authorize-IsCurrent brief p (some target) e = elim (Bool-cases (is_eligible_brief brief target)) [
    | inr barred ↦ absurd (ground (arith, some_inj false true (rw barred at e)))
    | inl eligible ↦
        let (packet, made, e1) =
          bind-elim (dossier site.reader p.row p.related) _ true (rw eligible at e) in
        let (alone, narrowed, e2) =
          bind-elim (dossier site.reader p.row (support brief p)) _ true e1 in
        (
          packet,
          alone,
          made,
          narrowed,
          dossier-IsSound site.reader p.row p.related packet made,
          is_current-IsCurrent target brief packet alone eligible (some_inj _ true e2),
        )
  ]
