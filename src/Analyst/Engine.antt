-- ===== src/Analyst/Engine.antt =====
-- arbiter/l2.py: the review of an escalated event and its authorization at the deadline. The model is a
-- parameter, and `none` is an exception.
pub mod Challenged
pub mod Reviewed
pub mod Authorized
use arbiter_ai.Base.{
  ℕ, String, Bool, true, false, not, ◌&&◌, ◌||◌, Option, none, some, List, [], ◌∷◌, ◌==◌, map,
  if◌then◌else◌, any, all, keep, leb, eqb, length, member, is_empty, ◌>>=◌, ◌>>◌, require,
}
use arbiter_ai.Values.{
  Value, int, float, str, arr, obj, Items, nil, cons, Entries, end, entry, Runtime, get_value,
  equals,
}
use arbiter_ai.Protection.{Finding}
use arbiter_ai.Analyst.{Fact, Packet, Reader, Route, verified_critical, Assessment, dossier, assess}
use arbiter_ai.Analyst.Policy.{flag_of}
use arbiter_ai.Analyst.Grounding.{
  as_text, items_of, dict_of, is_brief, is_reference, wants_block, validate,
}

-- `receipt`, without the digest
pub record Receipt : Type 0 where
  pub version : ℕ
  pub rule : Option String
  pub evidence_ids : List String
  pub grounded : Bool
  pub critic_accepted : Bool

-- What the workflow reads of a brief, which is otherwise text.
pub record Brief (F : Type 0) : Type 0 where
  pub action : String
  pub target : Value F
  pub confidence : Value F
  pub guardrail : Receipt
  pub needs_deep_review : Bool

-- a row with `_l2_related` and `_l2_deep`
pub record Prepared (F : Type 0) : Type 0 where
  pub row : Finding F
  pub related : List (Finding F)
  pub deep : Bool

-- What the model answers to the packet, and to the recommendation that it is to challenge, as decoded
-- JSON; `none` where the transport, its deadline or the decoding fails.
pub record Advisor (F : Type 0) : Type 0 where
  pub advise : Packet → Assessment → Option String → Option (Value F)
  pub challenge : Packet → Assessment → Option String → Entries F → Option (Value F)

-- what the assessment of a packet depends on
pub record Site (F : Type 0) : Type 0 where
  pub reader : Reader F
  pub windows_path : String → String
  pub is_local : String → Bool

abbrev pub is_verified : Route → Bool
is_verified verified_critical = true
is_verified _ = false

unfoldable pub required_of : Packet → Assessment → List Fact
required_of packet assessment =
    keep (λ (f : Fact). member f.id assessment.required_facts) packet.facts

unfoldable pub receipt : Packet → Assessment → Bool → Receipt
receipt packet assessment accepted = record {
  version = 2;
  rule = assessment.rule;
  evidence_ids = map (λ (f : Fact). f.event_id) (required_of packet assessment);
  grounded = true;
  critic_accepted = accepted;
}

-- the reason of an assessment on the verified route
abbrev verified_reason : String
verified_reason =
    "Native Defender detection and exact-path Sysmon network activity independently match"

module _ {F : Type 0} where
  abbrev pub items : List (Value F) → Items F
  items [] = nil
  items (v ∷ vs) = cons v (items vs)

  abbrev texts_of : List String → Value F
  texts_of ss = arr (items (map (λ (s : String). Value.str s) ss))

  abbrev pub observed : Fact → Value F
  observed f = obj (
      entry "fact_id" (str f.id)
        (entry "field" (str "event_type") (entry "value" (str f.event_type) end)))

  abbrev pub explanation : String → String → List String → List String → Value F
  explanation kind summary supports against = obj (
      entry "kind" (str kind) (
        entry "summary" (str summary)
          (entry "supports" (texts_of supports) (entry "against" (texts_of against) end))))

  abbrev pub hypotheses_of : Assessment → Value F
  hypotheses_of assessment = arr (
      cons (explanation "malicious" verified_reason assessment.required_facts []) (
        cons
          (explanation "benign"
            "Path reuse or attribution ambiguity remains possible; investigate process identity." []
            assessment.required_facts)
          nil))

  -- the brief that is written without a model
  unfoldable pub fast_brief : F → String → Packet → Assessment → Entries F
  fast_brief one target packet assessment = entry "assessment" (str verified_reason) (
      entry "evidence" (str verified_reason) (
        entry "recommendation" (str verified_reason) (
          entry "urgency" (str verified_reason) (
            entry "action" (str "block_ip") (
              entry "target" (str target) (
                entry "confidence" (float one) (
                  entry "gaps"
                    (str
                      "Exact-path attribution is not process-lifetime or malware-family proof; human review remains necessary.")
                    (entry "alternatives"
                      (str "Investigate without blocking; this leaves the selected peer reachable.")
                      (entry "recovery"
                        (str
                          "Use verified revert or five-minute native expiry; interrupted connections may not recover.")
                        (entry "assertions"
                          (arr (items (map observed (required_of packet assessment))))
                          (entry "hypotheses" (hypotheses_of assessment) end)))))))))))

  -- The answer to the challenge: whether it accepts without objections, and the ids that it cites.
  unfoldable pub challenge_of : Packet → Value F → Option (Bool × List (Value F))
  challenge_of packet v = do
    critic ← dict_of v
    accept ← flag_of (get_value "accept" critic)
    objections ← items_of (get_value "objections" critic)
    require (leb (length objections) 16 && all (is_brief 2000) objections)
    citations ← items_of (get_value "citations" critic)
    require (not (is_empty citations) && all (is_reference packet.facts) citations)
    some (accept && is_empty objections, citations)

  abbrev pub cites_all : List String → List (Value F) → Bool
  cites_all ids citations = all (λ id. any (λ v. equals v id) citations) ids

  -- an accepted challenge; a block must have every required fact cited
  abbrev pub is_accepted : String → Assessment → Bool × List (Value F) → Bool
  is_accepted action assessment (accept, citations) =
      accept && (not (wants_block action) || cites_all assessment.required_facts citations)

module _ {F : Type 0} ⦃py : Runtime F⦄ (site : Site F) (advisor : Advisor F) where
  -- the route that needs no model
  unfoldable pub verified_brief : Packet → Assessment → Option String → Option (Option (Brief F))
  verified_brief packet assessment proposal = do
    target ← proposal
    brief ←
        validate (obj (fast_brief (py.lit 1 1) target packet assessment)) packet assessment proposal
    some (
        some (record {
          action = "block_ip";
          target = str target;
          confidence = float (py.lit 1 1);
          guardrail = receipt packet assessment true;
          needs_deep_review = true;
        }))

  unfoldable pub reasoned_brief : Packet → Assessment → Option String → Option (Option (Brief F))
  reasoned_brief packet assessment proposal = do
    answer ← advisor.advise packet assessment proposal
    brief ← validate answer packet assessment proposal
    reply ← advisor.challenge packet assessment proposal brief
    judged ← challenge_of packet reply
    action ← as_text (get_value "action" brief)
    let accepted = is_accepted action assessment judged
    some (
        some (record {
          action = if accepted then action else "human_review";
          target = get_value "target" brief;
          confidence = get_value "confidence" brief;
          guardrail = receipt packet assessment accepted;
          needs_deep_review = false;
        }))

  -- `review`; a fast one gives None where the route is not verified
  unfoldable pub review : Bool → Prepared F → Option String → Option (Option (Brief F))
  review fast_only p proposal = do
    packet ← dossier site.reader p.row p.related
    let assessment = assess site.windows_path site.is_local packet proposal
    require (not (is_empty packet.facts))
    if is_verified assessment.route && not p.deep
        then verified_brief packet assessment proposal
        else if fast_only
        then some none
        else reasoned_brief packet assessment proposal

abbrev pub same_rule : Option String → Option String → Bool
same_rule (some r) (some s) = r == s
same_rule _ _ = false

-- the receipt of a brief against the packet of the moment and the one of its evidence alone
abbrev pub is_current : Receipt → Packet → Assessment → Assessment → Bool
is_current guard packet current supported =
    same_rule current.rule guard.rule
    && (same_rule guard.rule supported.rule
        && (not (same_rule current.rule (some ""))
            && (not (is_empty guard.evidence_ids)
                && all (λ id. any (λ (f : Fact). f.event_id == id) packet.facts)
                    guard.evidence_ids)))

module _ {F : Type 0} where
  abbrev pub is_eligible_brief : Brief F → String → Bool
  is_eligible_brief brief target =
      wants_block brief.action
      && (equals brief.target target
          && (eqb brief.guardrail.version 2
              && (brief.guardrail.grounded && brief.guardrail.critic_accepted)))

  abbrev pub support : Brief F → Prepared F → List (Finding F)
  support brief p = keep (λ r. member r.event_id brief.guardrail.evidence_ids) p.related

module _ {F : Type 0} ⦃py : Runtime F⦄ (site : Site F) where
  -- `authorize`
  unfoldable pub authorize : Brief F → Prepared F → Option String → Option Bool
  authorize brief p none = some false
  authorize brief p (some target) = if not (is_eligible_brief brief target) then some false else do
    packet ← dossier site.reader p.row p.related
    alone ← dossier site.reader p.row (support brief p)
    let current = assess site.windows_path site.is_local packet (some target)
    let supported = assess site.windows_path site.is_local alone (some target)
    some (is_current brief.guardrail packet current supported)
