-- ===== src/Analyst/Permitted.antt =====
-- Under which conditions a round blocks an address for a case.
use arbiter_ai.Base.{
  ℕ, ◌≤◌, String, ◌≡◌, refl, Bool, true, false, not, Among, List, Option, none, some, leb→le,
  member, bind-elim, Bool-cases, Option-cases, inl, inr, arith, &&-left, &&-right,
}
use arbiter_ai.Values.{Value, null, bool, int, float, str, arr, obj, pos, negsuc, Runtime}
use arbiter_ai.Protection.{Finding}
use arbiter_ai.Protection.Proposals.{proposal}
use arbiter_ai.Analyst.{Packet, Assessment, dossier}
use arbiter_ai.Analyst.Gathering.{IsSound}
use arbiter_ai.Analyst.Engine.{Brief, Prepared, support}
use arbiter_ai.Analyst.Engine.Authorized.{IsCurrent, authorize-IsCurrent}
use arbiter_ai.Analyst.Grounding.{wants_block}
use arbiter_ai.Analyst.Cases.{L2Case, L2State, waiting, is_waiting}
use arbiter_ai.Analyst.Due.{
  Desk, Watch, detail_of, evidence_row, is_confident, is_fresh, may_act, permits_brief, authorized,
  recent_proposal, has_come,
}

pub waiting-elim : (s : L2State) → is_waiting s ≡ true → s ≡ waiting
waiting-elim s h = ground (arith, h)

module _ {F A N : Type 0} ⦃py : Runtime F⦄ (desk : Desk F A N) (watch : Watch F) where
  -- a confidence of at least 0.95
  pub data IsConfident : Value F → Type 0 where
    whole : (n : ℕ) → 1 ≤ n → IsConfident (int (pos n))
    measured : (x : F) → py.lt x (py.lit 95 100) ≡ false → IsConfident (float x)

  -- The evidence that the row still has, as it is gathered for the authorization: the packet of it, and
  -- the packet of the part that the brief cites.
  pub record IsProven (c : L2Case F) (brief : Brief F) (row : Finding F) (target : String)
      : Type 0 where
    pub prepared : Prepared F
    pub assessment : Assessment
    pub gathered : evidence_row desk watch (watch.checking c.id) row ≡ some (prepared, assessment)
    pub packet : Packet
    pub made : dossier (watch.checking c.id).reader prepared.row prepared.related ≡ some packet
    pub alone : Packet
    pub narrowed :
        dossier (watch.checking c.id).reader prepared.row (support brief prepared) ≡ some alone
    pub sound : IsSound packet
    pub current : IsCurrent (watch.checking c.id) (some target) brief packet alone

  -- One of the cases, which waits, at its deadline, with a confident brief for a block, under a policy that
  -- enrols its rule, for the target that the protection proposes for a row of the last thirty seconds.
  pub record IsPermitted (cases : List (L2Case F)) (stopped : Bool) (target : String) : Type 0 where
    pub live : stopped ≡ false
    pub subject : L2Case F
    pub among : Among subject cases
    pub waits : subject.state ≡ waiting
    pub deadline : F
    pub limited : subject.deadline ≡ some deadline
    pub reached : py.lt (watch.due subject.id) deadline ≡ false
    pub brief : Brief F
    pub advised : subject.brief ≡ some brief
    pub automatic : desk.policy.automatic ≡ true
    pub rule : String
    pub ruled : brief.guardrail.rule ≡ some rule
    pub enrolled : member rule desk.policy.rules ≡ true
    pub confident : IsConfident brief.confidence
    pub row : Finding F
    pub known : detail_of desk watch subject.event_id ≡ some row
    pub seconds : F
    pub dated : desk.timestamp row.event.timestamp ≡ some seconds
    pub present : py.le (py.lit 0 1) (py.sub (watch.aged subject.id) seconds) ≡ true
    pub recent : py.le (py.sub (watch.aged subject.id) seconds) (py.lit 30 1) ≡ true
    pub proposed : proposal desk.ip desk.machine desk.config.scope (some row) ≡ some target
    pub proven : IsProven subject brief row target

  confident-elim : (v : Value F) → is_confident desk watch v ≡ true → IsConfident v
  confident-elim (int (pos n)) h = IsConfident.whole n (leb→le 1 n h)
  confident-elim (float x) h = IsConfident.measured x (ground (arith, h))
  confident-elim (int (negsuc n)) h = absurd (ground (arith, h))
  confident-elim null h = absurd (ground (arith, h))
  confident-elim (bool b) h = absurd (ground (arith, h))
  confident-elim (str s) h = absurd (ground (arith, h))
  confident-elim (arr vs) h = absurd (ground (arith, h))
  confident-elim (obj d) h = absurd (ground (arith, h))

  pub permits-elim :
      (brief : Brief F)
      → permits_brief desk.policy brief ≡ true
      → (desk.policy.automatic ≡ true)
        × (rule : String) × (brief.guardrail.rule ≡ some rule)
        × (member rule desk.policy.rules ≡ true)
  permits-elim brief h = elim (Option-cases brief.guardrail.rule) [
    | inl nothing ↦ absurd (ground (arith, rw nothing at h))
    | inr (rule, named) ↦
        let both = rw named at h in
        (&&-left desk.policy.automatic _ both, rule, named, &&-right desk.policy.automatic _ both)
  ]

  pub may_act-elim :
      (stopped : Bool) (brief : Brief F)
      → may_act desk watch stopped brief ≡ true
      → (stopped ≡ false) × (permits_brief desk.policy brief ≡ true) × IsConfident brief.confidence
  may_act-elim stopped brief h =
      let allowed = &&-right (not stopped) _ h in
      let asks = &&-right (permits_brief desk.policy brief) _ allowed in
      (
        ground (arith, h),
        &&-left (permits_brief desk.policy brief) _ allowed,
        confident-elim brief.confidence (&&-right (wants_block brief.action) _ asks),
      )

  pub recent-elim :
      (c : L2Case F) (seconds : F) (row : Finding F) (target : String)
      → recent_proposal desk watch c seconds row ≡ some target
      → (is_fresh desk watch (py.sub (watch.aged c.id) seconds) ≡ true)
        × (proposal desk.ip desk.machine desk.config.scope (some row) ≡ some target)
  recent-elim c seconds row target h =
      elim (Bool-cases (is_fresh desk watch (py.sub (watch.aged c.id) seconds))) [
        | inl fresh ↦ (fresh, rw fresh at h)
        | inr stale ↦ absurd (ground (arith, rw stale at h))
      ]

  pub has_come-elim :
      (now : F) (d : Option F)
      → has_come desk watch now d ≡ true
      → (deadline : F) × (d ≡ some deadline) × (py.lt now deadline ≡ false)
  has_come-elim now none h = absurd (ground (arith, h))
  has_come-elim now (some d) h = (d, refl, ground (arith, h))

  pub authorized-IsProven :
      (c : L2Case F) (brief : Brief F) (row : Finding F) (target : String)
      → authorized desk watch c brief row target ≡ some true
      → IsProven c brief row target
  authorized-IsProven c brief row target e =
      let (p, made, e1) = bind-elim (evidence_row desk watch (watch.checking c.id) row) _ true e in
      let (packet, alone, dossed, narrowed, sound, current) =
        authorize-IsCurrent (watch.checking c.id) brief p.0 (some target) e1 in
      record {
        prepared = p.0;
        assessment = p.1;
        gathered = made;
        packet = packet;
        made = dossed;
        alone = alone;
        narrowed = narrowed;
        sound = sound;
        current = current;
      }
