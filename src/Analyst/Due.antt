-- ===== src/Analyst/Due.antt =====
-- arbiter/l2_workflow.py: what a round does with one case at its deadline, and after its block. The first
-- component of a result is False where the code raises an exception, which ends the round. A fresh id
-- that the table of actions has already, which the code does not catch, counts as a failed approval.
use arbiter_ai.Base.{
  String, Bool, true, false, not, ◌&&◌, Option, none, some, List, ◌==◌, ◌<>◌, if◌then◌else◌, keep,
  leb, member, find_first, ◌>>=◌,
}
use arbiter_ai.Values.{Value, int, float, pos, Runtime, equals}
use arbiter_ai.Containment.{Addresses}
use arbiter_ai.Protection.{
  Finding, Store, Config, Firewall, Machine, Status, Action, actions_of, is_executed,
}
use arbiter_ai.Protection.Proposals.{proposal}
use arbiter_ai.Protection.Operations.{Moment, Clock, approve}
use arbiter_ai.Analyst.{Assessment, dossier, assess}
use arbiter_ai.Analyst.Engine.{Brief, Prepared, Advisor, Site, authorize}
use arbiter_ai.Analyst.Grounding.{wants_block}
use arbiter_ai.Analyst.Policy.{Policy}
use arbiter_ai.Analyst.Cases.{
  L2Case, L2State, needs_review, executing, executed, ended, L2Workflow, is_waiting, l2_actor,
  save_case,
}

-- What a workflow is made with: the agent's protection, the policy, `datetime.fromisoformat(s).timestamp()`,
-- the digest that names the case of a row, and the model.
pub record Desk (F A N : Type 0) : Type 0 where
  pub ip : Addresses A N
  pub machine : Machine F
  pub firewall : Firewall
  pub config : Config N
  pub policy : Policy
  pub timestamp : String → Option F
  pub key_of : Finding F → String
  pub advisor : Advisor F

-- What a round reads: the rows in the order of the scan, the rows that `evidence_row` queries for a host
-- up to a time, and the clock, at each place where the code looks at it, by the key of the case.
pub record Watch (F : Type 0) : Type 0 where
  pub rows : List (Finding F)
  pub nearby : String → String → List (Finding F)
  pub created : String → F
  pub opened : String → F
  pub shortened : String → F
  pub due : String → F
  pub aged : String → F
  pub moment : String → Moment
  pub listed_at : String → String
  pub observing : String → Site F
  pub checking : String → Site F
  pub clock : Clock

abbrev pub reports_end : Status → Bool
reports_end Status.executed = false
reports_end Status.expiry_due = false
reports_end _ = true

abbrev pub status_name : Status → String
status_name Status.pending = "pending"
status_name Status.executed = "executed"
status_name Status.failed = "failed"
status_name Status.cleanup_failed = "cleanup_failed"
status_name Status.undone = "undone"
status_name Status.expired = "expired"
status_name Status.recovered = "recovered"
status_name Status.expiry_due = "expiry_due"

abbrev pub was_executed : L2State → Bool
was_executed executed = true
was_executed _ = false

-- `permits` with a brief
abbrev pub permits_brief : {F : Type 0} → Policy → Brief F → Bool
permits_brief policy brief =
    policy.automatic
    && elim brief.guardrail.rule [ none ↦ false | some rule ↦ member rule policy.rules ]

module _ {F A N : Type 0} ⦃py : Runtime F⦄ (desk : Desk F A N) (watch : Watch F) where
  abbrev pub detail_of : String → Option (Finding F)
  detail_of event_id = find_first (λ r. r.event_id == event_id) watch.rows

  -- `evidence_row`, with the assessment that it adds
  unfoldable pub evidence_row : Site F → Finding F → Option (Prepared F × Assessment)
  evidence_row site row = do
    let related =
        keep (λ (r : Finding F). not (r.event_id == row.event_id))
          (watch.nearby row.event.hostname row.event.timestamp)
    packet ← dossier site.reader row related
    some (
      record { row = row; related = related; deep = false },
      assess site.windows_path site.is_local packet
          (proposal desk.ip desk.machine desk.config.scope (some row)),
    )

  -- at least 0.95
  abbrev pub is_confident : Value F → Bool
  is_confident (int (pos n)) = leb 1 n
  is_confident (float x) = not (py.lt x (py.lit 95 100))
  is_confident _ = false

  -- a row of the last thirty seconds
  abbrev pub is_fresh : F → Bool
  is_fresh age = py.le (py.lit 0 1) age && py.le age (py.lit 30 1)

  abbrev pub may_act : Bool → Brief F → Bool
  may_act stopped brief =
      not stopped
      && (permits_brief desk.policy brief
          && (wants_block brief.action && is_confident brief.confidence))

  abbrev pub refuse_case : L2Case F → L2Workflow F → L2Workflow F
  refuse_case c w =
      save_case (record c { state = needs_review })
        "Deadline reached; automatic action not authorized; human intervention required" w

  abbrev pub redirected : L2Case F → L2Workflow F → L2Workflow F
  redirected c w =
      save_case (record c { state = needs_review })
        "Recommendation target changed; human review required" w

  abbrev pub applied : L2Case F → Action → L2Case F
  applied c a = record c { state = executed; action_id = some a.id }

  -- after `approve`: a failure is caught, but not that no action of the event is executed
  abbrev pub struck : L2Case F → Option (List Action) × Store → L2Workflow F → Bool × L2Workflow F
  struck c (none, s) w = (
    true,
    save_case (record c { state = needs_review })
        "Containment failed; inspect actions and cleanup status immediately"
        (record w { store = s }),
  )
  struck c (some actions, s) w = elim (find_first (λ (a : Action). is_executed a.status) actions) [
    | none ↦ (false, record w { store = s })
    | some a ↦ (
      true,
      save_case (applied c a)
          ("Temporary block applied and native rule verified; expires " <> a.expires_at
            <> ". Revert: l2-revert " <> c.id
            <> ". Connectivity effect requires independent verification.")
          (record w { store = s }),
    )
  ]

  abbrev pub begun : L2Case F → L2Workflow F → L2Workflow F
  begun c w =
      save_case (record c { state = executing })
        "Authorized deadline reached; attempting temporary block" w

  abbrev pub approval : L2Case F → Finding F → String → Store → Option (List Action) × Store
  approval c row target =
      approve desk.ip desk.machine desk.firewall desk.config (watch.moment c.id) c.event_id l2_actor
        (some target) (some row)

  -- the block of an authorized case, saved as executing before it starts
  unfoldable pub strike : L2Case F → Finding F → String → L2Workflow F → Bool × L2Workflow F
  strike c row target w = struck c (approval c row target (begun c w).store) (begun c w)

  abbrev pub authorized : L2Case F → Brief F → Finding F → String → Option Bool
  authorized c brief row target = evidence_row (watch.checking c.id) row >>= λ p.
      authorize (watch.checking c.id) brief p.0 (some target)

  abbrev pub carried_out :
      Option Bool → L2Case F → Finding F → String → L2Workflow F → Bool × L2Workflow F
  carried_out none c row target w = (false, w)
  carried_out (some false) c row target w = (true, redirected c w)
  carried_out (some true) c row target w = strike c row target w

  -- with the proposal, which an older row does not have
  unfoldable pub decide_case :
      Option String → L2Case F → Brief F → Finding F → L2Workflow F → Bool × L2Workflow F
  decide_case none c brief row w = (true, refuse_case c w)
  decide_case (some target) c brief row w =
      if not (may_act w.stopped brief)
      then (true, refuse_case c w)
      else if equals brief.target target
      then carried_out (authorized c brief row target) c row target w
      else (true, redirected c w)

  abbrev pub recent_proposal : L2Case F → F → Finding F → Option String
  recent_proposal c seconds row =
      if is_fresh (py.sub (watch.aged c.id) seconds)
      then proposal desk.ip desk.machine desk.config.scope (some row)
      else none

  abbrev pub aged_case :
      Option F → L2Case F → Brief F → Finding F → L2Workflow F → Bool × L2Workflow F
  aged_case none c brief row w = (false, w)
  aged_case (some seconds) c brief row w = decide_case (recent_proposal c seconds row) c brief row w

  -- a due case with a brief, and the row of its event
  abbrev pub judge_case :
      Option (Finding F) → L2Case F → Brief F → L2Workflow F → Bool × L2Workflow F
  judge_case none c brief w = (false, w)
  judge_case (some row) c brief w = aged_case (desk.timestamp row.event.timestamp) c brief row w

  abbrev pub alerted : L2Case F → L2Workflow F → L2Workflow F
  alerted c w =
      if c.deadline_alerted
      then w
      else save_case (record c { deadline_alerted = true })
          "Response deadline reached while L2 is pending; urgent human review required" w

  abbrev pub due_case : Option (Brief F) → L2Case F → L2Workflow F → Bool × L2Workflow F
  due_case none c w = (true, alerted c w)
  due_case (some brief) c w = judge_case (detail_of c.event_id) c brief w

  abbrev pub has_come : F → Option F → Bool
  has_come now none = false
  has_come now (some d) = not (py.lt now d)

  abbrev pub own_l2_action : L2Case F → L2Workflow F → Option Action
  own_l2_action c w = elim c.action_id [
    | none ↦ none
    | some id ↦
        find_first (λ (a : Action). a.id == id)
          (actions_of (watch.listed_at c.id) c.event_id w.store)
  ]

  abbrev pub followed : Option Action → L2Case F → L2Workflow F → L2Workflow F
  followed none c w = w
  followed (some a) c w =
      if reports_end a.status
      then save_case (record c { state = ended a.status })
          ("Containment status: " <> status_name a.status) w
      else w

  -- one case in the last loop of `tick`
  unfoldable pub meet_case : L2Case F → L2Workflow F → Bool × L2Workflow F
  meet_case c w =
      if was_executed c.state
      then (true, followed (own_l2_action c w) c w)
      else if is_waiting c.state && has_come (watch.due c.id) c.deadline
      then due_case c.brief c w
      else (true, w)
