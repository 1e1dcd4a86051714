-- ===== src/Workflow/Tick.antt =====
-- arbiter/ingestion/response_workflow.py: the scheduler's round over the cases.
use arbiter_ai.Base.{
  String, Bool, true, false, not, ◌&&◌, ◌||◌, Option, none, some, List, [], ◌∷◌, ◌==◌,
  if◌then◌else◌, keep, take, find_first, member,
}
use arbiter_ai.Values.{Runtime}
use arbiter_ai.Containment.{containment_scope, permits, single}
use arbiter_ai.Protection.{Finding, Store, Config, Status, Action, actions_of}
use arbiter_ai.Protection.Proposals.{is_done}
use arbiter_ai.Protection.Operations.{Moment, Clock, approve, reconcile}
use arbiter_ai.Containment
use arbiter_ai.Protection.Operations
use arbiter_ai.Correlation.Malware.{correlation_run}
use arbiter_ai.Workflow.{
  Case, Workflow, Setting, Feed, CaseState, executed, overdue, needs_review, is_pending,
  is_executed, policy_actor, detail, is_escalated, executing, save, for_rows,
}
use arbiter_ai.Workflow.Opening.{workflow_run, ensure, is_past}
use arbiter_ai.Workflow.Evidence.{
  Round, block_on_device, fresh_evidence, fresh_row, Attempt, aborted, refused, gave,
}

-- a step after one that may have ended the round
abbrev pub unless_ended : {W : Type 0} → (W → Bool × W) → Bool × W → Bool × W
unless_ended f (true, w) = f w
unless_ended f (false, w) = (false, w)

-- a loop whose body may end the round
unfoldable pub try_rows :
    {F : Type 0}
    → (Case F → Workflow F → Bool × Workflow F)
    → List (Case F)
    → Workflow F
    → Bool × Workflow F
try_rows step [] w = (true, w)
try_rows step (c ∷ rest) w = unless_ended (try_rows step rest) (step c w)

module _ {F A N : Type 0} ⦃py : Runtime F⦄ (setting : Setting F A N) (feed : Feed F)
    (round : Round F) where
  abbrev pub ran : Case F → Option String → Case F
  ran c id = record c {
    state = executed;
    action_id = id;
    expires_at = some (py.add (round.finished c.event_id) (py.lit 300 1));
    note =
        if setting.simulation
        then "Simulated block only; device unchanged."
        else "Verified temporary peer block. Native expiry in five minutes; Undo is available.";
  }

  abbrev pub gave_up : Case F → Case F
  gave_up c = record c {
    state = needs_review;
    note =
        "Timed response could not pass fresh evidence, scope or native checks. Inspect the action record; no retry will run automatically.";
  }

  abbrev pub late : Case F → Case F
  late c = record c {
    state = overdue;
    note = "Review deadline passed. No automatic action was authorized or executed.";
  }

  -- how the execution ends; an exception that is not caught leaves the case as executing
  abbrev pub settle : Case F → Attempt String × Store → Workflow F → Bool × Workflow F
  settle c (aborted, s) w = (false, record w { store = s })
  settle c (refused, s) w =
      (true, save (gave_up c) "l1_execution_needs_review" policy_actor (record w { store = s }))
  settle c (gave id, s) w =
      (true, save (ran c (some id)) "l1_executed" policy_actor (record w { store = s }))

  -- the execution of a due case, saved as executing before it starts
  unfoldable pub execute : Case F → Workflow F → Bool × Workflow F
  execute c w =
      let started = save (record c { state = executing }) "l1_execution_started" policy_actor w in
      if setting.simulation
      then (true, save (ran c c.action_id) "l1_executed" policy_actor started)
      else settle c (block_on_device setting feed round c started.store) started

  -- A case in the loop over the deadlines, and whether the loop goes on.
  unfoldable pub meet_deadline : Case F → Workflow F → Bool × Workflow F
  meet_deadline c w =
      if not (is_pending c.state && is_past (round.due c.event_id) c.limit)
      then (true, w)
      else if not c.automatic || w.stopped
      then (true, save (late c) "l1_overdue" policy_actor w)
      else execute c w

  abbrev pub is_expired : Case F → Bool
  is_expired c = elim c.expires_at [ none ↦ false | some t ↦ py.le t (round.expiry c.event_id) ]

  abbrev pub own_action : Case F → List Action → Option Action
  own_action c actions = elim c.action_id [
    | none ↦ elim actions [ [] ↦ none | a ∷ rest ↦ some a ]
    | some id ↦ elim (find_first (λ (a : Action). a.id == id) actions) [
      | some a ↦ some a
      | none ↦ elim actions [ [] ↦ none | a ∷ rest ↦ some a ]
    ]
  ]

  abbrev pub ended_state : Status → Option CaseState
  ended_state Status.expired = some CaseState.expired
  ended_state Status.undone = some CaseState.undone
  ended_state Status.recovered = some CaseState.undone
  ended_state _ = none

  abbrev removed_case : Case F → CaseState → Case F
  removed_case c state = record c {
    state = state;
    note =
        "Native block removal verified; inspect the action record. Interrupted sessions cannot be restored.";
  }

  abbrev pub removed : Option CaseState → Case F → Workflow F → Workflow F
  removed none c w = w
  removed (some state) c w = save (removed_case c state) "l1_block_removed" policy_actor w

  abbrev pub lifted : Option Action → Case F → Workflow F → Workflow F
  lifted none c w = w
  lifted (some a) c w = removed (ended_state a.status) c w

  abbrev pub watched : Option (Config N) → Case F → Workflow F → Workflow F
  watched none c w = w
  watched (some config) c w = lifted (own_action c (actions_of round.now c.event_id w.store)) c w

  abbrev pub over : Case F → Case F
  over c = record c {
    state = CaseState.expired;
    note = "Simulated five-minute block expired. No device changes were made.";
  }

  -- an executed case in the loop over the ends of the blocks
  unfoldable pub follow_up : Case F → Workflow F → Workflow F
  follow_up c w =
      if setting.simulation && is_expired c
      then save (over c) "l1_expired" policy_actor w
      else watched setting.protection c w

  -- the completed escalations that the scan has not seen
  abbrev pub unseen : List String → List (Finding F)
  unseen seen = take 100 (
      keep (λ (r : Finding F). is_done r && (is_escalated r && not (member r.event_id seen)))
        feed.rows)

  unfoldable pub notice : List (Finding F) → Workflow F → Workflow F
  notice [] w = w
  notice (r ∷ rest) w =
      let made =
        (ensure setting.timestamp (round.created r.event_id) (detail r.event_id feed) w).1 in
      notice rest (record made { seen = r.event_id ∷ made.seen })

  -- every ten seconds, the recovery of the blocks
  unfoldable pub sweep : Workflow F → Workflow F
  sweep w = elim setting.protection [
    | none ↦ w
    | some config ↦
        if py.le (py.lit 10 1) (py.sub round.swept w.last_reconcile)
        then record w {
          store = reconcile setting.ip setting.firewall config round.clock w.store;
          last_reconcile = round.reconciled;
        }
        else w
  ]

  abbrev pub pending_rows : Workflow F → List (Case F)
  pending_rows w = keep (λ c. is_pending c.state) w.cases

  abbrev pub executed_rows : Workflow F → List (Case F)
  executed_rows w = keep (λ c. is_executed c.state) w.cases

  -- what comes after the loop over the deadlines
  abbrev pub finish_round : Workflow F → Bool × Workflow F
  finish_round w = let swept = sweep w in (true, for_rows follow_up (executed_rows swept) swept)

  -- `tick`; False for a round that an exception ended, after which `run` waits for the next one
  unfoldable pub tick : Workflow F → Bool × Workflow F
  tick w =
      let noticed = notice (unseen w.seen) w in
      unless_ended finish_round (try_rows meet_deadline (pending_rows noticed) noticed)

-- what a run computes with
unfoldable pub tick_run : Unit {0}
unfolding try_rows fresh_row fresh_evidence block_on_device execute meet_deadline follow_up notice
    sweep tick workflow_run Containment.containment_run Operations.protection_run correlation_run
tick_run = tt
