-- ===== src/Workflow/Opening.antt =====
-- arbiter/ingestion/response_workflow.py: how a case is opened, with its severity and deadline, and what
-- a new process does to the cases of one that stopped.

use arbiter_ai.Base.{
  String, Bool, false, ◌&&◌, Option, none, some, List, [], ◌∷◌, ◌==◌, keep, if◌then◌else◌,
}
use arbiter_ai.Values.{Runtime}
use arbiter_ai.Correlation.{Match}
use arbiter_ai.Protection.{Finding, Analysis}
use arbiter_ai.Protection.Proposals.{is_done}
use arbiter_ai.Workflow.{
  Case, Level, Limit, Workflow, critical, detail, find_case, first_note, high, is_executing, low,
  medium, needs_review, or_text, pending, policy_actor, put_case, save, for_rows,
}

module _ {F : Type 0} ⦃py : Runtime F⦄ where
  -- `max(x, y)`
  abbrev pub larger : F → F → F
  larger x y = if py.lt x y then y else x

  abbrev raised : Match F → F → F
  raised m score =
      if m.rule == "malware_process_network" && m.verified_tool_source
      then larger score (py.lit 9 1)
      else if m.rule == "repeated_login_failures"
      then larger score (py.lit 7 1)
      else score

  unfoldable pub raise_all : List (Match F) → F → F
  raise_all [] score = score
  raise_all (m ∷ ms) score = raise_all ms (raised m score)

  abbrev pub level_of : F → Level
  level_of score =
      if py.le (py.lit 9 1) score
      then critical
      else if py.le (py.lit 7 1) score
      then high
      else if py.le (py.lit 4 1) score
      then medium
      else low

  -- `WINDOWS`
  abbrev pub window_of : Level → Option F
  window_of critical = some (py.lit 60 1)
  window_of high = some (py.lit 300 1)
  window_of medium = some (py.lit 1800 1)
  window_of low = none

  abbrev pub or_clock : F → Option F → F
  or_clock clock none = clock
  or_clock clock (some t) = t

  abbrev pub limit_from : F → Option F → Option (Limit F)
  limit_from created none = none
  limit_from created (some window) =
      some (record { deadline = py.add created window; window = window })

  -- the severity of a new case
  unfoldable pub case_level : Finding F → Analysis F → Level
  case_level row analysis =
      let score = row.event.severity in
      let first = if analysis.tier == "guardrail" then larger score (py.lit 9 1) else score in
      level_of (raise_all analysis.correlation first)

  unfoldable pub new_case : (String → Option F) → F → Finding F → Analysis F → Case F
  unfolding case_level raise_all
  new_case timestamp clock row analysis =
      let level = case_level row analysis in
      let created =
        or_clock clock (timestamp (or_text analysis.completed_at row.event.received_at)) in
      record {
        event_id = row.event_id;
        severity = level;
        limit = limit_from created (window_of level);
        state = pending;
        automatic = false;
        deferred = false;
        note = first_note level;
        enrolment = none;
        action_id = none;
        expires_at = none;
      }

  -- `ensure`: the case of a completed escalation, which is made if there is none yet
  unfoldable pub ensure_row :
      (String → Option F) → F → Finding F → Workflow F → Option (Case F) × Workflow F
  ensure_row timestamp clock row w = elim row.analysis [
    | none ↦ (none, w)
    | some analysis ↦
        let made = new_case timestamp clock row analysis in
        if is_done row && analysis.decision == "escalate"
        then elim (find_case row.event_id w.cases) [
          | some c ↦ (some c, w)
          | none ↦ (some made, save made "l1_review_created" policy_actor w)
        ]
        else (none, w)
  ]

  abbrev pub ensure :
      (String → Option F) → F → Option (Finding F) → Workflow F → Option (Case F) × Workflow F
  ensure timestamp clock none w = (none, w)
  ensure timestamp clock (some row) w = ensure_row timestamp clock row w

  -- the clock has reached the deadline
  abbrev pub is_due : F → Limit F → Bool
  is_due now limit = py.le limit.deadline now

  abbrev pub is_past : F → Option (Limit F) → Bool
  is_past now none = false
  is_past now (some limit) = is_due now limit

module _ {F : Type 0} where
  abbrev pub interrupted : Case F → Case F
  interrupted c = record c {
    state = needs_review;
    note =
        "Interrupted action: inspect the native firewall and action record. Execution will not be retried.";
  }

  -- the body of the constructor's loop
  abbrev pub interrupt : Case F → Workflow F → Workflow F
  interrupt c w =
      if is_executing c.state then save (interrupted c) "l1_interrupted" policy_actor w else w

module _ {F : Type 0} ⦃py : Runtime F⦄ where
  -- what the constructor does to the cases of a process that stopped
  unfoldable pub reopen : Workflow F → Workflow F
  reopen w = record (for_rows interrupt (keep (λ c. is_executing c.state) w.cases) w) {
    last_reconcile = py.lit 0 1;
  }

-- what a run computes with
unfoldable pub workflow_run : Unit {0}
unfolding find_case put_case save detail raise_all case_level new_case ensure_row for_rows reopen
workflow_run = tt
