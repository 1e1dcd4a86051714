-- ===== src/Workflow.antt =====
-- arbiter/ingestion/response_workflow.py: the cases of the first-level reviews, as a list of rows in
-- which a saved case stands behind the others. A loop goes over the rows as they were when it started.
pub mod Opening
pub mod Stopped
pub mod Steps
pub mod Tick
pub mod Control
pub mod Requests
pub mod Evidence
pub mod Deadlines
pub mod Quiet
use Prim.Native.String.{slice}
use arbiter_ai.Base.{
  ℕ, String, Bool, true, false, not, ◌&&◌, ◌||◌, Option, none, some, List, [], ◌∷◌, ◌++◌, ◌==◌, map,
  if◌then◌else◌, any, find_first, member, keep,
}
use arbiter_ai.Base.Text.{strip}
use arbiter_ai.Values.{Value, Runtime}
use arbiter_ai.Telemetry.{SecurityEvent}
use arbiter_ai.Telemetry.Evidence.{Builtins}
use arbiter_ai.Correlation.{Match}
use arbiter_ai.Containment.{Addresses}
use arbiter_ai.Protection.{Finding, Analysis, Machine, Store, Firewall, Config, note}
use arbiter_ai.Protection.Proposals.{is_done}

pub data CaseState : Type 0 where
  pending overdue executing executed needs_review reviewed rejected undone expired : CaseState

pub data Level : Type 0 where
  critical high medium low : Level

-- what a repeated report would share with an enrolled one: six texts, and the guid of the process
pub record Identity (F : Type 0) : Type 0 where
  pub texts : List String
  pub guid : Value F

-- the keys that `schedule` adds to a case
pub record Enrolment (F : Type 0) : Type 0 where
  pub target : String
  pub rule : String
  pub identity : Identity F
  pub networks : List String
  pub actor : String

-- `deadline` and `window`, which are None together
pub record Limit (F : Type 0) : Type 0 where
  pub deadline : F
  pub window : F

pub record Case (F : Type 0) : Type 0 where
  pub event_id : String
  pub severity : Level
  pub limit : Option (Limit F)
  pub state : CaseState
  -- `mode == "automatic"`
  pub automatic : Bool
  pub deferred : Bool
  pub note : String
  pub enrolment : Option (Enrolment F)
  pub action_id : Option String
  pub expires_at : Option F

pub record Workflow (F : Type 0) : Type 0 where
  pub cases : List (Case F)
  pub seen : List String
  pub stopped : Bool
  pub store : Store
  pub last_reconcile : F

-- What the workflow asks of the event buffer: its rows in the order of the scan, the live rows of a host
-- as `query` gives them, and `recent`.
pub record Feed (F : Type 0) : Type 0 where
  pub rows : List (Finding F)
  pub live : String → List (Finding F)
  pub recent : SecurityEvent F → List (SecurityEvent F)

-- What a workflow is made with, and `datetime.fromisoformat(s).timestamp()`. `protection` is None or
-- the scope and verification of the one that it was given.
pub record Setting (F A N : Type 0) : Type 0 where
  pub ip : Addresses A N
  pub firewall : Firewall
  pub protection : Option (Config N)
  pub simulation : Bool
  pub builtins : Builtins F
  pub same_value : Value F → Value F → Bool
  pub timestamp : String → Option F

abbrev pub is_pending : CaseState → Bool
is_pending pending = true
is_pending _ = false

abbrev pub is_executing : CaseState → Bool
is_executing executing = true
is_executing _ = false

abbrev pub is_executed : CaseState → Bool
is_executed executed = true
is_executed _ = false

-- `state in {"pending", "overdue"}`
abbrev pub is_open : CaseState → Bool
is_open pending = true
is_open overdue = true
is_open _ = false

-- `state in {"executed", "needs_review", "executing"}`
abbrev pub is_undoable : CaseState → Bool
is_undoable executed = true
is_undoable needs_review = true
is_undoable executing = true
is_undoable _ = false

abbrev pub timed_rules : List String
timed_rules = "repeated_login_failures" ∷ "malware_process_network" ∷ []

abbrev pub policy_actor : String
policy_actor = "l1-policy"

abbrev pub or_text : String → String → String
or_text s d = if s == "" then d else s

abbrev pub first_note : Level → String
first_note low = "Low severity has no automatic deadline. Operator review remains available."
first_note _ =
    "Review required. Deadline expiry marks this case overdue; it does not authorize containment."

module _ {F : Type 0} where
  -- `get`
  unfoldable pub find_case : String → List (Case F) → Option (Case F)
  find_case event_id = find_first (λ c. c.event_id == event_id)

  -- `INSERT OR REPLACE`: the row with the event id goes, and the new one comes behind the others
  unfoldable pub put_case : Case F → List (Case F) → List (Case F)
  put_case c cs = keep (λ d. not (d.event_id == c.event_id)) cs ++ (c ∷ [])

  -- `save`, with the case's event as the subject of the audit
  unfoldable pub save : Case F → String → String → Workflow F → Workflow F
  save c action actor w = record w {
    cases = put_case c w.cases;
    store = note actor action c.event_id w.store;
  }

  -- a loop over the rows that a query returned
  unfoldable pub for_rows :
      (Case F → Workflow F → Workflow F) → List (Case F) → Workflow F → Workflow F
  for_rows step [] w = w
  for_rows step (c ∷ rest) w = for_rows step rest (step c w)

  -- `EventBuffer.detail`
  unfoldable pub detail : String → Feed F → Option (Finding F)
  detail event_id t = find_first (λ r. r.event_id == event_id) t.rows

  abbrev pub is_escalated : Finding F → Bool
  is_escalated row = elim row.analysis [ none ↦ false | some a ↦ a.decision == "escalate" ]

  -- a correlation that may carry a timed action
  abbrev pub is_eligible : Match F → Bool
  is_eligible m = not (m.rule == "malware_process_network") || m.verified_tool_source
