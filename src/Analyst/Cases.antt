-- ===== src/Analyst/Cases.antt =====
-- arbiter/l2_workflow.py: the cases of the second-level review. A saved case stands behind the others.

use arbiter_ai.Base.{
  ℕ, String, Bool, true, false, Option, List, [], ◌∷◌, ◌++◌, ◌==◌, if◌then◌else◌, find_first, keep,
  not,
}
use arbiter_ai.Protection.{Store, Status, note}
use arbiter_ai.Workflow.{Level, critical, high, medium, low}
use arbiter_ai.Analyst.Engine.{Brief, Prepared}

-- A case whose block has ended has the status of its action.
pub data L2State : Type 0 where
  waiting needs_review executing executed rejected reverted : L2State
  ended : Status → L2State

pub record L2Case (F : Type 0) : Type 0 where
  pub id : String
  pub event_id : String
  pub severity : Level
  pub created : F
  pub deadline : Option F
  pub state : L2State
  pub brief : Option (Brief F)
  pub action_id : Option String
  pub acknowledged : Bool
  pub review_failed : Bool
  pub deadline_alerted : Bool
  pub deep_queued : Bool
  -- the brief of a deeper review, or its failure
  pub follow_up : Option (Option (Brief F))

-- a row of l2_notices, without its number and time
pub record L2Notice : Type 0 where
  pub case_id : String
  pub body : String

-- an entry of `jobs`, with the severity that its row has
pub record Job (F : Type 0) : Type 0 where
  pub rank : ℕ
  pub key : String
  pub level : Level
  pub prepared : Prepared F
  pub proposal : Option String

-- what a review puts into `results`; a deeper one is marked as a follow-up
pub data Outcome (F : Type 0) : Type 0 where
  advised : Brief F → Outcome F
  unavailable : Outcome F
  deeper : Option (Brief F) → Outcome F

pub record Report (F : Type 0) : Type 0 where
  pub key : String
  pub level : Level
  pub outcome : Outcome F

pub record L2Workflow (F : Type 0) : Type 0 where
  pub cases : List (L2Case F)
  pub notices : List L2Notice
  pub seen : List String
  pub stopped : Bool
  pub jobs : List (Job F)
  pub results : List (Report F)
  pub inflight : List String
  pub store : Store

-- `state in {"waiting", "needs_review"}`
abbrev pub is_reviewable : L2State → Bool
is_reviewable waiting = true
is_reviewable needs_review = true
is_reviewable _ = false

abbrev pub is_waiting : L2State → Bool
is_waiting waiting = true
is_waiting _ = false

abbrev pub is_interrupted : L2State → Bool
is_interrupted executing = true
is_interrupted _ = false

abbrev pub l2_actor : String
l2_actor = "l2-policy"

-- `list(WINDOWS).index(level)`
abbrev pub rank_of : Level → ℕ
rank_of critical = 0
rank_of high = 1
rank_of medium = 2
rank_of low = 3

module _ {F : Type 0} where
  unfoldable pub find_l2 : String → List (L2Case F) → Option (L2Case F)
  find_l2 id = find_first (λ c. c.id == id)

  -- `INSERT OR REPLACE`: the row with the id goes, and the new one comes behind the others
  unfoldable pub put_l2 : L2Case F → List (L2Case F) → List (L2Case F)
  put_l2 c cs = keep (λ d. not (d.id == c.id)) cs ++ (c ∷ [])

  -- `save` without a notice, and with one
  unfoldable pub keep_case : L2Case F → L2Workflow F → L2Workflow F
  keep_case c w = record w { cases = put_l2 c w.cases }

  unfoldable pub save_case : L2Case F → String → L2Workflow F → L2Workflow F
  save_case c body w = record w {
    cases = put_l2 c w.cases;
    notices = w.notices ++ (record { case_id = c.id; body = body } ∷ []);
    store = note l2_actor "l2_notice" c.id w.store;
  }

  -- the loop of the constructor over the saved cases
  unfoldable pub resume_cases : List (L2Case F) → L2Workflow F → L2Workflow F
  resume_cases [] w = w
  resume_cases (c ∷ rest) w = resume_cases rest (
      if is_interrupted c.state
      then save_case (record c { state = needs_review })
          "Interrupted action: inspect actions and native firewall before recovery" w
      else w)

  -- a new process over the tables: the queues start empty
  unfoldable pub restarted : L2Workflow F → L2Workflow F
  restarted w = resume_cases w.cases (record w { jobs = []; results = []; inflight = [] })
