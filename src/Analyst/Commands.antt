-- ===== src/Analyst/Commands.antt =====
-- arbiter/l2_workflow.py: `control`, what an operator does to the cases of the second-level review.
use Prim.Native.String.{slice}
use arbiter_ai.Base.{
  String, Bool, true, false, ◌&&◌, Option, none, some, List, ◌==◌, ◌<>◌, if◌then◌else◌, ◌>>=◌,
}
use arbiter_ai.Base.Text.{strip}
use arbiter_ai.Values.{Runtime}
use arbiter_ai.Protection.{Store, Action, note}
use arbiter_ai.Workflow.{Level, critical, high, medium, low}
use arbiter_ai.Analyst.Policy.{Windows}
use arbiter_ai.Analyst.Cases.{
  L2Case, L2Workflow, find_l2, is_reviewable, rejected, reverted, save_case,
}

pub data L2Command : Type 0 where
  stop resume revert reject ack defer : L2Command

abbrev pub needs_reason : L2Command → Bool
needs_reason reject = true
needs_reason defer = true
needs_reason _ = false

abbrev pub l2_command_name : L2Command → String
l2_command_name stop = "stop"
l2_command_name resume = "resume"
l2_command_name revert = "revert"
l2_command_name reject = "reject"
l2_command_name ack = "ack"
l2_command_name defer = "defer"

abbrev pub control_body : L2Command → String → String → String
control_body command actor reason =
    l2_command_name command <> " by " <> actor <> ": " <> slice reason 0 1000

module _ {F : Type 0} ⦃py : Runtime F⦄ where
  -- `self.policy.windows[level]`
  abbrev pub window_at : Windows → Level → Option F
  window_at w critical = some (py.lit w.critical_window 1)
  window_at w high = some (py.lit w.high_window 1)
  window_at w medium = some (py.lit w.medium_window 1)
  window_at w low = none

  -- `min(x, y)`
  abbrev pub smaller : F → F → F
  smaller x y = if py.lt y x then y else x

  -- The extension of a deadline; `none` is a TypeError, for a window without a deadline.
  abbrev pub prolonged : Option F → F → Option F → Option (Option F)
  prolonged none clock deadline = some deadline
  prolonged (some window) clock none = none
  prolonged (some window) clock (some d) =
      some (some (smaller (py.add d window) (py.add clock window)))

  -- `ack` and `defer`
  abbrev pub extended_case : Windows → F → L2Case F → Option (L2Case F)
  extended_case windows clock c = if c.acknowledged then none else do
    deadline ← prolonged (window_at windows c.severity) clock c.deadline
    some (record c { acknowledged = true; deadline = deadline })

  -- the commands on a case that awaits review
  abbrev pub reviewed_case : Windows → F → L2Command → L2Case F → Option (L2Case F)
  reviewed_case windows clock reject c = some (record c { state = rejected })
  reviewed_case windows clock ack c = extended_case windows clock c
  reviewed_case windows clock defer c = extended_case windows clock c
  reviewed_case windows clock _ c = none

module _ {F : Type 0} where
  -- the audit of a stop or a resumption, whose actor is the agent's
  abbrev pub set_stopped : Bool → String → String → L2Workflow F → L2Workflow F
  set_stopped b actor name w = record w {
    stopped = b;
    store = note actor ("l2_" <> name) "" w.store;
  }

  -- the saving of a changed case, or the exception
  abbrev pub saved_if : String → Option (L2Case F) → L2Workflow F → Bool × L2Workflow F
  saved_if body none w = (false, w)
  saved_if body (some c) w = (true, save_case c body w)

-- `protection.undo`: the store, and whether it returned
abbrev pub Undoing : Type 0
Undoing = String → String → Store → Option (List Action) × Store

module _ {F : Type 0} where
  abbrev pub reverted_case :
      String → L2Case F → Option (List Action) × Store → L2Workflow F → Bool × L2Workflow F
  reverted_case body c (none, s) w = (false, record w { store = s })
  reverted_case body c (some actions, s) w =
      (true, save_case (record c { state = reverted }) body (record w { store = s }))

  -- `revert`
  abbrev pub revert_case : Undoing → String → String → L2Case F → L2Workflow F → Bool × L2Workflow F
  revert_case undo actor body c w = elim c.action_id [
    | none ↦ (false, w)
    | some id ↦ reverted_case body c (undo id actor w.store) w
  ]

module _ {F : Type 0} ⦃py : Runtime F⦄ (windows : Windows) (undo : Undoing) (actor : String)
    (clock : F) where
  unfoldable pub control_case : L2Command → String → L2Case F → L2Workflow F → Bool × L2Workflow F
  control_case revert reason c w = revert_case undo actor (control_body revert actor reason) c w
  control_case command reason c w =
      if is_reviewable c.state
      then saved_if (control_body command actor reason) (reviewed_case windows clock command c) w
      else (false, w)

  abbrev pub on_case : L2Command → String → Option (L2Case F) → L2Workflow F → Bool × L2Workflow F
  on_case command reason none w = (false, w)
  on_case command reason (some c) w = control_case command reason c w

  abbrev pub dispatch : L2Command → String → String → L2Workflow F → Bool × L2Workflow F
  dispatch stop id reason w = (true, set_stopped true actor "stop" w)
  dispatch resume id reason w = (true, set_stopped false actor "resume" w)
  dispatch command id reason w = on_case command reason (find_l2 id w.cases) w

  -- `control`, with False for an exception
  unfoldable pub l2_control : L2Command → String → String → L2Workflow F → Bool × L2Workflow F
  l2_control command id reason w =
      if needs_reason command && strip reason == ""
      then (false, w)
      else dispatch command id reason w
