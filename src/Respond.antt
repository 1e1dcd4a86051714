-- ===== src/Respond.antt =====
-- arbiter/respond.py: the actions for an escalated event, and the responder that runs and audits
-- them. The shell is a parameter.
pub mod Catalog
pub mod Auto
pub mod Runs
use arbiter_ai.Base.{
  ℕ, String, Bool, true, false, not, ◌&&◌, Option, none, some, List, [], ◌∷◌, ◌++◌, map, eqb,
  if◌then◌else◌,
}
use arbiter_ai.Values.{Runtime, truthy, get_value, text_of}
use arbiter_ai.Schema.{Event, Verdict, signature, is_escalate, is_prefilter}
use Catalog.{ActionKind, Proposal, named, proposals}

pub data ActionMode : Type 0 where
  auto recommend : ActionMode

pub record ResponseAction : Type 0 where
  pub kind : ActionKind
  pub target : String
  pub host : String
  pub ttl_minutes : Option ℕ
  pub command : String
  pub reason : String
  pub mode : ActionMode
  pub event_id : String
  pub signature : String
  pub executed : Bool
  pub dry_run : Bool
  pub timestamp : String

abbrev pub is_auto : ActionMode → Bool
is_auto auto = true
is_auto recommend = false

module _ {F : Type 0} where
  -- The action that `plan` makes of a proposal, at a time.
  unfoldable pub action_of : String → Event F → Verdict F → Proposal → ResponseAction
  action_of now e v p = record {
    kind = p.kind;
    target = p.target;
    host = e.host;
    ttl_minutes = p.ttl_minutes;
    command = p.command;
    reason = p.reason;
    mode = if p.auto_safe && is_prefilter v.tier then auto else recommend;
    event_id = e.id;
    signature = signature e;
    executed = false;
    dry_run = true;
    timestamp = now;
  }

module _ {F : Type 0} ⦃py : Runtime F⦄ where
  unfoldable pub plan : String → Event F → Verdict F → List ResponseAction
  plan now e v =
      let actions = map (action_of now e v) (proposals e) in
      if is_escalate v.decision then actions else []

-- What `subprocess.run` gives: an exit code, or the exception of the 30-second timeout.
pub data ShellResult : Type 0 where
  exited : ℕ → ShellResult
  timed_out : ShellResult

-- The shell answers a command, perhaps by the commands that it ran before.
abbrev pub Shell : Type 0
Shell = List String → String → ShellResult

-- `ran` has the commands that the responder gave to the shell, the first one first.
pub record Responder : Type 0 where
  pub dry_run : Bool
  pub audit : List ResponseAction
  pub ran : List String

-- the action is written into the audit file
pub audited : ResponseAction → Responder → Responder
audited a r = record r { audit = r.audit ++ (a ∷ []) }

-- One pass of the loop of `respond`. A timeout leaves the loop before the action is audited.
pub carry_out : ShellResult → ResponseAction → Responder → Option ResponseAction × Responder
unfolding audited
carry_out result a r =
    let planned = record a { dry_run = r.dry_run } in
    let started = record r { ran = r.ran ++ (a.command ∷ []) } in
    if is_auto a.mode && not r.dry_run
    then elim result [
      | timed_out ↦ (none, started)
      | exited code ↦
          let done = record planned { executed = eqb code 0 } in (some done, audited done started)
    ]
    else (some planned, audited planned r)

-- the outcome of a pass and of those after it; an exception leaves the loop
pub joined :
    Option ResponseAction
    → Responder
    → Option (List ResponseAction) × Responder
    → Option (List ResponseAction) × Responder
joined none r later = (none, r)
joined (some a) r (none, r') = (none, r')
joined (some a) r (some done, r') = (some (a ∷ done), r')

-- The loop of `respond`; `none` stands for the exception that leaves it.
pub carry_out_all :
    Shell → List ResponseAction → Responder → Option (List ResponseAction) × Responder
unfolding joined
carry_out_all shell [] r = (some [], r)
carry_out_all shell (a ∷ rest) r =
    let out = carry_out (shell r.ran a.command) a r in
    joined out.0 out.1 (carry_out_all shell rest out.1)

module _ {F : Type 0} ⦃py : Runtime F⦄ where
  unfoldable pub respond :
      Shell → String → Event F → Verdict F → Responder → Option (List ResponseAction) × Responder
  respond shell now e v r = carry_out_all shell (plan now e v) r

-- what a run of the responder computes with
unfoldable pub respond_run : Unit {0}
unfolding truthy get_value text_of signature named proposals action_of plan audited carry_out
    carry_out_all respond
respond_run = tt
