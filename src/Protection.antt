-- ===== src/Protection.antt =====
-- arbiter/ingestion/protection.py: approved local blocks of addresses, and their undoing. The firewall
-- is a parameter whose answers depend on every command that it got; the rows of `protection_actions`
-- stand in the order of their insertion.
pub mod Undoings
pub mod Requests
pub mod Approvals
pub mod Proposals
pub mod Operations
pub mod Commands
pub mod Recovery
pub mod Blocks
pub mod Asked
use Prim.Native.String.{compare}
use text.Mathlib.Text.{is_lt}
use arbiter_ai.Base.{
  ℕ, ◌+◌, String, Bool, true, false, not, ◌&&◌, ◌||◌, Option, none, some, List, [], ◌∷◌, ◌++◌, ◌==◌,
  map, leb, eqb, if◌then◌else◌, any, keep, length, member, find_first,
}
use arbiter_ai.Values.{Runtime}
use arbiter_ai.Telemetry.{SecurityEvent}
use arbiter_ai.Correlation.{Match}
use arbiter_ai.Containment.{Addresses, Scope, permits}

-- an entry of `responses` in an analysis
pub record Advice : Type 0 where
  pub kind : String
  pub target : String

pub record Analysis (F : Type 0) : Type 0 where
  pub decision : String
  pub tier : String
  pub completed_at : String
  pub correlation : List (Match F)
  pub responses : List Advice

-- a row of the telemetry, as `EventBuffer.detail` gives it
pub record Finding (F : Type 0) : Type 0 where
  pub event_id : String
  pub state : String
  pub connector : String
  pub event : SecurityEvent F
  pub analysis : Option (Analysis F)

-- What the code reads of its machine: `str.casefold`, `s.split(".")[0]`, the host's name, and the age
-- of an ISO time in seconds, with `none` for an exception.
pub record Machine (F : Type 0) : Type 0 where
  pub casefold : String → String
  pub first_label : String → String
  pub hostname : String
  pub age : String → Option F

pub data Status : Type 0 where
  pending executed failed cleanup_failed undone expired recovered expiry_due : Status

-- a row of `protection_actions`
pub record Action : Type 0 where
  pub id : String
  pub event_id : String
  pub target : String
  pub status : Status
  pub expires_at : String
  pub actor : String

-- what a firewall is asked to do, or to tell
pub data Command : Type 0 where
  block : String → String → Command
  ask_active : String → String → Command
  lift : String → Command
  ask_removed : String → Command

-- The answer of a firewall to a command, after the earlier ones: `none` is one of the errors that the
-- code catches. A call that changes the firewall answers True.
abbrev pub Firewall : Type 0
Firewall = List Command → Command → Option Bool

pub record Note : Type 0 where
  pub actor : String
  pub action : String
  pub subject : String

pub record Store : Type 0 where
  pub actions : List Action
  pub commands : List Command
  pub audit : List Note

pub record Config (N : Type 0) : Type 0 where
  pub scope : Option (Scope N)
  pub verify : Bool

abbrev pub is_scoped : {N : Type 0} → Option (Scope N) → Bool
is_scoped none = false
is_scoped (some s) = true

abbrev pub is_given {ℓ} : {A : Type ℓ} → Option A → Bool
is_given none = false
is_given (some a) = true

-- status IN ('pending','executed','cleanup_failed')
abbrev pub is_active : Status → Bool
is_active pending = true
is_active executed = true
is_active cleanup_failed = true
is_active _ = false

abbrev pub is_executed : Status → Bool
is_executed executed = true
is_executed _ = false

abbrev pub before : String → String → Bool
before a b = is_lt (compare a b)

abbrev pub has_passed : String → String → Bool
has_passed expires_at now = not (before now expires_at)

-- a call of the firewall, which it will remember
unfoldable pub call : Firewall → Command → Store → Option Bool × Store
call firewall c s = (firewall s.commands c, record s { commands = s.commands ++ (c ∷ []) })

abbrev pub note : String → String → String → Store → Store
note actor action subject s = record s {
  audit = s.audit ++ (record { actor = actor; action = action; subject = subject } ∷ []);
}

-- `_status`
unfoldable pub set_status : String → Status → Store → Store
set_status id status s = record s {
  actions = map (λ a. if a.id == id then record a { status = status } else a) s.actions;
}

-- a block that is executed and past its time is shown as due to expire
abbrev pub shown_status : String → Action → Action
shown_status now a =
    if is_executed a.status && before a.expires_at now then record a { status = expiry_due } else a

pub reversed : List Action → List Action
reversed [] = []
reversed (a ∷ rest) = reversed rest ++ (a ∷ [])

-- `actions`: those of an event, the newest first
unfoldable pub actions_of : String → String → Store → List Action
unfolding reversed
actions_of now event_id s =
    map (shown_status now) (reversed (keep (λ a. a.event_id == event_id) s.actions))
