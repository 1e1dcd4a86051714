-- ===== src/Workflow/Control.antt =====
-- arbiter/ingestion/response_workflow.py: the commands of an operator. False stands for a ValueError.
use Prim.Native.String.{len}
use arbiter_ai.Base.{
  String, Bool, true, false, not, ◌&&◌, ◌||◌, Option, none, some, List, [], ◌∷◌, leb, if◌then◌else◌,
  any, find_first,
}
use arbiter_ai.Base.Text.{strip}
use arbiter_ai.Values.{Runtime, get}
use arbiter_ai.Containment.{containment_scope, permits, single}
use arbiter_ai.Protection.{Finding, Machine, Store, Config, Action, actions_of, is_given}
use arbiter_ai.Protection.Proposals.{proposal}
use arbiter_ai.Protection.Operations.{undo}
use arbiter_ai.Containment
use arbiter_ai.Protection.Operations
use arbiter_ai.Workflow.{
  Case, Workflow, Setting, Feed, Enrolment, Identity, CaseState, is_open, is_undoable, save, detail,
}
use arbiter_ai.Workflow.Opening.{workflow_run, ensure}
use arbiter_ai.Workflow.Requests.{
  Command, Request, command_name, defer, deferred_case, enrolled, first_advice, first_rule,
  identity_of, is_blank, is_reversible, listed, may_wait, networks_ok, reject, resume, resume_all,
  reviewed, schedule, shares, stop, stop_all, undo_block, with_reason,
}

module _ {F A N : Type 0} ⦃py : Runtime F⦄ (setting : Setting F A N) (feed : Feed F) where
  abbrev pub proposed : Machine F → Finding F → Option String
  proposed machine row = if setting.simulation then first_advice row else elim setting.protection [
    | none ↦ none
    | some config ↦ proposal setting.ip machine config.scope (some row)
  ]

  abbrev verifies : Bool
  verifies = elim setting.protection [ none ↦ false | some config ↦ config.verify ]

  abbrev scope_permits : List String → String → Bool
  scope_permits networks target =
      elim (containment_scope setting.ip (single target ∷ []) networks) [
        | none ↦ false
        | some scope ↦ permits setting.ip scope target
      ]

  -- what a device must offer for a timed action
  abbrev device_ready : Option (List String) → String → Bool
  device_ready networks target =
      setting.simulation
      || (verifies && (networks_ok networks && scope_permits (listed networks) target))

  abbrev pub spelt : String → Option String
  spelt target = elim (setting.ip.ip_address target) [
    | none ↦ none
    | some a ↦ some (setting.ip.shown a)
  ]

  -- the incident has a timed action already, or the device is not ready for one
  abbrev pub is_barred : Request F → Workflow F → Identity F → String → Bool
  is_barred r w i target =
      any (shares setting.same_value i r.event_id) w.cases || not (device_ready r.protected target)

  abbrev pub enrolment_of : Request F → Finding F → String → String → Enrolment F
  enrolment_of r row rule target = record {
    target = target;
    rule = rule;
    identity = identity_of row rule target;
    networks = listed r.protected;
    actor = r.actor;
  }

  abbrev pub enrol : Request F → Workflow F → Finding F → Case F → String → String → Option (Case F)
  enrol r w row c rule target =
      if is_barred r w (identity_of row rule target) target
      then none
      else some (enrolled c (enrolment_of r row rule target))

  -- `schedule`: the case with its enrolment
  unfoldable pub scheduled : Request F → Workflow F → Finding F → Case F → Option (Case F)
  scheduled r w row c =
      if w.stopped || not (may_wait r.clock c) then none else elim (first_rule row) [
        | none ↦ none
        | some rule ↦ elim (proposed r.machine row) [
          | none ↦ none
          | some given ↦ elim (spelt given) [
            | none ↦ none
            | some target ↦ enrol r w row c rule target
          ]
        ]
      ]

  abbrev pub undone_case : Case F → Case F
  undone_case c = record c {
    state = CaseState.undone;
    note =
        if setting.simulation
        then "Simulated block undone."
        else "Native block removal verified. Interrupted connections cannot be restored.";
  }

  abbrev pub undo_found : Config N → Option Action → Request F → Store → Bool × Store
  undo_found config none r s = (false, s)
  undo_found config (some a) r s =
      let result = undo setting.firewall config.verify r.now a.id r.actor s in
      (is_given result.0, result.1)

  abbrev pub undo_by : Option (Config N) → Request F → Store → Bool × Store
  undo_by none r s = (false, s)
  undo_by (some config) r s =
      undo_found config
        (find_first (λ (a : Action). is_reversible a.status) (actions_of r.now r.event_id s)) r s

  -- the undoing on the device: whether it came back, and the store
  unfoldable pub undo_on_device : Request F → Store → Bool × Store
  undo_on_device r s = if setting.simulation then (true, s) else undo_by setting.protection r s

  abbrev pub saved : Request F → Case F → Workflow F → Bool × Workflow F
  saved r c w = (true, save c (command_name r.command) r.actor w)

  -- the commands that are about one case
  unfoldable pub command_case :
      Request F → Command → Finding F → Case F → Workflow F → Bool × Workflow F
  command_case r undo_block row c w =
      let result = undo_on_device r w.store in
      let after : Workflow F = record w { store = result.1 } in
      if not (is_undoable c.state)
      then (false, w)
      else if result.0
      then saved r (undone_case c) after
      else (false, after)
  command_case r reviewed row c w =
      if is_open c.state && not (is_blank r.reason)
      then saved r (with_reason CaseState.reviewed c r.reason) w
      else (false, w)
  command_case r reject row c w =
      if is_open c.state && not (is_blank r.reason)
      then saved r (with_reason CaseState.rejected c r.reason) w
      else (false, w)
  command_case r defer row c w =
      if may_wait r.clock c && (not c.deferred && not (is_blank r.reason))
      then saved r (deferred_case c r.reason) w
      else (false, w)
  command_case r schedule row c w = elim (scheduled r w row c) [
    | none ↦ (false, w)
    | some e ↦ saved r e w
  ]
  command_case r _ row c w = (false, w)

  abbrev pub with_case :
      Request F → Command → Option (Finding F) → Option (Case F) × Workflow F → Bool × Workflow F
  with_case r command (some row) (some c, w) = command_case r command row c w
  with_case r command _ (_, w) = (false, w)

  unfoldable pub answer : Request F → Command → Workflow F → Bool × Workflow F
  answer r stop w = (true, stop_all r.actor w)
  answer r resume w = (true, resume_all r.actor w)
  answer r command w =
      let row = detail r.event_id feed in
      with_case r command row (ensure setting.timestamp r.clock row w)

  -- `control`
  unfoldable pub control : Request F → Workflow F → Bool × Workflow F
  control r w = if leb (len r.event_id) 128 then answer r r.command w else (false, w)

-- what a run computes with
unfoldable pub control_run : Unit {0}
unfolding workflow_run stop_all resume_all deferred_case scheduled undo_on_device command_case
    answer control Containment.containment_run Operations.protection_run strip get
control_run = tt
