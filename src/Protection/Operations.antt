-- ===== src/Protection/Operations.antt =====
-- arbiter/ingestion/protection.py: the approval, the undoing and the recovery of local blocks.

use arbiter_ai.Base.{
  String, Bool, true, false, not, ◌&&◌, ◌||◌, Option, none, some, List, [], ◌∷◌, ◌++◌, ◌==◌, leb,
  if◌then◌else◌, any, keep, length, find_first,
}
use arbiter_ai.Values.{Runtime}
use arbiter_ai.Containment.{Addresses, Scope, permits}
use arbiter_ai.Protection.{
  Action, Command, Config, Finding, Firewall, Machine, Status, Store, actions_of, ask_active,
  ask_removed, block, call, cleanup_failed, executed, expired, failed, has_passed, is_active,
  is_executed, is_given, lift, note, pending, recovered, reversed, set_status, undone,
}
use arbiter_ai.Protection.Proposals.{proposal}

abbrev pub is_yes : Option Bool → Bool
is_yes none = false
is_yes (some b) = b

abbrev pub is_answered : Option Bool → Bool
is_answered none = false
is_answered (some b) = true

-- what an approval reads beside the row: a fresh id, the time in five minutes, and the clock before and
-- after the block
pub record Moment : Type 0 where
  pub fresh_id : String
  pub expiry : String
  pub checked_at : String
  pub returned_at : String

-- A change of the firewall and, where it is to be verified, the question whether it holds.
unfoldable pub changed : Firewall → Bool → Command → Command → Store → Bool × Store
unfolding call
changed firewall verify change question s =
    let done = call firewall change s in
    let asked = call firewall question done.1 in
    if is_answered done.0
    then (if verify then (is_yes asked.0, asked.1) else (true, done.1))
    else (false, done.1)

-- the clean-up of a block that failed
unfoldable pub clean_up : Firewall → Bool → String → Store → Store
clean_up firewall verify id s =
    let lifted = changed firewall true (lift id) (ask_removed id) s in
    if not verify then s else if lifted.0 then lifted.1 else set_status id cleanup_failed lifted.1

abbrev pub pending_action : Moment → String → String → String → Action
pending_action m event_id target actor = record {
  id = m.fresh_id;
  event_id = event_id;
  target = target;
  status = pending;
  expires_at = m.expiry;
  actor = actor;
}

-- the rest of `approve`; an id that the table has already is an IntegrityError
unfoldable pub attempt :
    Firewall → Bool → Moment → String → String → String → Store → Option (List Action) × Store
attempt firewall verify m event_id actor target s =
    let inserted : Store = record s {
      actions = s.actions ++ (pending_action m event_id target actor ∷ []);
    } in
    let tried =
      changed firewall verify (block m.fresh_id target) (ask_active m.fresh_id target) inserted in
    let approved =
      note actor "protection_approved" m.fresh_id (set_status m.fresh_id executed tried.1) in
    if any (λ a. a.id == m.fresh_id) s.actions
    then (none, s)
    else if tried.0
    then (some (actions_of m.returned_at event_id approved), approved)
    else (
      none,
      note actor "protection_failed" m.fresh_id
          (clean_up firewall verify m.fresh_id (set_status m.fresh_id failed tried.1)),
    )

abbrev pub active_actions : Store → List Action
active_actions s = keep (λ a. is_active a.status) s.actions

-- at most ten blocks, and one for a target, where a scope is given
abbrev pub is_crowded : {N : Type 0} → Option (Scope N) → String → Store → Bool
is_crowded none target s = false
is_crowded (some scope) target s =
    leb 10 (length (active_actions s)) || any (λ a. a.target == target) (active_actions s)

abbrev pub is_expected : Option String → String → Bool
is_expected none target = true
is_expected (some expected) target = target == expected

-- the guards of `approve`, with a proposal at hand
abbrev pub may_approve :
    {N : Type 0} → Option (Scope N) → Moment → String → Option String → String → Store → Bool
may_approve scope m event_id expected target s =
    is_expected expected target
    && (not (is_crowded scope target s)
        && not (any (λ a. is_active a.status) (actions_of m.checked_at event_id s)))

-- `undo`; `none` is a ValueError
unfoldable pub undo :
    Firewall → Bool → String → String → String → Store → Option (List Action) × Store
undo firewall verify now id actor s =
    let lifted = changed firewall verify (lift id) (ask_removed id) s in
    let finished = note actor "protection_undone" id (set_status id undone lifted.1) in
    elim (find_first (λ a. a.id == id) s.actions) [
      | none ↦ (none, s)
      | some row ↦ if lifted.0 then (some (actions_of now row.event_id finished), finished) else (
        none,
        note actor "protection_undo_failed" id (set_status id cleanup_failed lifted.1),
      )
    ]

-- what the clock says when the row of an id is looked at, and after its undoing
pub record Clock : Type 0 where
  pub looked : String → String
  pub undone_at : String → String

module _ {F A N : Type 0} ⦃py : Runtime F⦄ (ip : Addresses A N) (machine : Machine F)
    (firewall : Firewall) (config : Config N) where
  -- `approve` of the given row, which is the evidence or that of the event
  unfoldable pub approve :
      Moment
      → String
      → String
      → Option String
      → Option (Finding F)
      → Store
      → Option (List Action) × Store
  approve m event_id actor expected row s = elim (proposal ip machine config.scope row) [
    | none ↦ (none, s)
    | some target ↦
        if may_approve config.scope m event_id expected target s
        then attempt firewall config.verify m event_id actor target s
        else (none, s)
  ]

module _ {A N : Type 0} (ip : Addresses A N) (firewall : Firewall) (config : Config N)
    (clock : Clock) where
  abbrev pub is_outside : Option (Scope N) → String → Bool
  is_outside none target = false
  is_outside (some s) target = not (permits ip s target)

  -- a row that the recovery undoes
  abbrev pub is_stale : Action → Bool
  is_stale a =
      not (is_executed a.status)
      || (has_passed a.expires_at (clock.looked a.id) || is_outside config.scope a.target)

  abbrev pub final_status : Action → Status
  final_status a =
      if is_executed a.status && has_passed a.expires_at (clock.undone_at a.id)
      then expired
      else recovered

  unfoldable pub recover : Action → Store → Store
  recover a s =
      let result = undo firewall config.verify (clock.undone_at a.id) a.id "agent-recovery" s in
      if is_stale a
      then (if is_given result.0 then set_status a.id (final_status a) result.1 else result.1)
      else s

  unfoldable pub recover_all : List Action → Store → Store
  recover_all [] s = s
  recover_all (a ∷ rest) s = recover_all rest (recover a s)

  -- `reconcile`
  unfoldable pub reconcile : Store → Store
  reconcile s = if config.verify then recover_all (active_actions s) s else s

-- what a run computes with
unfoldable pub protection_run : Unit {0}
unfolding call set_status reversed actions_of proposal changed clean_up attempt undo approve recover
    recover_all reconcile
protection_run = tt
