-- ===== src/Workflow/Evidence.antt =====
-- arbiter/ingestion/response_workflow.py: the fresh evidence of a timed action, and its block.
use arbiter_ai.Base.{
  String, Bool, true, false, not, ◌&&◌, ◌||◌, Option, none, some, List, [], ◌∷◌, ◌==◌,
  if◌then◌else◌, any, keep, take, member,
}
use arbiter_ai.Values.{Value, Runtime, get_value, truthy, equals}
use arbiter_ai.Telemetry.{SecurityEvent}
use arbiter_ai.Correlation.{Match}
use arbiter_ai.Correlation.Malware.{correlate}
use arbiter_ai.Containment.{containment_scope, permits, single, Scope}
use arbiter_ai.Protection.{Finding, Machine, Store, Action}
use arbiter_ai.Protection.Proposals.{proposal}
use arbiter_ai.Protection.Operations.{Moment, Clock, approve, may_approve}
use arbiter_ai.Workflow.{Case, Setting, Feed, Enrolment, detail, is_eligible}

-- What a round reads: the clock when it compares a case's deadline, after its action, and for an
-- expiry; the clock at the recovery; the machine at the two proposals; and the ages of the evidence.
pub record Round (F : Type 0) : Type 0 where
  pub created : String → F
  pub due : String → F
  pub finished : String → F
  pub expiry : String → F
  pub swept : F
  pub reconciled : F
  pub evidence_age : SecurityEvent F → Option F
  pub machine : Machine F
  pub moment : String → Moment
  pub clock : Clock
  pub now : String

-- What a step of an execution comes to: an exception that the round does not catch, one that it
-- catches, or a value.
pub data Attempt (A : Type 0) : Type 0 where
  aborted refused : Attempt A
  gave : A → Attempt A

module _ {F : Type 0} ⦃py : Runtime F⦄ where
  -- the time of the evidence lies in the last thirty seconds
  abbrev is_recent : Option F → Bool
  is_recent none = false
  is_recent (some age) = py.le (py.lit 0 1) age && py.le age (py.lit 30 1)

  -- the same account, or the same process
  abbrev same_actor : String → SecurityEvent F → SecurityEvent F → Bool
  same_actor rule e o =
      if rule == "repeated_login_failures"
      then e.username == o.username && e.user_id == o.user_id
      else e.process_id == o.process_id && e.process_name == o.process_name

  abbrev same_process :
      (Value F → Value F → Bool) → String → SecurityEvent F → SecurityEvent F → Bool
  same_process same rule e o =
      let guid = get_value "process_guid" e.metadata in
      not (rule == "malware_process_network")
      || (not (e.process_name == "")
          && (truthy guid && same guid (get_value "process_guid" o.metadata)))

  abbrev is_staged : SecurityEvent F → Bool
  is_staged e = member "demo" e.tags || member "replay" e.tags

  abbrev from_collector : SecurityEvent F → Bool
  from_collector e =
      any (equals (get_value "_collector_origin" e.metadata))
        ("windows" ∷ "sysmon" ∷ "defender" ∷ [])

module _ {F A N : Type 0} ⦃py : Runtime F⦄ (setting : Setting F A N) (feed : Feed F)
    (round : Round F) where
  -- a live row that may stand for the original one
  abbrev is_candidate : String → SecurityEvent F → Finding F → Bool
  is_candidate rule original row =
      let e = row.event in
      same_actor rule e original
      && (same_process setting.same_value rule e original
          && (member row.connector ("windows" ∷ "sysmon" ∷ []) && not (is_staged e)))

  abbrev checked_row : Finding F → List (Match F) → Finding F
  checked_row row found = record row {
    analysis = some (record {
      decision = "escalate";
      tier = "";
      completed_at = "";
      correlation = found;
      responses = [];
    });
  }

  abbrev offer : Finding F → Option String
  offer row = elim setting.protection [
    | none ↦ none
    | some config ↦ proposal setting.ip round.machine config.scope (some row)
  ]

  -- The row with the correlation that it still has; refused where it has none, or none for the target.
  -- Without a protection to ask, the code stops with an AttributeError.
  abbrev supported : Enrolment F → Finding F → List (Match F) → Attempt (Finding F)
  supported e row found =
      let eligible = keep (λ (m : Match F). m.rule == e.rule && is_eligible m) found in
      elim eligible [
        | [] ↦ refused
        | m ∷ ms ↦ elim setting.protection [
          | none ↦ aborted
          | some config ↦ elim (offer (checked_row row (m ∷ ms))) [
            | none ↦ refused
            | some target ↦ if target == e.target then gave (checked_row row (m ∷ ms)) else refused
          ]
        ]
      ]

  -- the correlation of a live row; its TypeError ends the round
  abbrev correlated : Enrolment F → Finding F → Attempt (Finding F)
  correlated e row =
      elim (correlate setting.builtins setting.same_value row.event
        (keep from_collector (feed.recent row.event))) [
          | none ↦ aborted
          | some found ↦ supported e row found
        ]

  -- a recent row of the host; a case without enrolment has no `rule`, which is a KeyError
  abbrev tried_row : Option (Enrolment F) → SecurityEvent F → Finding F → Attempt (Finding F)
  tried_row none original row = aborted
  tried_row (some e) original row =
      if is_candidate e.rule original row then correlated e row else refused

  abbrev or_later : Attempt (Finding F) → Attempt (Finding F) → Attempt (Finding F)
  or_later refused later = later
  or_later first later = first

  unfoldable pub fresh_row :
      Option (Enrolment F) → SecurityEvent F → List (Finding F) → Attempt (Finding F)
  fresh_row e original [] = refused
  fresh_row e original (row ∷ rest) =
      let later = fresh_row e original rest in
      if is_recent (round.evidence_age row.event)
      then or_later (tried_row e original row) later
      else later

  -- `fresh_evidence`, refused for None
  unfoldable pub fresh_evidence : String → Option (Enrolment F) → Attempt (Finding F)
  fresh_evidence event_id e = elim (detail event_id feed) [
    | none ↦ refused
    | some original ↦ fresh_row e original.event (take 100 (feed.live original.event.hostname))
  ]

  abbrev same_offer : Option String → Option String → Bool
  same_offer none none = true
  same_offer (some s) (some t) = s == t
  same_offer _ _ = false

  -- the original row still has the proposal that the fresh one has
  abbrev still_offered : String → Finding F → Bool
  still_offered event_id checked = elim (detail event_id feed) [
    | none ↦ false
    | some original ↦ same_offer (offer original) (offer (record checked { event_id = event_id }))
  ]

  -- the new action has an id that the table has: an IntegrityError, which the round does not catch
  abbrev is_duplicate : Case F → Enrolment F → Scope N → Option (Finding F) → Store → Bool
  is_duplicate c e scope row s = elim (proposal setting.ip round.machine (some scope) row) [
    | none ↦ false
    | some target ↦
        let m = round.moment c.event_id in
        may_approve (some scope) m c.event_id (some e.target) target s
        && any (λ (a : Action). a.id == m.fresh_id) s.actions
  ]

  -- `actions[0]["id"]`, an IndexError where there is no action
  abbrev first_id : Bool → Option (List Action) → Attempt String
  first_id duplicate none = if duplicate then aborted else refused
  first_id duplicate (some []) = aborted
  first_id duplicate (some (a ∷ rest)) = gave a.id

  abbrev block_with : Case F → Enrolment F → Finding F → Store → Attempt String × Store
  block_with c e checked s = elim (containment_scope setting.ip (single e.target ∷ []) e.networks) [
    | none ↦ (refused, s)
    | some scope ↦
        let bound = some (record checked { event_id = c.event_id }) in
        let result =
          approve setting.ip round.machine setting.firewall
            (record { scope = some scope; verify = true }) (round.moment c.event_id) c.event_id
            e.actor (some e.target) bound s in
        if permits setting.ip scope e.target && still_offered c.event_id checked
        then (first_id (is_duplicate c e scope bound s) result.0, result.1)
        else (refused, s)
  ]

  abbrev block_from :
      Case F → Option (Enrolment F) → Attempt (Finding F) → Store → Attempt String × Store
  block_from c e aborted s = (aborted, s)
  block_from c e refused s = (refused, s)
  block_from c none (gave checked) s = (aborted, s)
  block_from c (some e) (gave checked) s = block_with c e checked s

  -- the body of the `try`: the block on the device, with the id of its action
  unfoldable pub block_on_device : Case F → Store → Attempt String × Store
  block_on_device c s = block_from c c.enrolment (fresh_evidence c.event_id c.enrolment) s
