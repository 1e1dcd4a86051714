-- ===== src/Workflow/Requests.antt =====
-- arbiter/ingestion/response_workflow.py: what an operator may ask for, and the cases that it gives.
use Prim.Native.String.{len, slice}
use arbiter_ai.Base.{
  String, Bool, true, false, not, ◌&&◌, Option, none, some, List, [], ◌∷◌, ◌==◌, leb, if◌then◌else◌,
  all, find_first, member, length,
}
use arbiter_ai.Base.Text.{strip}
use arbiter_ai.Values.{Value, Runtime, str}
use arbiter_ai.Telemetry.Evidence.{get_or}
use arbiter_ai.Correlation.{Match}
use arbiter_ai.Protection.{Finding, Machine, Status, Advice, note}
use arbiter_ai.Workflow.{
  Case, Workflow, Enrolment, Identity, Limit, CaseState, is_pending, timed_rules, is_eligible, save,
  for_rows,
}
use arbiter_ai.Workflow.Opening.{is_past}

pub data Command : Type 0 where
  stop resume undo_block reviewed reject defer schedule unknown : Command

-- what a command comes with: `protected` is `none` where it is not a list of texts
pub record Request (F : Type 0) : Type 0 where
  pub event_id : String
  pub command : Command
  pub actor : String
  pub reason : String
  pub protected : Option (List String)
  pub clock : F
  pub now : String
  pub machine : Machine F

-- the audit's name of a command
abbrev pub command_name : Command → String
command_name stop = "l1_stop"
command_name resume = "l1_resume"
command_name undo_block = "l1_undo"
command_name reviewed = "l1_reviewed"
command_name reject = "l1_reject"
command_name defer = "l1_defer"
command_name schedule = "l1_schedule"
command_name unknown = "l1_unknown"

-- the blocks that an undo may still find in the firewall
abbrev pub is_reversible : Status → Bool
is_reversible Status.executed = true
is_reversible Status.expiry_due = true
is_reversible Status.pending = true
is_reversible Status.failed = true
is_reversible Status.cleanup_failed = true
is_reversible _ = false

abbrev pub is_blank : String → Bool
is_blank reason = strip reason == ""

abbrev pub networks_ok : Option (List String) → Bool
networks_ok none = false
networks_ok (some ns) = leb 1 (length ns) && (leb (length ns) 128 && all (λ n. leb (len n) 100) ns)

abbrev pub listed : Option (List String) → List String
listed none = []
listed (some ns) = ns

abbrev texts_equal : List String → List String → Bool
texts_equal [] [] = true
texts_equal [] (t ∷ ts) = false
texts_equal (s ∷ ss) [] = false
texts_equal (s ∷ ss) (t ∷ ts) = s == t && texts_equal ss ts

module _ {F : Type 0} where
  abbrev pub is_enrolled : Case F → Bool
  is_enrolled c = is_pending c.state && c.automatic

  abbrev pub cancelled : Case F → Case F
  cancelled c = record c {
    automatic = false;
    note =
        "Timed action cancelled by the emergency stop; existing blocks retain their expiry and Undo.";
  }

  -- the body of the loop over the cases
  abbrev pub cancel : String → Case F → Workflow F → Workflow F
  cancel actor c w = if is_enrolled c then save (cancelled c) "l1_schedule_cancelled" actor w else w

  abbrev pub recorded : String → String → Workflow F → Workflow F
  recorded actor action w = record w { store = note actor action "" w.store }

  -- the emergency stop, which also cancels the enrolments
  unfoldable pub stop_all : String → Workflow F → Workflow F
  stop_all actor w =
      recorded actor "l1_stop" (for_rows (cancel actor) w.cases (record w { stopped = true }))

  unfoldable pub resume_all : String → Workflow F → Workflow F
  resume_all actor w = recorded actor "l1_resume" (record w { stopped = false })

  abbrev pub with_reason : CaseState → Case F → String → Case F
  with_reason state c reason = record c {
    state = state;
    automatic = false;
    note = slice reason 0 1000;
  }

  -- the first proposed block of an analysis, for a simulation
  abbrev pub first_advice : Finding F → Option String
  first_advice row = elim row.analysis [
    | none ↦ none
    | some a ↦ elim (find_first (λ (v : Advice). v.kind == "block_ip") a.responses) [
      | none ↦ none
      | some v ↦ some v.target
    ]
  ]

  abbrev pub first_rule : Finding F → Option String
  first_rule row = elim row.analysis [
    | none ↦ none
    | some a ↦
        elim (find_first (λ (m : Match F). member m.rule timed_rules && is_eligible m)
          a.correlation) [ none ↦ none | some m ↦ some m.rule ]
  ]

  abbrev pub identity_of : Finding F → String → String → Identity F
  identity_of row rule target = record {
    texts =
        row.event.hostname ∷ row.event.username ∷ row.event.process_id ∷ row.event.process_name
        ∷ rule ∷ target ∷ [];
    guid = get_or (str "") "process_guid" row.event.metadata;
  }

  abbrev pub same_identity : (Value F → Value F → Bool) → Identity F → Identity F → Bool
  same_identity same i j = texts_equal i.texts j.texts && same i.guid j.guid

  abbrev pub shares : (Value F → Value F → Bool) → Identity F → String → Case F → Bool
  shares same i event_id c = elim c.enrolment [
    | none ↦ false
    | some e ↦ same_identity same e.identity i && not (c.event_id == event_id)
  ]

  abbrev pub enrolled : Case F → Enrolment F → Case F
  enrolled c e = record c {
    automatic = true;
    enrolment = some e;
    note =
        "Explicitly pre-authorized temporary peer block at the deadline, only if fresh evidence and native checks still pass.";
  }

module _ {F : Type 0} ⦃py : Runtime F⦄ where
  abbrev is_some_limit : Option (Limit F) → Bool
  is_some_limit none = false
  is_some_limit (some l) = true

  -- an extension is open: the only one, before the deadline
  abbrev pub may_wait : F → Case F → Bool
  may_wait clock c = is_pending c.state && (is_some_limit c.limit && not (is_past clock c.limit))

  abbrev pub extended : Option (Limit F) → Option (Limit F)
  extended none = none
  extended (some l) = some (record l { deadline = py.add l.deadline l.window })

  unfoldable pub deferred_case : Case F → String → Case F
  deferred_case c reason = record c {
    limit = extended c.limit;
    deferred = true;
    note = slice reason 0 1000;
  }
