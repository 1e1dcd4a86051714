-- ===== src/Tests/Responses.antt =====
-- Runs of the containment and of the review cases, and their theorems at concrete inputs.
use arbiter_ai.Base.{
  ℕ, String, ◌≡◌, refl, true, false, none, some, List, [], ◌∷◌, map, All, ◌==◌, ◌<>◌, if◌then◌else◌,
}
use arbiter_ai.Values.{Value, str, entry, end, equals}
use arbiter_ai.Telemetry.{SecurityEvent}
use arbiter_ai.Correlation.{Match}
use arbiter_ai.Containment
use arbiter_ai.Containment.{Addresses, Scope}
use arbiter_ai.Protection.{Store, Config, Firewall, Machine, Finding, Analysis, Status, block}
use arbiter_ai.Protection.Operations.{Moment, Clock, reconcile, protection_run}
use arbiter_ai.Protection.Commands.{IsSafe}
use arbiter_ai.Protection.Requests.{Request, approving, recovering, serve_all, serve_all-IsSafe}
use arbiter_ai.Protection.Recovery.{is_unsettled, reconcile-Settled}
use arbiter_ai.Protection.Blocks.{blocks}
use arbiter_ai.Workflow.{CaseState, Workflow, Setting, Feed}
use arbiter_ai.Workflow.Requests
use arbiter_ai.Workflow.Requests.{stop, schedule, resume, reject}
use arbiter_ai.Workflow.Control.{control_run}
use arbiter_ai.Workflow.Evidence.{Round}
use arbiter_ai.Workflow.Tick.{tick, tick_run}
use arbiter_ai.Workflow.Steps.{Step, commanded, ticked, reopened, steps}
use arbiter_ai.Workflow.Quiet.{Quiet}
use arbiter_ai.Workflow.Stopped.{steps-Quiet}
use arbiter_ai.Tests.Fixtures.{thousandths}
use arbiter_ai.Tests.Alerts.{plain_event, builtins}

abbrev pub ip : Addresses String String
ip = record {
  ip_address = λ s. if s == "" then none else some s;
  shown = λ a. a;
  is_global = λ a. true;
  is_loopback = λ a. false;
  is_link_local = λ a. false;
  is_multicast = λ a. false;
  is_unspecified = λ a. false;
  is_reserved = λ a. false;
  is_mapped = λ a. false;
  version = λ a. 4;
  ip_network = λ t. some t;
  is_within = λ a n. (a <> "/32") == n;
  prefixlen = λ n. 32;
  is_edge = λ a n. false;
}

abbrev pub agreeing : Firewall
agreeing log c = some true

abbrev pub config : Config String
config = record {
  scope = some (record { allowed = "203.0.113.7/32" ∷ []; protected = "10.0.0.0/8" ∷ [] });
  verify = true;
}

abbrev pub machine : Machine ℕ
machine = record {
  casefold = λ s. s;
  first_label = λ s. s;
  hostname = "web-01";
  age = λ s. some 10000;
}

abbrev failed_login : SecurityEvent ℕ
failed_login = record plain_event {
  source_type = "windows_security";
  event_type = "auth_failure";
  metadata = entry "_collector_origin" (str "windows") end;
}

abbrev repeated : Match ℕ
repeated = record {
  rule = "repeated_login_failures";
  events = "a" ∷ [];
  severity = 7000;
  verified_tool_source = false;
  reason = "";
}

abbrev analysis : Analysis ℕ
analysis = record {
  decision = "escalate";
  tier = "llm";
  completed_at = "2026-01-02T10:00:05+00:00";
  correlation = repeated ∷ [];
  responses = [];
}

abbrev row : Finding ℕ
row = record {
  event_id = "e1";
  state = "done";
  connector = "windows";
  event = failed_login;
  analysis = some analysis;
}

abbrev pub moment : Moment
moment = record {
  fresh_id = "a1";
  expiry = "2026-01-02T10:05:00";
  checked_at = "2026-01-02T10:00:00";
  returned_at = "2026-01-02T10:00:01";
}

abbrev pub late : Clock
late = record { looked = λ id. "2026-01-02T10:06:00"; undone_at = λ id. "2026-01-02T10:06:01" }

abbrev pub empty : Store
empty = record { actions = []; commands = []; audit = [] }

abbrev requests : List (Request ℕ)
requests = approving machine moment "e1" "ana" none (some row) ∷ []

-- The block is executed, a second one for the event is refused, and the recovery ends it when it expired.
protection_runs :
    (map (λ a. a.status) (serve_all ip agreeing config requests empty).actions
      ≡ Status.executed ∷ [])
    × (map
          (λ a. a.status)
          (serve_all ip agreeing config
            (approving machine moment "e1" "ana" none (some row)
              ∷ approving machine (record moment { fresh_id = "a2" }) "e1" "bo" none (some row)
              ∷ [])
            empty).actions
        ≡ Status.executed ∷ [])
    × (map
          (λ a. a.status)
          (serve_all ip agreeing config
            (approving machine moment "e1" "ana" none (some row) ∷ recovering late ∷ [])
            empty).actions
        ≡ Status.expired ∷ [])
unfolding protection_run Containment.containment_run
protection_runs = (refl, refl, refl)

empty-IsSafe : IsSafe ip agreeing config empty
empty-IsSafe = record { permitted = tt; confirmed = tt }

serve_all-IsSafe_example : IsSafe ip agreeing config (serve_all ip agreeing config requests empty)
serve_all-IsSafe_example = serve_all-IsSafe ip agreeing config requests empty empty-IsSafe

reconcile-Settled_example :
    All
      (λ a. is_unsettled ip agreeing config late a ≡ false)
      (reconcile ip agreeing config late (serve_all ip agreeing config requests empty)).actions
reconcile-Settled_example =
    reconcile-Settled ip agreeing config late (serve_all ip agreeing config requests empty) refl

abbrev setting : Setting ℕ String String
setting = record {
  ip = ip;
  firewall = agreeing;
  protection = some config;
  simulation = false;
  builtins = builtins;
  same_value = λ v w. elim v [ Value.str s ↦ equals w s | _ ↦ false ];
  timestamp = λ s. some 1000000;
}

abbrev feed : Feed ℕ
feed = record {
  rows = row ∷ [];
  live = λ host. record row { event_id = "e9" } ∷ [];
  recent = λ e. failed_login ∷ failed_login ∷ failed_login ∷ failed_login ∷ [];
}

abbrev round : Round ℕ
round = record {
  created = λ id. 1010000;
  due = λ id. 1400000;
  finished = λ id. 1401000;
  expiry = λ id. 1402000;
  swept = 1403000;
  reconciled = 1404000;
  evidence_age = λ e. some 5000;
  machine = machine;
  moment = λ id. moment;
  clock = record { looked = λ id. "2026-01-02T10:00:00"; undone_at = λ id. "2026-01-02T10:00:00" };
  now = "2026-01-02T10:00:02";
}

abbrev asked : Requests.Command → Requests.Request ℕ
asked command = record {
  event_id = "e1";
  command = command;
  actor = "ana";
  reason = "known account";
  protected = some ("10.0.0.0/8" ∷ []);
  clock = 1100000;
  now = "2026-01-02T10:00:00";
  machine = machine;
}

abbrev fresh : Workflow ℕ
fresh = record { cases = []; seen = []; stopped = false; store = empty; last_reconcile = 0 }

abbrev states : Workflow ℕ → List CaseState
states w = map (λ c. c.state) w.cases

abbrev enrolled : Workflow ℕ
enrolled = steps setting (commanded feed (asked schedule) ∷ []) fresh

-- An enrolled case is executed at its deadline, by one block; without the enrolment, or after a stop,
-- it is overdue; a rejected case stays so. A round without a protection to ask ends in an exception.
workflow_runs :
    (states (steps setting (commanded feed (asked schedule) ∷ ticked feed round ∷ []) fresh)
      ≡ CaseState.executed ∷ [])
    × (blocks (steps setting (commanded feed (asked schedule) ∷ ticked feed round ∷ []) fresh).store
        ≡ block "a1" "203.0.113.7" ∷ [])
    × (states (steps setting (ticked feed round ∷ []) fresh) ≡ CaseState.overdue ∷ [])
    × (states (
          steps setting
            (commanded feed (asked schedule) ∷ commanded feed (asked stop) ∷ ticked feed round ∷ [])
            fresh)
        ≡ CaseState.overdue ∷ [])
    × (states (steps setting (commanded feed (asked reject) ∷ ticked feed round ∷ []) fresh)
        ≡ CaseState.rejected ∷ [])
    × (states (tick (record setting { protection = none }) feed round enrolled).1
        ≡ CaseState.executing ∷ [])
    × ((tick (record setting { protection = none }) feed round enrolled).0 ≡ false)
unfolding control_run tick_run
workflow_runs = (refl, refl, refl, refl, refl, refl, refl)

abbrev story : List (Step ℕ)
story = commanded feed (asked schedule) ∷ ticked feed round ∷ reopened ∷ []

abbrev halted : Workflow ℕ
halted = record enrolled { stopped = true }

steps-Quiet_example : Quiet halted (steps setting story halted)
steps-Quiet_example = steps-Quiet setting story halted (refl, (tt, (tt, tt))) refl
