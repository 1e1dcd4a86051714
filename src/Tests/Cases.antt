-- ===== src/Tests/Cases.antt =====
-- Runs of the second-level workflow, and its theorems at concrete inputs.
use arbiter_ai.Base.{ℕ, String, ◌≡◌, refl, true, false, none, some, [], ◌∷◌, require}
use arbiter_ai.Base.Decimal.{decimal}
use arbiter_ai.Base.Text.{lower, strip_quotes, strip, contains}
use arbiter_ai.Values.{str, float, get_value}
use arbiter_ai.Backends.{listed}
use arbiter_ai.Correlation.{Match}
use arbiter_ai.Protection.{Analysis, Finding, block}
use arbiter_ai.Protection.Blocks.{blocks}
use arbiter_ai.Workflow.{critical}
use arbiter_ai.Telemetry.Evidence.{artifact}
use arbiter_ai.Containment
use arbiter_ai.Protection.Operations
use arbiter_ai.Analyst.{Packet, dossier}
use arbiter_ai.Analyst.Gathering.{IsSound}
use arbiter_ai.Analyst.Policy.{Policy, default_windows}
use arbiter_ai.Analyst.Engine.{Brief, Prepared, Advisor, Site, review}
use arbiter_ai.Analyst.Engine.Reviewed.{IsBacked, review-IsBacked}
use arbiter_ai.Analyst.Cases.{Job, L2Case, L2Workflow, waiting, find_l2}
use arbiter_ai.Analyst.Commands.{ack, defer, Undoing, l2_control, control_case}
use arbiter_ai.Analyst.Due.{Desk, Watch}
use arbiter_ai.Analyst.Tick.{l2_tick, l2_run, work}
use arbiter_ai.Analyst.Extensions.{IsExtended, control-Once}
use arbiter_ai.Tests.Fixtures.{thousandths}
use arbiter_ai.Tests.Responses.{ip, agreeing, config, machine, moment, late, empty}
use arbiter_ai.Tests.Reviews.{connection, detection, seen_by, reader}

abbrev malware_match : Match ℕ
malware_match = record {
  rule = "malware_process_network";
  events = "n1" ∷ "d1" ∷ [];
  severity = 9000;
  verified_tool_source = true;
  reason = "";
}

abbrev escalated : Analysis ℕ
escalated = record {
  decision = "escalate";
  tier = "llm";
  completed_at = "";
  correlation = malware_match ∷ [];
  responses = [];
}

abbrev alert : Finding ℕ
alert = record (seen_by "sysmon" connection) { analysis = some escalated }

abbrev site : Site ℕ
site = record { reader = reader; windows_path = λ s. s; is_local = λ s. true }

abbrev silent : Advisor ℕ
silent = record { advise = λ p a t. none; challenge = λ p a t b. none }

abbrev prepared : Prepared ℕ
prepared = record { row = alert; related = seen_by "defender" detection ∷ []; deep = false }

abbrev fast : Brief ℕ
fast = record {
  action = "block_ip";
  target = str "203.0.113.7";
  confidence = float 1000;
  guardrail = record {
    version = 2;
    rule = some "malware_process_network";
    evidence_ids = "n1" ∷ "d1" ∷ [];
    grounded = true;
    critic_accepted = true;
  };
  needs_deep_review = true;
}

review-fast : review site silent true prepared (some "203.0.113.7") ≡ some (some fast)
unfolding l2_run require artifact lower strip_quotes strip contains get_value listed decimal
review-fast = refl

review-IsBacked_example :
    (packet : Packet) × (dossier reader alert prepared.related ≡ some packet)
    × IsSound packet
    × IsBacked site silent packet (some "203.0.113.7") fast
review-IsBacked_example =
    review-IsBacked site silent true prepared (some "203.0.113.7") fast review-fast refl

abbrev enrolling : Policy
enrolling = record {
  automatic = true;
  rules = "malware_process_network" ∷ [];
  windows = default_windows;
}

abbrev desk : Desk ℕ String String
desk = record {
  ip = ip;
  machine = machine;
  firewall = agreeing;
  config = config;
  policy = enrolling;
  timestamp = λ s. some 0;
  key_of = λ r. r.event_id;
  advisor = silent;
}

abbrev watch : Watch ℕ
watch = record {
  rows = alert ∷ [];
  nearby = λ host time. alert ∷ seen_by "defender" detection ∷ [];
  created = λ key. 1000;
  opened = λ key. 1000;
  shortened = λ key. 2000;
  due = λ key. 70000;
  aged = λ key. 20000;
  moment = λ key. moment;
  listed_at = λ key. "2026-01-02T10:00:02";
  observing = λ id. site;
  checking = λ key. site;
  clock = late;
}

abbrev fresh_workflow : L2Workflow ℕ
fresh_workflow = record {
  cases = [];
  notices = [];
  seen = [];
  stopped = false;
  jobs = [];
  results = [];
  inflight = [];
  store = empty;
}

-- A verified finding is reviewed without the model, and blocked once its deadline has come.
tick_blocks : blocks (l2_tick desk watch fresh_workflow).1.store ≡ block "a1" "203.0.113.7" ∷ []
unfolding l2_run require artifact lower strip_quotes strip contains get_value listed decimal
    Operations.protection_run Containment.containment_run
tick_blocks = refl

-- Under the stop it is not.
tick_stopped : blocks (l2_tick desk watch (record fresh_workflow { stopped = true })).1.store ≡ []
unfolding l2_run require artifact lower strip_quotes strip contains get_value listed decimal
    Operations.protection_run Containment.containment_run
tick_stopped = refl

abbrev waiting_case : L2Case ℕ
waiting_case = record {
  id = "k1";
  event_id = "n1";
  severity = critical;
  created = 1000;
  deadline = some 61000;
  state = waiting;
  brief = none;
  action_id = none;
  acknowledged = false;
  review_failed = false;
  deadline_alerted = false;
  deep_queued = false;
  follow_up = none;
}

abbrev one_case : L2Workflow ℕ
one_case = record fresh_workflow { cases = waiting_case ∷ [] }

abbrev stuck : Undoing
stuck = λ id actor s. (none, s)

abbrev after_ack : L2Workflow ℕ
after_ack = (l2_control default_windows stuck "ann" 31000 ack "k1" "" one_case).1

ack_extends : l2_control default_windows stuck "ann" 31000 ack "k1" "" one_case ≡ (true, after_ack)
unfolding l2_run l2_control control_case
ack_extends = refl

control-Once_example :
    (c : L2Case ℕ) × (next : L2Case ℕ) × (find_l2 "k1" one_case.cases ≡ some c)
    × (find_l2 "k1" after_ack.cases ≡ some next)
    × IsExtended default_windows 31000 c next
    × (l2_control default_windows stuck "bob" 90000 defer "k1" "later" after_ack
        ≡ (false, after_ack))
control-Once_example =
    control-Once default_windows stuck "ann" 31000 ack "k1" "" one_case after_ack stuck "bob" 90000
      defer "later" refl ack_extends refl

abbrev job : String → ℕ → Job ℕ
job key n = record { rank = n; key = key; level = critical; prepared = prepared; proposal = none }

abbrev busy : L2Workflow ℕ
busy = record fresh_workflow { jobs = job "b" 1 ∷ job "a" 3 ∷ job "a" 1 ∷ [] }

-- The reviewer takes the lowest rank first, and of two the lower key.
work_order : (work desk watch busy).jobs ≡ job "a" 3 ∷ job "b" 1 ∷ []
unfolding l2_run
work_order = refl
