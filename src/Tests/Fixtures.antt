-- ===== src/Tests/Fixtures.antt =====
-- Concrete inputs: a runtime whose floats are thousandths, events, memories and models.
use arbiter_ai.Base.{ℕ, ◌*◌, ◌+◌, ◌-◌, ◌/◌, ◌<◌, ◌≤◌, ◌≡◌, true, false, [], ◌∷◌, ltb, leb, arith}
use arbiter_ai.Base.Decimal.{decimal}
use arbiter_ai.Values.{Runtime, Value, Entries}
use arbiter_ai.Schema.{Event, Verdict, Decision, Tier}
use arbiter_ai.Memory.{Memory, VerdictRow, FactRow}
use arbiter_ai.Memory.Cache.{IsCoherent}
use arbiter_ai.Triage.{Model, Answer, Engine}

pub irrefl : (x : ℕ) → ltb x x ≡ false
irrefl x = ground arith

pub trans : (x y z : ℕ) → ltb x y ≡ true → ltb y z ≡ true → ltb x z ≡ true
trans x y z h k = ground arith

pub le_trans : (x y z : ℕ) → leb x y ≡ true → ltb y z ≡ true → ltb x z ≡ true
le_trans x y z h k = ground arith

pub literals : (a b : ℕ) → a < b → b ≤ 1000 → ltb (a * 1000 / 1) (b * 1000 / 1) ≡ true
literals a b h k = ground arith

instance abbrev pub thousandths : Runtime ℕ
thousandths = record {
  lt = ltb;
  le = leb;
  add = λ a b. a + b;
  sub = λ a b. a - b;
  mul = λ a b. a * b / 1000;
  lit = λ n d. n * 1000 / d;
  finite = λ x. true;
  shown = λ x. decimal (x / 1000);
  fixed = λ n x. decimal (x / 1000);
  shown_items = λ vs. "[]";
  shown_entries = λ d. "{}";
  lt_irrefl = irrefl;
  lt_trans = trans;
  le_lt_trans = le_trans;
  lit_lt = literals;
}

-- terraform adds a monitoring account with user id 0
abbrev pub root_account : Event ℕ
root_account = record {
  source = "auditd";
  host = "web-01";
  event_type = "user_created";
  message = "Terraform created wheel account MONITOR at 02:05";
  severity = 6000;
  timestamp = "2026-01-02T10:00:00+00:00";
  id = "e1";
  fields = Entries.entry "user" (Value.str "monitor") Entries.end;
}

abbrev pub dump : Event ℕ
dump = record root_account { event_type = "process_exec"; message = "ran mimikatz on the host" }

abbrev pub spike : Event ℕ
spike = record root_account {
  source = "disk";
  event_type = "io_spike";
  message = "backup reads /var/backups/db at 02:05";
  severity = 1000;
}

abbrev pub wheel_fact : FactRow
wheel_fact = record {
  id = 4;
  scope = "web-01";
  fact = "Terraform on WEB-01 creates a wheel account";
  f_user = "";
  f_path = "";
  f_process = "";
  f_events = "user_created";
  f_window = "22:00-02:30";
  created_by = "";
  created_at = "";
  expires_at = "";
}

abbrev pub benign_row : VerdictRow
benign_row = record {
  signature = "disk:io_spike:web-01";
  decision = "suppress";
  human_label = "";
  ts = "t";
}

abbrev pub memory : Memory ℕ
memory = record {
  assets = [];
  verdicts = benign_row ∷ benign_row ∷ benign_row ∷ benign_row ∷ benign_row ∷ [];
  facts = wheel_fact ∷ [];
  cache = [];
  seen_version = 1;
  data_version = 1;
}

pub memory-IsCoherent : IsCoherent memory
memory-IsCoherent = record { not_ahead = omega arith; agrees = λ e. tt }

abbrev pub agreeing : Model ℕ
agreeing e criticality summary facts = Answer.answered (record {
  decision = Decision.suppress;
  confidence = 900;
  evidence = "none";
  rationale = "known account";
  recommended_steps = [];
})

abbrev pub down : Model ℕ
down e criticality summary facts = Answer.failed "timed out"

abbrev pub engine : Engine ℕ
engine = record {
  memory = memory;
  shadow = true;
  stats = record {
    total = 0;
    prefilter_decided = 0;
    llm_decided = 0;
    guardrail_decided = 0;
    guardrail_downgraded = 0;
    escalated = 0;
    suppressed = 0;
  };
  audit = [];
}

abbrev pub benign_verdict : Verdict ℕ
benign_verdict = record {
  event_id = "e2";
  signature = "disk:io_spike:web-01";
  decision = Decision.suppress;
  score = 1000;
  tier = Tier.prefilter;
  rationale = "";
  evidence = "";
  timestamp = "t";
  recommended_steps = [];
}
