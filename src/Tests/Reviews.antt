-- ===== src/Tests/Reviews.antt =====
-- Runs of the second-level review's packet, assessment and policy, and their theorems at concrete
-- inputs.
use arbiter_ai.Base.{
  ℕ, String, ◌≡◌, refl, true, none, some, List, [], ◌∷◌, require, if◌then◌else◌, ◌==◌,
}
use arbiter_ai.Base.Decimal.{decimal}
use arbiter_ai.Base.Text.{lower, strip_quotes, strip, contains}
use arbiter_ai.Values.{
  Value, int, pos, str, bool, arr, obj, nil, cons, entry, end, get, get_value, Entries,
}
use arbiter_ai.Telemetry.{SecurityEvent}
use arbiter_ai.Telemetry.Evidence.{artifact}
use arbiter_ai.Protection.{Finding}
use arbiter_ai.Analyst.{
  Assessment, Fact, Packet, Reader, Route, assess, assess_current, dossier, fact_texts,
  login_failures, malware_facts, observe, observe_all, unsupported,
}
use arbiter_ai.Analyst.Gathering.{IsSound, dossier-IsSound}
use arbiter_ai.Analyst.Support.{IsSupported, assess-IsSupported}
use arbiter_ai.Analyst.Policy.{
  Policy, set_window, set_windows, rule_list, known_keys, policy_from, response_policy,
}
use arbiter_ai.Analyst.Bounds.{IsBounded, response_policy-IsBounded}
use arbiter_ai.Backends.{listed}
use arbiter_ai.Analyst.Grounding.{
  value_at, fact_at, hypothesis_kind, kinds_of, cite, cite_all, grounded_block, validate,
}
use arbiter_ai.Analyst.Grounding.Cited.{IsGrounded, validate-IsGrounded}
use arbiter_ai.Tests.Fixtures.{thousandths}
use arbiter_ai.Tests.Alerts.{plain_event}

abbrev pub connection : SecurityEvent ℕ
connection = record plain_event {
  source_type = "sysmon";
  event_type = "network_connection";
  event_id = "n1";
  dst_ip = "203.0.113.7";
  process_name = "c:/tmp/x.exe";
}

abbrev pub detection : SecurityEvent ℕ
detection = record plain_event {
  source_type = "defender";
  event_type = "malware_detection";
  event_id = "d1";
  file_path = "c:/tmp/x.exe";
}

abbrev pub seen_by : String → SecurityEvent ℕ → Finding ℕ
seen_by collector e = record {
  event_id = e.event_id;
  state = "done";
  connector = collector;
  event = e;
  analysis = none;
}

abbrev pub reader : Reader ℕ
reader = record { age = λ s. if s == "" then none else some 60000; json_size = λ fs. 400 }

-- the detection twice, and a row that was only uploaded
abbrev related : List (Finding ℕ)
related =
    seen_by "defender" detection ∷ seen_by "defender" detection ∷ seen_by "syslog" detection ∷ []

abbrev connection_fact : Fact
connection_fact = record {
  id = "F1";
  event_id = "n1";
  origin = "sysmon";
  hostname = "web-01";
  event_type = "network_connection";
  timestamp = "2026-01-02T10:00:00+00:00";
  username = "eve";
  user_id = "";
  src_ip = "203.0.113.7";
  dst_ip = "203.0.113.7";
  process_name = "c:/tmp/x.exe";
  process_id = "";
  file_path = "";
  action = "";
}

abbrev detection_fact : Fact
detection_fact = record connection_fact {
  id = "F2";
  event_id = "d1";
  origin = "defender";
  event_type = "malware_detection";
  dst_ip = "";
  process_name = "";
  file_path = "c:/tmp/x.exe";
}

abbrev pub packet : Packet
packet = record {
  host = "web-01";
  current_event = "n1";
  facts = connection_fact ∷ detection_fact ∷ [];
}

dossier-packet : dossier reader (seen_by "sysmon" connection) related ≡ some packet
unfolding dossier observe_all observe fact_texts decimal
dossier-packet = refl

dossier-IsSound_example : IsSound packet
dossier-IsSound_example =
    dossier-IsSound reader (seen_by "sysmon" connection) related packet dossier-packet

dossier_unreadable :
    dossier reader (seen_by "sysmon" (record connection { timestamp = "" })) [] ≡ none
unfolding dossier observe_all observe fact_texts decimal
dossier_unreadable = refl

assess_verified :
    (assess (λ s. s) (λ s. s == "web-01") packet (some "203.0.113.7")).required_facts
    ≡ "F1" ∷ "F2" ∷ []
unfolding assess assess_current login_failures malware_facts artifact lower strip_quotes strip
    contains
assess_verified = refl

assess_elsewhere : assess (λ s. s) (λ s. s == "db-01") packet (some "203.0.113.7") ≡ unsupported
unfolding assess
assess_elsewhere = refl

assess-IsSupported_example :
    IsSupported
      (λ s. s)
      "203.0.113.7"
      packet
      (assess (λ s. s) (λ s. s == "web-01") packet (some "203.0.113.7"))
assess-IsSupported_example = assess-IsSupported (λ s. s) (λ s. s == "web-01") packet "203.0.113.7"

abbrev settings : Value ℕ
settings = obj (
    entry "automatic" (bool true) (
      entry "rules" (arr (cons (str "repeated_login_failures") nil)) (
        entry "windows" (obj (entry "critical" (int (pos 0)) (entry "high" (int (pos 120)) end)))
          end)))

abbrev pub policy : Policy
policy = record {
  automatic = true;
  rules = "repeated_login_failures" ∷ [];
  windows = record { critical_window = 0; high_window = 120; medium_window = 1800 };
}

settings-policy : response_policy settings ≡ some policy
unfolding response_policy policy_from set_windows set_window rule_list known_keys get require
settings-policy = refl

response_policy-IsBounded_example : IsBounded policy
response_policy-IsBounded_example = response_policy-IsBounded settings policy settings-policy

-- a high deadline before the critical one
abbrev misordered : Value ℕ
misordered =
    obj (
      entry "windows" (obj (entry "critical" (int (pos 60)) (entry "high" (int (pos 10)) end))) end)

settings_misordered : response_policy misordered ≡ none
unfolding response_policy policy_from set_windows set_window rule_list known_keys get require
settings_misordered = refl

abbrev pub verified : Assessment
verified = record {
  route = Route.verified_critical;
  rule = some "malware_process_network";
  required_facts = "F1" ∷ "F2" ∷ [];
}

abbrev hypothesis : String → Value ℕ
hypothesis kind = obj (
    entry "kind" (str kind) (
      entry "summary" (str "s")
        (entry "supports" (arr (cons (str "F2") nil)) (entry "against" (arr nil) end))))

abbrev assertion : String → String → String → Value ℕ
assertion id field value =
    obj (entry "fact_id" (str id) (entry "field" (str field) (entry "value" (str value) end)))

abbrev brief : String → Entries ℕ
brief origin = entry "action" (str "block_ip") (
    entry "confidence" (int (pos 1)) (
      entry "assessment" (str "a") (
        entry "evidence" (str "a") (
          entry "gaps" (str "a") (
            entry "recommendation" (str "a") (
              entry "alternatives" (str "a") (
                entry "recovery" (str "a") (
                  entry "urgency" (str "a") (
                    entry "hypotheses"
                      (arr (cons (hypothesis "malicious") (cons (hypothesis "benign") nil)))
                      (entry "assertions"
                        (arr (
                          cons (assertion "F1" "dst_ip" "203.0.113.7")
                            (cons (assertion "F2" "origin" origin) nil)))
                        (entry "target" (str "203.0.113.7") end)))))))))))

accepted_brief :
    validate (obj (brief "defender")) packet verified (some "203.0.113.7") ≡ some (brief "defender")
unfolding validate grounded_block cite_all cite value_at fact_at kinds_of hypothesis_kind get_value
    get strip require listed
accepted_brief = refl

-- a brief that misquotes the origin of the detection
misquoted_brief : validate (obj (brief "sysmon")) packet verified (some "203.0.113.7") ≡ none
unfolding validate grounded_block cite_all cite value_at fact_at kinds_of hypothesis_kind get_value
    get strip require listed
misquoted_brief = refl

validate-IsGrounded_example : IsGrounded packet verified (some "203.0.113.7") (brief "defender")
unfolding get_value get
validate-IsGrounded_example =
    validate-IsGrounded packet verified (some "203.0.113.7") (brief "defender") (brief "defender")
      accepted_brief refl
