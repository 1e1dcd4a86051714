-- ===== src/Tests/Alerts.antt =====
-- Runs of the telemetry contract and the correlation, and their theorems at concrete inputs.
use arbiter_ai.Base.{ℕ, ◌≡◌, refl, Bool, true, false, none, some, [], ◌∷◌, require}
use arbiter_ai.Base.Decimal.{decimal, numeral}
use arbiter_ai.Values.{
  Value, Entries, int, pos, str, obj, null, bool, float, entry, end, get, get_value, truthy, equals,
}
use arbiter_ai.Schema.{Event}
use arbiter_ai.Guardrails.Access.{high_priority_tool_finding}
use arbiter_ai.Telemetry.{SecurityEvent, Platform, checked, checked_port, checked_address, texts}
use arbiter_ai.Telemetry.Contract.{IsChecked, checked-IsChecked}
use arbiter_ai.Telemetry.Evidence.{Builtins, tool_finding, reported_high}
use arbiter_ai.Telemetry.Legacy.{to_event, put, pop, copied, renamed, cleaned}
use arbiter_ai.Telemetry.Provenance.{tool_rail-Derived}
use arbiter_ai.Correlation.{Match}
use arbiter_ai.Tests.Fixtures.{thousandths}

abbrev pub plain_event : SecurityEvent ℕ
plain_event = record {
  source_type = "wazuh";
  hostname = "web-01";
  event_type = "network_alert";
  message = "alert";
  schema_version = "1.0";
  event_id = "e1";
  timestamp = "2026-01-02T10:00:00+00:00";
  received_at = "2026-01-02T10:00:01+00:00";
  source_vendor = "";
  source_product = "";
  device_id = "";
  username = "eve";
  user_id = "";
  src_ip = "203.0.113.7";
  src_port = null;
  dst_ip = "";
  dst_port = null;
  protocol = "";
  process_name = "";
  process_id = "";
  parent_process = "";
  command_line = "";
  file_path = "";
  file_hash = "";
  event_category = "alert";
  action = "";
  severity = 5000;
  raw_event = null;
  cloud_provider = "";
  cloud_account = "";
  region = "";
  resource_id = "";
  rule_name = "";
  rule_id = "100";
  tags = [];
  metadata = end;
}

abbrev pub builtins : Builtins ℕ
builtins = record {
  to_dict = λ v. elim v [ Value.obj d ↦ some d | _ ↦ none ];
  to_float = λ v. none;
  windows_path = λ s. s;
}

abbrev platform : Platform ℕ
platform = record {
  fresh_id = "f";
  timestamp = λ s. some s;
  reception = λ s. some s;
  address = λ s. some s;
  json_bytes = λ e. 900;
}

-- an upload that claims a finding and gives its port as a text
abbrev upload : SecurityEvent ℕ
upload = record plain_event {
  src_port = str "443";
  dst_ip = "unknown";
  metadata = entry "normalized_by" (str "wazuh") (
      entry "wazuh_level" (int (pos 13)) (
        entry "legacy_fields"
          (obj (entry "_tool_finding" (str "fake") (entry "_collector_activity" (bool true) end)))
          end));
}

abbrev accepted : SecurityEvent ℕ
accepted = record upload { src_port = int (pos 443); dst_ip = "" }

checked-upload : checked platform upload ≡ some accepted
unfolding checked require checked_port checked_address texts numeral decimal
checked-upload = refl

checked-IsChecked_example : IsChecked platform accepted
checked-IsChecked_example = checked-IsChecked platform upload accepted checked-upload

abbrev wazuh_finding : Entries ℕ
wazuh_finding = entry "source" (str "wazuh") (
    entry "high_priority" (bool true) (
      entry "type" (str "network_alert") (
        entry "rule_id" (str "100") (
          entry "name" (str "")
            (entry "source_severity" (float 5000) (entry "reported_action" (str "") end))))))

abbrev legacy_form : Event ℕ
legacy_form = record {
  source = "wazuh";
  host = "web-01";
  event_type = "network_alert";
  message = "alert";
  severity = 5000;
  timestamp = "2026-01-02T10:00:00+00:00";
  id = "e1";
  fields = entry "src_ip" (str "203.0.113.7") (
      entry "src_port" (int (pos 443)) (
        entry "username" (str "eve") (
          entry "user" (str "eve") (
            entry "_tool_finding" (obj wazuh_finding) (
              entry "_telemetry"
                (obj (entry "source" (str "wazuh") (entry "category" (str "alert") end))) end)))));
}

-- The payload's own marks are gone, and the adapter's finding stands in their place.
accepted_form : to_event builtins accepted ≡ some legacy_form
unfolding to_event copied renamed cleaned put pop tool_finding reported_high get get_value truthy
accepted_form = refl

rail_fires : high_priority_tool_finding legacy_form ≡ true
unfolding high_priority_tool_finding
rail_fires = refl

tool_rail-Derived_example :
    (equals (get_value "normalized_by" accepted.metadata) "wazuh" ≡ true)
    × (reported_high builtins accepted ≡ some (some true))
tool_rail-Derived_example = tool_rail-Derived builtins accepted legacy_form accepted_form rail_fires

-- a connection of the program that Defender found
abbrev connection : SecurityEvent ℕ
connection = record plain_event {
  source_type = "sysmon";
  event_type = "network_connection";
  process_name = "/tmp/drop.exe";
  metadata = end;
}

abbrev detection : SecurityEvent ℕ
detection = record plain_event {
  source_type = "defender";
  event_type = "malware_detection";
  event_id = "d1";
  file_path = "file:_/tmp/drop.exe";
  metadata = entry "_collector_origin" (str "defender") end;
}

abbrev same_text : Value ℕ → Value ℕ → Bool
same_text v w = elim v [ Value.str s ↦ equals w s | _ ↦ false ]

abbrev malware_match : Match ℕ
malware_match = record {
  rule = "malware_process_network";
  events = "d1" ∷ [];
  severity = 9000;
  verified_tool_source = true;
  reason =
      "Activity by the exact executable associated with a recent Defender malware detection on this host";
}
