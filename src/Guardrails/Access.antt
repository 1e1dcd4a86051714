-- ===== src/Guardrails/Access.antt =====
-- The detectors of arbiter/guardrails.py for exposure, credentials, privileges and tool findings.
use arbiter_ai.Base.{
  String, Bool, true, false, not, ◌&&◌, ◌||◌, none, some, List, [], ◌∷◌, ◌==◌, member,
  if◌then◌else◌,
}
use arbiter_ai.Base.Text.{lower}
use arbiter_ai.Values.{
  Runtime, Value, Entries, get, get_value, is_dict, entries_of, is_true, equals,
}
use arbiter_ai.Schema.{Event}
use arbiter_ai.Guardrails.Fields.{has, field_text}

sensitive_ports : List String
sensitive_ports =
    "22" ∷ "23" ∷ "3389" ∷ "5432" ∷ "3306" ∷ "1433" ∷ "6379" ∷ "27017" ∷ "9200" ∷ "5984" ∷ []

sensitive_services : List String
sensitive_services =
    "rdp" ∷ "ssh" ∷ "postgres" ∷ "mysql" ∷ "mssql" ∷ "redis" ∷ "mongo" ∷ "database" ∷ "db "
    ∷ "winrm" ∷ "smb" ∷ "telnet" ∷ []

broad_scope : List String
broad_scope =
    "0.0.0.0/0" ∷ "0.0.0.0" ∷ "::/0" ∷ "allow all" ∷ "from any" ∷ "any source" ∷ "all ports"
    ∷ "anywhere" ∷ "to the internet" ∷ "public internet" ∷ "0.0.0.0/1" ∷ "/1 " ∷ "/0 " ∷ []

exposure_types : List String
exposure_types =
    "firewall_change" ∷ "security_group_change" ∷ "port_open" ∷ "acl_change" ∷ "network_acl"
    ∷ "ingress_change" ∷ []

module _ {F : Type 0} ⦃py : Runtime F⦄ where
  unfoldable pub internet_exposure : Event F → Bool
  unfolding has lower field_text exposure_types broad_scope sensitive_ports sensitive_services
  internet_exposure e =
      let m = lower e.message in
      let broad = has m broad_scope || member (field_text "cidr" e) ("0.0.0.0/0" ∷ "::/0" ∷ []) in
      let web = has m ("443" ∷ "80" ∷ "http" ∷ "https" ∷ "web" ∷ []) in
      let other = has m sensitive_ports || has m sensitive_services || has m ("all ports" ∷ []) in
      if not (member e.event_type exposure_types)
      then false
      else if not broad
      then false
      else if web && not other
      then false
      else true

module _ {F : Type 0} where
  unfoldable pub credential_access : Event F → Bool
  unfolding has lower
  credential_access e =
      let m = lower e.message in
      if has m (
        "mimikatz" ∷ "lsass" ∷ "ntds.dit" ∷ "ntds" ∷ "sam dump" ∷ "reg save" ∷ "secretsdump"
        ∷ "credential dump" ∷ "/etc/shadow" ∷ "shadow.bak" ∷ "hashdump" ∷ "dcsync" ∷ [])
      then true
      else if has m ("shadow" ∷ [])
          && has m ("read" ∷ "copy" ∷ "dump" ∷ "cat" ∷ "exfil" ∷ "/tmp" ∷ "crack" ∷ [])
      then true
      else has m ("passwd" ∷ []) && has m ("shadow" ∷ "crack" ∷ "dump" ∷ "exfil" ∷ [])

abbrev privilege_types : List String
privilege_types =
    "user_created" ∷ "account_created" ∷ "iam_change" ∷ "role_grant" ∷ "group_change"
    ∷ "priv_escalation" ∷ []

module _ {F : Type 0} ⦃py : Runtime F⦄ where
  unfoldable pub privilege_expansion : Event F → Bool
  unfolding has lower field_text
  privilege_expansion e =
      if not (member e.event_type privilege_types)
      then false
      else if field_text "uid" e == "0"
      then true
      else has (lower e.message) (
          "uid 0" ∷ "wheel" ∷ "sudo group" ∷ "sudoers" ∷ "admin" ∷ "administrators" ∷ "domain admin"
          ∷ "root group" ∷ "root" ∷ "administratoraccess" ∷ "privileged" ∷ "elevated" ∷ [])

abbrev tool_sources : List String
tool_sources =
    "defender" ∷ "wazuh" ∷ "suricata" ∷ "guardduty" ∷ "windows_security" ∷ "osquery" ∷ "attachments"
    ∷ []

module _ {F : Type 0} where
  unfoldable pub high_priority_tool_finding : Event F → Bool
  unfolding get_value get
  high_priority_tool_finding e =
      let finding = get_value "_tool_finding" e.fields in
      let provenance : Value F = elim (get "_telemetry" e.fields) [
        | none ↦ Value.obj Entries.end
        | some v ↦ v
      ] in
      let found = entries_of finding in
      is_dict finding
      && is_dict provenance
      && member e.source tool_sources
      && (equals (get_value "source" found) e.source
          && equals (get_value "source" (entries_of provenance)) e.source)
      && equals (get_value "type" found) e.event_type
      && is_true (get_value "high_priority" found)
