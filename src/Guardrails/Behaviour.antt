-- ===== src/Guardrails/Behaviour.antt =====
-- The detectors of arbiter/guardrails.py for execution, integrity, transfer, tools, packages, mass
-- changes and travel.
use arbiter_ai.Base.{
  String, Bool, true, false, not, ◌&&◌, ◌||◌, none, some, List, [], ◌∷◌, ◌==◌, starts_with, any,
  member, if◌then◌else◌,
}
use arbiter_ai.Base.Text.{lower, strip}
use arbiter_ai.Values.{Runtime, get_value, is_true, at_least, below}
use arbiter_ai.Schema.{Event}
use arbiter_ai.Guardrails.Patterns.{fetch_piped, destination}
use arbiter_ai.Guardrails.Fields.{has, field_text, either_text}

module _ {F : Type 0} where
  unfoldable pub download_execute : Event F → Bool
  unfolding has lower fetch_piped
  download_execute e =
      let m = lower e.message in
      let downloaded = has m ("download" ∷ "curl" ∷ "wget" ∷ "fetch" ∷ "urlcache" ∷ []) in
      let executed = has m (
        "chmod +x" ∷ "then execut" ∷ "executed /tmp" ∷ "ran /tmp" ∷ "&& ./" ∷ "; ./" ∷ "chmod 755"
        ∷ []) in
      if fetch_piped m
      then true
      else if has m
          ("reverse shell" ∷ "nc -e" ∷ "bash -i" ∷ "/dev/tcp/" ∷ "powershell -enc" ∷ "| sh -" ∷ [])
      then true
      else downloaded && executed

  unfoldable pub integrity_change : Event F → Bool
  unfolding has lower
  integrity_change e =
      let m = lower e.message in
      let confirmed = has m (
        "package manager confirms" ∷ "apt confirms" ∷ "confirmed update" ∷ "confirms update"
        ∷ "signed by" ∷ "verified update" ∷ "matches package" ∷ "package confirms" ∷ []) in
      if not (member e.event_type ("file_integrity" ∷ "binary_change" ∷ "integrity" ∷ []))
      then false
      else if confirmed
      then false
      else has m (
          "binary" ∷ "sshd" ∷ "executable" ∷ "hash changed" ∷ "checksum" ∷ ".so" ∷ "/usr/" ∷ "/bin/"
          ∷ "/sbin/" ∷ "vmlinuz" ∷ ".dll" ∷ [])

internal : List String
internal =
    "10." ∷ "192.168." ∷ "172.16." ∷ "172.17." ∷ "172.18." ∷ "172.19." ∷ "172.2" ∷ "172.30."
    ∷ "172.31." ∷ "nas-01" ∷ "known backup host" ∷ "internal" ∷ []

external_sinks : List String
external_sinks =
    "dropbox" ∷ "mega.nz" ∷ "pastebin" ∷ "anonfiles" ∷ "transfer.sh" ∷ "s3.amazonaws.com"
    ∷ "blob.core" ∷ "storage.googleapis" ∷ "wetransfer" ∷ "file.io" ∷ "0x0.st" ∷ []

abbrev transfer_types : List String
transfer_types =
    "data_upload" ∷ "data_transfer" ∷ "egress" ∷ "dns_exfil" ∷ "data_exfiltration" ∷ "s3_download"
    ∷ []

module _ {F : Type 0} ⦃py : Runtime F⦄ where
  unfoldable pub data_exfil : Event F → Bool
  unfolding has lower either_text destination internal external_sinks
  data_exfil e =
      let m = lower e.message in
      let ip = either_text "src_ip" "dst" e in
      let named : String = elim (destination m) [ none ↦ "" | some group ↦ group ] in
      let dest = if ip == "" then named else ip in
      let private = any (starts_with dest) ("10." ∷ "192.168." ∷ "172." ∷ []) in
      if not (member e.event_type transfer_types)
      then false
      else if e.event_type == "dns_exfil"
          || has m (
              "dns tunnel" ∷ "exfil" ∷ "unknown dest" ∷ "unknown destination" ∷ "unrecognized"
              ∷ "external" ∷ [])
      then true
      else if has m external_sinks
      then true
      else not (dest == "")
        && not (has dest internal)
        && not (has m ("known backup" ∷ "to nas-01" ∷ []))
        && not private

lolbins : List String
lolbins =
    "certutil" ∷ "bitsadmin" ∷ "mshta" ∷ "regsvr32" ∷ "rundll32" ∷ "wmic" ∷ "cscript" ∷ "wscript"
    ∷ "installutil" ∷ "msbuild" ∷ "powershell" ∷ "psexec" ∷ []

lolbin_context : List String
lolbin_context =
    "urlcache" ∷ "-urlcache" ∷ "http://" ∷ "https://" ∷ "download" ∷ "-enc" ∷ "-encodedcommand"
    ∷ "encoded" ∷ "downloadstring" ∷ "iex" ∷ "/transfer" ∷ "process call create" ∷ "javascript:"
    ∷ "scrobj" ∷ ".hta" ∷ "-nop" ∷ "-w hidden" ∷ "hidden" ∷ "bypass" ∷ "base64" ∷ "unusual"
    ∷ "-split -f" ∷ []

module _ {F : Type 0} where
  unfoldable pub lolbin : Event F → Bool
  unfolding has lower get_value lolbins lolbin_context
  lolbin e =
      let m = lower e.message in
      if e.source == "sysmon"
        && e.event_type == "process_exec"
        && is_true (get_value "_collector_activity" e.fields)
      then false
      else if not (has m lolbins)
      then false
      else has m lolbin_context

  unfoldable pub supply_chain : Event F → Bool
  unfolding has lower
  supply_chain e =
      let m = lower e.message in
      let installer = has m (
        "postinstall" ∷ "preinstall" ∷ "install script" ∷ "npm install" ∷ "pip install"
        ∷ "gem install" ∷ "setup.py" ∷ "package script" ∷ "lifecycle script" ∷ []) in
      if not installer
      then false
      else has m (
          "curl" ∷ "wget" ∷ "download" ∷ "fetch" ∷ "http://" ∷ "https://" ∷ "registered"
          ∷ "new domain" ∷ "pastebin" ∷ "raw.github" ∷ "execute" ∷ "network" ∷ [])

abbrev mass_types : List String
mass_types = "mass_file_rename" ∷ "file_encrypt" ∷ "mass_delete" ∷ "mass_modify" ∷ []

module _ {F : Type 0} ⦃py : Runtime F⦄ where
  unfoldable pub ransomware : Event F → Bool
  unfolding has lower get_value at_least
  ransomware e =
      let m = lower e.message in
      if not (member e.event_type mass_types)
      then false
      else if at_least 100 (get_value "count" e.fields)
      then true
      else has m ("renamed" ∷ "re-saved" ∷ "encrypted" ∷ "files" ∷ [])
        && has m (
            "000" ∷ "hundred" ∷ "thousand" ∷ "many" ∷ "mass" ∷ "1," ∷ "2," ∷ "3," ∷ "4," ∷ "5,"
            ∷ "6," ∷ "7," ∷ "8," ∷ "9," ∷ [])

  unfoldable pub impossible_travel : Event F → Bool
  unfolding field_text either_text strip get_value below
  impossible_travel e =
      let geo = field_text "geo" e in
      let prev = strip (either_text "prev_geo" "usual_geo" e) in
      if e.event_type == "geo_impossible_travel"
      then true
      else not (geo == "")
        && not (prev == "")
        && not (geo == prev)
        && below 60 (get_value "gap_minutes" e.fields)
