-- ===== src/Prefilter.antt =====
-- arbiter/prefilter.py: the cheap first tier. It reads histories, which fills the memory's cache, so
-- each function takes the memory and gives it back.
pub mod Exact
pub mod Safety
use Prim.Native.Nat.{min}
use arbiter_ai.Base.{
  ℕ, ◌+◌, String, Bool, true, false, not, ◌&&◌, ◌||◌, Option, none, some, List, [], ◌∷◌, ◌==◌, ◌<>◌,
  any, member, leb, eqb, if◌then◌else◌, is_some,
}
use arbiter_ai.Base.Decimal.{decimal}
use arbiter_ai.Base.Text.{lower, strip, strip_quotes, replace_char}
use arbiter_ai.Values.{
  Runtime, Value, Entries, get_value, is_dict, entries_of, is_true, equals, truthy, is_zero,
}
use arbiter_ai.Schema.{Event, Decision, escalate, suppress, ambiguous, signature, clamp}
use arbiter_ai.Guardrails.Fields.{field_text, raw_text}
use arbiter_ai.Memory.{Memory, SignatureHistory, history, asset_criticality, false_positive_rate}

pub record PrefilterResult (F : Type 0) : Type 0 where
  pub decision : Decision
  pub score : F
  pub rationale : String

abbrev pub min_history : ℕ
min_history = 5

abbrev pub max_fp_escalations : ℕ
max_fp_escalations = 0

module _ {F : Type 0} where
  -- `event.fields.get("_context_signature")`: the pipeline puts a text there or nothing
  abbrev context_text : Value F → Option String
  context_text (Value.str s) = if s == "" then none else some s
  context_text _ = none

  unfoldable pub context_of : Event F → Option String
  unfolding get_value
  context_of e = context_text (get_value "_context_signature" e.fields)

  -- `context or event.signature`
  unfoldable pub history_key : Event F → String
  history_key e = elim (context_of e) [ some c ↦ c | none ↦ signature e ]

  -- `isinstance(event.fields.get("_telemetry"), dict)`
  unfoldable pub has_telemetry : Event F → Bool
  has_telemetry e = is_dict (get_value "_telemetry" e.fields)

  -- The history of the event may count towards a suppression.
  abbrev pub trusted : Event F → Bool
  trusted e = is_some (context_of e) || not (has_telemetry e)

passive_attachments : List String
passive_attachments =
    "attachment_devices_present" ∷ "attachment_interfaces_present" ∷ "attachment_neighbors_present"
    ∷ "attachment_devices_removed" ∷ "attachment_interfaces_removed"
    ∷ "attachment_neighbors_removed" ∷ []

passive_windows : List String
passive_windows =
    "auth_success" ∷ "auth_failure" ∷ "logout" ∷ "dns_query" ∷ "network_connection" ∷ "file_create"
    ∷ "image_load" ∷ "system_log" ∷ []

shells : List String
shells =
    "c:\\windows\\system32\\cmd.exe"
    ∷ "c:\\windows\\system32\\windowspowershell\\v1.0\\powershell.exe" ∷ []

module _ {F : Type 0} ⦃py : Runtime F⦄ where
  -- an unadorned launch of a standard shell
  unfoldable pub plain_shell : Event F → Bool
  unfolding lower field_text raw_text replace_char strip_quotes shells
  plain_shell e =
      let process = replace_char b'/' "\\" (lower (raw_text "process_name" e)) in
      let command = lower (strip_quotes (field_text "command_line" e)) in
      member process shells && member command ("" ∷ process ∷ "cmd.exe" ∷ "powershell.exe" ∷ [])

  -- The kinds of observation that are routine for a source.
  unfoldable pub routine_kind : Value F → Event F → Bool
  unfolding get_value passive_attachments passive_windows
  routine_kind source e =
      let kind = e.event_type in
      let windows = equals source "windows" || equals source "sysmon" in
      if equals source "attachments" && member kind passive_attachments
      then true
      else if equals source "sysmon"
          && kind == "process_exec"
          && is_true (get_value "_collector_activity" e.fields)
      then true
      else if equals source "windows_security" && kind == "security_posture" && is_zero e.severity
      then true
      else if equals source "osquery" && kind == "asset_snapshot"
      then true
      else if equals source "cloudtrail" && kind == "cloud_read"
      then true
      else if equals source "suricata"
          && member kind ("dns" ∷ "http" ∷ "tls" ∷ "flow" ∷ "fileinfo" ∷ [])
      then true
      else if equals source "syslog" && kind == "syslog_message" && py.le e.severity (py.lit 1 1)
      then true
      else if windows && member kind passive_windows
      then true
      else windows && kind == "process_exec" && plain_shell e

  unfoldable pub routine_telemetry : Event F → Bool
  routine_telemetry e =
      let provenance = get_value "_telemetry" e.fields in
      if not (is_dict provenance)
        || truthy (get_value "correlation" e.fields)
        || py.lt (py.lit 2 1) e.severity
      then false
      else routine_kind (get_value "source" (entries_of provenance)) e

  -- the factor that a history puts on the score
  unfoldable pub modifier : Bool → SignatureHistory → F
  modifier trust h =
      let decayed = py.sub (py.lit 1 1) (py.mul (py.lit 5 10) (false_positive_rate h)) in
      let base = if leb min_history h.total && trust then decayed else py.lit 1 1 in
      py.add base (py.mul (py.lit 3 10) (py.lit (min h.overruled 3) 1))

  unfoldable pub score_event : Event F → Memory F → F × Memory F
  score_event e m =
      let criticality = asset_criticality e.host m in
      let (h, m') = history (history_key e) m in
      (clamp (py.mul (py.mul e.severity criticality) (modifier (trusted e) h)), m')

  -- the overruled suppressions of the whole signature, if the event has a context of its own
  broad_overrule : Event F → Memory F → ℕ × Memory F
  broad_overrule e m = elim (context_of e) [
    | none ↦ (0, m)
    | some c ↦ let (h, m') = history (signature e) m in (h.overruled, m')
  ]

  routine_rationale : Event F → String
  routine_rationale e =
      if is_true (get_value "_collector_activity" e.fields)
      then "Arbiter-owned fixed read-only query: exact command and parent matched; no new detection or correlation signal"
      else "Routine telemetry observation: no detection or correlation signal; retained in Live Events"

  -- the tests of `prefilter`, in their order
  unfoldable pub decide : Event F → F → SignatureHistory → ℕ → F → PrefilterResult F
  unfolding routine_rationale
  decide e score h broad criticality =
      let shown = py.fixed 1 score in
      let exact : String =
        if is_some (context_of e)
        then "Exact native process hash, command, user, parent and environment context; "
        else "" in
      if routine_telemetry e
      then record { decision = suppress; score = score; rationale = routine_rationale e }
      else if py.le (py.lit 7 1) score
      then record {
        decision = escalate;
        score = score;
        rationale =
            "score "
            <> (shown
                <> (" >= 7.0 (severity "
                    <> (py.shown e.severity
                        <> (", asset criticality " <> (py.shown criticality <> ")")))));
      }
      else if py.lt score (py.lit 3 1)
          && leb min_history h.total
          && leb h.escalated (h.false_alarms + max_fp_escalations)
          && eqb h.overruled 0
          && trusted e
          && eqb broad 0
      then record {
        decision = suppress;
        score = score;
        rationale =
            exact
            <> ("score "
                <> (shown
                    <> (" < 3.0; signature seen "
                        <> (decimal h.total <> "x, always benign, never overruled"))));
      }
      else record {
        decision = ambiguous;
        score = score;
        rationale =
            "score "
            <> (shown
                <> (" in ambiguous band or insufficient history ("
                    <> (decimal h.total <> " prior verdicts) — deferring to LLM tier")));
      }

  unfoldable pub prefilter : Event F → Memory F → PrefilterResult F × Memory F
  unfolding broad_overrule
  prefilter e m =
      let (score, m') = score_event e m in
      let (h, m'') = history (history_key e) m' in
      let (broad, m''') = broad_overrule e m'' in
      (decide e score h broad (asset_criticality e.host m'''), m''')

-- what a run of the prefilter computes with
unfoldable pub prefilter_run : Unit {0}
unfolding context_of history_key has_telemetry plain_shell routine_kind routine_telemetry modifier
    score_event broad_overrule routine_rationale decide prefilter clamp signature decimal truthy
prefilter_run = tt
