-- ===== src/Telemetry/Evidence.antt =====
-- arbiter/ingestion/evidence.py: the names of files, and the findings of tools. `none` is an
-- exception.
use Prim.Native.String.{slice}
use arbiter_ai.Base.{
  ℕ, String, Bool, false, not, ◌&&◌, ◌||◌, Option, none, some, List, [], ◌∷◌, ◌==◌, eqb, leb,
  if◌then◌else◌, any, member, ◌>>=◌, starts_with,
}
use arbiter_ai.Base.Text.{lower, strip, strip_quotes, contains, after}
use arbiter_ai.Values.{
  Value, bool, int, float, str, arr, obj, pos, Entries, end, entry, Runtime, get, get_value,
  entries_of, equals, is_true, truthy,
}
use arbiter_ai.Telemetry.{SecurityEvent}

-- What the readers of an event take from it: `dict(v)`, `float(v)`, and
-- `str(PureWindowsPath(s)).casefold()`.
pub record Builtins (F : Type 0) : Type 0 where
  pub to_dict : Value F → Option (Entries F)
  pub to_float : Value F → Option F
  pub windows_path : String → String

-- `artifact` of evidence.py
unfoldable pub artifact : (String → String) → String → String
artifact windows_path value =
    let bare = strip_quotes (strip value) in
    let path = if starts_with (lower bare) "file:_" then after bare "file:_" else bare in
    if path == "" || (contains path ";" || starts_with (lower path) "containerfile:")
    then ""
    else if contains path "\\" || slice path 1 2 == ":"
    then windows_path path
    else path

module _ {F : Type 0} where
  -- `d.get(key, default)`
  abbrev pub get_or : Value F → String → Entries F → Value F
  get_or default key d = elim (get key d) [ none ↦ default | some v ↦ v ]

module _ {F : Type 0} ⦃py : Runtime F⦄ where
  abbrev pub float_is : ℕ → F → Bool
  float_is n x = py.le x (py.lit n 1) && py.le (py.lit n 1) x

  -- `v in {...}` for a set of numbers above 1: a list and a dict cannot be hashed.
  abbrev pub in_numbers : List ℕ → Value F → Option Bool
  in_numbers ns (int (pos n)) = some (any (eqb n) ns)
  in_numbers ns (float x) = some (any (λ n. float_is n x) ns)
  in_numbers ns (arr vs) = none
  in_numbers ns (obj d) = none
  in_numbers ns _ = some false

  -- `type(v) is not bool and v in (1, "1")`
  abbrev pub is_one : Value F → Bool
  is_one (int (pos n)) = eqb n 1
  is_one (float x) = float_is 1 x
  is_one (str s) = s == "1"
  is_one _ = false

  -- `isinstance(v, int) and not isinstance(v, bool) and v >= 12`
  abbrev pub is_severe_level : Value F → Bool
  is_severe_level (int (pos n)) = leb 12 n
  is_severe_level _ = false

  -- `type(v) is not bool and 7 <= float(v) <= 10`, and False where `float` raises
  abbrev pub is_severe_number : Builtins F → Value F → Bool
  is_severe_number builtins (bool b) = false
  is_severe_number builtins v = elim (builtins.to_float v) [
    | none ↦ false
    | some x ↦ py.le (py.lit 7 1) x && py.le x (py.lit 10 1)
  ]

  -- the `high` of `tool_finding`; a source with no branch has no finding
  unfoldable pub reported_high : Builtins F → SecurityEvent F → Option (Option Bool)
  unfolding get
  reported_high builtins e =
      if e.source_type == "defender"
      then (do
        high ←
            in_numbers (1116 ∷ 1118 ∷ 1119 ∷ 1121 ∷ 5001 ∷ 5010 ∷ 5012 ∷ [])
              (get_value "windows_event_id" e.metadata)
        some (some high))
      else if e.source_type == "wazuh"
      then some (some (is_severe_level (get_or (int (pos 0)) "wazuh_level" e.metadata)))
      else if e.source_type == "suricata"
      then (let alert = get_or (obj end) "alert" (entries_of e.raw_event) in
          some (
            some (
              e.event_type == "network_alert" && is_one (get_value "severity" (entries_of alert)))))
      else if e.source_type == "guardduty"
      then some (
          some
            (is_severe_number builtins (get_or (int (pos 0)) "Severity" (entries_of e.raw_event))))
      else if e.source_type == "windows_security"
      then some (some (truthy (get_value "protection_gaps" e.metadata)))
      else if e.source_type == "osquery"
      then some (some (truthy (get_value "security_findings" e.metadata)))
      else if e.source_type == "attachments"
      then some (
          some (
            is_true (get_value "review_required" (entries_of (get_value "attachment" e.metadata)))
            && member e.event_type ("removable_process_exec" ∷ "local_peer_connection" ∷ [])))
      else some none

  -- `tool_finding`: an exception, or None, or the finding
  unfoldable pub tool_finding : Builtins F → SecurityEvent F → Option (Option (Entries F))
  tool_finding builtins e =
      if not (equals (get_value "normalized_by" e.metadata) e.source_type) then some none else (do
        high ← reported_high builtins e
        elim high [
          | none ↦ some none
          | some h ↦ some (
              some (
                entry "source" (str e.source_type) (
                  entry "high_priority" (bool h) (
                    entry "type" (str e.event_type) (
                      entry "rule_id" (str e.rule_id) (
                        entry "name" (str e.rule_name) (
                          entry "source_severity" (float e.severity)
                            (entry "reported_action" (str e.action) end))))))))
        ])
