-- ===== src/Correlation.antt =====
-- arbiter/ingestion/correlation.py: the rules that relate an event to the recent ones. `none` is an
-- exception.
pub mod Malware
pub mod Earlier
pub mod Sources
use arbiter_ai.Base.{
  ℕ, String, Bool, true, false, not, ◌&&◌, ◌||◌, Option, none, some, List, [], ◌∷◌, ◌++◌, ◌==◌, map,
  leb, if◌then◌else◌, any, keep, take, length, member, is_some, ◌>>=◌,
}
use arbiter_ai.Base.Text.{lower, strip, strip_quotes, contains}
use arbiter_ai.Values.{
  get, Value, null, bool, int, float, str, arr, obj, pos, negsuc, Runtime, get_value, equals,
  truthy,
}
use arbiter_ai.Guardrails.{guardrail_check}
use arbiter_ai.Telemetry.{SecurityEvent}
use arbiter_ai.Telemetry.Evidence.{Builtins, artifact, get_or}
use arbiter_ai.Telemetry.Legacy.{to_event}

-- a finding of `correlate`; `verified_tool_source` is False where the rule does not set it
pub record Match (F : Type 0) : Type 0 where
  pub rule : String
  pub events : List String
  pub severity : F
  pub verified_tool_source : Bool
  pub reason : String

abbrev pub nonempty {ℓ} : {A : Type ℓ} → List A → Bool
nonempty [] = false
nonempty (x ∷ xs) = true

module _ {F : Type 0} where
  unfoldable pub identity_match : SecurityEvent F → SecurityEvent F → Bool
  identity_match e p =
      if not (p.user_id == "")
        && (not (e.user_id == "") && not (p.user_id == "S-1-0-0" || e.user_id == "S-1-0-0"))
      then p.user_id == e.user_id
      else not (p.username == "") && p.username == e.username

  -- `same_identity`
  unfoldable pub same_identity : SecurityEvent F → List (SecurityEvent F) → List (SecurityEvent F)
  same_identity e = keep (λ p.
      p.hostname == e.hostname && (identity_match e p && (e.src_ip == "" || p.src_ip == e.src_ip)))

  abbrev pub of_type : String → List (SecurityEvent F) → List (SecurityEvent F)
  of_type kind = keep (λ p. p.event_type == kind)

  abbrev pub ids : List (SecurityEvent F) → List String
  ids = map (λ p. p.event_id)

  -- `p` shares the account or an address with the event
  abbrev shares_account : SecurityEvent F → SecurityEvent F → Bool
  shares_account e p = not (e.cloud_account == "") && e.cloud_account == p.cloud_account

  abbrev shares_address : SecurityEvent F → SecurityEvent F → Bool
  shares_address e p = not (e.src_ip == "") && (e.src_ip == p.src_ip || e.src_ip == p.dst_ip)

  abbrev pub found : Bool → Match F → List (Match F)
  found b m = if b then m ∷ [] else []

module _ {F : Type 0} ⦃py : Runtime F⦄ where
  abbrev pub plain : String → List String → F → String → Match F
  plain rule events severity reason = record {
    rule = rule;
    events = events;
    severity = severity;
    verified_tool_source = false;
    reason = reason;
  }

  -- `v >= 2`, which raises for anything but a number
  abbrev at_least_two : Value F → Option Bool
  at_least_two (bool b) = some false
  at_least_two (int (pos n)) = some (leb 2 n)
  at_least_two (int (negsuc n)) = some false
  at_least_two (float x) = some (py.le (py.lit 2 1) x)
  at_least_two _ = none

  abbrev pub sustained_match : SecurityEvent F → Match F
  sustained_match e =
      plain "sustained_cpu_temporary_network" (e.event_id ∷ []) (py.lit 8 1)
        "Repeated local CPU samples, a temporary executable path and same-process TCP activity; not proof of malware"

  abbrev pub samples : SecurityEvent F → Option Bool
  samples e = at_least_two (get_or (int (pos 0)) "consecutive_high_samples" e.metadata)

  abbrev pub risk_match : List (SecurityEvent F) → Match F
  risk_match risky =
      plain "suspicious_process_network" (ids risky) (py.lit 8 1)
        "Outbound connection by a process with an existing guardrail signal"

  unfoldable pub sustained : SecurityEvent F → Option (List (Match F))
  sustained e =
      if e.source_type == "local_process" && e.event_type == "process_network_risk"
      then (do high ← samples e; some (found high (sustained_match e)))
      else some []

  abbrev pub failures : SecurityEvent F → List (SecurityEvent F) → List (SecurityEvent F)
  failures e previous = of_type "auth_failure" (same_identity e previous)

  abbrev pub enough_failures : SecurityEvent F → List (SecurityEvent F) → Bool
  enough_failures e previous =
      member e.event_type ("auth_failure" ∷ "auth_success" ∷ [])
      && leb (if e.event_type == "auth_failure" then 4 else 5) (length (failures e previous))

  abbrev pub login_match : SecurityEvent F → List (SecurityEvent F) → Match F
  login_match e previous =
      plain
        (if e.event_type == "auth_failure"
          then "repeated_login_failures"
          else "failed_then_successful_login")
        (ids (take 20 (failures e previous))) (py.lit 7 1)
        "Repeated failures for the same host, account and source within five minutes"

  unfoldable pub logins : SecurityEvent F → List (SecurityEvent F) → List (Match F)
  logins e previous = found (enough_failures e previous) (login_match e previous)

  unfoldable pub new_user : SecurityEvent F → List (SecurityEvent F) → List (Match F)
  new_user e previous =
      let created = of_type "user_created" (same_identity e previous) in
      found (e.event_type == "group_change" && nonempty created) (
        plain "new_user_group_change" (ids created) (py.lit 6 1)
          "New account followed by group membership change; review privilege context")

  unfoldable pub cloud_logins : SecurityEvent F → List (SecurityEvent F) → List (Match F)
  cloud_logins e previous =
      let entered = of_type "auth_success" (same_identity e previous) in
      found (e.event_type == "iam_change" && nonempty entered) (
        plain "cloud_login_iam_change" (ids entered) (py.lit 5 1)
          "Cloud login followed by IAM changes; no geographic baseline assumed")

  -- `max` of the severities: it keeps the first of the largest ones
  abbrev worst : F → List (SecurityEvent F) → F
  worst x [] = x
  worst x (p ∷ ps) = worst (if py.lt x p.severity then p.severity else x) ps

  abbrev worst_of : List (SecurityEvent F) → F
  worst_of [] = py.lit 0 1
  worst_of (p ∷ ps) = worst p.severity ps

  unfoldable pub tool_findings : SecurityEvent F → List (SecurityEvent F) → List (Match F)
  tool_findings e previous =
      let findings =
        keep
          (λ p.
            member p.event_type ("cloud_finding" ∷ "network_alert" ∷ [])
            && (p.hostname == e.hostname || (shares_address e p || shares_account e p)))
          previous in
      found (nonempty findings && not (member e.source_type ("guardduty" ∷ "suricata" ∷ []))) (
        plain "tool_finding_related_activity" (ids (take 20 findings)) (worst_of findings)
          "Recent tool finding shares asset, account or IP")

  unfoldable pub related_activity : SecurityEvent F → List (SecurityEvent F) → List (Match F)
  related_activity e previous =
      let activity =
        keep
          (λ p.
            not (p.source_type == e.source_type)
            && (p.hostname == e.hostname || (shares_account e p || shares_address e p)))
          previous in
      found (member e.event_type ("cloud_finding" ∷ "network_alert" ∷ []) && nonempty activity) (
        plain "activity_related_tool_finding" (ids (take 20 activity)) e.severity
          "Tool finding shares account, asset or IP with recent activity")
