-- ===== src/Correlation/Malware.antt =====
-- arbiter/ingestion/correlation.py: the rules about detected malware and risky processes, and all rules
-- together.
use arbiter_ai.Base.{
  Bool, not, ◌&&◌, ◌||◌, Option, some, List, [], ◌∷◌, ◌++◌, ◌==◌, if◌then◌else◌, any, keep, take,
  member, is_some, ◌>>=◌,
}
use arbiter_ai.Base.Text.{lower, strip, strip_quotes, contains}
use arbiter_ai.Values.{get, Value, Runtime, get_value, equals, truthy}
use arbiter_ai.Guardrails.{guardrail_check}
use arbiter_ai.Telemetry.{SecurityEvent}
use arbiter_ai.Telemetry.Evidence.{Builtins, artifact}
use arbiter_ai.Telemetry.Legacy.{to_event}
use arbiter_ai.Correlation.{
  Match, cloud_logins, found, identity_match, ids, logins, new_user, nonempty, plain,
  related_activity, risk_match, same_identity, sustained, tool_findings,
}

module _ {F : Type 0} where
  abbrev pub is_collected : SecurityEvent F → Bool
  is_collected p = equals (get_value "_collector_origin" p.metadata) "defender"

module _ {F : Type 0} (builtins : Builtins F) where
  -- the detections of malware in the event's own executable
  unfoldable pub detections : SecurityEvent F → List (SecurityEvent F) → List (SecurityEvent F)
  detections e =
      let path = artifact builtins.windows_path e.process_name in
      keep (λ p.
        p.hostname == e.hostname
        && (p.source_type == "defender"
            && (p.event_type == "malware_detection"
                && (not (path == "") && path == artifact builtins.windows_path p.file_path))))

module _ {F : Type 0} ⦃py : Runtime F⦄ (builtins : Builtins F) where
  -- `[p for p in processes if guardrail_check(p.to_event())]`
  unfoldable pub hot : List (SecurityEvent F) → Option (List (SecurityEvent F))
  hot [] = some []
  hot (p ∷ ps) = do
    legacy ← to_event builtins p
    rest ← hot ps
    some (if is_some (guardrail_check legacy) then p ∷ rest else rest)

  unfoldable pub malware : SecurityEvent F → List (SecurityEvent F) → List (Match F)
  malware e previous =
      let detected = detections builtins e previous in
      found (member e.event_type ("network_connection" ∷ "process_exec" ∷ []) && nonempty detected)
        (record {
          rule =
              if e.event_type == "network_connection"
              then "malware_process_network"
              else "malware_process_execution";
          events = ids (take 20 detected);
          severity = py.lit 9 1;
          verified_tool_source = any is_collected detected;
          reason =
              "Activity by the exact executable associated with a recent Defender malware detection on this host";
        })

  unfoldable pub malware_activity : SecurityEvent F → List (SecurityEvent F) → List (Match F)
  malware_activity e previous =
      let path = artifact builtins.windows_path e.file_path in
      let activity =
        keep
          (λ p.
            p.hostname == e.hostname
            && (p.source_type == "sysmon"
                && (member p.event_type ("process_exec" ∷ "network_connection" ∷ [])
                    && (not (path == "")
                        && artifact builtins.windows_path p.process_name == path))))
          previous in
      found
        (e.source_type == "defender" && (e.event_type == "malware_detection" && nonempty activity))
        (plain "malware_related_process_activity" (ids (take 20 activity)) (py.lit 9 1)
          "Defender malware detection matches recent Sysmon executable activity; no remediation assumed")

module _ {F : Type 0} ⦃py : Runtime F⦄ (same_value : Value F → Value F → Bool) where
  -- the earlier starts of the event's own process
  unfoldable pub processes : SecurityEvent F → List (SecurityEvent F) → List (SecurityEvent F)
  processes e = keep (λ p.
      p.hostname == e.hostname
      && (p.event_type == "process_exec"
          && (not (p.process_id == "")
              && (p.process_id == e.process_id
                  && (not (truthy (get_value "process_guid" p.metadata))
                      || same_value (get_value "process_guid" p.metadata)
                          (get_value "process_guid" e.metadata))))))

module _ {F : Type 0} ⦃py : Runtime F⦄ (builtins : Builtins F)
    (same_value : Value F → Value F → Bool) where
  unfoldable pub risky_process : SecurityEvent F → List (SecurityEvent F) → Option (List (Match F))
  risky_process e previous =
      if e.event_type == "network_connection"
      then (do
        risky ← hot builtins (processes same_value e previous)
        some (found (nonempty risky) (risk_match risky)))
      else some []

  -- the list of the matches, in the order of the rules
  abbrev pub matches :
      SecurityEvent F → List (SecurityEvent F) → List (Match F) → List (Match F) → List (Match F)
  matches e previous first risky =
      first
      ++ (logins e previous
          ++ (new_user e previous
              ++ (risky
                  ++ (malware builtins e previous
                      ++ (malware_activity builtins e previous
                          ++ (cloud_logins e previous
                              ++ (tool_findings e previous ++ related_activity e previous)))))))

  unfoldable pub correlate : SecurityEvent F → List (SecurityEvent F) → Option (List (Match F))
  correlate e previous = do
    first ← sustained e
    risky ← risky_process e previous
    some (matches e previous first risky)

-- what a run computes with
unfoldable pub correlation_run : Unit {0}
unfolding identity_match same_identity sustained logins new_user cloud_logins tool_findings
    related_activity detections malware malware_activity processes hot risky_process correlate
    artifact lower strip strip_quotes contains get get_value truthy
correlation_run = tt
