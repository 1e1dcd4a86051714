-- ===== src/Correlation/Sources.antt =====
-- What the correlations that may lead to an action rest on.
use arbiter_ai.Base.{◌≤◌, ◌≡◌, ◌≢◌, Bool, true, List, length, All, Among}
use arbiter_ai.Values.{Value, Runtime, str, get_value}
use arbiter_ai.Telemetry.{SecurityEvent}
use arbiter_ai.Telemetry.Evidence.{Builtins, artifact}
use arbiter_ai.Correlation.{Match}
use arbiter_ai.Correlation.Earlier.{Picked, IsEarlier}

module _ {F : Type 0} ⦃py : Runtime F⦄ (builtins : Builtins F)
    (same_value : Value F → Value F → Bool) (e : SecurityEvent F)
    (previous : List (SecurityEvent F)) where
  -- a detection of malware in the executable of the event, which the collector of Defender brought
  pub record IsSource (p : SecurityEvent F) : Type 0 where
    pub recent : Among p previous
    pub host : p.hostname ≡ e.hostname
    pub detects : p.event_type ≡ "malware_detection"
    pub defender : p.source_type ≡ "defender"
    pub collected : get_value "_collector_origin" p.metadata ≡ str "defender"
    pub executable :
        artifact builtins.windows_path e.process_name ≡ artifact builtins.windows_path p.file_path
    pub known : artifact builtins.windows_path e.process_name ≢ ""

  pub record IsBacked (m : Match F) : Type 0 where
    pub verified : m.verified_tool_source ≡ true → (p : SecurityEvent F) × IsSource p
    pub repeated :
        m.rule ≡ "repeated_login_failures"
        → (e.event_type ≡ "auth_failure")
          × (ps : List (SecurityEvent F)) × (4 ≤ length ps)
          × Picked ps previous
          × All (IsEarlier e previous) ps
