-- ===== src/Guardrails.antt =====
-- arbiter/guardrails.py: the deterministic rules around the model. The detectors stand in Access and
-- Behaviour, their regular expressions in Patterns.
mod Patterns
pub mod Fields
pub mod Access
mod Behaviour
pub mod First
pub mod Downgrade
use arbiter_ai.Base.{
  String, Bool, true, false, ◌&&◌, Option, none, some, List, [], ◌∷◌, ◌==◌, any, if◌then◌else◌,
}
use arbiter_ai.Base.Text.{lower, contains, replace_char}
use arbiter_ai.Values.{Runtime}
use arbiter_ai.Schema.{Event}
use Fields.{has, field_text}
use Access.{high_priority_tool_finding, internet_exposure, credential_access, privilege_expansion}
use Behaviour.{
  download_execute, integrity_change, data_exfil, lolbin, supply_chain, ransomware,
  impossible_travel,
}

pub record GuardrailHit : Type 0 where
  pub code : String
  pub name : String
  pub reason : String

pub record Rule (F : Type 0) : Type 0 where
  pub hit : GuardrailHit
  pub predicate : Event F → Bool

module _ {F : Type 0} where
  rule : String → String → String → (Event F → Bool) → Rule F
  rule code name reason predicate = record {
    hit = record { code = code; name = name; reason = reason };
    predicate = predicate;
  }

  -- The loop of `guardrail_check` over the rules. A predicate of the model raises nothing.
  pub first_hit : List (Rule F) → Event F → Option GuardrailHit
  first_hit [] e = none
  first_hit (r ∷ rs) e = let rest = first_hit rs e in if r.predicate e then some r.hit else rest

module _ {F : Type 0} ⦃py : Runtime F⦄ where
  pub rules : List (Rule F)
  unfolding rule
  rules =
      rule "NON_SUPPRESSIBLE_TOOL_FINDING" "high_priority_tool_finding"
        "a high-priority security-tool finding requires review; benign history or model confidence cannot dismiss it"
        high_priority_tool_finding
      ∷ rule "NON_SUPPRESSIBLE_EXPOSURE" "internet_exposure"
          "exposing a sensitive service to a broad/public scope is never a benign maintenance side-effect"
          internet_exposure
      ∷ rule "NON_SUPPRESSIBLE_CRED_ACCESS" "credential_access"
          "access to credential material (shadow/SAM/ntds/lsass) is always escalated"
          credential_access
      ∷ rule "NON_SUPPRESSIBLE_PRIVESC" "privilege_expansion"
          "creation or elevation of a privileged account (uid-0/wheel/sudo/admin) is always escalated"
          privilege_expansion
      ∷ rule "NON_SUPPRESSIBLE_DOWNLOAD_EXEC" "download_execute"
          "download-and-execute (pipe-to-shell or fetch-then-run) is never benign" download_execute
      ∷ rule "NON_SUPPRESSIBLE_INTEGRITY" "integrity_change"
          "a binary/integrity change not confirmed by the package manager can't be excused by a maintenance window"
          integrity_change
      ∷ rule "NON_SUPPRESSIBLE_EXFIL" "data_exfil"
          "data leaving to an external or file-sharing destination is never routine sync/backup traffic"
          data_exfil
      ∷ rule "NON_SUPPRESSIBLE_LOLBIN" "lolbin"
          "a living-off-the-land binary (certutil/wmic/rundll32/mshta/powershell) used to download or run code is escalated"
          lolbin
      ∷ rule "NON_SUPPRESSIBLE_SUPPLYCHAIN" "supply_chain"
          "a package install/postinstall script that reaches the network is a supply-chain risk"
          supply_chain
      ∷ rule "NON_SUPPRESSIBLE_RANSOMWARE" "ransomware"
          "mass file rename/encryption is ransomware behaviour regardless of extension or how signed the binary looks"
          ransomware
      ∷ rule "NON_SUPPRESSIBLE_IMPOSSIBLE_TRAVEL" "impossible_travel"
          "one account authenticating from two locations in an impossible timeframe is account takeover, never routine maintenance"
          impossible_travel
      ∷ []

  unfoldable pub guardrail_check : Event F → Option GuardrailHit
  unfolding first_hit rules
  guardrail_check = first_hit rules

-- `_norm`
unfoldable pub norm : String → String
unfolding lower replace_char
norm s = replace_char b'-' " " (lower s)

pub marker_groups : List (List String)
marker_groups =
    ("uid 0" ∷ "uid0" ∷ [])
    ∷ ("wheel" ∷ [])
    ∷ ("sudo" ∷ "sudoers" ∷ [])
    ∷ ("root" ∷ [])
    ∷ ("admin" ∷ "administrators" ∷ "administratoraccess" ∷ "domain admin" ∷ [])
    ∷ ("privileged" ∷ "elevated" ∷ [])
    ∷ []

-- one marker group stands in the message and in the fact
pub shared_marker : String → String → Bool
unfolding has marker_groups
shared_marker m f = any (λ group. has m group && has f group) marker_groups

module _ {F : Type 0} ⦃py : Runtime F⦄ where
  unfoldable pub corroborates_privesc : Event F → String → Bool
  unfolding has norm contains field_text shared_marker
  corroborates_privesc e fact =
      let f = norm fact in
      if contains f (norm e.host)
      then if field_text "uid" e == "0" && has f ("uid 0" ∷ "uid0" ∷ [])
        then true
        else shared_marker (norm e.message) f
      else false

  -- the loop of `fact_downgrade`
  pub first_corroborating : Event F → List String → Option String
  first_corroborating e [] = none
  first_corroborating e (fact ∷ facts) =
      let rest = first_corroborating e facts in
      if corroborates_privesc e fact then some fact else rest

  -- `_DOWNGRADE_CORROBORATORS` has the one rule.
  unfoldable pub fact_downgrade : GuardrailHit → Event F → List String → Option String
  unfolding first_corroborating
  fact_downgrade hit e facts =
      if hit.name == "privilege_expansion" then first_corroborating e facts else none

-- what a run of the guardrails computes with
unfoldable pub guardrail_run : Unit {0}
unfolding guardrail_check high_priority_tool_finding internet_exposure credential_access
    privilege_expansion download_execute integrity_change data_exfil lolbin supply_chain ransomware
    impossible_travel fact_downgrade corroborates_privesc
guardrail_run = tt
