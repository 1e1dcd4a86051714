-- ===== src/Protection/Proposals.antt =====
-- arbiter/ingestion/protection.py: which block a finding supports.

use arbiter_ai.Base.{
  String, Bool, true, false, not, ◌&&◌, ◌||◌, Option, none, some, List, [], ◌∷◌, ◌==◌,
  if◌then◌else◌, any, member,
}
use arbiter_ai.Values.{Runtime}
use arbiter_ai.Correlation.{Match}
use arbiter_ai.Containment.{Addresses, Scope, permits}
use arbiter_ai.Protection.{Analysis, Finding, Machine, is_scoped}

module _ {F : Type 0} where
  abbrev pub is_supported : Match F → Bool
  is_supported m = m.rule == "malware_process_network" && m.verified_tool_source

  -- The rules of the correlations; that of malware counts only if a tool's own collector brought it.
  abbrev pub has_rule : String → List (Match F) → Bool
  has_rule rule ms =
      any (λ m. m.rule == rule) ms
      && (not (rule == "malware_process_network") || any is_supported ms)

  abbrev pub is_done : Finding F → Bool
  is_done row = row.state == "done"

  abbrev is_staged : Finding F → Bool
  is_staged row = member "demo" row.event.tags || member "replay" row.event.tags

module _ {F N : Type 0} where
  abbrev known_source : Option (Scope N) → Finding F → Bool
  known_source none row = member row.connector ("windows" ∷ "sysmon" ∷ [])
  known_source (some s) row =
      member row.connector ("windows" ∷ "sysmon" ∷ "linux_auth" ∷ "local_process" ∷ [])

  abbrev network_rule : Option (Scope N) → Finding F → List (Match F) → Bool
  network_rule scope row ms =
      has_rule "suspicious_process_network" ms
      || (has_rule "malware_process_network" ms
          || (is_scoped scope
              && (row.connector == "local_process"
                  && has_rule "sustained_cpu_temporary_network" ms)))

  abbrev pub target_of : Option (Scope N) → Finding F → List (Match F) → String
  target_of scope row ms =
      if has_rule "repeated_login_failures" ms
      then row.event.src_ip
      else if network_rule scope row ms
      then row.event.dst_ip
      else ""

module _ {A N : Type 0} (ip : Addresses A N) where
  abbrev pub may_block : Option (Scope N) → String → Bool
  may_block (some s) target = permits ip s target
  may_block none target = elim (ip.ip_address target) [ none ↦ false | some a ↦ ip.is_global a ]

module _ {F A N : Type 0} ⦃py : Runtime F⦄ (ip : Addresses A N) (machine : Machine F) where
  abbrev is_young : Option F → Bool
  is_young none = false
  is_young (some age) = py.le (py.lit 0 1) age && py.le age (py.lit 300 1)

  -- A scoped adapter takes only fresh evidence of this very host.
  abbrev is_local : Option (Scope N) → Finding F → Bool
  is_local none row = true
  is_local (some s) row =
      machine.casefold row.event.hostname == machine.casefold machine.hostname
      && is_young (machine.age row.event.timestamp)

  abbrev is_this_host : Finding F → Bool
  is_this_host row =
      machine.first_label (machine.casefold row.event.hostname)
      == machine.first_label (machine.casefold machine.hostname)

  abbrev pub is_offered : Option (Scope N) → Finding F → Analysis F → Bool
  is_offered scope row analysis =
      analysis.decision == "escalate"
      && (not (is_staged row)
          && (known_source scope row
              && (is_local scope row
                  && (is_this_host row
                      && may_block ip scope (target_of scope row analysis.correlation)))))

  abbrev pub offered : Option (Scope N) → Finding F → Analysis F → Option String
  offered scope row analysis =
      if is_offered scope row analysis
      then some (target_of scope row analysis.correlation)
      else none

  -- the target of `proposal`, whose other entries are constants
  unfoldable pub proposal : Option (Scope N) → Option (Finding F) → Option String
  proposal scope none = none
  proposal scope (some row) = elim row.analysis [
    | none ↦ none
    | some analysis ↦ if is_done row then offered scope row analysis else none
  ]
