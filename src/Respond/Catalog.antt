-- ===== src/Respond/Catalog.antt =====
-- The planners of arbiter/respond.py: what they propose for an escalated event.
pub mod Safe
use arbiter_ai.Base.{
  ℕ, String, Bool, true, false, Option, none, some, List, [], ◌∷◌, ◌++◌, ◌<>◌, ◌==◌, if◌then◌else◌,
}
use arbiter_ai.Values.{Runtime, get_value, truthy, text_of}
use arbiter_ai.Schema.{Event}

pub data ActionKind : Type 0 where
  block_ip kill_session lock_account kill_process quarantine_host engage_edge : ActionKind

-- What a planner returns for one action. The target is the text that `plan` makes of it.
pub record Proposal : Type 0 where
  pub kind : ActionKind
  pub target : String
  pub ttl_minutes : Option ℕ
  pub command : String
  pub reason : String
  pub auto_safe : Bool

abbrev pub block_ttl : ℕ
block_ttl = 60

abbrev drop_source : String → String
drop_source ip = "nft add element inet arbiter blocked { " <> (ip <> " timeout 60m }")

module _ {F : Type 0} ⦃py : Runtime F⦄ where
  -- `event.fields.get(key)`, as a text, if it is truthy
  unfoldable pub named : String → Event F → Option String
  named key e = let v = get_value key e.fields in if truthy v then some (text_of v) else none

  pub plan_bruteforce : Event F → List Proposal
  plan_bruteforce e = elim (named "src_ip" e) [
    | none ↦ []
    | some ip ↦
        record {
          kind = block_ip;
          target = ip;
          ttl_minutes = some block_ttl;
          command = drop_source ip;
          reason = "brute force from " <> (ip <> "; drop that source for 60m");
          auto_safe = true;
        }
        ∷ []
  ]

  pub geo_account : Event F → List Proposal
  geo_account e = elim (named "user" e) [
    | none ↦ []
    | some user ↦
        record {
          kind = kill_session;
          target = user;
          ttl_minutes = none;
          command = "loginctl terminate-user " <> user;
          reason = "terminate active session for " <> (user <> " after anomalous geo login");
          auto_safe = true;
        }
        ∷ record {
          kind = lock_account;
          target = user;
          ttl_minutes = none;
          command = "usermod --lock " <> user;
          reason = "lock " <> (user <> " pending re-authentication (held until human review)");
          auto_safe = true;
        }
        ∷ []
  ]

  pub geo_source : Event F → List Proposal
  geo_source e = elim (named "src_ip" e) [
    | none ↦ []
    | some ip ↦
        record {
          kind = block_ip;
          target = ip;
          ttl_minutes = some block_ttl;
          command = drop_source ip;
          reason = "block anomalous login source " <> (ip <> " for 60m");
          auto_safe = true;
        }
        ∷ []
  ]

  pub plan_geo : Event F → List Proposal
  plan_geo e = geo_account e ++ geo_source e

  pub mass_process : Event F → List Proposal
  mass_process e = elim (named "binary" e) [
    | none ↦ []
    | some binary ↦
        record {
          kind = kill_process;
          target = binary;
          ttl_minutes = none;
          command = "pkill -KILL -f " <> binary;
          reason = "kill mass-rename process " <> (binary <> " immediately");
          auto_safe = true;
        }
        ∷ []
  ]

  pub plan_ransomware : Event F → List Proposal
  plan_ransomware e =
      mass_process e
      ++ (record {
        kind = quarantine_host;
        target = e.host;
        ttl_minutes = some block_ttl;
        command = "arbiter-agent quarantine " <> (e.host <> " --ttl 60m");
        reason = "isolate " <> (e.host <> " from the network while files are inspected");
        auto_safe = true;
      }
          ∷ [])

  pub plan_rogue_account : Event F → List Proposal
  plan_rogue_account e = elim (named "user" e) [
    | none ↦ []
    | some user ↦
        record {
          kind = lock_account;
          target = user;
          ttl_minutes = none;
          command = "usermod --lock " <> user;
          reason = "lock suspicious new account " <> (user <> " (held until human review)");
          auto_safe = true;
        }
        ∷ []
  ]

module _ {F : Type 0} where
  pub plan_tampered_binary : Event F → List Proposal
  plan_tampered_binary e =
      record {
        kind = quarantine_host;
        target = e.host;
        ttl_minutes = none;
        command = "arbiter-agent quarantine " <> e.host;
        reason =
            "tampered system binary on "
            <> (e.host <> "; isolation is a human call (may take production down)");
        auto_safe = false;
      }
      ∷ []

  pub plan_flood : Event F → List Proposal
  plan_flood e =
      record {
        kind = engage_edge;
        target = e.host;
        ttl_minutes = none;
        command = "edge-provider enable under-attack mode";
        reason = "volumetric flood: engage edge protection (rate limit / challenge)";
        auto_safe = false;
      }
      ∷ []

  pub plan_conn_exhaustion : Event F → List Proposal
  plan_conn_exhaustion e =
      record {
        kind = block_ip;
        target = "offending connection sources";
        ttl_minutes = some block_ttl;
        command = "nft add rule inet arbiter input ct count over 20 counter drop";
        reason = "cap per-source connections on " <> (e.host <> " for 60m");
        auto_safe = true;
      }
      ∷ []

-- `CATALOG.get(event.event_type)` with the planner called: no entry proposes nothing
module _ {F : Type 0} ⦃py : Runtime F⦄ where
  unfoldable pub proposals : Event F → List Proposal
  unfolding plan_bruteforce plan_geo geo_account geo_source mass_process plan_ransomware
      plan_tampered_binary plan_flood plan_conn_exhaustion plan_rogue_account
  proposals e =
      if e.event_type == "auth_bruteforce"
      then plan_bruteforce e
      else if e.event_type == "geo_impossible_travel"
      then plan_geo e
      else if e.event_type == "geo_anomaly_login"
      then plan_geo e
      else if e.event_type == "mass_file_rename"
      then plan_ransomware e
      else if e.event_type == "file_integrity"
      then plan_tampered_binary e
      else if e.event_type == "request_flood"
      then plan_flood e
      else if e.event_type == "syn_flood"
      then plan_flood e
      else if e.event_type == "conn_exhaustion"
      then plan_conn_exhaustion e
      else if e.event_type == "user_created"
      then plan_rogue_account e
      else []
