-- ===== src/Analyst.antt =====
-- arbiter/l2_evidence.py: the packet of facts for the second-level review, and the assessment that is
-- made of it without a model. `none` is an exception.
pub mod Bounds
pub mod Commands
pub mod Guards
pub mod Deadline
pub mod Results
pub mod Tick
pub mod Gathering
pub mod Support
pub mod Policy
pub mod Grounding
pub mod Engine
pub mod Cases
pub mod Due
pub mod Observe
pub mod Growth
pub mod Permitted
pub mod Rounds
pub mod Extensions
use Prim.Native.String.{len}
use arbiter_ai.Base.{
  ℕ, ◌+◌, String, Bool, true, false, not, ◌&&◌, ◌||◌, Option, none, some, List, [], ◌∷◌, ◌++◌, ◌==◌,
  map, leb, ltb, if◌then◌else◌, any, all, keep, take, length, member, find_first, is_empty, is_some,
  ◌>>=◌,
}
use arbiter_ai.Base.Decimal.{decimal}
use arbiter_ai.Base.{◌<>◌}
use arbiter_ai.Values.{Runtime}
use arbiter_ai.Telemetry.{SecurityEvent}
use arbiter_ai.Telemetry.Evidence.{artifact}
use arbiter_ai.Protection.{Finding}

-- a fact of the packet: the copied fields of an event, its number, and where it came from
pub record Fact : Type 0 where
  pub id : String
  pub event_id : String
  pub origin : String
  pub hostname : String
  pub event_type : String
  pub timestamp : String
  pub username : String
  pub user_id : String
  pub src_ip : String
  pub dst_ip : String
  pub process_name : String
  pub process_id : String
  pub file_path : String
  pub action : String

pub record Packet : Type 0 where
  pub host : String
  pub current_event : String
  pub facts : List Fact

-- `(now - datetime.fromisoformat(s)).total_seconds()`, and the length of the JSON text of the facts
pub record Reader (F : Type 0) : Type 0 where
  pub age : String → Option F
  pub json_size : List Fact → ℕ

abbrev pub local_sources : List String
local_sources = "windows" ∷ "sysmon" ∷ "defender" ∷ "linux_auth" ∷ "local_process" ∷ []

-- the values that an overlong text would spoil
unfoldable pub fact_texts : Fact → List String
fact_texts f =
    f.hostname ∷ f.event_type ∷ f.timestamp ∷ f.username ∷ f.user_id ∷ f.src_ip ∷ f.dst_ip
    ∷ f.process_name ∷ f.process_id ∷ f.file_path ∷ f.action ∷ []

module _ {F : Type 0} where
  abbrev pub fact_of : Finding F → ℕ → Fact
  fact_of item n = record {
    id = "F" <> decimal n;
    event_id = item.event.event_id;
    origin = item.connector;
    hostname = item.event.hostname;
    event_type = item.event.event_type;
    timestamp = item.event.timestamp;
    username = item.event.username;
    user_id = item.event.user_id;
    src_ip = item.event.src_ip;
    dst_ip = item.event.dst_ip;
    process_name = item.event.process_name;
    process_id = item.event.process_id;
    file_path = item.event.file_path;
    action = item.event.action;
  }

  -- a row of the host that a collector brought itself
  abbrev pub is_own : String → Finding F → Bool
  is_own host item =
      member item.connector local_sources
      && (item.event.source_type == item.connector
          && (item.event.hostname == host && is_empty item.event.tags))

-- the facts, and the events that were looked at
pub record Observed : Type 0 where
  pub facts : List Fact
  pub seen : List String

module _ {F : Type 0} where
  abbrev pub is_skipped : String → Finding F → Observed → Bool
  is_skipped host item g =
      member item.event.event_id g.seen || (leb 64 (length g.facts) || not (is_own host item))

module _ {F : Type 0} ⦃py : Runtime F⦄ (reader : Reader F) where
  abbrev pub is_within : F → Bool
  is_within age = py.le (py.lit 0 1) age && py.le age (py.lit 300 1)

  -- whether a fact is short enough, and leaves the packet short enough
  abbrev pub fits : Fact → List Fact → Bool
  fits f facts =
      all (λ t. leb (len t) 2048) (fact_texts f)
      && leb (reader.json_size (facts ++ (f ∷ []))) 131072

  abbrev pub added : Finding F → Observed → Observed
  added item g =
      let f = fact_of item (length g.facts + 1) in
      record {
        facts = if fits f g.facts then g.facts ++ (f ∷ []) else g.facts;
        seen = item.event.event_id ∷ g.seen;
      }

  -- one round of the loop
  unfoldable pub observe : String → Finding F → Observed → Option Observed
  observe host item g =
      if is_skipped host item g then some g else elim (reader.age item.event.timestamp) [
        | none ↦ none
        | some age ↦ some (if is_within age then added item g else g)
      ]

  unfoldable pub observe_all : String → List (Finding F) → Observed → Option Observed
  observe_all host [] g = some g
  observe_all host (item ∷ rest) g = observe host item g >>= observe_all host rest

  -- `dossier`, without the digest and the text of the observation
  unfoldable pub dossier : Finding F → List (Finding F) → Option Packet
  dossier row related = do
    g ← observe_all row.event.hostname (row ∷ related) (record { facts = []; seen = [] })
    some (record { host = row.event.hostname; current_event = row.event.event_id; facts = g.facts })

pub data Route : Type 0 where
  investigate reason verified_critical : Route

pub record Assessment : Type 0 where
  pub route : Route
  pub rule : Option String
  pub required_facts : List String

abbrev pub unsupported : Assessment
unsupported = record { route = investigate; rule = none; required_facts = [] }

-- `account`: the security id, else the name, else None
abbrev pub account : Fact → Option String
account f =
    if not (f.user_id == "") && not (f.user_id == "S-1-0-0")
    then some f.user_id
    else if member f.username ("" ∷ "-" ∷ "unknown" ∷ [])
    then none
    else some f.username

abbrev pub same_account : Option String → Option String → Bool
same_account (some s) (some t) = s == t
same_account _ _ = false

-- the failed logins of the current account from the target
unfoldable pub login_failures : Fact → String → List Fact → List Fact
login_failures current target = keep (λ f.
    f.event_type == "auth_failure"
    && (same_account (account f) (account current)
        && (f.src_ip == target && member f.origin ("windows" ∷ "linux_auth" ∷ []))))

-- the detections of malware in the executable of the current event
unfoldable pub malware_facts : (String → String) → Fact → List Fact → List Fact
malware_facts windows_path current = keep (λ f.
    f.origin == "defender"
    && (f.event_type == "malware_detection"
        && (not (artifact windows_path f.file_path == "")
            && artifact windows_path f.file_path == artifact windows_path current.process_name)))

abbrev pub has_malware : Fact → List Fact → Assessment
has_malware current [] = unsupported
has_malware current (f ∷ rest) = record {
  route = verified_critical;
  rule = some "malware_process_network";
  required_facts = current.id ∷ f.id ∷ [];
}

unfoldable pub assess_current : (String → String) → String → Fact → List Fact → Assessment
assess_current windows_path target current facts =
    let failures = login_failures current target facts in
    if current.event_type == "auth_failure" && leb 5 (length failures)
    then record {
      route = reason;
      rule = some "repeated_login_failures";
      required_facts = map (λ (f : Fact). f.id) (take 5 failures);
    }
    else if current.event_type == "network_connection"
        && (current.origin == "sysmon" && current.dst_ip == target)
    then has_malware current (malware_facts windows_path current facts)
    else unsupported

-- `assess`; `is_local` tells whether the packet's host is the machine itself
unfoldable pub assess : (String → String) → (String → Bool) → Packet → Option String → Assessment
assess windows_path is_local packet none = unsupported
assess windows_path is_local packet (some target) =
    elim (find_first (λ (f : Fact). f.event_id == packet.current_event) packet.facts) [
      | none ↦ unsupported
      | some current ↦
          if is_local packet.host
          then assess_current windows_path target current packet.facts
          else unsupported
    ]
