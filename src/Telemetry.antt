-- ===== src/Telemetry.antt =====
-- arbiter/ingestion/schema.py: the telemetry contract between the adapters and the brain. `none` is
-- an exception.
pub mod Contract
pub mod Evidence
pub mod Legacy
pub mod Provenance
use Prim.Native.String.{len, slice}
use arbiter_ai.Base.{
  ℕ, zero, suc, ◌+◌, ◌-◌, ◌*◌, String, Bool, true, false, not, ◌&&◌, ◌||◌, Option, none, some, List,
  [], ◌∷◌, ◌==◌, eqb, leb, if◌then◌else◌, any, all, length, member, ◌>>=◌, ◌>>◌, require,
  starts_with,
}
use arbiter_ai.Base.Decimal.{decimal, numeral}
use arbiter_ai.Base.Text.{lower, strip, strip_quotes, contains, after}
use arbiter_ai.Values.{
  Value, null, bool, int, float, str, arr, obj, pos, Entries, end, entry, Runtime, get, get_value,
  as_dict, entries_of, equals, is_true, truthy,
}
use arbiter_ai.Schema.{Event}

-- `src_port` and `dst_port` are what a caller gives until the constructor has checked them.
pub record SecurityEvent (F : Type 0) : Type 0 where
  pub source_type : String
  pub hostname : String
  pub event_type : String
  pub message : String
  pub schema_version : String
  pub event_id : String
  pub timestamp : String
  pub received_at : String
  pub source_vendor : String
  pub source_product : String
  pub device_id : String
  pub username : String
  pub user_id : String
  pub src_ip : String
  pub src_port : Value F
  pub dst_ip : String
  pub dst_port : Value F
  pub protocol : String
  pub process_name : String
  pub process_id : String
  pub parent_process : String
  pub command_line : String
  pub file_path : String
  pub file_hash : String
  pub event_category : String
  pub action : String
  pub severity : F
  pub raw_event : Value F
  pub cloud_provider : String
  pub cloud_account : String
  pub region : String
  pub resource_id : String
  pub rule_name : String
  pub rule_id : String
  pub tags : List String
  pub metadata : Entries F

-- What the constructor takes from Python's library: `uuid4().hex`, `timestamp` at the two moments at
-- which it is called, `str(ipaddress.ip_address(v))`, and the bytes of the event's JSON text.
pub record Platform (F : Type 0) : Type 0 where
  pub fresh_id : String
  pub timestamp : String → Option String
  pub reception : String → Option String
  pub address : String → Option String
  pub json_bytes : SecurityEvent F → ℕ

abbrev pub max_text : ℕ
max_text = 32768

abbrev pub max_event_bytes : ℕ
max_event_bytes = 262144

abbrev pub max_port : ℕ
max_port = 65535

abbrev pub is_short : String → Bool
is_short s = leb (len s) max_text

module _ {F : Type 0} where
  -- The loop over the fields that must be texts; their types make them texts here.
  unfoldable pub texts : SecurityEvent F → List String
  texts e =
      e.source_type ∷ e.hostname ∷ e.event_type ∷ e.message ∷ e.schema_version ∷ e.event_id
      ∷ e.timestamp ∷ e.received_at ∷ e.source_vendor ∷ e.source_product ∷ e.device_id ∷ e.username
      ∷ e.user_id ∷ e.src_ip ∷ e.dst_ip ∷ e.protocol ∷ e.process_name ∷ e.process_id
      ∷ e.parent_process ∷ e.command_line ∷ e.file_path ∷ e.file_hash ∷ e.event_category ∷ e.action
      ∷ e.cloud_provider ∷ e.cloud_account ∷ e.region ∷ e.resource_id ∷ e.rule_name ∷ e.rule_id ∷ []

  -- a number that a port may have
  abbrev in_ports : ℕ → Option (Value F)
  in_ports n = if leb n max_port then some (int (pos n)) else none

  -- The check of a port: a text stands for a number only in the spelling of `str(n)`.
  unfoldable pub checked_port : Value F → Option (Value F)
  checked_port null = some null
  checked_port (int (pos n)) = in_ports n
  checked_port (str s) =
      if s == "" || s == "-"
      then some null
      else elim (numeral s) [ none ↦ none | some n ↦ if decimal n == s then in_ports n else none ]
  checked_port _ = none

module _ {F : Type 0} (platform : Platform F) where
  abbrev pub or_fresh : String → String
  or_fresh s = if s == "" then platform.fresh_id else s

  -- the check of an address
  unfoldable pub checked_address : String → Option String
  checked_address s =
      if s == "" || member s ("-" ∷ "::" ∷ "unknown" ∷ []) then some "" else platform.address s

module _ {F : Type 0} ⦃py : Runtime F⦄ (platform : Platform F) where
  abbrev pub severity_ok : F → Bool
  severity_ok x = py.finite x && (py.le (py.lit 0 1) x && py.le x (py.lit 10 1))

  -- the event with the fields that the constructor sets
  abbrev pub built :
      SecurityEvent F → String → String → String → String → Value F → Value F → SecurityEvent F
  built e time received src dst src_port dst_port = record e {
    event_id = or_fresh platform e.event_id;
    timestamp = time;
    received_at = received;
    src_ip = src;
    dst_ip = dst;
    src_port = src_port;
    dst_port = dst_port;
  }

  -- `SecurityEvent.__post_init__`
  unfoldable pub checked : SecurityEvent F → Option (SecurityEvent F)
  checked e = do
    require (e.schema_version == "1.0")
    require (leb (length e.tags) 100)
    require (all is_short (texts e))
    require (not (e.source_type == "" || (e.hostname == "" || e.event_type == "")))
    time ← platform.timestamp e.timestamp
    received ← platform.reception e.received_at
    require (severity_ok e.severity)
    src ← checked_address platform e.src_ip
    dst ← checked_address platform e.dst_ip
    src_port ← checked_port e.src_port
    dst_port ← checked_port e.dst_port
    let made : SecurityEvent F = built e time received src dst src_port dst_port
    require (leb (platform.json_bytes made) max_event_bytes)
    some made
