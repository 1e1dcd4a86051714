-- ===== src/Telemetry/Legacy.antt =====
-- arbiter/ingestion/schema.py: the brain's form of an event.

use arbiter_ai.Base.{String, Option, none, some, ◌==◌, if◌then◌else◌, ◌>>=◌}
use arbiter_ai.Values.{
  Value, null, str, obj, Entries, end, entry, Runtime, get_value, equals, truthy,
}
use arbiter_ai.Schema.{Event}
use arbiter_ai.Telemetry.{SecurityEvent}
use arbiter_ai.Telemetry.Evidence.{Builtins, tool_finding, get_or}

module _ {F : Type 0} where
  -- `d.pop(key, None)`; a dict has a key once
  unfoldable pub pop : String → Entries F → Entries F
  pop key end = end
  pop key (entry k v rest) =
      let others = pop key rest in if k == key then others else entry k v others

  -- `d[key] = v`
  unfoldable pub put : String → Value F → Entries F → Entries F
  put key v end = entry key v end
  put key v (entry k w rest) = if k == key then entry k v rest else entry k w (put key v rest)

  -- a field that is neither empty nor None
  abbrev put_text : String → String → Entries F → Entries F
  put_text key s d = if s == "" then d else put key (str s) d

  abbrev put_port : String → Value F → Entries F → Entries F
  put_port key null d = d
  put_port key (str s) d = put_text key s d
  put_port key v d = put key v d

  -- the fields that are copied from the event
  unfoldable pub copied : SecurityEvent F → Entries F → Entries F
  copied e d = put_text "resource_id" e.resource_id (
      put_text "cloud_account" e.cloud_account (
        put_text "file_hash" e.file_hash (
          put_text "file_path" e.file_path (
            put_text "command_line" e.command_line (
              put_text "parent_process" e.parent_process (
                put_text "process_id" e.process_id (
                  put_text "process_name" e.process_name (
                    put_text "user_id" e.user_id (
                      put_text "username" e.username (
                        put_port "dst_port" e.dst_port (
                          put_port "src_port" e.src_port
                            (put_text "dst_ip" e.dst_ip (put_text "src_ip" e.src_ip d)))))))))))))

  -- the names by which the guardrails know some of them
  unfoldable pub renamed : SecurityEvent F → Entries F → Entries F
  renamed e d =
      put_text "process" e.process_name (put_text "path" e.file_path (put_text "user" e.username d))

  -- the marks that no payload may bring
  unfoldable pub cleaned : Entries F → Entries F
  cleaned d =
      pop "_collector_activity"
        (pop "_context_signature" (pop "_tool_finding" (pop "_telemetry" d)))

  abbrev pub put_finding : Option (Entries F) → Entries F → Entries F
  put_finding none d = d
  put_finding (some f) d = put "_tool_finding" (obj f) d

  abbrev pub put_source : SecurityEvent F → Entries F → Entries F
  put_source e d =
      if equals (get_value "normalized_by" e.metadata) "legacy"
      then d
      else put "_telemetry"
          (obj (entry "source" (str e.source_type) (entry "category" (str e.event_category) end))) d

module _ {F : Type 0} ⦃py : Runtime F⦄ where
  abbrev pub put_correlation : SecurityEvent F → Entries F → Entries F
  put_correlation e d =
      let found = get_value "correlation" e.metadata in
      if truthy found then put "correlation" found d else d

  abbrev pub legacy_fields : SecurityEvent F → Option (Entries F) → Entries F → Entries F
  legacy_fields e finding d = put_correlation e (put_source e (put_finding finding d))

  -- `SecurityEvent.to_event`
  unfoldable pub to_event : Builtins F → SecurityEvent F → Option (Event F)
  to_event builtins e = do
    legacy ← builtins.to_dict (get_or (obj end) "legacy_fields" e.metadata)
    finding ← tool_finding builtins e
    some (record {
      source = e.source_type;
      host = e.hostname;
      event_type = e.event_type;
      message = e.message;
      severity = e.severity;
      timestamp = e.timestamp;
      id = e.event_id;
      fields = legacy_fields e finding (cleaned (renamed e (copied e legacy)));
    })
