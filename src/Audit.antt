-- ===== src/Audit.antt =====
-- arbiter/store.py: the audit database, with its table as a list of rows in the order of their ids.
pub mod Recovery
use Prim.Native.String.{compare}
use text.Mathlib.Text.{is_lt}
use arbiter_ai.Base.{
  ℕ, zero, suc, ◌+◌, String, Bool, true, false, not, ◌&&◌, ◌||◌, Option, none, some, List, [], ◌∷◌,
  ◌++◌, ◌==◌, ◌<>◌, map, eqb, ltb, if◌then◌else◌, keep, tally, any, take, length,
}
use arbiter_ai.Base.Decimal.{decimal}
use arbiter_ai.Schema.{Event, Verdict, Decision, Tier, decision_value, tier_value, signature}

-- a row of `audit`; `none` is NULL
pub record AuditRow (F : Type 0) : Type 0 where
  pub id : ℕ
  pub ts : String
  pub kind : String
  pub event_id : Option String
  pub host : Option String
  pub signature : Option String
  pub decision : Option String
  pub score : Option F
  pub tier : Option String
  pub rationale : String
  pub evidence : Option String
  pub actor : Option String
  pub detail : String

-- The table, with the last id that `AUTOINCREMENT` gave.
pub record AuditStore (F : Type 0) : Type 0 where
  pub rows : List (AuditRow F)
  pub last_id : ℕ

abbrev pub has_text : String → Option String → Bool
has_text s none = false
has_text s (some t) = t == s

-- an empty filter is no filter
abbrev pub passes : String → Option String → Bool
passes s column = s == "" || has_text s column

module _ {F : Type 0} where
  abbrev pub is_verdict : AuditRow F → Bool
  is_verdict r = r.kind == "verdict"

  -- the row of a verdict, with the JSON text of the event's details
  unfoldable pub verdict_entry : ℕ → Event F → Verdict F → String → AuditRow F
  verdict_entry id e v detail = record {
    id = id;
    ts = v.timestamp;
    kind = "verdict";
    event_id = some e.id;
    host = some e.host;
    signature = some (signature e);
    decision = some (decision_value v.decision);
    score = some v.score;
    tier = some (tier_value v.tier);
    rationale = v.rationale;
    evidence = some v.evidence;
    actor = none;
    detail = detail;
  }

  -- `record_verdict` of the store: the row, and the store with it
  unfoldable pub store_verdict :
      Event F → Verdict F → String → AuditStore F → AuditRow F × AuditStore F
  store_verdict e v detail a =
      let r = verdict_entry (suc a.last_id) e v detail in
      (r, record { rows = a.rows ++ (r ∷ []); last_id = suc a.last_id })

  unfoldable pub record_iam : String → String → String → String → AuditStore F → AuditStore F
  record_iam now actor action detail a = record {
    rows =
        a.rows
        ++ (record {
          id = suc a.last_id;
          ts = now;
          kind = "iam";
          event_id = none;
          host = none;
          signature = none;
          decision = none;
          score = none;
          tier = none;
          rationale = action;
          evidence = none;
          actor = some actor;
          detail = detail;
        }
            ∷ []);
    last_id = suc a.last_id;
  }

  abbrev pub newest_first : List (AuditRow F) → List (AuditRow F)
  newest_first [] = []
  newest_first (r ∷ rows) = newest_first rows ++ (r ∷ [])

  abbrev pub skip : ℕ → List (AuditRow F) → List (AuditRow F)
  skip zero rows = rows
  skip (suc n) [] = []
  skip (suc n) (r ∷ rows) = skip n rows

  unfoldable pub query :
      String → String → String → String → ℕ → ℕ → AuditStore F → List (AuditRow F)
  query event_id decision host tier limit offset a = take limit (
      skip offset (
        newest_first (
          keep
            (λ r.
              is_verdict r
              && passes event_id r.event_id
              && passes decision r.decision
              && passes host r.host
              && passes tier r.tier)
            a.rows)))

  -- triaged, suppressed and escalated
  unfoldable pub lifetime_counts : AuditStore F → ℕ × (ℕ × ℕ)
  lifetime_counts a = (
    tally is_verdict a.rows,
    (
      tally (λ r. is_verdict r && has_text "suppress" r.decision) a.rows,
      tally (λ r. is_verdict r && has_text "escalate" r.decision) a.rows,
    ),
  )

  -- `ORDER BY id DESC LIMIT 1`
  pub last_row : (AuditRow F → Bool) → List (AuditRow F) → Option (AuditRow F)
  last_row p [] = none
  last_row p (r ∷ rows) = elim (last_row p rows) [
    | some later ↦ some later
    | none ↦ if p r then some r else none
  ]

  unfoldable pub verdict_for_event : String → AuditStore F → Option (AuditRow F)
  unfolding last_row
  verdict_for_event event_id a = last_row (λ r. is_verdict r && has_text event_id r.event_id) a.rows

  unfoldable pub rows_since : ℕ → ℕ → AuditStore F → List (AuditRow F)
  rows_since last_id limit a = take limit (keep (λ r. is_verdict r && ltb last_id r.id) a.rows)

  -- the rows that `acknowledge` marks
  abbrev pub is_marked : ℕ → AuditRow F → Bool
  is_marked row_id r = eqb r.id row_id && is_verdict r

  unfoldable pub acknowledge : String → ℕ → String → AuditStore F → Bool × AuditStore F
  acknowledge now row_id actor a =
      let marked =
        map (λ r. if is_marked row_id r then record r { actor = some actor } else r) a.rows in
      if any (is_marked row_id) a.rows
      then (
        true,
        record_iam now actor "acknowledge" ("audit id " <> decimal row_id)
            (record a { rows = marked }),
      )
      else (false, a)

  -- `prune`, at its cutoff: the number of rows that go, and the store
  unfoldable pub prune_audit : String → ℕ → String → AuditStore F → ℕ × AuditStore F
  prune_audit now days cutoff a =
      let n = tally (λ r. is_lt (compare r.ts cutoff)) a.rows in
      (
        n,
        record_iam now "system" "retention_prune"
            ("deleted " <> (decimal n <> (" rows older than " <> (decimal days <> "d"))))
            (record a { rows = keep (λ r. not (is_lt (compare r.ts cutoff))) a.rows }),
      )

-- what a run over the audit store computes with
unfoldable pub audit_run : Unit {0}
unfolding verdict_entry store_verdict record_iam query lifetime_counts last_row verdict_for_event
    rows_since acknowledge prune_audit signature decimal
audit_run = tt
