-- ===== src/Tests/Trail.antt =====
-- Runs of the audit database, and its theorem at a concrete input.
use arbiter_ai.Base.{ℕ, ◌≡◌, refl, false, some, [], ◌∷◌, map}
use arbiter_ai.Audit.{
  AuditStore, store_verdict, verdict_for_event, query, acknowledge, prune_audit, rows_since,
  lifetime_counts, audit_run,
}
use arbiter_ai.Audit.Recovery.{verdict_for_event-store_verdict}
use arbiter_ai.Tests.Fixtures.{spike, benign_verdict}

abbrev fresh : AuditStore ℕ
fresh = record { rows = []; last_id = 0 }

abbrev one : AuditStore ℕ
one = (store_verdict spike benign_verdict "{}" fresh).1

abbrev reviewed : AuditStore ℕ
reviewed = (acknowledge "now" 1 "ada" one).1

audit_runs :
    (map (λ r. r.actor) reviewed.rows ≡ some "ada" ∷ some "ada" ∷ [])
    × (map (λ r. r.detail) reviewed.rows ≡ "{}" ∷ "audit id 1" ∷ [])
    × ((acknowledge "now" 2 "ada" reviewed) ≡ (false, reviewed))
    × (lifetime_counts reviewed ≡ (1, (1, 0)))
    × (map (λ r. r.id) (query "" "suppress" "" "" 100 0 reviewed) ≡ 1 ∷ [])
    × (query "" "escalate" "" "" 100 0 reviewed ≡ [])
    × (rows_since 1 200 reviewed ≡ [])
    × ((prune_audit "now" 30 "u" reviewed).0 ≡ 2)
    × (map (λ r. r.id) (prune_audit "now" 30 "u" reviewed).1.rows ≡ 3 ∷ [])
unfolding audit_run
audit_runs = (refl, refl, refl, refl, refl, refl, refl, refl, refl)

verdict_for_event-store_verdict_example :
    (verdict_for_event "e1" (store_verdict spike benign_verdict "{}" one).1
      ≡ some (store_verdict spike benign_verdict "{}" one).0)
    × (verdict_for_event "e7" (store_verdict spike benign_verdict "{}" one).1
        ≡ verdict_for_event "e7" one)
verdict_for_event-store_verdict_example =
    verdict_for_event-store_verdict spike benign_verdict "{}" "e7" one refl
