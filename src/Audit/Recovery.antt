-- ===== src/Audit/Recovery.antt =====
-- The lookup by which a restarted worker finds the verdict of an event.
use arbiter_ai.Base.{String, ◌≡◌, Bool, true, false, some, List, [], ◌∷◌, ◌++◌, ◌==◌, eq_refl}
use arbiter_ai.Schema.{Event, Verdict}
use arbiter_ai.Audit.{
  AuditRow, AuditStore, verdict_entry, store_verdict, last_row, verdict_for_event,
}

module _ {F : Type 0} where
  last_row-hit :
      (p : AuditRow F → Bool) (rows : List (AuditRow F)) (r : AuditRow F)
      → p r ≡ true
      → last_row p (rows ++ (r ∷ [])) ≡ some r
  unfolding last_row
  last_row-hit p [] r h = rw h
  last_row-hit p (q ∷ rows) r h = rw (last_row-hit p rows r h)

  last_row-miss :
      (p : AuditRow F → Bool) (rows : List (AuditRow F)) (r : AuditRow F)
      → p r ≡ false
      → last_row p (rows ++ (r ∷ [])) ≡ last_row p rows
  unfolding last_row
  last_row-miss p [] r h = rw h
  last_row-miss p (q ∷ rows) r h = rw (last_row-miss p rows r h)

  -- After a verdict is stored the lookup by its event's id gives the stored row, also if the event had
  -- a verdict before; for any other event id it gives what it gave before.
  pub verdict_for_event-store_verdict :
      (e : Event F) (v : Verdict F) (detail other : String) (a : AuditStore F)
      → (e.id == other) ≡ false
      → (verdict_for_event e.id (store_verdict e v detail a).1
          ≡ some (store_verdict e v detail a).0)
        × (verdict_for_event other (store_verdict e v detail a).1 ≡ verdict_for_event other a)
  unfolding verdict_for_event store_verdict verdict_entry
  verdict_for_event-store_verdict e v detail other a differs =
      (last_row-hit _ a.rows _ (eq_refl e.id), last_row-miss _ a.rows _ differs)
