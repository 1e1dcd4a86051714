-- ===== src/Memory/Facts/Briefings.antt =====
-- A briefing reaches the events of its host alone, and removing it restores the facts.
use Prim.Native.Nat.{max}
use text.Mathlib.Text.{is_lt}
use Prim.Native.String.{compare}
use mathlib.Core.List.{append-nil, map-append}
use arbiter_ai.Base.{
  ℕ, suc, ◌≤◌, ◌<◌, String, ◌≡◌, refl, true, false, not, ◌&&◌, ◌||◌, List, [], ◌∷◌, ◌++◌, ◌==◌,
  if◌then◌else◌, keep, All, arith, keep-append, length-append, ◌∙◌,
}
use arbiter_ai.Values.{Runtime}
use arbiter_ai.Memory.{Memory, FactRow, upsert_asset}
use arbiter_ai.Memory.Facts.{
  next_id, Briefing, applies, scoped_fact, facts_for, briefing_row, brief_asset, save_briefing,
  is_briefing, remove_briefing,
}

-- ids below a bound
Below : ℕ → List FactRow → Type 0
Below n = All (λ r. r.id < n)

Below-weaken : (n k : ℕ) (rows : List FactRow) → n ≤ k → Below n rows → Below k rows
unfolding Below
Below-weaken n k [] h b = tt
Below-weaken n k (r ∷ rows) h b = (omega (arith, b.0), Below-weaken n k rows h b.1)

next_id-Below : (rows : List FactRow) → Below (next_id rows) rows
unfolding Below next_id
next_id-Below [] = tt
next_id-Below (r ∷ rows) = (
  omega arith,
  Below-weaken (next_id rows) (max (suc r.id) (next_id rows)) rows (omega arith)
      (next_id-Below rows),
)

keep-Below :
    (n : ℕ) (rows : List FactRow) → Below n rows → keep (λ r. not (is_briefing n r)) rows ≡ rows
unfolding Below
keep-Below n [] b = refl
keep-Below n (r ∷ rows) b = ground (arith, keep-Below n rows b.1, b.0)

removed :
    (b : Briefing) (actor now : String) (rows : List FactRow)
    → (actor == "") ≡ false
    → let id = next_id rows in
      keep (λ r. not (is_briefing id r)) (rows ++ (briefing_row id b actor now ∷ [])) ≡ rows
unfolding briefing_row
removed b actor now rows named =
    rw (keep-append, keep-Below (next_id rows) rows (next_id-Below rows))
      (ground (arith, append-nil rows))

-- Whether the briefing's own row applies to an event.
applies-briefing :
    (id : ℕ) (b : Briefing) (actor made host source now : String)
    → (actor == "") ≡ false
    → applies host source now (briefing_row id b actor made)
      ≡ (b.host == host && (b.expires_at == "" || is_lt (compare now b.expires_at)))
unfolding applies briefing_row
applies-briefing id b actor made host source now named = rw named (ground arith)

module _ {F : Type 0} ⦃py : Runtime F⦄ where
  facts-brief_asset : (b : Briefing) (m : Memory F) → (brief_asset b m).facts ≡ m.facts
  unfolding brief_asset upsert_asset
  facts-brief_asset b m = ground arith

  -- Removing the briefing that was just saved reports success and gives back the facts as they were,
  -- with no seed fact and no other briefing touched.
  remove-save_briefing :
      (b : Briefing) (actor now : String) (m : Memory F)
      → (actor == "") ≡ false
      → let saved = save_briefing b actor now m in
        ((remove_briefing saved.0 saved.1).0 ≡ true)
        × ((remove_briefing saved.0 saved.1).1.facts ≡ m.facts)
  unfolding save_briefing remove_briefing
  remove-save_briefing b actor now m named =
      let rows = (brief_asset b m).facts in
      let back = removed b actor now rows named in
      let long = length-append rows (briefing_row (next_id rows) b actor now ∷ []) in
      (rw back (ground (arith, long)), back ∙ facts-brief_asset b m)

  -- After a briefing is saved, the facts for an event are those from before, followed by the
  -- briefing if and only if the event's host is the briefing's and the briefing has not expired.
  -- The event's source and the wild-card scope do not matter.
  pub facts_for-save_briefing :
      (b : Briefing) (actor made host source now : String) (m : Memory F)
      → (actor == "") ≡ false
      → facts_for host source now (save_briefing b actor made m).1
        ≡ facts_for host source now m
          ++ (if b.host == host && (b.expires_at == "" || is_lt (compare now b.expires_at))
              then scoped_fact (briefing_row (next_id m.facts) b actor made) ∷ []
              else [])
  unfolding facts_for save_briefing
  facts_for-save_briefing b actor made host source now m named =
      rw
        (
          facts-brief_asset,
          keep-append,
          map-append,
          applies-briefing (next_id m.facts) b actor made host source now named,
        )
        (ground arith)
