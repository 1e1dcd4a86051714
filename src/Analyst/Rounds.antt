-- ===== src/Analyst/Rounds.antt =====
-- Which blocks a whole round asks for: its loops over observations and results ask for none.
use arbiter_ai.Base.{
  String, refl, true, false, not, ◌&&◌, ◌||◌, Option, none, some, List, ◌==◌, ltb, member,
}
use arbiter_ai.Values.{Runtime}
use arbiter_ai.Protection.{Analysis, Finding}
use arbiter_ai.Protection.Proposals.{is_done}
use arbiter_ai.Workflow.{Level}
use arbiter_ai.Analyst.{Assessment}
use arbiter_ai.Analyst.Engine.{Brief, Prepared, review, is_verified}
use arbiter_ai.Analyst.Cases.{
  L2Case, L2Workflow, keep_case, save_case, find_l2, rank_of, is_reviewable,
}
use arbiter_ai.Analyst.Due.{Desk, Watch, detail_of, evidence_row}
use arbiter_ai.Analyst.Observe.{
  proceed, has_room, add_job, queue_review, is_taken, after_fast, consider, offered_target,
  observe_case, opened_or, opened_case, observe_prepared, observe_row, saved_refresh, refreshed,
  is_older, severity_of, observe_analysed,
}
use arbiter_ai.Analyst.Tick.{swept_first, observe_all_rows, drain}
use arbiter_ai.Analyst.Growth.{Grows, Grows-still, Grows-trans, choose-Grows, either-Grows}

module _ {F A N : Type 0} ⦃py : Runtime F⦄ (desk : Desk F A N) (watch : Watch F)
    (P : String → Type 0) where
  still : (w : L2Workflow F) → Grows P w w
  still w = Grows-still P w w refl refl

  saved_still : (c : L2Case F) (body : String) (w : L2Workflow F) → Grows P w (save_case c body w)
  unfolding save_case
  saved_still c body w = Grows-still P w _ refl refl

  kept : (c : L2Case F) (w : L2Workflow F) → Grows P w (keep_case c w)
  unfolding keep_case
  kept c w = Grows-still P w _ refl refl

  add_job-Grows :
      (level : Level) (target : Option String) (c : L2Case F) (o : Option (Prepared F × Assessment))
      (w : L2Workflow F)
      → Grows P w (add_job desk watch level target c o w).1
  add_job-Grows level target c none w = still w
  add_job-Grows level target c (some (p, assessment)) w =
      choose-Grows P (has_room w.jobs) w _ w (Grows-still P w _ refl refl) (still w)

  queue_review-Grows :
      (level : Level) (target : Option String) (c : L2Case F) (row : Finding F) (w : L2Workflow F)
      → Grows P w (queue_review desk watch level target c row w).1
  unfolding queue_review
  queue_review-Grows level target c row w =
      either-Grows P (is_taken c.brief || (member c.id w.inflight || c.review_failed)) w (true, w) _
        (still w)
        (add_job-Grows level target c (evidence_row desk watch (watch.observing row.event_id) row)
          w)

  after_fast-Grows :
      (o : Option (Option (Brief F))) (level : Level) (target : Option String) (c : L2Case F)
      (row : Finding F) (w : L2Workflow F)
      → Grows P w (after_fast desk watch o level target c row w).1
  after_fast-Grows none level target c row w = still w
  after_fast-Grows (some none) level target c row w = queue_review-Grows level target c row w
  after_fast-Grows (some (some brief)) level target c row w =
      either-Grows P (has_room w.results) w _ (false, w) (Grows-still P w _ refl refl) (still w)

  consider-Grows :
      (level : Level) (target : Option String) (p : Prepared F × Assessment) (c : L2Case F)
      (w : L2Workflow F)
      → Grows P w (consider desk watch level target p c w).1
  unfolding consider
  consider-Grows level target (p, assessment) c w =
      either-Grows P (not (is_taken c.brief) && is_verified assessment.route) w _ _
        (after_fast-Grows (review (watch.observing p.row.event_id) desk.advisor true p target) level
          target c p.row w)
        (queue_review-Grows level target c p.row w)

  saved_refresh-Grows :
      (row : Finding F) (level : Level) (c : L2Case F) (w : L2Workflow F)
      → Grows P w (saved_refresh desk watch row level c w)
  saved_refresh-Grows row level c w =
      choose-Grows P (ltb (rank_of level) (rank_of c.severity)) w _ _ (saved_still _ _ w) (kept _ w)

  observe_case-Grows :
      (p : Prepared F × Assessment) (level : Level) (c : L2Case F) (w : L2Workflow F)
      → Grows P w (observe_case desk watch p level c w).1
  observe_case-Grows (p, assessment) level c w =
      let next = saved_refresh desk watch p.row level c w in
      let case_ = refreshed desk watch p.row level c in
      let target = offered_target desk watch p.row in
      either-Grows P
        (not (is_reviewable c.state) || is_older desk watch (detail_of desk watch c.event_id) p.row)
        w (true, w) _ (still w)
        (Grows-trans P w next _ (saved_refresh-Grows p.row level c w)
          (consider-Grows level target (p, assessment) case_ next))

  opened_or-Grows :
      (o : Option (L2Case F)) (made : L2Case F) (w : L2Workflow F)
      → Grows P w (opened_or desk watch o made w).1
  opened_or-Grows none made w = saved_still _ _ w
  opened_or-Grows (some c) made w = still w

  observe_prepared-Grows :
      (o : Option (Prepared F × Assessment)) (w : L2Workflow F)
      → Grows P w (observe_prepared desk watch o w).1
  observe_prepared-Grows none w = still w
  observe_prepared-Grows (some (p, assessment)) w =
      let key = desk.key_of p.row in
      let level = severity_of desk watch p.row assessment in
      let o = find_l2 key w.cases in
      let made = opened_case desk watch key p.row level in
      let r = opened_or desk watch o made w in
      Grows-trans P w r.1 _ (opened_or-Grows o made w)
        (observe_case-Grows (p, assessment) level r.0 r.1)

  observe_analysed-Grows :
      (o : Option (Analysis F)) (row : Finding F) (w : L2Workflow F)
      → Grows P w (observe_analysed desk watch o row w).1
  observe_analysed-Grows none row w = still w
  observe_analysed-Grows (some analysis) row w =
      either-Grows P (analysis.decision == "escalate") w _ (true, w)
        (observe_prepared-Grows (evidence_row desk watch (watch.observing row.event_id) row) w)
        (still w)

  pub observe_row-Grows :
      (row : Finding F) (w : L2Workflow F) → Grows P w (observe_row desk watch row w).1
  unfolding observe_row
  observe_row-Grows row w =
      either-Grows P (not (is_done row)) w (true, w) _ (still w)
        (observe_analysed-Grows row.analysis row w)

module _ {F A N : Type 0} ⦃py : Runtime F⦄ (desk : Desk F A N) (watch : Watch F) where
  -- the cases as the loop over the deadlines finds them
  abbrev pub cases_met : L2Workflow F → List (L2Case F)
  cases_met w =
      (proceed (drain desk watch) (observe_all_rows desk watch (swept_first desk watch w))).1.cases
