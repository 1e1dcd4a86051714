-- ===== src/Analyst/Observe.antt =====
-- arbiter/l2_workflow.py: what a round does with the rows that it observes: the cases that it opens and
-- refreshes, and the reviews that it asks for.

use arbiter_ai.Base.{
  String, Bool, true, false, not, ◌&&◌, ◌||◌, Option, none, some, List, [], ◌∷◌, ◌++◌, ◌==◌,
  if◌then◌else◌, keep, ltb, length, member,
}
use arbiter_ai.Values.{Runtime}
use arbiter_ai.Protection.{Analysis, Finding, before, is_scoped}
use arbiter_ai.Protection.Proposals.{proposal, is_done}
use arbiter_ai.Workflow.{Level}
use arbiter_ai.Workflow.Opening.{level_of, larger}
use arbiter_ai.Analyst.{Assessment}
use arbiter_ai.Analyst.Engine.{Brief, Prepared, is_verified, same_rule, review}
use arbiter_ai.Analyst.Cases.{
  L2Case, waiting, L2Workflow, Job, Report, advised, is_reviewable, rank_of, find_l2, keep_case,
  save_case,
}
use arbiter_ai.Analyst.Commands.{window_at, smaller}
use arbiter_ai.Values.{is_zero}
use arbiter_ai.Analyst.Due.{Desk, Watch, detail_of, evidence_row}

-- A loop whose body may raise an exception, with False for one.
abbrev pub proceed : {W : Type 0} → (W → Bool × W) → Bool × W → Bool × W
proceed f (true, w) = f w
proceed f (false, w) = (false, w)

unfoldable pub each : {A W : Type 0} → (A → W → Bool × W) → List A → W → Bool × W
each f [] w = (true, w)
each f (x ∷ xs) w = proceed (each f xs) (f x w)

-- `jobs` and `results` hold at most 100 entries.
abbrev pub has_room : {A : Type 0} → List A → Bool
has_room q = ltb (length q) 100

abbrev pub without : String → List String → List String
without key = keep (λ s. not (s == key))

abbrev pub but_first : {A : Type 0} → List A → List A
but_first [] = []
but_first (x ∷ xs) = xs

-- The newest first; rows of one timestamp keep their order.
unfoldable pub insert_row : {F : Type 0} → Finding F → List (Finding F) → List (Finding F)
insert_row r [] = r ∷ []
insert_row r (q ∷ qs) =
    if before r.event.timestamp q.event.timestamp then q ∷ insert_row r qs else r ∷ q ∷ qs

unfoldable pub by_newest : {F : Type 0} → List (Finding F) → List (Finding F)
by_newest [] = []
by_newest (r ∷ rs) = insert_row r (by_newest rs)

module _ {F : Type 0} where
  abbrev pub put_job : Job F → L2Workflow F → L2Workflow F
  put_job j w = record w { jobs = w.jobs ++ (j ∷ []); inflight = j.key ∷ w.inflight }

  abbrev pub is_taken : Option (Brief F) → Bool
  is_taken none = false
  is_taken (some b) = true

module _ {F A N : Type 0} ⦃py : Runtime F⦄ (desk : Desk F A N) (watch : Watch F) where
  -- `severity` of a row with its assessment
  abbrev pub severity_of : Finding F → Assessment → Level
  severity_of row assessment = level_of (
      larger row.event.severity (
        if is_verified assessment.route
        then py.lit 9 1
        else if same_rule assessment.rule (some "repeated_login_failures")
        then py.lit 7 1
        else py.lit 0 1))

  abbrev pub deadline_from : F → Level → Option F
  deadline_from clock level = elim (window_at desk.policy.windows level) [
    | none ↦ none
    | some window ↦ some (py.add clock window)
  ]

  abbrev pub opened_case : String → Finding F → Level → L2Case F
  opened_case key row level = record {
    id = key;
    event_id = row.event_id;
    severity = level;
    created = watch.created key;
    deadline = deadline_from (watch.opened key) level;
    state = waiting;
    brief = none;
    action_id = none;
    acknowledged = false;
    review_failed = false;
    deadline_alerted = false;
    deep_queued = false;
    follow_up = none;
  }

  -- `min(deadline or inf, clock + window)`; only a low level has no window, and none is below it
  abbrev pub shortened_deadline : Option F → F → Level → Option F
  shortened_deadline deadline clock level = elim (deadline_from clock level) [
    | none ↦ none
    | some t ↦ elim deadline [
      | none ↦ some t
      | some d ↦ some (if is_zero d then t else smaller d t)
    ]
  ]

  abbrev pub raised_case : Level → L2Case F → L2Case F
  raised_case level c = record c {
    severity = level;
    acknowledged = false;
    deadline = shortened_deadline c.deadline (watch.shortened c.id) level;
    brief = none;
  }

  -- The case takes the newer row, and the higher severity with its deadline.
  abbrev pub refreshed : Finding F → Level → L2Case F → L2Case F
  refreshed row level c =
      let next = record c { event_id = row.event_id } in
      if ltb (rank_of level) (rank_of c.severity) then raised_case level next else next

  abbrev pub saved_refresh : Finding F → Level → L2Case F → L2Workflow F → L2Workflow F
  saved_refresh row level c w =
      if ltb (rank_of level) (rank_of c.severity)
      then save_case (refreshed row level c) "Severity increased; response deadline shortened" w
      else keep_case (refreshed row level c) w

  abbrev pub add_job :
      Level
      → Option String
      → L2Case F
      → Option (Prepared F × Assessment)
      → L2Workflow F
      → Bool × L2Workflow F
  add_job level target c none w = (false, w)
  add_job level target c (some (p, assessment)) w = (
    true,
    if has_room w.jobs
        then put_job
            (record {
              rank = rank_of level;
              key = c.id;
              level = severity_of p.row assessment;
              prepared = p;
              proposal = target;
            })
            w
        else w,
  )

  -- the review of a case that has no brief yet is put into the queue
  unfoldable pub queue_review :
      Level → Option String → L2Case F → Finding F → L2Workflow F → Bool × L2Workflow F
  queue_review level target c row w =
      if is_taken c.brief || (member c.id w.inflight || c.review_failed)
      then (true, w)
      else add_job level target c (evidence_row desk watch (watch.observing row.event_id) row) w

  -- `put_nowait` of a fast brief, which raises an exception where the queue is full
  abbrev pub add_report : Report F → L2Workflow F → Bool × L2Workflow F
  add_report r w =
      if has_room w.results
      then (true, record w { results = w.results ++ (r ∷ []) })
      else (false, w)

  abbrev pub after_fast :
      Option (Option (Brief F))
      → Level
      → Option String
      → L2Case F
      → Finding F
      → L2Workflow F
      → Bool × L2Workflow F
  after_fast none level target c row w = (false, w)
  after_fast (some none) level target c row w = queue_review level target c row w
  after_fast (some (some brief)) level target c row w =
      add_report (record { key = c.id; level = level; outcome = advised brief }) w

  -- a case that has its newest row, with the proposal and the assessment
  unfoldable pub consider :
      Level
      → Option String
      → Prepared F × Assessment
      → L2Case F
      → L2Workflow F
      → Bool × L2Workflow F
  consider level target (p, assessment) c w =
      if not (is_taken c.brief) && is_verified assessment.route
      then after_fast (review (watch.observing p.row.event_id) desk.advisor true p target) level
          target c p.row w
      else queue_review level target c p.row w

  abbrev pub is_older : Option (Finding F) → Finding F → Bool
  is_older none row = false
  is_older (some old) row = before row.event.timestamp old.event.timestamp

  abbrev pub offered_target : Finding F → Option String
  offered_target row =
      if is_scoped desk.config.scope
      then proposal desk.ip desk.machine desk.config.scope (some row)
      else none

  abbrev pub observe_case :
      Prepared F × Assessment → Level → L2Case F → L2Workflow F → Bool × L2Workflow F
  observe_case (p, assessment) level c w =
      if not (is_reviewable c.state) || is_older (detail_of desk watch c.event_id) p.row
      then (true, w)
      else consider level (offered_target p.row) (p, assessment) (refreshed p.row level c)
          (saved_refresh p.row level c w)

  abbrev pub opened_or : Option (L2Case F) → L2Case F → L2Workflow F → L2Case F × L2Workflow F
  opened_or (some c) made w = (c, w)
  opened_or none made w = (made, save_case made "Escalated for L2 and human review" w)

  abbrev pub observe_prepared :
      Option (Prepared F × Assessment) → L2Workflow F → Bool × L2Workflow F
  observe_prepared none w = (false, w)
  observe_prepared (some (p, assessment)) w =
      let key = desk.key_of p.row in
      let level = severity_of p.row assessment in
      let (c, opened) = opened_or (find_l2 key w.cases) (opened_case key p.row level) w in
      observe_case (p, assessment) level c opened

  abbrev pub observe_analysed : Option (Analysis F) → Finding F → L2Workflow F → Bool × L2Workflow F
  observe_analysed none row w = (false, w)
  observe_analysed (some analysis) row w =
      if analysis.decision == "escalate"
      then observe_prepared (evidence_row desk watch (watch.observing row.event_id) row) w
      else (true, w)

  -- one round of the loop over the observations
  unfoldable pub observe_row : Finding F → L2Workflow F → Bool × L2Workflow F
  observe_row row w = if not (is_done row) then (true, w) else observe_analysed row.analysis row w
