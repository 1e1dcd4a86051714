-- ===== src/Analyst/Results.antt =====
-- arbiter/l2_workflow.py: what a round does with the results of the reviews.
use arbiter_ai.Base.{
  String, Bool, true, false, not, ◌&&◌, Option, none, some, ◌==◌, if◌then◌else◌, leb,
}
use arbiter_ai.Values.{Runtime}
use arbiter_ai.Protection.Proposals.{proposal}
use arbiter_ai.Workflow.{Level}
use arbiter_ai.Analyst.{Assessment}
use arbiter_ai.Analyst.Engine.{Brief, Prepared}
use arbiter_ai.Analyst.Cases.{
  L2Case, needs_review, L2Workflow, Report, Outcome, advised, unavailable, deeper, is_reviewable,
  is_waiting, rank_of, find_l2, keep_case, save_case,
}
use arbiter_ai.Analyst.Due.{Desk, Watch, detail_of, evidence_row}
use arbiter_ai.Analyst.Observe.{but_first, has_room, put_job, severity_of, without}

module _ {F A N : Type 0} ⦃py : Runtime F⦄ (desk : Desk F A N) (watch : Watch F) where
  abbrev pub taken_up : Option (Brief F) → L2Case F → L2Case F
  taken_up brief c = record c {
    follow_up = some brief;
    brief = elim brief [ none ↦ c.brief | some b ↦ if is_waiting c.state then some b else c.brief ];
  }

  abbrev pub deeper_body : Option (Brief F) → String
  deeper_body none = "L2 follow-up requires human review"
  deeper_body (some b) =
      if b.action == "human_review"
      then "L2 follow-up requires human review"
      else "L2 deeper follow-up supports the recommendation; inspect evidence and objections"

  -- the second review of a case whose first one was written without the model
  abbrev pub queue_deeper :
      L2Case F → Option (Prepared F × Assessment) → L2Workflow F → Bool × L2Workflow F
  queue_deeper c none w = (false, w)
  queue_deeper c (some (p, assessment)) w =
      if has_room w.jobs
      then (
        true,
        keep_case (record c { deep_queued = true })
            (put_job
              (record {
                rank = 3;
                key = c.id;
                level = severity_of desk watch p.row assessment;
                prepared = record p { deep = true };
                proposal = proposal desk.ip desk.machine desk.config.scope (some p.row);
              })
              w),
      )
      else (true, save_case c "Deeper review queue full; human follow-up required" w)

  abbrev pub deepen : L2Case F → L2Workflow F → Bool × L2Workflow F
  deepen c w = elim (detail_of desk watch c.event_id) [
    | none ↦ (false, w)
    | some row ↦ queue_deeper c (evidence_row desk watch (watch.observing row.event_id) row) w
  ]

  abbrev pub advise_case : Brief F → L2Case F → L2Workflow F → Bool × L2Workflow F
  advise_case brief c w =
      let next = record c { brief = some brief } in
      let saved = save_case next "L2 advice ready; inspect l2-cases" w in
      if brief.needs_deep_review && not c.deep_queued then deepen next saved else (true, saved)

  abbrev pub is_awaited : Level → L2Case F → Bool
  is_awaited level c =
      is_reviewable c.state
      && leb (rank_of level) (rank_of c.severity)
      && leb (rank_of c.severity) (rank_of level)

  abbrev pub take_outcome : Outcome F → Level → L2Case F → L2Workflow F → Bool × L2Workflow F
  take_outcome (deeper brief) level c w = (true, save_case (taken_up brief c) (deeper_body brief) w)
  take_outcome unavailable level c w =
      if is_awaited level c
      then (
        true,
        save_case (record c { review_failed = true; state = needs_review })
            "L2 unavailable or invalid output; human review required" w,
      )
      else (true, w)
  take_outcome (advised brief) level c w =
      if is_awaited level c then advise_case brief c w else (true, w)

  abbrev pub take_for : Option (L2Case F) → Report F → L2Workflow F → Bool × L2Workflow F
  take_for none r w = (false, w)
  take_for (some c) r w = take_outcome r.outcome r.level c w

  abbrev pub idle : Report F → L2Workflow F → L2Workflow F
  idle r w = record w { results = but_first w.results; inflight = without r.key w.inflight }

  -- one result; that of an unknown case is a KeyError
  unfoldable pub take_report : Report F → L2Workflow F → Bool × L2Workflow F
  take_report r w = take_for (find_l2 r.key w.cases) r (idle r w)
