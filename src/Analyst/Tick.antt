-- ===== src/Analyst/Tick.antt =====
-- arbiter/l2_workflow.py: the scheduler's round, and the reviewer that works its queue off.
use arbiter_ai.Base.{
  String, Bool, true, false, not, ◌&&◌, ◌||◌, Option, none, some, List, [], ◌∷◌, ◌++◌, ◌==◌, map,
  if◌then◌else◌, any, keep, take, member, ltb, leb,
}
use arbiter_ai.Values.{Value, str, null, Runtime}
use arbiter_ai.Protection.{Finding, before}
use arbiter_ai.Protection.Proposals.{is_done}
use arbiter_ai.Protection.Operations.{reconcile}
use arbiter_ai.Workflow.{is_escalated}
use arbiter_ai.Analyst.{
  dossier, observe_all, observe, fact_texts, login_failures, malware_facts, assess_current, assess,
}
use arbiter_ai.Analyst.Grounding.{
  value_at, fact_at, hypothesis_kind, kinds_of, cite, cite_all, grounded_block, validate,
}
use arbiter_ai.Analyst.Engine.{
  Brief, review, required_of, receipt, fast_brief, challenge_of, verified_brief, reasoned_brief,
  authorize,
}
use arbiter_ai.Analyst.Cases.{
  L2Case, L2Workflow, Job, Report, Outcome, advised, unavailable, deeper, is_reviewable, find_l2,
  put_l2, keep_case, save_case,
}
use arbiter_ai.Analyst.Due.{Desk, Watch, evidence_row, meet_case, decide_case, strike}
use arbiter_ai.Analyst.Observe.{
  by_newest, has_room, consider, each, insert_row, observe_row, proceed, queue_review,
}
use arbiter_ai.Analyst.Results.{take_report}

-- the order of `jobs`: by rank, then by key
abbrev pub comes_before : {F : Type 0} → Job F → Job F → Bool
comes_before j k = ltb j.rank k.rank || (leb j.rank k.rank && before j.key k.key)

-- the first job of the queue, and the others
unfoldable pub first_job : {F : Type 0} → Job F → List (Job F) → Job F × List (Job F)
first_job j [] = (j, [])
first_job j (k ∷ ks) =
    let rest = first_job (if comes_before k j then k else j) ks in
    (rest.0, (if comes_before k j then j else k) ∷ rest.1)

module _ {F A N : Type 0} ⦃py : Runtime F⦄ (desk : Desk F A N) (watch : Watch F) where
  -- the completed escalations that no round has seen, but for imported and staged ones
  abbrev pub unseen_rows : List String → List (Finding F)
  unseen_rows seen = take 100 (
      keep
        (λ (r : Finding F).
          is_done r
          && (is_escalated r
              && (not (member r.connector ("file" ∷ "replay" ∷ "demo" ∷ []))
                  && not (member r.event_id seen))))
        watch.rows)

  abbrev pub is_observed : L2Workflow F → Finding F → Bool
  is_observed w r =
      any (λ (q : Finding F). q.event_id == r.event_id) (unseen_rows w.seen)
      || any (λ (c : L2Case F). is_reviewable c.state && c.event_id == r.event_id) w.cases

  abbrev pub observations : L2Workflow F → List (Finding F)
  observations w = by_newest (keep (is_observed w) watch.rows)

  abbrev pub drain : L2Workflow F → Bool × L2Workflow F
  drain w = each (take_report desk watch) w.results w

  abbrev pub meet_all : L2Workflow F → Bool × L2Workflow F
  meet_all w = each (meet_case desk watch) w.cases w

  abbrev pub mark_seen : List (Finding F) → L2Workflow F → Bool × L2Workflow F
  mark_seen rows w = (true, record w { seen = map (λ (r : Finding F). r.event_id) rows ++ w.seen })

  abbrev pub swept_first : L2Workflow F → L2Workflow F
  swept_first w = record w {
    store = reconcile desk.ip desk.firewall desk.config watch.clock w.store;
  }

  abbrev pub observe_all_rows : L2Workflow F → Bool × L2Workflow F
  observe_all_rows w = each (observe_row desk watch) (observations w) w

  -- `tick`
  unfoldable pub l2_tick : L2Workflow F → Bool × L2Workflow F
  l2_tick w =
      proceed (mark_seen (unseen_rows w.seen))
        (proceed meet_all (proceed drain (observe_all_rows (swept_first w))))

  abbrev pub target_value : Option String → Value F
  target_value none = null
  target_value (some t) = str t

  -- what the reviewer's thread reports of a job
  abbrev pub outcome_of : Job F → Option (Option (Brief F)) → Outcome F
  outcome_of j (some (some b)) =
      let brief = record b { target = target_value j.proposal } in
      if j.prepared.deep then deeper (some brief) else advised brief
  outcome_of j _ = if j.prepared.deep then deeper none else unavailable

  -- a job of the queue, as it is worked off
  unfoldable pub report_of : Job F → Report F
  report_of j = record {
    key = j.key;
    level = j.level;
    outcome =
        outcome_of j (
          review (watch.observing j.prepared.row.event_id) desk.advisor false j.prepared
            j.proposal);
  }

  -- The reviewer works the first job off, and puts its report into the queue of results; where that is
  -- full it waits, and nothing happens yet.
  abbrev pub work_off : Job F × List (Job F) → L2Workflow F → L2Workflow F
  work_off (j, rest) w = record w { jobs = rest; results = w.results ++ (report_of j ∷ []) }

  unfoldable pub work : L2Workflow F → L2Workflow F
  work w = elim w.jobs [
    | [] ↦ w
    | j ∷ rest ↦ if has_room w.results then work_off (first_job j rest) w else w
  ]

-- what a run computes with
unfoldable pub l2_run : Unit {0}
unfolding each insert_row by_newest queue_review consider observe_row take_report l2_tick report_of
    meet_case decide_case strike evidence_row find_l2 put_l2 keep_case save_case required_of receipt
    fast_brief challenge_of verified_brief reasoned_brief review authorize dossier observe_all
    observe fact_texts login_failures malware_facts assess_current assess value_at fact_at
    hypothesis_kind kinds_of cite cite_all grounded_block validate first_job work
l2_run = tt
