-- ===== src/Workflow/Stopped.antt =====
-- What the emergency stop guarantees.

use arbiter_ai.Base.{
  ◌≡◌, refl, Bool, not, ◌||◌, true, false, ◌&&◌, Option, none, some, List, [], ◌∷◌, All, Bool-cases,
  Option-cases, inl, inr, arith,
}
use arbiter_ai.Values.{Runtime}
use arbiter_ai.Protection.{Action, Config, Finding}
use arbiter_ai.Protection.Blocks.{reconcile-blocks}
use arbiter_ai.Workflow.{
  Case, CaseState, Workflow, Setting, Feed, is_pending, is_executing, policy_actor, detail,
}
use arbiter_ai.Workflow.Opening.{is_past, ensure, reopen, interrupt}
use arbiter_ai.Workflow.Evidence.{Round}
use arbiter_ai.Workflow.Tick.{
  tick, notice, unseen, meet_deadline, follow_up, sweep, removed, watched, lifted, is_expired,
  unless_ended, try_rows, pending_rows, executed_rows, finish_round,
}
use arbiter_ai.Workflow.Steps.{Step, commanded, ticked, reopened, step, steps}
use arbiter_ai.Workflow.Quiet.{
  Quiet, Quiet-refl, Quiet-trans, control-Quiet, either-Quiet, ensure-Quiet, for_rows-Quiet,
  is_resume, save-Quiet,
}

module _ {F : Type 0} where
  interrupt-Quiet : (c : Case F) (w : Workflow F) → w.stopped ≡ true → Quiet w (interrupt c w)
  interrupt-Quiet c w h =
      either-Quiet (is_executing c.state) w _ w (save-Quiet _ "l1_interrupted" policy_actor w h)
        (Quiet-refl w h)

  unless_ended-Quiet :
      (w : Workflow F) (f : Workflow F → Bool × Workflow F) (r : Bool × Workflow F)
      → Quiet w r.1
      → ((v : Workflow F) → v.stopped ≡ true → Quiet v (f v).1)
      → Quiet w (unless_ended f r).1
  unless_ended-Quiet w f (true, v) q calm = Quiet-trans w v _ q (calm v q.stopped)
  unless_ended-Quiet w f (false, v) q calm = q

module _ {F A N : Type 0} ⦃py : Runtime F⦄ (setting : Setting F A N) (feed : Feed F)
    (round : Round F) where
  meet_deadline-Quiet :
      (c : Case F) (w : Workflow F)
      → w.stopped ≡ true
      → Quiet w (meet_deadline setting feed round c w).1
  unfolding meet_deadline
  meet_deadline-Quiet c w h =
      elim (Bool-cases (is_pending c.state && is_past (round.due c.event_id) c.limit)) [
        | inr early ↦ rw early (Quiet-refl w h)
        | inl due ↦
            rw (due, held c.automatic w.stopped h) (save-Quiet _ "l1_overdue" policy_actor w h)
      ]
    where
      held : (a b : Bool) → b ≡ true → (not a || b) ≡ true
      held a b e = ground (arith, e)

  meet_all-Quiet :
      (cs : List (Case F)) (w : Workflow F)
      → w.stopped ≡ true
      → Quiet w (try_rows (meet_deadline setting feed round) cs w).1
  unfolding try_rows
  meet_all-Quiet [] w h = Quiet-refl w h
  meet_all-Quiet (c ∷ cs) w h =
      let q = meet_deadline-Quiet c w h in
      unless_ended-Quiet w _ (meet_deadline setting feed round c w) q
        (λ v. λ k. meet_all-Quiet cs v k)

  removed-Quiet :
      (o : Option CaseState) (c : Case F) (w : Workflow F)
      → w.stopped ≡ true
      → Quiet w (removed setting feed round o c w)
  removed-Quiet none c w h = Quiet-refl w h
  removed-Quiet (some x) c w h = save-Quiet _ "l1_block_removed" policy_actor w h

  lifted-Quiet :
      (o : Option Action) (c : Case F) (w : Workflow F)
      → w.stopped ≡ true
      → Quiet w (lifted setting feed round o c w)
  lifted-Quiet none c w h = Quiet-refl w h
  lifted-Quiet (some a) c w h = removed-Quiet _ c w h

  watched-Quiet :
      (o : Option (Config N)) (c : Case F) (w : Workflow F)
      → w.stopped ≡ true
      → Quiet w (watched setting feed round o c w)
  watched-Quiet none c w h = Quiet-refl w h
  watched-Quiet (some config) c w h = lifted-Quiet _ c w h

  follow_up-Quiet :
      (c : Case F) (w : Workflow F) → w.stopped ≡ true → Quiet w (follow_up setting feed round c w)
  unfolding follow_up
  follow_up-Quiet c w h =
      either-Quiet (setting.simulation && is_expired setting feed round c) w _ _
        (save-Quiet _ "l1_expired" policy_actor w h) (watched-Quiet setting.protection c w h)

  notice-Quiet :
      (rows : List (Finding F)) (w : Workflow F)
      → w.stopped ≡ true
      → Quiet w (notice setting feed round rows w)
  unfolding notice
  notice-Quiet [] w h = record { stopped = h; silent = refl }
  notice-Quiet (r ∷ rest) w h =
      let made =
        (ensure setting.timestamp (round.created r.event_id) (detail r.event_id feed) w).1 in
      let q = ensure-Quiet setting feed (round.created r.event_id) (detail r.event_id feed) w h in
      let next : Workflow F = record made { seen = r.event_id ∷ made.seen } in
      let step : Quiet w next = record { stopped = q.stopped; silent = q.silent } in
      Quiet-trans w next _ step (notice-Quiet rest next q.stopped)

  sweep-Quiet : (w : Workflow F) → w.stopped ≡ true → Quiet w (sweep setting feed round w)
  unfolding sweep
  sweep-Quiet w h = elim (Option-cases setting.protection) [
    | inl bare ↦ rw (bare, sweep) (record { stopped = h; silent = refl })
    | inr (config, given) ↦
        elim (Bool-cases (py.le (py.lit 10 1) (py.sub round.swept w.last_reconcile))) [
          | inl late ↦
              rw (given, sweep, late)
                (record {
                  stopped = h;
                  silent = reconcile-blocks setting.ip setting.firewall config round.clock w.store;
                })
          | inr early ↦ rw (given, sweep, early) (record { stopped = h; silent = refl })
        ]
  ]

  finish_round-Quiet :
      (w : Workflow F) → w.stopped ≡ true → Quiet w (finish_round setting feed round w).1
  finish_round-Quiet w h =
      let s = sweep-Quiet w h in
      let swept = sweep setting feed round w in
      Quiet-trans w swept _ s (
        for_rows-Quiet (follow_up setting feed round) follow_up-Quiet
          (executed_rows setting feed round swept) swept s.stopped)

  tick-Quiet : (w : Workflow F) → w.stopped ≡ true → Quiet w (tick setting feed round w).1
  unfolding tick
  tick-Quiet w h =
      let noticed = notice setting feed round (unseen setting feed round w.seen) w in
      let q = notice-Quiet (unseen setting feed round w.seen) w h in
      Quiet-trans w noticed _ q (
        unless_ended-Quiet noticed (finish_round setting feed round)
          (try_rows (meet_deadline setting feed round) (pending_rows setting feed round noticed)
            noticed)
          (meet_all-Quiet (pending_rows setting feed round noticed) noticed q.stopped)
          finish_round-Quiet)

-- an event that does not lift the stop
abbrev pub Stays : {F : Type 0} → Step F → Type 0
Stays (commanded feed r) = is_resume r.command ≡ false
Stays (ticked feed round) = Unit
Stays reopened = Unit

module _ {F A N : Type 0} ⦃py : Runtime F⦄ (setting : Setting F A N) where
  step-Quiet :
      (s : Step F) (w : Workflow F) → Stays s → w.stopped ≡ true → Quiet w (step setting s w)
  unfolding reopen
  step-Quiet (commanded feed r) w k h = control-Quiet setting feed r w k h
  step-Quiet (ticked feed round) w k h = tick-Quiet setting feed round w h
  step-Quiet reopened w k h =
      let q = for_rows-Quiet interrupt interrupt-Quiet _ w h in
      record { stopped = q.stopped; silent = q.silent }

  -- While the emergency stop is in force, over any sequence of commands other than a resume, scheduler
  -- rounds and restarts, it stays in force and the firewall is asked for no further block.
  pub steps-Quiet :
      (ss : List (Step F)) (w : Workflow F)
      → All Stays ss
      → w.stopped ≡ true
      → Quiet w (steps setting ss w)
  steps-Quiet [] w k h = record { stopped = h; silent = refl }
  steps-Quiet (s ∷ rest) w k h =
      let q = step-Quiet s w k.0 h in
      Quiet-trans w (step setting s w) _ q (steps-Quiet rest (step setting s w) k.1 q.stopped)
