-- ===== src/Workflow/Quiet.antt =====
-- The commands of an operator ask for no block while the emergency stop is in force.
use Prim.Native.String.{len}
use arbiter_ai.Base.{
  String, ◌≡◌, refl, ◌∙◌, Bool, true, false, ◌&&◌, Option, none, some, List, [], ◌∷◌, ◌==◌, leb,
  Bool-cases, Option-cases, inl, inr, arith, if◌then◌else◌,
}
use arbiter_ai.Values.{Runtime}
use arbiter_ai.Protection.{Store, Action, Config, Finding}
use arbiter_ai.Protection.Proposals.{is_done}
use arbiter_ai.Protection.Blocks.{blocks, undo-blocks}
use arbiter_ai.Workflow.{Case, Workflow, Setting, Feed, save, find_case, detail, for_rows}
use arbiter_ai.Workflow.Opening.{ensure, ensure_row}
use arbiter_ai.Workflow.Requests
use arbiter_ai.Workflow.Requests.{
  Request, stop, resume, undo_block, reviewed, reject, defer, schedule, unknown, stop_all,
  resume_all, cancel, cancelled, is_enrolled,
}
use arbiter_ai.Workflow.Control.{
  control, answer, command_case, with_case, scheduled, undo_on_device, undo_by, undo_found,
}
use arbiter_ai.Workflow.Steps.{step}

abbrev pub is_resume : Requests.Command → Bool
is_resume resume = true
is_resume _ = false

module _ {F : Type 0} where
  -- The stop is in force as before, and the firewall was asked for no new block.
  pub record Quiet (w after : Workflow F) : Type 0 where
    pub stopped : after.stopped ≡ true
    pub silent : blocks after.store ≡ blocks w.store

  pub Quiet-trans : (u v w : Workflow F) → Quiet u v → Quiet v w → Quiet u w
  Quiet-trans u v w p q = record { stopped = q.stopped; silent = q.silent ∙ p.silent }

  pub Quiet-refl : (w : Workflow F) → w.stopped ≡ true → Quiet w w
  Quiet-refl w h = record { stopped = h; silent = refl }

  pub save-Quiet :
      (c : Case F) (action actor : String) (w : Workflow F)
      → w.stopped ≡ true
      → Quiet w (save c action actor w)
  unfolding save
  save-Quiet c action actor w h = record { stopped = h; silent = refl }

  pub for_rows-Quiet :
      (step : Case F → Workflow F → Workflow F)
      → ((c : Case F) (w : Workflow F) → w.stopped ≡ true → Quiet w (step c w))
      → (cs : List (Case F)) (w : Workflow F) → w.stopped ≡ true
      → Quiet w (for_rows step cs w)
  unfolding for_rows
  for_rows-Quiet step calm [] w h = Quiet-refl w h
  for_rows-Quiet step calm (c ∷ cs) w h =
      let q = calm c w h in
      Quiet-trans w (step c w) _ q (for_rows-Quiet step calm cs (step c w) q.stopped)

  pub either-Quiet :
      (b : Bool) (w u v : Workflow F) → Quiet w u → Quiet w v → Quiet w (if b then u else v)
  either-Quiet true w u v p q = p
  either-Quiet false w u v p q = q

  cancel-Quiet :
      (actor : String) (c : Case F) (w : Workflow F) → w.stopped ≡ true → Quiet w (cancel actor c w)
  cancel-Quiet actor c w h =
      either-Quiet (is_enrolled c) w _ w (save-Quiet (cancelled c) _ actor w h) (Quiet-refl w h)

module _ {F A N : Type 0} ⦃py : Runtime F⦄ (setting : Setting F A N) (feed : Feed F) where
  ensure_row-Quiet :
      (clock : F) (row : Finding F) (w : Workflow F)
      → w.stopped ≡ true
      → Quiet w (ensure_row setting.timestamp clock row w).1
  unfolding ensure_row save
  ensure_row-Quiet clock row w h = elim (Option-cases row.analysis) [
    | inl missing ↦ rw (missing, ensure_row) (record { stopped = h; silent = refl })
    | inr (analysis, read) ↦ elim (Bool-cases (is_done row && analysis.decision == "escalate")) [
      | inr other ↦ rw (read, ensure_row, other) (record { stopped = h; silent = refl })
      | inl escalated ↦ elim (Option-cases (find_case row.event_id w.cases)) [
        | inr (c, known) ↦
            rw (read, ensure_row, escalated, known) (record { stopped = h; silent = refl })
        | inl absent ↦
            rw (read, ensure_row, escalated, absent) (record { stopped = h; silent = refl })
      ]
    ]
  ]

  pub ensure-Quiet :
      (clock : F) (row : Option (Finding F)) (w : Workflow F)
      → w.stopped ≡ true
      → Quiet w (ensure setting.timestamp clock row w).1
  ensure-Quiet clock none w h = record { stopped = h; silent = refl }
  ensure-Quiet clock (some row) w h = ensure_row-Quiet clock row w h

  undo_found-blocks :
      (config : Config N) (o : Option Action) (r : Request F) (s : Store)
      → blocks (undo_found setting feed config o r s).1 ≡ blocks s
  undo_found-blocks config none r s = refl
  undo_found-blocks config (some a) r s =
      undo-blocks setting.firewall config.verify r.now a.id r.actor s

  undo_by-blocks :
      (o : Option (Config N)) (r : Request F) (s : Store)
      → blocks (undo_by setting feed o r s).1 ≡ blocks s
  undo_by-blocks none r s = refl
  undo_by-blocks (some config) r s = undo_found-blocks config _ r s

  undo_on_device-blocks :
      (r : Request F) (s : Store) → blocks (undo_on_device setting feed r s).1 ≡ blocks s
  unfolding undo_on_device
  undo_on_device-blocks r s = elim (Bool-cases setting.simulation) [
    | inl simulated ↦ ground (arith, simulated)
    | inr real ↦ ground (arith, real, undo_by-blocks setting.protection r s)
  ]

  command_case-Quiet :
      (r : Request F) (command : Requests.Command) (row : Finding F) (c : Case F) (w : Workflow F)
      → w.stopped ≡ true
      → Quiet w (command_case setting feed r command row c w).1
  unfolding command_case save
  command_case-Quiet r undo_block row c w h = record {
    stopped = ground (arith, h);
    silent = ground (arith, undo_on_device-blocks r w.store);
  }
  command_case-Quiet r reviewed row c w h = record {
    stopped = ground (arith, h);
    silent = ground arith;
  }
  command_case-Quiet r reject row c w h = record {
    stopped = ground (arith, h);
    silent = ground arith;
  }
  command_case-Quiet r defer row c w h = record {
    stopped = ground (arith, h);
    silent = ground arith;
  }
  command_case-Quiet r schedule row c w h = elim (Option-cases (scheduled setting feed r w row c)) [
    | inl refused ↦ rw (refused, command_case) (record { stopped = h; silent = refl })
    | inr (d, made) ↦ rw (made, command_case) (record { stopped = h; silent = refl })
  ]
  command_case-Quiet r stop row c w h = record { stopped = h; silent = refl }
  command_case-Quiet r resume row c w h = record { stopped = h; silent = refl }
  command_case-Quiet r unknown row c w h = record { stopped = h; silent = refl }

  with_case-Quiet :
      (r : Request F) (command : Requests.Command) (row : Option (Finding F)) (w : Workflow F)
      → w.stopped ≡ true
      → Quiet w (with_case setting feed r command row (ensure setting.timestamp r.clock row w)).1
  with_case-Quiet r command none w h = record { stopped = h; silent = refl }
  with_case-Quiet r command (some row) w h =
      let made = ensure_row setting.timestamp r.clock row w in
      let q = ensure_row-Quiet r.clock row w h in
      elim (Option-cases made.0) [
        | inl nothing ↦ rw nothing q
        | inr (c, has) ↦
            rw has (Quiet-trans w made.1 _ q (command_case-Quiet r command row c made.1 q.stopped))
      ]

  stop_all-Quiet : (actor : String) (w : Workflow F) → Quiet w (stop_all actor w)
  unfolding stop_all
  stop_all-Quiet actor w =
      let started : Workflow F = record w { stopped = true } in
      let q = for_rows-Quiet (cancel actor) (cancel-Quiet actor) w.cases started refl in
      record { stopped = q.stopped; silent = q.silent }

  answer-Quiet :
      (r : Request F) (command : Requests.Command) (w : Workflow F)
      → is_resume command ≡ false
      → w.stopped ≡ true
      → Quiet w (answer setting feed r command w).1
  unfolding answer
  answer-Quiet r stop w k h = stop_all-Quiet r.actor w
  answer-Quiet r resume w k h = absurd (cc)
  answer-Quiet r undo_block w k h = with_case-Quiet r undo_block (detail r.event_id feed) w h
  answer-Quiet r reviewed w k h = with_case-Quiet r reviewed (detail r.event_id feed) w h
  answer-Quiet r reject w k h = with_case-Quiet r reject (detail r.event_id feed) w h
  answer-Quiet r defer w k h = with_case-Quiet r defer (detail r.event_id feed) w h
  answer-Quiet r schedule w k h = with_case-Quiet r schedule (detail r.event_id feed) w h
  answer-Quiet r unknown w k h = with_case-Quiet r unknown (detail r.event_id feed) w h

  pub control-Quiet :
      (r : Request F) (w : Workflow F)
      → is_resume r.command ≡ false
      → w.stopped ≡ true
      → Quiet w (control setting feed r w).1
  unfolding control
  control-Quiet r w k h = elim (Bool-cases (leb (len r.event_id) 128)) [
    | inl short ↦ rw short (answer-Quiet r r.command w k h)
    | inr long ↦ rw long (record { stopped = h; silent = refl })
  ]
