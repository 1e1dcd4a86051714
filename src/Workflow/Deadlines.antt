-- ===== src/Workflow/Deadlines.antt =====
-- What a round of the scheduler does about the deadlines.
use arbiter_ai.Base.{◌≡◌, Bool, true, false, ◌&&◌, ◌⊎◌, List, All, Among}
use arbiter_ai.Values.{Runtime}
use arbiter_ai.Protection.{Store}
use arbiter_ai.Workflow.{Case, Workflow, Setting, Feed, executing, is_pending}
use arbiter_ai.Workflow.Opening.{is_past}
use arbiter_ai.Workflow.Evidence.{Round, aborted, block_on_device}

module _ {F A N : Type 0} ⦃py : Runtime F⦄ (setting : Setting F A N) (feed : Feed F)
    (round : Round F) where
  -- The case does not wait past the deadline that the round compares.
  abbrev pub OnTime : Case F → Type 0
  OnTime c = (is_pending c.state && is_past (round.due c.event_id) c.limit) ≡ false

  -- a case that is marked as executing, and that an exception left in its attempt at the block
  abbrev pub Left : List (Case F) → Type 0
  Left cs =
      (c : Case F) × Among c cs
      × (c.state ≡ executing)
      × (before : Case F) × (before.event_id ≡ c.event_id)
      × (s : Store) × ((block_on_device setting feed round before s).0 ≡ aborted)

  -- A round that goes through leaves every case on time. One that an exception ended is of a live system,
  -- and leaves the case that was executing.
  abbrev pub Rounded : Bool × Workflow F → Type 0
  Rounded r =
      ((r.0 ≡ true) × All OnTime r.1.cases)
      ⊎ ((r.0 ≡ false) × (setting.simulation ≡ false) × Left r.1.cases)

  -- every row of the table is on time, or still comes in the loop
  abbrev Covered : List (Case F) → List (Case F) → Type 0
  Covered rest cs = (c : Case F) → Among c cs → OnTime c ⊎ Among c rest

  abbrev Met : List (Case F) → Bool × Workflow F → Type 0
  Met rest (done, w) =
      ((done ≡ true) × Covered rest w.cases)
      ⊎ ((done ≡ false) × (setting.simulation ≡ false) × Left w.cases)
