-- ===== src/Workflow/Steps.antt =====
-- What happens to a workflow. An exception that ends a round is caught by `run`, which goes on with the
-- tables as the round left them.
use arbiter_ai.Base.{List, [], ◌∷◌}
use arbiter_ai.Values.{Runtime}
use arbiter_ai.Workflow.{Workflow, Setting, Feed}
use arbiter_ai.Workflow.Opening.{reopen}
use arbiter_ai.Workflow.Requests.{Request}
use arbiter_ai.Workflow.Control.{control}
use arbiter_ai.Workflow.Evidence.{Round}
use arbiter_ai.Workflow.Tick.{tick}

-- what happens to a workflow; the buffer's rows are those of the moment
pub data Step (F : Type 0) : Type 0 where
  commanded : Feed F → Request F → Step F
  ticked : Feed F → Round F → Step F
  reopened : Step F

module _ {F A N : Type 0} ⦃py : Runtime F⦄ (setting : Setting F A N) where
  abbrev pub step : Step F → Workflow F → Workflow F
  step (commanded feed r) w = (control setting feed r w).1
  step (ticked feed round) w = (tick setting feed round w).1
  step reopened w = reopen w

  abbrev pub steps : List (Step F) → Workflow F → Workflow F
  steps [] w = w
  steps (s ∷ rest) w = steps rest (step s w)
