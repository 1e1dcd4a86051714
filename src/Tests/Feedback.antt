-- ===== src/Tests/Feedback.antt =====
-- Runs of the review, and its theorem at a concrete input.
use arbiter_ai.Base.{String, ◌≡◌, refl, true, some, none, [], ◌∷◌, List, map}
use arbiter_ai.Memory.{history, memory_run}
use arbiter_ai.Review.{TrailEntry, ReviewItem, group_items, apply_feedback, prompt_fact, review_run}
use arbiter_ai.Tests.Fixtures.{memory}

abbrev line : String → TrailEntry
line s = record {
  signature = s;
  decision = "escalate";
  tier = "llm";
  message = "";
  host = "web-01";
  source = "disk";
  event_type = "io_spike";
  rationale = "";
  shadow = true;
}

abbrev trail : List TrailEntry
trail = line "a" ∷ line "b" ∷ line "" ∷ line "a" ∷ []

abbrev spike_item : ReviewItem
spike_item = record { entry = line "disk:io_spike:web-01"; count = 1 }

-- A repeated signature keeps its first place, so the one that was seen last comes second.
review_runs :
    (map (λ i. i.entry.signature) (group_items trail "all") ≡ "b" ∷ "a" ∷ [])
    × (map (λ i. i.count) (group_items trail "all") ≡ 1 ∷ 2 ∷ [])
    × (group_items trail "suppress" ≡ [])
    × ((history "disk:io_spike:web-01" (apply_feedback memory spike_item "o").1).0.overruled ≡ 5)
    × ((apply_feedback memory spike_item "s") ≡ ("", memory))
    × (prompt_fact memory spike_item (" " ∷ "x" ∷ []) ≡ some (none, (memory, "x" ∷ [])))
    × (prompt_fact memory spike_item ("backups" ∷ "x" ∷ []) ≡ none)
unfolding review_run memory_run
review_runs = (refl, refl, refl, refl, refl, refl, refl)
