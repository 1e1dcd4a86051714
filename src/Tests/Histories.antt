-- ===== src/Tests/Histories.antt =====
-- Runs over the memory, and its theorems at concrete inputs.

use arbiter_ai.Base.{
  ℕ, ◌<◌, String, ◌≡◌, ◌≢◌, ◌⊎◌, ◌↔◌, refl, true, false, List, [], ◌∷◌, ◌++◌, arith,
}
use arbiter_ai.Values.{Value}
use arbiter_ai.Schema.{suppress}
use arbiter_ai.Memory.{counts, history, label_verdicts, memory_run}
use arbiter_ai.Memory.Cache.{Access, accesses, history-accesses}
use arbiter_ai.Memory.Labels.{history-label_verdicts}
use arbiter_ai.Memory.Facts.{Briefing, save_briefing, facts_for, scoped_fact, briefing_row, next_id}
use arbiter_ai.Memory.Facts.Briefings.{facts_for-save_briefing}
use arbiter_ai.Guardrails.{guardrail_run}
use arbiter_ai.Facts.{facts_run}
use arbiter_ai.Prefilter
use arbiter_ai.Prefilter.{routine_telemetry, history_key, prefilter_run}
use arbiter_ai.Prefilter.Exact.{outcome, Keeps, prefilter-outcome}
use arbiter_ai.Prefilter.Safety.{Warrant, suppress_iff-Warrant, overruled-never_suppressed}
use arbiter_ai.Tests.Fixtures.{spike, memory, memory-IsCoherent, benign_verdict, thousandths}

abbrev disk : String
disk = "disk:io_spike:web-01"

abbrev steps : List (Access ℕ)
steps =
    Access.read disk
    ∷ Access.decide benign_verdict Value.null
    ∷ Access.read disk
    ∷ Access.label disk "overruled"
    ∷ []

history-accesses_example :
    (history disk (accesses steps memory)).0 ≡ counts disk (accesses steps memory).verdicts
history-accesses_example = history-accesses steps disk memory memory-IsCoherent

counted_run :
    ((history disk (accesses steps memory)).0.total ≡ 6)
    × ((history disk (accesses steps memory)).0.overruled ≡ 6)
unfolding memory_run
counted_run = (refl, refl)

history-label_verdicts_example :
    let after = (history disk (label_verdicts disk "overruled" memory)).0 in
    let before = counts disk memory.verdicts in
    (after.total ≡ before.total)
    × (after.suppressed ≡ before.suppressed)
    × (after.escalated ≡ before.escalated)
    × (after.overruled ≡ before.suppressed)
    × (after.false_alarms ≡ before.escalated)
history-label_verdicts_example = history-label_verdicts disk "overruled" memory memory-IsCoherent

abbrev briefing : Briefing
briefing = record {
  host = "web-01";
  fact = "nightly backup";
  role = "web";
  priority = "critical";
  expires_at = "2026-02";
}

facts_for-save_briefing_example :
    facts_for "web-01" "disk" "2026-01" (save_briefing briefing "ann" "2026-01" memory).1
    ≡ facts_for "web-01" "disk" "2026-01" memory
      ++ (scoped_fact (briefing_row (next_id memory.facts) briefing "ann" "2026-01") ∷ [])
facts_for-save_briefing_example =
    facts_for-save_briefing briefing "ann" "2026-01" "web-01" "disk" "2026-01" memory refl

prefilter-outcome_example :
    ((Prefilter.prefilter spike memory).0 ≡ outcome spike memory)
    × Keeps memory (Prefilter.prefilter spike memory).1
prefilter-outcome_example = prefilter-outcome spike memory memory-IsCoherent

suppress_iff-Warrant_example :
    ((Prefilter.prefilter spike memory).0.decision ≡ suppress)
    ↔ ((routine_telemetry spike ≡ true) ⊎ Warrant spike memory)
suppress_iff-Warrant_example = suppress_iff-Warrant spike memory memory-IsCoherent

seen_benign : 0 < (counts (history_key spike) memory.verdicts).suppressed
unfolding memory_run prefilter_run
seen_benign = omega arith

spike_busy : routine_telemetry spike ≡ false
unfolding guardrail_run facts_run memory_run prefilter_run
spike_busy = refl

overruled-never_suppressed_example :
    (Prefilter.prefilter spike (label_verdicts (history_key spike) "overruled" memory)).0.decision
    ≢ suppress
overruled-never_suppressed_example =
    overruled-never_suppressed spike memory memory-IsCoherent seen_benign spike_busy
