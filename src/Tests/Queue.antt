-- ===== src/Tests/Queue.antt =====
-- Runs of the queue, and its theorems at concrete inputs.
use arbiter_ai.Base.{ℕ, String, ◌≡◌, refl, true, none, some, [], ◌∷◌, List, arith, map, All, Among}
use arbiter_ai.Buffer.{
  Row, Incoming, Buffer, known, full, clash, pending, enqueue, enqueue_many, claim, ready, started,
  update_row, buffer_run,
}
use arbiter_ai.Buffer.Rows.{IsSound}
use arbiter_ai.Buffer.Claims.{claim-ready}
use arbiter_ai.Buffer.Steps.{
  Step, import_all, take_next, analysed, clean, reopen, steps, steps-IsSound,
}
use arbiter_ai.Tests.Fixtures.{thousandths}

abbrev finding : Incoming ℕ String
finding = record {
  event_id = "a";
  received_at = "2026-01-01";
  due_at = "2026-01-01";
  priority = 9000;
  payload = "{}";
}

abbrev context : Incoming ℕ String
context = record finding { event_id = "b"; priority = 1000 }

abbrev empty : Buffer ℕ String
empty = record { rows = []; capacity = 2; claims = 0 }

empty-IsSound : IsSound empty
unfolding buffer_run
empty-IsSound = record { within = omega arith; ascending = tt; distinct = tt }

abbrev day : List (Step ℕ String)
day =
    import_all (context ∷ finding ∷ [])
    ∷ take_next "2026-01-02"
    ∷ analysed 2 (some "escalate")
    ∷ clean "2026-02-01"
    ∷ take_next "2026-01-02"
    ∷ reopen
    ∷ []

abbrev waiting : Buffer ℕ String
waiting = (enqueue_many (context ∷ finding ∷ []) empty).1

abbrev urgent : Row ℕ String
urgent = record {
  id = 2;
  event_id = "a";
  received_at = "2026-01-01";
  due_at = "2026-01-01";
  priority = 9000;
  payload = "{}";
  state = pending;
  error = "";
  attempts = 0;
  decision = none;
}

-- A known event, a full queue and a clash change nothing; the urgent row is claimed first, and each
-- hundredth time the first one; an analysed row goes with the pruning and an open one stays.
queue_runs :
    ((enqueue finding waiting).0 ≡ known)
    × ((enqueue (record finding { event_id = "c" }) waiting).0 ≡ full)
    × ((enqueue_many (finding ∷ finding ∷ []) empty) ≡ (clash, empty))
    × ((enqueue_many (finding ∷ context ∷ finding ∷ []) empty).0 ≡ full)
    × ((claim "2026-01-02" waiting).0 ≡ some urgent)
    × (((claim "2026-01-02" (record waiting { claims = 99 })).0)
        ≡ some (record urgent { id = 1; event_id = "b"; priority = 1000 }))
    × ((claim "2025-12-31" waiting).0 ≡ none)
    × (map (λ r. r.event_id) (steps day empty).rows ≡ "b" ∷ [])
    × (map (λ r. r.attempts) (steps day empty).rows ≡ 1 ∷ [])
unfolding buffer_run
queue_runs = (refl, refl, refl, refl, refl, refl, refl, refl, refl)

steps-IsSound_example : IsSound (steps day empty)
steps-IsSound_example = steps-IsSound day empty empty-IsSound

waiting-IsSound : IsSound waiting
waiting-IsSound = steps-IsSound (import_all (context ∷ finding ∷ []) ∷ []) empty empty-IsSound

claim-ready_example :
    Among urgent waiting.rows
    × (ready "2026-01-02" urgent ≡ true)
    × All (λ r. r.id ≡ urgent.id → r ≡ urgent) waiting.rows
    × ((claim "2026-01-02" waiting).1.rows ≡ update_row urgent.id started waiting.rows)
claim-ready_example = claim-ready "2026-01-02" waiting urgent waiting-IsSound.ascending queue_runs.4
