-- ===== src/Buffer.antt =====
-- arbiter/ingestion/store.py: the durable queue of `EventBuffer`, with the `telemetry` table as a list
-- of rows. The payload of an event is a parameter.
pub mod Rows
pub mod Claims
pub mod Steps
use Prim.Native.String.{compare}
use Prim.Native.Nat.{max}
use text.Mathlib.Text.{is_lt}
use arbiter_ai.Base.{
  ℕ, suc, ◌+◌, ◌%◌, String, Bool, true, false, not, ◌&&◌, ◌||◌, Option, none, some, List, [], ◌∷◌,
  ◌++◌, ◌==◌, map, eqb, leb, ltb, if◌then◌else◌, keep, tally, any, length, is_some,
}
use arbiter_ai.Values.{Runtime}
use arbiter_ai.Schema.{Event}
use arbiter_ai.Guardrails.{guardrail_check}
use arbiter_ai.Prefilter.{routine_telemetry}

pub data RowState : Type 0 where
  pending processing done failed : RowState

-- What a security event brings to the table. `priority` is that of `event_priority`.
pub record Incoming (F P : Type 0) : Type 0 where
  pub event_id : String
  pub received_at : String
  pub due_at : String
  pub priority : F
  pub payload : P

-- the columns of `telemetry` that the queue reads or writes
pub record Row (F P : Type 0) : Type 0 where
  pub id : ℕ
  pub event_id : String
  pub received_at : String
  pub due_at : String
  pub priority : F
  pub payload : P
  pub state : RowState
  pub error : String
  pub attempts : ℕ
  pub decision : Option String

pub record Buffer (F P : Type 0) : Type 0 where
  pub rows : List (Row F P)
  pub capacity : ℕ
  pub claims : ℕ

-- What an import does: it returns True or False, or raises BufferFull or an IntegrityError.
pub data Intake : Type 0 where
  queued known full clash : Intake

abbrev pub is_pending : RowState → Bool
is_pending pending = true
is_pending _ = false

-- `state IN ('pending','processing')`
abbrev pub is_open : RowState → Bool
is_open pending = true
is_open processing = true
is_open _ = false

abbrev pub is_processing : RowState → Bool
is_processing processing = true
is_processing _ = false

-- `a < b` and `a <= b` of texts
abbrev pub earlier : String → String → Bool
earlier a b = is_lt (compare a b)

abbrev pub no_later : String → String → Bool
no_later a b = not (earlier b a)

module _ {F : Type 0} ⦃py : Runtime F⦄ where
  abbrev at_least_as : F → F → F
  at_least_as a b = if py.lt a b then b else a

  -- `event_priority`, of the event's severity and its legacy form with the collector's mark on it
  unfoldable pub event_priority : F → Event F → F
  event_priority severity legacy =
      let floor = if routine_telemetry legacy then py.lit 65 10 else py.lit 0 1 in
      if is_some (guardrail_check legacy)
      then at_least_as severity (py.lit 9 1)
      else at_least_as severity floor

module _ {F P : Type 0} where
  -- the rows that wait or are worked on
  unfoldable pub depth : List (Row F P) → ℕ
  depth = tally (λ r. is_open r.state)

  unfoldable pub is_stored : String → List (Row F P) → Bool
  is_stored event_id rows = any (λ r. r.event_id == event_id) rows

  -- the `INTEGER PRIMARY KEY` that SQLite gives to a new row
  pub next_id : List (Row F P) → ℕ
  next_id [] = 1
  next_id (r ∷ rows) = max (suc r.id) (next_id rows)

  pub new_row : ℕ → Incoming F P → Row F P
  new_row id e = record {
    id = id;
    event_id = e.event_id;
    received_at = e.received_at;
    due_at = e.due_at;
    priority = e.priority;
    payload = e.payload;
    state = pending;
    error = "";
    attempts = 0;
    decision = none;
  }

  abbrev pub insert : Incoming F P → List (Row F P) → List (Row F P)
  insert e rows = rows ++ (new_row (next_id rows) e ∷ [])

  unfoldable pub enqueue : Incoming F P → Buffer F P → Intake × Buffer F P
  enqueue e b =
      if is_stored e.event_id b.rows
      then (known, b)
      else if leb b.capacity (depth b.rows)
      then (full, b)
      else (queued, record b { rows = insert e b.rows })

  -- the inserts of `enqueue_many`; `none` is the clash of two event ids
  pub insert_all : List (Incoming F P) → List (Row F P) → Option (List (Row F P))
  insert_all [] rows = some rows
  insert_all (e ∷ es) rows =
      let rest = insert_all es (insert e rows) in if is_stored e.event_id rows then none else rest

  -- `enqueue_many`: all the events or, as the transaction is rolled back, none
  unfoldable pub enqueue_many : List (Incoming F P) → Buffer F P → Intake × Buffer F P
  enqueue_many es b =
      if ltb b.capacity (depth b.rows + length es) then (full, b) else elim (insert_all es b.rows) [
        | none ↦ (clash, b)
        | some rows ↦ (queued, record b { rows = rows })
      ]

  -- `UPDATE telemetry SET ... WHERE id=?`
  unfoldable pub update_row : ℕ → (Row F P → Row F P) → List (Row F P) → List (Row F P)
  update_row id f rows = map (λ r. if eqb r.id id then f r else r) rows

  abbrev pub ready : String → Row F P → Bool
  ready now r = is_pending r.state && no_later r.due_at now

  abbrev pub before_due : Row F P → Row F P → Bool
  before_due a b = earlier a.due_at b.due_at || (not (earlier b.due_at a.due_at) && ltb a.id b.id)

  -- `ORDER BY ... LIMIT 1`
  pub first_by : (Row F P → Row F P → Bool) → List (Row F P) → Option (Row F P)
  first_by before [] = none
  first_by before (r ∷ rows) = elim (first_by before rows) [
    | none ↦ some r
    | some best ↦ some (if before best r then best else r)
  ]

  abbrev pub started : Row F P → Row F P
  started r = record r { state = processing; attempts = r.attempts + 1 }

  -- `finish`, with the decision of the analysis
  unfoldable pub finish : ℕ → Option String → Buffer F P → Buffer F P
  finish id decision b = record b {
    rows = update_row id (λ r. record r { state = done; error = ""; decision = decision }) b.rows;
  }

  unfoldable pub fail : ℕ → Buffer F P → Buffer F P
  fail id b = record b {
    rows =
        update_row id
          (λ r. record r {
            state = failed;
            error = "Analysis failed; administrator review required";
          })
          b.rows;
  }

  -- the deletion of `prune`, at its cutoff
  abbrev pub expired : String → Row F P → Bool
  expired cutoff r = earlier r.received_at cutoff && not (is_open r.state)

  unfoldable pub prune : String → Buffer F P → Buffer F P
  prune cutoff b = record b { rows = keep (λ r. not (expired cutoff r)) b.rows }

  -- what the constructor does to a buffer that a stopped worker left
  unfoldable pub restart : Buffer F P → Buffer F P
  restart b = record b {
    rows = map (λ r. if is_processing r.state then record r { state = pending } else r) b.rows;
    claims = 0;
  }

module _ {F P : Type 0} ⦃py : Runtime F⦄ where
  abbrev pub before_urgent : Row F P → Row F P → Bool
  before_urgent a b =
      py.lt b.priority a.priority || (not (py.lt a.priority b.priority) && before_due a b)

  -- the candidate of `claim`: the most urgent row, and each hundredth time the row that is due first
  unfoldable pub candidate : String → Buffer F P → Option (Row F P)
  unfolding first_by
  candidate now b =
      first_by (if eqb (b.claims % 100) 99 then before_due else before_urgent)
        (keep (ready now) b.rows)

  -- `claim`: the row as it was before it is marked
  unfoldable pub claim : String → Buffer F P → Option (Row F P) × Buffer F P
  claim now b = elim (candidate now b) [
    | none ↦ (none, b)
    | some r ↦ (some r, record b { rows = update_row r.id started b.rows; claims = b.claims + 1 })
  ]

-- what a run of the queue computes with
unfoldable pub buffer_run : Unit {0}
unfolding depth is_stored next_id new_row enqueue insert_all enqueue_many update_row first_by finish
    fail prune restart candidate claim
buffer_run = tt
