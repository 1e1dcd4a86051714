-- ===== src/Buffer/Steps.antt =====
-- Every sequence of operations keeps the queue sound.
use arbiter_ai.Base.{
  ℕ, ◌+◌, ◌<◌, String, ◌≡◌, refl, true, false, not, Option, some, List, [], ◌∷◌, map, tally-append,
  length, All, Bool-cases, Option-cases, inl, inr, arith, leb, ltb,
}
use arbiter_ai.Values.{Runtime}
use arbiter_ai.Buffer.{
  Row, Incoming, Buffer, depth, is_open, is_processing, is_stored, next_id, new_row, insert,
  enqueue, insert_all, enqueue_many, update_row, finish, fail, expired, prune, restart, candidate,
  claim, RowState, done, failed, pending, processing,
}
use arbiter_ai.Buffer.Rows.{
  IsSound, Ascending, Ascending-append, Ascending-map, Ascending-keep, Distinct, Distinct-append,
  Distinct-map, Distinct-keep, depth-map, depth-keep,
}
use arbiter_ai.Buffer.Claims.{claimed-depth}

processing_open : (s : RowState) → is_processing s ≡ true → is_open s ≡ true
processing_open pending h = absurd (cc)
processing_open processing h = refl
processing_open done h = absurd (cc)
processing_open failed h = absurd (cc)

module _ {F P : Type 0} where
  -- rows without a capacity
  record Sorted (rows : List (Row F P)) : Type 0 where
    ascending : Ascending 0 rows
    distinct : Distinct rows

  next_id-pos : (rows : List (Row F P)) → 0 < next_id rows
  unfolding next_id
  next_id-pos [] = omega arith
  next_id-pos (r ∷ rows) = omega (arith, next_id-pos rows)

  insert-Sorted :
      (e : Incoming F P) (rows : List (Row F P))
      → Sorted rows
      → is_stored e.event_id rows ≡ false
      → Sorted (insert e rows)
  unfolding new_row
  insert-Sorted e rows s fresh = record {
    ascending =
        Ascending-append 0 rows (new_row (next_id rows) e) s.ascending (next_id-pos rows)
          (omega arith);
    distinct = Distinct-append rows (new_row (next_id rows) e) s.distinct fresh;
  }

  depth-insert : (e : Incoming F P) (rows : List (Row F P)) → depth (insert e rows) ≡ depth rows + 1
  unfolding depth new_row
  depth-insert e rows =
      tally-append (λ (r : Row F P). is_open r.state) rows (new_row (next_id rows) e ∷ [])

  enqueue-IsSound : (e : Incoming F P) (b : Buffer F P) → IsSound b → IsSound (enqueue e b).1
  unfolding enqueue
  enqueue-IsSound e b s = elim (Bool-cases (is_stored e.event_id b.rows)) [
    | inl known ↦ rw known s
    | inr fresh ↦ elim (Bool-cases (leb b.capacity (depth b.rows))) [
      | inl crowded ↦ rw (fresh, crowded) s
      | inr room ↦
          let t =
            insert-Sorted e b.rows (record { ascending = s.ascending; distinct = s.distinct })
              fresh in
          rw (fresh, room)
            (record {
              within = ground (arith, depth-insert e b.rows, room);
              ascending = t.ascending;
              distinct = t.distinct;
            })
    ]
  ]

  -- what the inserts of an import give
  record Imported (es : List (Incoming F P)) (rows rows' : List (Row F P)) : Type 0 where
    sorted : Sorted rows'
    deep : depth rows' ≡ depth rows + length es

  insert_all-Imported :
      (es : List (Incoming F P)) (rows rows' : List (Row F P))
      → Sorted rows
      → insert_all es rows ≡ some rows'
      → Imported es rows rows'
  unfolding insert_all
  insert_all-Imported [] rows rows' s h =
      let same : rows ≡ rows' = ground (arith, h) in
      record { sorted = rw (← same) s; deep = rw (← same) (omega arith) }
  insert_all-Imported (e ∷ es) rows rows' s h = elim (Bool-cases (is_stored e.event_id rows)) [
    | inl known ↦ absurd (ground (arith, known, h))
    | inr fresh ↦
        let rest =
          insert_all-Imported es (insert e rows) rows' (insert-Sorted e rows s fresh)
            (rw fresh at h) in
        record { sorted = rest.sorted; deep = omega (arith, rest.deep, depth-insert e rows) }
  ]

  enqueue_many-IsSound :
      (es : List (Incoming F P)) (b : Buffer F P) → IsSound b → IsSound (enqueue_many es b).1
  unfolding enqueue_many
  enqueue_many-IsSound es b s = elim (Bool-cases (ltb b.capacity (depth b.rows + length es))) [
    | inl crowded ↦ rw crowded s
    | inr room ↦ elim (Option-cases (insert_all es b.rows)) [
      | inl clashes ↦ rw (room, clashes) s
      | inr (rows', stored) ↦
          let i =
            insert_all-Imported es b.rows rows'
              (record { ascending = s.ascending; distinct = s.distinct }) stored in
          rw (room, stored)
            (record {
              within = ground (arith, i.deep, room);
              ascending = i.sorted.ascending;
              distinct = i.sorted.distinct;
            })
    ]
  ]

  -- a change of the rows that keeps the ids and opens none
  map-IsSound :
      (f : Row F P → Row F P) (claims : ℕ) (b : Buffer F P)
      → ((r : Row F P) → (f r).id ≡ r.id)
      → ((r : Row F P) → (f r).event_id ≡ r.event_id)
      → All (λ r. is_open (f r).state ≡ true → is_open r.state ≡ true) b.rows
      → IsSound b
      → IsSound (record b { rows = map f b.rows; claims = claims })
  map-IsSound f claims b id event_id shut s = record {
    within = omega (arith, s.within, depth-map f b.rows shut);
    ascending = Ascending-map f id 0 b.rows s.ascending;
    distinct = Distinct-map f event_id b.rows s.distinct;
  }

  -- what holds of every row
  everywhere : {Q : Row F P → Type 0} → ((r : Row F P) → Q r) → (rows : List (Row F P)) → All Q rows
  everywhere f [] = tt
  everywhere f (r ∷ rows) = (f r, everywhere f rows)

  finish-IsSound :
      (id : ℕ) (decision : Option String) (b : Buffer F P)
      → IsSound b
      → IsSound (finish id decision b)
  unfolding finish update_row
  finish-IsSound id decision b s =
      map-IsSound _ b.claims b (λ r. ground arith) (λ r. ground arith)
        (everywhere (λ r. λ h. ground (arith, h)) b.rows) s

  fail-IsSound : (id : ℕ) (b : Buffer F P) → IsSound b → IsSound (fail id b)
  unfolding fail update_row
  fail-IsSound id b s =
      map-IsSound _ b.claims b (λ r. ground arith) (λ r. ground arith)
        (everywhere (λ r. λ h. ground (arith, h)) b.rows) s

  prune-IsSound : (cutoff : String) (b : Buffer F P) → IsSound b → IsSound (prune cutoff b)
  unfolding prune
  prune-IsSound cutoff b s = record {
    within = omega (arith, s.within, depth-keep (λ r. not (expired cutoff r)) b.rows);
    ascending = Ascending-keep _ 0 b.rows s.ascending;
    distinct = Distinct-keep _ b.rows s.distinct;
  }

  restart-IsSound : (b : Buffer F P) → IsSound b → IsSound (restart b)
  unfolding restart
  restart-IsSound b s =
      map-IsSound _ 0 b (λ r. ground arith) (λ r. ground arith)
        (everywhere (λ r. λ h. ground (arith, h, processing_open r.state)) b.rows) s

module _ {F P : Type 0} ⦃py : Runtime F⦄ where
  claim-IsSound : (now : String) (b : Buffer F P) → IsSound b → IsSound (claim now b).1
  unfolding claim update_row
  claim-IsSound now b s = elim (Option-cases (candidate now b)) [
    | inl idle ↦ rw (idle, claim) s
    | inr (c, taken) ↦
        rw (taken, claim)
          (record {
            within = omega (arith, s.within, claimed-depth now b c s.ascending taken);
            ascending = Ascending-map _ (λ r. ground arith) 0 b.rows s.ascending;
            distinct = Distinct-map _ (λ r. ground arith) b.rows s.distinct;
          })
  ]

-- what happens to the queue
pub data Step (F P : Type 0) : Type 0 where
  arrive : Incoming F P → Step F P
  import_all : List (Incoming F P) → Step F P
  take_next : String → Step F P
  analysed : ℕ → Option String → Step F P
  gave_up : ℕ → Step F P
  clean : String → Step F P
  reopen : Step F P

module _ {F P : Type 0} ⦃py : Runtime F⦄ where
  abbrev pub step : Step F P → Buffer F P → Buffer F P
  step (arrive e) b = (enqueue e b).1
  step (import_all es) b = (enqueue_many es b).1
  step (take_next now) b = (claim now b).1
  step (analysed id decision) b = finish id decision b
  step (gave_up id) b = fail id b
  step (clean cutoff) b = prune cutoff b
  step reopen b = restart b

  abbrev pub steps : List (Step F P) → Buffer F P → Buffer F P
  steps [] b = b
  steps (s ∷ rest) b = steps rest (step s b)

  step-IsSound : (s : Step F P) (b : Buffer F P) → IsSound b → IsSound (step s b)
  step-IsSound (arrive e) b h = enqueue-IsSound e b h
  step-IsSound (import_all es) b h = enqueue_many-IsSound es b h
  step-IsSound (take_next now) b h = claim-IsSound now b h
  step-IsSound (analysed id decision) b h = finish-IsSound id decision b h
  step-IsSound (gave_up id) b h = fail-IsSound id b h
  step-IsSound (clean cutoff) b h = prune-IsSound cutoff b h
  step-IsSound reopen b h = restart-IsSound b h

  -- From a sound queue, after any sequence of arrivals, imports, claims, results, failures, prunings
  -- and restarts, the open rows do not exceed the capacity, no event is stored twice, and the row ids
  -- ascend.
  pub steps-IsSound : (ss : List (Step F P)) (b : Buffer F P) → IsSound b → IsSound (steps ss b)
  steps-IsSound [] b h = h
  steps-IsSound (s ∷ rest) b h = steps-IsSound rest (step s b) (step-IsSound s b h)
