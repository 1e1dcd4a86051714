-- ===== src/Buffer/Rows.antt =====
-- What the changes to the rows of the queue keep: distinct event ids, ascending row ids, the depth.
use arbiter_ai.Base.{
  ℕ, ◌<◌, ◌≤◌, String, ◌≡◌, refl, Bool, true, false, List, [], ◌∷◌, ◌++◌, ◌==◌, map, keep, All,
  Bool-cases, inl, inr, arith, eq_iff, eq_refl,
}
use arbiter_ai.Buffer.{Row, Buffer, is_open, depth, is_stored, next_id}

eqb_sym : (s t : String) → (s == t) ≡ false → (t == s) ≡ false
eqb_sym s t h = elim (Bool-cases (t == s)) [
  | inr other ↦ other
  | inl same ↦ absurd (cc (h, (eq_iff t s).0 same, eq_refl s))
]

module _ {F P : Type 0} where
  -- the row ids ascend from above a bound
  abbrev pub Ascending : ℕ → List (Row F P) → Type 0
  Ascending n [] = Unit
  Ascending n (r ∷ rows) = (n < r.id) × Ascending r.id rows

  abbrev pub Distinct : List (Row F P) → Type 0
  Distinct [] = Unit
  Distinct (r ∷ rows) = (is_stored r.event_id rows ≡ false) × Distinct rows

  -- A sound queue.
  pub record IsSound (b : Buffer F P) : Type 0 where
    pub within : depth b.rows ≤ b.capacity
    pub ascending : Ascending 0 b.rows
    pub distinct : Distinct b.rows

  pub Ascending-weaken :
      (m n : ℕ) (rows : List (Row F P)) → m ≤ n → Ascending n rows → Ascending m rows
  Ascending-weaken m n [] h a = tt
  Ascending-weaken m n (r ∷ rows) h a = (omega (arith, h, a.0), a.1)

  -- a row whose id is above all others may follow
  pub Ascending-append :
      (n : ℕ) (rows : List (Row F P)) (r : Row F P)
      → Ascending n rows
      → n < r.id
      → next_id rows ≤ r.id
      → Ascending n (rows ++ (r ∷ []))
  unfolding next_id
  Ascending-append n [] r a h k = (h, tt)
  Ascending-append n (q ∷ rows) r a h k =
      (a.0, Ascending-append q.id rows r a.1 (omega (arith, k)) (omega (arith, k)))

  pub Ascending-map :
      (f : Row F P → Row F P)
      → ((r : Row F P) → (f r).id ≡ r.id)
      → (n : ℕ) (rows : List (Row F P)) → Ascending n rows
      → Ascending n (map f rows)
  Ascending-map f same n [] a = tt
  Ascending-map f same n (r ∷ rows) a = rw (same r) (a.0, Ascending-map f same r.id rows a.1)

  pub Ascending-keep :
      (p : Row F P → Bool) (n : ℕ) (rows : List (Row F P))
      → Ascending n rows
      → Ascending n (keep p rows)
  Ascending-keep p n [] a = tt
  Ascending-keep p n (r ∷ rows) a = elim (Bool-cases (p r)) [
    | inl kept ↦ rw kept (a.0, Ascending-keep p r.id rows a.1)
    | inr cut ↦
        rw cut (Ascending-keep p n rows (Ascending-weaken n r.id rows (omega (arith, a.0)) a.1))
  ]

  is_stored-append :
      (s : String) (rows : List (Row F P)) (r : Row F P)
      → is_stored s rows ≡ false
      → (r.event_id == s) ≡ false
      → is_stored s (rows ++ (r ∷ [])) ≡ false
  unfolding is_stored
  is_stored-append s [] r h k = ground (arith, k)
  is_stored-append s (q ∷ rows) r h k = ground (arith, h, is_stored-append s rows r, k)

  pub Distinct-append :
      (rows : List (Row F P)) (r : Row F P)
      → Distinct rows
      → is_stored r.event_id rows ≡ false
      → Distinct (rows ++ (r ∷ []))
  unfolding is_stored
  Distinct-append [] r d h = (refl, tt)
  Distinct-append (q ∷ rows) r d h = elim (Bool-cases (q.event_id == r.event_id)) [
    | inl same ↦ absurd (ground (arith, same, h))
    | inr other ↦ (
      is_stored-append q.event_id rows r d.0 (eqb_sym q.event_id r.event_id other),
      Distinct-append rows r d.1 (rw other at h),
    )
  ]

  is_stored-map :
      (f : Row F P → Row F P)
      → ((r : Row F P) → (f r).event_id ≡ r.event_id)
      → (s : String) (rows : List (Row F P)) → is_stored s (map f rows) ≡ is_stored s rows
  unfolding is_stored
  is_stored-map f same s [] = refl
  is_stored-map f same s (r ∷ rows) = rw (same r, is_stored-map f same s rows)

  pub Distinct-map :
      (f : Row F P → Row F P)
      → ((r : Row F P) → (f r).event_id ≡ r.event_id)
      → (rows : List (Row F P)) → Distinct rows
      → Distinct (map f rows)
  Distinct-map f same [] d = tt
  Distinct-map f same (r ∷ rows) d =
      (rw (same r, is_stored-map f same r.event_id rows) d.0, Distinct-map f same rows d.1)

  is_stored-keep :
      (p : Row F P → Bool) (s : String) (rows : List (Row F P))
      → is_stored s rows ≡ false
      → is_stored s (keep p rows) ≡ false
  unfolding is_stored
  is_stored-keep p s [] h = refl
  is_stored-keep p s (r ∷ rows) h = ground (arith, h, is_stored-keep p s rows)

  pub Distinct-keep :
      (p : Row F P → Bool) (rows : List (Row F P)) → Distinct rows → Distinct (keep p rows)
  Distinct-keep p [] d = tt
  Distinct-keep p (r ∷ rows) d = elim (Bool-cases (p r)) [
    | inl kept ↦ rw kept (is_stored-keep p r.event_id rows d.0, Distinct-keep p rows d.1)
    | inr cut ↦ rw cut (Distinct-keep p rows d.1)
  ]

  pub depth-map :
      (f : Row F P → Row F P) (rows : List (Row F P))
      → All (λ r. is_open (f r).state ≡ true → is_open r.state ≡ true) rows
      → depth (map f rows) ≤ depth rows
  unfolding depth
  depth-map f [] h = omega arith
  depth-map f (r ∷ rows) h = ground (arith, h.0, depth-map f rows h.1)

  pub depth-keep : (p : Row F P → Bool) (rows : List (Row F P)) → depth (keep p rows) ≤ depth rows
  unfolding depth
  depth-keep p [] = omega arith
  depth-keep p (r ∷ rows) = ground (arith, depth-keep p rows)
