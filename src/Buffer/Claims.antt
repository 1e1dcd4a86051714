-- ===== src/Buffer/Claims.antt =====
-- The row that a claim takes.
use arbiter_ai.Base.{
  ℕ, ◌<◌, ◌≤◌, String, ◌≡◌, refl, sym, ap, ◌∙◌, Bool, true, none, some, List, [], ◌∷◌, keep, All,
  All-map, Among, Bool-cases, Option-cases, inl, inr, arith, eqb, if◌then◌else◌, &&-left, ◌↔◌,
}
use arbiter_ai.Values.{Runtime}
use arbiter_ai.Buffer.{
  Row, Buffer, RowState, pending, processing, done, failed, is_open, is_pending, depth, update_row,
  ready, first_by, started, candidate, claim,
}
use arbiter_ai.Buffer.Rows.{Ascending, depth-map}

pending_open : (s : RowState) → is_pending s ≡ true → is_open s ≡ true
pending_open pending h = refl
pending_open processing h = refl
pending_open done h = absurd (cc)
pending_open failed h = absurd (cc)

module _ {F P : Type 0} where
  first_by-Among :
      (before : Row F P → Row F P → Bool) (rows : List (Row F P)) (c : Row F P)
      → first_by before rows ≡ some c
      → Among c rows
  unfolding first_by
  first_by-Among before [] c h = absurd (cc)
  first_by-Among before (r ∷ rows) c h = elim (Option-cases (first_by before rows)) [
    | inl alone ↦ inl (ground (arith, alone, h))
    | inr (best, found) ↦ elim (Bool-cases (before best r)) [
      | inl wins ↦ inr (first_by-Among before rows c (ground (arith, found, wins, h)))
      | inr loses ↦ inl (ground (arith, found, loses, h))
    ]
  ]

  first_by-none :
      (before : Row F P → Row F P → Bool) (rows : List (Row F P))
      → first_by before rows ≡ none
      → rows ≡ []
  unfolding first_by
  first_by-none before [] h = refl
  first_by-none before (r ∷ rows) h = elim (Option-cases (first_by before rows)) [
    | inl alone ↦ absurd (ground (arith, alone, h))
    | inr (best, found) ↦ absurd (ground (arith, found, h))
  ]

  Among-kept :
      (p : Row F P → Bool) (r : Row F P) (rows kept : List (Row F P)) (c : Row F P)
      → p r ≡ true
      → (Among c kept → Among c rows × (p c ≡ true))
      → Among c (r ∷ kept)
      → Among c (r ∷ rows) × (p c ≡ true)
  Among-kept p r rows kept c passes rest (inl here) = (inl here, rw here passes)
  Among-kept p r rows kept c passes rest (inr later) =
      let (found, holds) = rest later in (inr found, holds)

  Among-keep :
      (p : Row F P → Bool) (rows : List (Row F P)) (c : Row F P)
      → Among c (keep p rows)
      → Among c rows × (p c ≡ true)
  Among-keep p [] c h = absurd h
  Among-keep p (r ∷ rows) c h = elim (Bool-cases (p r)) [
    | inl kept ↦ Among-kept p r rows (keep p rows) c kept (Among-keep p rows c) (rw kept at h)
    | inr cut ↦ let (found, passes) = Among-keep p rows c (rw cut at h) in (inr found, passes)
  ]

  above : (n : ℕ) (rows : List (Row F P)) (c : Row F P) → Ascending n rows → Among c rows → n < c.id
  above n [] c a none_left = absurd none_left
  above n (r ∷ rows) c a (inl here) = rw here a.0
  above n (r ∷ rows) c a (inr later) = omega (arith, a.0, above r.id rows c a.1 later)

  Ascending-above : (n : ℕ) (rows : List (Row F P)) → Ascending n rows → All (λ q. n < q.id) rows
  Ascending-above n [] a = tt
  Ascending-above n (r ∷ rows) a =
      (a.0, All-map (λ q high. omega (arith, high, a.0)) rows (Ascending-above r.id rows a.1))

  -- a row is the only one with its id
  only_row :
      (n : ℕ) (rows : List (Row F P)) (c : Row F P)
      → Ascending n rows
      → Among c rows
      → All (λ r. r.id ≡ c.id → r ≡ c) rows
  only_row n [] c a none_left = tt
  only_row n (r ∷ rows) c a (inl here) = (λ e. sym here, others r.id rows a.1 (ap (λ x. x.id) here))
    where
      others :
          (m : ℕ) (rest : List (Row F P))
          → Ascending m rest
          → c.id ≡ m
          → All (λ q. q.id ≡ c.id → q ≡ c) rest
      others m rest b e =
          All-map (λ q high same. absurd (omega (arith, high, same, e))) rest
            (Ascending-above m rest b)
  only_row n (r ∷ rows) c a (inr later) =
      (λ e. absurd (omega (arith, above r.id rows c a.1 later, e)), only_row r.id rows c a.1 later)

module _ {F P : Type 0} ⦃py : Runtime F⦄ where
  candidate-ready :
      (now : String) (b : Buffer F P) (c : Row F P)
      → candidate now b ≡ some c
      → Among c b.rows × (ready now c ≡ true)
  unfolding candidate
  candidate-ready now b c h = Among-keep (ready now) b.rows c (first_by-Among _ _ c h)

  claimed-open :
      (now : String) (c r : Row F P)
      → ready now c ≡ true
      → (r.id ≡ c.id → r ≡ c)
      → is_open (if eqb r.id c.id then started r else r).state ≡ true
      → is_open r.state ≡ true
  claimed-open now c r fit same opened = elim (Bool-cases (eqb r.id c.id)) [
    | inl hit ↦ rw (same (ground (arith, hit))) (pending_open c.state (&&-left _ _ fit))
    | inr miss ↦ rw miss at opened
  ]

  pub claimed-depth :
      (now : String) (b : Buffer F P) (c : Row F P)
      → Ascending 0 b.rows
      → candidate now b ≡ some c
      → depth (update_row c.id started b.rows) ≤ depth b.rows
  unfolding update_row
  claimed-depth now b c a h =
      let (found, fit) = candidate-ready now b c h in
      depth-map _ b.rows
        (All-map (λ r same. claimed-open now c r fit same) b.rows (only_row 0 b.rows c a found))

  -- Where the row ids ascend, a claim takes a row that was waiting and due, the only one with its id,
  -- and marks that row alone.
  pub claim-ready :
      (now : String) (b : Buffer F P) (c : Row F P)
      → Ascending 0 b.rows
      → (claim now b).0 ≡ some c
      → Among c b.rows
        × (ready now c ≡ true)
        × All (λ r. r.id ≡ c.id → r ≡ c) b.rows
        × ((claim now b).1.rows ≡ update_row c.id started b.rows)
  unfolding claim
  claim-ready now b c a h = elim (Option-cases (candidate now b)) [
    | inl idle ↦ absurd (ground (arith, idle, h))
    | inr (r, taken) ↦
        let same : r ≡ c = ground (arith, taken, h) in
        let (found, fit) = candidate-ready now b c (taken ∙ ap (λ x. some x) same) in
        (found, fit, only_row 0 b.rows c a found, rw (taken, claim, same))
  ]

  -- A claim comes back empty exactly if no row is waiting and due.
  pub claim-none_iff :
      (now : String) (b : Buffer F P) → ((claim now b).0 ≡ none) ↔ (keep (ready now) b.rows ≡ [])
  unfolding claim candidate first_by
  claim-none_iff now b = (empty, λ none_ready. rw (claim, candidate, none_ready))
    where
      empty : (claim now b).0 ≡ none → keep (ready now) b.rows ≡ []
      empty h = elim (Option-cases (candidate now b)) [
        | inl idle ↦ first_by-none _ _ idle
        | inr (r, taken) ↦ absurd (ground (arith, taken, h))
      ]
