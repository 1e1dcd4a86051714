-- ===== src/Protection/Recovery.antt =====
-- What the recovery of interrupted and expired blocks reaches.
use arbiter_ai.Base.{
  String, ◌≡◌, refl, sym, ap, ◌∙◌, Bool, true, false, not, ◌&&◌, ◌||◌, Option, List, [], ◌∷◌, ◌==◌,
  map, if◌then◌else◌, any, All, All-intro, All-map, All-map_intro, Among, keep-intro, any-intro,
  Bool-cases, Option-cases, inl, inr, ◌⊎◌, arith, eq_iff, eq_refl, find_first, find_first-none,
}
use arbiter_ai.Containment.{Addresses}
use arbiter_ai.Protection.{
  Action, lift, ask_removed, Firewall, Store, Config, Status, pending, cleanup_failed, undone,
  is_executed, is_active, is_given, set_status, has_passed,
}
use arbiter_ai.Protection.Operations.{
  Clock, changed, undo, recover, recover_all, reconcile, active_actions, is_stale, final_status,
  is_outside,
}
use arbiter_ai.Protection.Commands.{changed-actions}

abbrev is_pending : Status → Bool
is_pending pending = true
is_pending _ = false

-- neither pending nor executed
abbrev is_idle : Status → Bool
is_idle s = not (is_pending s || is_executed s)

abbrev mark : String → Status → Action → Action
mark id status a = if a.id == id then record a { status = status } else a

map-mark_absent :
    (id : String) (status : Status) (xs : List Action)
    → All (λ a. (a.id == id) ≡ false) xs
    → map (mark id status) xs ≡ xs
map-mark_absent id status [] h = refl
map-mark_absent id status (a ∷ xs) h = rw (h.0, map-mark_absent id status xs h.1)

mark-mark : (id : String) (t u : Status) (a : Action) → mark id t (mark id u a) ≡ mark id t a
mark-mark id t u a = elim (Bool-cases (a.id == id)) [
  | inl hit ↦ rw (hit, hit)
  | inr miss ↦ rw (miss, miss)
]

map-mark_twice :
    (id : String) (t u : Status) (xs : List Action)
    → map (mark id t) (map (mark id u) xs) ≡ map (mark id t) xs
map-mark_twice id t u [] = refl
map-mark_twice id t u (a ∷ xs) = rw (mark-mark id t u a, map-mark_twice id t u xs)

module _ {A N : Type 0} (ip : Addresses A N) (firewall : Firewall) (config : Config N)
    (clock : Clock) where
  -- A block that was interrupted, or that counts as executed and is past its time or outside the scope.
  unfoldable pub is_unsettled : Action → Bool
  is_unsettled a =
      is_pending a.status
      || (is_executed a.status
          && (has_passed a.expires_at (clock.looked a.id)
              || is_outside ip firewall config clock config.scope a.target))

  module _ (now id : String) (s : Store) where
    abbrev undoing : Option (List Action) × Store
    undoing = undo firewall config.verify now id "agent-recovery" s

    -- how an undoing that finds its row, or does not, leaves the table
    undo-actions :
        ((is_given undoing.0 ≡ true) × (undoing.1.actions ≡ map (mark id undone) s.actions))
        ⊎ ((is_given undoing.0 ≡ false)
            × (undoing.1.actions ≡ map (mark id cleanup_failed) s.actions))
    unfolding undo set_status
    undo-actions =
        let c = changed firewall config.verify (lift id) (ask_removed id) s in
        let same = changed-actions firewall config.verify (lift id) (ask_removed id) s in
        elim (Option-cases (find_first (λ a. a.id == id) s.actions)) [
          | inl unknown ↦ inr (
            rw (unknown, undo),
            rw (unknown, undo)
                (sym (
                  map-mark_absent id cleanup_failed s.actions
                    (find_first-none _ s.actions unknown))),
          )
          | inr (row, known) ↦ elim (Bool-cases c.0) [
            | inl lifted ↦ inl (
              rw (known, undo, lifted),
              rw (known, undo, lifted) (ap (map (mark id undone)) same),
            )
            | inr stuck ↦ inr (
              rw (known, undo, stuck),
              rw (known, undo, stuck) (ap (map (mark id cleanup_failed)) same),
            )
          ]
        ]

  -- The recovery of a stale row leaves that row idle, and every other as it was.
  recover-actions :
      (r : Action) (s : Store)
      → is_stale ip firewall config clock r ≡ true
      → (t : Status) × (is_idle t ≡ true)
        × ((recover ip firewall config clock r s).actions ≡ map (mark r.id t) s.actions)
  unfolding recover set_status
  recover-actions r s stale = elim (undo-actions (clock.undone_at r.id) r.id s) [
    | inl (given, changed_rows) ↦
        let t = final_status ip firewall config clock r in
        (
          t,
          ground arith,
          rw (stale, given)
              (ap (map (mark r.id t)) changed_rows ∙ map-mark_twice r.id t undone s.actions),
        )
    | inr (kept, changed_rows) ↦ (cleanup_failed, refl, rw (stale, kept) changed_rows)
  ]

  abbrev Awaits : List Action → Action → Type 0
  Awaits rows a =
      is_unsettled a ≡ true
      → any (λ r. r.id == a.id && is_stale ip firewall config clock r) rows ≡ true

  mark-Awaits :
      (r : Action) (rest : List Action) (t : Status)
      → is_idle t ≡ true
      → (a : Action) → Awaits (r ∷ rest) a
      → Awaits rest (mark r.id t a)
  unfolding is_unsettled
  mark-Awaits r rest t idle a k = elim (Bool-cases (a.id == r.id)) [
    | inl hit ↦ rw hit (λ u. absurd (ground (arith, idle, u)))
    | inr miss ↦ rw miss (λ u. ground (arith, k u, miss, eq_iff a.id r.id, eq_iff r.id a.id))
  ]

  recover-Awaits_stale :
      (r : Action) (rest : List Action) (s : Store)
      → is_stale ip firewall config clock r ≡ true
      → All (Awaits (r ∷ rest)) s.actions
      → All (Awaits rest) (recover ip firewall config clock r s).actions
  recover-Awaits_stale r rest s stale h =
      let (t, idle, shape) = recover-actions r s stale in
      rw shape (All-map_intro (Awaits rest) (mark r.id t) (mark-Awaits r rest t idle) s.actions h)

  -- A row that is unsettled after the recovery of another still awaits its turn.
  recover-Awaits :
      (r : Action) (rest : List Action) (s : Store)
      → All (Awaits (r ∷ rest)) s.actions
      → All (Awaits rest) (recover ip firewall config clock r s).actions
  unfolding recover
  recover-Awaits r rest s h = elim (Bool-cases (is_stale ip firewall config clock r)) [
    | inl stale ↦ recover-Awaits_stale r rest s stale h
    | inr fresh ↦ rw fresh (All-map (λ a. λ k. λ u. ground (arith, k u, fresh)) s.actions h)
  ]

  settled_if :
      (P : Store → Type 0) (s t : Store) (b : Bool) → b ≡ true → P s → P (if b then s else t)
  settled_if P s t true h p = p
  settled_if P s t false h p = absurd (cc)

  recover_all-Settled :
      (rows : List Action) (s : Store)
      → All (Awaits rows) s.actions
      → All (λ a. is_unsettled a ≡ false) (recover_all ip firewall config clock rows s).actions
  unfolding recover_all
  recover_all-Settled [] s h =
      All-map
        (λ a. λ k. elim (Bool-cases (is_unsettled a)) [
          | inl u ↦ absurd (ground (arith, k u))
          | inr settled ↦ settled
        ])
        s.actions h
  recover_all-Settled (r ∷ rest) s h = recover_all-Settled rest _ (recover-Awaits r rest s h)

  -- A row that is unsettled is among the active ones, and stale.
  first-Awaits : (s : Store) (a : Action) → Among a s.actions → Awaits (active_actions s) a
  unfolding is_unsettled
  first-Awaits s a found u =
      any-intro _ a (active_actions s)
        (keep-intro (λ b. is_active b.status) s.actions a found (ground (arith, u)))
        (ground (arith, u, eq_refl a.id))

  -- Whatever the firewall answers, a recovery that verifies leaves no block pending, and none that counts
  -- as executed although it is past its time, or its target outside the scope, when the recovery looks.
  pub reconcile-Settled :
      (s : Store)
      → config.verify ≡ true
      → All (λ a. is_unsettled a ≡ false) (reconcile ip firewall config clock s).actions
  unfolding reconcile
  reconcile-Settled s verified =
      settled_if (λ t. All (λ a. is_unsettled a ≡ false) t.actions) _ s config.verify verified
        (recover_all-Settled (active_actions s) s (All-intro _ s.actions (first-Awaits s)))
