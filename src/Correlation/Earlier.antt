-- ===== src/Correlation/Earlier.antt =====
-- The failed logins that a report of repeated ones counts.
use arbiter_ai.Base.{
  ◌≡◌, ◌≢◌, refl, Bool, true, false, List, [], ◌∷◌, ◌==◌, ◌&&◌, All, keep-elim, Bool-cases, inl,
  inr, arith, &&-left, &&-right, not, ◌||◌, ◌⊎◌, keep, String, All-intro, eq_refl,
}
use arbiter_ai.Base.Text.{same_text}
use arbiter_ai.Values.{Runtime}
use arbiter_ai.Telemetry.{SecurityEvent}
use arbiter_ai.Correlation.{failures, identity_match, same_identity}

negated-true : (b : Bool) → not b ≡ true → b ≡ false
negated-true b h = ground (arith, h)

unequal : (s t : String) → (s == t) ≡ false → s ≢ t
unequal s t h same =
    let hit : (s == t) ≡ true = rw same (eq_refl t) in absurd (ground (arith, h, hit))

module _ {F : Type 0} where
  -- some of the events, in their order
  abbrev pub Picked : List (SecurityEvent F) → List (SecurityEvent F) → Type 0
  Picked [] qs = Unit
  Picked (p ∷ ps) [] = ⊥
  Picked (p ∷ ps) (q ∷ qs) = ((p ≡ q) × Picked ps qs) ⊎ Picked (p ∷ ps) qs

  Picked-later :
      (ps : List (SecurityEvent F)) (q : SecurityEvent F) (qs : List (SecurityEvent F))
      → Picked ps qs
      → Picked ps (q ∷ qs)
  Picked-later [] q qs h = tt
  Picked-later (p ∷ ps) q qs h = inr h

  Picked-refl : (ps : List (SecurityEvent F)) → Picked ps ps
  Picked-refl [] = tt
  Picked-refl (p ∷ ps) = inl (refl, Picked-refl ps)

  keep-Picked :
      (t : SecurityEvent F → Bool) (ps qs : List (SecurityEvent F))
      → Picked ps qs
      → Picked (keep t ps) qs
  keep-Picked t [] qs h = tt
  keep-Picked t (p ∷ ps) [] h = absurd h
  keep-Picked t (p ∷ ps) (q ∷ qs) (inl (same, rest)) = elim (Bool-cases (t p)) [
    | inl keeps ↦ rw keeps (inl (same, keep-Picked t ps qs rest))
    | inr drops ↦ rw drops (Picked-later (keep t ps) q qs (keep-Picked t ps qs rest))
  ]
  keep-Picked t (p ∷ ps) (q ∷ qs) (inr later) =
      Picked-later (keep t (p ∷ ps)) q qs (keep-Picked t (p ∷ ps) qs later)

module _ {F : Type 0} ⦃py : Runtime F⦄ (e : SecurityEvent F)
    (previous : List (SecurityEvent F)) where
  -- the same account: by the user id where both have one other than that of nobody, else by the name
  abbrev pub SameAccount : SecurityEvent F → Type 0
  SameAccount p =
      ((p.user_id ≡ e.user_id) × (p.user_id ≢ "") × (p.user_id ≢ "S-1-0-0"))
      ⊎ ((p.username ≡ e.username) × (p.username ≢ ""))

  -- a failed login to the event's host and account, from its source where it has one
  pub record IsEarlier (p : SecurityEvent F) : Type 0 where
    pub failed : p.event_type ≡ "auth_failure"
    pub host : p.hostname ≡ e.hostname
    pub account : SameAccount p
    pub source : (e.src_ip ≡ "") ⊎ (p.src_ip ≡ e.src_ip)

  identity_match-SameAccount : (p : SecurityEvent F) → identity_match e p ≡ true → SameAccount p
  unfolding identity_match
  identity_match-SameAccount p h =
      elim (Bool-cases (
        not (p.user_id == "")
        && (not (e.user_id == "") && not (p.user_id == "S-1-0-0" || e.user_id == "S-1-0-0")))) [
          | inl known ↦ inl (
            same_text p.user_id e.user_id (rw known at h),
            unequal p.user_id "" (ground (arith, known)),
            unequal p.user_id "S-1-0-0" (ground (arith, known)),
          )
          | inr unknown ↦
              let named = rw unknown at h in
              inr (
                same_text p.username e.username (&&-right (not (p.username == "")) _ named),
                unequal p.username "" (negated-true (p.username == "") (&&-left _ _ named)),
              )
        ]

  pub failures-IsEarlier : All IsEarlier (failures e previous)
  unfolding same_identity
  failures-IsEarlier = All-intro IsEarlier _ (λ p. λ among.
      let (identified, failed) = keep-elim _ _ p among in
      let (_, facts) = keep-elim _ previous p identified in
      let rest = &&-right (p.hostname == e.hostname) _ facts in
      record {
        failed = same_text p.event_type "auth_failure" failed;
        host = same_text p.hostname e.hostname (&&-left _ _ facts);
        account = identity_match-SameAccount p (&&-left _ _ rest);
        source = from_source p (&&-right (identity_match e p) _ rest);
      })
    where
      from_source :
          (p : SecurityEvent F)
          → (e.src_ip == "" || p.src_ip == e.src_ip) ≡ true
          → (e.src_ip ≡ "") ⊎ (p.src_ip ≡ e.src_ip)
      from_source p h = elim (Bool-cases (e.src_ip == "")) [
        | inl bare ↦ inl (same_text e.src_ip "" bare)
        | inr given ↦ inr (same_text p.src_ip e.src_ip (rw given at h))
      ]

  pub failures-Picked : Picked (failures e previous) previous
  unfolding same_identity
  failures-Picked =
      keep-Picked _ _ previous (keep-Picked _ previous previous (Picked-refl previous))
