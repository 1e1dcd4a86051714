-- ===== src/Containment/Permits.antt =====
-- Which addresses a scope lets through.
use arbiter_ai.Base.{
  String, ◌≡◌, true, false, ◌||◌, Option, none, some, any, keep, Among, any-elim, any-none,
  keep-elim, ◌⊎◌, ◌≤◌, eqb, leb, Bool-cases, Option-cases, inl, inr, arith,
}
use arbiter_ai.Containment.{Addresses, Scope, is_special, is_host_in, permits, permits_address}

module _ {A N : Type 0} (ip : Addresses A N) where
  -- Within a network of version 4 that has more than two addresses, neither the network's own address
  -- nor its broadcast address.
  abbrev pub IsUsable : A → N → Type 0
  IsUsable a n = (ip.version a ≡ 6) ⊎ ((31 ≤ ip.prefixlen n) ⊎ (ip.is_edge a n ≡ false))

  is_host_in-IsUsable : (a : A) (n : N) → is_host_in ip a n ≡ true → IsUsable a n
  is_host_in-IsUsable a n h = elim (Bool-cases (eqb (ip.version a) 6)) [
    | inl sixth ↦ inl (ground (arith, sixth))
    | inr fourth ↦ elim (Bool-cases (leb 31 (ip.prefixlen n))) [
      | inl narrow ↦ inr (inl (ground (arith, narrow)))
      | inr wide ↦ inr (inr (ground (arith, h, fourth, wide)))
    ]
  ]

  -- an address that a scope may let through
  pub record IsPermitted (scope : Scope N) (a : A) : Type 0 where
    pub ordinary : is_special ip a ≡ false
    pub unmapped : ip.is_mapped a ≡ false
    pub unprotected : (n : N) → Among n scope.protected → ip.is_within a n ≡ false
    pub allowed : (n : N) × Among n scope.allowed × (ip.is_within a n ≡ true) × IsUsable a n

  permits_address-IsPermitted :
      (scope : Scope N) (a : A) → permits_address ip scope a ≡ true → IsPermitted scope a
  permits_address-IsPermitted scope a h =
      elim (Bool-cases
        (is_special ip a || (ip.is_mapped a || any (ip.is_within a) scope.protected))) [
          | inl shut ↦ absurd (ground (arith, rw shut at h))
          | inr free ↦
              let (n, among, usable) =
                any-elim (is_host_in ip a) (keep (ip.is_within a) scope.allowed) (rw free at h) in
              let (member, inside) = keep-elim (ip.is_within a) scope.allowed n among in
              record {
                ordinary = ground (arith, free);
                unmapped = ground (arith, free);
                unprotected = any-none (ip.is_within a) scope.protected (ground (arith, free));
                allowed = (n, member, inside, is_host_in-IsUsable a n usable);
              }
        ]

  pub permits-IsPermitted :
      (scope : Scope N) (target : String)
      → permits ip scope target ≡ true
      → (a : A) × (ip.ip_address target ≡ some a) × IsPermitted scope a
  unfolding permits
  permits-IsPermitted scope target h = elim (Option-cases (ip.ip_address target)) [
    | inl unknown ↦ absurd (ground (arith, rw (unknown, permits) at h))
    | inr (a, parsed) ↦ (a, parsed, permits_address-IsPermitted scope a (rw (parsed, permits) at h))
  ]

  -- An address that a block may concern: one that the scope permits or, without a scope, a global one.
  abbrev pub Addressable : Option (Scope N) → String → Type 0
  Addressable (some scope) target = (a : A) × (ip.ip_address target ≡ some a) × IsPermitted scope a
  Addressable none target = (a : A) × (ip.ip_address target ≡ some a) × (ip.is_global a ≡ true)
