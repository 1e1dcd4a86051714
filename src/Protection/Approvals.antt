-- ===== src/Protection/Approvals.antt =====
-- An approval keeps the store safe.
use arbiter_ai.Base.{
  String, ◌≡◌, true, Option, none, some, Bool-cases, Option-cases, inl, inr, arith, if-some,
  some_inj,
}
use arbiter_ai.Values.{Runtime}
use arbiter_ai.Containment.{Addresses, Scope}
use arbiter_ai.Containment.Permits.{Addressable, permits-IsPermitted}
use arbiter_ai.Protection.{Machine, Finding, Firewall, Store, Config, Analysis}
use arbiter_ai.Protection.Proposals.{is_done, offered, is_offered, target_of, proposal, may_block}
use arbiter_ai.Protection.Operations.{Moment, approve, may_approve}
use arbiter_ai.Protection.Commands.{IsSafe, attempt-IsSafe}

module _ {A N : Type 0} (ip : Addresses A N) where
  may_block-Addressable :
      (scope : Option (Scope N)) (target : String)
      → may_block ip scope target ≡ true
      → Addressable ip scope target
  may_block-Addressable (some scope) target h = permits-IsPermitted ip scope target h
  may_block-Addressable none target h = elim (Option-cases (ip.ip_address target)) [
    | inl unknown ↦ absurd (ground (arith, rw (unknown, may_block) at h))
    | inr (a, parsed) ↦ (a, parsed, rw (parsed, may_block) at h)
  ]

module _ {F A N : Type 0} ⦃py : Runtime F⦄ (ip : Addresses A N) (machine : Machine F) where
  offered-may_block :
      (scope : Option (Scope N)) (row : Finding F) (analysis : Analysis F) (target : String)
      → offered ip machine scope row analysis ≡ some target
      → may_block ip scope target ≡ true
  offered-may_block scope row analysis target h =
      let proposed = target_of scope row analysis.correlation in
      let (passed, same) =
        if-some (is_offered ip machine scope row analysis) (some proposed) target h in
      rw (← some_inj proposed target same) (ground (arith, passed))

  proposal-may_block :
      (scope : Option (Scope N)) (row : Option (Finding F)) (target : String)
      → proposal ip machine scope row ≡ some target
      → may_block ip scope target ≡ true
  unfolding proposal
  proposal-may_block scope none target h = absurd (ground (arith, h))
  proposal-may_block scope (some row) target h = elim (Option-cases row.analysis) [
    | inl missing ↦ absurd (ground (arith, rw (missing, proposal) at h))
    | inr (analysis, found) ↦
        let (done, offer) =
          if-some (is_done row) (offered ip machine scope row analysis) target
            (rw (found, proposal) at h) in
        offered-may_block scope row analysis target offer
  ]

module _ {F A N : Type 0} ⦃py : Runtime F⦄ (ip : Addresses A N) (firewall : Firewall)
    (config : Config N) where
  pub approve-IsSafe :
      (machine : Machine F) (m : Moment) (event_id actor : String) (expected : Option String)
      (row : Option (Finding F)) (s : Store)
      → IsSafe ip firewall config s
      → IsSafe ip firewall config
          (approve ip machine firewall config m event_id actor expected row s).1
  unfolding approve
  approve-IsSafe machine m event_id actor expected row s h =
      elim (Option-cases (proposal ip machine config.scope row)) [
        | inl silent ↦ rw (silent, approve) h
        | inr (target, found) ↦
            elim (Bool-cases (may_approve config.scope m event_id expected target s)) [
              | inr guarded ↦ rw (found, approve, guarded) h
              | inl free ↦
                  rw (found, approve, free)
                    (attempt-IsSafe ip firewall config m event_id actor target s
                      (may_block-Addressable ip config.scope target
                        (proposal-may_block ip machine config.scope row target found))
                      h)
            ]
      ]
