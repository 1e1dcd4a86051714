-- ===== src/Protection/Commands.antt =====
-- What the firewall is told, and which blocks count as executed.
use arbiter_ai.Base.{
  String, ◌≡◌, refl, Bool, true, false, Option, List, [], ◌∷◌, ◌++◌, append_assoc, ◌==◌, map,
  if◌then◌else◌, any, All, All-append, All-map, All-map_intro, All-absent, Bool-cases, inl, inr,
  arith,
}
use arbiter_ai.Containment.{Addresses, Scope}
use arbiter_ai.Containment.Permits.{Addressable}
use arbiter_ai.Protection.{
  Action, Command, block, ask_active, lift, ask_removed, Firewall, Store, Config, Status, executed,
  failed, cleanup_failed, is_executed, call, note, set_status,
}
use arbiter_ai.Protection.Operations.{
  Moment, is_yes, is_answered, changed, clean_up, attempt, pending_action,
}

module _ {A N : Type 0} (ip : Addresses A N) (scope : Option (Scope N)) where
  -- a block concerns only an address that may be blocked
  abbrev pub Permitted : Command → Type 0
  Permitted (block id target) = Addressable ip scope target
  Permitted _ = Unit

module _ (firewall : Firewall) where
  pub changed-actions :
      (verify : Bool) (c q : Command) (s : Store)
      → (changed firewall verify c q s).1.actions ≡ s.actions
  unfolding changed
  changed-actions verify c q s = ground arith

module _ (firewall : Firewall) (verify : Bool) where
  -- The firewall took the block of the action's own target and, where that is to be verified, said
  -- then that it is active.
  pub record IsConfirmed (log : List Command) (a : Action) : Type 0 where
    pub earlier : List Command
    pub later : List Command
    pub sent : log ≡ earlier ++ (block a.id a.target ∷ later)
    pub taken : is_answered (firewall earlier (block a.id a.target)) ≡ true
    pub verified :
        verify ≡ true
        → is_yes (firewall (earlier ++ (block a.id a.target ∷ [])) (ask_active a.id a.target))
          ≡ true

  IsConfirmed-append :
      (log more : List Command) (a : Action) → IsConfirmed log a → IsConfirmed (log ++ more) a
  IsConfirmed-append log more a c = record {
    earlier = c.earlier;
    later = c.later ++ more;
    sent = rw c.sent (append_assoc c.earlier (block a.id a.target ∷ c.later) more);
    taken = c.taken;
    verified = c.verified;
  }

  -- The block that `changed` reports as done is confirmed.
  changed-IsConfirmed :
      (a : Action) (s : Store)
      → (changed firewall verify (block a.id a.target) (ask_active a.id a.target) s).0 ≡ true
      → IsConfirmed
          (changed firewall verify (block a.id a.target) (ask_active a.id a.target) s).1.commands
          a
  unfolding changed
  changed-IsConfirmed a s h =
      elim (Bool-cases (is_answered (firewall s.commands (block a.id a.target)))) [
        | inl done ↦ elim (Bool-cases verify) [
          | inl checks ↦
              rw (done, checks)
                (record {
                  earlier = s.commands;
                  later = ask_active a.id a.target ∷ [];
                  sent =
                      append_assoc s.commands (block a.id a.target ∷ [])
                        (ask_active a.id a.target ∷ []);
                  taken = done;
                  verified = λ v. rw (done, checks) at h;
                })
          | inr trusts ↦
              rw (done, trusts)
                (record {
                  earlier = s.commands;
                  later = [];
                  sent = refl;
                  taken = done;
                  verified = λ v. absurd (cc);
                })
        ]
        | inr refused ↦ absurd (ground (arith, rw refused at h))
      ]

module _ {A N : Type 0} (ip : Addresses A N) (firewall : Firewall) (config : Config N) where
  -- Every block concerns an address that may be blocked, and every action that counts as executed has
  -- its confirmed block.
  pub record IsSafe (s : Store) : Type 0 where
    pub permitted : All (Permitted ip config.scope) s.commands
    pub confirmed :
        All
          (λ a. is_executed a.status ≡ true → IsConfirmed firewall config.verify s.commands a)
          s.actions

  Backed-append :
      (log more : List Command) (actions : List Action)
      → All (λ a. is_executed a.status ≡ true → IsConfirmed firewall config.verify log a) actions
      → All
          (λ a. is_executed a.status ≡ true → IsConfirmed firewall config.verify (log ++ more) a)
          actions
  Backed-append log more =
      All-map (λ a. λ h. λ e. IsConfirmed-append firewall config.verify log more a (h e))

  call-IsSafe :
      (c : Command) (s : Store)
      → Permitted ip config.scope c
      → IsSafe s
      → IsSafe (call firewall c s).1
  unfolding call
  call-IsSafe c s p h = record {
    permitted = All-append (Permitted ip config.scope) s.commands (c ∷ []) h.permitted (p, tt);
    confirmed = Backed-append s.commands (c ∷ []) s.actions h.confirmed;
  }

  pub changed-IsSafe :
      (verify : Bool) (c q : Command) (s : Store)
      → Permitted ip config.scope c
      → Permitted ip config.scope q
      → IsSafe s
      → IsSafe (changed firewall verify c q s).1
  unfolding changed
  changed-IsSafe verify c q s p r h = elim (Bool-cases (is_answered (firewall s.commands c))) [
    | inr refused ↦ rw refused (call-IsSafe c s p h)
    | inl done ↦ elim (Bool-cases verify) [
      | inl checks ↦ rw (done, checks) (call-IsSafe q (call firewall c s).1 r (call-IsSafe c s p h))
      | inr trusts ↦ rw (done, trusts) (call-IsSafe c s p h)
    ]
  ]

  abbrev Backed : List Command → Action → Type 0
  Backed log a = is_executed a.status ≡ true → IsConfirmed firewall config.verify log a

  marked-Backed :
      (log : List Command) (id : String) (status : Status) (a : Action)
      → is_executed status ≡ false
      → Backed log a
      → Backed log (if a.id == id then record a { status = status } else a)
  marked-Backed log id status a idle h = elim (Bool-cases (a.id == id)) [
    | inl hit ↦ rw hit (λ e. absurd (cc))
    | inr miss ↦ rw miss h
  ]

  -- A status other than executed needs no block.
  pub set_status-IsSafe :
      (id : String) (status : Status) (s : Store)
      → is_executed status ≡ false
      → IsSafe s
      → IsSafe (set_status id status s)
  unfolding set_status
  set_status-IsSafe id status s idle h = record {
    permitted = h.permitted;
    confirmed =
        All-map_intro (Backed s.commands) _ (λ a. marked-Backed s.commands id status a idle)
          s.actions h.confirmed;
  }

  clean_up-IsSafe :
      (verify : Bool) (id : String) (s : Store) → IsSafe s → IsSafe (clean_up firewall verify id s)
  unfolding clean_up
  clean_up-IsSafe verify id s h =
      let tried = changed-IsSafe true (lift id) (ask_removed id) s tt tt h in
      elim (Bool-cases verify) [
        | inr trusts ↦ rw trusts h
        | inl checks ↦ elim (Bool-cases (changed firewall true (lift id) (ask_removed id) s).0) [
          | inl lifted ↦ rw (checks, lifted) tried
          | inr stuck ↦ rw (checks, stuck) (set_status-IsSafe id cleanup_failed _ refl tried)
        ]
      ]

  executed-All :
      (log : List Command) (id : String) (actions : List Action)
      → All (λ a. (a.id == id) ≡ true → IsConfirmed firewall config.verify log a) actions
      → All (Backed log) actions
      → All
          (Backed log)
          (map (λ a. if a.id == id then record a { status = executed } else a) actions)
  executed-All log id [] c h = tt
  executed-All log id (a ∷ rest) c h = elim (Bool-cases (a.id == id)) [
    | inl hit ↦ (
      rw hit (λ e. record {
        earlier = (c.0 hit).earlier;
        later = (c.0 hit).later;
        sent = (c.0 hit).sent;
        taken = (c.0 hit).taken;
        verified = (c.0 hit).verified;
      }),
      executed-All log id rest c.1 h.1,
    )
    | inr miss ↦ (rw miss h.0, executed-All log id rest c.1 h.1)
  ]

  executed-IsSafe :
      (id : String) (s : Store)
      → All (λ a. (a.id == id) ≡ true → IsConfirmed firewall config.verify s.commands a) s.actions
      → IsSafe s
      → IsSafe (set_status id executed s)
  unfolding set_status
  executed-IsSafe id s marks h = record {
    permitted = h.permitted;
    confirmed = executed-All s.commands id s.actions marks h.confirmed;
  }

  pub note-IsSafe :
      (actor action subject : String) (s : Store) → IsSafe s → IsSafe (note actor action subject s)
  note-IsSafe actor action subject s h = record { permitted = h.permitted; confirmed = h.confirmed }

  abbrev tried : Moment → String → String → String → Store → Bool × Store
  tried m event_id target actor s =
      changed firewall config.verify (block m.fresh_id target) (ask_active m.fresh_id target)
        (record s { actions = s.actions ++ (pending_action m event_id target actor ∷ []) })

  pub attempt-IsSafe :
      (m : Moment) (event_id actor target : String) (s : Store)
      → Addressable ip config.scope target
      → IsSafe s
      → IsSafe (attempt firewall config.verify m event_id actor target s).1
  unfolding attempt
  attempt-IsSafe m event_id actor target s p h =
      let a = pending_action m event_id target actor in
      let inserted : IsSafe (record s { actions = s.actions ++ (a ∷ []) }) = record {
        permitted = h.permitted;
        confirmed =
            All-append (Backed s.commands) s.actions (a ∷ []) h.confirmed ((λ e. absurd (cc)), tt);
      } in
      let t = tried m event_id target actor s in
      let safe : IsSafe t.1 = changed-IsSafe config.verify _ _ _ p tt inserted in
      elim (Bool-cases (any (λ b. b.id == m.fresh_id) s.actions)) [
        | inl clash ↦ rw clash h
        | inr fresh ↦ elim (Bool-cases t.0) [
          | inl done ↦
              let own : IsConfirmed firewall config.verify t.1.commands a =
                changed-IsConfirmed firewall config.verify a
                  (record s { actions = s.actions ++ (a ∷ []) }) done in
              let marks : All
                  (λ b.
                    (b.id == m.fresh_id) ≡ true → IsConfirmed firewall config.verify t.1.commands b)
                  (s.actions ++ (a ∷ [])) =
                All-append _ s.actions (a ∷ [])
                  (All-absent (λ b. b.id == m.fresh_id) _ s.actions fresh) ((λ e. own), tt) in
              rw (fresh, done)
                (note-IsSafe actor "protection_approved" m.fresh_id _ (
                  executed-IsSafe m.fresh_id t.1
                    (rw
                      (changed-actions firewall config.verify (block m.fresh_id target)
                        (ask_active m.fresh_id target)
                        (record s { actions = s.actions ++ (a ∷ []) }))
                      marks)
                    safe))
          | inr refused ↦
              rw (fresh, refused)
                (note-IsSafe actor "protection_failed" m.fresh_id _ (
                  clean_up-IsSafe config.verify m.fresh_id _
                    (set_status-IsSafe m.fresh_id failed t.1 refl safe)))
        ]
      ]
