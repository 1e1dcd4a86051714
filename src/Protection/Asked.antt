-- ===== src/Protection/Asked.antt =====
-- Which block an approval asks the firewall for.
use mathlib.Core.Path.{subst}
use arbiter_ai.Base.{
  String, ◌≡◌, refl, ◌∙◌, Bool, true, false, not, Option, some, [], ◌∷◌, ◌++◌, any, keep-append,
  Bool-cases, Option-cases, inl, inr, ◌⊎◌, &&-left, ◌==◌,
}
use arbiter_ai.Base.Text.{same_text}
use arbiter_ai.Values.{Runtime}
use arbiter_ai.Containment.{Addresses}
use arbiter_ai.Protection.{
  Command, block, ask_active, lift, ask_removed, Finding, Firewall, Machine, Store, Config, call,
  set_status, failed,
}
use arbiter_ai.Protection.Proposals.{proposal}
use arbiter_ai.Protection.Operations.{
  Moment, changed, clean_up, attempt, approve, may_approve, pending_action, is_answered,
}
use arbiter_ai.Protection.Blocks.{is_block, blocks, call-blocks, changed-blocks, either-blocks}

-- The firewall was asked for no new block, or for that of the given id and target alone.
abbrev pub AsksAtMost : String → String → Store → Store → Type 0
AsksAtMost id target s after =
    (blocks after ≡ blocks s) ⊎ (blocks after ≡ blocks s ++ (block id target ∷ []))

module _ (firewall : Firewall) where
  asked_once :
      (c : Command) (s : Store)
      → is_block c ≡ true
      → blocks (call firewall c s).1 ≡ blocks s ++ (c ∷ [])
  unfolding call
  asked_once c s h = keep-append is_block s.commands (c ∷ []) ∙ rw h

  changed-asked :
      (verify : Bool) (c q : Command) (s : Store)
      → is_block c ≡ true
      → is_block q ≡ false
      → blocks (changed firewall verify c q s).1 ≡ blocks s ++ (c ∷ [])
  unfolding changed
  changed-asked verify c q s h k =
      let once = asked_once c s h in
      let twice = call-blocks firewall q (call firewall c s).1 k ∙ once in
      elim (Bool-cases (is_answered (firewall s.commands c))) [
        | inr refused ↦ rw refused once
        | inl done ↦ elim (Bool-cases verify) [
          | inl checks ↦ rw (done, checks) twice
          | inr trusts ↦ rw (done, trusts) once
        ]
      ]

  clean_up-blocks :
      (verify : Bool) (id : String) (s : Store) → blocks (clean_up firewall verify id s) ≡ blocks s
  unfolding clean_up set_status
  clean_up-blocks verify id s =
      let same = changed-blocks firewall true (lift id) (ask_removed id) s refl refl in
      either-blocks (not verify) s _ s refl
        (either-blocks (changed firewall true (lift id) (ask_removed id) s).0 _ _ s same same)

  attempt-asks :
      (verify : Bool) (m : Moment) (event_id actor target : String) (s : Store)
      → AsksAtMost m.fresh_id target s (attempt firewall verify m event_id actor target s).1
  unfolding attempt set_status
  attempt-asks verify m event_id actor target s =
      let inserted : Store = record s {
        actions = s.actions ++ (pending_action m event_id target actor ∷ []);
      } in
      let tried =
        changed firewall verify (block m.fresh_id target) (ask_active m.fresh_id target) inserted in
      let asked =
        changed-asked verify (block m.fresh_id target) (ask_active m.fresh_id target) inserted refl
          refl in
      elim (Bool-cases (any (λ a. a.id == m.fresh_id) s.actions)) [
        | inl repeated ↦ rw repeated (inl refl)
        | inr fresh ↦ elim (Bool-cases tried.0) [
          | inl done ↦ rw (fresh, done) (inr asked)
          | inr stuck ↦
              rw (fresh, stuck)
                (inr (
                  clean_up-blocks verify m.fresh_id (set_status m.fresh_id failed tried.1) ∙ asked))
        ]
      ]

module _ {F A N : Type 0} ⦃py : Runtime F⦄ (ip : Addresses A N) (machine : Machine F)
    (firewall : Firewall) (config : Config N) where
  -- An approval for an expected target asks for the block of that target, or for none.
  pub approve-asks :
      (m : Moment) (event_id actor expected : String) (row : Option (Finding F)) (s : Store)
      → AsksAtMost m.fresh_id expected s
          (approve ip machine firewall config m event_id actor (some expected) row s).1
  unfolding approve
  approve-asks m event_id actor expected row s =
      elim (Option-cases (proposal ip machine config.scope row)) [
        | inl nothing ↦ rw (nothing, approve) (inl refl)
        | inr (target, offered) ↦
            elim (Bool-cases (may_approve config.scope m event_id (some expected) target s)) [
              | inr barred ↦ rw (offered, approve, barred) (inl refl)
              | inl may ↦
                  let same = same_text target expected (&&-left _ _ may) in
                  rw (offered, approve, may)
                    (subst
                      (λ t.
                        AsksAtMost m.fresh_id t s
                          (attempt firewall config.verify m event_id actor target s).1)
                      same (attempt-asks firewall config.verify m event_id actor target s))
            ]
      ]
