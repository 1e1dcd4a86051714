-- ===== src/Protection/Blocks.antt =====
-- Which operations ask the firewall for no block.
use arbiter_ai.Base.{
  String, ◌≡◌, refl, ◌∙◌, Bool, true, false, List, [], ◌∷◌, append-nil, if◌then◌else◌, keep,
  keep-append, Bool-cases, Option-cases, inl, inr, find_first, ◌==◌,
}
use arbiter_ai.Containment.{Addresses}
use arbiter_ai.Protection.{
  Action, Command, block, lift, ask_removed, Firewall, Store, Config, call, set_status, is_given,
}
use arbiter_ai.Protection.Operations.{
  Clock, changed, undo, recover, recover_all, reconcile, active_actions, is_stale, is_answered,
  final_status,
}

abbrev pub is_block : Command → Bool
is_block (block id target) = true
is_block _ = false

-- the blocks that the firewall was asked for
abbrev pub blocks : Store → List Command
blocks s = keep is_block s.commands

pub either-blocks :
    (b : Bool) (x y s : Store)
    → blocks x ≡ blocks s
    → blocks y ≡ blocks s
    → blocks (if b then x else y) ≡ blocks s
either-blocks true x y s h k = h
either-blocks false x y s h k = k

module _ (firewall : Firewall) where
  pub call-blocks :
      (c : Command) (s : Store) → is_block c ≡ false → blocks (call firewall c s).1 ≡ blocks s
  unfolding call
  call-blocks c s other =
      keep-append is_block s.commands (c ∷ []) ∙ rw other (append-nil (blocks s))

  pub changed-blocks :
      (verify : Bool) (c q : Command) (s : Store)
      → is_block c ≡ false
      → is_block q ≡ false
      → blocks (changed firewall verify c q s).1 ≡ blocks s
  unfolding changed
  changed-blocks verify c q s h k =
      let once = call-blocks c s h in
      let twice = call-blocks q (call firewall c s).1 k ∙ once in
      elim (Bool-cases (is_answered (firewall s.commands c))) [
        | inr refused ↦ rw refused once
        | inl done ↦ elim (Bool-cases verify) [
          | inl checks ↦ rw (done, checks) twice
          | inr trusts ↦ rw (done, trusts) once
        ]
      ]

  pub undo-blocks :
      (verify : Bool) (now id actor : String) (s : Store)
      → blocks (undo firewall verify now id actor s).1 ≡ blocks s
  unfolding undo set_status
  undo-blocks verify now id actor s =
      let t = changed firewall verify (lift id) (ask_removed id) s in
      let same = changed-blocks verify (lift id) (ask_removed id) s refl refl in
      elim (Option-cases (find_first (λ a. a.id == id) s.actions)) [
        | inl unknown ↦ rw (unknown, undo)
        | inr (row, known) ↦ elim (Bool-cases t.0) [
          | inl lifted ↦ rw (known, undo, lifted) same
          | inr stuck ↦ rw (known, undo, stuck) same
        ]
      ]

module _ {A N : Type 0} (ip : Addresses A N) (firewall : Firewall) (config : Config N)
    (clock : Clock) where
  recover-blocks :
      (a : Action) (s : Store) → blocks (recover ip firewall config clock a s) ≡ blocks s
  unfolding recover set_status
  recover-blocks a s =
      let same =
        undo-blocks firewall config.verify (clock.undone_at a.id) a.id "agent-recovery" s in
      let r = undo firewall config.verify (clock.undone_at a.id) a.id "agent-recovery" s in
      either-blocks (is_stale ip firewall config clock a) _ s s
        (either-blocks (is_given r.0)
          (set_status a.id (final_status ip firewall config clock a) r.1) r.1 s same same)
        refl

  recover_all-blocks :
      (rows : List Action) (s : Store)
      → blocks (recover_all ip firewall config clock rows s) ≡ blocks s
  unfolding recover_all
  recover_all-blocks [] s = refl
  recover_all-blocks (a ∷ rest) s = recover_all-blocks rest _ ∙ recover-blocks a s

  pub reconcile-blocks : (s : Store) → blocks (reconcile ip firewall config clock s) ≡ blocks s
  unfolding reconcile
  reconcile-blocks s =
      either-blocks config.verify _ s s (recover_all-blocks (active_actions s) s) refl
