-- ===== src/Protection/Undoings.antt =====
-- The undoing and the recovery of blocks keep the store safe.
use arbiter_ai.Base.{
  String, ◌≡◌, refl, Bool, true, false, List, [], ◌∷◌, ◌==◌, if◌then◌else◌, Bool-cases,
  Option-cases, inl, inr, arith, find_first,
}
use arbiter_ai.Containment.{Addresses}
use arbiter_ai.Protection.{
  Action, lift, ask_removed, Firewall, Store, Config, cleanup_failed, undone, is_executed, is_given,
}
use arbiter_ai.Protection.Operations.{
  Clock, changed, undo, recover, recover_all, reconcile, active_actions, is_stale, final_status,
}
use arbiter_ai.Protection.Commands.{IsSafe, changed-IsSafe, note-IsSafe, set_status-IsSafe}

module _ {A N : Type 0} (ip : Addresses A N) (firewall : Firewall) (config : Config N) where
  pub undo-IsSafe :
      (verify : Bool) (now id actor : String) (s : Store)
      → IsSafe ip firewall config s
      → IsSafe ip firewall config (undo firewall verify now id actor s).1
  unfolding undo
  undo-IsSafe verify now id actor s h =
      let t = changed firewall verify (lift id) (ask_removed id) s in
      let safe = changed-IsSafe ip firewall config verify (lift id) (ask_removed id) s tt tt h in
      elim (Option-cases (find_first (λ a. a.id == id) s.actions)) [
        | inl unknown ↦ rw (unknown, undo) h
        | inr (row, known) ↦ elim (Bool-cases t.0) [
          | inl lifted ↦
              rw (known, undo, lifted)
                (note-IsSafe ip firewall config actor "protection_undone" id _
                  (set_status-IsSafe ip firewall config id undone t.1 refl safe))
          | inr stuck ↦
              rw (known, undo, stuck)
                (note-IsSafe ip firewall config actor "protection_undo_failed" id _
                  (set_status-IsSafe ip firewall config id cleanup_failed t.1 refl safe))
        ]
      ]

  final_idle :
      (clock : Clock) (a : Action) → is_executed (final_status ip firewall config clock a) ≡ false
  final_idle clock a = ground arith

  recover-IsSafe :
      (clock : Clock) (a : Action) (s : Store)
      → IsSafe ip firewall config s
      → IsSafe ip firewall config (recover ip firewall config clock a s)
  unfolding recover
  recover-IsSafe clock a s h =
      let r = undo firewall config.verify (clock.undone_at a.id) a.id "agent-recovery" s in
      let safe = undo-IsSafe config.verify (clock.undone_at a.id) a.id "agent-recovery" s h in
      elim (Bool-cases (is_stale ip firewall config clock a)) [
        | inr fresh ↦ rw fresh h
        | inl stale ↦ elim (Bool-cases (is_given r.0)) [
          | inl lifted ↦
              rw (stale, lifted)
                (set_status-IsSafe ip firewall config a.id _ r.1 (final_idle clock a) safe)
          | inr stuck ↦ rw (stale, stuck) safe
        ]
      ]

  either-IsSafe :
      (b : Bool) (s t : Store)
      → IsSafe ip firewall config s
      → IsSafe ip firewall config t
      → IsSafe ip firewall config (if b then s else t)
  either-IsSafe true s t h k = h
  either-IsSafe false s t h k = k

  recover_all-IsSafe :
      (clock : Clock) (actions : List Action) (s : Store)
      → IsSafe ip firewall config s
      → IsSafe ip firewall config (recover_all ip firewall config clock actions s)
  unfolding recover_all
  recover_all-IsSafe clock [] s h = h
  recover_all-IsSafe clock (a ∷ rest) s h =
      recover_all-IsSafe clock rest _ (recover-IsSafe clock a s h)

  pub reconcile-IsSafe :
      (clock : Clock) (s : Store)
      → IsSafe ip firewall config s
      → IsSafe ip firewall config (reconcile ip firewall config clock s)
  unfolding reconcile
  reconcile-IsSafe clock s h =
      either-IsSafe config.verify _ s (recover_all-IsSafe clock (active_actions s) s h) h
