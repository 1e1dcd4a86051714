-- ===== src/Respond/Runs.antt =====
-- What the responder gives to the shell, and what it audits.
use arbiter_ai.Base.{
  ℕ, String, ◌≡◌, sym, ◌∙◌, inl, inr, refl, true, false, Option, some, List, [], ◌∷◌, ◌++◌, eqb,
  append-nil, append_assoc, map, keep, All, All-map, Bool-cases, arith,
}
use arbiter_ai.Values.{Runtime}
use arbiter_ai.Schema.{Event, Verdict, is_escalate}
use arbiter_ai.Respond.{
  ResponseAction, ActionMode, auto, recommend, is_auto, action_of, plan, Shell, ShellResult, exited,
  Responder, audited, carry_out, carry_out_all, respond,
}
use arbiter_ai.Respond.Catalog.{Proposal, proposals}

-- the commands of the actions that run without a human
abbrev pub auto_commands : List ResponseAction → List String
auto_commands actions = map (λ a. a.command) (keep (λ a. is_auto a.mode) actions)

carry_out-dry :
    (result : ShellResult) (a : ResponseAction) (r : Responder)
    → r.dry_run ≡ true
    → a.dry_run ≡ true
    → carry_out result a r ≡ (some a, audited a r)
unfolding carry_out audited
carry_out-dry result a r h k = ground (arith)

carry_out_all-dry :
    (shell : Shell) (actions : List ResponseAction) (r : Responder)
    → r.dry_run ≡ true
    → All (λ a. a.dry_run ≡ true) actions
    → carry_out_all shell actions r ≡ (some actions, record r { audit = r.audit ++ actions })
unfolding carry_out_all audited
carry_out_all-dry shell [] r h k = rw (append-nil r.audit)
carry_out_all-dry shell (a ∷ rest) r h k = rw (
  carry_out-dry (shell r.ran a.command) a r h k.0,
  carry_out_all-dry shell rest (audited a r) h k.1,
  append_assoc r.audit (a ∷ []) rest,
)

-- what `carry_out_all` did when it returned
pub record Completed (actions : List ResponseAction) (r : Responder)
    (out : Option (List ResponseAction) × Responder) : Type 0 where
  pub done : List ResponseAction
  pub returned : out.0 ≡ some done
  pub audited : out.1.audit ≡ r.audit ++ done
  pub ran : out.1.ran ≡ r.ran ++ auto_commands actions
  pub same_targets : map (λ a. a.target) done ≡ map (λ a. a.target) actions
  pub only_auto : All (λ a. (a.executed ≡ true) → a.mode ≡ auto) done

-- what one pass of the loop did
record Step (a : ResponseAction) (r : Responder) (out : Option ResponseAction × Responder)
    : Type 0 where
  done : ResponseAction
  returned : out.0 ≡ some done
  audit : out.1.audit ≡ r.audit ++ (done ∷ [])
  ran : out.1.ran ≡ r.ran ++ auto_commands (a ∷ [])
  same_mode : out.1.dry_run ≡ r.dry_run
  same_target : done.target ≡ a.target
  only_auto : done.executed ≡ true → done.mode ≡ auto

auto_mode : (m : ActionMode) → is_auto m ≡ true → m ≡ auto
auto_mode auto h = refl
auto_mode recommend h = absurd (cc)

carry_out-Step :
    (code : ℕ) (a : ResponseAction) (r : Responder)
    → r.dry_run ≡ false
    → a.executed ≡ false
    → Step a r (carry_out (exited code) a r)
unfolding carry_out audited
carry_out-Step code a r live idle = elim (Bool-cases (is_auto a.mode)) [
  | inl runs ↦
      rw (runs, live)
        (record {
          done = record a { dry_run = false; executed = eqb code 0 };
          returned = refl;
          audit = refl;
          ran = rw runs;
          same_mode = refl;
          same_target = refl;
          only_auto = λ _. auto_mode a.mode runs;
        })
  | inr waits ↦ rw waits (record {
    done = record a { dry_run = r.dry_run };
    returned = refl;
    audit = refl;
    ran = rw waits (sym (append-nil r.ran));
    same_mode = refl;
    same_target = refl;
    only_auto = λ ran. absurd (cc (idle, ran));
  })
]

auto_commands-split :
    (a : ResponseAction) (rest : List ResponseAction)
    → auto_commands (a ∷ rest) ≡ auto_commands (a ∷ []) ++ auto_commands rest
auto_commands-split a rest = elim (Bool-cases (is_auto a.mode)) [
  | inl runs ↦ rw runs
  | inr waits ↦ rw waits
]

carry_out_all-live :
    (shell : Shell) (actions : List ResponseAction) (r : Responder)
    → r.dry_run ≡ false
    → ((past : List String) (c : String) → (code : ℕ) × (shell past c ≡ exited code))
    → All (λ a. a.executed ≡ false) actions
    → Completed actions r (carry_out_all shell actions r)
unfolding carry_out_all
carry_out_all-live shell [] r live answers k = record {
  done = [];
  returned = refl;
  audited = sym (append-nil r.audit);
  ran = sym (append-nil r.ran);
  same_targets = refl;
  only_auto = tt;
}
carry_out_all-live shell (a ∷ rest) r live answers k =
    let (code, answer) = answers r.ran a.command in
    let step = carry_out-Step code a r live k.0 in
    let r' = (carry_out (exited code) a r).1 in
    let later = carry_out_all-live shell rest r' (step.same_mode ∙ live) answers k.1 in
    record {
      done = step.done ∷ later.done;
      returned = rw (answer, step.returned, later.returned);
      audited =
          rw (answer, step.returned, later.returned, later.audited, step.audit)
            (append_assoc r.audit (step.done ∷ []) later.done);
      ran =
          rw
            (answer, step.returned, later.returned, later.ran, step.ran, auto_commands-split a rest)
            (append_assoc r.ran (auto_commands (a ∷ [])) (auto_commands rest));
      same_targets = rw (step.same_target, later.same_targets);
      only_auto = (step.only_auto, later.only_auto);
    }

module _ {F : Type 0} ⦃py : Runtime F⦄ where
  planned-dry :
      (now : String) (e : Event F) (v : Verdict F) (ps : List Proposal)
      → All (λ a. (a.dry_run ≡ true) × (a.executed ≡ false)) (map (action_of now e v) ps)
  unfolding action_of
  planned-dry now e v [] = tt
  planned-dry now e v (p ∷ ps) = ((refl, refl), planned-dry now e v ps)

  plan-dry :
      (now : String) (e : Event F) (v : Verdict F)
      → All (λ a. (a.dry_run ≡ true) × (a.executed ≡ false)) (plan now e v)
  unfolding plan
  plan-dry now e v = elim (Bool-cases (is_escalate v.decision)) [
    | inl raised ↦ rw raised (planned-dry now e v (proposals e))
    | inr calm ↦ rw calm tt
  ]

  -- A dry run, whatever the shell is, gives it no command: it returns the whole plan with no action
  -- executed, and audits exactly that plan.
  pub respond-dry :
      (shell : Shell) (now : String) (e : Event F) (v : Verdict F) (r : Responder)
      → r.dry_run ≡ true
      → respond shell now e v r
        ≡ (some (plan now e v), record r { audit = r.audit ++ plan now e v })
  unfolding respond
  respond-dry shell now e v r h =
      carry_out_all-dry shell (plan now e v) r h
        (All-map (λ a both. both.0) (plan now e v) (plan-dry now e v))

  -- A live responder whose shell exits on every command returns, with one audited action for each
  -- planned one and on the same targets; it gives the shell exactly the commands of the actions in
  -- mode AUTO, in their order, and marks no other action as executed.
  pub respond-Completed :
      (shell : Shell) (now : String) (e : Event F) (v : Verdict F) (r : Responder)
      → r.dry_run ≡ false
      → ((past : List String) (c : String) → (code : ℕ) × (shell past c ≡ exited code))
      → Completed (plan now e v) r (respond shell now e v r)
  unfolding respond
  respond-Completed shell now e v r live answers =
      carry_out_all-live shell (plan now e v) r live answers
        (All-map (λ a both. both.1) (plan now e v) (plan-dry now e v))
