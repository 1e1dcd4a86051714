-- ===== src/Analyst/Extensions.antt =====
-- How often and how far an operator may extend a deadline.
use arbiter_ai.Base.{
  String, ◌≡◌, refl, sym, ap, ◌∙◌, Bool, true, false, Option, none, some, List, [], ◌∷◌, ◌==◌,
  Bool-cases, ◌⊎◌, inl, inr, arith, bind-elim, some_inj, eq_refl,
}
use arbiter_ai.Analyst.Guards.{
  unless-some, guarded-true, unguarded-true, spent-none, refused_either, refused_or,
}
use arbiter_ai.Base.Text.{same_text, strip}
use arbiter_ai.Values.{Runtime}
use arbiter_ai.Analyst.Policy.{Windows}
use arbiter_ai.Analyst.Cases.{L2Case, L2Workflow, find_l2, put_l2, save_case, is_reviewable}
use arbiter_ai.Analyst.Commands.{
  L2Command, stop, resume, revert, reject, ack, defer, Undoing, window_at, smaller, prolonged,
  extended_case, saved_if, control_body, control_case, on_case, l2_control,
}

abbrev pub is_extension : L2Command → Bool
is_extension ack = true
is_extension defer = true
is_extension _ = false

module _ {F : Type 0} where
  find_l2-put_l2 : (c : L2Case F) (cs : List (L2Case F)) → find_l2 c.id (put_l2 c cs) ≡ some c
  unfolding find_l2 put_l2
  find_l2-put_l2 c [] = rw (eq_refl c.id)
  find_l2-put_l2 c (d ∷ cs) = elim (Bool-cases (d.id == c.id)) [
    | inl here ↦ rw here (find_l2-put_l2 c cs)
    | inr other ↦ rw other (rw other (find_l2-put_l2 c cs))
  ]

  find_l2-id :
      (id : String) (cs : List (L2Case F)) (c : L2Case F) → find_l2 id cs ≡ some c → c.id ≡ id
  unfolding find_l2
  find_l2-id id [] c h = absurd (ground (arith, h))
  find_l2-id id (d ∷ cs) c h = elim (Bool-cases (d.id == id)) [
    | inl here ↦
        ap (λ (e : L2Case F). e.id) (sym (some_inj d c (rw here at h))) ∙ same_text d.id id here
    | inr other ↦ find_l2-id id cs c (rw other at h)
  ]

module _ {F : Type 0} ⦃py : Runtime F⦄ where
  -- A level without a window leaves the deadline. Another one has a deadline, which moves to a window
  -- from itself or to a window from now, and not past the latter.
  abbrev pub IsMoved : F → Option F → Option F → Option F → Type 0
  IsMoved clock none old new = old ≡ new
  IsMoved clock (some window) old new =
      (before : F) × (d : F) × (old ≡ some before)
      × (new ≡ some d)
      × ((d ≡ py.add before window) ⊎ (d ≡ py.add clock window))
      × (py.lt (py.add clock window) d ≡ false)

  -- What an extension does to the case: it was not extended before, and now it is, with its deadline moved.
  pub record IsExtended (windows : Windows) (clock : F) (c after : L2Case F) : Type 0 where
    pub first : c.acknowledged ≡ false
    pub spent : after.acknowledged ≡ true
    pub same : after.id ≡ c.id
    pub moved : IsMoved clock (window_at windows c.severity) c.deadline after.deadline

  smaller-le : (x y : F) → py.lt y (smaller x y) ≡ false
  smaller-le x y = elim (Bool-cases (py.lt y x)) [
    | inl below ↦ rw below (py.lt_irrefl y)
    | inr above ↦ rw above above
  ]

  smaller-either : (x y : F) → (smaller x y ≡ x) ⊎ (smaller x y ≡ y)
  smaller-either x y = elim (Bool-cases (py.lt y x)) [
    | inl below ↦ inr (rw below)
    | inr above ↦ inl (rw above)
  ]

  prolonged-IsMoved :
      (window : Option F) (clock : F) (deadline after : Option F)
      → prolonged window clock deadline ≡ some after
      → IsMoved clock window deadline after
  prolonged-IsMoved none clock deadline after e = some_inj deadline after e
  prolonged-IsMoved (some window) clock none after e = absurd (ground (arith, e))
  prolonged-IsMoved (some window) clock (some old) after e =
      let x = py.add old window in
      let y = py.add clock window in
      (old, smaller x y, refl, sym (some_inj _ after e), smaller-either x y, smaller-le x y)

  extended_case-IsExtended :
      (windows : Windows) (clock : F) (c after : L2Case F)
      → extended_case windows clock c ≡ some after
      → IsExtended windows clock c after
  extended_case-IsExtended windows clock c after e =
      let (first, e1) = unless-some c.acknowledged _ after e in
      let (deadline, made, e2) =
        bind-elim (prolonged (window_at windows c.severity) clock c.deadline) _ after e1 in
      let next : L2Case F = record c { acknowledged = true; deadline = deadline } in
      let same : next ≡ after = some_inj next after e2 in
      record {
        first = first;
        spent = sym (ap (λ (x : L2Case F). x.acknowledged) same);
        same = sym (ap (λ (x : L2Case F). x.id) same);
        moved =
            rw (← ap (λ (x : L2Case F). x.deadline) same)
              (prolonged-IsMoved (window_at windows c.severity) clock c.deadline deadline made);
      }

  saved_if-true :
      (body : String) (o : Option (L2Case F)) (w after : L2Workflow F)
      → saved_if body o w ≡ (true, after)
      → (c : L2Case F) × (o ≡ some c) × (save_case c body w ≡ after)
  saved_if-true body none w after e =
      absurd (ground (arith, ap (λ (p : Bool × L2Workflow F). p.0) e))
  saved_if-true body (some c) w after e = (c, refl, ap (λ (p : Bool × L2Workflow F). p.1) e)

  module _ (windows : Windows) (undo : Undoing) (actor : String) (clock : F) where
    -- an extension that is accepted, with the case as it stood and as it is saved
    record IsAccepted (id : String) (w after : L2Workflow F) : Type 0 where
      before : L2Case F
      found : find_l2 id w.cases ≡ some before
      next : L2Case F
      extended : extended_case windows clock before ≡ some next
      body : String
      stored : save_case next body w ≡ after

    on_case-IsAccepted :
        (command : L2Command) (id reason : String) (o : Option (L2Case F)) (w after : L2Workflow F)
        → is_extension command ≡ true
        → find_l2 id w.cases ≡ o
        → on_case windows undo actor clock command reason o w ≡ (true, after)
        → IsAccepted id w after
    unfolding control_case
    on_case-IsAccepted command id reason none w after x found e =
        absurd (ground (arith, ap (λ (p : Bool × L2Workflow F). p.0) e))
    on_case-IsAccepted ack id reason (some c) w after x found e =
        let body = control_body ack actor reason in
        let (next, extended, stored) =
          saved_if-true body (extended_case windows clock c) w after
            (guarded-true (is_reviewable c.state) _ w after e) in
        record {
          before = c;
          found = found;
          next = next;
          extended = extended;
          body = body;
          stored = stored;
        }
    on_case-IsAccepted defer id reason (some c) w after x found e =
        let body = control_body defer actor reason in
        let (next, extended, stored) =
          saved_if-true body (extended_case windows clock c) w after
            (guarded-true (is_reviewable c.state) _ w after e) in
        record {
          before = c;
          found = found;
          next = next;
          extended = extended;
          body = body;
          stored = stored;
        }
    on_case-IsAccepted stop id reason (some c) w after x found e = absurd (ground (arith, x))
    on_case-IsAccepted resume id reason (some c) w after x found e = absurd (ground (arith, x))
    on_case-IsAccepted revert id reason (some c) w after x found e = absurd (ground (arith, x))
    on_case-IsAccepted reject id reason (some c) w after x found e = absurd (ground (arith, x))

    -- A case that was extended is not extended again.
    on_case-spent :
        (command : L2Command) (reason : String) (c : L2Case F) (w : L2Workflow F)
        → is_extension command ≡ true
        → c.acknowledged ≡ true
        → on_case windows undo actor clock command reason (some c) w ≡ (false, w)
    unfolding control_case
    on_case-spent ack reason c w x spent =
        refused_either (is_reviewable c.state) _ w (
          ap (λ o. saved_if (control_body ack actor reason) o w)
            (spent-none c.acknowledged _ spent))
    on_case-spent defer reason c w x spent = refused_either (is_reviewable c.state) _ w (
        ap (λ o. saved_if (control_body defer actor reason) o w)
          (spent-none c.acknowledged _ spent))
    on_case-spent stop reason c w x spent = absurd (ground (arith, x))
    on_case-spent resume reason c w x spent = absurd (ground (arith, x))
    on_case-spent revert reason c w x spent = absurd (ground (arith, x))
    on_case-spent reject reason c w x spent = absurd (ground (arith, x))

    control-IsAccepted :
        (command : L2Command) (id reason : String) (w after : L2Workflow F)
        → is_extension command ≡ true
        → l2_control windows undo actor clock command id reason w ≡ (true, after)
        → IsAccepted id w after
    unfolding l2_control
    control-IsAccepted ack id reason w after x e =
        on_case-IsAccepted ack id reason (find_l2 id w.cases) w after x refl e
    control-IsAccepted defer id reason w after x e =
        on_case-IsAccepted defer id reason (find_l2 id w.cases) w after x refl
          (unguarded-true (strip reason == "") _ w after e)
    control-IsAccepted stop id reason w after x e = absurd (ground (arith, x))
    control-IsAccepted resume id reason w after x e = absurd (ground (arith, x))
    control-IsAccepted revert id reason w after x e = absurd (ground (arith, x))
    control-IsAccepted reject id reason w after x e = absurd (ground (arith, x))

    control-spent :
        (command : L2Command) (id reason : String) (c : L2Case F) (w : L2Workflow F)
        → is_extension command ≡ true
        → find_l2 id w.cases ≡ some c
        → c.acknowledged ≡ true
        → l2_control windows undo actor clock command id reason w ≡ (false, w)
    unfolding l2_control
    control-spent ack id reason c w x found spent =
        rw (found, on_case) (on_case-spent ack reason c w x spent)
    control-spent defer id reason c w x found spent =
        refused_or (strip reason == "") _ w
          (rw (found, on_case) (on_case-spent defer reason c w x spent))
    control-spent stop id reason c w x found spent = absurd (ground (arith, x))
    control-spent resume id reason c w x found spent = absurd (ground (arith, x))
    control-spent revert id reason c w x found spent = absurd (ground (arith, x))
    control-spent reject id reason c w x found spent = absurd (ground (arith, x))

-- An acknowledgement or deferral that is accepted concerns a case that had no extension yet. It leaves the
-- deadline of a level without a window, and moves another one to a window from itself or from now, not
-- past the latter; the saved case takes no second extension, whoever asks and when.
pub control-Once :
    {F : Type 0}
    → ⦃py : Runtime F⦄
    → (windows : Windows) (undo : Undoing) (actor : String) (clock : F) (command : L2Command)
      (id reason : String) (w after : L2Workflow F) (undo' : Undoing) (actor' : String) (clock' : F)
      (again : L2Command) (reason' : String)
    → is_extension command ≡ true
    → l2_control windows undo actor clock command id reason w ≡ (true, after)
    → is_extension again ≡ true
    → (c : L2Case F) × (next : L2Case F) × (find_l2 id w.cases ≡ some c)
      × (find_l2 id after.cases ≡ some next)
      × IsExtended windows clock c next
      × (l2_control windows undo' actor' clock' again id reason' after ≡ (false, after))
unfolding save_case
control-Once windows undo actor clock command id reason w after undo' actor' clock' again reason' x
      e more =
    let a = control-IsAccepted windows undo actor clock command id reason w after x e in
    let extended = extended_case-IsExtended windows clock a.before a.next a.extended in
    let named = extended.same ∙ find_l2-id id w.cases a.before a.found in
    let kept : find_l2 id after.cases ≡ some a.next =
      rw (← a.stored) (rw (← named) (find_l2-put_l2 a.next w.cases)) in
    (
      a.before,
      a.next,
      a.found,
      kept,
      extended,
      control-spent windows undo' actor' clock' again id reason' a.next after more kept
          extended.spent,
    )
