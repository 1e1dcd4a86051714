-- ===== src/Analyst/Growth.antt =====
-- Which blocks a step of the second-level workflow asks the firewall for.
use arbiter_ai.Base.{
  String, ◌≡◌, refl, sym, ◌∙◌, Bool, true, false, List, [], ◌∷◌, ◌++◌, append-nil, append_assoc,
  if◌then◌else◌, All, All-append, Among, inl, inr,
}
use arbiter_ai.Protection.{Command, block}
use arbiter_ai.Protection.Blocks.{blocks}
use arbiter_ai.Protection.Asked.{AsksAtMost}
use arbiter_ai.Analyst.Cases.{L2Workflow}
use arbiter_ai.Analyst.Observe.{proceed, each}

-- a block of a target of which P holds
abbrev pub IsFor : (String → Type 0) → Command → Type 0
IsFor P (block id target) = P target
IsFor P _ = ⊥

module _ {F : Type 0} (P : String → Type 0) where
  -- The stop is as before, and every new block is of a target of which P holds.
  pub record Grows (w after : L2Workflow F) : Type 0 where
    pub same : after.stopped ≡ w.stopped
    pub extra : List Command
    pub grown : blocks after.store ≡ blocks w.store ++ extra
    pub allowed : All (IsFor P) extra

  pub Grows-still :
      (w after : L2Workflow F)
      → after.stopped ≡ w.stopped
      → blocks after.store ≡ blocks w.store
      → Grows w after
  Grows-still w after same silent = record {
    same = same;
    extra = [];
    grown = silent ∙ sym (append-nil (blocks w.store));
    allowed = tt;
  }

  pub Grows-trans : (u v w : L2Workflow F) → Grows u v → Grows v w → Grows u w
  Grows-trans u v w p q = record {
    same = q.same ∙ p.same;
    extra = p.extra ++ q.extra;
    grown = q.grown ∙ rw p.grown (append_assoc (blocks u.store) p.extra q.extra);
    allowed = All-append (IsFor P) p.extra q.extra p.allowed q.allowed;
  }

  pub Grows-asked :
      (id target : String) (w after : L2Workflow F)
      → after.stopped ≡ w.stopped
      → AsksAtMost id target w.store after.store
      → P target
      → Grows w after
  Grows-asked id target w after same (inl none_new) h = Grows-still w after same none_new
  Grows-asked id target w after same (inr one) h = record {
    same = same;
    extra = block id target ∷ [];
    grown = one;
    allowed = (h, tt);
  }

  pub choose-Grows :
      (b : Bool) (w x y : L2Workflow F) → Grows w x → Grows w y → Grows w (if b then x else y)
  choose-Grows true w x y h k = h
  choose-Grows false w x y h k = k

  pub either-Grows :
      (b : Bool) (w : L2Workflow F) (x y : Bool × L2Workflow F)
      → Grows w x.1
      → Grows w y.1
      → Grows w (if b then x else y).1
  either-Grows true w x y h k = h
  either-Grows false w x y h k = k

  module _ (stopped : Bool) where
    -- what a step keeps to, from every workflow with the stop as given
    abbrev pub Careful : (L2Workflow F → Bool × L2Workflow F) → Type 0
    Careful step = (w : L2Workflow F) → w.stopped ≡ stopped → Grows w (step w).1

    pub proceed-Grows :
        (step : L2Workflow F → Bool × L2Workflow F) (w : L2Workflow F) (r : Bool × L2Workflow F)
        → Careful step
        → w.stopped ≡ stopped
        → Grows w r.1
        → Grows w (proceed step r).1
    proceed-Grows step w (false, v) h e g = g
    proceed-Grows step w (true, v) h e g = Grows-trans w v _ g (h v (g.same ∙ e))

    -- the same after a step that is looked at alone
    pub proceed-Grows_at :
        (step : L2Workflow F → Bool × L2Workflow F) (w : L2Workflow F) (r : Bool × L2Workflow F)
        → Grows r.1 (step r.1).1
        → Grows w r.1
        → Grows w (proceed step r).1
    proceed-Grows_at step w (false, v) h g = g
    proceed-Grows_at step w (true, v) h g = Grows-trans w v _ g h

    -- a loop whose step is careful for the elements of the list
    pub each-Careful_among :
        {A : Type 0} (step : A → L2Workflow F → Bool × L2Workflow F) (xs : List A)
        → ((x : A) → Among x xs → Careful (step x))
        → Careful (each step xs)
    unfolding each
    each-Careful_among step [] h w e = Grows-still w w refl refl
    each-Careful_among step (x ∷ xs) h w e =
        proceed-Grows (each step xs) w (step x w)
          (each-Careful_among step xs (λ y. λ later. h y (inr later))) e (h x (inl refl) w e)

    pub each-Careful :
        {A : Type 0} (step : A → L2Workflow F → Bool × L2Workflow F)
        → ((x : A) → Careful (step x))
        → (xs : List A) → Careful (each step xs)
    each-Careful step h xs = each-Careful_among step xs (λ x. λ among. h x)
