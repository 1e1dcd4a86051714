-- ===== src/Analyst/Guards.antt =====
-- Guarded steps that succeed or are refused.
use arbiter_ai.Base.{◌≡◌, refl, ap, Bool, true, false, Option, none, some, if◌then◌else◌, arith}

pub unless-some :
    {A : Type 0}
    → (b : Bool) (m : Option A) (x : A) → (if b then none else m) ≡ some x
    → (b ≡ false) × (m ≡ some x)
unless-some true m x e = absurd (ground (arith, e))
unless-some false m x e = (refl, e)

-- a guarded step that succeeds
pub guarded-true :
    {W : Type 0}
    → (b : Bool) (r : Bool × W) (w after : W) → (if b then r else (false, w)) ≡ (true, after)
    → r ≡ (true, after)
guarded-true true r w after e = e
guarded-true {W} false r w after e = absurd (ground (arith, ap (λ (p : Bool × W). p.0) e))

pub unguarded-true :
    {W : Type 0}
    → (b : Bool) (r : Bool × W) (w after : W) → (if b then (false, w) else r) ≡ (true, after)
    → r ≡ (true, after)
unguarded-true {W} true r w after e = absurd (ground (arith, ap (λ (p : Bool × W). p.0) e))
unguarded-true false r w after e = e

pub spent-none :
    {A : Type 0} → (b : Bool) (m : Option A) → b ≡ true → (if b then none else m) ≡ none
spent-none true m h = refl
spent-none false m h = absurd (ground (arith, h))

pub refused_either :
    {W : Type 0}
    → (b : Bool) (r : Bool × W) (w : W) → r ≡ (false, w)
    → (if b then r else (false, w)) ≡ (false, w)
refused_either true r w e = e
refused_either false r w e = refl

pub refused_or :
    {W : Type 0}
    → (b : Bool) (r : Bool × W) (w : W) → r ≡ (false, w)
    → (if b then (false, w) else r) ≡ (false, w)
refused_or true r w e = refl
refused_or false r w e = e
