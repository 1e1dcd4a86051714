-- ===== src/Facts/Scope.antt =====
-- What the result of a scope check says of the single checks.
use text.Mathlib.TextPositions.{starts_with-append}
use arbiter_ai.Base.{
  String, ◌≡◌, refl, Bool, true, false, not, ◌&&◌, ◌||◌, List, [], ◌∷◌, ◌++◌, starts_with, arith,
  ltb, if◌then◌else◌, any, all,
}
use arbiter_ai.Values.{Runtime}
use arbiter_ai.Schema.{Event}
use arbiter_ai.Facts.{
  ScopedFact, Check, matched, violated, unknown, Status, unscoped, verified, mismatch, partial,
  Gathered, note, gather, conclude, checks, scope_check, scoped, render, is_empty,
}

abbrev pub is_matched : Check → Bool
is_matched matched = true
is_matched _ = false

abbrev pub is_violated : Check → Bool
is_violated (violated d) = true
is_violated _ = false

-- every populated constraint passes the test
abbrev pub every : (Check → Bool) → List (Bool × Check) → Bool
every p = all (λ c. not c.0 || p c.1)

-- some populated constraint passes the test
abbrev pub some_of : (Check → Bool) → List (Bool × Check) → Bool
some_of p = any (λ c. c.0 && p c.1)

-- The result of the checks: a violation wins; without one, all of them must have matched.
abbrev pub verdict_of : List (Bool × Check) → Status
verdict_of cs =
    if some_of is_violated cs then mismatch else if every is_matched cs then verified else partial

is_unknown : Check → Bool
is_unknown (unknown d) = true
is_unknown _ = false

some_left : (d : String) (xs : List String) → is_empty (xs ++ (d ∷ [])) ≡ false
some_left d [] = refl
some_left d (x ∷ xs) = refl

gathered-violations :
    (cs : List (Bool × Check)) (g : Gathered)
    → is_empty (gather cs g).violations ≡ (is_empty g.violations && not (some_of is_violated cs))
unfolding gather note
gathered-violations [] g = ground arith
gathered-violations ((false, c) ∷ cs) g = gathered-violations cs g
gathered-violations ((true, matched) ∷ cs) g = gathered-violations cs (note true matched g)
gathered-violations ((true, violated d) ∷ cs) g =
    ground (arith, gathered-violations cs (note true (violated d) g), some_left d g.violations)
gathered-violations ((true, unknown d) ∷ cs) g = gathered-violations cs (note true (unknown d) g)

gathered-unverified :
    (cs : List (Bool × Check)) (g : Gathered)
    → is_empty (gather cs g).unverified ≡ (is_empty g.unverified && not (some_of is_unknown cs))
unfolding gather note is_unknown
gathered-unverified [] g = ground arith
gathered-unverified ((false, c) ∷ cs) g = gathered-unverified cs g
gathered-unverified ((true, matched) ∷ cs) g = gathered-unverified cs (note true matched g)
gathered-unverified ((true, unknown d) ∷ cs) g =
    ground (arith, gathered-unverified cs (note true (unknown d) g), some_left d g.unverified)
gathered-unverified ((true, violated d) ∷ cs) g = gathered-unverified cs (note true (violated d) g)

gathered-matches :
    (cs : List (Bool × Check)) (g : Gathered)
    → ltb 0 (gather cs g).matches ≡ (ltb 0 g.matches || some_of is_matched cs)
unfolding gather note
gathered-matches [] g = ground arith
gathered-matches ((false, c) ∷ cs) g = gathered-matches cs g
gathered-matches ((true, matched) ∷ cs) g =
    ground (arith, gathered-matches cs (note true matched g))
gathered-matches ((true, unknown d) ∷ cs) g = gathered-matches cs (note true (unknown d) g)
gathered-matches ((true, violated d) ∷ cs) g = gathered-matches cs (note true (violated d) g)

-- with some constraint populated and none violated, all match exactly if none is unknown
every-matched :
    (cs : List (Bool × Check))
    → some_of is_violated cs ≡ false
    → every is_matched cs ≡ not (some_of is_unknown cs)
unfolding is_unknown
every-matched [] h = refl
every-matched ((false, c) ∷ cs) h = every-matched cs h
every-matched ((true, matched) ∷ cs) h = every-matched cs h
every-matched ((true, unknown d) ∷ cs) h = refl
every-matched ((true, violated d) ∷ cs) h = cc

some-matched :
    (cs : List (Bool × Check))
    → any (λ c. c.0) cs ≡ true
    → some_of is_unknown cs ≡ false
    → some_of is_violated cs ≡ false
    → some_of is_matched cs ≡ true
unfolding is_unknown
some-matched [] p u v = cc
some-matched ((false, c) ∷ cs) p u v = some-matched cs p u v
some-matched ((true, matched) ∷ cs) p u v = refl
some-matched ((true, unknown d) ∷ cs) p u v = cc
some-matched ((true, violated d) ∷ cs) p u v = cc

conclude-verdict_of :
    (cs : List (Bool × Check))
    → any (λ c. c.0) cs ≡ true
    → (conclude (gather cs (record { violations = []; unverified = []; matches = 0 }))).status
      ≡ verdict_of cs
unfolding conclude
conclude-verdict_of cs populated =
    let start : Gathered = record { violations = []; unverified = []; matches = 0 } in
    ground (
      arith,
      gathered-violations cs start,
      gathered-unverified cs start,
      gathered-matches cs start,
      every-matched cs,
      some-matched cs populated,
    )

module _ {F : Type 0} ⦃py : Runtime F⦄ where
  scoped-checks : (f : ScopedFact) (e : Event F) → scoped f ≡ any (λ c. c.0) (checks f e)
  unfolding scoped checks
  scoped-checks f e = ground arith

  -- A fact without constraints is unscoped. Any other is a mismatch exactly if some populated
  -- constraint is violated, whatever the others give; it is verified exactly if every populated
  -- constraint matches, and partial in all other cases.
  pub scope_check-verdict_of :
      (f : ScopedFact) (e : Event F)
      → (scope_check f e).status ≡ (if scoped f then verdict_of (checks f e) else unscoped)
  unfolding scope_check
  scope_check-verdict_of f e = ground (arith, scoped-checks f e, conclude-verdict_of (checks f e))

  -- Whatever the check finds, the model is shown the fact's own text first: an out-of-scope fact is
  -- annotated and never hidden.
  pub render-text : (f : ScopedFact) (e : Event F) → starts_with (render f e) f.text ≡ true
  unfolding render
  render-text f e = starts_with-append f.text _
