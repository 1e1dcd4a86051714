-- ===== src/Guardrails/First.antt =====
-- `guardrail_check` reports the first rule that fires, and is silent exactly when none does.
use mathlib.Core.Path.{◌≡◌}
use arbiter_ai.Base.{
  refl, ap, true, false, none, some, List, [], ◌∷◌, ◌++◌, ◌↔◌, inl, inr, All, Bool-cases, arith,
}
use arbiter_ai.Values.{Runtime}
use arbiter_ai.Schema.{Event}
use arbiter_ai.Guardrails.{GuardrailHit, Rule, first_hit, rules, guardrail_check}

module _ {F : Type 0} where
  -- no rule of the list fires on the event
  abbrev pub Quiet : List (Rule F) → Event F → Type 0
  Quiet rs e = All (λ r. r.predicate e ≡ false) rs

  -- the rule that reported, with those before it
  record IsFirst (rs : List (Rule F)) (e : Event F) (hit : GuardrailHit) : Type 0 where
    before : List (Rule F)
    fired : Rule F
    behind : List (Rule F)
    split : rs ≡ before ++ (fired ∷ behind)
    quiet : Quiet before e
    fires : fired.predicate e ≡ true
    reported : hit ≡ fired.hit

  first_hit-IsFirst :
      (rs : List (Rule F)) (e : Event F) (hit : GuardrailHit)
      → first_hit rs e ≡ some hit
      → IsFirst rs e hit
  unfolding first_hit
  first_hit-IsFirst [] e hit h = absurd (cc)
  first_hit-IsFirst (r ∷ rs) e hit h = elim (Bool-cases (r.predicate e)) [
    | inl fires ↦ record {
      before = [];
      fired = r;
      behind = rs;
      split = refl;
      quiet = tt;
      fires = fires;
      reported = ground arith;
    }
    | inr silent ↦
        let later = first_hit-IsFirst rs e hit (ground arith) in
        record {
          before = r ∷ later.before;
          fired = later.fired;
          behind = later.behind;
          split = ap (◌∷◌ r) later.split;
          quiet = (silent, later.quiet);
          fires = later.fires;
          reported = later.reported;
        }
  ]

  first_hit-none : (rs : List (Rule F)) (e : Event F) → first_hit rs e ≡ none → Quiet rs e
  unfolding first_hit
  first_hit-none [] e h = tt
  first_hit-none (r ∷ rs) e h = elim (Bool-cases (r.predicate e)) [
    | inl fires ↦ absurd (ground arith)
    | inr silent ↦ (silent, first_hit-none rs e (ground arith))
  ]

  first_hit-Quiet : (rs : List (Rule F)) (e : Event F) → Quiet rs e → first_hit rs e ≡ none
  unfolding first_hit
  first_hit-Quiet [] e h = refl
  first_hit-Quiet (r ∷ rs) e h = rw h.0 (first_hit-Quiet rs e h.1)

module _ {F : Type 0} ⦃py : Runtime F⦄ where
  -- The check passes an event exactly when every one of the eleven rules is silent on it.
  pub check-none_iff : (e : Event F) → (guardrail_check e ≡ none) ↔ Quiet rules e
  unfolding guardrail_check
  check-none_iff e = (first_hit-none rules e, first_hit-Quiet rules e)

  -- A reported hit is that of a rule which fires, and every rule before it in the list is silent.
  check-IsFirst :
      (e : Event F) (hit : GuardrailHit) → guardrail_check e ≡ some hit → IsFirst rules e hit
  unfolding guardrail_check
  check-IsFirst e hit h = first_hit-IsFirst rules e hit h
