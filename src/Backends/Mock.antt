-- ===== src/Backends/Mock.antt =====
-- The keyword stand-in suppresses only what a fact explains.
use arbiter_ai.Base.{
  String, ◌≡◌, refl, true, false, List, [], ◌∷◌, keep, any, length, eqb, Among, Bool-cases,
  any-elim, inl, inr, arith,
}
use arbiter_ai.Base.Text.{lower, contains}
use arbiter_ai.Values.{Runtime}
use arbiter_ai.Schema.{Event, suppress}
use arbiter_ai.Backends.Keywords.{hot, fact_explains, mock_triage}

-- What a suppression of the stand-in rests on.
record Explained (message : String) (facts : List String) : Type 0 where
  fact : String
  given : Among fact facts
  in_scope : contains fact "[SCOPE MISMATCH" ≡ false
  explains : fact_explains fact message ≡ true
  cold : keep (contains message) hot ≡ []

no_hits : (hits : List String) → eqb (length hits) 0 ≡ true → hits ≡ []
no_hits [] h = refl
no_hits (x ∷ xs) h = absurd (ground (arith, h))

in_scope-explains :
    (fact message : String)
    → fact_explains fact message ≡ true
    → contains fact "[SCOPE MISMATCH" ≡ false
unfolding fact_explains
in_scope-explains fact message h = elim (Bool-cases (contains fact "[SCOPE MISMATCH")) [
  | inr clean ↦ clean
  | inl marked ↦ absurd (ground (arith, marked, h))
]

module _ {F : Type 0} ⦃py : Runtime F⦄ where
  -- The stand-in suppresses an event only if no high-risk indicator stands in the message and one of
  -- the given facts explains it, which a fact with the mismatch annotation never does.
  mock_triage-Explained :
      (e : Event F) (criticality : F) (summary : String) (facts : List String)
      → (mock_triage e criticality summary facts).decision ≡ suppress
      → Explained (lower e.message) facts
  unfolding mock_triage
  mock_triage-Explained e criticality summary facts h =
      let hits = keep (contains (lower e.message)) hot in
      elim (Bool-cases (eqb (length hits) 0)) [
        | inr risky ↦ absurd (ground (arith, risky, h))
        | inl calm ↦ elim (Bool-cases (any (λ f. fact_explains f (lower e.message)) facts)) [
          | inr silent ↦ absurd (ground (arith, calm, silent, h))
          | inl speaks ↦
              let (fact, given, explains) = any-elim _ facts speaks in
              record {
                fact = fact;
                given = given;
                in_scope = in_scope-explains fact _ explains;
                explains = explains;
                cold = no_hits hits calm;
              }
        ]
      ]
