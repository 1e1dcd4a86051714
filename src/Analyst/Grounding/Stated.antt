-- ===== src/Analyst/Grounding/Stated.antt =====
-- What an assertion of a brief that is accepted states.
use arbiter_ai.Base.{
  String, ◌≡◌, refl, true, some, List, [], ◌∷◌, ◌==◌, require-elim, bind-elim, some_inj, Bool-cases,
  Option-cases, inl, inr, arith, All, All-map, Among,
}
use arbiter_ai.Base.Text.{same_text}
use arbiter_ai.Values.{Value, null, bool, int, float, str, arr, obj, Entries, get_value, equals}
use arbiter_ai.Analyst.{Fact}
use arbiter_ai.Analyst.Grounding.{fact_fields, value_at, fact_at, as_text, cite, cite_all}

fact_at-elim :
    (id : String) (fs : List Fact) (f : Fact) → fact_at id fs ≡ some f → Among f fs × (f.id ≡ id)
unfolding fact_at
fact_at-elim id [] f h = absurd (ground (arith, h))
fact_at-elim id (g ∷ rest) f h = elim (Option-cases (fact_at id rest)) [
  | inr (k, later) ↦
      let (found, named) = fact_at-elim id rest f (ground (arith, later, h)) in (inr found, named)
  | inl absent ↦ elim (Bool-cases (g.id == id)) [
    | inl hit ↦
        let same : g ≡ f = ground (arith, rw (absent, hit) at h) in
        (rw same (inl refl), rw (← same) (same_text g.id id hit))
    | inr miss ↦ absurd (ground (arith, rw (absent, miss) at h))
  ]
]

module _ {F : Type 0} (facts : List Fact) where
  -- An assertion that states the value which a field of the fact of that id has.
  pub record Stated (assertions : List (Value F)) (id : String) : Type 0 where
    pub assertion : Entries F
    pub present : Among (obj assertion) assertions
    pub fact : Fact
    pub known : Among fact facts
    pub named : fact.id ≡ id
    pub field : String
    pub value : String
    pub names_field : as_text (get_value "field" assertion) ≡ some field
    pub names_value : equals (get_value "value" assertion) value ≡ true
    pub has_value : value_at field (fact_fields fact) ≡ some value

  cite-Stated :
      (v : Value F) (rest : List (Value F)) (id : String)
      → cite facts v ≡ some id
      → Stated (v ∷ rest) id
  unfolding cite
  cite-Stated (obj d) rest id e =
      let (key, keyed, e1) = bind-elim (as_text (get_value "fact_id" d)) _ id e in
      let (f, found, e2) = bind-elim (fact_at key facts) _ id e1 in
      let (field, fielded, e3) = bind-elim (as_text (get_value "field" d)) _ id e2 in
      let (value, valued, e4) = bind-elim (value_at field (fact_fields f)) _ id e3 in
      let (said, e5) = require-elim (equals (get_value "value" d) value) _ id e4 in
      record {
        assertion = d;
        present = inl refl;
        fact = f;
        known = (fact_at-elim key facts f found).0;
        named = some_inj f.id id e5;
        field = field;
        value = value;
        names_field = fielded;
        names_value = said;
        has_value = valued;
      }
  cite-Stated null rest id e = absurd (ground (arith, e))
  cite-Stated (bool b) rest id e = absurd (ground (arith, e))
  cite-Stated (int n) rest id e = absurd (ground (arith, e))
  cite-Stated (float x) rest id e = absurd (ground (arith, e))
  cite-Stated (str s) rest id e = absurd (ground (arith, e))
  cite-Stated (arr vs) rest id e = absurd (ground (arith, e))

  Stated-later :
      (v : Value F) (rest : List (Value F)) (id : String) → Stated rest id → Stated (v ∷ rest) id
  Stated-later v rest id s = record {
    assertion = s.assertion;
    present = inr s.present;
    fact = s.fact;
    known = s.known;
    named = s.named;
    field = s.field;
    value = s.value;
    names_field = s.names_field;
    names_value = s.names_value;
    has_value = s.has_value;
  }

  pub cite_all-Stated :
      (vs : List (Value F)) (ids : List String) → cite_all facts vs ≡ some ids → All (Stated vs) ids
  unfolding cite_all
  cite_all-Stated [] ids e = let same = some_inj [] ids e in rw (← same) tt
  cite_all-Stated (v ∷ rest) ids e =
      let (id, cited, e1) = bind-elim (cite facts v) _ ids e in
      let (others, read, e2) = bind-elim (cite_all facts rest) _ ids e1 in
      let same = some_inj (id ∷ others) ids e2 in
      rw (← same) (
        cite-Stated v rest id cited,
        All-map (λ i. Stated-later v rest i) others (cite_all-Stated rest others read),
      )
