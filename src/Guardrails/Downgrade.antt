-- ===== src/Guardrails/Downgrade.antt =====
-- A rail is downgraded only by a fact that names the host and the marker on which it fired.
use mathlib.Core.Bool.{false≢true}
use arbiter_ai.Base.{
  String, ◌≡◌, ◌⊎◌, inl, inr, true, some, List, [], ◌∷◌, ◌&&◌, ◌==◌, eq_iff, Bool-cases, Among,
  any-elim, &&-left, &&-right, arith,
}
use arbiter_ai.Base.Text.{contains}
use arbiter_ai.Values.{Runtime}
use arbiter_ai.Schema.{Event}
use arbiter_ai.Guardrails.Fields.{has, field_text}
use arbiter_ai.Guardrails.{
  GuardrailHit, norm, marker_groups, shared_marker, corroborates_privesc, first_corroborating,
  fact_downgrade,
}

-- a spelling of one marker group stands in the message, and one of the same group in the fact
pub record NamesMarker (message fact : String) : Type 0 where
  pub group : List String
  pub known : Among group marker_groups
  pub in_message : String
  pub in_fact : String
  pub spelled : Among in_message group
  pub respelled : Among in_fact group
  pub written : contains message in_message ≡ true
  pub covered : contains fact in_fact ≡ true

shared_marker-NamesMarker : (m f : String) → shared_marker m f ≡ true → NamesMarker m f
unfolding shared_marker has
shared_marker-NamesMarker m f h =
    let (group, known, both) = any-elim (λ g. has m g && has f g) marker_groups h in
    let (w, spelled, written) = any-elim (contains m) group (&&-left _ _ both) in
    let (v, respelled, covered) = any-elim (contains f) group (&&-right _ _ both) in
    record {
      group = group;
      known = known;
      in_message = w;
      in_fact = v;
      spelled = spelled;
      respelled = respelled;
      written = written;
      covered = covered;
    }

module _ {F : Type 0} ⦃py : Runtime F⦄ where
  -- what a fact must say of an event
  pub record Covers (e : Event F) (fact : String) : Type 0 where
    pub host : contains (norm fact) (norm e.host) ≡ true
    pub marker :
        ((field_text "uid" e ≡ "0") × (has (norm fact) ("uid 0" ∷ "uid0" ∷ []) ≡ true))
        ⊎ NamesMarker (norm e.message) (norm fact)

  corroborates-Covers :
      (e : Event F) (fact : String) → corroborates_privesc e fact ≡ true → Covers e fact
  unfolding corroborates_privesc
  corroborates-Covers e fact h =
      let uid = field_text "uid" e == "0" && has (norm fact) ("uid 0" ∷ "uid0" ∷ []) in
      elim (Bool-cases (contains (norm fact) (norm e.host))) [
        | inl named ↦ elim (Bool-cases uid) [
          | inl root ↦ record {
            host = named;
            marker = inl ((eq_iff _ _).0 (&&-left _ _ root), &&-right _ _ root);
          }
          | inr plain ↦ record {
            host = named;
            marker = inr (shared_marker-NamesMarker _ _ (rw (named, plain) at h));
          }
        ]
        | inr unnamed ↦ absurd (false≢true (rw unnamed at h))
      ]

  first_corroborating-Covers :
      (e : Event F) (facts : List String) (fact : String)
      → first_corroborating e facts ≡ some fact
      → Among fact facts × Covers e fact
  unfolding first_corroborating
  first_corroborating-Covers e [] fact h = absurd (cc)
  first_corroborating-Covers e (f ∷ facts) fact h = elim (Bool-cases (corroborates_privesc e f)) [
    | inl here ↦
        let same : fact ≡ f = ground arith in (inl same, rw same (corroborates-Covers e f here))
    | inr later ↦
        let (found, covers) = first_corroborating-Covers e facts fact (ground arith) in
        (inr found, covers)
  ]

  -- A fact downgrades a rail only if the rail is `privilege_expansion`, the fact is one of the
  -- given facts, it names the event's host, and it names the marker: user id 0 where the event has
  -- it, or a spelling of a marker group of which the message has one too.
  pub downgrade-Covers :
      (hit : GuardrailHit) (e : Event F) (facts : List String) (fact : String)
      → fact_downgrade hit e facts ≡ some fact
      → (hit.name ≡ "privilege_expansion") × Among fact facts × Covers e fact
  unfolding fact_downgrade
  downgrade-Covers hit e facts fact h = elim (Bool-cases (hit.name == "privilege_expansion")) [
    | inl rail ↦
        let (found, covers) = first_corroborating-Covers e facts fact (rw rail at h) in
        ((eq_iff _ _).0 rail, found, covers)
    | inr other ↦ absurd (ground arith)
  ]
