-- ===== src/Prefilter/Exact.antt =====
-- The prefilter, with its cached histories, is a function of the event and of the tables.
use arbiter_ai.Base.{String, ℕ, ◌≡◌, refl, ap, some, none, Option-cases, inl, inr, List, ◌∙◌}
use arbiter_ai.Values.{Runtime}
use arbiter_ai.Schema.{Event, clamp, signature}
use arbiter_ai.Memory.{Memory, VerdictRow, counts, history, asset_criticality}
use arbiter_ai.Memory.Cache.{IsCoherent, history-Reads}
use arbiter_ai.Prefilter.{
  PrefilterResult, context_of, history_key, trusted, modifier, score_event, broad_overrule, decide,
  prefilter,
}

module _ {F : Type 0} ⦃py : Runtime F⦄ where
  -- the score, by the rows of the verdict table
  unfoldable pub score_of : Event F → Memory F → F
  score_of e m = clamp (
      py.mul (py.mul e.severity (asset_criticality e.host m))
        (modifier (trusted e) (counts (history_key e) m.verdicts)))

  unfoldable pub broad_of : Event F → List VerdictRow → ℕ
  broad_of e rows = elim (context_of e) [
    | none ↦ 0
    | some c ↦ (counts (signature e) rows).overruled
  ]

  -- What the prefilter decides, by the tables alone.
  unfoldable pub outcome : Event F → Memory F → PrefilterResult F
  outcome e m =
      decide e (score_of e m) (counts (history_key e) m.verdicts) (broad_of e m.verdicts)
        (asset_criticality e.host m)

  -- the tables of two memories agree, and the later one is coherent
  pub record Keeps (m m' : Memory F) : Type 0 where
    pub coherent : IsCoherent m'
    pub verdicts : m'.verdicts ≡ m.verdicts
    pub assets : m'.assets ≡ m.assets
    pub facts : m'.facts ≡ m.facts

  criticality-Keeps :
      (host : String) (m m' : Memory F)
      → Keeps m m'
      → asset_criticality host m' ≡ asset_criticality host m
  unfolding asset_criticality
  criticality-Keeps host m m' k = rw k.assets

  history-Keeps : (s : String) (m : Memory F) → IsCoherent m → Keeps m (history s m).1
  history-Keeps s m c =
      let r = history-Reads s m c in
      record { coherent = r.coherent; verdicts = r.verdicts; assets = r.assets; facts = r.facts }

  Keeps-trans : (a b c : Memory F) → Keeps a b → Keeps b c → Keeps a c
  Keeps-trans a b c h k = record {
    coherent = k.coherent;
    verdicts = k.verdicts ∙ h.verdicts;
    assets = k.assets ∙ h.assets;
    facts = k.facts ∙ h.facts;
  }

  score-Keeps :
      (e : Event F) (m : Memory F)
      → IsCoherent m
      → ((score_event e m).0 ≡ score_of e m) × Keeps m (score_event e m).1
  unfolding score_event score_of
  score-Keeps e m c =
      (rw (history-Reads (history_key e) m c).exact, history-Keeps (history_key e) m c)

  Keeps-refl : (m : Memory F) → IsCoherent m → Keeps m m
  Keeps-refl m c = record { coherent = c; verdicts = refl; assets = refl; facts = refl }

  broad-Keeps :
      (e : Event F) (m : Memory F)
      → IsCoherent m
      → ((broad_overrule e m).0 ≡ broad_of e m.verdicts) × Keeps m (broad_overrule e m).1
  unfolding broad_overrule broad_of
  broad-Keeps e m c = elim (Option-cases (context_of e)) [
    | inl absent ↦ rw (absent, broad_overrule, broad_of) (refl, Keeps-refl m c)
    | inr (context, present) ↦
        rw (present, broad_overrule, broad_of)
          (
            ap (λ h. h.overruled) (history-Reads (signature e) m c).exact,
            history-Keeps (signature e) m c,
          )
  ]

  -- On a coherent memory the prefilter decides by the event, the asset table and the verdict table
  -- alone. It leaves every table as it was and the memory coherent.
  pub prefilter-outcome :
      (e : Event F) (m : Memory F)
      → IsCoherent m
      → ((prefilter e m).0 ≡ outcome e m) × Keeps m (prefilter e m).1
  unfolding prefilter outcome
  prefilter-outcome e m c =
      let scored = score-Keeps e m c in
      let m1 = (score_event e m).1 in
      let read = history-Reads (history_key e) m1 scored.1.coherent in
      let kept = Keeps-trans m m1 _ scored.1 (history-Keeps (history_key e) m1 scored.1.coherent) in
      let m2 = (history (history_key e) m1).1 in
      let broad = broad-Keeps e m2 kept.coherent in
      let all = Keeps-trans m m2 _ kept broad.1 in
      (
        cc (
          scored.0,
          read.exact ∙ ap (counts (history_key e)) scored.1.verdicts,
          broad.0 ∙ ap (broad_of e) kept.verdicts,
          criticality-Keeps e.host m _ all,
        ),
        all,
      )
