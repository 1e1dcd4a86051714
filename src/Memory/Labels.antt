-- ===== src/Memory/Labels.antt =====
-- What the analyst's label does to the history of a signature, which the prefilter reads.
use arbiter_ai.Base.{
  Bool, ◌&&◌, not, if◌then◌else◌, ◌+◌, ◌≤◌, String, ◌≡◌, true, false, inl, inr, List, [], ◌∷◌, ◌==◌,
  ◌<>◌, eq_iff, map, starts_with, Bool-cases, arith, refl,
}
use arbiter_ai.Memory.Cache.{IsCoherent, history-Reads, label_verdicts-IsCoherent}
use arbiter_ai.Memory.{
  history, Memory, SignatureHistory, VerdictRow, counts, of_signature, was_suppressed,
  was_overruled, label_row, label_verdicts,
}

-- the counts of one signature add up
pub record Splits (h : SignatureHistory) : Type 0 where
  pub partition : h.suppressed + h.escalated ≡ h.total
  pub missed : h.overruled ≤ h.suppressed
  pub benign : h.false_alarms ≤ h.escalated

-- The counts of a signature split: every verdict is a suppression or an escalation, the overruled
-- suppressions are among the former and the false alarms among the latter.
pub counts-Splits : (s : String) (rows : List VerdictRow) → Splits (counts s rows)
unfolding counts
counts-Splits s [] = omega arith
counts-Splits s (r ∷ rows) = ground (arith, counts-Splits s rows)

-- A label leaves the signature and the decision of a row alone, and is set on the signature's rows.
record Labelled (s label : String) (r : VerdictRow) : Type 0 where
  signature : (label_row s label r).signature ≡ r.signature
  decision : (label_row s label r).decision ≡ r.decision
  set : of_signature s r ≡ true → (label_row s label r).human_label ≡ label

label_row-Labelled : (s label : String) (r : VerdictRow) → Labelled s label r
unfolding label_row
label_row-Labelled s label r = record {
  signature = ground arith;
  decision = ground arith;
  set = λ h. rw h;
}

abbrev pub labelled : String → String → List VerdictRow → List VerdictRow
labelled s label = map (label_row s label)

module _ (s label : String) where
  -- a labelled row under a test of its signature, its decision and its label
  weigh-labelled :
      (pick : Bool → Bool) (r : VerdictRow)
      → (of_signature s (label_row s label r)
          && (pick (was_suppressed (label_row s label r)) && was_overruled (label_row s label r)))
        ≡ ((of_signature s r && pick (was_suppressed r)) && (label == "overruled"))
  weigh-labelled pick r =
      let row = label_row-Labelled s label r in
      rw (row.signature, row.decision)
        (elim (Bool-cases (of_signature s r)) [
          | inl own ↦ rw (own, row.set own) refl
          | inr other ↦ rw other
        ])

  pub labelled-after :
      (rows : List VerdictRow)
      → let after = counts s (labelled s label rows) in
        let before = counts s rows in
        (after.total ≡ before.total)
        × (after.suppressed ≡ before.suppressed)
        × (after.escalated ≡ before.escalated)
        × (after.overruled ≡ (if label == "overruled" then before.suppressed else 0))
        × (after.false_alarms ≡ (if label == "overruled" then before.escalated else 0))
  unfolding counts
  labelled-after [] = ground arith
  labelled-after (r ∷ rows) =
      let row = label_row-Labelled s label r in
      let ih = labelled-after rows in
      ground (
        arith,
        ih,
        row.signature,
        row.decision,
        weigh-labelled (λ b. b) r,
        weigh-labelled not r,
        Bool-cases (label == "overruled"),
      )

counts-other :
    (s k label : String) (rows : List VerdictRow)
    → (k == s) ≡ false
    → starts_with k (s <> ":ctx:") ≡ false
    → counts k (map (label_row s label) rows) ≡ counts k rows
unfolding counts label_row
counts-other s k label [] h c = refl
counts-other s k label (r ∷ rows) h c =
    ground (
      arith,
      counts-other s k label rows h c,
      eq_iff r.signature k,
      eq_iff r.signature s,
      eq_iff k s,
    )

module _ {F : Type 0} where
  -- After a signature is labelled "overruled" its history, as the prefilter reads it, counts every
  -- suppression as a missed attack and every escalation as a false alarm; after any other label it
  -- counts none. The numbers of verdicts stay.
  pub history-label_verdicts :
      (s label : String) (m : Memory F)
      → IsCoherent m
      → let after = (history s (label_verdicts s label m)).0 in
        let before = counts s m.verdicts in
        (after.total ≡ before.total)
        × (after.suppressed ≡ before.suppressed)
        × (after.escalated ≡ before.escalated)
        × (after.overruled ≡ (if label == "overruled" then before.suppressed else 0))
        × (after.false_alarms ≡ (if label == "overruled" then before.escalated else 0))
  unfolding label_verdicts
  history-label_verdicts s label m c =
      rw (history-Reads s (label_verdicts s label m) (label_verdicts-IsCoherent s label m c)).exact
        (labelled-after s label m.verdicts)

  -- A label touches only its signature and the contexts of that signature: the history of any other
  -- signature stays what it was.
  history-label_other :
      (s k label : String) (m : Memory F)
      → IsCoherent m
      → (k == s) ≡ false
      → starts_with k (s <> ":ctx:") ≡ false
      → (history k (label_verdicts s label m)).0 ≡ (history k m).0
  unfolding label_verdicts
  history-label_other s k label m c other outside =
      rw
        (
          (history-Reads k (label_verdicts s label m)
              (label_verdicts-IsCoherent s label m c)).exact,
          (history-Reads k m c).exact,
        )
        (counts-other s k label m.verdicts other outside)
