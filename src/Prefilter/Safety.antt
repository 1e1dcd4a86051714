-- ===== src/Prefilter/Safety.antt =====
-- When the prefilter may suppress, and what an analyst's label changes.
use arbiter_ai.Base.{ℕ, ◌≤◌, ◌<◌, ◌≡◌, ◌≢◌, ◌⊎◌, ◌↔◌, inl, inr, true, false, arith, Bool-cases}
use arbiter_ai.Values.{Runtime}
use arbiter_ai.Schema.{Event, suppress}
use arbiter_ai.Memory.{Memory, SignatureHistory, counts, label_verdicts}
use arbiter_ai.Memory.Cache.{IsCoherent, label_verdicts-IsCoherent}
use arbiter_ai.Memory.Labels.{counts-Splits, labelled, labelled-after}
use arbiter_ai.Prefilter.{history_key, trusted, decide, routine_telemetry, prefilter}
use arbiter_ai.Prefilter.Exact.{score_of, broad_of, outcome, prefilter-outcome}

-- A signature that was always judged benign.
pub record IsBenign (h : SignatureHistory) : Type 0 where
  pub seen : 5 ≤ h.total
  pub no_missed_attack : h.overruled ≡ 0
  pub all_false_alarms : h.escalated ≡ h.false_alarms

module _ {F : Type 0} ⦃py : Runtime F⦄ where
  -- What the tables say when the prefilter suppresses an event that is not routine telemetry.
  pub record Warrant (e : Event F) (m : Memory F) : Type 0 where
    pub low : py.lt (score_of e m) (py.lit 3 1) ≡ true
    pub benign : IsBenign (counts (history_key e) m.verdicts)
    pub own_history : trusted e ≡ true
    pub broad : broad_of e m.verdicts ≡ 0

  decide-suppress :
      (e : Event F) (score : F) (h : SignatureHistory) (broad : ℕ) (criticality : F)
      → (decide e score h broad criticality).decision ≡ suppress
      → (routine_telemetry e ≡ true)
        ⊎ ((py.lt score (py.lit 3 1) ≡ true)
            × (5 ≤ h.total)
            × (h.overruled ≡ 0)
            × (h.escalated ≤ h.false_alarms)
            × (trusted e ≡ true)
            × (broad ≡ 0))
  unfolding decide
  decide-suppress e score h broad criticality s = ground arith

  -- a score below 3 is not one of 7 or more
  low-not-high : (s : F) → py.lt s (py.lit 3 1) ≡ true → py.le (py.lit 7 1) s ≡ false
  low-not-high s low = elim (Bool-cases (py.le (py.lit 7 1) s)) [
    | inr no_high ↦ no_high
    | inl high ↦
        let down = py.le_lt_trans (py.lit 7 1) s (py.lit 3 1) high low in
        let up = py.lit_lt 3 7 (omega arith) (omega arith) in
        cc (py.lt_trans (py.lit 3 1) (py.lit 7 1) (py.lit 3 1) up down, py.lt_irrefl (py.lit 3 1))
  ]

  decide-Warrant :
      (e : Event F) (score : F) (h : SignatureHistory) (broad : ℕ) (criticality : F)
      → py.lt score (py.lit 3 1) ≡ true
      → IsBenign h
      → trusted e ≡ true
      → broad ≡ 0
      → (decide e score h broad criticality).decision ≡ suppress
  unfolding decide
  decide-Warrant e score h broad criticality low b t z = ground (arith, low-not-high score low)

  decide-routine :
      (e : Event F) (score : F) (h : SignatureHistory) (broad : ℕ) (criticality : F)
      → routine_telemetry e ≡ true
      → (decide e score h broad criticality).decision ≡ suppress
  unfolding decide
  decide-routine e score h broad criticality r = ground arith

  outcome-Warrant :
      (e : Event F) (m : Memory F)
      → (outcome e m).decision ≡ suppress
      → (routine_telemetry e ≡ true) ⊎ Warrant e m
  unfolding outcome
  outcome-Warrant e m s = elim (decide-suppress e _ _ _ _ s) [
    | inl routine ↦ inl routine
    | inr (low, seen, missed, alarms, own, broad) ↦
        let split = counts-Splits (history_key e) m.verdicts in
        inr (record {
          low = low;
          benign = record {
            seen = seen;
            no_missed_attack = missed;
            all_false_alarms = omega (arith, split.benign);
          };
          own_history = own;
          broad = broad;
        })
  ]

  Warrant-outcome :
      (e : Event F) (m : Memory F)
      → (routine_telemetry e ≡ true) ⊎ Warrant e m
      → (outcome e m).decision ≡ suppress
  unfolding outcome
  Warrant-outcome e m (inl routine) = decide-routine e _ _ _ _ routine
  Warrant-outcome e m (inr w) = decide-Warrant e _ _ _ _ w.low w.benign w.own_history w.broad

  -- On a coherent memory the prefilter suppresses an event exactly in two cases: the event is
  -- routine telemetry, or its score is below 3, its history counts, it was seen at least five times
  -- with no overruled suppression and no escalation that still stands, and, where the event has a
  -- context of its own, its whole signature has no overruled suppression either.
  pub suppress_iff-Warrant :
      (e : Event F) (m : Memory F)
      → IsCoherent m
      → ((prefilter e m).0.decision ≡ suppress) ↔ ((routine_telemetry e ≡ true) ⊎ Warrant e m)
  suppress_iff-Warrant e m c =
      rw (prefilter-outcome e m c).0 (outcome-Warrant e m, Warrant-outcome e m)

  -- Once a suppression of the event's history is overruled, the prefilter never suppresses the event
  -- again on that history: only the routine-telemetry rule still can.
  pub overruled-never_suppressed :
      (e : Event F) (m : Memory F)
      → IsCoherent m
      → 0 < (counts (history_key e) m.verdicts).suppressed
      → routine_telemetry e ≡ false
      → (prefilter e (label_verdicts (history_key e) "overruled" m)).0.decision ≢ suppress
  unfolding label_verdicts
  overruled-never_suppressed e m c missed busy s =
      elim ((suppress_iff-Warrant e m'
          (label_verdicts-IsCoherent (history_key e) "overruled" m c)).0
        s) [
          | inl routine ↦ cc (routine, busy)
          | inr w ↦
              let after = labelled-after (history_key e) "overruled" m.verdicts in
              let quiet = overruled_rows w in omega (arith, after.3, quiet)
        ]
    where
      m' : Memory F
      m' = label_verdicts (history_key e) "overruled" m

      overruled_rows :
          Warrant e m'
          → (counts (history_key e) (labelled (history_key e) "overruled" m.verdicts)).overruled ≡ 0
      overruled_rows w = w.benign.no_missed_attack
