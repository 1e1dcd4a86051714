-- ===== src/Analyst/Gathering.antt =====
-- What every packet of facts keeps to.
use arbiter_ai.Base.{
  ◌≤◌, ◌+◌, String, ◌≡◌, refl, ap, Bool, true, false, some, List, [], ◌∷◌, ◌++◌, ◌==◌,
  if◌then◌else◌, any, length, length-append, member, All, All-append, All-map, Bool-cases,
  Option-cases, inl, inr, arith, eq_iff, eq_refl, some_inj, bind-elim,
}
use arbiter_ai.Base.Text.{same_text}
use arbiter_ai.Values.{Runtime}
use arbiter_ai.Protection.{Finding}
use arbiter_ai.Analyst.{
  Fact, Packet, Reader, Observed, local_sources, fact_of, is_within, fits, added, is_skipped,
  observe, observe_all, dossier,
}

-- no two facts are of one event
abbrev pub Unrepeated : List Fact → Type 0
Unrepeated [] = Unit
Unrepeated (f ∷ fs) = (any (λ g. g.event_id == f.event_id) fs ≡ false) × Unrepeated fs

-- the facts of a host's own collectors
abbrev pub IsOwn : String → Fact → Type 0
IsOwn host f = (f.hostname ≡ host) × (member f.origin local_sources ≡ true)

-- what the loop keeps to
record IsObserved (host : String) (g : Observed) : Type 0 where
  few : length g.facts ≤ 64
  own : All (IsOwn host) g.facts
  noted : All (λ f. member f.event_id g.seen ≡ true) g.facts
  apart : Unrepeated g.facts

any-append_none :
    (p : Fact → Bool) (fs : List Fact) (f : Fact)
    → any p fs ≡ false
    → p f ≡ false
    → any p (fs ++ (f ∷ [])) ≡ false
any-append_none p [] f h k = ground (arith, k)
any-append_none p (g ∷ fs) f h k = ground (arith, h, any-append_none p fs f (ground (arith, h)) k)

Unrepeated-append :
    (seen : List String) (fs : List Fact) (f : Fact)
    → Unrepeated fs
    → All (λ g. member g.event_id seen ≡ true) fs
    → member f.event_id seen ≡ false
    → Unrepeated (fs ++ (f ∷ []))
Unrepeated-append seen [] f u noted fresh = (refl, tt)
Unrepeated-append seen (g ∷ fs) f u noted fresh = elim (Bool-cases (f.event_id == g.event_id)) [
  | inl same ↦ absurd (
      ground (
        arith,
        ap (λ (i : String). member i seen) (same_text f.event_id g.event_id same),
        noted.0,
        fresh,
      ))
  | inr other ↦ (
    any-append_none (λ x. x.event_id == g.event_id) fs f u.0 other,
    Unrepeated-append seen fs f u.1 noted.1 fresh,
  )
]

module _ {F : Type 0} ⦃py : Runtime F⦄ (reader : Reader F) (host : String) where
  added-IsObserved :
      (item : Finding F) (g : Observed)
      → is_skipped host item g ≡ false
      → IsObserved host g
      → IsObserved host (added reader item g)
  added-IsObserved item g fresh h =
      let f = fact_of item (length g.facts + 1) in
      let seen : All (λ x. member x.event_id (item.event.event_id ∷ g.seen) ≡ true) g.facts =
        All-map (λ x. λ n. ground (arith, n)) g.facts h.noted in
      elim (Bool-cases (fits reader f g.facts)) [
        | inr large ↦ rw large (record { few = h.few; own = h.own; noted = seen; apart = h.apart })
        | inl small ↦ rw small (record {
          few = ground (arith, fresh, length-append g.facts (f ∷ []));
          own =
              All-append (IsOwn host) g.facts (f ∷ []) h.own (
                (ground (arith, fresh, eq_iff item.event.hostname host), ground (arith, fresh)),
                tt,
              );
          noted =
              All-append _ g.facts (f ∷ []) seen (ground (arith, eq_refl item.event.event_id), tt);
          apart = Unrepeated-append g.seen g.facts f h.apart h.noted (ground (arith, fresh));
        })
      ]

  either-IsObserved :
      (b : Bool) (g k : Observed)
      → IsObserved host g
      → IsObserved host k
      → IsObserved host (if b then g else k)
  either-IsObserved true g k h j = h
  either-IsObserved false g k h j = j

  observe-IsObserved :
      (item : Finding F) (g after : Observed)
      → observe reader host item g ≡ some after
      → IsObserved host g
      → IsObserved host after
  unfolding observe
  observe-IsObserved item g after e h = elim (Bool-cases (is_skipped host item g)) [
    | inl skipped ↦ let same = some_inj g after (rw skipped at e) in rw (← same) h
    | inr fresh ↦ elim (Option-cases (reader.age item.event.timestamp)) [
      | inl unreadable ↦ absurd (ground (arith, rw (fresh, unreadable, observe) at e))
      | inr (age, read) ↦
          let same =
            some_inj (if is_within reader age then added reader item g else g) after
              (rw (fresh, read, observe) at e) in
          rw (← same)
            (either-IsObserved (is_within reader age) _ g (added-IsObserved item g fresh h) h)
    ]
  ]

  observe_all-IsObserved :
      (items : List (Finding F)) (g after : Observed)
      → observe_all reader host items g ≡ some after
      → IsObserved host g
      → IsObserved host after
  unfolding observe_all
  observe_all-IsObserved [] g after e h = let same = some_inj g after e in rw (← same) h
  observe_all-IsObserved (item ∷ rest) g after e h =
      let (next, seen, later) = bind-elim (observe reader host item g) _ after e in
      observe_all-IsObserved rest next after later (observe-IsObserved item g next seen h)

-- a packet of few facts, each of another event, of the host's own collectors
pub record IsSound (p : Packet) : Type 0 where
  pub few : length p.facts ≤ 64
  pub own : All (IsOwn p.host) p.facts
  pub apart : Unrepeated p.facts

module _ {F : Type 0} ⦃py : Runtime F⦄ (reader : Reader F) where
  -- A packet has at most 64 facts, no two of one event, and each is of the host of the reviewed event and
  -- from a collector that runs on it.
  pub dossier-IsSound :
      (row : Finding F) (related : List (Finding F)) (p : Packet)
      → dossier reader row related ≡ some p
      → IsSound p
  unfolding dossier
  dossier-IsSound row related p e =
      let start : Observed = record { facts = []; seen = [] } in
      let (g, gathered, made) =
        bind-elim (observe_all reader row.event.hostname (row ∷ related) start) _ p e in
      let h =
        observe_all-IsObserved reader row.event.hostname (row ∷ related) start g gathered
          (record { few = omega arith; own = tt; noted = tt; apart = tt }) in
      let same =
        some_inj
          (record {
            host = row.event.hostname;
            current_event = row.event.event_id;
            facts = g.facts;
          })
          p made in
      rw (← same) (record { few = h.few; own = h.own; apart = h.apart })
