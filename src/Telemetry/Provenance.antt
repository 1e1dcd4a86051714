-- ===== src/Telemetry/Provenance.antt =====
-- Which marks the brain's form of an event can carry.
use arbiter_ai.Base.{
  ap, ◌∙◌, &&-right, String, ◌≡◌, refl, Bool, true, false, Option, none, some, List, [], ◌∷◌, ◌==◌,
  Bool-cases, Option-cases, inl, inr, arith, eq_iff, bind-elim, if◌then◌else◌, member,
}
use arbiter_ai.Values.{
  Value, obj, Entries, end, entry, Runtime, get, get_value, equals, is_true, entries_of,
}
use arbiter_ai.Schema.{Event}
use arbiter_ai.Guardrails.Access.{high_priority_tool_finding}
use arbiter_ai.Telemetry.{SecurityEvent}
use arbiter_ai.Telemetry.Evidence.{Builtins, reported_high, tool_finding, get_or}
use arbiter_ai.Telemetry.Legacy.{
  pop, put, to_event, cleaned, renamed, copied, put_finding, put_source, put_correlation,
  legacy_fields,
}

abbrev marks : List String
marks = "_telemetry" ∷ "_tool_finding" ∷ "_context_signature" ∷ "_collector_activity" ∷ []

module _ {F : Type 0} where
  abbrev map_option : (Entries F → Value F) → Option (Entries F) → Option (Value F)
  map_option f none = none
  map_option f (some d) = some (f d)

  abbrev source_mark : SecurityEvent F → Option (Value F)
  source_mark e =
      if equals (get_value "normalized_by" e.metadata) "legacy"
      then none
      else some (
          obj (
            entry "source" (Value.str e.source_type)
              (entry "category" (Value.str e.event_category) end)))

  abbrev or_else : Option (Value F) → Option (Value F) → Option (Value F)
  or_else none p = p
  or_else (some v) p = some v

  get_value-none : (k : String) (d : Entries F) → get k d ≡ none → get_value k d ≡ Value.null
  unfolding get_value
  get_value-none k d h = rw (h, get_value)

  get_value-some : (k : String) (d : Entries F) (v : Value F) → get k d ≡ some v → get_value k d ≡ v
  unfolding get_value
  get_value-some k d v h = rw (h, get_value)

  get-put :
      (k key : String) (v : Value F) (d : Entries F)
      → get k (put key v d) ≡ (if key == k then some v else get k d)
  unfolding get put
  get-put k key v end = refl
  get-put k key v (entry l w d) =
      ground (arith, get-put k key v d, eq_iff l key, eq_iff l k, eq_iff key k)

  get-pop :
      (k key : String) (d : Entries F) → get k (pop key d) ≡ (if key == k then none else get k d)
  unfolding get pop
  get-pop k key end = ground arith
  get-pop k key (entry l w d) =
      ground (arith, get-pop k key d, eq_iff l key, eq_iff l k, eq_iff key k)

  get-cleaned : (k : String) (d : Entries F) → member k marks ≡ true → get k (cleaned d) ≡ none
  unfolding cleaned
  get-cleaned k d h = ground (
    arith,
    get-pop k "_collector_activity"
        (pop "_context_signature" (pop "_tool_finding" (pop "_telemetry" d))),
    get-pop k "_context_signature" (pop "_tool_finding" (pop "_telemetry" d)),
    get-pop k "_tool_finding" (pop "_telemetry" d),
    get-pop k "_telemetry" d,
    h,
    eq_iff k "_telemetry",
    eq_iff "_telemetry" k,
    eq_iff k "_tool_finding",
    eq_iff "_tool_finding" k,
    eq_iff k "_context_signature",
    eq_iff "_context_signature" k,
    eq_iff k "_collector_activity",
    eq_iff "_collector_activity" k,
  )

  -- what a field of the brain's form is, above the payload's
  abbrev over : String → SecurityEvent F → Option (Entries F) → Option (Value F) → Option (Value F)
  over k e finding payload =
      let below : Option (Value F) =
        if "_tool_finding" == k then or_else (map_option obj finding) payload else payload in
      if "_telemetry" == k then or_else (source_mark e) below else below

  get-put_source :
      (k : String) (e : SecurityEvent F) (d : Entries F)
      → get k (put_source e d)
        ≡ (if "_telemetry" == k then or_else (source_mark e) (get k d) else get k d)
  get-put_source k e d =
      elim (Bool-cases (equals (get_value "normalized_by" e.metadata) "legacy")) [
        | inl old ↦ rw old (ground arith)
        | inr new ↦ rw new (get-put k "_telemetry" _ d)
      ]

  get-put_finding :
      (k : String) (finding : Option (Entries F)) (d : Entries F)
      → get k (put_finding finding d)
        ≡ (if "_tool_finding" == k then or_else (map_option obj finding) (get k d) else get k d)
  get-put_finding k none d = ground arith
  get-put_finding k (some f) d = get-put k "_tool_finding" (obj f) d

module _ {F : Type 0} ⦃py : Runtime F⦄ where
  get-legacy_fields :
      (k : String) (e : SecurityEvent F) (finding : Option (Entries F)) (d : Entries F)
      → ("correlation" == k) ≡ false
      → get k (legacy_fields e finding d) ≡ over k e finding (get k d)
  get-legacy_fields k e finding d other =
      let below = put_finding finding d in
      let inner = put_source e below in
      let top : get k (put_correlation e inner) ≡ get k inner =
        ground (arith, other, get-put k "correlation" (get_value "correlation" e.metadata) inner) in
      rw (top, get-put_source k e below, get-put_finding k finding d)

module _ {F : Type 0} ⦃py : Runtime F⦄ (builtins : Builtins F) where
  -- the marks in the brain's form of an event
  pub record IsMarked (e : SecurityEvent F) (legacy : Event F) : Type 0 where
    pub finding : Option (Entries F)
    pub derived : tool_finding builtins e ≡ some finding
    pub tool : get "_tool_finding" legacy.fields ≡ map_option obj finding
    pub activity : get "_collector_activity" legacy.fields ≡ none
    pub context : get "_context_signature" legacy.fields ≡ none
    pub source : get "_telemetry" legacy.fields ≡ source_mark e

  -- Whatever a payload brings, the brain's form of an event has the tool finding that the adapter's own
  -- fields give, or none where they give none; it has no collector activity and no context, and its
  -- provenance is that of the event, or none for an event of the legacy normalizer.
  to_event-IsMarked :
      (e : SecurityEvent F) (legacy : Event F)
      → to_event builtins e ≡ some legacy
      → IsMarked e legacy
  unfolding to_event
  to_event-IsMarked e legacy h =
      let (base, based, h1) =
        bind-elim (builtins.to_dict (get_or (obj end) "legacy_fields" e.metadata)) _ _ h in
      let (finding, found, h2) = bind-elim (tool_finding builtins e) _ _ h1 in
      let d = cleaned (renamed e (copied e base)) in
      let same : legacy_fields e finding d ≡ legacy.fields = ground (arith, h2) in
      let clear = λ (k : String).
        λ (m : member k marks ≡ true). get-cleaned k (renamed e (copied e base)) m in
      record {
        finding = finding;
        derived = found;
        tool =
            rw
              (
                ← same,
                get-legacy_fields "_tool_finding" e finding d refl,
                clear "_tool_finding" refl,
              )
              (ground arith);
        activity =
            rw
              (
                ← same,
                get-legacy_fields "_collector_activity" e finding d refl,
                clear "_collector_activity" refl,
              )
              (ground arith);
        context =
            rw
              (
                ← same,
                get-legacy_fields "_context_signature" e finding d refl,
                clear "_context_signature" refl,
              )
              (ground arith);
        source =
            rw (← same, get-legacy_fields "_telemetry" e finding d refl, clear "_telemetry" refl)
              (ground arith);
      }

  -- A finding of the adapter's own fields says whether it was reported as high.
  finding-high :
      (e : SecurityEvent F) (f : Entries F)
      → tool_finding builtins e ≡ some (some f)
      → (equals (get_value "normalized_by" e.metadata) e.source_type ≡ true)
        × ((h : Bool) × (reported_high builtins e ≡ some (some h))
            × (get_value "high_priority" f ≡ Value.bool h))
  unfolding tool_finding get_value get
  finding-high e f h =
      elim (Bool-cases (equals (get_value "normalized_by" e.metadata) e.source_type)) [
        | inr foreign ↦ absurd (ground (arith, rw foreign at h))
        | inl own ↦
            let (high, reported, rest) = bind-elim (reported_high builtins e) _ _ (rw own at h) in
            elim (Option-cases high) [
              | inl silent ↦ absurd (ground (arith, rw silent at rest))
              | inr (b, said) ↦ (own, (b, rw (reported, said), ground (arith, rw said at rest)))
            ]
      ]

  rail-high :
      (legacy : Event F)
      → high_priority_tool_finding legacy ≡ true
      → is_true (get_value "high_priority" (entries_of (get_value "_tool_finding" legacy.fields)))
        ≡ true
  unfolding high_priority_tool_finding
  rail-high legacy fires = &&-right _ _ fires

  -- The guardrail for tools fires on the brain's form of an event only if the event was normalized by
  -- the adapter of its own source, and that adapter's fields report a high priority: a payload cannot
  -- raise it.
  pub tool_rail-Derived :
      (e : SecurityEvent F) (legacy : Event F)
      → to_event builtins e ≡ some legacy
      → high_priority_tool_finding legacy ≡ true
      → (equals (get_value "normalized_by" e.metadata) e.source_type ≡ true)
        × (reported_high builtins e ≡ some (some true))
  unfolding get_value get
  tool_rail-Derived e legacy h fires =
      let m = to_event-IsMarked e legacy h in
      let marked = rail-high legacy fires in
      elim (Option-cases m.finding) [
        | inl none_found ↦ absurd (
            cc (
              rw
                (get_value-none "_tool_finding" legacy.fields
                  (m.tool ∙ ap (map_option obj) none_found))
                at marked))
        | inr (f, found) ↦
            let (own, (b, reported, high)) = finding-high e f (m.derived ∙ ap some found) in
            let told : b ≡ true = ground (
              arith,
              rw
                  (
                    get_value-some "_tool_finding" legacy.fields (obj f)
                        (m.tool ∙ ap (map_option obj) found),
                    high,
                  )
                  at marked,
            ) in
            (own, reported ∙ ap (λ (t : Bool). some (some t)) told)
      ]
