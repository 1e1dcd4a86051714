-- ===== src/Analyst/Support.antt =====
-- What an assessment that names a rule rests on.
use arbiter_ai.Base.{
  ap, sym, not, false, Option, ℕ, zero, suc, ◌≤◌, String, ◌≡◌, refl, Bool, true, ◌&&◌, none, some,
  List, [], ◌∷◌, ◌==◌, map, take, length, All, All-intro, All-map_intro, Among, keep-elim,
  find_first, Bool-cases, Option-cases, inl, inr, ◌⊎◌, arith, eq_iff, leb, &&-left, &&-right,
}
use arbiter_ai.Base.Text.{same_text}
use arbiter_ai.Telemetry.Evidence.{artifact}
use arbiter_ai.Analyst.{
  Fact, Packet, Assessment, unsupported, account, same_account, login_failures, malware_facts,
  has_malware, assess_current, assess,
}

negated-true : (b : Bool) → not b ≡ true → b ≡ false
negated-true b h = ground (arith, h)

take-All : (P : Fact → Type 0) (n : ℕ) (fs : List Fact) → All P fs → All P (take n fs)
take-All P zero fs h = tt
take-All P (suc n) [] h = tt
take-All P (suc n) (f ∷ fs) h = (h.0, take-All P n fs h.1)

find_first-elim :
    (p : Fact → Bool) (fs : List Fact) (f : Fact)
    → find_first p fs ≡ some f
    → Among f fs × (p f ≡ true)
find_first-elim p [] f h = absurd (ground (arith, h))
find_first-elim p (g ∷ fs) f h = elim (Bool-cases (p g)) [
  | inl hit ↦
      let same : g ≡ f = ground (arith, rw hit at h) in (rw same (inl refl), rw (← same) hit)
  | inr miss ↦ let (found, passes) = find_first-elim p fs f (rw miss at h) in (inr found, passes)
]

-- the same account, under a name that either login has
pub same_account-elim :
    (a b : Option String)
    → same_account a b ≡ true
    → (name : String) × (a ≡ some name) × (b ≡ some name)
same_account-elim (some s) (some t) h = (s, refl, ap some (sym (same_text s t h)))
same_account-elim none b h = absurd (ground (arith, h))
same_account-elim (some s) none h = absurd (ground (arith, h))

module _ (windows_path : String → String) (target : String) (packet : Packet) where
  -- a fact of the event under review
  abbrev pub IsReviewed : Fact → Type 0
  IsReviewed c = Among c packet.facts × (c.event_id ≡ packet.current_event)

  -- a failed login from the target, of the account of the event under review
  abbrev pub IsFailure : Fact → Type 0
  IsFailure f =
      (f.event_type ≡ "auth_failure")
      × (f.src_ip ≡ target)
      × (c : Fact) × IsReviewed c
      × (name : String) × (account f ≡ some name)
      × (account c ≡ some name)

  -- the event under review, as a connection to the target that Sysmon saw
  abbrev pub IsConnection : Fact → Type 0
  IsConnection f =
      IsReviewed f
      × (f.event_type ≡ "network_connection")
      × (f.dst_ip ≡ target)
      × (f.origin ≡ "sysmon")

  -- a detection of malware by Defender, in the very executable that made such a connection
  abbrev pub IsDetection : Fact → Type 0
  IsDetection f =
      (f.event_type ≡ "malware_detection")
      × (f.origin ≡ "defender")
      × (c : Fact) × IsConnection c
      × ((artifact windows_path f.file_path == "") ≡ false)
      × (artifact windows_path f.file_path ≡ artifact windows_path c.process_name)

  -- a fact of the packet that speaks for a block of the target
  pub record IsBacking (f : Fact) : Type 0 where
    pub present : Among f packet.facts
    pub speaks : IsFailure f ⊎ (IsConnection f ⊎ IsDetection f)

  abbrev pub Backed : String → Type 0
  Backed id = (f : Fact) × (f.id ≡ id) × IsBacking f

  -- An assessment names no rule and requires nothing, or it names a rule, and every fact that it
  -- requires is of the packet and speaks for the block.
  pub record IsSupported (a : Assessment) : Type 0 where
    pub required : All Backed a.required_facts
    pub named :
        ((a.rule ≡ none) × (a.required_facts ≡ []))
        ⊎ ((rule : String) × (a.rule ≡ some rule) × (2 ≤ length a.required_facts))

  unsupported-IsSupported : IsSupported unsupported
  unsupported-IsSupported = record { required = tt; named = inl (refl, refl) }

  failures-All :
      (current : Fact)
      → IsReviewed current
      → All IsBacking (login_failures current target packet.facts)
  unfolding login_failures
  failures-All current reviewed = All-intro IsBacking _ (λ f. λ found.
      let (present, facts_of) = keep-elim _ packet.facts f found in
      let from_account = &&-right (f.event_type == "auth_failure") _ facts_of in
      let (name, his, own) = same_account-elim _ _ (&&-left _ _ from_account) in
      let from_target = &&-right (same_account (account f) (account current)) _ from_account in
      record {
        present = present;
        speaks = inl (
          same_text f.event_type "auth_failure" (&&-left _ _ facts_of),
          same_text f.src_ip target (&&-left _ _ from_target),
          current,
          reviewed,
          name,
          his,
          own,
        );
      })

  malware-All :
      (current : Fact)
      → IsConnection current
      → All IsBacking (malware_facts windows_path current packet.facts)
  unfolding malware_facts
  malware-All current connects = All-intro IsBacking _ (λ f. λ found.
      let (present, facts_of) = keep-elim _ packet.facts f found in
      let file = artifact windows_path f.file_path in
      let image = artifact windows_path current.process_name in
      let detected = &&-right (f.origin == "defender") _ facts_of in
      let located = &&-right (f.event_type == "malware_detection") _ detected in
      record {
        present = present;
        speaks = inr (
            inr (
              same_text f.event_type "malware_detection" (&&-left _ _ detected),
              same_text f.origin "defender" (&&-left _ _ facts_of),
              current,
              connects,
              negated-true (file == "") (&&-left _ _ located),
              same_text file image (&&-right (not (file == "")) _ located),
            ));
      })

  has_malware-IsSupported :
      (current : Fact) (found : List Fact)
      → IsBacking current
      → All IsBacking found
      → IsSupported (has_malware current found)
  has_malware-IsSupported current [] b h = unsupported-IsSupported
  has_malware-IsSupported current (f ∷ rest) b h = record {
    required = ((current, refl, b), ((f, refl, h.0), tt));
    named = inr ("malware_process_network", refl, omega arith);
  }

  length-take_five :
      (fs : List Fact)
      → leb 5 (length fs) ≡ true
      → 2 ≤ length (map (λ (f : Fact). f.id) (take 5 fs))
  length-take_five [] h = absurd (ground (arith, h))
  length-take_five (a ∷ []) h = absurd (ground (arith, h))
  length-take_five (a ∷ b ∷ rest) h = omega arith

  current-IsSupported :
      (current : Fact)
      → IsReviewed current
      → IsSupported (assess_current windows_path target current packet.facts)
  unfolding assess_current
  current-IsSupported current reviewed =
      elim (Bool-cases (
        current.event_type == "auth_failure"
        && leb 5 (length (login_failures current target packet.facts)))) [
          | inl login ↦ rw login (record {
            required =
                All-map_intro Backed (λ (f : Fact). f.id) (λ f. λ b. (f, refl, b))
                  (take 5 (login_failures current target packet.facts))
                  (take-All IsBacking 5 _ (failures-All current reviewed));
            named = inr (
              "repeated_login_failures",
              refl,
              length-take_five (login_failures current target packet.facts) (ground (arith, login)),
            );
          })
          | inr other ↦
              elim (Bool-cases (
                current.event_type == "network_connection"
                && (current.origin == "sysmon" && current.dst_ip == target))) [
                  | inr none_left ↦ rw (other, none_left) unsupported-IsSupported
                  | inl connects ↦
                      let reaches : IsConnection current = (
                        reviewed,
                        ground (arith, connects, eq_iff current.event_type "network_connection"),
                        ground (arith, connects, eq_iff current.dst_ip target),
                        ground (arith, connects, eq_iff current.origin "sysmon"),
                      ) in
                      rw (other, connects)
                        (has_malware-IsSupported current
                          (malware_facts windows_path current packet.facts)
                          (record { present = reviewed.0; speaks = inr (inl reaches) })
                          (malware-All current reaches))
                ]
        ]

-- The assessment of a packet names no rule and requires nothing, or it names a rule and requires at least
-- two facts, each of them in the packet and one of these: a failed login from the proposed target, of
-- the account of the event under review; that event, as a connection to the target that Sysmon saw; or a
-- detection by Defender of malware in the executable that made this connection.
pub assess-IsSupported :
    (windows_path : String → String) (is_local : String → Bool) (packet : Packet) (target : String)
    → IsSupported windows_path target packet (assess windows_path is_local packet (some target))
unfolding assess
assess-IsSupported windows_path is_local packet target =
    elim (Option-cases
      (find_first (λ (f : Fact). f.event_id == packet.current_event) packet.facts)) [
        | inl missing ↦ rw (missing, assess) (unsupported-IsSupported windows_path target packet)
        | inr (current, found) ↦
            let (present, named) = find_first-elim _ packet.facts current found in
            let reviewed : IsReviewed windows_path target packet current =
              (present, same_text current.event_id packet.current_event named) in
            elim (Bool-cases (is_local packet.host)) [
              | inl here ↦
                  rw (found, assess, here)
                    (current-IsSupported windows_path target packet current reviewed)
              | inr away ↦
                  rw (found, assess, away) (unsupported-IsSupported windows_path target packet)
            ]
      ]
