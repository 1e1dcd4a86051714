-- ===== src/Telemetry/Contract.antt =====
-- What the constructor of a SecurityEvent promises.

use arbiter_ai.Base.{
  ℕ, ◌≤◌, String, ◌≡◌, ◌≢◌, true, none, some, [], ◌∷◌, ◌==◌, ◌||◌, leb, length, Bool-cases,
  Option-cases, inl, inr, ◌⊎◌, arith, eq_iff, require-elim, bind-elim, &&-left, &&-right, some_inj,
  leb→le, if◌then◌else◌, member,
}
use arbiter_ai.Base.Decimal.{decimal, numeral}
use arbiter_ai.Values.{Value, null, bool, int, float, str, arr, obj, pos, negsuc, Runtime}
use arbiter_ai.Telemetry.{
  SecurityEvent, Platform, checked, checked_address, checked_port, built, max_port, max_event_bytes,
}

module _ {F : Type 0} where
  -- None, or a number from 0 to 65535
  abbrev pub IsPort : Value F → Type 0
  IsPort null = Unit
  IsPort (int (pos n)) = n ≤ max_port
  IsPort _ = ⊥

  in_ports-IsPort :
      (n : ℕ) (v : Value F)
      → (if leb n max_port then some (int (pos n)) else none) ≡ some v
      → IsPort v
  in_ports-IsPort n v h = elim (Bool-cases (leb n max_port)) [
    | inl fits ↦
        let same : int (pos n) ≡ v = ground (arith, rw fits at h) in
        rw (← same) (leb→le n max_port fits)
    | inr large ↦ absurd (ground (arith, rw large at h))
  ]

  checked_port-IsPort : (w v : Value F) → checked_port w ≡ some v → IsPort v
  unfolding checked_port
  checked_port-IsPort null v h = let same : null ≡ v = ground (arith, h) in rw (← same) tt
  checked_port-IsPort (int (pos n)) v h = in_ports-IsPort n v h
  checked_port-IsPort (str s) v h = elim (Bool-cases (s == "" || s == "-")) [
    | inl blank ↦ let same : null ≡ v = ground (arith, rw blank at h) in rw (← same) tt
    | inr given ↦ elim (Option-cases (numeral s)) [
      | inl foreign ↦ absurd (ground (arith, given, foreign, h))
      | inr (n, spelt) ↦ elim (Bool-cases (decimal n == s)) [
        | inl plain ↦ in_ports-IsPort n v (rw (given, spelt, plain) at h)
        | inr odd ↦ absurd (ground (arith, given, spelt, odd, h))
      ]
    ]
  ]
  checked_port-IsPort (int (negsuc n)) v h = absurd (ground (arith, h))
  checked_port-IsPort (bool b) v h = absurd (ground (arith, h))
  checked_port-IsPort (float x) v h = absurd (ground (arith, h))
  checked_port-IsPort (arr vs) v h = absurd (ground (arith, h))
  checked_port-IsPort (obj d) v h = absurd (ground (arith, h))

module _ {F : Type 0} ⦃py : Runtime F⦄ (platform : Platform F) where
  -- what an event keeps to once it is constructed
  pub record IsChecked (e : SecurityEvent F) : Type 0 where
    pub version : e.schema_version ≡ "1.0"
    pub named : (e.source_type ≢ "") × (e.hostname ≢ "") × (e.event_type ≢ "")
    pub few_tags : length e.tags ≤ 100
    pub severity_low : py.le (py.lit 0 1) e.severity ≡ true
    pub severity_high : py.le e.severity (py.lit 10 1) ≡ true
    pub src_port : IsPort e.src_port
    pub dst_port : IsPort e.dst_port
    pub src_ip : (e.src_ip ≡ "") ⊎ ((given : String) × (platform.address given ≡ some e.src_ip))
    pub dst_ip : (e.dst_ip ≡ "") ⊎ ((given : String) × (platform.address given ≡ some e.dst_ip))
    pub size : platform.json_bytes e ≤ max_event_bytes

  address_form :
      (s t : String)
      → checked_address platform s ≡ some t
      → (t ≡ "") ⊎ ((given : String) × (platform.address given ≡ some t))
  unfolding checked_address
  address_form s t h = elim (Bool-cases (s == "" || member s ("-" ∷ "::" ∷ "unknown" ∷ []))) [
    | inl blank ↦ inl (ground (arith, rw blank at h))
    | inr given ↦ inr (s, rw given at h)
  ]

  -- An event that the constructor accepts has the known schema version, a source, a host and an event
  -- type, at most 100 tags, a severity from 0 to 10, ports that are missing or at most 65535, addresses
  -- that are empty or spelt by the parser of addresses, and at most 262144 bytes as JSON.
  pub checked-IsChecked :
      (e made : SecurityEvent F) → checked platform e ≡ some made → IsChecked made
  unfolding checked
  checked-IsChecked e made h =
      let (version, h1) = require-elim _ _ _ h in
      let (tags, h2) = require-elim _ _ _ h1 in
      let (short, h3) = require-elim _ _ _ h2 in
      let (named, h4) = require-elim _ _ _ h3 in
      let (time, timed, h5) = bind-elim (platform.timestamp e.timestamp) _ _ h4 in
      let (received, met, h6) = bind-elim (platform.reception e.received_at) _ _ h5 in
      let (severity, h7) = require-elim _ _ _ h6 in
      let (src, src_ok, h8) = bind-elim (checked_address platform e.src_ip) _ _ h7 in
      let (dst, dst_ok, h9) = bind-elim (checked_address platform e.dst_ip) _ _ h8 in
      let (sport, sport_ok, h10) = bind-elim (checked_port e.src_port) _ _ h9 in
      let (dport, dport_ok, h11) = bind-elim (checked_port e.dst_port) _ _ h10 in
      let (size, h12) = require-elim _ _ _ h11 in
      let same = some_inj (built platform e time received src dst sport dport) made h12 in
      rw (← same) (record {
        version = ground (arith, version, eq_iff e.schema_version "1.0");
        named = (
          ground (arith, named, eq_iff e.source_type ""),
          ground (arith, named, eq_iff e.hostname ""),
          ground (arith, named, eq_iff e.event_type ""),
        );
        few_tags = leb→le _ _ tags;
        severity_low = &&-left _ _ (&&-right _ _ severity);
        severity_high = &&-right _ _ (&&-right _ _ severity);
        src_port = checked_port-IsPort _ _ sport_ok;
        dst_port = checked_port-IsPort _ _ dport_ok;
        src_ip = address_form _ _ src_ok;
        dst_ip = address_form _ _ dst_ok;
        size = leb→le _ _ size;
      })
