-- ===== src/Analyst/Bounds.antt =====
-- What an accepted policy keeps to.
use arbiter_ai.Base.{
  ℕ, ◌≤◌, String, ◌≡◌, true, false, ◌&&◌, some, List, [], ◌∷◌, ◌==◌, all, leb, leb→le, member,
  require-elim, bind-elim, some_inj, Bool-cases, inl, inr, arith, &&-left, &&-right,
}
use arbiter_ai.Values.{
  Value, null, bool, int, float, str, arr, obj, pos, negsuc, Items, nil, cons, Entries, end, entry,
}
use arbiter_ai.Telemetry.Evidence.{get_or}
use arbiter_ai.Workflow.{timed_rules}
use arbiter_ai.Analyst.Policy.{
  Policy, Windows, default_windows, flag_of, is_ordered, known_keys, policy_from, response_policy,
  rule_list, rules_of, set_value, set_window, set_windows, windows_of,
}

-- What a policy keeps to: deadlines that grow as the severity falls and are no later than the default
-- ones, and rules that may be timed.
pub record IsBounded (p : Policy) : Type 0 where
  pub first : p.windows.critical_window ≤ p.windows.high_window
  pub second : p.windows.high_window ≤ p.windows.medium_window
  pub critical_bound : p.windows.critical_window ≤ 60
  pub high_bound : p.windows.high_window ≤ 300
  pub medium_bound : p.windows.medium_window ≤ 1800
  pub timed : all (λ r. member r timed_rules) p.rules ≡ true

abbrev Early : Windows → Type 0
Early w = (w.critical_window ≤ 60) × (w.high_window ≤ 300) × (w.medium_window ≤ 1800)

set_window-Early :
    (level : String) (n : ℕ) (w after : Windows)
    → set_window level n w ≡ some after
    → Early w
    → Early after
unfolding set_window
set_window-Early level n w after e h = elim (Bool-cases (level == "critical" && leb n 60)) [
  | inl c ↦
      let same = some_inj (record w { critical_window = n }) after (rw c at e) in
      rw (← same) (leb→le n 60 (&&-right _ _ c), h.1, h.2)
  | inr not_c ↦ elim (Bool-cases (level == "high" && leb n 300)) [
    | inl g ↦
        let same = some_inj (record w { high_window = n }) after (rw (not_c, g) at e) in
        rw (← same) (h.0, leb→le n 300 (&&-right _ _ g), h.2)
    | inr not_g ↦ elim (Bool-cases (level == "medium" && leb n 1800)) [
      | inl m ↦
          let same = some_inj (record w { medium_window = n }) after (rw (not_c, not_g, m) at e) in
          rw (← same) (h.0, h.1, leb→le n 1800 (&&-right _ _ m))
      | inr not_m ↦ absurd (ground (arith, rw (not_c, not_g, not_m) at e))
    ]
  ]
]

module _ {F : Type 0} where
  set_value-Early :
      (level : String) (v : Value F) (w after : Windows)
      → set_value level v w ≡ some after
      → Early w
      → Early after
  set_value-Early level (int (pos n)) w after e h = set_window-Early level n w after e h
  set_value-Early level (int (negsuc n)) w after e h = absurd (ground (arith, e))
  set_value-Early level null w after e h = absurd (ground (arith, e))
  set_value-Early level (bool b) w after e h = absurd (ground (arith, e))
  set_value-Early level (float x) w after e h = absurd (ground (arith, e))
  set_value-Early level (str s) w after e h = absurd (ground (arith, e))
  set_value-Early level (arr vs) w after e h = absurd (ground (arith, e))
  set_value-Early level (obj d) w after e h = absurd (ground (arith, e))

  set_windows-Early :
      (d : Entries F) (w after : Windows) → set_windows d w ≡ some after → Early w → Early after
  unfolding set_windows
  set_windows-Early end w after e h = let same = some_inj w after e in rw (← same) h
  set_windows-Early (entry level v rest) w after e h =
      let (next, changed, later) = bind-elim (set_value level v w) _ after e in
      set_windows-Early rest next after later (set_value-Early level v w next changed h)

  windows_of-Early : (v : Value F) (w : Windows) → windows_of v ≡ some w → Early w
  windows_of-Early (obj d) w e = set_windows-Early d default_windows w e (omega arith)
  windows_of-Early null w e = absurd (ground (arith, e))
  windows_of-Early (bool b) w e = absurd (ground (arith, e))
  windows_of-Early (int n) w e = absurd (ground (arith, e))
  windows_of-Early (float x) w e = absurd (ground (arith, e))
  windows_of-Early (str s) w e = absurd (ground (arith, e))
  windows_of-Early (arr vs) w e = absurd (ground (arith, e))

  rule_list-timed :
      (vs : Items F) (rules : List String)
      → rule_list vs ≡ some rules
      → all (λ r. member r timed_rules) rules ≡ true
  unfolding rule_list
  rule_list-timed nil rules e = let same = some_inj [] rules e in rw (← same)
  rule_list-timed (cons (str s) rest) rules e =
      let (known, h) = require-elim (member s timed_rules) _ rules e in
      let (others, read, made) = bind-elim (rule_list rest) _ rules h in
      let same = some_inj (s ∷ others) rules made in
      rw (← same) (ground (arith, known, rule_list-timed rest others read))
  rule_list-timed (cons null rest) rules e = absurd (ground (arith, e))
  rule_list-timed (cons (bool b) rest) rules e = absurd (ground (arith, e))
  rule_list-timed (cons (int n) rest) rules e = absurd (ground (arith, e))
  rule_list-timed (cons (float x) rest) rules e = absurd (ground (arith, e))
  rule_list-timed (cons (arr vs) rest) rules e = absurd (ground (arith, e))
  rule_list-timed (cons (obj d) rest) rules e = absurd (ground (arith, e))

  rules_of-timed :
      (v : Value F) (rules : List String)
      → rules_of v ≡ some rules
      → all (λ r. member r timed_rules) rules ≡ true
  rules_of-timed (arr vs) rules e = rule_list-timed vs rules e
  rules_of-timed (obj d) rules e = absurd (ground (arith, e))
  rules_of-timed null rules e = absurd (ground (arith, e))
  rules_of-timed (bool b) rules e = absurd (ground (arith, e))
  rules_of-timed (int n) rules e = absurd (ground (arith, e))
  rules_of-timed (float x) rules e = absurd (ground (arith, e))
  rules_of-timed (str s) rules e = absurd (ground (arith, e))

  policy_from-IsBounded : (d : Entries F) (p : Policy) → policy_from d ≡ some p → IsBounded p
  unfolding policy_from
  policy_from-IsBounded d p e =
      let (_, e1) = require-elim (known_keys d) _ p e in
      let (automatic, _, e2) = bind-elim (flag_of (get_or (bool false) "automatic" d)) _ p e1 in
      let (rules, ruled, e3) = bind-elim (rules_of (get_or (arr nil) "rules" d)) _ p e2 in
      let (windows, read, e4) = bind-elim (windows_of (get_or (obj end) "windows" d)) _ p e3 in
      let (ordered, e5) = require-elim (is_ordered windows) _ p e4 in
      let early = windows_of-Early _ windows read in
      let same =
        some_inj (record { automatic = automatic; rules = rules; windows = windows }) p e5 in
      rw (← same) (record {
        first = leb→le _ _ (&&-left _ _ ordered);
        second = leb→le _ _ (&&-right _ _ ordered);
        critical_bound = early.0;
        high_bound = early.1;
        medium_bound = early.2;
        timed = rules_of-timed _ rules ruled;
      })

  -- A policy that is accepted has deadlines that grow as the severity falls, at most 60, 300 and 1800
  -- seconds, and enrols only the two rules that may be timed.
  pub response_policy-IsBounded :
      (v : Value F) (p : Policy) → response_policy v ≡ some p → IsBounded p
  unfolding response_policy
  response_policy-IsBounded null p e = policy_from-IsBounded end p e
  response_policy-IsBounded (obj d) p e = policy_from-IsBounded d p e
  response_policy-IsBounded (bool b) p e = absurd (ground (arith, e))
  response_policy-IsBounded (int n) p e = absurd (ground (arith, e))
  response_policy-IsBounded (float x) p e = absurd (ground (arith, e))
  response_policy-IsBounded (str s) p e = absurd (ground (arith, e))
  response_policy-IsBounded (arr vs) p e = absurd (ground (arith, e))
