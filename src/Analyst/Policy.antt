-- ===== src/Analyst/Policy.antt =====
-- arbiter/l2_workflow.py: the policy of the second-level review. `none` is a ValueError.
use arbiter_ai.Base.{
  ℕ, String, Bool, true, false, ◌&&◌, Option, none, some, List, [], ◌∷◌, ◌==◌, if◌then◌else◌, any,
  leb, member, ◌>>=◌, ◌>>◌, require,
}
use arbiter_ai.Values.{
  Value, null, bool, int, str, arr, obj, pos, Items, nil, cons, Entries, end, entry,
}
use arbiter_ai.Telemetry.Evidence.{get_or}
use arbiter_ai.Correlation.{Match}
use arbiter_ai.Protection.{Analysis}
use arbiter_ai.Workflow.{timed_rules, is_eligible}

-- The seconds of the three levels that have a deadline; a low case has none.
pub record Windows : Type 0 where
  pub critical_window : ℕ
  pub high_window : ℕ
  pub medium_window : ℕ

pub record Policy : Type 0 where
  pub automatic : Bool
  pub rules : List String
  pub windows : Windows

-- `WINDOWS`
abbrev pub default_windows : Windows
default_windows = record { critical_window = 60; high_window = 300; medium_window = 1800 }

-- `self.windows[level] = seconds`, with its bound
unfoldable pub set_window : String → ℕ → Windows → Option Windows
set_window level n w =
    if level == "critical" && leb n 60
    then some (record w { critical_window = n })
    else if level == "high" && leb n 300
    then some (record w { high_window = n })
    else if level == "medium" && leb n 1800
    then some (record w { medium_window = n })
    else none

abbrev pub is_ordered : Windows → Bool
is_ordered w = leb w.critical_window w.high_window && leb w.high_window w.medium_window

module _ {F : Type 0} where
  abbrev pub set_value : String → Value F → Windows → Option Windows
  set_value level (int (pos n)) w = set_window level n w
  set_value level _ w = none

  unfoldable pub set_windows : Entries F → Windows → Option Windows
  set_windows end w = some w
  set_windows (entry level v rest) w = set_value level v w >>= set_windows rest

  -- a list of enrolled rules
  unfoldable pub rule_list : Items F → Option (List String)
  rule_list nil = some []
  rule_list (cons (str s) rest) = do
    require (member s timed_rules)
    others ← rule_list rest
    some (s ∷ others)
  rule_list (cons v rest) = none

  abbrev pub rules_of : Value F → Option (List String)
  rules_of (arr vs) = rule_list vs
  rules_of _ = none

  abbrev pub flag_of : Value F → Option Bool
  flag_of (bool b) = some b
  flag_of _ = none

  abbrev pub windows_of : Value F → Option Windows
  windows_of (obj d) = set_windows d default_windows
  windows_of _ = none

  unfoldable pub known_keys : Entries F → Bool
  known_keys end = true
  known_keys (entry k v rest) = member k ("automatic" ∷ "rules" ∷ "windows" ∷ []) && known_keys rest

  unfoldable pub policy_from : Entries F → Option Policy
  policy_from d = do
    require (known_keys d)
    automatic ← flag_of (get_or (bool false) "automatic" d)
    rules ← rules_of (get_or (arr nil) "rules" d)
    windows ← windows_of (get_or (obj end) "windows" d)
    require (is_ordered windows)
    some (record { automatic = automatic; rules = rules; windows = windows })

  -- `ResponsePolicy(data)`
  unfoldable pub response_policy : Value F → Option Policy
  response_policy null = policy_from end
  response_policy (obj d) = policy_from d
  response_policy _ = none

  -- `permits` without a brief
  unfoldable pub permits_row : Policy → Analysis F → Bool
  permits_row p analysis =
      p.automatic
      && any (λ (m : Match F). member m.rule p.rules && is_eligible m) analysis.correlation
