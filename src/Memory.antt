-- ===== src/Memory.antt =====
-- arbiter/memory.py: the SQLite tables as lists of rows, and the cache of history counts beside
-- them. `data_version` is SQLite's counter, which another connection's commit moves.
pub mod Cache
pub mod Labels
pub mod Facts
use arbiter_ai.Base.{
  ℕ, zero, suc, ◌+◌, String, Bool, true, false, not, ◌&&◌, ◌||◌, Option, none, some, List, [], ◌∷◌,
  ◌++◌, ◌==◌, ◌<>◌, starts_with, map, leb, eqb, if◌then◌else◌, length, keep, tally, find_first, any,
  is_some,
}
use arbiter_ai.Base.Text.{join, split_commas}
use arbiter_ai.Values.{Value, Runtime}
use arbiter_ai.Schema.{Verdict, decision_value}

pub record Asset (F : Type 0) : Type 0 where
  pub host : String
  pub criticality : F
  pub role : String
  pub confirmed : Bool

-- a row of `verdict_history`
pub record VerdictRow : Type 0 where
  pub signature : String
  pub decision : String
  pub human_label : String
  pub ts : String

-- a row of `facts`
pub record FactRow : Type 0 where
  pub id : ℕ
  pub scope : String
  pub fact : String
  pub f_user : String
  pub f_path : String
  pub f_process : String
  pub f_events : String
  pub f_window : String
  pub created_by : String
  pub created_at : String
  pub expires_at : String

pub record SignatureHistory : Type 0 where
  pub total : ℕ
  pub suppressed : ℕ
  pub escalated : ℕ
  pub overruled : ℕ
  pub false_alarms : ℕ

abbrev pub HistoryCache : Type 0
HistoryCache = List (String × SignatureHistory)

pub record Memory (F : Type 0) : Type 0 where
  pub assets : List (Asset F)
  pub verdicts : List VerdictRow
  pub facts : List FactRow
  pub cache : HistoryCache
  pub seen_version : ℕ
  pub data_version : ℕ

abbrev pub max_cached : ℕ
max_cached = 4096

-- the tests of the aggregate query of `history`
abbrev pub of_signature : String → VerdictRow → Bool
of_signature s r = r.signature == s

abbrev pub was_suppressed : VerdictRow → Bool
was_suppressed r = r.decision == "suppress"

abbrev pub was_overruled : VerdictRow → Bool
was_overruled r = r.human_label == "overruled"

-- `SELECT COUNT(*), SUM(...), ... FROM verdict_history WHERE signature=?`
unfoldable pub counts : String → List VerdictRow → SignatureHistory
counts s rows = record {
  total = tally (of_signature s) rows;
  suppressed = tally (λ r. of_signature s r && was_suppressed r) rows;
  escalated = tally (λ r. of_signature s r && not (was_suppressed r)) rows;
  overruled = tally (λ r. of_signature s r && (was_suppressed r && was_overruled r)) rows;
  false_alarms = tally (λ r. of_signature s r && (not (was_suppressed r) && was_overruled r)) rows;
}

unfoldable pub cached : String → HistoryCache → Option SignatureHistory
cached s [] = none
cached s ((k, h) ∷ rest) = if k == s then some h else cached s rest

-- one more verdict in a cached count
abbrev pub count_verdict : Bool → SignatureHistory → SignatureHistory
count_verdict suppressed h =
    if suppressed
    then record h { total = h.total + 1; suppressed = h.suppressed + 1 }
    else record h { total = h.total + 1; escalated = h.escalated + 1 }

unfoldable pub count_cached : String → Bool → HistoryCache → HistoryCache
count_cached s suppressed [] = []
count_cached s suppressed ((k, h) ∷ rest) =
    (k, if s == k then count_verdict suppressed h else h) ∷ count_cached s suppressed rest

-- the `UPDATE` of `label_verdicts`, on one row
pub label_row : String → String → VerdictRow → VerdictRow
label_row s label r =
    if of_signature s r || starts_with r.signature (s <> ":ctx:")
    then record r { human_label = label }
    else r

module _ {F : Type 0} where
  abbrev pub asset_row : String → List (Asset F) → Option (Asset F)
  asset_row host = find_first (λ a. a.host == host)

  -- the `ON CONFLICT(host) DO UPDATE` of the asset statements
  unfoldable pub put_asset : Asset F → List (Asset F) → List (Asset F)
  put_asset a [] = a ∷ []
  put_asset a (b ∷ rest) =
      let later = b ∷ put_asset a rest in if b.host == a.host then a ∷ rest else later

  unfoldable pub upsert_asset : String → F → String → Bool → Memory F → Memory F
  upsert_asset host criticality role confirmed m = record m {
    assets =
        put_asset
          (record { host = host; criticality = criticality; role = role; confirmed = confirmed })
          m.assets;
  }

  unfoldable pub is_known_asset : String → Memory F → Bool
  is_known_asset host m = is_some (asset_row host m.assets)

  -- `_refresh_history_cache`
  unfoldable pub refresh : Memory F → Memory F
  refresh m =
      if eqb m.data_version m.seen_version
      then m
      else record m { cache = []; seen_version = m.data_version }

  -- `history` behind the refresh
  pub read_cached : String → Memory F → SignatureHistory × Memory F
  read_cached s m =
      let row = counts s m.verdicts in
      let kept : HistoryCache = if leb max_cached (length m.cache) then [] else m.cache in
      elim (cached s m.cache) [
        | some h ↦ (h, m)
        | none ↦ (row, record m { cache = (s, row) ∷ kept })
      ]

  -- `history`: the counts, and the memory with them cached
  unfoldable pub history : String → Memory F → SignatureHistory × Memory F
  history s m = read_cached s (refresh m)

  pub verdict_row : Verdict F → String → VerdictRow
  verdict_row v s = record {
    signature = s;
    decision = decision_value v.decision;
    human_label = "";
    ts = v.timestamp;
  }

  -- the signatures under which a verdict is recorded
  unfoldable pub signatures : Verdict F → Value F → List String
  signatures v (Value.str context) =
      if starts_with context (v.signature <> ":ctx:")
      then v.signature ∷ context ∷ []
      else v.signature ∷ []
  signatures v _ = v.signature ∷ []

  -- one signature's row and its cached count
  pub record_one : Verdict F → String → Memory F → Memory F
  record_one v s m = record m {
    verdicts = m.verdicts ++ (verdict_row v s ∷ []);
    cache = count_cached s (decision_value v.decision == "suppress") m.cache;
  }

  pub record_all : Verdict F → List String → Memory F → Memory F
  record_all v [] m = m
  record_all v (s ∷ rest) m = record_all v rest (record_one v s m)

  -- `record_verdict`. The source inserts the rows and then counts them in the cache; no other
  -- statement comes between.
  unfoldable pub record_verdict : Verdict F → Value F → Memory F → Memory F
  record_verdict v context m = record_all v (signatures v context) (refresh m)

  unfoldable pub label_verdicts : String → String → Memory F → Memory F
  label_verdicts s label m = record m { verdicts = map (label_row s label) m.verdicts; cache = [] }

  -- what another connection to the database does: it commits rows of its own
  unfoldable pub other_commit : List VerdictRow → Memory F → Memory F
  other_commit rows m = record m { verdicts = rows; data_version = suc m.data_version }

module _ {F : Type 0} ⦃py : Runtime F⦄ where
  -- An unknown asset has criticality 1.3.
  unfoldable pub asset_criticality : String → Memory F → F
  asset_criticality host m = elim (asset_row host m.assets) [
    | some a ↦ a.criticality
    | none ↦ py.lit 13 10
  ]

  -- `false_positive_rate`; `a / b` of two integers is the float nearest to the quotient
  unfoldable pub false_positive_rate : SignatureHistory → F
  false_positive_rate h =
      if eqb h.total 0 then py.lit 0 1 else py.lit (h.suppressed + h.false_alarms) h.total

-- what a run over the memory computes with
unfoldable pub memory_run : Unit {0}
unfolding counts cached count_cached put_asset upsert_asset is_known_asset refresh read_cached
    history verdict_row signatures record_one record_all record_verdict label_row label_verdicts
    other_commit asset_criticality false_positive_rate
memory_run = tt
