-- ===== src/Memory/Facts.antt =====
-- The environment facts of arbiter/memory.py: seed facts, and the briefings that operators record.
pub mod Briefings
use Prim.Native.String.{compare}
use Prim.Native.Nat.{max}
use text.Mathlib.Text.{is_lt}
use arbiter_ai.Base.{
  ℕ, suc, ◌+◌, ◌≤◌, ◌<◌, String, ◌≡◌, refl, ap, Bool, true, false, not, ◌&&◌, ◌||◌, Option, none,
  some, List, [], ◌∷◌, ◌++◌, ◌==◌, map, eqb, leb, if◌then◌else◌, keep, All, arith, Bool-cases, inl,
  inr, length, eq_refl,
}
use arbiter_ai.Base.Text.{join, split_commas}
use arbiter_ai.Values.{Runtime}
use arbiter_ai.Facts.{ScopedFact}
use arbiter_ai.Memory.{Memory, Asset, FactRow, asset_row, upsert_asset, put_asset}

-- the `INTEGER PRIMARY KEY` that SQLite gives to a new row
pub next_id : List FactRow → ℕ
next_id [] = 1
next_id (r ∷ rows) = max (suc r.id) (next_id rows)

pub record Scope : Type 0 where
  pub user : String
  pub path : String
  pub process : String
  pub event_types : List String
  pub window : String

pub record Briefing : Type 0 where
  pub host : String
  pub fact : String
  pub role : String
  pub priority : String
  pub expires_at : String

-- the `WHERE` of `facts_for`
pub applies : String → String → String → FactRow → Bool
applies host source now r =
    (r.scope == host || (r.created_by == "" && (r.scope == source || r.scope == "*")))
    && (r.expires_at == "" || is_lt (compare now r.expires_at))

pub scoped_fact : FactRow → ScopedFact
scoped_fact r = record {
  text = r.fact;
  host = r.scope;
  user = r.f_user;
  path = r.f_path;
  process = r.f_process;
  event_types = keep (λ t. not (t == "")) (split_commas r.f_events);
  window = r.f_window;
}

module _ {F : Type 0} where
  unfoldable pub add_fact : String → String → Scope → Memory F → Memory F
  add_fact fact scope s m = record m {
    facts =
        m.facts
        ++ (record {
          id = next_id m.facts;
          scope = scope;
          fact = fact;
          f_user = s.user;
          f_path = s.path;
          f_process = s.process;
          f_events = join "," s.event_types;
          f_window = s.window;
          created_by = "";
          created_at = "";
          expires_at = "";
        }
            ∷ []);
  }

  -- `facts_for`, at the current time
  unfoldable pub facts_for : String → String → String → Memory F → List ScopedFact
  facts_for host source now m = map scoped_fact (keep (applies host source now) m.facts)

pub briefing_row : ℕ → Briefing → String → String → FactRow
briefing_row id b actor now = record {
  id = id;
  scope = b.host;
  fact = b.fact;
  f_user = "";
  f_path = "";
  f_process = "";
  f_events = "";
  f_window = "";
  created_by = actor;
  created_at = now;
  expires_at = b.expires_at;
}

module _ {F : Type 0} ⦃py : Runtime F⦄ where
  -- the criticality that a briefing's priority names, or the asset's own, or 1.3
  unfoldable pub priority_criticality : String → Option (Asset F) → F
  priority_criticality priority current =
      if priority == "standard"
      then py.lit 13 10
      else if priority == "important"
      then py.lit 16 10
      else if priority == "critical"
      then py.lit 2 1
      else elim current [ some a ↦ a.criticality | none ↦ py.lit 13 10 ]

  -- the asset change of a briefing, if it names a role or a priority
  pub brief_asset : Briefing → Memory F → Memory F
  brief_asset b m =
      let current = asset_row b.host m.assets in
      let known : String = elim current [ some a ↦ a.role | none ↦ "" ] in
      if not (b.role == "") || not (b.priority == "unchanged")
      then upsert_asset b.host (priority_criticality b.priority current)
          (if b.role == "" then known else b.role) true m
      else m

  unfoldable pub save_briefing : Briefing → String → String → Memory F → ℕ × Memory F
  save_briefing b actor now m =
      let m' = brief_asset b m in
      let id = next_id m'.facts in
      (id, record m' { facts = m'.facts ++ (briefing_row id b actor now ∷ []) })

-- an operator's briefing with the id
abbrev is_briefing : ℕ → FactRow → Bool
is_briefing id r = eqb r.id id && not (r.created_by == "")

module _ {F : Type 0} where
  -- Removes an operator's briefing, never a seed fact.
  unfoldable pub remove_briefing : ℕ → Memory F → Bool × Memory F
  remove_briefing id m =
      let rest = keep (λ r. not (is_briefing id r)) m.facts in
      (eqb (length rest + 1) (length m.facts), record m { facts = rest })

-- what a run over the facts computes with
unfoldable pub fact_rows_run : Unit {0}
unfolding next_id applies scoped_fact split_commas join add_fact facts_for briefing_row
    priority_criticality brief_asset save_briefing remove_briefing
fact_rows_run = tt
