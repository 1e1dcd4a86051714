-- ===== src/Facts.antt =====
-- arbiter/facts.py: what an environment fact covers, checked against the event before the model sees
-- the fact.
mod Patterns
pub mod Scope
pub mod Window
use arbiter_ai.Base.{
  is_empty, ℕ, zero, suc, ◌+◌, ◌/◌, ◌%◌, String, ◌≡◌, Bool, true, false, not, ◌&&◌, ◌||◌, Option,
  none, some, List, [], ◌∷◌, ◌++◌, ◌==◌, ◌<>◌, map, starts_with, leb, ltb, if◌then◌else◌, any,
  member, take,
}
use arbiter_ai.Base.Decimal.{decimal}
use arbiter_ai.Base.Text.{lower, contains, strip, strip_slashes, join, sorted_set}
use arbiter_ai.Values.{Runtime, Value, Entries, get_value, truthy}
use arbiter_ai.Schema.{Event}
use arbiter_ai.Guardrails.Fields.{field_text}
use Patterns.{find_word, paths_in, message_minutes, stamp_minutes, window_bounds}

pub record ScopedFact : Type 0 where
  pub text : String
  pub host : String
  pub user : String
  pub path : String
  pub process : String
  pub event_types : List String
  pub window : String

-- the property `scoped`
unfoldable pub scoped : ScopedFact → Bool
scoped f =
    not (f.user == "")
    || not (f.path == "")
    || not (f.process == "")
    || not (is_empty f.event_types)
    || not (f.window == "")

pub data Status : Type 0 where
  unscoped verified mismatch partial : Status

pub record ScopeResult : Type 0 where
  pub status : Status
  pub violations : List String
  pub unverified : List String

-- The three states of a check, with the detail that it gives.
pub data Check : Type 0 where
  matched : Check
  violated : String → Check
  unknown : String → Check

abbrev user_keys : List String
user_keys = "user" ∷ "username" ∷ "account" ∷ "uid_name" ∷ "actor" ∷ []

abbrev process_keys : List String
process_keys = "process" ∷ "exe" ∷ "command" ∷ "cmd" ∷ []

-- `in_window start end at`, of minutes of the day; a window may pass midnight
unfoldable pub in_window : ℕ → ℕ → ℕ → Bool
in_window start end at =
    if leb start end then leb start at && leb at end else leb start at || leb at end

-- `f"{n:02d}"`
two_places : ℕ → String
two_places n = if ltb n 10 then "0" <> decimal n else decimal n

module _ {F : Type 0} where
  -- the field values that are texts with a slash in front
  slash_values : Entries F → List String
  slash_values Entries.end = []
  slash_values (Entries.entry k (Value.str s) rest) =
      let later = slash_values rest in if starts_with s "/" then s ∷ later else later
  slash_values (Entries.entry k v rest) = slash_values rest

  unfoldable pub check_path : ScopedFact → Event F → Check
  unfolding slash_values
  check_path f e =
      let prefix = strip_slashes f.path in
      let seen = slash_values e.fields ++ paths_in e.message in
      if is_empty seen
      then unknown "path"
      else if any (λ p. p == prefix || starts_with p (prefix <> "/")) seen
      then matched
      else violated (
          "paths in event ("
          <> (join ", " (take 3 (sorted_set seen))
              <> (") are outside fact scope '" <> (f.path <> "'"))))

  unfoldable pub check_event_types : ScopedFact → Event F → Check
  check_event_types f e =
      if member e.event_type f.event_types
      then matched
      else violated (
          "event type '"
          <> (e.event_type
              <> ("' is not covered (fact covers: " <> (join ", " f.event_types <> ")"))))

  -- The time that the log line itself claims, and else the ingest time.
  unfoldable pub event_minutes : Event F → Option ℕ
  event_minutes e = elim (message_minutes e.message) [
    | some t ↦ some t
    | none ↦ stamp_minutes e.timestamp
  ]

  unfoldable pub check_window : ScopedFact → Event F → Check
  unfolding event_minutes in_window two_places
  check_window f e = elim (window_bounds f.window) [
    | none ↦ unknown "window"
    | some (start, end) ↦ elim (event_minutes e) [
      | none ↦ unknown "window"
      | some at ↦
          if in_window start end at
          then matched
          else violated (
              "event time "
              <> (two_places (at / 60)
                  <> (":" <> (two_places (at % 60) <> (" is outside fact window " <> f.window)))))
    ]
  ]

module _ {F : Type 0} ⦃py : Runtime F⦄ where
  -- the first user field that is not empty
  acting_user : List String → Event F → String
  acting_user [] e = ""
  acting_user (key ∷ keys) e =
      let got = lower (field_text key e) in
      let later = acting_user keys e in if got == "" then later else got

  unfoldable pub check_user : ScopedFact → Event F → Check
  unfolding acting_user
  check_user f e =
      let want = lower f.user in
      let got = acting_user user_keys e in
      if not (got == "")
      then if got == want
        then matched
        else violated ("event user '" <> (got <> ("' is not fact user '" <> (f.user <> "'"))))
      else if find_word want (lower e.message)
      then matched
      else unknown "user"

  named_processes : List String → Event F → List String
  named_processes [] e = []
  named_processes (key ∷ keys) e =
      let later = named_processes keys e in
      if truthy (get_value key e.fields) then lower (field_text key e) ∷ later else later

  unfoldable pub check_process : ScopedFact → Event F → Check
  unfolding named_processes
  check_process f e =
      let want = lower f.process in
      elim (named_processes process_keys e) [
        | [] ↦ if contains (lower e.message) want then matched else unknown "process"
        | n ∷ named ↦
            if any (λ p. contains p want) (n ∷ named)
            then matched
            else violated
                ("event process '" <> (n <> ("' is not fact process '" <> (f.process <> "'"))))
      ]

  -- `_CHECKS`: whether the constraint is populated, and its check
  unfoldable pub checks : ScopedFact → Event F → List (Bool × Check)
  checks f e =
      (not (f.user == ""), check_user f e)
      ∷ (not (f.path == ""), check_path f e)
      ∷ (not (f.process == ""), check_process f e)
      ∷ (not (is_empty f.event_types), check_event_types f e)
      ∷ (not (f.window == ""), check_window f e)
      ∷ []

-- what the loop of `scope_check` gathers: violations, unverified dimensions, and matches
pub record Gathered : Type 0 where
  pub violations : List String
  pub unverified : List String
  pub matches : ℕ

pub note : Bool → Check → Gathered → Gathered
note false c g = g
note true matched g = record g { matches = g.matches + 1 }
note true (violated d) g = record g { violations = g.violations ++ (d ∷ []) }
note true (unknown d) g = record g { unverified = g.unverified ++ (d ∷ []) }

pub gather : List (Bool × Check) → Gathered → Gathered
gather [] g = g
gather ((populated, c) ∷ rest) g = gather rest (note populated c g)

pub conclude : Gathered → ScopeResult
conclude g =
    if not (is_empty g.violations)
    then record { status = mismatch; violations = g.violations; unverified = [] }
    else if is_empty g.unverified && ltb 0 g.matches
    then record { status = verified; violations = []; unverified = [] }
    else record { status = partial; violations = []; unverified = g.unverified }

-- the text that `render` puts behind a fact
pub annotation : Status → ScopeResult → String
annotation unscoped r = ""
annotation mismatch r =
    " [SCOPE MISMATCH — this fact does NOT cover this event: "
    <> (join "; " r.violations <> ". It must not be used to justify suppression.]")
annotation verified r = " [scope verified: this event matches the fact's scope]"
annotation partial r =
    " [scope not fully verifiable for this event (undetermined: "
    <> (join ", " r.unverified <> "); apply only if the specific behavior matches]")

module _ {F : Type 0} ⦃py : Runtime F⦄ where
  unfoldable pub scope_check : ScopedFact → Event F → ScopeResult
  unfolding gather conclude note
  scope_check f e =
      if not (scoped f)
      then record { status = unscoped; violations = []; unverified = [] }
      else conclude (gather (checks f e) (record { violations = []; unverified = []; matches = 0 }))

  unfoldable pub render : ScopedFact → Event F → String
  render f e = let r = scope_check f e in f.text <> annotation r.status r

  unfoldable pub render_all : List ScopedFact → Event F → List String
  render_all facts e = map (λ f. render f e) facts

unfoldable pub texts : List ScopedFact → List String
texts = map (λ f. f.text)

-- what a run of the scope checks computes with
unfoldable pub facts_run : Unit {0}
unfolding lower contains field_text strip_slashes paths_in check_path check_event_types check_window
    check_user check_process find_word message_minutes stamp_minutes window_bounds checks
    scope_check scoped render render_all texts annotation join sorted_set
facts_run = tt
