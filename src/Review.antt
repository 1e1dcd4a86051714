-- ===== src/Review.antt =====
-- arbiter/review.py: the analyst's pass over the audit trail. The answers at the prompt are a list of
-- lines; what is printed is left out.
pub mod Groups
use arbiter_ai.Base.{
  ℕ, ◌+◌, String, Bool, true, false, not, ◌&&◌, Option, none, some, List, [], ◌∷◌, ◌++◌, ◌==◌, map,
  if◌then◌else◌, keep, find_first, member,
}
use arbiter_ai.Base.Text.{lower, strip, split_commas}
use arbiter_ai.Memory.{Memory, label_verdicts}
use arbiter_ai.Memory.Facts.{add_fact}

-- a line of the audit trail, with the texts that stand for missing keys
pub record TrailEntry : Type 0 where
  pub signature : String
  pub decision : String
  pub tier : String
  pub message : String
  pub host : String
  pub source : String
  pub event_type : String
  pub rationale : String
  pub shadow : Bool

pub record ReviewItem : Type 0 where
  pub entry : TrailEntry
  pub count : ℕ

abbrev pub of_entry : String → ReviewItem → Bool
of_entry s i = i.entry.signature == s

-- `by_sig[sig].count`, or 0
unfoldable pub count_of : String → List ReviewItem → ℕ
count_of s [] = 0
count_of s (i ∷ items) = if of_entry s i then i.count else count_of s items

-- `by_sig[sig] = item`: a key that is there keeps its place
pub put_item : ReviewItem → List ReviewItem → List ReviewItem
put_item i [] = i ∷ []
put_item i (j ∷ items) =
    let later = j ∷ put_item i items in if of_entry i.entry.signature j then i ∷ items else later

-- the loop of `group_items`
pub collect : List TrailEntry → List ReviewItem → List ReviewItem
unfolding put_item
collect [] items = items
collect (e ∷ es) items =
    let counted : ReviewItem = record { entry = e; count = count_of e.signature items + 1 } in
    collect es (if e.signature == "" then items else put_item counted items)

abbrev pub reversed : List ReviewItem → List ReviewItem
reversed [] = []
reversed (i ∷ items) = reversed items ++ (i ∷ [])

unfoldable pub group_items : List TrailEntry → String → List ReviewItem
group_items entries decision =
    let items = reversed (collect entries []) in
    if decision == "all" then items else keep (λ i. i.entry.decision == decision) items

module _ {F : Type 0} where
  -- `apply_feedback`: the label that is written, and the memory
  unfoldable pub apply_feedback : Memory F → ReviewItem → String → String × Memory F
  apply_feedback m i action =
      if action == "c"
      then ("confirmed", label_verdicts i.entry.signature "confirmed" m)
      else if action == "o"
      then ("overruled", label_verdicts i.entry.signature "overruled" m)
      else ("", m)

abbrev pub or_default : String → String → String
or_default s d = if s == "" then d else s

module _ {F : Type 0} where
  -- `_prompt_fact`, on the lines that are left: the fact, the memory and the lines after it. It is
  -- `none` where the lines end, which raises an EOFError.
  unfoldable pub prompt_fact :
      Memory F → ReviewItem → List String → Option (Option String × (Memory F × List String))
  prompt_fact m i [] = none
  prompt_fact m i (text ∷ []) = if strip text == "" then some (none, (m, [])) else none
  prompt_fact m i (text ∷ scope ∷ types ∷ user ∷ path ∷ window ∷ rest) =
      let named =
        keep (λ t. not (t == ""))
          (map strip (split_commas (or_default (strip types) i.entry.event_type))) in
      let taught =
        add_fact (strip text) (or_default (strip scope) i.entry.host)
          (record {
            user = strip user;
            path = strip path;
            process = "";
            event_types = named;
            window = strip window;
          })
          m in
      if strip text == ""
      then some (none, (m, scope ∷ types ∷ user ∷ path ∷ window ∷ rest))
      else some (some (strip text), (taught, rest))
  prompt_fact m i (text ∷ rest) = if strip text == "" then some (none, (m, rest)) else none

-- what a run of the review computes with
unfoldable pub review_run : Unit {0}
unfolding count_of put_item collect group_items apply_feedback prompt_fact strip lower split_commas
    label_verdicts add_fact
review_run = tt
