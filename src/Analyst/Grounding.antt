-- ===== src/Analyst/Grounding.antt =====
-- arbiter/l2_guardrails.py: the check of a model's brief against the packet. `none` is an exception.
pub mod Stated
pub mod Cited
use Prim.Native.String.{len}
use arbiter_ai.Base.{
  ℕ, String, ◌≡◌, refl, Bool, true, false, not, ◌&&◌, Option, none, some, List, [], ◌∷◌, ◌==◌,
  if◌then◌else◌, any, all, leb, length, member, ◌>>=◌, ◌>>◌, require, require-elim, bind-elim,
  some_inj, Bool-cases, Option-cases, inl, inr, arith, All, All-map, Among, any-elim, All-among,
  &&-left, &&-right,
}
use arbiter_ai.Base.Text.{strip, same_text}
use arbiter_ai.Values.{
  Value, null, bool, int, float, str, arr, obj, pos, negsuc, Entries, Runtime, get_value, equals,
}
use arbiter_ai.Backends.{listed}
use arbiter_ai.Analyst.{Fact, Packet, Assessment}

-- the fields of a fact by their names
abbrev pub fact_fields : Fact → List (String × String)
fact_fields f =
    ("event_id", f.event_id)
    ∷ ("origin", f.origin)
    ∷ ("hostname", f.hostname)
    ∷ ("event_type", f.event_type)
    ∷ ("timestamp", f.timestamp)
    ∷ ("username", f.username)
    ∷ ("user_id", f.user_id)
    ∷ ("src_ip", f.src_ip)
    ∷ ("dst_ip", f.dst_ip)
    ∷ ("process_name", f.process_name)
    ∷ ("process_id", f.process_id)
    ∷ ("file_path", f.file_path)
    ∷ ("action", f.action)
    ∷ []

unfoldable pub value_at : String → List (String × String) → Option String
value_at key [] = none
value_at key ((k, v) ∷ rest) = if k == key then some v else value_at key rest

-- the fact of an id; a later fact replaces an earlier one in the dict
unfoldable pub fact_at : String → List Fact → Option Fact
fact_at id [] = none
fact_at id (f ∷ rest) = elim (fact_at id rest) [
  | some g ↦ some g
  | none ↦ if f.id == id then some f else none
]

abbrev pub text_keys : List String
text_keys =
    "assessment" ∷ "evidence" ∷ "gaps" ∷ "recommendation" ∷ "alternatives" ∷ "recovery" ∷ "urgency"
    ∷ []

abbrev pub wants_block : String → Bool
wants_block action = action == "block_ip"

module _ {F : Type 0} where
  abbrev pub as_text : Value F → Option String
  as_text (str s) = some s
  as_text _ = none

  abbrev pub items_of : Value F → Option (List (Value F))
  items_of (arr vs) = some (listed vs)
  items_of _ = none

  abbrev pub dict_of : Value F → Option (Entries F)
  dict_of (obj d) = some d
  dict_of _ = none

  abbrev pub sized : ℕ → ℕ → List (Value F) → Bool
  sized low high vs = leb low (length vs) && leb (length vs) high

  -- a text that is not blank and not too long
  abbrev pub is_brief : ℕ → Value F → Bool
  is_brief limit (str s) = not (strip s == "") && leb (len s) limit
  is_brief limit _ = false

  abbrev pub is_reference : List Fact → Value F → Bool
  is_reference facts (str s) = any (λ (f : Fact). f.id == s) facts
  is_reference facts _ = false

  abbrev pub are_references : List Fact → Value F → Bool
  are_references facts (arr vs) =
      leb (length (listed vs)) 64 && all (is_reference facts) (listed vs)
  are_references facts _ = false

  -- one hypothesis, with its kind
  unfoldable pub hypothesis_kind : List Fact → Value F → Option String
  hypothesis_kind facts v = do
    d ← dict_of v
    kind ← as_text (get_value "kind" d)
    require (member kind ("malicious" ∷ "benign" ∷ []))
    require (is_brief 2000 (get_value "summary" d))
    require (are_references facts (get_value "supports" d))
    require (are_references facts (get_value "against" d))
    some kind

  unfoldable pub kinds_of : List Fact → List (Value F) → Option (List String)
  kinds_of facts [] = some []
  kinds_of facts (v ∷ rest) = do
    kind ← hypothesis_kind facts v
    kinds ← kinds_of facts rest
    some (kind ∷ kinds)

  -- one assertion, with the id of its fact
  unfoldable pub cite : List Fact → Value F → Option String
  cite facts v = do
    d ← dict_of v
    id ← as_text (get_value "fact_id" d)
    f ← fact_at id facts
    field ← as_text (get_value "field" d)
    value ← value_at field (fact_fields f)
    require (equals (get_value "value" d) value)
    some f.id

  unfoldable pub cite_all : List Fact → List (Value F) → Option (List String)
  cite_all facts [] = some []
  cite_all facts (v ∷ rest) = do id ← cite facts v; ids ← cite_all facts rest; some (id ∷ ids)

  -- the conditions on a block, with the proposed target
  unfoldable pub grounded_block :
      Option String → Assessment → List String → Entries F → Option (Entries F)
  grounded_block proposal assessment cited brief = do
    target ← proposal
    rule ← assessment.rule
    require (not (rule == ""))
    require (all (λ id. member id cited) assessment.required_facts)
    require (equals (get_value "target" brief) target)
    some brief

module _ {F : Type 0} ⦃py : Runtime F⦄ where
  abbrev pub is_confidence : Value F → Bool
  is_confidence (int (pos n)) = leb n 1
  is_confidence (float x) = py.finite x && (py.le (py.lit 0 1) x && py.le x (py.lit 1 1))
  is_confidence _ = false

  unfoldable pub validate : Value F → Packet → Assessment → Option String → Option (Entries F)
  validate v packet assessment proposal = do
    brief ← dict_of v
    action ← as_text (get_value "action" brief)
    require (member action ("block_ip" ∷ "human_review" ∷ []))
    require (is_confidence (get_value "confidence" brief))
    require (all (λ key. is_brief 8000 (get_value key brief)) text_keys)
    hypotheses ← items_of (get_value "hypotheses" brief)
    require (sized 2 6 hypotheses)
    kinds ← kinds_of packet.facts hypotheses
    require (member "malicious" kinds && member "benign" kinds)
    assertions ← items_of (get_value "assertions" brief)
    require (sized 1 64 assertions)
    cited ← cite_all packet.facts assertions
    if wants_block action then grounded_block proposal assessment cited brief else some brief
