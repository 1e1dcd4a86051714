-- ===== src/Analyst/Engine/Challenged.antt =====
-- What a challenge of the model that was passed has shown.
use arbiter_ai.Base.{
  List, [], ◌∷◌, All, Among, ◌||◌, any, any-elim, is_empty, &&-left, &&-right, String, ◌≡◌, refl,
  ap, Bool, true, not, ◌&&◌, Option, some, require-elim, bind-elim, some_inj, arith, ◌∙◌,
}
use arbiter_ai.Values.{
  Value, Items, nil, cons, Entries, null, bool, int, float, str, arr, obj, Runtime, get_value,
  equals,
}
use arbiter_ai.Analyst.{Packet, Assessment, assess}
use arbiter_ai.Analyst.Policy.{flag_of}
use arbiter_ai.Backends.{listed}
use arbiter_ai.Analyst.Grounding.{items_of, dict_of, wants_block, validate}
use arbiter_ai.Analyst.Engine.{Advisor, Site, challenge_of, is_accepted, cites_all}

-- The model gave an answer that holds against the packet, and it answered the challenge of it with an
-- acceptance, no objection, and citations of every fact that the assessment requires.
pub record IsChallenged {F : Type 0} ⦃py : Runtime F⦄ (site : Site F) (advisor : Advisor F)
    (packet : Packet) (proposal : Option String) : Type 0 where
  pub answer : Value F
  pub advised :
      advisor.advise packet (assess site.windows_path site.is_local packet proposal) proposal
      ≡ some answer
  pub checked : Entries F
  pub valid :
      validate answer packet (assess site.windows_path site.is_local packet proposal) proposal
      ≡ some checked
  pub critic : Entries F
  pub replied :
      advisor.challenge packet
        (assess site.windows_path site.is_local packet proposal)
        proposal
        checked
      ≡ some (obj critic)
  pub accept : get_value "accept" critic ≡ bool true
  pub objections : get_value "objections" critic ≡ arr nil
  pub cited : Items F
  pub citations : get_value "citations" critic ≡ arr cited
  pub complete :
      All
        (λ id. (v : Value F) × Among v (listed cited) × (equals v id ≡ true))
        (assess site.windows_path site.is_local packet proposal).required_facts

pub cites-All :
    {F : Type 0}
    → (ids : List String) (vs : List (Value F)) → cites_all ids vs ≡ true
    → All (λ id. (v : Value F) × Among v vs × (equals v id ≡ true)) ids
cites-All [] vs h = tt
cites-All (id ∷ ids) vs h = (
  any-elim (λ v. equals v id) vs (&&-left _ _ h),
  cites-All ids vs (&&-right (any (λ v. equals v id) vs) _ h),
)

flag-true : {F : Type 0} → (v : Value F) → flag_of v ≡ some true → v ≡ bool true
flag-true (bool b) e = ap bool (some_inj b true e)
flag-true null e = absurd (ground (arith, e))
flag-true (str t) e = absurd (ground (arith, e))
flag-true (int n) e = absurd (ground (arith, e))
flag-true (float x) e = absurd (ground (arith, e))
flag-true (arr vs) e = absurd (ground (arith, e))
flag-true (obj d) e = absurd (ground (arith, e))

dict-obj : {F : Type 0} → (v : Value F) (d : Entries F) → dict_of v ≡ some d → v ≡ obj d
dict-obj (obj d') d e = ap obj (some_inj d' d e)
dict-obj null d e = absurd (ground (arith, e))
dict-obj (bool b) d e = absurd (ground (arith, e))
dict-obj (str t) d e = absurd (ground (arith, e))
dict-obj (int n) d e = absurd (ground (arith, e))
dict-obj (float x) d e = absurd (ground (arith, e))
dict-obj (arr vs) d e = absurd (ground (arith, e))

items-arr :
    {F : Type 0}
    → (v : Value F) (vs : List (Value F)) → items_of v ≡ some vs
    → (is : Items F) × (v ≡ arr is) × (listed is ≡ vs)
items-arr (arr is) vs e = (is, refl, some_inj (listed is) vs e)
items-arr null vs e = absurd (ground (arith, e))
items-arr (bool b) vs e = absurd (ground (arith, e))
items-arr (str t) vs e = absurd (ground (arith, e))
items-arr (int n) vs e = absurd (ground (arith, e))
items-arr (float x) vs e = absurd (ground (arith, e))
items-arr (obj d) vs e = absurd (ground (arith, e))

listed-nil : {F : Type 0} → (is : Items F) → is_empty (listed is) ≡ true → is ≡ nil
unfolding listed
listed-nil nil h = refl
listed-nil (cons v is) h = absurd (ground (arith, h))

-- What `challenge_of` makes of a reply that it accepts; the citations are the second component.
pub record Challenge {F : Type 0} (reply : Value F) (cites : List (Value F)) : Type 0 where
  pub critic : Entries F
  pub replied : reply ≡ obj critic
  pub accept : get_value "accept" critic ≡ bool true
  pub objections : get_value "objections" critic ≡ arr nil
  pub cited : Items F
  pub citations : get_value "citations" critic ≡ arr cited
  pub same : listed cited ≡ cites

pub challenge_of-Challenge :
    {F : Type 0}
    → (packet : Packet) (reply : Value F) (cites : List (Value F))
    → challenge_of packet reply ≡ some (true, cites)
    → Challenge reply cites
unfolding challenge_of
challenge_of-Challenge packet reply cites e =
    let (critic, replied, e1) = bind-elim (dict_of reply) _ (true, cites) e in
    let (accept, flag, e2) = bind-elim (flag_of (get_value "accept" critic)) _ (true, cites) e1 in
    let (objections, raised, e3) =
      bind-elim (items_of (get_value "objections" critic)) _ (true, cites) e2 in
    let (_, e4) = require-elim _ _ (true, cites) e3 in
    let (citations, cited, e5) =
      bind-elim (items_of (get_value "citations" critic)) _ (true, cites) e4 in
    let (_, e6) = require-elim _ _ (true, cites) e5 in
    let made = some_inj (accept && is_empty objections, citations) (true, cites) e6 in
    let passed : (accept && is_empty objections) ≡ true =
      ap (λ (p : Bool × List (Value _)). p.0) made in
    let (list, written, held) = items-arr (get_value "objections" critic) objections raised in
    let (given, stored, own) = items-arr (get_value "citations" critic) citations cited in
    record {
      critic = critic;
      replied = dict-obj reply critic replied;
      accept = flag-true _ (flag ∙ ap some (&&-left _ _ passed));
      objections = written ∙ ap arr (listed-nil list (ap is_empty held ∙ &&-right accept _ passed));
      cited = given;
      citations = stored;
      same = own ∙ ap (λ (p : Bool × List (Value _)). p.1) made;
    }

-- what an accepted block has
pub accepted-block :
    {F : Type 0}
    → (assessment : Assessment) (judged : Bool × List (Value F)) (action : String)
    → action ≡ "block_ip"
    → is_accepted action assessment judged ≡ true
    → (judged ≡ (true, judged.1)) × (cites_all assessment.required_facts judged.1 ≡ true)
accepted-block assessment (accept, cites) action asked passed =
    let first = &&-left accept _ passed in
    let second = &&-right accept (not (wants_block action) || _) passed in
    (ap (λ (b : Bool). (b, cites)) first, either (wants_block action) _ wants second)
  where
    wants : wants_block action ≡ true
    wants = rw asked refl

    either : (a b : Bool) → a ≡ true → (not a || b) ≡ true → b ≡ true
    either a b h k = ground (arith, h, k)
