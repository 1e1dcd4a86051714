-- ===== src/Base/Lists.antt =====
-- Lists measured by native numbers, Python's `any` and `all`, filters by a Boolean test.
use Prim.Native.Nat.{ℕ, zero, suc, ◌+◌}
use Prim.Native.String.{String}
use mathlib.Core.Path.{◌≡◌, refl, sym, ap, ◌∙◌}
use mathlib.Core.Bool.{Bool, true, false, ◌&&◌, ◌||◌, false≢true}
use mathlib.Core.List.{map, List, [], ◌∷◌, ◌++◌}
use mathlib.Core.Option.{Option, none, some}
use native.Mathlib.Omega.{arith}
use text.Mathlib.Text.{◌==◌}
use mathlib.Core.Logic.{◌⊎◌, inl, inr}
use arbiter_ai.Base.Tests.{if◌then◌else◌, Bool-cases}

module _ {ℓ} {A : Type ℓ} where
  -- `not xs`
  abbrev pub is_empty : List A → Bool
  is_empty [] = true
  is_empty (x ∷ xs) = false

  abbrev pub length : List A → ℕ
  length [] = 0
  length (x ∷ xs) = suc (length xs)

  abbrev pub any : (A → Bool) → List A → Bool
  any p [] = false
  any p (x ∷ xs) = p x || any p xs

  abbrev pub all : (A → Bool) → List A → Bool
  all p [] = true
  all p (x ∷ xs) = p x && all p xs

  -- `[x for x in xs if p(x)]`
  abbrev pub keep : (A → Bool) → List A → List A
  keep p [] = []
  keep p (x ∷ xs) = let rest = keep p xs in if p x then x ∷ rest else rest

  -- how many of the rows pass the test: `SUM(p)` over them
  abbrev pub tally : (A → Bool) → List A → ℕ
  tally p [] = 0
  tally p (x ∷ xs) = (if p x then 1 else 0) + tally p xs

  -- `next((x for x in xs if p(x)), None)`
  abbrev pub find_first : (A → Bool) → List A → Option A
  find_first p [] = none
  find_first p (x ∷ xs) = if p x then some x else find_first p xs

  abbrev pub take : ℕ → List A → List A
  take zero xs = []
  take (suc n) [] = []
  take (suc n) (x ∷ xs) = x ∷ take n xs

  abbrev pub All {κ} : (A → Type κ) → List A → Type κ
  All P [] = Unit
  All P (x ∷ xs) = P x × All P xs

  pub length-append : (xs ys : List A) → length (xs ++ ys) ≡ length xs + length ys
  length-append [] ys = omega arith
  length-append (x ∷ xs) ys = omega (arith, length-append xs ys)

  pub tally-append : (p : A → Bool) (xs ys : List A) → tally p (xs ++ ys) ≡ tally p xs + tally p ys
  tally-append p [] ys = omega arith
  tally-append p (x ∷ xs) ys = omega (arith, tally-append p xs ys)

  pub All-map {κ} : {P Q : A → Type κ} → ((x : A) → P x → Q x) → (xs : List A) → All P xs → All Q xs
  All-map f [] h = tt
  All-map f (x ∷ xs) h = (f x h.0, All-map f xs h.1)

  pub All-append {κ} : (P : A → Type κ) (xs ys : List A) → All P xs → All P ys → All P (xs ++ ys)
  All-append P [] ys hx hy = hy
  All-append P (x ∷ xs) ys hx hy = (hx.0, All-append P xs ys hx.1 hy)

module _ {ℓ} {A : Type ℓ} where
  pub keep-append : (p : A → Bool) (xs ys : List A) → keep p (xs ++ ys) ≡ keep p xs ++ keep p ys
  keep-append p [] ys = refl
  keep-append p (x ∷ xs) ys = elim (Bool-cases (p x)) [
    | inl keeps ↦ rw (keeps, keep-append p xs ys)
    | inr drops ↦ rw (drops, keep-append p xs ys)
  ]

module _ {A : Type 0} where
  -- the value stands in the list
  abbrev pub Among : A → List A → Type 0
  Among x [] = ⊥
  Among x (y ∷ ys) = (x ≡ y) ⊎ Among x ys

  -- A test that some element passes has such an element.
  pub any-elim :
      (p : A → Bool) (xs : List A) → any p xs ≡ true → (x : A) × Among x xs × (p x ≡ true)
  any-elim p [] h = absurd (false≢true h)
  any-elim p (x ∷ xs) h = elim (Bool-cases (p x)) [
    | inl hit ↦ (x, inl refl, hit)
    | inr miss ↦ let (y, found, hit) = any-elim p xs (ground (arith, miss)) in (y, inr found, hit)
  ]

  pub any-none :
      (p : A → Bool) (xs : List A) → any p xs ≡ false → (x : A) → Among x xs → p x ≡ false
  any-none p [] h x found = absurd found
  any-none p (y ∷ ys) h x (inl same) = rw same (ground (arith, h))
  any-none p (y ∷ ys) h x (inr later) = any-none p ys (ground (arith, h)) x later

  pub any-intro : (p : A → Bool) (x : A) (xs : List A) → Among x xs → p x ≡ true → any p xs ≡ true
  any-intro p x [] h t = elim h [ ]
  any-intro p x (y ∷ ys) (inl e) t = rw (← e, t)
  any-intro p x (y ∷ ys) (inr found) t = ground (arith, any-intro p x ys found t)

-- `s in {...}` for a set or a tuple of texts
abbrev pub member : String → List String → Bool
member s = any (λ t. s == t)

module _ {A B : Type 0} where
  pub Among-map :
      (f : A → B) (xs : List A) (y : B) → Among y (map f xs) → (x : A) × Among x xs × (y ≡ f x)
  Among-map f [] y h = absurd h
  Among-map f (x ∷ xs) y (inl here) = (x, inl refl, here)
  Among-map f (x ∷ xs) y (inr later) =
      let (z, found, same) = Among-map f xs y later in (z, inr found, same)

module _ {A : Type 0} where
  -- What a filter keeps stood in the list and passes the test.
  pub keep-elim :
      (p : A → Bool) (xs : List A) (x : A) → Among x (keep p xs) → Among x xs × (p x ≡ true)
  keep-elim p [] x h = absurd h
  keep-elim p (y ∷ ys) x h = elim (Bool-cases (p y)) [
    | inl keeps ↦ elim (rw keeps at h) [
      | inl here ↦ (inl here, rw here keeps)
      | inr later ↦ let (found, passes) = keep-elim p ys x later in (inr found, passes)
    ]
    | inr drops ↦ let (found, passes) = keep-elim p ys x (rw drops at h) in (inr found, passes)
  ]

  pub All-among {κ} : (P : A → Type κ) (xs : List A) → All P xs → (x : A) → Among x xs → P x
  All-among P [] h x found = absurd found
  All-among P (y ∷ ys) h x (inl same) = rw same h.0
  All-among P (y ∷ ys) h x (inr later) = All-among P ys h.1 x later

module _ {A B : Type 0} where
  -- what holds of the images
  pub All-map_intro {κ} :
      {P : A → Type κ} (Q : B → Type κ) (f : A → B)
      → ((x : A) → P x → Q (f x))
      → (xs : List A) → All P xs
      → All Q (map f xs)
  All-map_intro Q f step [] h = tt
  All-map_intro Q f step (x ∷ xs) h = (step x h.0, All-map_intro Q f step xs h.1)

module _ {A : Type 0} where
  -- Nothing that a list does not have need be shown.
  pub All-absent :
      (p : A → Bool) (Q : A → Type 0) (xs : List A)
      → any p xs ≡ false
      → All (λ x. p x ≡ true → Q x) xs
  All-absent p Q [] h = tt
  All-absent p Q (x ∷ xs) h =
      ((λ t. absurd (ground (arith, h, t))), All-absent p Q xs (ground (arith, h)))

  pub All-intro {κ} : (P : A → Type κ) (xs : List A) → ((x : A) → Among x xs → P x) → All P xs
  All-intro P [] h = tt
  All-intro P (x ∷ xs) h = (h x (inl refl), All-intro P xs (λ y. λ later. h y (inr later)))

  pub keep-intro :
      (p : A → Bool) (xs : List A) (x : A) → Among x xs → p x ≡ true → Among x (keep p xs)
  keep-intro p [] x found t = absurd found
  keep-intro p (y ∷ ys) x (inl same) t = rw (ap p (sym same) ∙ t) (inl same)
  keep-intro p (y ∷ ys) x (inr later) t = elim (Bool-cases (p y)) [
    | inl keeps ↦ rw keeps (inr (keep-intro p ys x later t))
    | inr drops ↦ rw drops (keep-intro p ys x later t)
  ]

  pub find_first-none :
      (p : A → Bool) (xs : List A) → find_first p xs ≡ none → All (λ x. p x ≡ false) xs
  find_first-none p [] h = tt
  find_first-none p (x ∷ xs) h = elim (Bool-cases (p x)) [
    | inl hit ↦ absurd (ground (arith, rw hit at h))
    | inr miss ↦ (miss, find_first-none p xs (rw miss at h))
  ]
