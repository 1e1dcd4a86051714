-- ===== src/Base/Text.antt =====
-- What the source uses of Python's `str`: `lower`, `strip`, `in`, `replace`, `join` and `split`.
-- Case and white space are those of ASCII, which is what log lines are matched on.
use Prim.Native.Nat.{ℕ, ◌-◌}
use Prim.Native.Char.{Char, code}
use Prim.Native.String.{String, char_at, compare, len, slice, ◌++◌ as ◌<>◌}
use mathlib.Core.Path.{◌≡◌, refl}
use mathlib.Core.Bool.{Bool, true, not, ◌&&◌, ◌||◌}
use mathlib.Core.List.{List, [], ◌∷◌}
use text.Mathlib.Text.{◌==◌, find?, is_lt}
use text.Mathlib.TextEquality.{eq_iff}
use native.Mathlib.Omega.{arith}
use arbiter_ai.Base.Tests.{leb, eqb, if◌then◌else◌, is_some}

abbrev alphabet : String
alphabet = "abcdefghijklmnopqrstuvwxyz"

lower_char : Char → Char
lower_char c = let k = code c in if leb b'A' k && leb k b'Z' then char_at alphabet (k - b'A') else c

-- `s.lower()`
unfoldable pub lower : String → String
unfolding lower_char
lower String.[] = String.[]
lower (String.◌∷◌ c s) = String.◌∷◌ (lower_char c) (lower s)

-- `t in s`
unfoldable pub contains : String → String → Bool
contains s t = is_some (find? s t)

pub same_text : (s t : String) → (s == t) ≡ true → s ≡ t
same_text s t h = ground (arith, h, eq_iff s t)

-- what follows a prefix
abbrev pub after : String → String → String
after s t = slice s (len t) (len s)

abbrev pub is_digit : Char → Bool
is_digit c = leb b'0' (code c) && leb (code c) b'9'

-- `\w`
abbrev pub is_word : Char → Bool
is_word c =
    let k = code c in
    is_digit c || (leb b'a' k && leb k b'z') || (leb b'A' k && leb k b'Z') || eqb k b'_'

-- `\b` behind a word character
abbrev pub at_word_end : String → Bool
at_word_end String.[] = true
at_word_end (String.◌∷◌ c s) = not (is_word c)

abbrev pub is_space : Char → Bool
is_space c =
    let k = code c in (leb 9 k && leb k 13) || (leb 28 k && leb k 32) || eqb k 133 || eqb k 160

module _ (drop : Char → Bool) where
  unfoldable pub strip_left : String → String
  strip_left String.[] = String.[]
  strip_left (String.◌∷◌ c s) = let rest = strip_left s in if drop c then rest else String.◌∷◌ c s

  strip_right : String → String
  strip_right String.[] = String.[]
  strip_right (String.◌∷◌ c s) =
      let rest = strip_right s in if drop c && rest == "" then String.[] else String.◌∷◌ c rest

-- `s.strip()`
unfoldable pub strip : String → String
unfolding strip_left strip_right
strip s = strip_right is_space (strip_left is_space s)

-- `s.strip('"')`
unfoldable pub strip_quotes : String → String
unfolding strip_left strip_right
strip_quotes s = strip_right (λ c. eqb (code c) b'"') (strip_left (λ c. eqb (code c) b'"') s)

-- `s.rstrip("/")`
unfoldable pub strip_slashes : String → String
unfolding strip_right
strip_slashes s = strip_right (λ c. eqb (code c) b'/') s

-- a text put into a sorted list without repetitions
insert_text : String → List String → List String
insert_text s [] = s ∷ []
insert_text s (t ∷ ts) =
    let later = t ∷ insert_text s ts in
    if s == t then t ∷ ts else if is_lt (compare s t) then s ∷ t ∷ ts else later

-- `sorted(set(texts))`
unfoldable pub sorted_set : List String → List String
unfolding insert_text
sorted_set [] = []
sorted_set (s ∷ ts) = insert_text s (sorted_set ts)

-- `s.replace(a, b)` of one character by a text
unfoldable pub replace_char : ℕ → String → String → String
replace_char a b String.[] = String.[]
replace_char a b (String.◌∷◌ c s) =
    let rest = replace_char a b s in if eqb (code c) a then b <> rest else String.◌∷◌ c rest

-- `s.split(",")`
split_from : String → String → List String
split_from piece String.[] = piece ∷ []
split_from piece (String.◌∷◌ c s) =
    let here = piece ∷ split_from "" s in
    let longer = split_from (piece <> String.◌∷◌ c String.[]) s in
    if eqb (code c) b',' then here else longer

unfoldable pub split_commas : String → List String
unfolding split_from
split_commas s = split_from "" s

-- `sep.join(parts)`
unfoldable pub join : String → List String → String
join sep [] = ""
join sep (s ∷ []) = s
join sep (s ∷ t ∷ rest) = s <> (sep <> join sep (t ∷ rest))

lower_example : lower "Rm -RF /Tmp" ≡ "rm -rf /tmp"
unfolding lower
lower_example = refl

strip_example : strip "  a b \t" ≡ "a b"
unfolding strip
strip_example = refl

split_example : split_commas "a,,b" ≡ "a" ∷ "" ∷ "b" ∷ []
unfolding split_commas
split_example = refl

join_example : join ", " ("a" ∷ "b" ∷ []) ≡ "a, b"
unfolding join
join_example = refl
