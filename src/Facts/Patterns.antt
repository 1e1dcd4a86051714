-- ===== src/Facts/Patterns.antt =====
-- The regular expressions of arbiter/facts.py, as passes over the characters of a text.
use Prim.Native.Char.{Char, code}
use arbiter_ai.Base.{
  ℕ, ◌+◌, ◌-◌, ◌*◌, ◌%◌, String, ◌≡◌, refl, Bool, true, false, not, ◌&&◌, ◌||◌, Option, none, some,
  List, [], ◌∷◌, ◌<>◌, ◌==◌, starts_with, eqb, if◌then◌else◌,
}
use arbiter_ai.Base.Text.{is_space, is_digit, is_word, after}

-- `\b` between the character behind (none at the start) and the text ahead
abbrev starts_word : String → Bool
starts_word String.[] = false
starts_word (String.◌∷◌ c s) = is_word c

unfoldable pub boundary : Bool → String → Bool
boundary behind s = if behind then not (starts_word s) else starts_word s

-- the last character of a text that is not empty is a word character
ends_word : Bool → String → Bool
ends_word last String.[] = last
ends_word last (String.◌∷◌ c s) = ends_word (is_word c) s

-- `re.search(rf"\b{re.escape(want)}\b", s)`, from a place with that kind of character behind
word_from : Bool → String → String → Bool
unfolding boundary ends_word
word_from behind want String.[] = want == "" && boundary behind "" && boundary behind ""
word_from behind want (String.◌∷◌ c s) =
    let here = String.◌∷◌ c s in
    let ahead = after here want in
    (boundary behind here && starts_with here want && boundary (ends_word behind want) ahead)
    || word_from (is_word c) want s

unfoldable pub find_word : String → String → Bool
unfolding word_from
find_word want s = word_from false want s

-- `[\w.\-]`
abbrev is_name : Char → Bool
is_name c = is_word c || eqb (code c) b'.' || eqb (code c) b'-'

-- `[\s'\"=:]`
abbrev is_delimiter : Char → Bool
is_delimiter c =
    is_space c || eqb (code c) 39 || eqb (code c) b'"' || eqb (code c) b'=' || eqb (code c) b':'

-- Where `_PATH_RE` stands in a pass over a text: outside a path, with or without a delimiter behind;
-- behind a slash, with the segments before it; inside a segment.
pub data PathState : Type 0 where
  outside : Bool → PathState
  slash : String → PathState
  segment : String → PathState

next_state : PathState → Char → PathState
next_state (outside d) c = if d && eqb (code c) b'/' then slash "" else outside (is_delimiter c)
next_state (slash base) c =
    if is_name c
    then segment (base <> ("/" <> String.◌∷◌ c String.[]))
    else outside (is_delimiter c)
next_state (segment p) c =
    if is_name c
    then segment (p <> String.◌∷◌ c String.[])
    else if eqb (code c) b'/'
    then slash p
    else outside (is_delimiter c)

-- the path that ends in front of the character, if one does
ended : PathState → Option Char → Option String
ended (outside d) c = none
ended (slash base) (some c) = if is_name c || base == "" then none else some (base <> "/")
ended (slash base) none = if base == "" then none else some (base <> "/")
ended (segment p) (some c) = if is_name c || eqb (code c) b'/' then none else some p
ended (segment p) none = some p

abbrev emit : Option String → List String → List String
emit none ps = ps
emit (some p) ps = p ∷ ps

paths_from : PathState → String → List String
unfolding next_state ended
paths_from st String.[] = emit (ended st none) []
paths_from st (String.◌∷◌ c s) =
    let rest = paths_from (next_state st c) s in emit (ended st (some c)) rest

-- `[m.group(1) for m in _PATH_RE.finditer(s)]`
unfoldable pub paths_in : String → List String
unfolding paths_from
paths_in = paths_from (outside true)

-- `int(hh) % 24 * 60 + int(mm)`
unfoldable pub minutes : ℕ → ℕ → ℕ
minutes hh mm = hh % 24 * 60 + mm

abbrev digit_value : Char → ℕ
digit_value c = code c - b'0'

-- `(\d{2})` and the text behind it
two_digits : String → Option (ℕ × String)
two_digits (String.◌∷◌ a (String.◌∷◌ b s)) =
    if is_digit a && is_digit b then some (digit_value a * 10 + digit_value b, s) else none
two_digits _ = none

-- `(\d{1,2}):` and the text behind it: with a colon behind them the digits are decided
hour : String → Option (ℕ × String)
hour (String.◌∷◌ a (String.◌∷◌ b String.[])) =
    if is_digit a && eqb (code b) b':' then some (digit_value a, String.[]) else none
hour (String.◌∷◌ a (String.◌∷◌ b (String.◌∷◌ c s))) =
    if is_digit a && eqb (code b) b':'
    then some (digit_value a, String.◌∷◌ c s)
    else if is_digit a && is_digit b && eqb (code c) b':'
    then some (digit_value a * 10 + digit_value b, s)
    else none
hour _ = none

-- `(\d{1,2}):(\d{2})`
unfoldable pub clock : String → Option (ℕ × String)
unfolding hour two_digits minutes
clock s = elim (hour s) [
  | none ↦ none
  | some (hh, rest) ↦ elim (two_digits rest) [
    | none ↦ none
    | some (mm, end) ↦ some (minutes hh mm, end)
  ]
]

-- `\bat (\d{1,2}):(\d{2})\b` at a place of the text
clock_here : Bool → String → Option ℕ
unfolding clock boundary
clock_here behind s =
    let found : Option ℕ = elim (clock (after s "at ")) [
      | none ↦ none
      | some (t, end) ↦ if boundary true end then some t else none
    ] in
    if boundary behind s && starts_with s "at " then found else none

clock_from : Bool → String → Option ℕ
unfolding clock_here
clock_from behind String.[] = none
clock_from behind (String.◌∷◌ c s) =
    let later = clock_from (is_word c) s in
    elim (clock_here behind (String.◌∷◌ c s)) [ none ↦ later | some t ↦ some t ]

-- `_TIME_RE.search(message)` as minutes of the day
unfoldable pub message_minutes : String → Option ℕ
unfolding clock_from
message_minutes = clock_from false

stamp_here : String → Option ℕ
unfolding two_digits minutes
stamp_here s = elim (two_digits (after s "T")) [
  | none ↦ none
  | some (hh, rest) ↦ elim (two_digits (after rest ":")) [
    | none ↦ none
    | some (mm, end) ↦
        if starts_with s "T" && starts_with rest ":" then some (minutes hh mm) else none
  ]
]

-- `re.search(r"T(\d{2}):(\d{2})", timestamp)` as minutes of the day
unfoldable pub stamp_minutes : String → Option ℕ
unfolding stamp_here
stamp_minutes String.[] = none
stamp_minutes (String.◌∷◌ c s) =
    let later = stamp_minutes s in
    elim (stamp_here (String.◌∷◌ c s)) [ none ↦ later | some t ↦ some t ]

-- `re.fullmatch(r"(\d{1,2}):(\d{2})-(\d{1,2}):(\d{2})", window)` as two times of the day
unfoldable pub window_bounds : String → Option (ℕ × ℕ)
unfolding clock
window_bounds s = elim (clock s) [
  | none ↦ none
  | some (start, rest) ↦ elim (clock (after rest "-")) [
    | none ↦ none
    | some (end, tail) ↦ if starts_with rest "-" && tail == "" then some (start, end) else none
  ]
]

patterns_example :
    (find_word "root" "user root logged in" ≡ true)
    × (find_word "root" "rooted" ≡ false)
    × (paths_in "read /etc/passwd and x=/var/log/, not a/b" ≡ "/etc/passwd" ∷ "/var/log/" ∷ [])
    × (message_minutes "dump at 02:05." ≡ some 125)
    × (message_minutes "at 02:055" ≡ none)
    × (stamp_minutes "2026-01-02T23:10:00+00:00" ≡ some 1390)
    × (window_bounds "22:00-2:30" ≡ some (1320, 150))
unfolding find_word paths_in message_minutes stamp_minutes window_bounds
patterns_example = (refl, refl, refl, refl, refl, refl, refl)
