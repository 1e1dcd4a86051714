-- ===== src/Base/Decimal.antt =====
-- `str(n)` of a natural number, and the number that a text of digits spells.
use Prim.Native.Nat.{ℕ, zero, suc, ◌+◌, ◌-◌, ◌*◌, ◌/◌, ◌%◌}
use Prim.Native.Char.{code}
use mathlib.Core.Bool.{◌&&◌}
use mathlib.Core.Option.{Option, none, some}
use Prim.Native.String.{String, char_at, ◌++◌ as ◌<>◌}
use mathlib.Core.Path.{◌≡◌, refl}
use arbiter_ai.Base.Tests.{leb, ltb, if◌then◌else◌}

digit : ℕ → String
digit d = String.◌∷◌ (char_at "0123456789" d) String.[]

-- One round for each digit; a number has fewer digits than `suc n` rounds.
decimal_from : ℕ → ℕ → String
unfolding digit
decimal_from zero n = ""
decimal_from (suc fuel) n =
    let rest = decimal_from fuel (n / 10) <> digit (n % 10) in if ltb n 10 then digit n else rest

unfoldable pub decimal : ℕ → String
unfolding decimal_from
decimal n = decimal_from (suc n) n

decimal_example : decimal 1305 ≡ "1305"
unfolding decimal
decimal_example = refl

-- the digits of a text, read from the left
numeral_from : ℕ → String → Option ℕ
numeral_from n String.[] = some n
numeral_from n (String.◌∷◌ c s) =
    let rest = numeral_from (n * 10 + (code c - b'0')) s in
    if leb b'0' (code c) && leb (code c) b'9' then rest else none

-- The number that the text's digits spell. `int(s)` reads more texts, but none that is `str(n)`.
unfoldable pub numeral : String → Option ℕ
unfolding numeral_from
numeral s = numeral_from 0 s

numeral_example : numeral "443" ≡ some 443
unfolding numeral
numeral_example = refl
