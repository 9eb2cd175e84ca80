-- ===== src/Prelude/Numbers.antt =====
-- Whole numbers as Python prints and reads them: `str` and `int`, and the cut of `str.split`.
use Prim.Native.Char.{Char, char, code}
use Prim.Native.Nat.{ℕ, zero, suc, ◌+◌, ◌-◌, ◌*◌, ◌/◌, ◌%◌}
use Prim.Native.String
use Prim.Native.String.{String}
use mathlib.Core.Bool.{Bool, true, false, ◌&&◌}
use mathlib.Core.Option.{Option, none, some, map}
use data_nexus.Prelude.Tests.{if◌then◌else◌, leb, ltb, nat_eq, ◌==◌}
use data_nexus.Prelude.Strip.{strip}

-- The library's integers stand on another ℕ.
pub data ℤ : Type 0 where
  pos : ℕ → ℤ
  negsuc : ℕ → ℤ

unfoldable pub digit_char : ℕ → Char
digit_char d =
    if d == 0
    then char b'0' tt
    else if d == 1
    then char b'1' tt
    else if d == 2
    then char b'2' tt
    else if d == 3
    then char b'3' tt
    else if d == 4
    then char b'4' tt
    else if d == 5
    then char b'5' tt
    else if d == 6
    then char b'6' tt
    else if d == 7
    then char b'7' tt
    else if d == 8
    then char b'8' tt
    else char b'9' tt

-- The digits of a positive number before a text; a number has at most as many digits as its size.
unfoldable pub digits : ℕ → ℕ → String → String
unfolding digit_char
digits zero n out = out
digits (suc fuel) n out = elim (ltb 0 n) [
  | true ↦ digits fuel (n / 10) (String.◌∷◌ (digit_char (n % 10)) out)
  | false ↦ out
]

-- `str(n)`
unfoldable pub decimal : ℕ → String
unfolding digits
decimal zero = "0"
decimal (suc m) = digits (suc m) (suc m) ""

unfoldable pub show : ℤ → String
unfolding decimal
show (ℤ.pos n) = decimal n
show (ℤ.negsuc n) = String.◌++◌ "-" (decimal (suc n))

-- The value of a digit: an ASCII one here, another from Unicode's table.
unfoldable pub digit_value : (ℕ → Option ℕ) → ℕ → Option ℕ
digit_value unicode c =
    if leb b'0' c && leb c b'9' then some (c - b'0') else if ltb c 128 then none else unicode c

-- Reads digits with single underscores between them. CPython refuses more than 4300 digits.
unfoldable pub scan : (ℕ → Option ℕ) → String → ℕ → ℕ → Bool → Option ℕ
unfolding digit_value
scan unicode String.[] n k after = if after && leb k 4300 then some n else none
scan unicode (String.◌∷◌ c s) n k after = elim (digit_value unicode (code c)) [
  | some d ↦ scan unicode s (n * 10 + d) (suc k) true
  | none ↦ elim (code c == b'_' && after) [ true ↦ scan unicode s n k false | false ↦ none ]
]

abbrev negate : ℕ → ℤ
negate zero = ℤ.pos zero
negate (suc n) = ℤ.negsuc n

unfoldable pub signed : (ℕ → Option ℕ) → String → Option ℤ
unfolding scan
signed unicode String.[] = none
signed unicode (String.◌∷◌ c s) =
    if code c == b'-'
    then map negate (scan unicode s 0 0 false)
    else if code c == b'+'
    then map ℤ.pos (scan unicode s 0 0 false)
    else map ℤ.pos (scan unicode (String.◌∷◌ c s) 0 0 false)

-- `int(text)`; `none` is the `ValueError`.
unfoldable pub int_of : (ℕ → Option ℕ) → String → Option ℤ
unfolding signed
int_of unicode s = signed unicode (strip s)

-- `text.split(separator, 1)`: what stands before the first separator, and what stands after it.
unfoldable pub cut : ℕ → String → String × Option String
cut sep String.[] = ("", none)
cut sep (String.◌∷◌ c s) =
    let (before, after) = cut sep s in
    if code c == sep then ("", some s) else (String.◌∷◌ c before, after)

last_part : String → String × Option String → Option (String × String × String)
last_part a (b, none) = none
last_part a (b, some c) = some (a, b, c)

two_parts : String × Option String → Option (String × String × String)
unfolding cut last_part
two_parts (a, none) = none
two_parts (a, some rest) = last_part a (cut b'.' rest)

-- `a, b, c = text.split(".", 2)`; `none` is the `ValueError`.
unfoldable pub split3 : String → Option (String × String × String)
unfolding two_parts
split3 s = two_parts (cut b'.' s)
