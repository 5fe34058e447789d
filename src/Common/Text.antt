-- ===== src/Common/Text.antt =====
-- What the program uses of Python's `str`: `str(n)`, `strip`, tests on characters.
pub mod Numbers
pub mod Strip
use Prim.Native.Nat.{ℕ, zero, suc, ◌+◌, ◌-◌, ◌*◌, ◌/◌, ◌%◌}
use Prim.Native.Char.{code}
use Prim.Native.String.{String, ◌++◌}
use mathlib.Core.Bool.{Bool, true, false, ◌&&◌, ◌||◌}
use mathlib.Core.Option.{Option, none, some}
use events_api.Common.Int.{ℤ, pos, negsuc}
use events_api.Common.Tests.{ltb, leb, eqb, if◌then◌else◌}
use text.Mathlib.Text.{◌==◌}

-- `any(p(c) for c in s)`
unfoldable pub any_char : (ℕ → Bool) → String → Bool
any_char p String.[] = false
any_char p (String.◌∷◌ c s) = p (code c) || any_char p s

-- `str.isspace` of one character.
unfoldable pub is_space : ℕ → Bool
is_space c =
    (leb 9 c && leb c 13)
    || (leb 28 c && leb c 32)
    || eqb c 0x85
    || eqb c 0xa0
    || eqb c 0x1680
    || (leb 0x2000 c && leb c 0x200a)
    || eqb c 0x2028
    || eqb c 0x2029
    || eqb c 0x202f
    || eqb c 0x205f
    || eqb c 0x3000

unfoldable pub lstrip : String → String
unfolding is_space
lstrip String.[] = ""
lstrip (String.◌∷◌ c s) = let rest = lstrip s in if is_space (code c) then rest else String.◌∷◌ c s

unfoldable pub rstrip : String → String
unfolding is_space
rstrip String.[] = ""
rstrip (String.◌∷◌ c s) =
    let rest = rstrip s in if rest == "" && is_space (code c) then "" else String.◌∷◌ c rest

-- `s.strip()`
unfoldable pub strip : String → String
unfolding lstrip rstrip
strip s = rstrip (lstrip s)

digit : ℕ → String
digit zero = "0"
digit (suc zero) = "1"
digit (suc (suc zero)) = "2"
digit (suc (suc (suc zero))) = "3"
digit (suc (suc (suc (suc zero)))) = "4"
digit (suc (suc (suc (suc (suc zero))))) = "5"
digit (suc (suc (suc (suc (suc (suc zero)))))) = "6"
digit (suc (suc (suc (suc (suc (suc (suc zero))))))) = "7"
digit (suc (suc (suc (suc (suc (suc (suc (suc zero)))))))) = "8"
digit n = "9"

decimal_fuel : ℕ → ℕ → String
unfolding digit
decimal_fuel zero n = ""
decimal_fuel (suc f) n =
    let rest = decimal_fuel f (n / 10) in if ltb n 10 then digit n else rest ++ digit (n % 10)

-- `str(n)`: a number has at most `n + 1` digits, so the fuel never runs out.
unfoldable pub decimal : ℕ → String
unfolding decimal_fuel
decimal n = decimal_fuel (suc n) n

-- `str(n)`
unfoldable pub str_int : ℤ → String
unfolding decimal
str_int (pos n) = decimal n
str_int (negsuc n) = "-" ++ decimal (suc n)

-- The digits of `int(s)`, with single underscores between digits; `after_digit` says whether the
-- last character was one. `digit_of` gives the value of a decimal digit.
int_digits : (ℕ → Option ℕ) → Bool → ℕ → String → Option ℕ
int_digits digit_of after_digit acc String.[] = if after_digit then some acc else none
int_digits digit_of after_digit acc (String.◌∷◌ c s) = elim (digit_of (code c)) [
  | none ↦ if after_digit && eqb (code c) b'_' then int_digits digit_of false acc s else none
  | some d ↦ int_digits digit_of true (acc * 10 + d) s
]

signed : (ℕ → ℤ) → Option ℕ → Option ℤ
signed sign none = none
signed sign (some n) = some (sign n)

abbrev minus : ℕ → ℤ
minus zero = pos 0
minus (suc n) = negsuc n

int_signed : (ℕ → Option ℕ) → String → Option ℤ
unfolding int_digits signed
int_signed digit_of String.[] = none
int_signed digit_of (String.◌∷◌ c s) =
    if eqb (code c) b'+'
    then signed pos (int_digits digit_of false 0 s)
    else if eqb (code c) b'-'
    then signed minus (int_digits digit_of false 0 s)
    else signed pos (int_digits digit_of false 0 (String.◌∷◌ c s))

-- `int(s)` of a text, `none` where it raises `ValueError`. Not modelled: CPython's limit of 4,300
-- digits.
unfoldable pub parse_int : (ℕ → Option ℕ) → String → Option ℤ
unfolding strip int_signed
parse_int digit_of s = int_signed digit_of (strip s)

-- The decimal digits of Python: the ASCII ones, and those that the Unicode tables add.
unfoldable pub digit_value : (ℕ → Option ℕ) → ℕ → Option ℕ
digit_value unicode_digit c =
    if leb 48 c && leb c 57 then some (c - 48) else if ltb c 128 then none else unicode_digit c
