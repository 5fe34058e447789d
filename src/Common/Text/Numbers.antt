-- ===== src/Common/Text/Numbers.antt =====
-- `int(str(n))` gives `n` back.
use Prim.Native.Nat.{ℕ, zero, suc, ◌+◌, ◌*◌, ◌/◌, ◌%◌, ◌≤◌, ◌<◌}
use Prim.Native.Char.{Char, code}
use Prim.Native.String.{String, ◌++◌}
use mathlib.Core.Path.{◌≡◌, refl, sym, ap, ◌∙◌}
use mathlib.Core.Bool.{Bool, true, false, ◌||◌}
use mathlib.Core.Logic.{inl, inr}
use mathlib.Core.Option.{Option, none, some}
use native.Mathlib.Omega.{arith}
use text.Mathlib.Text.{◌==◌}
use text.Mathlib.TextEquality.{eq_iff}
use text.Mathlib.TextLemmas.{cons-append, nil-append, append_assoc, append-nil}
use events_api.Common.Int.{ℤ, pos, negsuc}
use events_api.Common.Tests.{ltb, if◌then◌else◌, Bool-cases, ltb→lt}
use events_api.Common.Text.{
  any_char, is_space, lstrip, rstrip, strip, digit, decimal_fuel, decimal, str_int, int_digits,
  signed, int_signed, parse_int, digit_value,
}

-- A text that begins with the character of a digit.
abbrev Begins : ℕ → String → String → Type 0
Begins d s rest = (c : Char) × (s ++ rest ≡ String.◌∷◌ c rest) × (code c ≡ 48 + d)

begins : (c : Char) (rest : String) → (String.◌∷◌ c "") ++ rest ≡ String.◌∷◌ c rest
begins c rest = cons-append c "" rest ∙ ap (String.◌∷◌ c) (nil-append rest)

digit-Begins : (d : ℕ) (rest : String) → d < 10 → Begins d (digit d) rest
unfolding digit
digit-Begins zero rest h = ("0", begins "0" rest, refl)
digit-Begins (suc zero) rest h = ("1", begins "1" rest, refl)
digit-Begins (suc (suc zero)) rest h = ("2", begins "2" rest, refl)
digit-Begins (suc (suc (suc zero))) rest h = ("3", begins "3" rest, refl)
digit-Begins (suc (suc (suc (suc zero)))) rest h = ("4", begins "4" rest, refl)
digit-Begins (suc (suc (suc (suc (suc zero))))) rest h = ("5", begins "5" rest, refl)
digit-Begins (suc (suc (suc (suc (suc (suc zero)))))) rest h = ("6", begins "6" rest, refl)
digit-Begins (suc (suc (suc (suc (suc (suc (suc zero))))))) rest h = ("7", begins "7" rest, refl)
digit-Begins (suc (suc (suc (suc (suc (suc (suc (suc zero)))))))) rest h =
    ("8", begins "8" rest, refl)
digit-Begins (suc (suc (suc (suc (suc (suc (suc (suc (suc zero))))))))) rest h =
    ("9", begins "9" rest, refl)
digit-Begins (suc (suc (suc (suc (suc (suc (suc (suc (suc (suc n)))))))))) rest h =
    absurd (omega arith)

-- The power of ten by which the digits of `n` shift what stands before them.
scale : ℕ → ℕ → ℕ
scale zero n = 1
scale (suc f) n = let rest = scale f (n / 10) in if ltb n 10 then 10 else rest * 10

module _ (unicode_digit : ℕ → Option ℕ) where
  digit_value-digit : (d c : ℕ) → d < 10 → c ≡ 48 + d → digit_value unicode_digit c ≡ some d
  unfolding digit_value
  digit_value-digit d c h k = ground arith

  int_digits-cons :
      (c : Char) (d acc : ℕ) (b : Bool) (rest : String)
      → digit_value unicode_digit (code c) ≡ some d
      → int_digits (digit_value unicode_digit) b acc (String.◌∷◌ c rest)
        ≡ int_digits (digit_value unicode_digit) true (acc * 10 + d) rest
  unfolding int_digits
  int_digits-cons c d acc b rest h = rw (h, int_digits)

  int_digits-digit :
      (d acc : ℕ) (b : Bool) (rest : String)
      → d < 10
      → int_digits (digit_value unicode_digit) b acc (digit d ++ rest)
        ≡ int_digits (digit_value unicode_digit) true (acc * 10 + d) rest
  int_digits-digit d acc b rest h =
      let (c, e, k) = digit-Begins d rest h in
      rw e (int_digits-cons c d acc b rest (digit_value-digit d (code c) h k))

  shifted : (acc s n : ℕ) → (acc * s + n / 10) * 10 + n % 10 ≡ acc * (s * 10) + n
  shifted acc s n = omega arith

  int_digits-decimal :
      (f n acc : ℕ) (b : Bool) (rest : String)
      → n < f
      → int_digits (digit_value unicode_digit) b acc (decimal_fuel f n ++ rest)
        ≡ int_digits (digit_value unicode_digit) true (acc * scale f n + n) rest
  unfolding decimal_fuel scale
  int_digits-decimal zero n acc b rest h = elim h [ ]
  int_digits-decimal (suc f) n acc b rest h = elim (Bool-cases (ltb n 10)) [
    | inl small ↦ rw small (int_digits-digit n acc b rest (ground arith))
    | inr big ↦ rw (
      big,
      append_assoc (decimal_fuel f (n / 10)) (digit (n % 10)) rest,
      int_digits-decimal f (n / 10) acc b (digit (n % 10) ++ rest) (ground arith),
      int_digits-digit (n % 10) (acc * scale f (n / 10) + n / 10) true rest (omega arith),
      shifted acc (scale f (n / 10)) n,
    )
  ]

  -- The digits of a number are read back.
  int_digits-str : (n : ℕ) → int_digits (digit_value unicode_digit) false 0 (decimal n) ≡ some n
  unfolding decimal
  int_digits-str n =
      rw
        (
          ← append-nil (decimal_fuel (suc n) n),
          int_digits-decimal (suc n) n 0 false "" (omega arith),
        )
        (unfold int_digits in ap some (omega arith))

-- A number's digits begin with a digit, and hold no white space.
abbrev Headed : String → String → Type 0
Headed s rest =
    (c : Char) × (t : String) × (s ++ rest ≡ String.◌∷◌ c t) × (48 ≤ code c) × (code c ≤ 57)

decimal-Headed : (f n : ℕ) (rest : String) → n < f → Headed (decimal_fuel f n) rest
unfolding decimal_fuel
decimal-Headed zero n rest h = elim h [ ]
decimal-Headed (suc f) n rest h = elim (Bool-cases (ltb n 10)) [
  | inl small ↦ rw small (
      let below = ltb→lt n 10 small in
      let (c, e, k) = digit-Begins n rest below in (c, rest, e, omega arith, omega arith))
  | inr big ↦
      rw (big, append_assoc (decimal_fuel f (n / 10)) (digit (n % 10)) rest)
        (decimal-Headed f (n / 10) (digit (n % 10) ++ rest) (ground arith))
]

any_char-append :
    (p : ℕ → Bool) (s t : String) → any_char p (s ++ t) ≡ (any_char p s || any_char p t)
unfolding any_char
any_char-append p String.[] t = rw nil-append
any_char-append p (String.◌∷◌ c s) t = rw (cons-append c s t, any_char-append p s t) (ground arith)

digit-no-space : (d : ℕ) → d < 10 → any_char is_space (digit d) ≡ false
unfolding any_char is_space
digit-no-space d h =
    let (c, e, k) = digit-Begins d "" h in rw (← append-nil (digit d), e, k) (ground arith)

lstrip-no-space : (s : String) → any_char is_space s ≡ false → lstrip s ≡ s
unfolding lstrip any_char
lstrip-no-space String.[] h = refl
lstrip-no-space (String.◌∷◌ c s) h = ground arith

rstrip-no-space : (s : String) → any_char is_space s ≡ false → rstrip s ≡ s
unfolding rstrip any_char
rstrip-no-space String.[] h = refl
rstrip-no-space (String.◌∷◌ c s) h = rw (rstrip-no-space s (ground arith)) (ground arith)

decimal-no-space : (f n : ℕ) → any_char is_space (decimal_fuel f n) ≡ false
unfolding decimal_fuel any_char
decimal-no-space zero n = refl
decimal-no-space (suc f) n = elim (Bool-cases (ltb n 10)) [
  | inl small ↦ rw small (digit-no-space n (ltb→lt n 10 small))
  | inr big ↦ rw (
    big,
    any_char-append is_space (decimal_fuel f (n / 10)) (digit (n % 10)),
    decimal-no-space f (n / 10),
    digit-no-space (n % 10) (omega arith),
  )
]

strip-no-space : (s : String) → any_char is_space s ≡ false → strip s ≡ s
unfolding strip
strip-no-space s h = rw (lstrip-no-space s h, rstrip-no-space s h)

module _ (unicode_digit : ℕ → Option ℕ) where
  -- A digit at the head is no sign.
  int_signed-digit :
      (c : Char) (t : String)
      → 48 ≤ code c
      → int_signed (digit_value unicode_digit) (String.◌∷◌ c t)
        ≡ signed pos (int_digits (digit_value unicode_digit) false 0 (String.◌∷◌ c t))
  unfolding int_signed
  int_signed-digit c t h = ground arith

  int_signed-str : (n : ℕ) → int_signed (digit_value unicode_digit) (decimal n) ≡ some (pos n)
  unfolding decimal signed
  int_signed-str n =
      let (c, t, e, low, high) = decimal-Headed (suc n) n "" (omega arith) in
      let e' : decimal n ≡ String.◌∷◌ c t = sym (append-nil (decimal_fuel (suc n) n)) ∙ e in
      ap (int_signed (digit_value unicode_digit)) e'
      ∙ (int_signed-digit c t low
          ∙ (ap (λ z. signed pos (int_digits (digit_value unicode_digit) false 0 z)) (sym e')
              ∙ ap (signed pos) (int_digits-str unicode_digit n)))

  int_signed-minus :
      (n : ℕ) → int_signed (digit_value unicode_digit) ("-" ++ decimal (suc n)) ≡ some (negsuc n)
  unfolding int_signed
  int_signed-minus n =
      rw (begins "-" (decimal (suc n)), int_digits-str unicode_digit (suc n))
        (unfold signed in refl)

  str_int-no-space : (n : ℤ) → any_char is_space (str_int n) ≡ false
  unfolding str_int decimal any_char is_space
  str_int-no-space (pos n) = decimal-no-space (suc n) n
  str_int-no-space (negsuc n) =
      rw (begins "-" (decimal_fuel (suc (suc n)) (suc n))) (decimal-no-space (suc (suc n)) (suc n))

  -- `int(str(n)) == n`, whatever the Unicode tables hold.
  pub parse_int-str_int : (n : ℤ) → parse_int (digit_value unicode_digit) (str_int n) ≡ some n
  unfolding parse_int
  parse_int-str_int n =
      ap (int_signed (digit_value unicode_digit)) (strip-no-space _ (str_int-no-space n))
      ∙ by_sign n
    where
      by_sign : (m : ℤ) → int_signed (digit_value unicode_digit) (str_int m) ≡ some m
      by_sign (pos m) = unfold str_int in int_signed-str m
      by_sign (negsuc m) = unfold str_int in int_signed-minus m

-- `str` of a number is never the empty text.
pub str_int-ne-empty : (n : ℤ) → (str_int n == "") ≡ false
unfolding parse_int
str_int-ne-empty n = elim (Bool-cases (str_int n == "")) [
  | inl e ↦
      let no_tables : ℕ → Option ℕ = λ _. none in
      let empty : str_int n ≡ "" = (eq_iff (str_int n) "").0 e in
      let read : parse_int (digit_value no_tables) "" ≡ some n =
        ap (parse_int (digit_value no_tables)) (sym empty) ∙ parse_int-str_int no_tables n in
      cc
  | inr e ↦ e
]

-- Two integers that are written alike are the same.
pub str_int-injective : (m n : ℤ) → str_int m ≡ str_int n → m ≡ n
str_int-injective m n e = some_inj (
    sym (parse_int-str_int (λ c. none) m)
    ∙ (ap (parse_int (digit_value (λ c. none))) e ∙ parse_int-str_int (λ c. none) n))
  where
    some_inj : some m ≡ some n → m ≡ n
    some_inj h = cc
