-- ===== src/Common/Replace.antt =====
-- `str.replace`, for a text to replace that is not empty.
use Prim.Native.Nat.{ℕ, zero, suc}
use Prim.Native.Char.{Char}
use Prim.Native.String.{String, ◌++◌}
use mathlib.Core.Path.{◌≡◌, refl, ap}
use mathlib.Core.Bool.{Bool, true, false, ◌&&◌, ◌||◌}
use mathlib.Core.Option.{none, some}
use native.Mathlib.Omega.{arith}
use text.Mathlib.TextLemmas.{cons-append, nil-append}
use events_api.Common.Tests.{if◌then◌else◌}
use events_api.Common.Text.{any_char}
use events_api.Common.Split.{
  starts_with, has_char, departs, after_prefix, after_prefix-departs, after_prefix-none,
  after_prefix-append,
}

-- how many characters follow the first
abbrev size : String → ℕ
size String.[] = 0
size (String.◌∷◌ c s) = suc (size s)

abbrev tail_size : String → ℕ
tail_size String.[] = 0
tail_size (String.◌∷◌ c s) = size s

-- what `s.replace(old, new)` makes of a text of which the first characters belong to an occurrence
-- that is replaced already
unfoldable pub replace_after : ℕ → String → String → String → String
replace_after skip old new String.[] = ""
replace_after zero old new (String.◌∷◌ c s) =
    let after_found = replace_after (tail_size old) old new s in
    let kept = replace_after 0 old new s in
    if starts_with old (String.◌∷◌ c s) then new ++ after_found else String.◌∷◌ c kept
replace_after (suc n) old new (String.◌∷◌ c s) = replace_after n old new s

abbrev pub replace : String → String → String → String
replace old new s = replace_after 0 old new s

replace_after-skips :
    (p old new rest : String) → replace_after (size p) old new (p ++ rest) ≡ replace old new rest
unfolding replace_after
replace_after-skips String.[] old new rest = rw (nil-append rest) refl
replace_after-skips (String.◌∷◌ c p) old new rest =
    rw (cons-append c p rest) (replace_after-skips p old new rest)

-- The text that is replaced, at the beginning.
pub replace-found :
    (c : Char) (old new rest : String)
    → replace (String.◌∷◌ c old) new (String.◌∷◌ c old ++ rest)
      ≡ new ++ replace (String.◌∷◌ c old) new rest
unfolding replace_after
replace-found c old new rest =
    rw (cons-append c old rest, found, replace_after-skips old (String.◌∷◌ c old) new rest) refl
  where
    found : after_prefix (String.◌∷◌ c old) (String.◌∷◌ c (old ++ rest)) ≡ some rest
    found = rw⁻¹ (cons-append c old rest) (after_prefix-append (String.◌∷◌ c old) rest)

-- No occurrence begins in the text, whatever follows it.
unfoldable pub misses : String → String → Bool
misses old String.[] = true
misses old (String.◌∷◌ c s) = departs old (String.◌∷◌ c s) && misses old s

pub replace-misses :
    (old new p rest : String)
    → misses old p ≡ true
    → replace old new (p ++ rest) ≡ p ++ replace old new rest
unfolding replace_after misses
replace-misses old new String.[] rest h =
    rw (nil-append rest, nil-append (replace old new rest)) refl
replace-misses old new (String.◌∷◌ c p) rest h =
    rw (cons-append c p rest, cons-append c p (replace old new rest), missed)
      (ap (λ u. String.◌∷◌ c u) (replace-misses old new p rest (ground (arith, h))))
  where
    missed : after_prefix old (String.◌∷◌ c (p ++ rest)) ≡ none
    missed =
        rw⁻¹ (cons-append c p rest)
          (after_prefix-departs old (String.◌∷◌ c p) rest (ground (arith, h)))

or_false : (a b : Bool) → (a || b) ≡ false → (a ≡ false) × (b ≡ false)
or_false a b h = (ground (arith, h), ground (arith, h))

-- `old in s`
unfoldable pub contains : String → String → Bool
contains old String.[] = false
contains old (String.◌∷◌ c s) = starts_with old (String.◌∷◌ c s) || contains old s

-- A text without the text that is replaced stays as it is.
pub replace-absent : (old new s : String) → contains old s ≡ false → replace old new s ≡ s
unfolding replace_after contains
replace-absent old new String.[] h = refl
replace-absent old new (String.◌∷◌ c s) h =
    let (here, later) = or_false (starts_with old (String.◌∷◌ c s)) (contains old s) h in
    rw here (ap (λ u. String.◌∷◌ c u) (replace-absent old new s later))

pub contains-none :
    (k : ℕ) (old s : String) → has_char k old ≡ true → has_char k s ≡ false → contains old s ≡ false
unfolding contains any_char
contains-none k old String.[] h g = refl
contains-none k old (String.◌∷◌ c s) h g =
    rw (after_prefix-none k old (String.◌∷◌ c s) h g) (contains-none k old s h (ground (arith, g)))

-- A text without a character of the text that is replaced stays as it is.
pub replace-none :
    (k : ℕ) (old new s : String)
    → has_char k old ≡ true
    → has_char k s ≡ false
    → replace old new s ≡ s
replace-none k old new s h g = replace-absent old new s (contains-none k old s h g)
