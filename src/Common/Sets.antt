-- ===== src/Common/Sets.antt =====
-- Python's sets of texts as lists without repetition, and what they hold.
use mathlib.Core.Path.{◌≡◌, refl}
use mathlib.Core.Logic.{inl, inr}
use mathlib.Core.Bool.{not, ◌&&◌, ◌||◌}
use mathlib.Core.List.{List, [], ◌∷◌, ◌++◌}
use Prim.Native.String.{String}
use native.Mathlib.Omega.{arith}
use text.Mathlib.TextEquality.{eq_iff}
use events_api.Common.Lists.{elem, Distinct}
use events_api.Common.Tests.{if◌then◌else◌, Bool-cases}

-- `set(xs)`
unfoldable pub dedupe : List String → List String
dedupe [] = []
dedupe (x ∷ xs) = let rest = dedupe xs in if elem x xs then rest else x ∷ rest

-- `xs - ys`
unfoldable pub difference : List String → List String → List String
difference [] ys = []
difference (x ∷ xs) ys = let rest = difference xs ys in if elem x ys then rest else x ∷ rest

pub elem-dedupe : (x : String) (xs : List String) → elem x (dedupe xs) ≡ elem x xs
unfolding dedupe
elem-dedupe x [] = refl
elem-dedupe x (y ∷ ys) = ground (arith, elem-dedupe x ys, eq_iff y x)

pub dedupe-Distinct : (xs : List String) → Distinct (dedupe xs)
unfolding dedupe
dedupe-Distinct [] = tt
dedupe-Distinct (x ∷ xs) = elim (Bool-cases (elem x xs)) [
  | inl old ↦ rw old (dedupe-Distinct xs)
  | inr new ↦ rw new (rw (elem-dedupe x xs) new, dedupe-Distinct xs)
]

pub elem-difference :
    (x : String) (xs ys : List String) → elem x (difference xs ys) ≡ (elem x xs && not (elem x ys))
unfolding difference
elem-difference x [] ys = refl
elem-difference x (y ∷ xs) ys = ground (arith, elem-difference x xs ys, eq_iff y x)

pub difference-Distinct : (xs ys : List String) → Distinct xs → Distinct (difference xs ys)
unfolding difference
difference-Distinct [] ys h = tt
difference-Distinct (x ∷ xs) ys h = elim (Bool-cases (elem x ys)) [
  | inl there ↦ rw there (difference-Distinct xs ys h.1)
  | inr free ↦ rw free (rw (elem-difference x xs ys, h.0) refl, difference-Distinct xs ys h.1)
]

pub elem-append : (x : String) (xs ys : List String) → elem x (xs ++ ys) ≡ (elem x xs || elem x ys)
elem-append x [] ys = refl
elem-append x (y ∷ xs) ys = ground (arith, elem-append x xs ys)
