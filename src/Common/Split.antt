-- ===== src/Common/Split.antt =====
-- `str.split(sep, 1)` at a character, and what follows a prefix.
use Prim.Native.Nat.{ℕ}
use Prim.Native.Char.{Char, code}
use Prim.Native.String.{String, ◌++◌}
use mathlib.Core.Path.{◌≡◌, refl, ap}
use mathlib.Core.Bool.{Bool, true, false, not, ◌||◌}
use mathlib.Core.Option.{Option, none, some, some-injective}
use mathlib.Core.List.{List, [], ◌∷◌}
use mathlib.Core.Logic.{inl, inr}
use native.Mathlib.Omega.{arith}
use text.Mathlib.TextEquality.{Char-path}
use text.Mathlib.TextLemmas.{cons-append, nil-append}
use events_api.Common.Tests.{eqb, Bool-cases, if◌then◌else◌}
use events_api.Common.Text.{any_char}

abbrev pub cons_first : Char → Option (String × String) → Option (String × String)
cons_first c none = none
cons_first c (some (k, v)) = some (String.◌∷◌ c k, v)

-- `s.split(sep, 1)` where the separator is in `s`, and `none` where it is not.
unfoldable pub split_once : ℕ → String → Option (String × String)
split_once sep String.[] = none
split_once sep (String.◌∷◌ c s) =
    let rest = split_once sep s in if eqb (code c) sep then some ("", s) else cons_first c rest

-- `s[len(p):]` where `s.startswith(p)`, and `none` where it does not.
unfoldable pub after_prefix : String → String → Option String
after_prefix String.[] s = some s
after_prefix (String.◌∷◌ c p) String.[] = none
after_prefix (String.◌∷◌ c p) (String.◌∷◌ d s) =
    let rest = after_prefix p s in if eqb (code c) (code d) then rest else none

abbrev pub is_some {ℓ} : {A : Type ℓ} → Option A → Bool
is_some none = false
is_some (some a) = true

-- `s.startswith(p)`
abbrev pub starts_with : String → String → Bool
starts_with p s = is_some (after_prefix p s)

abbrev pub has_char : ℕ → String → Bool
has_char sep s = any_char (λ c. eqb c sep) s

-- A text without the separator, the separator and a rest are split there.
pub split_once-append :
    (c : Char) (k v : String)
    → has_char (code c) k ≡ false
    → split_once (code c) (k ++ String.◌∷◌ c v) ≡ some (k, v)
unfolding split_once any_char
split_once-append c String.[] v h = rw (nil-append (String.◌∷◌ c v)) (ground arith)
split_once-append c (String.◌∷◌ d k) v h =
    rw (cons-append d k (String.◌∷◌ c v)) (ground (arith, split_once-append c k v))

-- A text without the separator is not split.
pub split_once-none : (sep : ℕ) (s : String) → has_char sep s ≡ false → split_once sep s ≡ none
unfolding split_once any_char
split_once-none sep String.[] h = refl
split_once-none sep (String.◌∷◌ c s) h = ground (arith, split_once-none sep s)

pub has_char-append :
    (sep : ℕ) (s t : String) → has_char sep (s ++ t) ≡ (has_char sep s || has_char sep t)
unfolding any_char
has_char-append sep String.[] t = rw (nil-append t) refl
has_char-append sep (String.◌∷◌ c s) t =
    rw (cons-append c s t) (ground (arith, has_char-append sep s t))

pub after_prefix-append : (p s : String) → after_prefix p (p ++ s) ≡ some s
unfolding after_prefix
after_prefix-append String.[] s = rw (nil-append s) refl
after_prefix-append (String.◌∷◌ c p) s =
    rw (cons-append c p s) (ground (arith, after_prefix-append p s))

eqb→eq : (m n : ℕ) → eqb m n ≡ true → m ≡ n
eqb→eq m n h = ground arith

pub after_prefix_sound : (p s r : String) → after_prefix p s ≡ some r → s ≡ p ++ r
unfolding after_prefix
after_prefix_sound String.[] s r h = rw (nil-append r) (some-injective s r h)
after_prefix_sound (String.◌∷◌ c p) String.[] r h = ground arith
after_prefix_sound (String.◌∷◌ c p) (String.◌∷◌ d s) r h =
    rw (cons-append c p r) (elim (Bool-cases (eqb (code c) (code d))) [
      | inl same ↦
          rw (Char-path c d (eqb→eq (code c) (code d) same))
            (ap (λ u. String.◌∷◌ d u) (after_prefix_sound p s r (rest same)))
      | inr other ↦ ground (arith, other)
    ])
  where
    rest : eqb (code c) (code d) ≡ true → after_prefix p s ≡ some r
    rest same = ground (arith, same)

-- A text without a character that the prefix has does not start with it.
pub after_prefix-none :
    (k : ℕ) (p s : String) → has_char k p ≡ true → has_char k s ≡ false → after_prefix p s ≡ none
unfolding after_prefix any_char
after_prefix-none k String.[] s h g = ground arith
after_prefix-none k (String.◌∷◌ c p) String.[] h g = refl
after_prefix-none k (String.◌∷◌ c p) (String.◌∷◌ d s) h g = ground (arith, after_prefix-none k p s)

-- `s.split(p)[0]`, where `p` is not empty
unfoldable pub up_to : String → String → String
up_to p String.[] = ""
up_to p (String.◌∷◌ c s) =
    let rest = up_to p s in if starts_with p (String.◌∷◌ c s) then "" else String.◌∷◌ c rest

pub up_to-whole :
    (k : ℕ) (p s : String) → has_char k p ≡ true → has_char k s ≡ false → up_to p s ≡ s
unfolding up_to any_char
up_to-whole k p String.[] h g = refl
up_to-whole k p (String.◌∷◌ c s) h g =
    rw (after_prefix-none k p (String.◌∷◌ c s) h g)
      (ap (λ u. String.◌∷◌ c u) (up_to-whole k p s h rest))
  where
    rest : has_char k s ≡ false
    rest = ground (arith, g)

-- The texts differ at a position that both have.
unfoldable pub departs : String → String → Bool
departs String.[] s = false
departs (String.◌∷◌ c p) String.[] = false
departs (String.◌∷◌ c p) (String.◌∷◌ d s) = not (eqb (code c) (code d)) || departs p s

pub after_prefix-departs :
    (p s rest : String) → departs p s ≡ true → after_prefix p (s ++ rest) ≡ none
unfolding after_prefix departs
after_prefix-departs String.[] s rest h = ground arith
after_prefix-departs (String.◌∷◌ c p) String.[] rest h = ground arith
after_prefix-departs (String.◌∷◌ c p) (String.◌∷◌ d s) rest h =
    rw (cons-append d s rest) (ground (arith, after_prefix-departs p s rest))

abbrev pub on_first : (String → String) → List String → List String
on_first f [] = f "" ∷ []
on_first f (s ∷ ss) = f s ∷ ss

-- `s.split(sep)`, at a character
unfoldable pub split_all : ℕ → String → List String
split_all sep String.[] = "" ∷ []
split_all sep (String.◌∷◌ c s) =
    let rest = split_all sep s in
    if eqb (code c) sep then "" ∷ rest else on_first (λ t. String.◌∷◌ c t) rest

pub split_all-none :
    (c : Char) (s : String) → has_char (code c) s ≡ false → split_all (code c) s ≡ s ∷ []
unfolding split_all any_char
split_all-none c String.[] h = refl
split_all-none c (String.◌∷◌ d s) h = ground (arith, h, split_all-none c s)

pub split_all-append :
    (c : Char) (s t : String)
    → has_char (code c) s ≡ false
    → split_all (code c) (s ++ String.◌∷◌ c t) ≡ s ∷ split_all (code c) t
unfolding split_all any_char
split_all-append c String.[] t h = rw (nil-append (String.◌∷◌ c t)) (ground arith)
split_all-append c (String.◌∷◌ d s) t h =
    rw (cons-append d s (String.◌∷◌ c t)) (ground (arith, h, split_all-append c s t))
