-- ===== src/Common/Text/Strip.antt =====
-- `str.strip`: what it leaves begins and ends with no white space.
use Prim.Native.Char.{code}
use Prim.Native.String.{String}
use mathlib.Core.Path.{◌≡◌, refl}
use mathlib.Core.Logic.{inl, inr}
use mathlib.Core.Bool.{false, ◌&&◌}
use native.Mathlib.Omega.{arith}
use text.Mathlib.Text.{◌==◌}
use events_api.Common.Tests.{Bool-cases}
use events_api.Common.Text.{any_char, is_space, lstrip, rstrip, strip}

-- Nothing, or a text that begins with no white space.
abbrev StartsBare : String → Type 0
StartsBare String.[] = Unit
StartsBare (String.◌∷◌ c s) = is_space (code c) ≡ false

lstrip-StartsBare : (s : String) → StartsBare (lstrip s)
unfolding lstrip
lstrip-StartsBare String.[] = tt
lstrip-StartsBare (String.◌∷◌ c s) = elim (Bool-cases (is_space (code c))) [
  | inl blank ↦ rw blank (lstrip-StartsBare s)
  | inr bare ↦ rw bare bare
]

lstrip-rstrip : (s : String) → StartsBare s → lstrip (rstrip s) ≡ rstrip s
unfolding lstrip rstrip
lstrip-rstrip String.[] h = refl
lstrip-rstrip (String.◌∷◌ c s) h = ground (arith, h)

rstrip_idem : (s : String) → rstrip (rstrip s) ≡ rstrip s
unfolding rstrip
rstrip_idem String.[] = refl
rstrip_idem (String.◌∷◌ c s) = elim (Bool-cases (rstrip s == "" && is_space (code c))) [
  | inl gone ↦ rw gone refl
  | inr stays ↦ rw (stays, rstrip_idem s, stays) refl
]

pub strip_idem : (s : String) → strip (strip s) ≡ strip s
unfolding strip
strip_idem s = rw (lstrip-rstrip (lstrip s) (lstrip-StartsBare s)) (rstrip_idem (lstrip s))

lstrip-solid : (s : String) → any_char is_space s ≡ false → lstrip s ≡ s
unfolding lstrip any_char
lstrip-solid String.[] h = refl
lstrip-solid (String.◌∷◌ c s) h = ground (arith, h)

rstrip-solid : (s : String) → any_char is_space s ≡ false → rstrip s ≡ s
unfolding rstrip any_char
rstrip-solid String.[] h = refl
rstrip-solid (String.◌∷◌ c s) h = ground (arith, h, rstrip-solid s)

-- A text without white space is left as it is.
pub strip-solid : (s : String) → any_char is_space s ≡ false → strip s ≡ s
unfolding strip
strip-solid s h = rw (lstrip-solid s h) (rstrip-solid s h)
