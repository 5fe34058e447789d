-- ===== src/Stats/Distinct.antt =====
-- Counting different users: who is counted once more is somebody else.
use events_api.Common.{
  ◌+◌, ◌≤◌, ◌≡◌, refl, Bool, true, false, not, ◌&&◌, List, [], ◌∷◌, arith, if◌then◌else◌,
  Bool-cases, inl, inr,
}
use events_api.Common.Int.{ℤ, eq_ℤ, eq_ℤ_refl, eq_ℤ→eq}
use events_api.External.EventStats.{elem_ℤ, count_distinct, users_where}

without : ℤ → List ℤ → List ℤ
without x [] = []
without x (y ∷ ys) = let rest = without x ys in if eq_ℤ y x then rest else y ∷ rest

-- one that is equal to `z` and not to `x` tells them apart
apart : (x z y : ℤ) → eq_ℤ y x ≡ false → eq_ℤ y z ≡ true → eq_ℤ x z ≡ false
apart x z y h k = elim (Bool-cases (eq_ℤ x z)) [
  | inl same ↦ let bad = rw (eq_ℤ→eq y z k, eq_ℤ→eq x z same, eq_ℤ_refl z) at h in cc
  | inr other ↦ other
]

elem-without : (x z : ℤ) (ys : List ℤ) → elem_ℤ z (without x ys) ≡ (not (eq_ℤ x z) && elem_ℤ z ys)
unfolding without
elem-without x z [] = ground arith
elem-without x z (y ∷ ys) = elim (Bool-cases (eq_ℤ y x)) [
  | inl same ↦ rw (same, eq_ℤ→eq y x same, elem-without x z ys) (ground arith)
  | inr other ↦ rw other (ground (arith, elem-without x z ys, apart x z y other))
]

swapped : (y x : ℤ) → eq_ℤ y x ≡ false → eq_ℤ x y ≡ false
swapped y x h = elim (Bool-cases (eq_ℤ x y)) [
  | inl same ↦ let bad = rw (eq_ℤ→eq x y same, eq_ℤ_refl y) at h in cc
  | inr other ↦ other
]

count-without :
    (x : ℤ) (ys : List ℤ)
    → count_distinct (without x ys) + (if elem_ℤ x ys then 1 else 0) ≡ count_distinct ys
unfolding without count_distinct
count-without x [] = omega arith
count-without x (y ∷ ys) = elim (Bool-cases (eq_ℤ y x)) [
  | inl same ↦ rw (same, eq_ℤ→eq y x same) (ground (arith, count-without x ys))
  | inr other ↦
      rw other (ground (arith, count-without x ys, elem-without x y ys, swapped y x other))
]

-- who is in a list is not one who is missing from it
not_first : (x z : ℤ) (xs : List ℤ) → elem_ℤ x xs ≡ false → elem_ℤ z xs ≡ true → eq_ℤ x z ≡ false
not_first x z xs h k = elim (Bool-cases (eq_ℤ x z)) [
  | inl same ↦ let bad = rw (eq_ℤ→eq x z same, k) at h in cc
  | inr other ↦ other
]

-- A list whose users are all in another has no more different ones.
pub count_distinct-subset :
    (xs ys : List ℤ)
    → ((z : ℤ) → elem_ℤ z xs ≡ true → elem_ℤ z ys ≡ true)
    → count_distinct xs ≤ count_distinct ys
unfolding count_distinct
count_distinct-subset [] ys h = omega arith
count_distinct-subset (x ∷ xs) ys h = elim (Bool-cases (elem_ℤ x xs)) [
  | inl again ↦ rw again (count_distinct-subset xs ys (λ z k. h z (ground (arith, k))))
  | inr first ↦
      let fewer =
        count_distinct-subset xs (without x ys) (λ z k.
          rw (elem-without x z ys, h z (ground (arith, k)), not_first x z xs first k) refl) in
      let removed = rw (h x (rw (eq_ℤ_refl x) refl)) at (count-without x ys) in
      rw first (omega (arith, fewer, removed))
]

pub elem-users_where :
    {E : Type 0} (user : E → ℤ) (p q : E → Bool)
    → ((e : E) → p e ≡ true → q e ≡ true)
    → (es : List E) (z : ℤ) → elem_ℤ z (users_where user p es) ≡ true
    → elem_ℤ z (users_where user q es) ≡ true
unfolding users_where
elem-users_where user p q h [] z k = k
elem-users_where user p q h (e ∷ es) z k = ground (arith, h e, elem-users_where user p q h es z, k)

-- Tests that agree select the same users.
pub users_where_cong :
    {E : Type 0} (user : E → ℤ) (p q : E → Bool)
    → ((e : E) → p e ≡ q e)
    → (es : List E) → users_where user p es ≡ users_where user q es
unfolding users_where
users_where_cong user p q h [] = refl
users_where_cong user p q h (e ∷ es) = ground (arith, h e, users_where_cong user p q h es)
