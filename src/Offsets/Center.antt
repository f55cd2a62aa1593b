-- ===== src/Offsets/Center.antt =====
-- What centering the bounds of a stencil changes.
use carts.Base.{Bool, true, false, not, ◌&&◌, ◌||◌, if◌then◌else◌, ◌≡◌, ◌⊎◌, inl, inr, refl, arith}
use carts.Base.Int.{ℤ, pos, ◌+ℤ◌, ◌-ℤ◌, ◌*ℤ◌, ltb_ℤ, eqb_ℤ, eq_of_parts}
use carts.Fold.{quot}
use carts.Fold.Meaning.{rest}
use carts.Offsets.{AccessBoundsResult, normalize_access_bounds}

-- The offsets stay where they were, and are unchanged or symmetric.
abbrev IsCentered : AccessBoundsResult → AccessBoundsResult → Type 0
unfolding ◌+ℤ◌
IsCentered bounds result =
    (result.min_offset +ℤ result.center_offset ≡ bounds.min_offset)
    × (result.max_offset +ℤ result.center_offset ≡ bounds.max_offset)
    × ((result ≡ bounds) ⊎ (result.min_offset +ℤ result.max_offset ≡ pos 0))

symmetric : (a b c : ℤ) → a +ℤ b -ℤ c *ℤ pos 2 ≡ pos 0 → a -ℤ c +ℤ (b -ℤ c) ≡ pos 0
unfolding ◌+ℤ◌ ◌-ℤ◌ ◌*ℤ◌
symmetric a b c h = ground arith

back : (a c : ℤ) → a -ℤ c +ℤ c ≡ a
unfolding ◌+ℤ◌ ◌-ℤ◌
back a c = ground arith

plus_zero : (a c : ℤ) → c ≡ pos 0 → a +ℤ c ≡ a
unfolding ◌+ℤ◌
plus_zero a c h = ground arith

abbrev shifted : AccessBoundsResult → ℤ → AccessBoundsResult
unfolding ◌-ℤ◌
shifted bounds center = record bounds {
  center_offset = center;
  min_offset = bounds.min_offset -ℤ center;
  max_offset = bounds.max_offset -ℤ center;
}

unchanged : (b : AccessBoundsResult) → b.center_offset ≡ pos 0 → IsCentered b b
unfolding IsCentered
unchanged b z =
    (plus_zero b.min_offset b.center_offset z, plus_zero b.max_offset b.center_offset z, inl refl)

by_tests :
    (b : AccessBoundsResult) (center : ℤ) (skip spread odd centered : Bool)
    → b.center_offset ≡ pos 0
    → (odd ≡ false → b.min_offset +ℤ b.max_offset -ℤ center *ℤ pos 2 ≡ pos 0)
    → IsCentered b (
        if skip
        then b
        else if spread
        then b
        else if odd
        then b
        else if centered
        then b
        else shifted b center)
unfolding IsCentered shifted
by_tests b c true spread odd centered z even = unchanged b z
by_tests b c false true odd centered z even = unchanged b z
by_tests b c false false true centered z even = unchanged b z
by_tests b c false false false true z even = unchanged b z
by_tests b c false false false false z even = (
  back b.min_offset c,
  back b.max_offset c,
  inr (symmetric b.min_offset b.max_offset c (even refl)),
)

zero_of_test : (a : ℤ) → not (eqb_ℤ a (pos 0)) ≡ false → a ≡ pos 0
zero_of_test a h = eq_of_parts a (pos 0) (ground arith)

-- Centering the bounds of an access that are not centered yet keeps each offset where it was, counted
-- from the center, and leaves the bounds as they are or symmetric about the center.
normalize_access_bounds_lem :
    (bounds : AccessBoundsResult)
    → bounds.center_offset ≡ pos 0
    → (let result = normalize_access_bounds bounds in
        (result.min_offset +ℤ result.center_offset ≡ bounds.min_offset)
        × (result.max_offset +ℤ result.center_offset ≡ bounds.max_offset)
        × ((result ≡ bounds) ⊎ (result.min_offset +ℤ result.max_offset ≡ pos 0)))
unfolding normalize_access_bounds IsCentered shifted
normalize_access_bounds_lem b z =
    let sum = b.min_offset +ℤ b.max_offset in
    by_tests b (quot sum (pos 2)) (not b.valid || not b.is_stencil)
      (ltb_ℤ b.min_offset (pos 0) && ltb_ℤ (pos 0) b.max_offset)
      (not (eqb_ℤ (rest sum (pos 2)) (pos 0))) (eqb_ℤ (quot sum (pos 2)) (pos 0)) z
      (λ h. zero_of_test (rest sum (pos 2)) h)
