-- ===== src/Base/Scale.antt =====
-- Products of signed integers spread over differences.
use carts.Base.{ℕ, ◌+◌, ◌*◌, ◌≡◌, ap, arith}
use carts.Base.Int.{ℤ, pos_part, neg_part, sub_ℕ, ◌+ℤ◌, ◌-ℤ◌, ◌*ℤ◌}

sub_parts : (a b : ℕ) → pos_part (sub_ℕ a b) + b ≡ a + neg_part (sub_ℕ a b)
sub_parts a b = ground arith

sub_same : (a b c d : ℕ) → a + d ≡ c + b → sub_ℕ a b ≡ sub_ℕ c d
sub_same a b c d h = ground arith

*ℤ_parts :
    (c x : ℤ)
    → pos_part (c *ℤ x) + (pos_part c * neg_part x + neg_part c * pos_part x)
      ≡ pos_part c * pos_part x + neg_part c * neg_part x + neg_part (c *ℤ x)
unfolding ◌*ℤ◌
*ℤ_parts c x =
    sub_parts (pos_part c * pos_part x + neg_part c * neg_part x)
      (pos_part c * neg_part x + neg_part c * pos_part x)

-ℤ_diff :
    (x y : ℤ)
    → pos_part (x -ℤ y) + (neg_part x + pos_part y) ≡ pos_part x + neg_part y + neg_part (x -ℤ y)
unfolding ◌-ℤ◌
-ℤ_diff x y = sub_parts (pos_part x + neg_part y) (neg_part x + pos_part y)

spread :
    (c p q r s d e : ℕ) → d + (q + r) ≡ p + s + e → c * d + (c * q + c * r) ≡ c * p + c * s + c * e
spread c p q r s d e h = grind (arith, ap (λ z. c * z) h)

pub scale : (c x y : ℤ) → c *ℤ x ≡ c *ℤ y +ℤ c *ℤ (x -ℤ y)
unfolding ◌+ℤ◌ ◌*ℤ◌
scale c x y =
    let d = x -ℤ y in
    let diff = -ℤ_diff x y in
    sub_same (pos_part c * pos_part x + neg_part c * neg_part x)
      (pos_part c * neg_part x + neg_part c * pos_part x) (pos_part (c *ℤ y) + pos_part (c *ℤ d))
      (neg_part (c *ℤ y) + neg_part (c *ℤ d))
      (omega (
        arith,
        *ℤ_parts c y,
        *ℤ_parts c d,
        spread (pos_part c) (pos_part x) (neg_part x) (pos_part y) (neg_part y) (pos_part d)
            (neg_part d) diff,
        spread (neg_part c) (pos_part x) (neg_part x) (pos_part y) (neg_part y) (pos_part d)
            (neg_part d) diff,
      ))
