-- ===== src/Loop/Examples.antt =====
-- A loop, its static trip count, and an instance of the theorem about it.
use carts.Base.{◌+◌, ◌*◌, ◌<◌, some, [], ◌∷◌, ◌≡◌, ◌↔◌, refl}
use carts.Base.Int.{pos, ◌+ℤ◌, ◌-ℤ◌, ◌≤ℤ◌}
use carts.Loop.{SuIterate, constant, get_constant_index, get_static_trip_count}
use carts.Loop.Samples.{plain}
use carts.Loop.TripCount.{get_static_trip_count_iff}

-- for (i = 2; i < 12; i += 3)
abbrev by_three : SuIterate
by_three = record plain {
  lower_bounds = constant (pos 2) ∷ [];
  upper_bounds = constant (pos 12) ∷ [];
  steps = constant (pos 3) ∷ [];
}

four_iterations : get_static_trip_count by_three ≡ some 4
unfolding get_static_trip_count get_constant_index ◌-ℤ◌
four_iterations = refl

get_static_trip_count_iff_example : (3 < 4) ↔ (pos 2 +ℤ pos (3 * 3 + 1) ≤ℤ pos 12)
get_static_trip_count_iff_example =
    get_static_trip_count_iff by_three (pos 2) (pos 12) (pos 3) 4 3 refl refl refl four_iterations
