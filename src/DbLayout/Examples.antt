-- ===== src/DbLayout/Examples.antt =====
-- A layout of a datablock of two dimensions, and an instance of the theorem about it.
use carts.Base.{ℕ, some, none, List, [], ◌∷◌, ◌≡◌, refl, length, get_elem?}
use carts.Base.Int.{pos}
use carts.Loop.{Value, constant, unknown}
use carts.DbLayout.{
  DbPhysicalLayoutPlan, value, index, ceil_div_positive_index, resolve_physical_db_layout_plan,
}
use carts.DbLayout.Tiles.{Owners, Cut, resolve_physical_db_layout_plan-Cut}

abbrev two_dims : List Value
two_dims = unknown 0 ∷ constant (pos 100) ∷ []

-- The second dimension is cut into blocks of 8.
abbrev columns : DbPhysicalLayoutPlan
columns = record {
  block_sizes = pos 8 ∷ [];
  partitioned_dims = 1 ∷ [];
  outer_sizes = ceil_div_positive_index (value (constant (pos 100))) (index (pos 8)) ∷ [];
  inner_sizes = value (unknown 0) ∷ index (pos 8) ∷ [];
}

columns_resolved :
    resolve_physical_db_layout_plan (some (some (pos 1) ∷ [])) (some (some (pos 8) ∷ [])) two_dims
    ≡ some columns
unfolding resolve_physical_db_layout_plan
columns_resolved = refl

-- An owner dimension that is given twice is refused.
given_twice :
    resolve_physical_db_layout_plan
      (some (some (pos 1) ∷ some (pos 1) ∷ []))
      (some (some (pos 8) ∷ some (pos 8) ∷ []))
      two_dims
    ≡ none
unfolding resolve_physical_db_layout_plan
given_twice = refl

resolve_physical_db_layout_plan-Cut_example :
    Owners (length two_dims) [] columns.partitioned_dims
    × ((i : ℕ) (extent : Value) → get_elem? two_dims i ≡ some extent → Cut columns i extent)
resolve_physical_db_layout_plan-Cut_example =
    resolve_physical_db_layout_plan-Cut (some (some (pos 1) ∷ [])) (some (some (pos 8) ∷ []))
      two_dims columns columns_resolved
