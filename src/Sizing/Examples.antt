-- ===== src/Sizing/Examples.antt =====
-- Runs of the grid functions, and instances of the theorems about them.
use carts.Base.{◌≡◌, refl, [], ◌∷◌, arith, product, length}
use carts.Base.Int.{pos, negsuc}
use carts.Foreign.Reference.{llvm, whole_numbers}
use carts.Sizing.{
  strip, collect, factors_of, ceil_div_positive, widest, distribute, factor_workers_across_dims,
  factor_stencil_workers_across_dims,
}
use carts.Sizing.Grid.{
  factor_workers_across_dims-product, factor_stencil_workers_across_dims-product,
}

factors_of_360 : factors_of 360 ≡ 2 ∷ 2 ∷ 2 ∷ 3 ∷ 3 ∷ 5 ∷ []
unfolding factors_of strip collect
factors_of_360 = refl

-- 24 workers over a plane of 100 by 40 cells make a grid of 6 by 4.
grid_of_24 : factor_workers_across_dims llvm (pos 24) (pos 100 ∷ pos 40 ∷ []) ≡ 6 ∷ 4 ∷ []
unfolding factor_workers_across_dims factors_of strip collect widest distribute ceil_div_positive
grid_of_24 = refl

grid_of_no_worker : factor_workers_across_dims llvm (negsuc 3) (pos 100 ∷ pos 40 ∷ []) ≡ 1 ∷ 1 ∷ []
unfolding factor_workers_across_dims
grid_of_no_worker = refl

factor_workers_across_dims-product_example :
    (product (factor_workers_across_dims llvm (pos 24) (pos 100 ∷ pos 40 ∷ [])) ≡ 24)
    × (length (factor_workers_across_dims llvm (pos 24) (pos 100 ∷ pos 40 ∷ [])) ≡ 2)
factor_workers_across_dims-product_example =
    factor_workers_across_dims-product llvm 24 (pos 100 ∷ pos 40 ∷ []) (omega arith) (omega arith)

factor_stencil_workers_across_dims-product_example :
    (product (
        factor_stencil_workers_across_dims llvm whole_numbers
          (pos 12)
          (pos 64 ∷ pos 64 ∷ [])
          (pos 1 ∷ pos 2 ∷ []))
      ≡ 12)
    × (length (
          factor_stencil_workers_across_dims llvm whole_numbers
            (pos 12)
            (pos 64 ∷ pos 64 ∷ [])
            (pos 1 ∷ pos 2 ∷ []))
        ≡ 2)
factor_stencil_workers_across_dims-product_example =
    factor_stencil_workers_across_dims-product llvm whole_numbers 12 (pos 64 ∷ pos 64 ∷ [])
      (pos 1 ∷ pos 2 ∷ []) (omega arith) (omega arith)
