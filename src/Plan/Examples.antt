-- ===== src/Plan/Examples.antt =====
-- Plans of small outputs, and instances of the theorems about them.
use carts.Base.{
  ℕ, ◌*◌, ◌≤◌, false, none, some, [], ◌∷◌, ◌≡◌, true, get_or, ◌↔◌, ◌⊎◌, refl, arith, product,
}
use carts.Base.Int.{pos, ◌≤ℤ◌}
use carts.Foreign.Reference.{llvm, whole_numbers}
use carts.Loop.{SuIterate, stencil, owner_compute, get_static_trip_count}
use carts.Loop.Samples.{plain}
use carts.Cost.{CostModel}
use carts.Cost.Samples.{four_workers}
use carts.Sizing.{
  factors_of, strip, collect, ceil_div_positive, widest, distribute, factor_workers_across_dims,
}
use carts.Plan.{
  LoopIndexedOutputPlan, PhysicalPlan, owner_dims_from, positive_dim, cut_dims,
  build_loop_indexed_plan, saturating_multiply_positive,
}
use carts.Plan.Tiles.{Tiles, build_loop_indexed_plan-Tiles}
use carts.Plan.Facts.{BodyFacts}
use carts.Plan.Uniform.{uniform_slice, uniform_block, uniform_workers}
use carts.Plan.Uniform.Covers.{uniform_block-covers}
use carts.Plan.Stamp.{reduction_slice, choose_distribution_kind}
use carts.Plan.Stamp.Slices.{target_tasks, reduction_slice-bounds, choose_distribution_kind_iff}

-- A plane of 100 by 40 cells, whose two dimensions the loop indexes.
abbrev plane : LoopIndexedOutputPlan
plane = record {
  root = 0;
  output_shape = pos 100 ∷ pos 40 ∷ [];
  owner_physical_dims = pos 0 ∷ pos 1 ∷ [];
}

abbrev plane_plan : PhysicalPlan
plane_plan = record { owner_dims = 0 ∷ 1 ∷ []; block_shape = pos 17 ∷ pos 10 ∷ []; halo_shape = [] }

-- 24 workers make a grid of 6 by 4.
plane_blocks : build_loop_indexed_plan llvm plane (pos 24) ≡ some plane_plan
unfolding build_loop_indexed_plan owner_dims_from positive_dim cut_dims factor_workers_across_dims
    factors_of strip collect widest distribute ceil_div_positive
plane_blocks = refl

build_loop_indexed_plan-Tiles_example :
    let grid = factor_workers_across_dims llvm (pos 24) (pos 100 ∷ pos 40 ∷ []) in
    (product grid ≡ 24) × Tiles llvm grid (0 ∷ 1 ∷ []) 1 40 (pos 10)
build_loop_indexed_plan-Tiles_example =
    build_loop_indexed_plan-Tiles llvm plane (pos 24) plane_plan 1 40 plane_blocks (omega arith)
      refl (omega arith)

reduction_slice-bounds_example :
    (1 ≤ reduction_slice llvm whole_numbers four_workers plain 100)
    × (reduction_slice llvm whole_numbers four_workers plain 100 ≤ 100)
    × (100
        ≤ reduction_slice llvm whole_numbers four_workers plain 100
          * target_tasks llvm whole_numbers four_workers plain)
reduction_slice-bounds_example =
    reduction_slice-bounds llvm whole_numbers four_workers plain 100 (omega arith)

abbrev stencil_loop : SuIterate
stencil_loop = record plain { classification = some stencil }

-- A body that writes the plane, value 0, and reads value 1.
abbrev out_of_place : BodyFacts
out_of_place = record {
  loop_indexed_output = some plane;
  consistent_output = none;
  multi_owner_output = none;
  compatible_layout = none;
  reads = 1 ∷ [];
  writes = 0 ∷ [];
  has_unknown_effects = false;
  is_defined_inside = λ v. false;
  has_in_place_self_read = false;
  stays_within_owner_slice = λ v dims. true;
  stays_within_owner_tile = λ v dims. true;
  is_owner_local_pipeline_reduction = false;
  has_distinct_matmul_inputs = false;
}

choose_distribution_kind_iff_example :
    (choose_distribution_kind llvm whole_numbers four_workers stencil_loop out_of_place
      ≡ some owner_compute)
    ↔ ((false ≡ false)
        × (pos 2 ≤ℤ pos 4)
        × (some stencil ≡ some stencil)
        × (◌≡◌ {A = ℕ} 0 0)
        × ((false ≡ true) ⊎ (false ≡ false))
        × ((n : ℕ)
            → get_static_trip_count stencil_loop ≡ some n
            → saturating_multiply_positive (pos 4) (pos 3) ≤ n))
choose_distribution_kind_iff_example =
    choose_distribution_kind_iff llvm whole_numbers four_workers stencil_loop out_of_place

abbrev planned : SuIterate
planned = record plain {
  physical_owner_dims = some (pos 0 ∷ []);
  physical_block_shape = some (pos 8 ∷ []);
}

abbrev one_worker : CostModel whole_numbers
one_worker = record four_workers { get_logical_worker_capacity = pos 1 }

uniform_block-covers_example :
    let slice = uniform_slice llvm whole_numbers four_workers plain out_of_place 100 in
    (pos slice
      ≤ℤ get_or
          (uniform_block llvm whole_numbers four_workers plain out_of_place plane 0)
          0
          (pos 0))
    × (1 ≤ slice)
    × (slice ≤ 100)
    × (100 ≤ slice * uniform_workers llvm whole_numbers four_workers 100)
uniform_block-covers_example =
    uniform_block-covers llvm whole_numbers four_workers plain out_of_place plane 0 (omega arith)
      (omega arith)
