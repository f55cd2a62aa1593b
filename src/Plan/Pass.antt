-- ===== src/Plan/Pass.antt =====
-- The pass of DistributionPlanning.cpp over the loops of a module.
pub mod Kept
use carts.Base.{Bool, Option, none, some, List, map}
use carts.Foreign.{Float, Llvm}
use carts.Loop.{SuIterate}
use carts.Cost.{CostModel}
use carts.Plan.Facts.{BodyFacts}
use carts.Plan.Stamp.{
  stamp_reduction_task_shape_plan, stamp_in_place_shared_stencil_serial_slice,
  choose_distribution_kind, Placed, bare, place,
}
use carts.Plan.Physical.{
  stamp_stencil_physical_plan, stamp_direct_row_matmul_physical_plan, stamp_matmul_physical_plan,
}
use carts.Plan.Uniform.{stamp_uniform_physical_plan}

module _ (L : Llvm) (F : Float) where
  -- The four stamps of a physical plan, in order.
  unfoldable pub stamp_physical_plans : CostModel F → SuIterate → BodyFacts → SuIterate
  stamp_physical_plans m op facts =
      let op = stamp_stencil_physical_plan L F m op facts in
      let op = stamp_direct_row_matmul_physical_plan L F m op facts in
      let op = stamp_matmul_physical_plan L F m op facts in
      stamp_uniform_physical_plan L F m op facts

  -- The walk at one loop, and what the last loop of the pass makes of it.
  unfoldable pub plan_loop : CostModel F → SuIterate → BodyFacts → Placed
  plan_loop m op facts =
      let op = stamp_physical_plans m op facts in
      let op = stamp_reduction_task_shape_plan L F m op facts.loop_indexed_output in
      let op = stamp_in_place_shared_stencil_serial_slice L F m op in
      place op (choose_distribution_kind L F m op facts)

  -- Without a cost model the pass does nothing.
  unfoldable pub run_distribution_planning :
      Option (CostModel F) → List (SuIterate × BodyFacts) → List Placed
  run_distribution_planning none ops = map (λ o. bare o.0) ops
  run_distribution_planning (some m) ops = map (λ o. plan_loop m o.0 o.1) ops
