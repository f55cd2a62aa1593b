-- ===== src/Plan/Stamp.antt =====
-- The slices of reductions and of serial stencils, and the choice of a distribution
-- (DistributionPlanning.cpp).
pub mod Slices
use carts.Base.{
  ℕ, suc, ◌+◌, ◌*◌, ◌/◌, max, Bool, true, false, not, ◌&&◌, ◌||◌, Option, none, some, List, [], ◌∷◌,
  map, length, ltb, leb, ◌==◌, if◌then◌else◌, set, is_some,
}
use carts.Base.Int.{ℤ, pos, negsuc, pos_part, ltb_ℤ}
use carts.Foreign.{Float, Llvm}
use carts.Loop.{
  Value, SuIterate, Classification, elementwise, stencil, matmul, reduction, elementwise_pipeline,
  IterationTopology, owner_strip, DistributionKind, owner_compute, blocked, get_static_trip_count,
}
use carts.Cost.{CostModel, max_ℤ}
use carts.Sizing.{at_least_one, is_empty, ceil_div_positive}
use carts.Schedule.Refinement.{is_one_dimensional_loop}
use carts.Schedule.Chunk.{clamp}
use carts.Plan.Facts.{BodyFacts, has_value}
use carts.Plan.{
  LoopIndexedOutputPlan, saturating_multiply_positive, get_inter_locality_target_workers, valid_dim,
}

abbrev pub is_class : Classification → Option Classification → Bool
is_class c none = false
is_class elementwise (some elementwise) = true
is_class stencil (some stencil) = true
is_class matmul (some matmul) = true
is_class reduction (some reduction) = true
is_class elementwise_pipeline (some elementwise_pipeline) = true
is_class _ (some _) = false

pub set_slices : SuIterate → List ℤ → List ℤ → SuIterate
set_slices op dims block = record op {
  physical_owner_dims = some dims;
  physical_block_shape = some block;
  logical_worker_slice = some block;
  iteration_topology = some owner_strip;
}

-- The slice in each of the dimensions, or none where one is not a dimension of the block.
pub slice_dims : ℤ → List ℤ → List ℤ → Option (List ℤ)
slice_dims slice [] block = some block
slice_dims slice (dim ∷ dims) block = elim (valid_dim block dim) [
  | none ↦ none
  | some n ↦ slice_dims slice dims (set block n slice)
]

pub all_valid : List ℤ → List ℤ → Bool
all_valid block [] = true
all_valid block (dim ∷ dims) = is_some (valid_dim block dim) && all_valid block dims

-- isInPlaceSelfReadStencil
unfoldable pub is_in_place_self_read_stencil : SuIterate → BodyFacts → Bool
is_in_place_self_read_stencil op facts =
    is_class stencil op.classification
    && (not facts.has_unknown_effects && facts.has_in_place_self_read)

module _ (L : Llvm) (F : Float) where
  -- The number of iterations of a task of a reduction.
  pub reduction_slice : CostModel F → SuIterate → ℕ → ℕ
  reduction_slice m op trip_count =
      let workers = at_least_one m.get_logical_worker_capacity in
      let target_tasks =
        if is_empty op.accumulators_float
        then saturating_multiply_positive (pos workers) m.get_owner_local_pipeline_target_task_waves
        else workers in
      let balanced = ceil_div_positive L (pos trip_count) (pos target_tasks) in
      clamp (max (pos_part m.get_min_iterations_per_worker) balanced) 1 trip_count

  pub stamp_slice : SuIterate → ℕ → SuIterate
  stamp_slice op slice = record op {
    logical_worker_slice = some (pos slice ∷ []);
    iteration_topology = some owner_strip;
  }

  -- The block of a reduction without accumulators: the slice that the loop has for every
  -- dimension, or the shape with the slice in the owner dimensions.
  pub reduction_block : Option (List ℤ) → LoopIndexedOutputPlan → ℕ → Option (List ℤ)
  unfolding slice_dims
  reduction_block none plan slice =
      slice_dims (pos slice) plan.owner_physical_dims plan.output_shape
  reduction_block (some logical) plan slice =
      if length logical == length plan.output_shape
      then some logical
      else slice_dims (pos slice) plan.owner_physical_dims plan.output_shape

  pub stamp_block : SuIterate → LoopIndexedOutputPlan → ℕ → SuIterate
  unfolding set_slices reduction_block all_valid
  stamp_block op plan slice = elim (reduction_block op.logical_worker_slice plan slice) [
    | none ↦ op
    | some block ↦
        if all_valid block plan.owner_physical_dims
        then set_slices op plan.owner_physical_dims block
        else op
  ]

  -- `plan` is what findLoopIndexedOutputPlan gives.
  pub stamp_reduction : CostModel F → SuIterate → Option LoopIndexedOutputPlan → ℕ → SuIterate
  unfolding reduction_slice stamp_slice stamp_block
  stamp_reduction m op none n = stamp_slice op (reduction_slice m op n)
  stamp_reduction m op (some plan) n =
      if is_empty op.accumulators_float
        && (not (is_empty plan.owner_physical_dims) && not (is_empty plan.output_shape))
      then stamp_block op plan (reduction_slice m op n)
      else stamp_slice op (reduction_slice m op n)

  unfoldable pub stamp_reduction_task_shape_plan :
      CostModel F → SuIterate → Option LoopIndexedOutputPlan → SuIterate
  unfolding stamp_reduction
  stamp_reduction_task_shape_plan m op plan =
      if is_some op.logical_worker_slice
        && (is_some op.physical_owner_dims || is_some op.physical_block_shape)
      then op
      else if not (is_class reduction op.classification)
      then op
      else elim (get_static_trip_count op) [
        | none ↦ op
        | some n ↦ if leb n 0 then op else stamp_reduction m op plan n
      ]

  -- The slice of an in-place stencil that runs serially inside its owner blocks.
  pub serial_slice : CostModel F → ℕ → ℕ
  serial_slice m trip_count =
      ceil_div_positive L (pos trip_count) (pos (max 1 (get_inter_locality_target_workers F m)))

  unfoldable pub stamp_in_place_shared_stencil_serial_slice : CostModel F → SuIterate → SuIterate
  unfolding set_slices serial_slice
  stamp_in_place_shared_stencil_serial_slice m op =
      if is_some op.logical_worker_slice || ltb_ℤ m.get_logical_worker_capacity (pos 2)
      then op
      else if not (is_class stencil op.classification)
      then op
      else if not op.in_place_shared_state
      then op
      else if not (is_one_dimensional_loop op)
      then op
      else elim (get_static_trip_count op) [
        | none ↦ op
        | some n ↦
            if leb n 1
            then op
            else if leb (serial_slice m n) 1
            then op
            else set_slices op (pos 0 ∷ []) (pos (serial_slice m n) ∷ [])
      ]

  unfoldable pub has_enough_work_for_distribution : CostModel F → SuIterate → Bool
  has_enough_work_for_distribution m op = elim (get_static_trip_count op) [
    | none ↦ true
    | some n ↦
        leb
          (saturating_multiply_positive m.get_logical_worker_capacity
            m.get_min_iterations_per_worker)
          n
  ]

  -- The switch on the classification.
  pub kind_of_class : CostModel F → SuIterate → BodyFacts → Classification → Option DistributionKind
  kind_of_class m op facts elementwise = some blocked
  kind_of_class m op facts elementwise_pipeline = some blocked
  kind_of_class m op facts stencil =
      if is_in_place_self_read_stencil op facts
      then none
      else if has_enough_work_for_distribution m op
      then some owner_compute
      else none
  kind_of_class m op facts matmul = some blocked
  kind_of_class m op facts reduction =
      if is_some op.reduction_strategy || is_empty op.accumulators_float then some blocked else none

  pub kind_unclassified : CostModel F → SuIterate → BodyFacts → Option DistributionKind
  kind_unclassified m op facts = elim facts.loop_indexed_output [
    | none ↦ none
    | some plan ↦
        if facts.has_unknown_effects || has_value facts.reads plan.root
        then none
        else if has_enough_work_for_distribution m op
        then some blocked
        else none
  ]

  unfoldable pub choose_distribution_kind :
      CostModel F → SuIterate → BodyFacts → Option DistributionKind
  unfolding kind_of_class kind_unclassified
  choose_distribution_kind m op facts =
      if op.in_distribute
      then none
      else if ltb_ℤ m.get_logical_worker_capacity (pos 2)
      then none
      else elim op.classification [
        | none ↦ kind_unclassified m op facts
        | some c ↦
            if ltb 0 op.num_results && not (is_class reduction (some c))
            then none
            else kind_of_class m op facts c
      ]

-- The last loop of the pass: a loop with results carries the kind itself, another is wrapped in
-- sde.su_distribute of that kind.
pub data Placed : Type 0 where
  bare : SuIterate → Placed
  su_distribute : DistributionKind → SuIterate → Placed

unfoldable pub place : SuIterate → Option DistributionKind → Placed
place op none = bare op
place op (some kind) =
    if ltb 0 op.num_results
    then bare (record op { distribution_kind = some kind })
    else su_distribute kind (record op { in_distribute = true })
