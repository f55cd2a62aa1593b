-- ===== src/Loop.antt =====
-- Loops of the SDE dialect as the scheduling passes see them: the operands and attributes of
-- sde.su_iterate (include/carts/dialect/sde/IR/SdeOps.td), the values that bound it, and its static
-- trip count (lib/carts/utils/LoopUtils.cpp).
pub mod TripCount
pub mod Samples
mod Examples
use carts.Base.{
  ℕ, zero, suc, ◌+◌, ◌-◌, ◌*◌, ◌/◌, Bool, true, false, ◌&&◌, ◌||◌, not, Option, none, some, List,
  [], ◌∷◌, ltb, if◌then◌else◌, length,
}
use carts.Base.Int.{ℤ, pos, negsuc, pos_part, ltb_ℤ, ◌-ℤ◌}

-- A value that bounds a loop: an integer constant, or some other value, numbered.
pub data Value : Type 0 where
  constant : ℤ → Value
  unknown : ℕ → Value

-- ValueAnalysis::getConstantIndex
unfoldable pub get_constant_index : Value → Option ℤ
get_constant_index (constant n) = some n
get_constant_index (unknown i) = none

pub data ScheduleKind : Type 0 where
  static dynamic guided auto runtime : ScheduleKind

pub data ReductionKind : Type 0 where
  add mul min max land lor lxor custom : ReductionKind

pub data ReductionStrategy : Type 0 where
  atomic tree local_accumulate : ReductionStrategy

pub data Classification : Type 0 where
  elementwise stencil matmul reduction elementwise_pipeline : Classification

pub data IterationTopology : Type 0 where
  owner_strip owner_tile owner_tile_2d : IterationTopology

pub data DistributionKind : Type 0 where
  owner_compute blocked cyclic : DistributionKind

-- sde.su_iterate. An attribute that is absent is `none`, a unit attribute a Boolean. Of a reduction
-- accumulator only the element type is read: whether it is a float. An entry of the reduction kinds
-- that is no kind attribute is `none`. The body is known by whether it holds a sequential loop.
pub record SuIterate : Type 0 where
  pub lower_bounds : List Value
  pub upper_bounds : List Value
  pub steps : List Value
  pub schedule : Option ScheduleKind
  pub chunk_size : Option ℕ
  pub accumulators_float : List Bool
  pub reduction_kinds : Option (List (Option ReductionKind))
  pub reduction_strategy : Option ReductionStrategy
  pub partial_reduction : Bool
  pub nested_sequential_loop : Bool
  pub num_results : ℕ
  pub in_distribute : Bool
  pub classification : Option Classification
  pub access_min_offsets : Option (List ℤ)
  pub access_max_offsets : Option (List ℤ)
  pub owner_dims : Option (List ℤ)
  pub in_place_safe : Bool
  pub in_place_shared_state : Bool
  pub physical_owner_dims : Option (List ℤ)
  pub physical_block_shape : Option (List ℤ)
  pub physical_halo_shape : Option (List ℤ)
  pub logical_worker_slice : Option (List ℤ)
  pub iteration_topology : Option IterationTopology
  pub distribution_kind : Option DistributionKind

-- The count of a loop from constant bounds: (max(0, upper - lower) + step - 1) / step.
count_from : Option ℤ → Option ℤ → Option ℤ → Option ℕ
count_from (some lower) (some upper) (some step) =
    let span = pos_part (upper -ℤ lower) in
    if ltb_ℤ (pos 0) step then some ((span + pos_part step - 1) / pos_part step) else none
count_from _ _ _ = none

count_single : List Value → List Value → List Value → Option ℕ
unfolding count_from
count_single (lower ∷ []) (upper ∷ []) (step ∷ []) =
    count_from (get_constant_index lower) (get_constant_index upper) (get_constant_index step)
count_single _ _ _ = none

-- getStaticTripCount of a loop-like operation
unfoldable pub get_static_trip_count : SuIterate → Option ℕ
unfolding count_single
get_static_trip_count op = count_single op.lower_bounds op.upper_bounds op.steps
