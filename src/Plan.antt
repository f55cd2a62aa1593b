-- ===== src/Plan.antt =====
-- lib/carts/dialect/sde/Transforms/effect/distribution/DistributionPlanning.cpp: the physical plans
-- of distributed loops. The layouts of a loop's output are what the analyses of its body find
-- (StructuredOpAnalysis.cpp), and stand as arguments here.
pub mod Tiles
pub mod Facts
pub mod Stamp
pub mod Physical
pub mod Uniform
pub mod Pass
mod Examples
use carts.Base.{
  ℕ, zero, suc, ◌+◌, ◌*◌, ◌/◌, ◌%◌, max, Bool, true, false, not, ◌&&◌, ◌||◌, Option, none, some,
  List, [], ◌∷◌, map, length, ltb, leb, ◌==◌, if◌then◌else◌, get_or, set, any,
}
use carts.Base.Int.{ℤ, pos, negsuc, pos_part, ltb_ℤ, ◌-ℤ◌}
use carts.Foreign.{Float, Llvm}
use carts.Loop.{Value, get_constant_index, SuIterate, IterationTopology, owner_strip, owner_tile}
use carts.Cost.{CostModel, max_ℤ}
use carts.Sizing.{
  at_least_one, is_empty, ceil_div_positive, factor_workers_across_dims,
  factor_stencil_workers_across_dims,
}
use carts.Schedule.Refinement.{int64_max}

-- StructuredOutputLayoutPlan and LoopIndexedOutputPlan; a root is a value of the program, numbered.
pub record StructuredOutputLayoutPlan : Type 0 where
  pub shape : List ℤ
  pub loop_dim_to_physical_dim : List ℤ

pub record LoopIndexedOutputPlan : Type 0 where
  pub root : ℕ
  pub output_shape : List ℤ
  pub owner_physical_dims : List ℤ

unfoldable pub saturating_multiply_positive : ℤ → ℤ → ℕ
saturating_multiply_positive lhs rhs =
    let a = at_least_one lhs in
    let b = at_least_one rhs in if ltb (int64_max / b) a then int64_max else a * b

pub get_inter_locality_target_workers : (F : Float) → CostModel F → ℕ
unfolding saturating_multiply_positive
get_inter_locality_target_workers F m =
    saturating_multiply_positive m.get_logical_worker_capacity m.get_inter_locality_task_waves

-- The halo of one owner dimension: what its two offsets reach, at entry idx of the offset lists.
unfoldable pub halo_from : List ℤ → List ℤ → ℕ → ℤ
halo_from [] highs idx = pos 0
halo_from (low ∷ lows) [] idx = pos 0
halo_from (low ∷ lows) (high ∷ highs) zero = max_ℤ (pos 0) (max_ℤ (pos 0 -ℤ low) high)
halo_from (low ∷ lows) (high ∷ highs) (suc idx) = halo_from lows highs idx

-- static_cast<unsigned>(rawDim) != ownerDim
abbrev pub is_dim : ℤ → ℕ → Bool
is_dim (pos n) dim = n % 4294967296 == dim
is_dim (negsuc n) dim = false

-- The loop over the owner dimensions: the first entry for the dimension decides.
unfoldable pub find_halo : List ℤ → List ℤ → List ℤ → ℕ → ℕ → ℤ
unfolding halo_from
find_halo [] lows highs idx dim = pos 0
find_halo (raw ∷ raws) lows highs idx dim =
    let rest = find_halo raws lows highs (suc idx) dim in
    if is_dim raw dim then halo_from lows highs idx else rest

unfoldable pub read_stencil_halo_for_owner_dim : SuIterate → ℕ → ℤ
unfolding find_halo
read_stencil_halo_for_owner_dim op dim = elim op.access_min_offsets [
  | none ↦ pos 0
  | some lows ↦ elim op.access_max_offsets [
    | none ↦ pos 0
    | some highs ↦ elim op.owner_dims [ none ↦ pos 0 | some raws ↦ find_halo raws lows highs 0 dim ]
  ]
]

-- The physical dimension at an entry of a list of dimensions, where it is one of the shape's.
abbrev pub valid_dim : List ℤ → ℤ → Option ℕ
valid_dim shape (negsuc n) = none
valid_dim shape (pos n) = if ltb n (length shape) then some n else none

unfoldable pub physical_dim : StructuredOutputLayoutPlan → ℕ → Option ℕ
physical_dim plan loop_dim =
    valid_dim plan.shape (get_or plan.loop_dim_to_physical_dim loop_dim (negsuc 0))

-- The loop dimensions from `dim`, as many as `left`, that map to a physical dimension; past the
-- end of the mapping there are none.
unfoldable pub mapped_loop_dims : StructuredOutputLayoutPlan → ℕ → ℕ → List ℕ
unfolding physical_dim
mapped_loop_dims plan dim zero = []
mapped_loop_dims plan dim (suc left) =
    let rest = mapped_loop_dims plan (suc dim) left in
    elim (physical_dim plan dim) [ none ↦ rest | some physical ↦ dim ∷ rest ]

unfoldable pub with_halo : SuIterate → List ℕ → List ℕ
with_halo op [] = []
with_halo op (dim ∷ dims) =
    let rest = with_halo op dims in
    if ltb_ℤ (pos 0) (read_stencil_halo_for_owner_dim op dim) then dim ∷ rest else rest

unfoldable pub choose_mapped_sde_owner_loop_dims : SuIterate → StructuredOutputLayoutPlan → List ℕ
unfolding mapped_loop_dims with_halo
choose_mapped_sde_owner_loop_dims op plan =
    let mapped = mapped_loop_dims plan 0 (length op.lower_bounds) in
    let haloed = with_halo op mapped in if is_empty haloed then mapped else haloed

-- What a builder of a plan returns.
pub record PhysicalPlan : Type 0 where
  pub owner_dims : List ℕ
  pub block_shape : List ℤ
  pub halo_shape : List ℤ

-- The owner dimensions of a list of raw dimensions: each valid and of positive extent, or none.
unfoldable pub positive_dim : List ℤ → Option ℕ → Option ℕ
positive_dim shape none = none
positive_dim shape (some n) = if ltb_ℤ (pos 0) (get_or shape n (pos 0)) then some n else none

unfoldable pub owner_dims_from : List ℤ → List (Option ℕ) → Option (List ℕ)
unfolding positive_dim
owner_dims_from shape [] = some []
owner_dims_from shape (raw ∷ raws) =
    let rest = owner_dims_from shape raws in
    elim (positive_dim shape raw) [
      | none ↦ none
      | some n ↦ elim rest [ none ↦ none | some ns ↦ some (n ∷ ns) ]
    ]

abbrev pub extents_of : List ℤ → List ℕ → List ℤ
extents_of shape dims = map (λ n. get_or shape n (pos 0)) dims

module _ (L : Llvm) where
  -- The loop that cuts the owner dimensions of the shape by the cells of the worker grid.
  unfoldable pub cut_dims : List ℤ → List ℕ → ℕ → List ℕ → List ℤ → List ℤ
  cut_dims shape grid idx [] block = block
  cut_dims shape grid idx (dim ∷ dims) block = cut_dims shape grid (suc idx) dims (
      set block dim
        (pos (ceil_div_positive L (get_or shape dim (pos 0)) (pos (get_or grid idx 1)))))

  -- buildOwnerDimPlan of a LoopIndexedOutputPlan
  unfoldable pub build_loop_indexed_plan : LoopIndexedOutputPlan → ℤ → Option PhysicalPlan
  unfolding owner_dims_from
  build_loop_indexed_plan plan workers =
      let shape = plan.output_shape in
      if is_empty plan.owner_physical_dims || is_empty shape
      then none
      else elim (owner_dims_from shape (map (valid_dim shape) plan.owner_physical_dims)) [
        | none ↦ none
        | some dims ↦
            let grid =
              factor_workers_across_dims L (pos (at_least_one workers)) (extents_of shape dims) in
            some record {
              owner_dims = dims;
              block_shape = cut_dims shape grid 0 dims shape;
              halo_shape = [];
            }
      ]

  -- buildOwnerDimPlan of a StructuredOutputLayoutPlan
  pub build_structured_plan :
      (F : Float) → SuIterate → StructuredOutputLayoutPlan → List ℕ → ℤ → Option PhysicalPlan
  unfolding owner_dims_from
  build_structured_plan F op plan loop_dims workers =
      if is_empty loop_dims || is_empty plan.shape
      then none
      else elim (owner_dims_from plan.shape (map (physical_dim plan) loop_dims)) [
        | none ↦ none
        | some dims ↦
            let halos =
              map (λ dim. max_ℤ (pos 0) (read_stencil_halo_for_owner_dim op dim)) loop_dims in
            let grid =
              factor_stencil_workers_across_dims L F (pos (at_least_one workers))
                (extents_of plan.shape dims) halos in
            some record {
              owner_dims = dims;
              block_shape = cut_dims plan.shape grid 0 dims plan.shape;
              halo_shape = halos;
            }
      ]

unfoldable pub apply_physical_plan : SuIterate → PhysicalPlan → SuIterate
apply_physical_plan op p = record op {
  physical_owner_dims = some (map pos p.owner_dims);
  physical_block_shape = some p.block_shape;
  physical_halo_shape =
      if any (λ halo. ltb_ℤ (pos 0) halo) p.halo_shape
      then some p.halo_shape
      else op.physical_halo_shape;
  logical_worker_slice = some p.block_shape;
  iteration_topology = some (if ltb 1 (length p.owner_dims) then owner_tile else owner_strip);
}

-- getPositiveConstantIndex of a value that is a constant or folds to none.
unfoldable pub positive_constant_index : Value → Option ℕ
positive_constant_index v = elim (get_constant_index v) [
  | none ↦ none
  | some c ↦ if ltb_ℤ (pos 0) c then some (pos_part c) else none
]

pub grow_to_step : ℕ → Option ℕ → List ℤ → List ℤ
grow_to_step dim none block = block
grow_to_step dim (some step) block =
    if ltb_ℤ (get_or block dim (pos 0)) (pos step) then set block dim (pos step) else block

pub align_first : List Value → Option ℕ → List ℤ → List ℤ
unfolding grow_to_step positive_constant_index
align_first [] dim block = block
align_first (step ∷ steps) none block = block
align_first (step ∷ steps) (some dim) block = grow_to_step dim (positive_constant_index step) block

unfoldable pub align_late_owner_plan_to_existing_step : SuIterate → List ℤ → List ℤ → List ℤ
unfolding align_first
align_late_owner_plan_to_existing_step op (dim ∷ []) block =
    align_first op.steps (valid_dim block dim) block
align_late_owner_plan_to_existing_step op [] block = block
align_late_owner_plan_to_existing_step op (dim ∷ other ∷ dims) block = block
