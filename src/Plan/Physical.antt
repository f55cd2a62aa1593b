-- ===== src/Plan/Physical.antt =====
-- The physical plans that DistributionPlanning.cpp stamps on stencils, matrix products and uniform
-- loops, and the pass over a loop. Sums of extents stay in range, so an extent is a plain number.
use carts.Base.{
  ℕ, ◌*◌, max, Bool, false, not, ◌&&◌, ◌||◌, Option, none, some, List, [], ◌∷◌, length, ltb, leb,
  ◌==◌, if◌then◌else◌, get_or, set, is_some, map,
}
use carts.Base.Int.{ℤ, pos, negsuc, pos_part, ltb_ℤ, eqb_ℤ}
use carts.Foreign.{Float, Llvm}
use carts.Loop.{SuIterate, stencil, matmul, owner_tile_2d}
use carts.Cost.{CostModel}
use carts.Sizing.{is_empty, ceil_div_positive, factor_workers_across_dims}
use carts.Schedule.Chunk.{clamp}
use carts.Plan.{
  StructuredOutputLayoutPlan, LoopIndexedOutputPlan, PhysicalPlan,
  get_inter_locality_target_workers, choose_mapped_sde_owner_loop_dims, build_loop_indexed_plan,
  build_structured_plan, apply_physical_plan, align_late_owner_plan_to_existing_step,
}
use carts.Plan.Facts.{BodyFacts, has_value, self_reads_stay}
use carts.Plan.Stamp.{is_class, is_in_place_self_read_stencil}

-- The test that each stamp begins with: a plan is there already.
abbrev pub has_plan : SuIterate → Bool
has_plan op = is_some op.physical_owner_dims && is_some op.physical_block_shape

abbrev pub has_dims : ℕ → Option LoopIndexedOutputPlan → Bool
has_dims n none = false
has_dims n (some plan) = length plan.owner_physical_dims == n

unfoldable pub apply_or_keep : SuIterate → Option PhysicalPlan → SuIterate
apply_or_keep op none = op
apply_or_keep op (some p) = apply_physical_plan op p

-- The block of one owner dimension in a block shape.
abbrev pub dim_or_zero : List ℤ → ℤ → ℕ
dim_or_zero shape (negsuc n) = 0
dim_or_zero shape (pos n) = n

abbrev pub extent_at : List ℤ → ℕ → ℕ
extent_at shape dim = pos_part (get_or shape dim (pos 0))

module _ (L : Llvm) (F : Float) where
  unfoldable pub target_workers : CostModel F → ℕ
  target_workers m = max 1 (get_inter_locality_target_workers F m)

  -- No plan is to be stamped: there is one, or the machine has one worker.
  unfoldable pub is_settled : CostModel F → SuIterate → Bool
  is_settled m op = has_plan op || ltb_ℤ m.get_logical_worker_capacity (pos 2)

  pub align_plan : SuIterate → List ℤ → PhysicalPlan → PhysicalPlan
  align_plan op dims p = record p {
    block_shape = align_late_owner_plan_to_existing_step op dims p.block_shape;
  }

  -- The second part of stampStencilPhysicalPlan, on the secondary plan.
  pub stamp_secondary :
      CostModel F → SuIterate → BodyFacts → Option LoopIndexedOutputPlan → SuIterate
  stamp_secondary m op facts none = op
  stamp_secondary m op facts (some plan) =
      if not (length plan.owner_physical_dims == 1)
      then op
      else if facts.has_unknown_effects || is_empty facts.writes
      then op
      else if not (
          self_reads_stay facts (λ v. facts.stays_within_owner_slice v plan.owner_physical_dims)
            facts.writes)
      then op
      else elim (build_loop_indexed_plan L plan (pos (target_workers m))) [
        | none ↦ op
        | some p ↦ apply_physical_plan op (align_plan op plan.owner_physical_dims p)
      ]

  -- The workers that a stencil is planned for: twice as many for one owner dimension.
  pub stencil_workers : CostModel F → List ℕ → ℕ
  stencil_workers m loop_dims =
      if length loop_dims == 1 then target_workers m * 2 else target_workers m

  pub stamp_built_stencil : SuIterate → BodyFacts → Option PhysicalPlan → SuIterate
  stamp_built_stencil op facts none = op
  stamp_built_stencil op facts (some p) =
      if not (is_in_place_self_read_stencil op facts)
      then apply_physical_plan op p
      else if facts.has_unknown_effects || is_empty facts.writes
      then op
      else if self_reads_stay facts (λ v. facts.stays_within_owner_slice v (map pos p.owner_dims))
          facts.writes
      then apply_physical_plan op p
      else op

  pub stamp_stencil_layout :
      CostModel F → SuIterate → BodyFacts → StructuredOutputLayoutPlan → SuIterate
  unfolding stencil_workers stamp_built_stencil
  stamp_stencil_layout m op facts plan =
      let loop_dims = choose_mapped_sde_owner_loop_dims op plan in
      stamp_built_stencil op facts
        (build_structured_plan L F op plan loop_dims (pos (stencil_workers m loop_dims)))

  unfoldable pub stamp_stencil_physical_plan : CostModel F → SuIterate → BodyFacts → SuIterate
  unfolding is_settled stamp_secondary stamp_stencil_layout
  stamp_stencil_physical_plan m op facts =
      let is_stencil = is_class stencil op.classification in
      if is_settled m op
      then op
      else if op.in_place_safe && not is_stencil
      then op
      else if is_some op.classification && not is_stencil
      then op
      else if not is_stencil && is_some facts.loop_indexed_output
      then op
      else if not is_stencil
      then stamp_secondary m op facts facts.consistent_output
      else elim facts.compatible_layout [
        | some plan ↦ stamp_stencil_layout m op facts plan
        | none ↦ stamp_secondary m op facts facts.consistent_output
      ]

  -- The tests of both matrix stamps on the effects of the body.
  pub is_pure_matmul : BodyFacts → LoopIndexedOutputPlan → Bool
  is_pure_matmul facts plan =
      not facts.has_unknown_effects
      && (has_value facts.writes plan.root && facts.has_distinct_matmul_inputs)

  pub row_block : CostModel F → SuIterate → LoopIndexedOutputPlan → List ℤ
  row_block m op plan =
      let rows = extent_at plan.output_shape 0 in
      align_late_owner_plan_to_existing_step op plan.owner_physical_dims (
        set plan.output_shape 0
          (pos (clamp (ceil_div_positive L (pos rows) (pos (target_workers m))) 1 rows)))

  pub stamp_row_matmul : CostModel F → SuIterate → BodyFacts → LoopIndexedOutputPlan → SuIterate
  unfolding is_pure_matmul row_block
  stamp_row_matmul m op facts plan =
      if ltb (length plan.output_shape) 2
      then op
      else if not (length plan.owner_physical_dims == 1)
      then op
      else if not (eqb_ℤ (get_or plan.owner_physical_dims 0 (negsuc 0)) (pos 0))
      then op
      else if leb (extent_at plan.output_shape 0) 0
      then op
      else if not (is_pure_matmul facts plan)
      then op
      else if not (facts.stays_within_owner_slice plan.root plan.owner_physical_dims)
      then op
      else apply_physical_plan op
          record { owner_dims = 0 ∷ []; block_shape = row_block m op plan; halo_shape = [] }

  unfoldable pub stamp_direct_row_matmul_physical_plan :
      CostModel F → SuIterate → BodyFacts → SuIterate
  unfolding is_settled stamp_row_matmul
  stamp_direct_row_matmul_physical_plan m op facts =
      if is_settled m op
      then op
      else if not (length op.lower_bounds == 1 && length op.steps == 1)
      then op
      else if not (is_class matmul op.classification)
      then op
      else elim facts.loop_indexed_output [
        | none ↦ op
        | some plan ↦ stamp_row_matmul m op facts plan
      ]

  pub tile_block : CostModel F → LoopIndexedOutputPlan → List ℤ
  tile_block m plan =
      let shape = plan.output_shape in
      let rows = get_or shape 0 (pos 0) in
      let columns = get_or shape 1 (pos 0) in
      let grid = factor_workers_across_dims L (pos (target_workers m)) (rows ∷ columns ∷ []) in
      set (set shape 0 (pos (ceil_div_positive L rows (pos (get_or grid 0 1))))) 1
        (pos (ceil_div_positive L columns (pos (get_or grid 1 1))))

  pub stamp_tile_matmul : CostModel F → SuIterate → BodyFacts → LoopIndexedOutputPlan → SuIterate
  unfolding is_pure_matmul tile_block
  stamp_tile_matmul m op facts plan =
      if ltb (length plan.output_shape) 2
      then op
      else if leb (extent_at plan.output_shape 0) 0 || leb (extent_at plan.output_shape 1) 0
      then op
      else if not (is_pure_matmul facts plan)
      then op
      else record op {
        physical_owner_dims = some (pos 0 ∷ pos 1 ∷ []);
        physical_block_shape = some (tile_block m plan);
        logical_worker_slice = some (tile_block m plan);
        iteration_topology = some owner_tile_2d;
      }

  unfoldable pub stamp_matmul_physical_plan : CostModel F → SuIterate → BodyFacts → SuIterate
  unfolding is_settled stamp_tile_matmul
  stamp_matmul_physical_plan m op facts =
      if is_settled m op
      then op
      else if not (is_class matmul op.classification)
      then op
      else elim facts.loop_indexed_output [
        | none ↦ op
        | some plan ↦ stamp_tile_matmul m op facts plan
      ]
