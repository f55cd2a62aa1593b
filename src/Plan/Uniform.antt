-- ===== src/Plan/Uniform.antt =====
-- stampUniformPhysicalPlan of DistributionPlanning.cpp.
pub mod Covers
use carts.Base.{
  ℕ, ◌*◌, max, Bool, true, false, not, ◌&&◌, ◌||◌, Option, none, some, List, [], ◌∷◌, length, ltb,
  leb, ◌==◌, if◌then◌else◌, set, is_some,
}
use carts.Base.Int.{ℤ, pos, negsuc, ltb_ℤ}
use carts.Foreign.{Float, Llvm}
use carts.Loop.{SuIterate, elementwise, stencil, matmul, reduction, elementwise_pipeline}
use carts.Cost.{CostModel}
use carts.Sizing.{at_least_one, is_empty, ceil_div_positive}
use carts.Schedule.Chunk.{clamp}
use carts.Plan.{
  LoopIndexedOutputPlan, valid_dim, build_loop_indexed_plan, apply_physical_plan,
  align_late_owner_plan_to_existing_step,
}
use carts.Plan.Facts.{BodyFacts, has_value, self_reads_stay}
use carts.Plan.Stamp.{is_class, set_slices}
use carts.Plan.Physical.{has_dims, extent_at, target_workers, is_settled}

-- The head of a list of dimensions, where it is a dimension of the shape.
abbrev pub first_dim : List ℤ → List ℤ → Option ℕ
first_dim shape [] = none
first_dim shape (dim ∷ dims) = valid_dim shape dim

-- A classification that the stamp skips.
unfoldable pub is_skipped : SuIterate → BodyFacts → Bool
is_skipped op facts =
    is_class stencil op.classification
    || is_class matmul op.classification
    || (is_class reduction op.classification && not facts.is_owner_local_pipeline_reduction)

unfoldable pub is_elementwise : SuIterate → Bool
is_elementwise op =
    is_class elementwise op.classification || is_class elementwise_pipeline op.classification

-- The output to plan for, and whether it is that of the fallback.
unfoldable pub select_output : SuIterate → BodyFacts → Option LoopIndexedOutputPlan × Bool
select_output op facts = elim facts.loop_indexed_output [
  | some plan ↦ (some plan, false)
  | none ↦
      if is_some op.classification && not (is_elementwise op)
      then (none, false)
      else if has_dims 1 facts.consistent_output
      then (facts.consistent_output, true)
      else (none, false)
]

-- The effects of an unclassified loop, or of one with the fallback output, allow a plan.
unfoldable pub effects_allow : BodyFacts → LoopIndexedOutputPlan → Bool
effects_allow facts plan =
    let self_read = has_value facts.reads plan.root in
    let owner_local =
      self_read && facts.stays_within_owner_slice plan.root plan.owner_physical_dims in
    not (facts.has_unknown_effects || (self_read && not owner_local))

module _ (L : Llvm) (F : Float) where
  -- The tests before a plan with two owner dimensions is built.
  pub allows_tiles : SuIterate → BodyFacts → LoopIndexedOutputPlan → Bool
  allows_tiles op facts plan =
      length plan.owner_physical_dims == 2
      && (leb 2 (length op.lower_bounds)
          && (leb 2 (length op.upper_bounds)
              && (leb 2 (length op.steps)
                  && (not facts.has_unknown_effects
                      && self_reads_stay facts
                          (λ v. facts.stays_within_owner_tile v plan.owner_physical_dims)
                          facts.writes))))

  -- The loop with its tiles, where it is elementwise and its output has two owner dimensions.
  pub stamp_tiles : CostModel F → SuIterate → BodyFacts → Option SuIterate
  unfolding allows_tiles
  stamp_tiles m op facts = elim facts.multi_owner_output [
    | none ↦ none
    | some plan ↦
        if is_elementwise op && allows_tiles op facts plan
        then elim (build_loop_indexed_plan L plan (pos (target_workers L F m))) [
          | none ↦ none
          | some p ↦ some (apply_physical_plan op p)
        ]
        else none
  ]

  -- The workers for an extent: twice as many from 4 Mi iterations for each.
  pub uniform_workers : CostModel F → ℕ → ℕ
  uniform_workers m extent =
      let workers = target_workers L F m in
      if leb (workers * 4 * 1024 * 1024) extent then workers * 2 else workers

  pub uniform_slice : CostModel F → SuIterate → BodyFacts → ℕ → ℕ
  unfolding uniform_workers
  uniform_slice m op facts extent =
      let least =
        if is_class elementwise_pipeline op.classification
          && facts.is_owner_local_pipeline_reduction
        then 1
        else at_least_one m.get_min_iterations_per_worker in
      let balanced = ceil_div_positive L (pos extent) (pos (uniform_workers m extent)) in
      clamp (max least balanced) 1 extent

  pub uniform_block : CostModel F → SuIterate → BodyFacts → LoopIndexedOutputPlan → ℕ → List ℤ
  unfolding uniform_slice
  uniform_block m op facts plan dim =
      align_late_owner_plan_to_existing_step op plan.owner_physical_dims (
        set plan.output_shape dim
          (pos (uniform_slice m op facts (extent_at plan.output_shape dim))))

  -- A loop without a class becomes elementwise.
  pub classify : SuIterate → SuIterate
  classify op =
      if is_some op.classification then op else record op { classification = some elementwise }

  pub stamp_strip :
      CostModel F → SuIterate → BodyFacts → LoopIndexedOutputPlan → Bool → ℕ → SuIterate
  unfolding uniform_block classify
  stamp_strip m op facts plan fallback dim =
      if leb (extent_at plan.output_shape dim) 0
      then op
      else if (not (is_some op.classification) || fallback) && not (effects_allow facts plan)
      then op
      else set_slices (classify op) plan.owner_physical_dims (uniform_block m op facts plan dim)

  pub stamp_selected :
      CostModel F → SuIterate → BodyFacts → Option LoopIndexedOutputPlan × Bool → SuIterate
  unfolding stamp_tiles stamp_strip
  stamp_selected m op facts (none, fallback) = op
  stamp_selected m op facts (some plan, fallback) =
      if is_empty plan.output_shape || is_empty plan.owner_physical_dims
      then op
      else elim (stamp_tiles m op facts) [
        | some tiled ↦ tiled
        | none ↦ elim (first_dim plan.output_shape plan.owner_physical_dims) [
          | none ↦ op
          | some dim ↦ stamp_strip m op facts plan fallback dim
        ]
      ]

  unfoldable pub stamp_uniform_physical_plan : CostModel F → SuIterate → BodyFacts → SuIterate
  unfolding stamp_selected
  stamp_uniform_physical_plan m op facts =
      if is_settled L F m op
      then op
      else if is_skipped op facts
      then op
      else stamp_selected m op facts (select_output op facts)
