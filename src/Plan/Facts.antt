-- ===== src/Plan/Facts.antt =====
-- What the analyses of a loop's body find (StructuredOpAnalysis.cpp and the walks at the head of
-- DistributionPlanning.cpp), as the stamps ask for it.
use carts.Base.{ℕ, Bool, true, not, ◌&&◌, ◌||◌, ◌==◌, Option, List, [], ◌∷◌, any}
use carts.Base.Int.{ℤ}
use carts.Plan.{StructuredOutputLayoutPlan, LoopIndexedOutputPlan}

-- The fields are the results of findLoopIndexedOutputPlan,
-- findConsistentLoopIndexedOutputPlanWithOwnerDims, findConsistentMultiOwnerOutputPlan,
-- findCompatibleOutputLayoutPlan, collectStructuredMemoryEffects (three fields), isDefinedInside,
-- hasInPlaceSelfRead, allRootAccessesStayWithinOwnerSlice, allRootAccessesStayWithinOwnerTile,
-- isOwnerLocalPipelineReduction and hasDistinctExternalMatmulInputRoots.
pub record BodyFacts : Type 0 where
  pub loop_indexed_output : Option LoopIndexedOutputPlan
  pub consistent_output : Option LoopIndexedOutputPlan
  pub multi_owner_output : Option LoopIndexedOutputPlan
  pub compatible_layout : Option StructuredOutputLayoutPlan
  pub reads : List ℕ
  pub writes : List ℕ
  pub has_unknown_effects : Bool
  pub is_defined_inside : ℕ → Bool
  pub has_in_place_self_read : Bool
  pub stays_within_owner_slice : ℕ → List ℤ → Bool
  pub stays_within_owner_tile : ℕ → List ℤ → Bool
  pub is_owner_local_pipeline_reduction : Bool
  pub has_distinct_matmul_inputs : Bool

abbrev pub has_value : List ℕ → ℕ → Bool
has_value values v = any (λ w. w == v) values

-- The loop over the written roots: each that is not local and is also read passes the test.
unfoldable pub self_reads_stay : BodyFacts → (ℕ → Bool) → List ℕ → Bool
self_reads_stay facts stays [] = true
self_reads_stay facts stays (written ∷ rest) =
    (facts.is_defined_inside written || not (has_value facts.reads written) || stays written)
    && self_reads_stay facts stays rest
