-- ===== src/Plan/Uniform/Covers.antt =====
-- The block of a uniform loop covers its owner dimension.
use carts.Base.{
  ℕ, zero, suc, ◌*◌, ◌≤◌, ◌<◌, Option, none, some, List, [], ◌∷◌, arith, sym, subst, length, get_or,
  set, Bool-cases, inl, inr, get_or-set_self,
}
use carts.Base.Int.{ℤ, pos, ◌≤ℤ◌, ltb_ℤ}
use carts.Foreign.{Float, Llvm}
use carts.Loop.{SuIterate, Value}
use carts.Cost.{CostModel}
use carts.Sizing.{ceil_div_positive}
use carts.Sizing.Grid.{ceil_div_positive_lem}
use carts.Plan.{
  LoopIndexedOutputPlan, valid_dim, grow_to_step, align_first,
  align_late_owner_plan_to_existing_step, positive_constant_index,
}
use carts.Plan.Facts.{BodyFacts}
use carts.Plan.Stamp.Slices.{slice_bounds, factor_positive}
use carts.Plan.Physical.{extent_at, target_workers}
use carts.Plan.Uniform.{uniform_workers, uniform_slice, uniform_block}

le_refl : (a : ℤ) → a ≤ℤ a
le_refl a = omega arith

grow_set :
    (block : List ℤ) (n d : ℕ) (v : ℤ)
    → get_or block n (pos 0) ≤ℤ v
    → get_or block d (pos 0) ≤ℤ get_or (set block n v) d (pos 0)
grow_set [] n d v h = omega arith
grow_set (b ∷ bs) zero zero v h = h
grow_set (b ∷ bs) zero (suc d) v h = omega arith
grow_set (b ∷ bs) (suc n) zero v h = omega arith
grow_set (b ∷ bs) (suc n) (suc d) v h = grow_set bs n d v h

grow_to_step_grows :
    (n : ℕ) (step : Option ℕ) (block : List ℤ) (d : ℕ)
    → get_or block d (pos 0) ≤ℤ get_or (grow_to_step n step block) d (pos 0)
unfolding grow_to_step
grow_to_step_grows n none block d = omega arith
grow_to_step_grows n (some step) block d =
    elim (Bool-cases (ltb_ℤ (get_or block n (pos 0)) (pos step))) [
      | inl e ↦ rw (e, grow_to_step) (grow_set block n d (pos step) (ground arith))
      | inr e ↦ rw (e, grow_to_step) (le_refl (get_or block d (pos 0)))
    ]

align_first_grows :
    (steps : List Value) (n : Option ℕ) (block : List ℤ) (d : ℕ)
    → get_or block d (pos 0) ≤ℤ get_or (align_first steps n block) d (pos 0)
unfolding align_first
align_first_grows [] n block d = omega arith
align_first_grows (s ∷ ss) none block d = omega arith
align_first_grows (s ∷ ss) (some n) block d =
    grow_to_step_grows n (positive_constant_index s) block d

align_grows :
    (op : SuIterate) (dims block : List ℤ) (d : ℕ)
    → get_or block d (pos 0)
      ≤ℤ get_or (align_late_owner_plan_to_existing_step op dims block) d (pos 0)
unfolding align_late_owner_plan_to_existing_step
align_grows op [] block d = omega arith
align_grows op (dim ∷ []) block d = align_first_grows op.steps (valid_dim block dim) block d
align_grows op (dim ∷ other ∷ dims) block d = omega arith

module _ (L : Llvm) (F : Float) where
  workers_positive : (m : CostModel F) (extent : ℕ) → 1 ≤ uniform_workers L F m extent
  unfolding uniform_workers target_workers
  workers_positive m extent = ground arith

  uniform_slice-bounds :
      (m : CostModel F) (op : SuIterate) (facts : BodyFacts) (extent : ℕ)
      → 1 ≤ extent
      → (1 ≤ uniform_slice L F m op facts extent)
        × (uniform_slice L F m op facts extent ≤ extent)
        × (extent ≤ uniform_slice L F m op facts extent * uniform_workers L F m extent)
  unfolding uniform_slice
  uniform_slice-bounds m op facts extent h =
      let p = workers_positive m extent in
      let w = uniform_workers L F m extent in
      let d = ceil_div_positive L (pos extent) (pos w) in
      let same = ceil_div_positive_lem L extent w h p in
      let covers : extent ≤ d * w =
        subst (λ z. extent ≤ z * w) (sym same) (L.divide_ceil_covers extent w p) in
      slice_bounds _ d w extent (factor_positive d w extent h covers) h p covers

  -- For an owner dimension of the output with a positive extent, the block of a uniform loop in that
  -- dimension is at least a slice that is between 1 and the extent and that, taken once for each
  -- planned worker, covers the extent: also where the block is grown to the step of the loop.
  pub uniform_block-covers :
      (m : CostModel F) (op : SuIterate) (facts : BodyFacts) (plan : LoopIndexedOutputPlan)
      (dim : ℕ)
      → dim < length plan.output_shape
      → 1 ≤ extent_at plan.output_shape dim
      → let extent = extent_at plan.output_shape dim in
        let slice = uniform_slice L F m op facts extent in
        (pos slice ≤ℤ get_or (uniform_block L F m op facts plan dim) dim (pos 0))
        × (1 ≤ slice)
        × (slice ≤ extent)
        × (extent ≤ slice * uniform_workers L F m extent)
  unfolding uniform_block
  uniform_block-covers m op facts plan dim inside h =
      let extent = extent_at plan.output_shape dim in
      let slice = uniform_slice L F m op facts extent in
      let block = set plan.output_shape dim (pos slice) in
      let (low, high, covers) = uniform_slice-bounds m op facts extent h in
      (
        subst
            (λ z.
              z
              ≤ℤ get_or (align_late_owner_plan_to_existing_step op plan.owner_physical_dims block)
                  dim (pos 0))
            (get_or-set_self plan.output_shape dim (pos slice) (pos 0) inside)
            (align_grows op plan.owner_physical_dims block dim),
        low,
        high,
        covers,
      )
