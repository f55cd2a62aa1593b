-- ===== src/Plan/Pass/Kept.antt =====
-- What the pass leaves alone.
use carts.Base.{true, ◌||◌, none, ◌≡◌, ◌⊎◌, inl, inr, arith, refl, ap, ◌∙◌, is_some}
use carts.Base.Int.{pos, ltb_ℤ, ◌≤ℤ◌}
use carts.Foreign.{Float, Llvm}
use carts.Loop.{SuIterate}
use carts.Cost.{CostModel}
use carts.Plan.Facts.{BodyFacts}
use carts.Plan.Stamp.{
  stamp_reduction_task_shape_plan, stamp_in_place_shared_stencil_serial_slice,
  choose_distribution_kind, bare, place,
}
use carts.Plan.Physical.{
  has_plan, is_settled, stamp_stencil_physical_plan, stamp_direct_row_matmul_physical_plan,
  stamp_matmul_physical_plan,
}
use carts.Plan.Uniform.{stamp_uniform_physical_plan}
use carts.Plan.Pass.{stamp_physical_plans, plan_loop}

module _ (L : Llvm) (F : Float) where
  settled_if :
      (m : CostModel F) (op : SuIterate)
      → (has_plan op ≡ true) ⊎ (m.get_logical_worker_capacity ≤ℤ pos 1)
      → is_settled L F m op ≡ true
  unfolding is_settled
  settled_if m op (inl h) = ground arith
  settled_if m op (inr h) = ground arith

  stencil_settled :
      (m : CostModel F) (op : SuIterate) (facts : BodyFacts)
      → is_settled L F m op ≡ true
      → stamp_stencil_physical_plan L F m op facts ≡ op
  unfolding stamp_stencil_physical_plan
  stencil_settled m op facts e = rw (e, stamp_stencil_physical_plan) refl

  row_settled :
      (m : CostModel F) (op : SuIterate) (facts : BodyFacts)
      → is_settled L F m op ≡ true
      → stamp_direct_row_matmul_physical_plan L F m op facts ≡ op
  unfolding stamp_direct_row_matmul_physical_plan
  row_settled m op facts e = rw (e, stamp_direct_row_matmul_physical_plan) refl

  matmul_settled :
      (m : CostModel F) (op : SuIterate) (facts : BodyFacts)
      → is_settled L F m op ≡ true
      → stamp_matmul_physical_plan L F m op facts ≡ op
  unfolding stamp_matmul_physical_plan
  matmul_settled m op facts e = rw (e, stamp_matmul_physical_plan) refl

  uniform_settled :
      (m : CostModel F) (op : SuIterate) (facts : BodyFacts)
      → is_settled L F m op ≡ true
      → stamp_uniform_physical_plan L F m op facts ≡ op
  unfolding stamp_uniform_physical_plan
  uniform_settled m op facts e = rw (e, stamp_uniform_physical_plan) refl

  -- A loop that has owner dimensions and a block shape already, and any loop on a machine with at
  -- most one worker, is given no other physical plan, whatever the analyses find.
  pub stamp_physical_plans_lem :
      (m : CostModel F) (op : SuIterate) (facts : BodyFacts)
      → (has_plan op ≡ true) ⊎ (m.get_logical_worker_capacity ≤ℤ pos 1)
      → stamp_physical_plans L F m op facts ≡ op
  unfolding stamp_physical_plans
  stamp_physical_plans_lem m op facts h =
      let e = settled_if m op h in
      let uniform = λ (o : SuIterate). stamp_uniform_physical_plan L F m o facts in
      let matmul = λ (o : SuIterate). stamp_matmul_physical_plan L F m o facts in
      let row = λ (o : SuIterate). stamp_direct_row_matmul_physical_plan L F m o facts in
      ap (λ o. uniform (matmul (row o))) (stencil_settled m op facts e)
      ∙ ap (λ o. uniform (matmul o)) (row_settled m op facts e)
      ∙ ap uniform (matmul_settled m op facts e)
      ∙ uniform_settled m op facts e

  slice_alone :
      (m : CostModel F) (op : SuIterate)
      → m.get_logical_worker_capacity ≤ℤ pos 1
      → stamp_in_place_shared_stencil_serial_slice L F m op ≡ op
  unfolding stamp_in_place_shared_stencil_serial_slice
  slice_alone m op h =
      let one : ltb_ℤ m.get_logical_worker_capacity (pos 2) ≡ true = ground arith in
      let either : (is_some op.logical_worker_slice || ltb_ℤ m.get_logical_worker_capacity (pos 2))
          ≡ true =
        ground arith in
      rw (either, stamp_in_place_shared_stencil_serial_slice) refl

  none_chosen :
      (m : CostModel F) (op : SuIterate) (facts : BodyFacts)
      → m.get_logical_worker_capacity ≤ℤ pos 1
      → choose_distribution_kind L F m op facts ≡ none
  unfolding choose_distribution_kind
  none_chosen m op facts h = ground arith

  -- On a machine with at most one worker the pass distributes no loop and makes no physical plan:
  -- all that it does is to slice reductions.
  pub plan_loop_lem :
      (m : CostModel F) (op : SuIterate) (facts : BodyFacts)
      → m.get_logical_worker_capacity ≤ℤ pos 1
      → plan_loop L F m op facts
        ≡ bare (stamp_reduction_task_shape_plan L F m op facts.loop_indexed_output)
  unfolding plan_loop place
  plan_loop_lem m op facts h =
      let sliced =
        λ (o : SuIterate). stamp_reduction_task_shape_plan L F m o facts.loop_indexed_output in
      let serial = λ (o : SuIterate). stamp_in_place_shared_stencil_serial_slice L F m o in
      let placed = λ (o : SuIterate). place o (choose_distribution_kind L F m o facts) in
      ap (λ o. placed (serial (sliced o))) (stamp_physical_plans_lem m op facts (inr h))
      ∙ ap placed (slice_alone m (sliced op) h)
      ∙ ap (place (sliced op)) (none_chosen m (sliced op) facts h)
