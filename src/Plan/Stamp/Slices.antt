-- ===== src/Plan/Stamp/Slices.antt =====
-- The slices that the stamps choose cover the loop, and which loops are distributed by owner.
use carts.Base.{
  ℕ, ◌*◌, ◌/◌, ◌≤◌, ◌⊎◌, max, min, ◌≡◌, ◌≢◌, ◌↔◌, inl, inr, Bool, true, false, none, some, arith,
  sym, ◌∙◌, subst, if◌then◌else◌, ltb, Option-cases,
}
use carts.Base.Int.{ℤ, pos, pos_part, ◌≤ℤ◌}
use carts.Foreign.{Float, Llvm}
use carts.Loop.{SuIterate, stencil, owner_compute, get_static_trip_count}
use carts.Cost.{CostModel}
use carts.Sizing.{at_least_one, is_empty, ceil_div_positive}
use carts.Sizing.Grid.{ceil_div_positive_lem}
use carts.Schedule.Chunk.{clamp}
use carts.Schedule.Chunk.Bounds.{covers_min}
use carts.Schedule.Refinement.{int64_max}
use carts.Plan.{saturating_multiply_positive}
use carts.Plan.Facts.{BodyFacts}
use carts.Plan.Stamp.{
  is_in_place_self_read_stencil, reduction_slice, has_enough_work_for_distribution, kind_of_class,
  kind_unclassified, choose_distribution_kind,
}

pub slice_bounds :
    (low d w t : ℕ)
    → 1 ≤ d
    → 1 ≤ t
    → 1 ≤ w
    → t ≤ d * w
    → (1 ≤ clamp (max low d) 1 t) × (clamp (max low d) 1 t ≤ t) × (t ≤ clamp (max low d) 1 t * w)
slice_bounds low d w t hd ht hw h =
    let same : max low d ≡ max (max low 1) d = omega arith in
    let clamped : clamp (max low d) 1 t ≡ min (max low d) t = ground arith in
    (
      ground arith,
      ground arith,
      subst (λ z. t ≤ z * w) (sym clamped) (covers_min (max low d) d w t hw (omega arith) h),
    )

none-some : {n : ℕ} → none ≢ some n
none-some h = cc

some_injective : {n t : ℕ} → some n ≡ some t → n ≡ t
some_injective h = cc

positive_if : (b : Bool) (x y : ℕ) → 1 ≤ x → 1 ≤ y → 1 ≤ (if b then x else y)
positive_if true x y h k = h
positive_if false x y h k = k

product_positive : (a b : ℕ) → 1 ≤ a → 1 ≤ b → 1 ≤ a * b
product_positive a b h k = grind arith

pub factor_positive : (d w n : ℕ) → 1 ≤ n → n ≤ d * w → 1 ≤ d
factor_positive d w n h k = grind arith

module _ (L : Llvm) (F : Float) where
  -- The tasks that a reduction is cut for.
  abbrev pub target_tasks : CostModel F → SuIterate → ℕ
  target_tasks m op =
      if is_empty op.accumulators_float
      then saturating_multiply_positive (pos (at_least_one m.get_logical_worker_capacity))
          m.get_owner_local_pipeline_target_task_waves
      else at_least_one m.get_logical_worker_capacity

  saturated_positive : (a b : ℤ) → 1 ≤ saturating_multiply_positive a b
  unfolding saturating_multiply_positive
  saturated_positive a b =
      positive_if (ltb (int64_max / at_least_one b) (at_least_one a)) int64_max _ (omega arith)
        (product_positive (at_least_one a) (at_least_one b) (omega arith) (omega arith))

  target_positive : (m : CostModel F) (op : SuIterate) → 1 ≤ target_tasks m op
  target_positive m op =
      positive_if (is_empty op.accumulators_float) _ _ (saturated_positive _ _) (omega arith)

  -- The slice that a reduction of at least one iteration is given is between 1 and the trip count,
  -- and as many slices as there are target tasks cover the loop.
  pub reduction_slice-bounds :
      (m : CostModel F) (op : SuIterate) (n : ℕ)
      → 1 ≤ n
      → (1 ≤ reduction_slice L F m op n)
        × (reduction_slice L F m op n ≤ n)
        × (n ≤ reduction_slice L F m op n * target_tasks m op)
  unfolding reduction_slice
  reduction_slice-bounds m op n h =
      let p = target_positive m op in
      let d = ceil_div_positive L (pos n) (pos (target_tasks m op)) in
      let same = ceil_div_positive_lem L n (target_tasks m op) h p in
      let covers : n ≤ d * target_tasks m op =
        subst (λ z. n ≤ z * target_tasks m op) (sym same)
          (L.divide_ceil_covers n (target_tasks m op) p) in
      slice_bounds (pos_part m.get_min_iterations_per_worker) d (target_tasks m op) n
        (factor_positive d (target_tasks m op) n h covers) h p covers

  enough_iff :
      (m : CostModel F) (op : SuIterate)
      → (has_enough_work_for_distribution L F m op ≡ true) ↔ (
          (n : ℕ)
          → get_static_trip_count op ≡ some n
          → saturating_multiply_positive m.get_logical_worker_capacity
              m.get_min_iterations_per_worker
            ≤ n)
  unfolding has_enough_work_for_distribution
  enough_iff m op = elim (Option-cases (get_static_trip_count op)) [
    | inl e ↦ ((λ h n k. absurd (none-some (sym e ∙ k))), λ f. ground arith)
    | inr (t, e) ↦ (
      (λ h n k. let same = some_injective (sym e ∙ k) in ground arith),
      λ f. let enough = f t e in ground arith,
    )
  ]

  owner_compute_iff :
      (m : CostModel F) (op : SuIterate) (facts : BodyFacts)
      → (choose_distribution_kind L F m op facts ≡ some owner_compute) ↔ (
          (op.in_distribute ≡ false)
          × (pos 2 ≤ℤ m.get_logical_worker_capacity)
          × (op.classification ≡ some stencil)
          × (op.num_results ≡ 0)
          × ((facts.has_unknown_effects ≡ true) ⊎ (facts.has_in_place_self_read ≡ false))
          × (has_enough_work_for_distribution L F m op ≡ true))
  unfolding choose_distribution_kind kind_of_class kind_unclassified is_in_place_self_read_stencil
  owner_compute_iff m op facts = (
    (λ h. (ground arith, ground arith, ground arith, ground arith, ground arith, ground arith)),
    λ (a, b, c, d, e, f). ground arith,
  )

  -- A loop is to be distributed by owner exactly when it is not distributed yet, the machine has
  -- more than one worker, the loop is a stencil without results that has unknown memory effects or does not read in place what
  -- it writes, and its trip count is unknown or at least the number of workers times the minimum
  -- of iterations for each, both taken as at least 1 and the product capped at the largest int64.
  pub choose_distribution_kind_iff :
      (m : CostModel F) (op : SuIterate) (facts : BodyFacts)
      → (choose_distribution_kind L F m op facts ≡ some owner_compute) ↔ (
          (op.in_distribute ≡ false)
          × (pos 2 ≤ℤ m.get_logical_worker_capacity)
          × (op.classification ≡ some stencil)
          × (op.num_results ≡ 0)
          × ((facts.has_unknown_effects ≡ true) ⊎ (facts.has_in_place_self_read ≡ false))
          × ((n : ℕ)
              → get_static_trip_count op ≡ some n
              → saturating_multiply_positive m.get_logical_worker_capacity
                  m.get_min_iterations_per_worker
                ≤ n))
  choose_distribution_kind_iff m op facts = (
    (λ h.
        let (a, b, c, d, e, f) = (owner_compute_iff m op facts).0 h in
        (a, b, c, d, e, (enough_iff m op).0 f)),
    λ (a, b, c, d, e, f). (owner_compute_iff m op facts).1 (a, b, c, d, e, (enough_iff m op).1 f),
  )
