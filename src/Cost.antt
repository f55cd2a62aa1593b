-- ===== src/Cost.antt =====
-- The planning cost model: include/carts/dialect/sde/Utils/SDECostModel.h, and its implementation
-- over the runtime configuration, include/carts/dialect/arts/Utils/ARTSCostModel.h. Costs are
-- doubles, of an arithmetic that is a parameter; a decimal literal is the quotient that it rounds.
pub mod Arts
pub mod Samples
mod Examples
use carts.Base.{ℕ, ◌/◌, ◌*◌, max, Bool, if◌then◌else◌, leb, ◌==◌}
use carts.Base.Int.{ℤ, pos, negsuc, pos_part, ltb_ℤ, ◌+ℤ◌}
use carts.Foreign.{Float}
use carts.Loop.{ScheduleKind}

abbrev pub max_ℤ : ℤ → ℤ → ℤ
max_ℤ a b = if ltb_ℤ a b then b else a

module _ (F : Float) where
  open F use {Real}

  -- The virtual methods of SDECostModel.
  pub record CostModel : Type 0 where
    pub get_task_creation_cost : Real
    pub get_task_sync_cost : Real
    pub get_reduction_cost : ℤ → Real
    pub get_atomic_update_cost : Real
    pub get_data_access_cost : Real
    pub get_scheduling_overhead : ScheduleKind → ℤ → Real
    pub get_logical_worker_capacity : ℤ
    pub get_worker_locality_group_count : ℤ
    pub get_workers_per_locality_group : ℤ
    pub get_vector_width : ℤ
    pub get_l2_cache_size : ℤ
    pub get_min_iterations_per_worker : ℤ
    pub get_inter_locality_task_waves : ℤ
    pub get_owner_local_pipeline_target_task_waves : ℤ

  abbrev pub int_real : ℕ → Real
  int_real n = F.of_int (pos n)

  -- The bodies that SDECostModel gives to its methods, from what they call.
  unfoldable pub default_min_iterations_per_worker : Real → Real → ℤ
  default_min_iterations_per_worker creation access =
      max_ℤ (pos 1) (F.to_int (F.div creation (F.add access (int_real 1))))

  unfoldable pub default_inter_locality_task_waves : ℤ → ℤ
  default_inter_locality_task_waves group_count =
      let groups = max_ℤ (pos 1) group_count in
      if ltb_ℤ (pos 1) groups
      then max_ℤ (pos 2) (pos 1 +ℤ F.to_int (F.ceil (F.log2 (F.of_int (max_ℤ (pos 2) groups)))))
      else pos 1

  unfoldable pub get_min_pipeline_owner_iterations_per_task : CostModel → ℤ
  get_min_pipeline_owner_iterations_per_task m =
      let lifecycle = max_ℤ (pos 1) (
        F.to_int (
          F.ceil (
            F.div (F.add m.get_task_creation_cost m.get_task_sync_cost)
              (F.add m.get_data_access_cost (int_real 1))))) in
      let capacity =
        max_ℤ (pos 1)
          (F.to_int (F.ceil (F.log2 (F.of_int (max_ℤ (pos 2) m.get_logical_worker_capacity))))) in
      max_ℤ (max_ℤ m.get_min_iterations_per_worker lifecycle) capacity

  -- getVectorWidthForElementBits; a uint64_t has 64 digits.
  unfoldable pub get_vector_width_for_element_bits : CostModel → ℕ → ℕ
  get_vector_width_for_element_bits m element_bits =
      let base = max 1 (pos_part m.get_vector_width) in
      if element_bits == 0 then base else base * max 1 (64 / element_bits)

  unfoldable pub get_vector_unroll_factor : CostModel → Bool → ℕ
  get_vector_unroll_factor m reuse_heavy =
      let base = max 1 (pos_part m.get_vector_width) in if reuse_heavy then base * base else base

  unfoldable pub get_vector_interleave_count : CostModel → ℕ
  get_vector_interleave_count m = let base = max 1 (pos_part m.get_vector_width) in base * base
