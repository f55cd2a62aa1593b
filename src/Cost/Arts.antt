-- ===== src/Cost/Arts.antt =====
-- ARTSCostModel: the cost model over a runtime configuration.
pub mod Positive
use carts.Base.{ℕ, Bool, true, false, if◌then◌else◌, ◌≡◌, ◌⊎◌, arith, Bool-cases, inl, inr}
use carts.Base.Int.{ℤ, pos, ltb_ℤ, ◌≤ℤ◌}
use carts.Foreign.{Float}
use carts.Loop.{ScheduleKind, static, dynamic, guided, auto, runtime}
use carts.Config.{RuntimeConfig, get_runtime_workers_per_node, get_runtime_total_workers}
use carts.Cost.{
  CostModel, int_real, max_ℤ, default_min_iterations_per_worker, default_inter_locality_task_waves,
}

module _ (F : Float) where
  open F use {Real}

  abbrev task_creation_cost : Real
  task_creation_cost = int_real F 1800

  abbrev task_sync_cost : Real
  task_sync_cost = int_real F 3000

  abbrev atomic_update_cost : Real
  atomic_update_cost = int_real F 100

  abbrev data_access_cost : Real
  data_access_cost = int_real F 500

  -- std::min(tree, linear)
  pub reduction_cost : ℤ → Real
  reduction_cost worker_count =
      let tree = F.mul (F.log2 (F.of_int worker_count)) task_sync_cost in
      let linear = F.mul (F.of_int worker_count) atomic_update_cost in
      if F.lt linear tree then linear else tree

  pub scheduling_overhead : ScheduleKind → Real
  scheduling_overhead static = int_real F 0
  scheduling_overhead dynamic = F.mul task_creation_cost (F.div (int_real F 1) (int_real F 10))
  scheduling_overhead guided = F.mul task_creation_cost (F.div (int_real F 5) (int_real F 100))
  scheduling_overhead auto = int_real F 0
  scheduling_overhead runtime = int_real F 0

  pub min_iterations_per_worker : RuntimeConfig → ℤ
  min_iterations_per_worker machine =
      let configured = machine.min_iterations_per_worker in
      if ltb_ℤ (pos 0) configured
      then configured
      else default_min_iterations_per_worker F task_creation_cost data_access_cost

  abbrev group_count : RuntimeConfig → ℤ
  group_count machine = max_ℤ (pos 1) machine.node_count

  unfoldable pub arts_cost_model : RuntimeConfig → CostModel F
  unfolding reduction_cost scheduling_overhead min_iterations_per_worker
  arts_cost_model machine = record {
    get_task_creation_cost = task_creation_cost;
    get_task_sync_cost = task_sync_cost;
    get_reduction_cost = reduction_cost;
    get_atomic_update_cost = atomic_update_cost;
    get_data_access_cost = data_access_cost;
    get_scheduling_overhead = λ kind trip_count. scheduling_overhead kind;
    get_logical_worker_capacity = get_runtime_total_workers machine;
    get_worker_locality_group_count = group_count machine;
    get_workers_per_locality_group = max_ℤ (pos 1) (get_runtime_workers_per_node machine);
    get_vector_width = pos 2;
    get_l2_cache_size = pos 262144;
    get_min_iterations_per_worker = min_iterations_per_worker machine;
    get_inter_locality_task_waves = default_inter_locality_task_waves F (group_count machine);
    get_owner_local_pipeline_target_task_waves = pos 1;
  }
