-- ===== src/Cost/Samples.antt =====
-- A cost model for examples, over whole-number costs.
use carts.Base.Int.{pos}
use carts.Foreign.Reference.{whole_numbers}
use carts.Cost.{CostModel}

-- A cost model of a machine with four workers.
abbrev pub four_workers : CostModel whole_numbers
four_workers = record {
  get_task_creation_cost = pos 1800;
  get_task_sync_cost = pos 3000;
  get_reduction_cost = λ workers. pos 400;
  get_atomic_update_cost = pos 100;
  get_data_access_cost = pos 500;
  get_scheduling_overhead = λ kind trip_count. pos 7;
  get_logical_worker_capacity = pos 4;
  get_worker_locality_group_count = pos 1;
  get_workers_per_locality_group = pos 4;
  get_vector_width = pos 2;
  get_l2_cache_size = pos 262144;
  get_min_iterations_per_worker = pos 3;
  get_inter_locality_task_waves = pos 1;
  get_owner_local_pipeline_target_task_waves = pos 1;
}
