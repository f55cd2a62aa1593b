-- ===== src/Cost/Examples.antt =====
-- An instance of the theorem about the cost model.
use carts.Base.{◌≡◌, refl, arith}
use carts.Base.Int.{pos, negsuc, ◌+ℤ◌, ◌≤ℤ◌, ◌*ℤ◌}
use carts.Foreign.Reference.{whole_numbers}
use carts.Config.{
  RuntimeConfig, defaults, get_runtime_workers_per_node, get_runtime_total_workers, int32,
}
use carts.Cost.{get_min_pipeline_owner_iterations_per_task}
use carts.Cost.Arts.{arts_cost_model}
use carts.Cost.Arts.Positive.{arts_cost_model-positive}

abbrev no_nodes : RuntimeConfig
no_nodes = record defaults { node_count = negsuc 0; threads = pos 0 }

arts_cost_model-positive_example :
    let m = arts_cost_model whole_numbers no_nodes in
    (pos 1 ≤ℤ m.get_logical_worker_capacity)
    × (pos 1 ≤ℤ m.get_worker_locality_group_count)
    × (pos 1 ≤ℤ m.get_workers_per_locality_group)
    × (pos 1 ≤ℤ m.get_min_iterations_per_worker)
    × (pos 1 ≤ℤ get_min_pipeline_owner_iterations_per_task whole_numbers m)
    × (pos 1 ≤ℤ m.get_inter_locality_task_waves)
unfolding get_runtime_workers_per_node int32 ◌+ℤ◌
arts_cost_model-positive_example = arts_cost_model-positive whole_numbers no_nodes (omega arith)

-- What the condition excludes: the workers of 65536 nodes with 65536 threads each are counted as 0.
total_overflows :
    get_runtime_total_workers (record defaults { node_count = pos 65536; threads = pos 65536 })
    ≡ pos 0
unfolding get_runtime_total_workers get_runtime_workers_per_node int32 ◌*ℤ◌
total_overflows = refl
