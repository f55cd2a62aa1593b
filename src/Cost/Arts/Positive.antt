-- ===== src/Cost/Arts/Positive.antt =====
-- The counts of the machine that the planners divide by are positive.
use carts.Base.{arith}
use carts.Base.Int.{ℤ, pos, ◌≤ℤ◌}
use carts.Foreign.{Float}
use carts.Config.{RuntimeConfig, get_runtime_workers_per_node}
use carts.Config.Workers.{CountsFit, get_execution_mode_iff}
use carts.Cost.{
  max_ℤ, default_min_iterations_per_worker, default_inter_locality_task_waves,
  get_min_pipeline_owner_iterations_per_task,
}
use carts.Cost.Arts.{min_iterations_per_worker, arts_cost_model}

max_ℤ-positive : (a : ℤ) → pos 1 ≤ℤ max_ℤ (pos 1) a
max_ℤ-positive a = ground arith

module _ (F : Float) where
  waves-positive : (groups : ℤ) → pos 1 ≤ℤ default_inter_locality_task_waves F groups
  unfolding default_inter_locality_task_waves
  waves-positive groups = ground arith

  iterations-positive : (c : RuntimeConfig) → pos 1 ≤ℤ min_iterations_per_worker F c
  unfolding min_iterations_per_worker default_min_iterations_per_worker
  iterations-positive c = ground arith

  pipeline-positive :
      (c : RuntimeConfig)
      → pos 1 ≤ℤ get_min_pipeline_owner_iterations_per_task F (arts_cost_model F c)
  unfolding get_min_pipeline_owner_iterations_per_task
  pipeline-positive c = ground arith

  -- For every configuration, also one with zero or negative counts, and any floating-point
  -- arithmetic, where the nodes, at least 1, times the workers on a node fit in an int of 32 bits,
  -- the cost model has at least one worker, one locality group, one worker in each
  -- group, one iteration as the minimum of a worker and of an owner of a pipeline, and one wave
  -- of tasks.
  pub arts_cost_model-positive :
      (c : RuntimeConfig)
      → CountsFit c
      → let m = arts_cost_model F c in
        (pos 1 ≤ℤ m.get_logical_worker_capacity)
        × (pos 1 ≤ℤ m.get_worker_locality_group_count)
        × (pos 1 ≤ℤ m.get_workers_per_locality_group)
        × (pos 1 ≤ℤ m.get_min_iterations_per_worker)
        × (pos 1 ≤ℤ get_min_pipeline_owner_iterations_per_task F m)
        × (pos 1 ≤ℤ m.get_inter_locality_task_waves)
  unfolding arts_cost_model
  arts_cost_model-positive c fit = (
    (get_execution_mode_iff c fit).0,
    max_ℤ-positive c.node_count,
    max_ℤ-positive (get_runtime_workers_per_node c),
    iterations-positive c,
    pipeline-positive c,
    waves-positive _,
  )
