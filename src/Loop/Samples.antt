-- ===== src/Loop/Samples.antt =====
-- A loop without attributes, from 0 to 1 by 1, for examples to start from.
use carts.Base.{none, [], ◌∷◌, false}
use carts.Base.Int.{pos}
use carts.Loop.{SuIterate, constant}

abbrev pub plain : SuIterate
plain = record {
  lower_bounds = constant (pos 0) ∷ [];
  upper_bounds = constant (pos 1) ∷ [];
  steps = constant (pos 1) ∷ [];
  schedule = none;
  chunk_size = none;
  accumulators_float = [];
  reduction_kinds = none;
  reduction_strategy = none;
  partial_reduction = false;
  nested_sequential_loop = false;
  num_results = 0;
  in_distribute = false;
  classification = none;
  access_min_offsets = none;
  access_max_offsets = none;
  owner_dims = none;
  in_place_safe = false;
  in_place_shared_state = false;
  physical_owner_dims = none;
  physical_block_shape = none;
  physical_halo_shape = none;
  logical_worker_slice = none;
  iteration_topology = none;
  distribution_kind = none;
}
