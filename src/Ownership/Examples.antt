-- ===== src/Ownership/Examples.antt =====
-- Lowering contracts, and instances of the theorems about their ownership proofs.
use carts.Base.{true, none, some, [], ◌∷◌, ◌≡◌, ◌↔◌, refl}
use carts.Base.Int.{pos}
use carts.Ownership.{
  stencil, nothing_proven, LoweringContract, is_fully_proven, compute_ownership_proof,
  stamp_ownership_proof, read_ownership_proof,
}
use carts.Ownership.Proven.{Evidence, is_fully_proven_iff}

-- A stencil over the rows of a plane, with a block halo.
abbrev rows : LoweringContract
rows = record {
  target_rank = some 2;
  owner_dims = some (pos 0 ∷ []);
  dep_pattern = some stencil;
  partition_mode = none;
  supported_block_halo = some true;
  narrowable_dep = some true;
  min_offsets = [];
  max_offsets = [];
  proof = record {
    owner_dim_reachability_attr = none;
    partition_access_mapping_attr = none;
    halo_legality_attr = none;
    dep_slice_soundness_attr = none;
    relaunch_state_soundness_attr = none;
  };
}

is_fully_proven_iff_example :
    (is_fully_proven (compute_ownership_proof rows) ≡ true) ↔ Evidence rows
is_fully_proven_iff_example = is_fully_proven_iff rows

reread : read_ownership_proof (stamp_ownership_proof rows nothing_proven) ≡ nothing_proven
unfolding read_ownership_proof stamp_ownership_proof
reread = refl
