-- ===== src/Ownership.antt =====
-- Proof-driven ownership of data blocks: lib/carts/dialect/arts/Analysis/db/OwnershipProof.cpp and
-- its header, with the families of dependence patterns of include/carts/utils/OperationAttributes.h.
pub mod Proven
mod Examples
use carts.Base.{
  ℕ, ◌+◌, Bool, true, false, not, ◌&&◌, ◌||◌, Option, none, some, List, [], ◌∷◌, if◌then◌else◌, all,
}
use carts.Base.Int.{ℤ, pos, ltb_ℤ}
use carts.Partition.{PartitionMode, block_compatible}

pub data DepPattern : Type 0 where
  unknown uniform stencil matmul triangular wavefront_2d jacobi_alternating_buffers : DepPattern
  elementwise_pipeline stencil_tiling_nd cross_dim_stencil_3d higher_order_stencil : DepPattern
  reduction : DepPattern

unfoldable pub is_stencil_family_dep_pattern : DepPattern → Bool
is_stencil_family_dep_pattern stencil = true
is_stencil_family_dep_pattern stencil_tiling_nd = true
is_stencil_family_dep_pattern cross_dim_stencil_3d = true
is_stencil_family_dep_pattern higher_order_stencil = true
is_stencil_family_dep_pattern wavefront_2d = true
is_stencil_family_dep_pattern jacobi_alternating_buffers = true
is_stencil_family_dep_pattern unknown = false
is_stencil_family_dep_pattern uniform = false
is_stencil_family_dep_pattern triangular = false
is_stencil_family_dep_pattern matmul = false
is_stencil_family_dep_pattern elementwise_pipeline = false
is_stencil_family_dep_pattern reduction = false

unfoldable pub is_uniform_family_dep_pattern : DepPattern → Bool
is_uniform_family_dep_pattern uniform = true
is_uniform_family_dep_pattern elementwise_pipeline = true
is_uniform_family_dep_pattern reduction = true
is_uniform_family_dep_pattern unknown = false
is_uniform_family_dep_pattern stencil = false
is_uniform_family_dep_pattern matmul = false
is_uniform_family_dep_pattern triangular = false
is_uniform_family_dep_pattern wavefront_2d = false
is_uniform_family_dep_pattern jacobi_alternating_buffers = false
is_uniform_family_dep_pattern stencil_tiling_nd = false
is_uniform_family_dep_pattern cross_dim_stencil_3d = false
is_uniform_family_dep_pattern higher_order_stencil = false

pub record OwnershipProof : Type 0 where
  pub owner_dim_reachability : Bool
  pub partition_access_mapping : Bool
  pub halo_legality : Bool
  pub dep_slice_soundness : Bool
  pub relaunch_state_soundness : Bool

unfoldable pub is_fully_proven : OwnershipProof → Bool
is_fully_proven p =
    p.owner_dim_reachability
    && (p.partition_access_mapping
        && (p.halo_legality && (p.dep_slice_soundness && p.relaunch_state_soundness)))

abbrev pub count_of : Bool → ℕ
count_of b = if b then 1 else 0

unfoldable pub proven_count : OwnershipProof → ℕ
proven_count p =
    count_of p.owner_dim_reachability
    + count_of p.partition_access_mapping
    + count_of p.halo_legality
    + count_of p.dep_slice_soundness
    + count_of p.relaunch_state_soundness

abbrev pub nothing_proven : OwnershipProof
nothing_proven = record {
  owner_dim_reachability = false;
  partition_access_mapping = false;
  halo_legality = false;
  dep_slice_soundness = false;
  relaunch_state_soundness = false;
}

-- The proof attributes of an operation.
pub record ProofAttributes : Type 0 where
  pub owner_dim_reachability_attr : Option Bool
  pub partition_access_mapping_attr : Option Bool
  pub halo_legality_attr : Option Bool
  pub dep_slice_soundness_attr : Option Bool
  pub relaunch_state_soundness_attr : Option Bool

-- arts.lowering_contract as the analysis reads it. The rank is that of the target where the target
-- is a memref; the offsets are operands, numbered.
pub record LoweringContract : Type 0 where
  pub target_rank : Option ℕ
  pub owner_dims : Option (List ℤ)
  pub dep_pattern : Option DepPattern
  pub partition_mode : Option PartitionMode
  pub supported_block_halo : Option Bool
  pub narrowable_dep : Option Bool
  pub min_offsets : List ℕ
  pub max_offsets : List ℕ
  pub proof : ProofAttributes

abbrev pub value_or : Option Bool → Bool → Bool
value_or none d = d
value_or (some b) d = b

unfoldable pub within : ℕ → ℤ → Bool
within rank dim = not (ltb_ℤ dim (pos 0)) && ltb_ℤ dim (pos rank)

unfoldable pub dims_reachable : ℕ → Option (List ℤ) → Bool
dims_reachable rank none = false
dims_reachable rank (some []) = false
dims_reachable rank (some (dim ∷ dims)) = all (within rank) (dim ∷ dims)

unfoldable pub dims_below_rank : ℕ → Option (List ℤ) → Bool
dims_below_rank rank none = true
dims_below_rank rank (some dims) = all (λ dim. ltb_ℤ dim (pos rank)) dims

abbrev pub empty : List ℕ → Bool
empty [] = true
empty (x ∷ xs) = false

unfoldable pub halo_legal : LoweringContract → Bool
halo_legal c = elim c.dep_pattern [
  | none ↦ false
  | some pattern ↦
      if is_stencil_family_dep_pattern pattern
      then (not (empty c.min_offsets) && not (empty c.max_offsets))
        || value_or c.supported_block_halo false
      else if is_uniform_family_dep_pattern pattern
      then true
      else false
]

unfoldable pub dep_slice_sound : LoweringContract → Bool
dep_slice_sound c = elim c.dep_pattern [
  | none ↦ false
  | some pattern ↦
      if value_or c.narrowable_dep false
      then true
      else if is_uniform_family_dep_pattern pattern
      then true
      else false
]

abbrev pub has_pattern : Option DepPattern → Bool
has_pattern none = false
has_pattern (some pattern) = true

unfoldable pub compute_with_rank : ℕ → LoweringContract → OwnershipProof
compute_with_rank rank c =
    let reachable = dims_reachable rank c.owner_dims in
    record {
      owner_dim_reachability = reachable;
      partition_access_mapping =
          if reachable && has_pattern c.dep_pattern
          then block_compatible c.partition_mode && dims_below_rank rank c.owner_dims
          else false;
      halo_legality = halo_legal c;
      dep_slice_soundness = dep_slice_sound c;
      relaunch_state_soundness = true;
    }

unfoldable pub compute_ownership_proof : LoweringContract → OwnershipProof
compute_ownership_proof c = elim c.target_rank [
  | none ↦ nothing_proven
  | some rank ↦ compute_with_rank rank c
]

unfoldable pub stamp_ownership_proof : LoweringContract → OwnershipProof → LoweringContract
stamp_ownership_proof c p = record c {
  proof = record {
    owner_dim_reachability_attr = some p.owner_dim_reachability;
    partition_access_mapping_attr = some p.partition_access_mapping;
    halo_legality_attr = some p.halo_legality;
    dep_slice_soundness_attr = some p.dep_slice_soundness;
    relaunch_state_soundness_attr = some p.relaunch_state_soundness;
  };
}

unfoldable pub read_ownership_proof : LoweringContract → OwnershipProof
read_ownership_proof c = record {
  owner_dim_reachability = value_or c.proof.owner_dim_reachability_attr false;
  partition_access_mapping = value_or c.proof.partition_access_mapping_attr false;
  halo_legality = value_or c.proof.halo_legality_attr false;
  dep_slice_soundness = value_or c.proof.dep_slice_soundness_attr false;
  relaunch_state_soundness = value_or c.proof.relaunch_state_soundness_attr false;
}
