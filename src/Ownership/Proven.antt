-- ===== src/Ownership/Proven.antt =====
-- When a lowering contract is fully proven.
use carts.Base.{
  ℕ, true, false, not, ◌&&◌, ◌||◌, Option, none, some, List, [], ◌∷◌, all, All, ◌≡◌, ◌≢◌, ◌⊎◌, ◌↔◌,
  arith, refl, ◌<◌, Option-cases, Bool-cases, inl, inr, sym, ap, ◌∙◌,
}
use carts.Base.Int.{ℤ, pos, negsuc, ltb_ℤ}
use carts.Partition.{block_compatible}
use carts.Ownership.{
  DepPattern, is_stencil_family_dep_pattern, is_uniform_family_dep_pattern, is_fully_proven,
  LoweringContract, value_or, within, dims_reachable, dims_below_rank, empty, halo_legal,
  dep_slice_sound, has_pattern, compute_with_rank, compute_ownership_proof,
}

abbrev pub IsDimOf : ℕ → ℤ → Type 0
IsDimOf rank dim = (n : ℕ) × (dim ≡ pos n) × (n < rank)

-- The evidence for a full proof: the target is a memref, there are owner dimensions, each one of the
-- memref's, the partition mode is none, block or stencil, and the dependence pattern is either of
-- the uniform family or of the stencil family, where the dependence is narrowable and both offsets
-- are given or a block halo is supported.
abbrev pub Evidence : LoweringContract → Type 0
Evidence c =
    (rank : ℕ) × (dims : List ℤ) × (pattern : DepPattern) × (c.target_rank ≡ some rank)
    × (c.owner_dims ≡ some dims)
    × (c.dep_pattern ≡ some pattern)
    × (dims ≢ [])
    × All (IsDimOf rank) dims
    × (block_compatible c.partition_mode ≡ true)
    × ((is_uniform_family_dep_pattern pattern ≡ true)
        ⊎ ((is_stencil_family_dep_pattern pattern ≡ true)
            × (value_or c.narrowable_dep false ≡ true)
            × (((not (empty c.min_offsets) && not (empty c.max_offsets))
                  || value_or c.supported_block_halo false)
                ≡ true)))

within_iff : (rank : ℕ) (dim : ℤ) → (within rank dim ≡ true) ↔ IsDimOf rank dim
unfolding within
within_iff rank (pos n) = ((λ h. (n, refl, ground arith)), λ (m, e, h). ground arith)
within_iff rank (negsuc n) = ((λ h. absurd (ground arith)), λ (m, e, h). absurd (cc))

all-within : (rank : ℕ) (dims : List ℤ) → (all (within rank) dims ≡ true) ↔ All (IsDimOf rank) dims
all-within rank [] = ((λ h. tt), λ h. refl)
all-within rank (d ∷ ds) = (
  (λ h. ((within_iff rank d).0 (ground arith), (all-within rank ds).0 (ground arith))),
  λ (first, rest). rw ((within_iff rank d).1 first, (all-within rank ds).1 rest) refl,
)

below_rank :
    (rank : ℕ) (dims : List ℤ)
    → all (within rank) dims ≡ true
    → all (λ d. ltb_ℤ d (pos rank)) dims ≡ true
unfolding within
below_rank rank [] h = refl
below_rank rank (d ∷ ds) h =
    let rest = below_rank rank ds (ground arith) in
    let first : ltb_ℤ d (pos rank) ≡ true = ground arith in rw (first, rest) refl

-- The two families have no pattern in common.
families :
    (p : DepPattern)
    → is_uniform_family_dep_pattern p ≡ true
    → is_stencil_family_dep_pattern p ≡ false
unfolding is_uniform_family_dep_pattern is_stencil_family_dep_pattern
families p h = ground arith

abbrev Pattern : LoweringContract → DepPattern → Type 0
Pattern c pattern =
    (is_uniform_family_dep_pattern pattern ≡ true)
    ⊎ ((is_stencil_family_dep_pattern pattern ≡ true)
        × (value_or c.narrowable_dep false ≡ true)
        × (((not (empty c.min_offsets) && not (empty c.max_offsets))
              || value_or c.supported_block_halo false)
            ≡ true))

Pattern-sound :
    (c : LoweringContract) (pattern : DepPattern)
    → c.dep_pattern ≡ some pattern
    → halo_legal c ≡ true
    → dep_slice_sound c ≡ true
    → Pattern c pattern
unfolding halo_legal dep_slice_sound
Pattern-sound c pattern e h k = elim (Bool-cases (is_uniform_family_dep_pattern pattern)) [
  | inl u ↦ inl u
  | inr u ↦ inr (ground arith, ground arith, ground arith)
]

Pattern-complete :
    (c : LoweringContract) (pattern : DepPattern)
    → c.dep_pattern ≡ some pattern
    → Pattern c pattern
    → (halo_legal c ≡ true) × (dep_slice_sound c ≡ true)
unfolding halo_legal dep_slice_sound
Pattern-complete c pattern e (inl u) = let s = families pattern u in (ground arith, ground arith)
Pattern-complete c pattern e (inr (s, n, o)) = (ground arith, ground arith)

abbrev Parts : (rank : ℕ) (c : LoweringContract) → Type 0
Parts rank c =
    (dims_reachable rank c.owner_dims ≡ true)
    × (has_pattern c.dep_pattern ≡ true)
    × (block_compatible c.partition_mode ≡ true)
    × (dims_below_rank rank c.owner_dims ≡ true)
    × (halo_legal c ≡ true)
    × (dep_slice_sound c ≡ true)

true-false : true ≢ false
true-false h = cc

with_rank_iff :
    (rank : ℕ) (c : LoweringContract)
    → (is_fully_proven (compute_with_rank rank c) ≡ true) ↔ Parts rank c
unfolding is_fully_proven compute_with_rank
with_rank_iff rank c = (
  (λ h. (ground arith, ground arith, ground arith, ground arith, ground arith, ground arith)),
  λ (a, b, d, e, f, g). rw (a, b, d, e, f, g) refl,
)

reachable_dims :
    (rank : ℕ) (dims : Option (List ℤ))
    → dims_reachable rank dims ≡ true
    → (ds : List ℤ) × (dims ≡ some ds) × (ds ≢ []) × All (IsDimOf rank) ds
unfolding dims_reachable
reachable_dims rank none h = absurd (ground arith)
reachable_dims rank (some []) h = absurd (ground arith)
reachable_dims rank (some (d ∷ ds)) h = (d ∷ ds, refl, (λ e. cc), (all-within rank (d ∷ ds)).0 h)

dims_reach :
    (rank : ℕ) (ds : List ℤ)
    → ds ≢ []
    → All (IsDimOf rank) ds
    → (dims_reachable rank (some ds) ≡ true) × (dims_below_rank rank (some ds) ≡ true)
unfolding dims_reachable dims_below_rank
dims_reach rank [] h a = absurd (h refl)
dims_reach rank (d ∷ ds) h a =
    let reach = (all-within rank (d ∷ ds)).1 a in (reach, below_rank rank (d ∷ ds) reach)

pattern_of :
    (p : Option DepPattern) → has_pattern p ≡ true → (pattern : DepPattern) × (p ≡ some pattern)
pattern_of none h = absurd (ground arith)
pattern_of (some pattern) h = (pattern, refl)

computed :
    (c : LoweringContract) (rank : ℕ)
    → c.target_rank ≡ some rank
    → compute_ownership_proof c ≡ compute_with_rank rank c
unfolding compute_ownership_proof compute_with_rank halo_legal dep_slice_sound
computed c rank e = rw (e, compute_ownership_proof) refl

no_target :
    (c : LoweringContract)
    → c.target_rank ≡ none
    → is_fully_proven (compute_ownership_proof c) ≡ false
unfolding compute_ownership_proof is_fully_proven
no_target c e = ground arith

-- The computed proof of a contract is full exactly when the contract holds the evidence: a memref
-- target, nonempty owner dimensions that are all dimensions of it, a block-compatible or absent
-- partition mode, and a dependence pattern of the uniform family, or one of the stencil family that
-- is marked narrowable and has both offsets or a supported block halo.
pub is_fully_proven_iff :
    (c : LoweringContract) → (is_fully_proven (compute_ownership_proof c) ≡ true) ↔ Evidence c
unfolding compute_ownership_proof
is_fully_proven_iff c = (
  (λ h. elim (Option-cases c.target_rank) [
    | inl e ↦ absurd (true-false (sym h ∙ no_target c e))
    | inr (rank, e) ↦
        let (reach, pattern?, mode, below, halo, slice) =
          (with_rank_iff rank c).0 (sym (ap is_fully_proven (computed c rank e)) ∙ h) in
        let (dims, ed, listed, within_rank) = reachable_dims rank c.owner_dims reach in
        let (pattern, ep) = pattern_of c.dep_pattern pattern? in
        (
          rank,
          dims,
          pattern,
          e,
          ed,
          ep,
          listed,
          within_rank,
          mode,
          Pattern-sound c pattern ep halo slice,
        )
  ]),
  λ (rank, dims, pattern, e, ed, ep, listed, within_rank, mode, family).
      let (reach, below) = dims_reach rank dims listed within_rank in
      let (halo, slice) = Pattern-complete c pattern ep family in
      ap is_fully_proven (computed c rank e)
      ∙ (with_rank_iff rank c).1 (
        ap (dims_reachable rank) ed ∙ reach,
        ap has_pattern ep,
        mode,
        ap (dims_below_rank rank) ed ∙ below,
        halo,
        slice,
      ),
)
