-- ===== src/DbLayout.antt =====
-- lib/carts/dialect/arts/Utils/DbLayoutPlanUtils.cpp: the physical layout of a datablock from the
-- plan attributes of an operation. The index arithmetic that is emitted is the data type IndexExpr.
pub mod Run
pub mod Tiles
mod Examples
use carts.Base.{
  ℕ, zero, suc, Bool, true, false, not, ◌||◌, ◌==◌, ltb, leb, if◌then◌else◌, Option, none, some,
  List, [], ◌∷◌, ◌++◌, any, length, get_elem?,
}
use carts.Base.Int.{ℤ, pos, negsuc, ltb_ℤ}
use carts.Loop.{Value}

-- readI64ArrayAttr; an element that is no integer is `none`.
unfoldable pub read_i64_elements : List (Option ℤ) → Option (List ℤ)
read_i64_elements [] = some []
read_i64_elements (none ∷ es) = none
read_i64_elements (some n ∷ es) = elim (read_i64_elements es) [
  | none ↦ none
  | some ns ↦ some (n ∷ ns)
]

abbrev pub read_i64_array_attr : Option (List (Option ℤ)) → Option (List ℤ)
unfolding read_i64_elements
read_i64_array_attr none = none
read_i64_array_attr (some es) = read_i64_elements es

pub data IndexExpr : Type 0 where
  value : Value → IndexExpr
  index : ℤ → IndexExpr
  add_i sub_i max_ui div_ui : IndexExpr → IndexExpr → IndexExpr

-- ceilDivPositiveIndex
abbrev pub ceil_div_positive_index : IndexExpr → IndexExpr → IndexExpr
ceil_div_positive_index v divisor =
    let d = max_ui divisor (index (pos 1)) in div_ui (add_i v (sub_i d (index (pos 1)))) d

-- DbPhysicalLayoutPlan, in the block mode.
pub record DbPhysicalLayoutPlan : Type 0 where
  pub block_sizes : List ℤ
  pub partitioned_dims : List ℕ
  pub outer_sizes : List IndexExpr
  pub inner_sizes : List IndexExpr

abbrev pub has_dim : List ℕ → ℕ → Bool
has_dim seen d = any (λ s. s == d) seen

-- The owner dimensions: none is negative, beyond the rank or given twice.
unfoldable pub owner_dims_from : ℕ → List ℕ → List ℤ → Option (List ℕ)
owner_dims_from rank seen [] = some []
owner_dims_from rank seen (negsuc n ∷ rest) = none
owner_dims_from rank seen (pos d ∷ rest) =
    let later = owner_dims_from rank (d ∷ seen) rest in
    if leb rank d || has_dim seen d
    then none
    else elim later [ none ↦ none | some ds ↦ some (d ∷ ds) ]

-- A shape of the full rank is read by dimension, another by the owner's slot.
abbrev pub block_for : ℕ → List ℤ → ℕ → ℕ → Option ℤ
block_for rank shape slot dim =
    if length shape == rank then get_elem? shape dim else get_elem? shape slot

abbrev pub positive : Option ℤ → Option ℤ
positive none = none
positive (some b) = if ltb_ℤ (pos 0) b then some b else none

-- The block sizes of the owner dimensions from a slot on; all have to be there and positive.
unfoldable pub block_sizes_from : ℕ → List ℤ → ℕ → List ℕ → Option (List ℤ)
block_sizes_from rank shape slot [] = some []
block_sizes_from rank shape slot (d ∷ ds) =
    let later = block_sizes_from rank shape (suc slot) ds in
    elim (positive (block_for rank shape slot d)) [
      | none ↦ none
      | some b ↦ elim later [ none ↦ none | some bs ↦ some (b ∷ bs) ]
    ]

-- The number of blocks along each owner dimension.
unfoldable pub outer_sizes_of : List Value → List ℕ → List ℤ → Option (List IndexExpr)
outer_sizes_of extents [] bs = some []
outer_sizes_of extents (d ∷ ds) [] = none
outer_sizes_of extents (d ∷ ds) (b ∷ bs) =
    let later = outer_sizes_of extents ds bs in
    elim (get_elem? extents d) [
      | none ↦ none
      | some e ↦ elim later [
        | none ↦ none
        | some os ↦ some (ceil_div_positive_index (value e) (index b) ∷ os)
      ]
    ]

-- blockSizeForPhysicalDim: the first owner dimension that is the dimension decides.
unfoldable pub block_size_for : List ℕ → List ℤ → ℕ → Option ℤ
block_size_for [] bs dim = none
block_size_for (d ∷ ds) [] dim = none
block_size_for (d ∷ ds) (b ∷ bs) dim = if d == dim then some b else block_size_for ds bs dim

abbrev pub inner_size : Option ℤ → Value → IndexExpr
inner_size none extent = value extent
inner_size (some b) extent = index b

-- The shape of a block, from a dimension on.
unfoldable pub inner_sizes_from : List ℕ → List ℤ → ℕ → List Value → List IndexExpr
unfolding block_size_for
inner_sizes_from dims bs dim [] = []
inner_sizes_from dims bs dim (e ∷ es) =
    inner_size (block_size_for dims bs dim) e ∷ inner_sizes_from dims bs (suc dim) es

abbrev pub plan_from : List Value → List ℕ → List ℤ → Option DbPhysicalLayoutPlan
plan_from extents dims bs = elim (outer_sizes_of extents dims bs) [
  | none ↦ none
  | some os ↦ some (record {
    block_sizes = bs;
    partitioned_dims = dims;
    outer_sizes = os;
    inner_sizes = inner_sizes_from dims bs 0 extents;
  })
]

unfoldable pub plan_of : List Value → List ℤ → List ℤ → Option DbPhysicalLayoutPlan
unfolding owner_dims_from block_sizes_from outer_sizes_of inner_sizes_from
plan_of extents owners shape = elim (owner_dims_from (length extents) [] owners) [
  | none ↦ none
  | some dims ↦ elim (block_sizes_from (length extents) shape 0 dims) [
    | none ↦ none
    | some bs ↦ plan_from extents dims bs
  ]
]

abbrev pub nonempty {ℓ} : {A : Type ℓ} → List A → Bool
nonempty [] = false
nonempty (x ∷ xs) = true

unfoldable pub resolve_physical_db_layout_plan :
    Option (List (Option ℤ)) → Option (List (Option ℤ)) → List Value → Option DbPhysicalLayoutPlan
unfolding read_i64_elements plan_of
resolve_physical_db_layout_plan owner_attr shape_attr extents =
    elim (read_i64_array_attr owner_attr) [
      | none ↦ none
      | some owners ↦ elim (read_i64_array_attr shape_attr) [
        | none ↦ none
        | some shape ↦
            if not (nonempty extents) || (not (nonempty owners) || not (nonempty shape))
            then none
            else plan_of extents owners shape
      ]
    ]
