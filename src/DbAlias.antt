-- ===== src/DbAlias.antt =====
-- lib/carts/dialect/arts/Analysis/db/DbAliasAnalysis.cpp and its header: whether two nodes of the
-- datablock graph may stand for the same memory. Nodes, operations, pointers and allocations are
-- numbers.
pub mod Ranges
pub mod Sound
pub mod Samples
mod Examples
use carts.Base.{
  ℕ, Bool, true, false, not, ◌&&◌, ◌||◌, ◌==◌, if◌then◌else◌, Option, none, some, List, [], ◌∷◌,
  length,
}
use carts.Base.Int.{ℤ, ◌+ℤ◌, ltb_ℤ, eqb_ℤ}
use carts.Loop.{Value, get_constant_index}

pub data AliasResult : Type 0 where
  no_alias may_alias must_alias : AliasResult

pub data OverlapKind : Type 0 where
  unknown disjoint partial full : OverlapKind

pub data ArtsMode : Type 0 where
  uninitialized in_mode out_mode inout : ArtsMode

-- DbAcquireNode with its operation: the parent and the root are allocations, the user is the task
-- that takes the acquired pointer.
pub record Acquire : Type 0 where
  pub node : ℕ
  pub op : ℕ
  pub ptr : ℕ
  pub root : Option ℕ
  pub parent : ℕ
  pub mode : ArtsMode
  pub user : Option ℕ
  pub offsets : List Value
  pub sizes : List Value
  pub partition_offsets : List Value
  pub partition_sizes : List Value

-- NodeBase: an allocation, by its node and its operation, or an acquire.
pub data Node : Type 0 where
  alloc : ℕ → ℕ → Node
  acquire : Acquire → Node

abbrev pub node_of : Node → ℕ
node_of (alloc node op) = node
node_of (acquire a) = a.node

abbrev pub op_of : Node → ℕ
op_of (alloc node op) = op
op_of (acquire a) = a.op

abbrev pub get_root_alloc : Node → Option ℕ
get_root_alloc (alloc node op) = some node
get_root_alloc (acquire a) = a.root

abbrev pub known_to_differ : Option ℕ → Option ℕ → Bool
known_to_differ none b = false
known_to_differ (some a) none = false
known_to_differ (some a) (some b) = not (a == b)

-- The lambda of extractConstantSlice: the constants, where all values are.
unfoldable pub extract_range : List Value → Option (List ℤ)
unfolding get_constant_index
extract_range [] = some []
extract_range (v ∷ vs) = elim (get_constant_index v) [
  | none ↦ none
  | some c ↦ elim (extract_range vs) [ none ↦ none | some cs ↦ some (c ∷ cs) ]
]

pub record ConstantSlice : Type 0 where
  pub offsets : List ℤ
  pub sizes : List ℤ

abbrev pub slice_of : Option (List ℤ) → Option (List ℤ) → Option ConstantSlice
slice_of none sizes = none
slice_of (some os) none = none
slice_of (some os) (some ss) = some (record { offsets = os; sizes = ss })

unfoldable pub extract_constant_slice : Acquire → Option ConstantSlice
unfolding extract_range
extract_constant_slice a = slice_of (extract_range a.offsets) (extract_range a.sizes)

abbrev pub eq_ints : List ℤ → List ℤ → Bool
eq_ints [] [] = true
eq_ints [] (b ∷ bs) = false
eq_ints (a ∷ as') [] = false
eq_ints (a ∷ as') (b ∷ bs) = eqb_ℤ a b && eq_ints as' bs

-- endA <= beginB || endB <= beginA
abbrev pub apart : ℤ → ℤ → ℤ → ℤ → Bool
apart begin_a size_a begin_b size_b =
    not (ltb_ℤ begin_b (begin_a +ℤ size_a)) || not (ltb_ℤ begin_a (begin_b +ℤ size_b))

-- The loop over the dimensions; an operation has an offset for each size.
unfoldable pub any_apart : List ℤ → List ℤ → List ℤ → List ℤ → Bool
unfolding ◌+ℤ◌
any_apart (oa ∷ oas) (sa ∷ sas) (ob ∷ obs) (sb ∷ sbs) =
    apart oa sa ob sb || any_apart oas sas obs sbs
any_apart _ _ _ _ = false

unfoldable pub compare_slices : ConstantSlice → ConstantSlice → Option AliasResult
unfolding any_apart
compare_slices a b =
    if not (length a.offsets == length b.offsets && length a.sizes == length b.sizes)
    then none
    else if eq_ints a.offsets b.offsets && eq_ints a.sizes b.sizes
    then some must_alias
    else if any_apart a.offsets a.sizes b.offsets b.sizes
    then some no_alias
    else some may_alias

abbrev pub both_slices : Option ConstantSlice → Option ConstantSlice → Option AliasResult
unfolding compare_slices
both_slices none b = none
both_slices (some a) none = none
both_slices (some a) (some b) = compare_slices a b

unfoldable pub refine_alias_with_slices : Acquire → Acquire → Option AliasResult
unfolding compare_slices extract_constant_slice
refine_alias_with_slices a b = both_slices (extract_constant_slice a) (extract_constant_slice b)

-- Of one dimension, where its four values are constants.
abbrev pub constants_apart : Option ℤ → Option ℤ → Option ℤ → Option ℤ → Bool
constants_apart (some oa) (some sa) (some ob) (some sb) = apart oa sa ob sb
constants_apart _ _ _ _ = false

-- The loop over the partition ranges; a dimension without a size proves nothing.
unfoldable pub partition_apart : List Value → List Value → List Value → List Value → Bool
unfolding get_constant_index ◌+ℤ◌
partition_apart (oa ∷ oas) (sa ∷ sas) (ob ∷ obs) (sb ∷ sbs) =
    constants_apart (get_constant_index oa) (get_constant_index sa) (get_constant_index ob)
      (get_constant_index sb)
    || partition_apart oas sas obs sbs
partition_apart _ _ _ _ = false

abbrev pub is_empty : List Value → Bool
is_empty [] = true
is_empty (v ∷ vs) = false

unfoldable pub refine_overlap_with_partition_ranges : Acquire → Acquire → Option OverlapKind
unfolding partition_apart
refine_overlap_with_partition_ranges a b =
    if is_empty a.partition_offsets || is_empty b.partition_offsets
    then none
    else if not (length a.partition_offsets == length b.partition_offsets)
    then none
    else if partition_apart a.partition_offsets a.partition_sizes b.partition_offsets
        b.partition_sizes
    then some disjoint
    else none

abbrev pub by_partition : Option OverlapKind → OverlapKind
by_partition (some disjoint) = disjoint
by_partition _ = partial

abbrev pub by_slices : Option AliasResult → OverlapKind → OverlapKind
by_slices (some no_alias) later = disjoint
by_slices (some must_alias) later = full
by_slices _ later = later

-- The arguments and their operations are there.
unfoldable pub estimate_overlap : Acquire → Acquire → OverlapKind
unfolding refine_alias_with_slices refine_overlap_with_partition_ranges
estimate_overlap a b =
    if a.node == b.node
    then full
    else if known_to_differ a.root b.root
    then disjoint
    else if a.ptr == b.ptr
    then full
    else by_slices (refine_alias_with_slices a b)
        (by_partition (refine_overlap_with_partition_ranges a b))

abbrev pub result_of : OverlapKind → AliasResult
result_of disjoint = no_alias
result_of full = must_alias
result_of _ = may_alias

abbrev pub by_overlap : Node → Node → AliasResult
unfolding estimate_overlap
by_overlap (acquire a) (acquire b) = result_of (estimate_overlap a b)
by_overlap _ _ = may_alias

unfoldable pub classify_alias : Node → Node → AliasResult
unfolding estimate_overlap
classify_alias a b =
    if node_of a == node_of b || op_of a == op_of b
    then must_alias
    else if known_to_differ (get_root_alloc a) (get_root_alloc b)
    then no_alias
    else by_overlap a b
