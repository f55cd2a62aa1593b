-- ===== src/Schedule/Reduction.antt =====
-- ReductionStrategy.cpp: how the reductions of a loop are combined. A failed cast to the kind
-- attribute is an entry `none`.
pub mod Choice
use carts.Base.{
  ℕ, leb, Bool, true, false, ◌&&◌, not, Option, none, some, List, [], ◌∷◌, length, ◌==◌,
  if◌then◌else◌, map, is_some,
}
use carts.Base.Int.{ℤ, pos}
use carts.Foreign.{Float}
use carts.Loop.{
  ReductionKind, add, mul, min, max, land, lor, lxor, custom, ReductionStrategy, atomic, tree,
  local_accumulate, SuIterate,
}
use carts.Cost.{CostModel}
use carts.Sizing.{at_least_one}

unfoldable pub is_atomic_capable : ReductionKind → Bool → Bool
is_atomic_capable add is_float = not is_float
is_atomic_capable mul is_float = false
is_atomic_capable min is_float = false
is_atomic_capable max is_float = false
is_atomic_capable land is_float = false
is_atomic_capable lor is_float = false
is_atomic_capable lxor is_float = false
is_atomic_capable custom is_float = false

-- The kind of an entry, where it is one that the compiler knows how to combine.
unfoldable pub known_kind : Option ReductionKind → Option ReductionKind
known_kind none = none
known_kind (some add) = some add
known_kind (some mul) = some mul
known_kind (some min) = some min
known_kind (some max) = some max
known_kind (some land) = some land
known_kind (some lor) = some lor
known_kind (some lxor) = some lxor
known_kind (some custom) = none

unfoldable pub parse_kinds : List (Option ReductionKind) → Option (List ReductionKind)
unfolding known_kind
parse_kinds [] = some []
parse_kinds (k ∷ ks) =
    let rest = parse_kinds ks in
    elim (known_kind k) [
      | none ↦ none
      | some kind ↦ elim rest [ none ↦ none | some kinds ↦ some (kind ∷ kinds) ]
    ]

unfoldable pub kinds_for :
    List Bool → Option (List (Option ReductionKind)) → Option (List ReductionKind)
kinds_for [] kinds = none
kinds_for (a ∷ others) none = none
kinds_for (a ∷ others) (some kinds) =
    if length kinds == length (a ∷ others) then parse_kinds kinds else none

unfoldable pub get_reduction_kinds : SuIterate → Option (List ReductionKind)
get_reduction_kinds op = kinds_for op.accumulators_float op.reduction_kinds

-- llvm::all_of over llvm::zip, which stops at the shorter list
unfoldable pub all_atomic_capable : List ReductionKind → List Bool → Bool
all_atomic_capable [] floats = true
all_atomic_capable (k ∷ ks) [] = true
all_atomic_capable (k ∷ ks) (f ∷ fs) = is_atomic_capable k f && all_atomic_capable ks fs

module _ (F : Float) where
  unfoldable pub choose_strategy :
      CostModel F → ℕ → SuIterate → List ReductionKind → ReductionStrategy
  choose_strategy m worker_count op kinds =
      if op.nested_sequential_loop
      then local_accumulate
      else if all_atomic_capable kinds op.accumulators_float
          && F.le (F.mul (F.of_int (pos worker_count)) m.get_atomic_update_cost)
              (m.get_reduction_cost (pos worker_count))
      then atomic
      else tree

  -- The walk at one loop.
  unfoldable pub set_strategy : CostModel F → ℕ → SuIterate → SuIterate
  set_strategy m worker_count op =
      if is_some op.reduction_strategy
      then op
      else if op.partial_reduction
      then record op { reduction_strategy = some local_accumulate }
      else elim (get_reduction_kinds op) [
        | none ↦ op
        | some kinds ↦ record op {
          reduction_strategy = some (choose_strategy m worker_count op kinds);
        }
      ]

  -- The pass over the loops of a module, in the order of the walk; without a cost model it does
  -- nothing.
  unfoldable pub run_reduction_strategy : Option (CostModel F) → List SuIterate → List SuIterate
  run_reduction_strategy none ops = ops
  run_reduction_strategy (some m) ops =
      let worker_count = at_least_one m.get_logical_worker_capacity in
      if leb worker_count 1 then ops else map (set_strategy m worker_count) ops
