-- ===== src/Epoch.antt =====
-- Epoch structure: what an epoch accesses and whether two epochs may be fused
-- (lib/carts/dialect/arts/Analysis/heuristics/EpochHeuristics.cpp and its header). The child Narrow
-- models the splitting of an epoch.
pub mod Summary
pub mod Proper
pub mod Fusion
pub mod Narrow
mod Examples
use Prim.Native.Nat.{bit_and, bit_or}
use Prim.Native.String.{String}
use carts.Base.{
  ℕ, Bool, true, false, not, ◌||◌, ◌&&◌, ◌==◌, if◌then◌else◌, Option, none, some, List, [], ◌∷◌,
}

pub data AccessMode : Type 0 where
  untouched read write read_write : AccessMode

-- The enumerators' values, and the static_cast back.
abbrev pub code : AccessMode → ℕ
code untouched = 0
code read = 1
code write = 2
code read_write = 3

abbrev pub of_code : ℕ → AccessMode
of_code n =
    if n == 0 then untouched else if n == 1 then read else if n == 2 then write else read_write

pub combine_epoch_access_modes : AccessMode → AccessMode → AccessMode
combine_epoch_access_modes lhs rhs = of_code (bit_or (code lhs) (code rhs))

pub epoch_access_mode_has_write : AccessMode → Bool
epoch_access_mode_has_write mode = not (bit_and (code mode) (code write) == 0)

-- The operations that allocate datablocks are numbered; the map's order is that of insertion.
pub record AccessSummary : Type 0 where
  pub alloc_modes : List (ℕ × AccessMode)
  pub acquire_allocs : List ℕ

abbrev pub no_accesses : AccessSummary
no_accesses = record { alloc_modes = []; acquire_allocs = [] }

pub find : List (ℕ × AccessMode) → ℕ → Option AccessMode
find [] alloc = none
find ((key, mode) ∷ rest) alloc = if key == alloc then some mode else find rest alloc

-- allocModes[alloc] = mode
pub assign : List (ℕ × AccessMode) → ℕ → AccessMode → List (ℕ × AccessMode)
assign [] alloc mode = (alloc, mode) ∷ []
assign ((key, old) ∷ rest) alloc mode =
    if key == alloc then (key, mode) ∷ rest else (key, old) ∷ assign rest alloc mode

abbrev pub or_untouched : Option AccessMode → AccessMode
or_untouched none = untouched
or_untouched (some mode) = mode

pub lookup : AccessSummary → ℕ → AccessMode
lookup summary alloc = or_untouched (find summary.alloc_modes alloc)

abbrev is_untouched : AccessMode → Bool
is_untouched mode = code mode == 0

-- EpochAccessSummary::record
pub record_mode : AccessSummary → Option ℕ → AccessMode → AccessSummary
record_mode summary none mode = summary
record_mode summary (some alloc) mode = if is_untouched mode then summary else record summary {
  alloc_modes =
      assign summary.alloc_modes alloc (combine_epoch_access_modes (lookup summary alloc) mode);
}

-- DenseSet::insert
pub insert_alloc : List ℕ → ℕ → List ℕ
insert_alloc [] alloc = alloc ∷ []
insert_alloc (a ∷ rest) alloc = if a == alloc then a ∷ rest else a ∷ insert_alloc rest alloc

pub merge_modes : AccessSummary → List (ℕ × AccessMode) → AccessSummary
merge_modes summary [] = summary
merge_modes summary ((alloc, mode) ∷ rest) =
    merge_modes (record_mode summary (some alloc) mode) rest

pub insert_allocs : List ℕ → List ℕ → List ℕ
insert_allocs allocs [] = allocs
insert_allocs allocs (a ∷ rest) = insert_allocs (insert_alloc allocs a) rest

pub merge_from : AccessSummary → AccessSummary → AccessSummary
merge_from summary other =
    let merged = merge_modes summary other.alloc_modes in
    record merged { acquire_allocs = insert_allocs merged.acquire_allocs other.acquire_allocs }

-- An operation as the walk of summarizeEpochAccess tells it apart; values are numbered. The cases
-- stand in the order of the tests. `regions` is a terminator or an operation with regions,
-- `structural` one of the datablock and view operations that touch no element.
pub data EpochOp : Type 0 where
  acquire load store affine_load affine_store : ℕ → EpochOp
  copy : ℕ → ℕ → EpochOp
  dim : ℕ → EpochOp
  regions structural : EpochOp
  other : List ℕ → EpochOp

-- DbUtils::getUnderlyingDbAlloc is a parameter: the allocation under a value, if it has one.
module _ (underlying : ℕ → Option ℕ) where
  pub record_access : AccessSummary → ℕ → AccessMode → AccessSummary
  record_access summary value mode = record_mode summary (underlying value) mode

  pub record_acquire : AccessSummary → ℕ → AccessSummary
  record_acquire summary value = elim (underlying value) [
    | none ↦ summary
    | some alloc ↦ record summary { acquire_allocs = insert_alloc summary.acquire_allocs alloc }
  ]

  pub record_operands : AccessSummary → List ℕ → AccessSummary
  record_operands summary [] = summary
  record_operands summary (operand ∷ rest) =
      record_operands (record_access summary operand read_write) rest

  pub visit : AccessSummary → EpochOp → AccessSummary
  visit summary (acquire v) = record_acquire summary v
  visit summary (load v) = record_access summary v read
  visit summary (store v) = record_access summary v write
  visit summary (affine_load v) = record_access summary v read
  visit summary (affine_store v) = record_access summary v write
  visit summary (copy source target) =
      record_access (record_access summary source read) target write
  visit summary (dim v) = record_access summary v read
  visit summary regions = summary
  visit summary structural = summary
  visit summary (other operands) = record_operands summary operands

  pub summarize_from : AccessSummary → List EpochOp → AccessSummary
  summarize_from summary [] = summary
  summarize_from summary (op ∷ ops) = summarize_from (visit summary op) ops

  -- The operations of an epoch in the order of the walk.
  pub summarize_epoch_access : List EpochOp → AccessSummary
  summarize_epoch_access ops = summarize_from no_accesses ops

-- The loop of canFuseSummaries over the entries of the first summary.
pub can_fuse_entries : List (ℕ × AccessMode) → AccessSummary → Bool
can_fuse_entries [] b = true
can_fuse_entries ((alloc, mode) ∷ rest) b =
    let other_mode = lookup b alloc in
    let later = can_fuse_entries rest b in
    if is_untouched other_mode
    then later
    else if epoch_access_mode_has_write mode || epoch_access_mode_has_write other_mode
    then false
    else later

pub can_fuse_summaries : AccessSummary → AccessSummary → Bool
can_fuse_summaries a b = can_fuse_entries a.alloc_modes b

pub record Epoch : Type 0 where
  pub ops : List EpochOp
  pub guid_used : Bool

pub record FusionDecision : Type 0 where
  pub should_fuse : Bool
  pub rationale : String

abbrev pub decision : Bool → String → FusionDecision
decision b s = record { should_fuse = b; rationale = s }

abbrev pub summary_or : Option AccessSummary → AccessSummary → AccessSummary
summary_or (some given) computed = given
summary_or none computed = computed

-- A missing epoch is `none`, as is a summary that the caller does not pass.
pub evaluate_epoch_fusion :
    (ℕ → Option ℕ)
    → Option Epoch
    → Option Epoch
    → Option AccessSummary
    → Option AccessSummary
    → FusionDecision
evaluate_epoch_fusion underlying none second s t = decision false "missing epoch"
evaluate_epoch_fusion underlying (some first) none s t = decision false "missing epoch"
evaluate_epoch_fusion underlying (some first) (some second) s t =
    if second.guid_used
    then decision false "second epoch GUID is used externally"
    else if not (
        can_fuse_summaries (summary_or s (summarize_epoch_access underlying first.ops))
          (summary_or t (summarize_epoch_access underlying second.ops)))
    then decision false "effective accesses conflict"
    else decision true "eligible"
