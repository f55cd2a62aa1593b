-- ===== src/Schedule/Chunk.antt =====
-- ChunkOpt.cpp: chunk sizes for dynamic and guided loops. The pass collects its rewrites and then
-- makes them; a loop's rewrite reads that loop alone, so the model does both at the loop.
pub mod Bounds
pub mod Run
pub mod Symbolic
use carts.Base.{
  ℕ, suc, ◌+◌, ◌-◌, ◌*◌, ◌/◌, ◌^◌, max, min, Bool, true, false, ◌&&◌, ◌||◌, not, Option, none, some,
  List, [], ◌∷◌, length, ltb, leb, ◌==◌, if◌then◌else◌, is_some, map,
}
use carts.Base.Int.{ℤ, pos, negsuc, pos_part, neg_part, ltb_ℤ, ◌-ℤ◌}
use carts.Foreign.{Float, Llvm}
use carts.Loop.{
  Value, constant, unknown, get_constant_index, ScheduleKind, static, dynamic, guided, auto,
  runtime, SuIterate, get_static_trip_count,
}
use carts.Cost.{CostModel}
use carts.Sizing.{at_least_one}
use carts.Schedule.Refinement.{is_one_dimensional_loop}

unfoldable pub is_chunk_optimizable_schedule : Option ScheduleKind → Bool
is_chunk_optimizable_schedule none = false
is_chunk_optimizable_schedule (some static) = false
is_chunk_optimizable_schedule (some dynamic) = true
is_chunk_optimizable_schedule (some guided) = true
is_chunk_optimizable_schedule (some auto) = false
is_chunk_optimizable_schedule (some runtime) = false

-- The index arithmetic that the pass builds: a value of the program, the query for the logical
-- workers, and operations of the arith dialect. `select_sle a b c d` selects c where a <= b.
pub data Expr : Type 0 where
  value : Value → Expr
  index : ℕ → Expr
  logical_workers : Expr
  sub_i max_ui min_ui ceil_div_ui ceil_div_si : Expr → Expr → Expr
  select_sle select_slt : Expr → Expr → Expr → Expr → Expr

-- buildLogicalWorkerCapacityValue
unfoldable pub build_logical_worker_capacity_value : Expr
build_logical_worker_capacity_value = max_ui logical_workers (index 1)

-- The step that divides: an unknown step is replaced by 1 where it is not positive.
safe_step : Value → Option Expr
safe_step (constant n) = if ltb_ℤ (pos 0) n then some (value (constant n)) else none
safe_step (unknown i) =
    some (select_sle (value (unknown i)) (index 0) (index 1) (value (unknown i)))

trip_count_value : Expr → Value → Value → Option Expr
trip_count_value step lower upper =
    let span = sub_i (value upper) (value lower) in
    some (ceil_div_si (select_slt span (index 0) (index 0) span) step)

trip_count_of : List Value → List Value → List Value → Option Expr
unfolding safe_step trip_count_value
trip_count_of (lower ∷ []) (upper ∷ []) (step ∷ []) = elim (safe_step step) [
  | none ↦ none
  | some s ↦ trip_count_value s lower upper
]
trip_count_of _ _ _ = none

unfoldable pub build_trip_count_value : SuIterate → Option Expr
unfolding trip_count_of
build_trip_count_value op = elim (get_static_trip_count op) [
  | some n ↦ some (index n)
  | none ↦ trip_count_of op.lower_bounds op.upper_bounds op.steps
]

unfoldable pub build_symbolic_chunk_value : SuIterate → ℤ → Option Expr
unfolding build_logical_worker_capacity_value
build_symbolic_chunk_value op min_iterations = elim (build_trip_count_value op) [
  | none ↦ none
  | some trip_count ↦
      let clamped = max_ui trip_count (index 1) in
      let balanced = ceil_div_ui clamped build_logical_worker_capacity_value in
      some (min_ui (max_ui balanced (index (at_least_one min_iterations))) clamped)
]

-- std::clamp(std::max(minIterations, balanced), 1, tripCount)
abbrev pub clamp : ℕ → ℕ → ℕ → ℕ
clamp v lo hi = if ltb v lo then lo else if ltb hi v then hi else v

module _ (L : Llvm) (F : Float) where
  pub static_chunk : CostModel F → ℕ → ℕ
  static_chunk m trip_count =
      let worker_count = at_least_one m.get_logical_worker_capacity in
      let min_iterations = at_least_one m.get_min_iterations_per_worker in
      clamp (max min_iterations (L.divide_ceil trip_count worker_count)) 1 trip_count

  -- The chunk that the loop is given: an index constant, or arithmetic; `none` leaves the loop.
  pub chunk_for : CostModel F → SuIterate → Option Expr
  chunk_for m op =
      if is_some op.chunk_size || not (is_chunk_optimizable_schedule op.schedule)
      then none
      else elim (get_static_trip_count op) [
        | some n ↦ if leb n 1 then none else some (index (static_chunk m n))
        | none ↦
            if is_one_dimensional_loop op
            then build_symbolic_chunk_value op (pos (at_least_one m.get_min_iterations_per_worker))
            else none
      ]
