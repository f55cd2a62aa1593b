-- ===== src/Schedule/Examples.antt =====
-- Runs of the scheduling passes and instances of the theorems about them, over the cost model of a
-- machine and whole-number costs.
use carts.Base.{get_elem?, ◌*◌, ◌≤◌, true, false, none, some, [], ◌∷◌, ◌≡◌, ◌↔◌, ◌⊎◌, refl, arith}
use carts.Base.Int.{ℤ, pos, ◌*ℤ◌, ltb_ℤ}
use carts.Foreign.Reference.{llvm, whole_numbers}
use carts.Loop.{
  constant, unknown, ScheduleKind, static, dynamic, auto, add, atomic, SuIterate,
  get_static_trip_count, get_constant_index,
}
use carts.Loop.Samples.{plain}
use carts.Cost.{CostModel}
use carts.Cost.Samples.{four_workers}
use carts.Schedule.Refinement.{
  is_schedule_refinement_candidate, select_schedule, is_one_dimensional_loop, refine,
  refined_schedule, select_symbolic_schedule, agree_on, probe_trip_counts, cheaper,
  run_schedule_refinement, saturating_multiply, has_positive_constant_step,
}
use carts.Schedule.Refinement.Cheapest.{select_schedule_cheapest}
use carts.Schedule.Refinement.Choice.{Picks, run_schedule_refinement_iff}
use carts.Schedule.Chunk.{Expr, static_chunk, chunk_for, is_chunk_optimizable_schedule}
use carts.Schedule.Chunk.Bounds.{static_chunk-bounds}
use carts.Schedule.Chunk.Run.{eval}
use carts.Schedule.Chunk.Symbolic.{chunk_for_symbolic}
use carts.Schedule.Reduction.{
  set_strategy, choose_strategy, get_reduction_kinds, kinds_for, parse_kinds, known_kind,
  all_atomic_capable, is_atomic_capable, run_reduction_strategy,
}
use carts.Schedule.Reduction.Choice.{IntegerSums, IsCheap, run_reduction_strategy_iff}

select_schedule_cheapest_example :
    (ltb_ℤ (pos 7) (pos 7) ≡ false)
    × (is_schedule_refinement_candidate
          (some (select_schedule whole_numbers four_workers (pos 100)))
        ≡ false)
select_schedule_cheapest_example =
    select_schedule_cheapest whole_numbers four_workers (λ a b c h k. ground arith)
      (λ a b h. ground arith) (λ a. ground arith) (pos 100) dynamic
      (unfold is_schedule_refinement_candidate in refl)

static_chunk-bounds_example :
    (1 ≤ static_chunk llvm whole_numbers four_workers 100)
    × (static_chunk llvm whole_numbers four_workers 100 ≤ 100)
    × ((3 ≤ static_chunk llvm whole_numbers four_workers 100)
        ⊎ (static_chunk llvm whole_numbers four_workers 100 ≡ 100))
    × (100 ≤ static_chunk llvm whole_numbers four_workers 100 * 4)
static_chunk-bounds_example = static_chunk-bounds llvm whole_numbers four_workers 100 (omega arith)

-- A dynamic loop up to a bound that is known when the program runs.
abbrev up_to_bound : SuIterate
up_to_bound = record plain {
  lower_bounds = constant (pos 0) ∷ [];
  upper_bounds = unknown 0 ∷ [];
  steps = constant (pos 2) ∷ [];
  schedule = some dynamic;
}

bound_unknown : get_static_trip_count up_to_bound ≡ none
unfolding get_static_trip_count get_constant_index
bound_unknown = refl

-- The bound is 100: fifty iterations, thirteen for each of four workers.
chunk_for_symbolic_example :
    (e : Expr) × (chunk_for llvm whole_numbers four_workers up_to_bound ≡ some e)
    × (eval (λ i. 100) 4 e ≡ static_chunk llvm whole_numbers four_workers 50)
chunk_for_symbolic_example =
    chunk_for_symbolic llvm whole_numbers four_workers up_to_bound (λ i. 100) 4 (constant (pos 0))
      (unknown 0) (constant (pos 2)) refl (unfold is_chunk_optimizable_schedule in refl) refl refl
      refl bound_unknown (omega arith, omega arith) (omega arith) (omega arith, omega arith)
      (omega arith) (omega arith) refl

abbrev summing : SuIterate
summing = record plain { accumulators_float = false ∷ []; reduction_kinds = some (some add ∷ []) }

one_sum :
    run_reduction_strategy whole_numbers (some four_workers) (plain ∷ summing ∷ [])
    ≡ plain ∷ record summing { reduction_strategy = some atomic } ∷ []
unfolding run_reduction_strategy set_strategy choose_strategy get_reduction_kinds kinds_for
    parse_kinds known_kind all_atomic_capable is_atomic_capable ◌*ℤ◌
one_sum = refl

run_reduction_strategy_iff_example :
    (after : SuIterate) × (get_elem?
        (run_reduction_strategy whole_numbers (some four_workers) (plain ∷ summing ∷ []))
        1
      ≡ some after)
    × ((after.reduction_strategy ≡ some atomic) ↔ (
        (2 ≤ 4)
        × (false ≡ false)
        × (false ≡ false)
        × IntegerSums (false ∷ []) (some (some add ∷ []))
        × IsCheap whole_numbers four_workers 4))
run_reduction_strategy_iff_example =
    run_reduction_strategy_iff whole_numbers four_workers (plain ∷ summing ∷ []) 1 summing refl refl

-- A loop of unknown length that leaves its schedule open.
abbrev left_open : SuIterate
left_open = record up_to_bound { schedule = some auto }

-- A static schedule costs more for more iterations, so that it is the cheapest at 1, 3 and 4
-- iterations, and no longer at 12.
abbrev growing_cost : ScheduleKind → ℤ → ℤ
growing_cost static n = n
growing_cost kind n = pos 10

abbrev growing : CostModel whole_numbers
growing = record four_workers { get_scheduling_overhead = λ kind n. growing_cost kind n }

run_schedule_refinement_iff_example :
    (after : SuIterate) × (get_elem?
        (run_schedule_refinement whole_numbers (some growing) (plain ∷ left_open ∷ []))
        1
      ≡ some after)
    × ((after.schedule ≡ some static) ↔ (
        (left_open.chunk_size ≡ none)
        × (is_one_dimensional_loop left_open ≡ true)
        × Picks whole_numbers growing left_open static))
run_schedule_refinement_iff_example =
    run_schedule_refinement_iff whole_numbers growing (plain ∷ left_open ∷ []) 1 left_open static
      refl (unfold is_schedule_refinement_candidate in refl)
      (unfold is_schedule_refinement_candidate in refl)

disagreeing : run_schedule_refinement whole_numbers (some growing) (left_open ∷ []) ≡ left_open ∷ []
unfolding run_schedule_refinement refine refined_schedule select_symbolic_schedule agree_on
    probe_trip_counts select_schedule cheaper is_schedule_refinement_candidate
    is_one_dimensional_loop has_positive_constant_step get_static_trip_count get_constant_index
    saturating_multiply
disagreeing = refl

agreeing :
    run_schedule_refinement whole_numbers (some four_workers) (left_open ∷ [])
    ≡ record left_open { schedule = some static } ∷ []
unfolding run_schedule_refinement refine refined_schedule select_symbolic_schedule agree_on
    probe_trip_counts select_schedule cheaper is_schedule_refinement_candidate
    is_one_dimensional_loop has_positive_constant_step get_static_trip_count get_constant_index
    saturating_multiply
agreeing = refl
