-- ===== src/Schedule/Refinement.antt =====
-- ScheduleRefinement.cpp: a concrete schedule for loops that leave it open.
pub mod Cheapest
pub mod Choice
use carts.Base.{
  ℕ, suc, ◌+◌, ◌-◌, ◌*◌, ◌/◌, ◌^◌, Bool, true, false, ◌&&◌, not, Option, none, some, List, [], ◌∷◌,
  length, ◌==◌, if◌then◌else◌, is_some, map,
}
use carts.Base.Int.{ℤ, pos, negsuc, pos_part, ltb_ℤ, ◌*ℤ◌}
use carts.Foreign.{Float}
use carts.Loop.{
  Value, get_constant_index, ScheduleKind, static, dynamic, guided, auto, runtime, SuIterate,
  get_static_trip_count,
}
use carts.Cost.{CostModel, max_ℤ}

-- std::numeric_limits<int64_t>::max()
abbrev pub int64_max : ℕ
int64_max = 2 ^ 63 - 1

unfoldable pub is_schedule_refinement_candidate : Option ScheduleKind → Bool
is_schedule_refinement_candidate none = false
is_schedule_refinement_candidate (some static) = false
is_schedule_refinement_candidate (some dynamic) = false
is_schedule_refinement_candidate (some guided) = false
is_schedule_refinement_candidate (some auto) = true
is_schedule_refinement_candidate (some runtime) = true

unfoldable pub is_one_dimensional_loop : SuIterate → Bool
is_one_dimensional_loop op =
    length op.lower_bounds == 1 && length op.upper_bounds == 1 && length op.steps == 1

positive_front : List Value → Bool
positive_front [] = false
positive_front (step ∷ steps) = elim (get_constant_index step) [
  | none ↦ false
  | some n ↦ ltb_ℤ (pos 0) n
]

unfoldable pub has_positive_constant_step : SuIterate → Bool
unfolding positive_front
has_positive_constant_step op =
    if is_one_dimensional_loop op then positive_front op.steps else false

abbrev pub schedule_eq : ScheduleKind → ScheduleKind → Bool
schedule_eq static static = true
schedule_eq dynamic dynamic = true
schedule_eq guided guided = true
schedule_eq auto auto = true
schedule_eq runtime runtime = true
schedule_eq _ _ = false

unfoldable pub saturating_multiply : ℤ → ℤ → ℤ
saturating_multiply lhs rhs =
    if not (ltb_ℤ (pos 0) lhs)
    then pos 1
    else if not (ltb_ℤ (pos 0) rhs)
    then pos 1
    else if ltb_ℤ (pos (int64_max / pos_part rhs)) lhs
    then pos int64_max
    else pos (pos_part lhs * pos_part rhs)

module _ (F : Float) where
  module _ (m : CostModel F) where
    -- The loop over the remaining candidates.
    unfoldable pub cheaper : ℤ → List ScheduleKind → ScheduleKind → F.Real → ScheduleKind
    cheaper trip_count [] best cost = best
    cheaper trip_count (candidate ∷ rest) best cost =
        let candidate_cost = m.get_scheduling_overhead candidate trip_count in
        let better = F.lt candidate_cost cost in
        cheaper trip_count rest (if better then candidate else best)
          (if better then candidate_cost else cost)

    unfoldable pub select_schedule : ℤ → ScheduleKind
    select_schedule trip_count =
        cheaper trip_count (guided ∷ dynamic ∷ []) static
          (m.get_scheduling_overhead static trip_count)

    -- The loop over the probes, with the schedule selected so far.
    unfoldable pub agree_on : List ℤ → Option ScheduleKind → Option ScheduleKind
    agree_on [] selected = selected
    agree_on (probe ∷ probes) none = agree_on probes (some (select_schedule probe))
    agree_on (probe ∷ probes) (some selected) =
        let rest = agree_on probes (some selected) in
        if schedule_eq selected (select_schedule probe) then rest else none

    unfoldable pub probe_trip_counts : List ℤ
    probe_trip_counts =
        let worker_count = max_ℤ (pos 1) m.get_logical_worker_capacity in
        let min_iterations = max_ℤ (pos 1) m.get_min_iterations_per_worker in
        pos 1 ∷ min_iterations ∷ worker_count ∷ saturating_multiply worker_count min_iterations ∷ []

    unfoldable pub select_symbolic_schedule : Option ScheduleKind
    select_symbolic_schedule = agree_on probe_trip_counts none

    -- refinedScheduleKind
    unfoldable pub refined_schedule : SuIterate → Option ScheduleKind
    refined_schedule op = elim (get_static_trip_count op) [
      | some n ↦ some (select_schedule (pos n))
      | none ↦ if has_positive_constant_step op then select_symbolic_schedule else none
    ]

    set_schedule : SuIterate → Option ScheduleKind → SuIterate
    set_schedule op none = op
    set_schedule op (some kind) = record op { schedule = some kind }

    unfoldable pub refine : SuIterate → SuIterate
    unfolding set_schedule
    refine op =
        if is_some op.chunk_size
        then op
        else if not (is_schedule_refinement_candidate op.schedule)
        then op
        else if not (is_one_dimensional_loop op)
        then op
        else set_schedule op (refined_schedule op)

  unfoldable pub run_schedule_refinement : Option (CostModel F) → List SuIterate → List SuIterate
  run_schedule_refinement none ops = ops
  run_schedule_refinement (some m) ops = map (refine m) ops
