-- ===== src/Schedule/Refinement/Choice.antt =====
-- Which schedule ScheduleRefinement.cpp gives to a loop.
use native.Mathlib.Nat.{div-lt_iff_lt-mul}
use carts.Base.{
  ℕ, ◌*◌, ◌/◌, ◌<◌, ◌^◌, ◌-◌, min, ltb, true, false, none, some, List, [], ◌∷◌, ◌≡◌, ◌↔◌, ◌⊎◌, refl,
  sym, ap, ◌∙◌, arith, Bool-cases, Option-cases, inl, inr, All, get_elem?, get_elem?-map,
}
use carts.Base.Int.{ℤ, pos}
use carts.Foreign.{Float}
use carts.Loop.{ScheduleKind, SuIterate, get_static_trip_count}
use carts.Cost.{CostModel, max_ℤ}
use carts.Sizing.{at_least_one}
use carts.Schedule.Refinement.{
  saturating_multiply, is_schedule_refinement_candidate, select_schedule, agree_on,
  probe_trip_counts, select_symbolic_schedule, schedule_eq, int64_max, is_one_dimensional_loop,
  has_positive_constant_step, refined_schedule, refine, run_schedule_refinement,
}

at_least_one_pos : (a : ℤ) → max_ℤ (pos 1) a ≡ pos (at_least_one a)
at_least_one_pos a = ground arith

capped_product :
    (a b : ℕ) → 0 < a → 0 < b → saturating_multiply (pos a) (pos b) ≡ pos (min (a * b) int64_max)
unfolding saturating_multiply
capped_product a b ha hb =
    let (over, within) = div-lt_iff_lt-mul {k = b} {x = int64_max} {y = a} hb in
    elim (Bool-cases (ltb (int64_max / b) a)) [
      | inl e ↦ let beyond : int64_max < a * b = over (ground arith) in ground arith
      | inr e ↦ let kept : (int64_max < a * b) → (int64_max / b < a) = within in ground arith
    ]

module _ (F : Float) (m : CostModel F) where
  schedule_eq_sound : (a b : ScheduleKind) → schedule_eq a b ≡ true → a ≡ b
  schedule_eq_sound a b h = ground arith

  -- Where the probes agree, each of them selects the schedule that they agree on.
  agree_on-All :
      (probes : List ℤ) (selected k : ScheduleKind)
      → agree_on F m probes (some selected) ≡ some k
      → (selected ≡ k) × All (λ n. select_schedule F m n ≡ k) probes
  unfolding agree_on
  agree_on-All [] selected k h = (cc, tt)
  agree_on-All (n ∷ ns) selected k h =
      elim (Bool-cases (schedule_eq selected (select_schedule F m n))) [
        | inl e ↦
            let (same, all) = agree_on-All ns selected k (ground arith) in
            (same, (sym (schedule_eq_sound _ _ e) ∙ same, all))
        | inr e ↦ absurd (ground arith)
      ]

  schedule_eq_refl : (k : ScheduleKind) → schedule_eq k k ≡ true
  schedule_eq_refl k = ground arith

  agree_on_same :
      (probes : List ℤ) (k : ScheduleKind)
      → All (λ n. select_schedule F m n ≡ k) probes
      → agree_on F m probes (some k) ≡ some k
  unfolding agree_on
  agree_on_same [] k h = refl
  agree_on_same (n ∷ ns) k (same, all) =
      rw (same, schedule_eq_refl k, agree_on) (agree_on_same ns k all)

  -- The schedule is selected at 1, at the least iterations of a worker, at the workers, and at their
  -- product, capped at the largest int64.
  abbrev pub AtProbes : ScheduleKind → Type 0
  AtProbes k =
      let workers = at_least_one m.get_logical_worker_capacity in
      let floor = at_least_one m.get_min_iterations_per_worker in
      (select_schedule F m (pos 1) ≡ k)
      × (select_schedule F m (pos floor) ≡ k)
      × (select_schedule F m (pos workers) ≡ k)
      × (select_schedule F m (pos (min (workers * floor) (2 ^ 63 - 1))) ≡ k)

  probe_trip_counts_lem :
      let workers = at_least_one m.get_logical_worker_capacity in
      let floor = at_least_one m.get_min_iterations_per_worker in
      probe_trip_counts F m
      ≡ pos 1 ∷ pos floor ∷ pos workers ∷ pos (min (workers * floor) (2 ^ 63 - 1)) ∷ []
  unfolding probe_trip_counts
  probe_trip_counts_lem =
      rw
        (
          at_least_one_pos m.get_logical_worker_capacity,
          at_least_one_pos m.get_min_iterations_per_worker,
          capped_product (at_least_one m.get_logical_worker_capacity)
              (at_least_one m.get_min_iterations_per_worker) (omega arith) (omega arith),
        )
        refl

  symbolic_schedule_iff : (k : ScheduleKind) → (select_symbolic_schedule F m ≡ some k) ↔ AtProbes k
  unfolding select_symbolic_schedule agree_on
  symbolic_schedule_iff k =
      let workers = at_least_one m.get_logical_worker_capacity in
      let floor = at_least_one m.get_min_iterations_per_worker in
      let later = pos floor ∷ pos workers ∷ pos (min (workers * floor) (2 ^ 63 - 1)) ∷ [] in
      let whole : select_symbolic_schedule F m
          ≡ agree_on F m later (some (select_schedule F m (pos 1))) =
        ap (λ probes. agree_on F m probes none) probe_trip_counts_lem in
      (
        (λ h.
            let (one, (least, (all, (product, u)))) =
              agree_on-All later (select_schedule F m (pos 1)) k (sym whole ∙ h) in
            (one, least, all, product)),
        λ (one, least, all, product).
            whole
            ∙ ap (λ s. agree_on F m later (some s)) one
            ∙ agree_on_same later k (least, (all, (product, tt))),
      )

  -- The schedule is selected for the trip count of the loop; where that is not constant, the step
  -- is a positive constant and the schedule is selected at the four probes.
  abbrev pub Picks : SuIterate → ScheduleKind → Type 0
  Picks op k =
      ((n : ℕ) × (get_static_trip_count op ≡ some n) × (select_schedule F m (pos n) ≡ k))
      ⊎ ((get_static_trip_count op ≡ none) × (has_positive_constant_step op ≡ true) × AtProbes k)

  refined_schedule_iff :
      (op : SuIterate) (k : ScheduleKind) → (refined_schedule F m op ≡ some k) ↔ Picks op k
  unfolding refined_schedule
  refined_schedule_iff op k = elim (Option-cases (get_static_trip_count op)) [
    | inl e ↦ (
      (λ h.
          let chosen : select_symbolic_schedule F m ≡ some k = ground arith in
          inr (e, ground arith, (symbolic_schedule_iff k).0 chosen)),
      λ picks. elim picks [
        | inl (n, e', s) ↦ absurd (cc)
        | inr (e', step, probes) ↦ let chosen = (symbolic_schedule_iff k).1 probes in ground arith
      ],
    )
    | inr (n, e) ↦ (
      (λ h. inl (n, e, ground arith)),
      λ picks. elim picks [
        | inl (other, e', s) ↦
            let same : n ≡ other = ground arith in
            let chosen = ap (λ t. select_schedule F m (pos t)) same ∙ s in ground arith
        | inr (e', step, probes) ↦ absurd (cc)
      ],
    )
  ]

  refine_cases :
      (op : SuIterate) (k : ScheduleKind)
      → is_schedule_refinement_candidate op.schedule ≡ true
      → is_schedule_refinement_candidate (some k) ≡ false
      → ((refine F m op).schedule ≡ some k) ↔ (
          (op.chunk_size ≡ none)
          × (is_one_dimensional_loop op ≡ true)
          × (refined_schedule F m op ≡ some k))
  unfolding refine
  refine_cases op k h c = (λ e. ground arith, λ (unset, line, picked). ground arith)

  -- Each loop of a module is a loop of the module after the pass, at the same place. One whose
  -- schedule is open (auto or runtime) has a certain concrete schedule after it exactly when it has
  -- no chunk size and one dimension, and that schedule is the one selected for its trip count, or,
  -- where that is not constant and the step is a positive constant, the one selected at each of four
  -- trip counts: 1, the least iterations of a worker, the workers, and their product, capped at the
  -- largest int64, the least iterations and the workers taken as at least 1.
  pub run_schedule_refinement_iff :
      (ops : List SuIterate) (i : ℕ) (op : SuIterate) (k : ScheduleKind)
      → get_elem? ops i ≡ some op
      → is_schedule_refinement_candidate op.schedule ≡ true
      → is_schedule_refinement_candidate (some k) ≡ false
      → (after : SuIterate) × (get_elem? (run_schedule_refinement F (some m) ops) i ≡ some after)
        × ((after.schedule ≡ some k)
            ↔ ((op.chunk_size ≡ none) × (is_one_dimensional_loop op ≡ true) × Picks op k))
  unfolding run_schedule_refinement
  run_schedule_refinement_iff ops i op k found left_open concrete = (
    refine F m op,
    get_elem?-map (refine F m) ops i op found,
    (
      (λ h.
          let (unset, line, picked) = (refine_cases op k left_open concrete).0 h in
          (unset, line, (refined_schedule_iff op k).0 picked)),
      λ (unset, line, picks).
          (refine_cases op k left_open concrete).1
            (unset, line, (refined_schedule_iff op k).1 picks),
    ),
  )
