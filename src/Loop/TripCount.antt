-- ===== src/Loop/TripCount.antt =====
-- What the static trip count of a loop counts.
use carts.Base.{ℕ, ◌+◌, ◌-◌, ◌*◌, ◌/◌, ◌<◌, ◌≡◌, ◌↔◌, some, [], ◌∷◌, arith, sym, ◌∙◌, refl, subst}
use carts.Base.Int.{ℤ, pos, pos_part, ◌≤ℤ◌, ◌+ℤ◌, ◌-ℤ◌}
use carts.Loop.{
  SuIterate, constant, count_from, count_single, get_static_trip_count, get_constant_index,
}

-- The iteration number k of a loop from lower by step is one before upper.
abbrev pub Runs : ℤ → ℤ → ℕ → ℕ → Type 0
Runs lower upper step k = lower +ℤ pos (k * step + 1) ≤ℤ upper

quotient_counts : (span s k : ℕ) → 0 < s → (k < (span + s - 1) / s) ↔ (k * s < span)
quotient_counts span s k h = (λ e. grind arith, λ e. grind arith)

step_positive :
    (lower upper step : ℤ) (n : ℕ)
    → count_from (some lower) (some upper) (some step) ≡ some n
    → 0 < pos_part step
unfolding count_from
step_positive lower upper step n h = ground arith

count_value :
    (lower upper step : ℤ) (n : ℕ)
    → count_from (some lower) (some upper) (some step) ≡ some n
    → (pos_part (upper -ℤ lower) + pos_part step - 1) / pos_part step ≡ n
unfolding count_from
count_value lower upper step n h = ground arith

runs_iff :
    (lower upper : ℤ) (x : ℕ) → (lower +ℤ pos (x + 1) ≤ℤ upper) ↔ (x < pos_part (upper -ℤ lower))
unfolding ◌+ℤ◌ ◌-ℤ◌
runs_iff lower upper x = (λ h. ground arith, λ h. ground arith)

count_from_iff :
    (lower upper step : ℤ) (n k : ℕ)
    → count_from (some lower) (some upper) (some step) ≡ some n
    → (k < n) ↔ Runs lower upper (pos_part step) k
count_from_iff lower upper step n k h =
    let counts =
      quotient_counts (pos_part (upper -ℤ lower)) (pos_part step) k
        (step_positive lower upper step n h) in
    let runs = runs_iff lower upper (k * pos_part step) in
    let e = count_value lower upper step n h in
    (
      λ a. runs.1 (counts.0 (subst (λ m. k < m) (sym e) a)),
      λ a. subst (λ m. k < m) e (counts.1 (runs.0 a)),
    )

-- For a loop from a constant lower bound to a constant upper bound by a constant step, the static
-- trip count, where there is one, is the number of iterations: iteration k starts below the upper
-- bound exactly when k is less than the count.
pub get_static_trip_count_iff :
    (op : SuIterate) (lower upper step : ℤ) (n k : ℕ)
    → op.lower_bounds ≡ constant lower ∷ []
    → op.upper_bounds ≡ constant upper ∷ []
    → op.steps ≡ constant step ∷ []
    → get_static_trip_count op ≡ some n
    → (k < n) ↔ (lower +ℤ pos (k * pos_part step + 1) ≤ℤ upper)
unfolding get_static_trip_count count_single get_constant_index
get_static_trip_count_iff op lower upper step n k el eu es h =
    count_from_iff lower upper step n k (sym (rw (el, eu, es) refl) ∙ h)
