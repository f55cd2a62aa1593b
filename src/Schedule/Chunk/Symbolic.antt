-- ===== src/Schedule/Chunk/Symbolic.antt =====
-- What the arithmetic of a symbolic chunk computes when the program runs.
use carts.Base.{
  ℕ, zero, suc, ◌+◌, ◌-◌, ◌/◌, ◌%◌, ◌<◌, max, min, ◌≡◌, true, none, some, [], ◌∷◌, length, ltb,
  if◌then◌else◌, arith, refl, sym, ◌∙◌, ap, ap₂,
}
use carts.Base.Int.{pos, negsuc, ◌≤ℤ◌, pos_part}
use carts.Foreign.{Float, Llvm}
use carts.Loop.{Value, constant, unknown, SuIterate, get_static_trip_count}
use carts.Cost.{CostModel}
use carts.Sizing.{at_least_one}
use carts.Schedule.Refinement.{is_one_dimensional_loop}
use carts.Schedule.Chunk.Bounds.{clamp_lem, divide_ceil_lem}
use carts.Schedule.Chunk.{
  Expr, value, index, logical_workers, sub_i, max_ui, min_ui, ceil_div_ui, ceil_div_si, select_sle,
  select_slt, safe_step, trip_count_value, trip_count_of, build_trip_count_value,
  build_logical_worker_capacity_value, build_symbolic_chunk_value, clamp, static_chunk, chunk_for,
  is_chunk_optimizable_schedule,
}
use carts.Schedule.Chunk.Run.{modulus, half, slt, ceil_ui, ceil_si, word_of, eval}

-- A value that is a nonnegative index, and a step that the pass can divide by.
abbrev pub IsIndex : (ℕ → ℕ) → Value → Type 0
IsIndex env (constant n) = (pos 0 ≤ℤ n) × (pos_part n < half)
IsIndex env (unknown i) = env i < half

abbrev pub IsUsableStep : Value → Type 0
IsUsableStep (constant n) = pos 1 ≤ℤ n
IsUsableStep (unknown i) = Unit

abbrev pub index_of : (ℕ → ℕ) → Value → ℕ
index_of env (constant n) = pos_part n
index_of env (unknown i) = env i

-- The trip count that the program computes: ceil((upper - lower) / step), where a step of 0 reads
-- as 1.
abbrev pub runtime_trip_count : ℕ → ℕ → ℕ → ℕ
runtime_trip_count lower upper step = (upper - lower + max step 1 - 1) / max step 1

word_index :
    (env : ℕ → ℕ) (v : Value)
    → IsIndex env v
    → (word_of env v ≡ index_of env v) × (index_of env v < half)
word_index env (constant (pos n)) (h, b) = (omega arith, b)
word_index env (constant (negsuc n)) (h, b) = absurd (omega arith)
word_index env (unknown i) b = (refl, b)

quotient_step : (x b : ℕ) → 0 < b → (x + b) / b ≡ x / b + 1
quotient_step x b h = grind arith

pub ceil_ui_lem : (a b : ℕ) → 0 < b → ceil_ui a b ≡ (a + b - 1) / b
ceil_ui_lem zero b h = grind arith
ceil_ui_lem (suc a) b h =
    let positive : ceil_ui (suc a) b ≡ a / b + 1 = ground arith in
    let shift : suc a + b - 1 ≡ a + b = omega arith in
    positive ∙ sym (ap (λ x. x / b) shift ∙ quotient_step a b h)

span_lem :
    (lower upper : ℕ)
    → lower < half
    → upper < half
    → (if slt ((upper + (modulus - lower)) % modulus) 0
        then 0
        else (upper + (modulus - lower)) % modulus)
      ≡ upper - lower
span_lem lower upper h k = ground arith

max_comm : (a b : ℕ) → max a b ≡ max b a
max_comm a b = omega arith

-- The step that divides, where the program runs.
safe_step_lem :
    (env : ℕ → ℕ) (workers : ℕ) (step : Value)
    → IsIndex env step
    → IsUsableStep step
    → (e : Expr) × (safe_step step ≡ some e) × (eval env workers e ≡ max (index_of env step) 1)
unfolding safe_step eval
safe_step_lem env workers (constant (pos (suc n))) (h, b) u =
    (value (constant (pos (suc n))), ground arith, omega arith)
safe_step_lem env workers (constant (pos zero)) h u = absurd (omega arith)
safe_step_lem env workers (constant (negsuc n)) h u = absurd (omega arith)
safe_step_lem env workers (unknown i) b u =
    (select_sle (value (unknown i)) (index 0) (index 1) (value (unknown i)), refl, ground arith)

ceil_si_small : (a b : ℕ) → a < half → b < half → 0 < b → ceil_si a b ≡ (a + b - 1) / b
ceil_si_small a b h k p =
    let small : ltb a half ≡ true = ground arith in
    let small_step : ltb b half ≡ true = ground arith in
    rw (small, small_step) refl ∙ ceil_ui_lem a b p

trip_count_of_lem :
    (env : ℕ → ℕ) (workers : ℕ) (lower upper step : Value)
    → IsIndex env lower
    → IsIndex env upper
    → IsIndex env step
    → IsUsableStep step
    → (e : Expr) × (trip_count_of (lower ∷ []) (upper ∷ []) (step ∷ []) ≡ some e)
      × (eval env workers e
          ≡ runtime_trip_count (index_of env lower) (index_of env upper) (index_of env step))
unfolding trip_count_of trip_count_value eval
trip_count_of_lem env workers lower upper step il iu is us =
    let (s, es, vs) = safe_step_lem env workers step is us in
    let (el, bl) = word_index env lower il in
    let (eu, bu) = word_index env upper iu in
    let (_, bs) = word_index env step is in
    let span = sub_i (value upper) (value lower) in
    (
      ceil_div_si (select_slt span (index 0) (index 0) span) s,
      rw (es, trip_count_of) refl,
      ap₂ ceil_si (rw (el, eu) (span_lem (index_of env lower) (index_of env upper) bl bu)) vs
          ∙ ceil_si_small (index_of env upper - index_of env lower) (max (index_of env step) 1)
              (omega arith) (omega arith) (omega arith),
    )

symbolic_value :
    (trip workers low : ℕ)
    → low < modulus
    → min
        (max (ceil_ui (max trip (1 % modulus)) (max workers (1 % modulus))) (low % modulus))
        (max trip (1 % modulus))
      ≡ min (max low ((max trip 1 + max workers 1 - 1) / max workers 1)) (max trip 1)
symbolic_value trip workers low h =
    let e = ceil_ui_lem (max trip 1) (max workers 1) (omega arith) in
    let small : low % modulus ≡ low = omega arith in
    rw (e, small) (ap (λ z. min z (max trip 1)) (max_comm _ low))

module _ (L : Llvm) (F : Float) where
  build_symbolic_chunk_lem :
      (m : CostModel F) (op : SuIterate) (env : ℕ → ℕ) (workers trip : ℕ) (t : Expr)
      → build_trip_count_value op ≡ some t
      → eval env workers t ≡ trip
      → at_least_one m.get_min_iterations_per_worker < half
      → at_least_one m.get_logical_worker_capacity ≡ max workers 1
      → (e : Expr) × (build_symbolic_chunk_value op
            (pos (at_least_one m.get_min_iterations_per_worker))
          ≡ some e)
        × (eval env workers e ≡ static_chunk L F m (max trip 1))
  unfolding build_symbolic_chunk_value build_logical_worker_capacity_value eval static_chunk
  build_symbolic_chunk_lem m op env workers trip t h v small same =
      let low = at_least_one m.get_min_iterations_per_worker in
      let clamped = max_ui t (index 1) in
      let balanced = ceil_div_ui clamped (max_ui logical_workers (index 1)) in
      let chunk = min_ui (max_ui balanced (index (max 1 low))) clamped in
      let w = max workers 1 in
      let top = max trip 1 in
      let value_of : eval env workers chunk ≡ min (max (max 1 low) ((top + w - 1) / w)) top =
        rw v (symbolic_value trip workers (max 1 low) (omega arith)) in
      let known : min (max (max 1 low) ((top + w - 1) / w)) top
          ≡ clamp (max low ((top + w - 1) / w)) 1 top =
        ap (λ z. min (max z ((top + w - 1) / w)) top) (omega arith)
        ∙ sym (clamp_lem low ((top + w - 1) / w) top (omega arith) (omega arith)) in
      let divided : (top + w - 1) / w
          ≡ L.divide_ceil top (at_least_one m.get_logical_worker_capacity) =
        sym (divide_ceil_lem L top w (omega arith)) ∙ ap (λ z. L.divide_ceil top z) (sym same) in
      (
        chunk,
        rw (h, build_symbolic_chunk_value) refl,
        value_of ∙ known ∙ ap (λ z. clamp (max low z) 1 top) divided,
      )

  one_dimensional :
      (op : SuIterate) (lower upper step : Value)
      → op.lower_bounds ≡ lower ∷ []
      → op.upper_bounds ≡ upper ∷ []
      → op.steps ≡ step ∷ []
      → is_one_dimensional_loop op ≡ true
  unfolding is_one_dimensional_loop
  one_dimensional op lower upper step el eu es =
      rw (ap length el, ap length eu, ap length es, is_one_dimensional_loop) refl

  chunk_for_unknown :
      (m : CostModel F) (op : SuIterate)
      → op.chunk_size ≡ none
      → is_chunk_optimizable_schedule op.schedule ≡ true
      → get_static_trip_count op ≡ none
      → is_one_dimensional_loop op ≡ true
      → chunk_for L F m op
        ≡ build_symbolic_chunk_value op (pos (at_least_one m.get_min_iterations_per_worker))
  unfolding chunk_for
  chunk_for_unknown m op hc hs ht flat = ground arith

  -- A dynamic or guided loop without a chunk size, over one dimension, whose trip count is not
  -- known is given a chunk that the program computes when it runs. Where the bounds and the step
  -- are then nonnegative, a constant step is positive and the configured minimum is a 63-bit
  -- number, the computed chunk is the one that the pass gives a loop with the trip count
  -- max(1, ceil((upper - lower) / step)), a step of 0 read as 1, on a machine with as many workers.
  pub chunk_for_symbolic :
      (m : CostModel F) (op : SuIterate) (env : ℕ → ℕ) (workers : ℕ) (lower upper step : Value)
      → op.chunk_size ≡ none
      → is_chunk_optimizable_schedule op.schedule ≡ true
      → op.lower_bounds ≡ lower ∷ []
      → op.upper_bounds ≡ upper ∷ []
      → op.steps ≡ step ∷ []
      → get_static_trip_count op ≡ none
      → IsIndex env lower
      → IsIndex env upper
      → IsIndex env step
      → IsUsableStep step
      → at_least_one m.get_min_iterations_per_worker < half
      → at_least_one m.get_logical_worker_capacity ≡ max workers 1
      → (e : Expr) × (chunk_for L F m op ≡ some e)
        × (eval env workers e
            ≡ static_chunk L F m (
                max
                  (runtime_trip_count (index_of env lower) (index_of env upper) (index_of env step))
                  1))
  unfolding chunk_for is_one_dimensional_loop build_trip_count_value
  chunk_for_symbolic m op env workers lower upper step hc hs el eu es ht il iu is us small same =
      let (t, found, v) = trip_count_of_lem env workers lower upper step il iu is us in
      let built : build_trip_count_value op ≡ some t =
        rw (ht, el, eu, es, build_trip_count_value) found in
      let (e, chunk, value_eq) = build_symbolic_chunk_lem m op env workers _ t built v small same in
      let flat = one_dimensional op lower upper step el eu es in
      (e, chunk_for_unknown m op hc hs ht flat ∙ chunk, value_eq)
