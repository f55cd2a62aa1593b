-- ===== src/Offsets.antt =====
-- lib/carts/dialect/arts/Utils/ValueAnalysisUtils.cpp: how an index moves with a loop, by the stride
-- and the constant offset of it from the loop's induction variable; and the centering of access
-- bounds of lib/carts/dialect/arts/Analysis/AccessPatternAnalysis.cpp. The bounds that MLIR computes
-- are parameters.
pub mod Stride
pub mod Sums
pub mod Constant
pub mod Center
mod Examples
use carts.Base.{
  ℕ, zero, suc, ◌/◌, ◌%◌, Bool, true, false, not, ◌&&◌, ◌||◌, ◌==◌, if◌then◌else◌, Option, none,
  some, List, [], ◌∷◌,
}
use carts.Base.Int.{ℤ, pos, negsuc, ◌+ℤ◌, ◌-ℤ◌, ltb_ℤ, eqb_ℤ}
use carts.Fold.{
  IndexValue, constant, other, index_cast, add_i, sub_i, mul_i, strip_numeric_casts, or_else, quot,
}
use carts.Fold.Meaning.{rest}
use carts.ValueFacts.{get_constant_value, depends_on}

-- The stride of the operand that depends on the base, where the other does not.
abbrev pub by_side : Bool → Bool → Option ℤ → Option ℤ → Option ℤ
by_side true false left right = left
by_side false true left right = right
by_side l r left right = none

abbrev pub times : Option ℤ → Bool → Option ℤ
times (some factor) true = some factor
times factor dependent = none

abbrev pub stride_of : (IndexValue → Option ℤ) → (IndexValue → Bool) → IndexValue → Option ℤ
stride_of deeper dependent (add_i l r) = by_side (dependent l) (dependent r) (deeper l) (deeper r)
stride_of deeper dependent (sub_i l r) = by_side (dependent l) (dependent r) (deeper l) none
stride_of deeper dependent (mul_i l r) =
    or_else (times (get_constant_value l) (dependent r))
      (times (get_constant_value r) (dependent l))
stride_of deeper dependent v = none

-- A loop from the sum of an induction variable and a chunk offset.
abbrev pub after_sum :
    Option ℤ → Option ℤ → Bool → Bool → (ℤ → Option ℤ) → (ℤ → Option ℤ) → ℤ → Option ℤ
unfolding ◌+ℤ◌
after_sum (some c) left bl br on_left on_right accumulator = on_left (accumulator +ℤ c)
after_sum none (some c) bl br on_left on_right accumulator = on_right (accumulator +ℤ c)
after_sum none none true true on_left on_right accumulator = some accumulator
after_sum none none true false on_left on_right accumulator = on_right accumulator
after_sum none none false true on_left on_right accumulator = on_left accumulator
after_sum none none false false on_left on_right accumulator = none

abbrev pub after_difference : Option ℤ → (ℤ → Option ℤ) → ℤ → Option ℤ
unfolding ◌-ℤ◌
after_difference (some c) on_left accumulator = on_left (accumulator -ℤ c)
after_difference none on_left accumulator = none

abbrev pub index_values : (IndexValue → Bool) → List IndexValue → List IndexValue
index_values is_index [] = []
index_values is_index (v ∷ vs) =
    let later = index_values is_index vs in if is_index v then v ∷ later else later

abbrev pub bound_from : (List IndexValue → Option ℤ) → List IndexValue → Option ℤ
bound_from bound [] = none
bound_from bound (v ∷ vs) = bound (v ∷ vs)

-- Whether two values are one.
module _ (identical : IndexValue → IndexValue → Bool) where
  -- getOffsetStride, by the levels of depth that are left.
  unfoldable pub get_offset_stride : ℕ → IndexValue → IndexValue → Option ℤ
  unfolding depends_on strip_numeric_casts
  get_offset_stride zero idx base = none
  get_offset_stride (suc n) idx base =
      let idx' = strip_numeric_casts idx in
      let base' = strip_numeric_casts base in
      if identical idx' base'
      then some (pos 1)
      else stride_of (λ x. get_offset_stride n x base') (λ x. depends_on identical n x base') idx'

  module _ (loop_iv chunk_offset : IndexValue) where
    abbrev pub is_base_value : IndexValue → Bool
    is_base_value v = identical v loop_iv || identical v chunk_offset

    abbrev pub is_base_pattern : IndexValue → Bool
    is_base_pattern (add_i l r) =
        (identical l loop_iv && identical r chunk_offset)
        || (identical l chunk_offset && identical r loop_iv)
    is_base_pattern v = false

    abbrev pub is_base : IndexValue → Bool
    is_base v = is_base_value v || is_base_pattern v

    -- The loop of extractConstantOffset.
    unfoldable pub offset_from : IndexValue → ℤ → Option ℤ
    unfolding after_sum after_difference
    offset_from (add_i l r) accumulator =
        if is_base (add_i l r)
        then some accumulator
        else after_sum (get_constant_value r) (get_constant_value l) (is_base l) (is_base r)
            (λ a. offset_from l a) (λ a. offset_from r a) accumulator
    offset_from (sub_i l r) accumulator =
        if is_base (sub_i l r)
        then some accumulator
        else after_difference (get_constant_value r) (λ a. offset_from l a) accumulator
    offset_from (index_cast bits x) accumulator =
        let inner = offset_from x accumulator in
        if is_base (index_cast bits x) then some accumulator else inner
    offset_from v accumulator = if is_base v then some accumulator else none

    -- Whether a value is of index type, and the constant that MLIR's value bounds prove to be the
    -- difference of a value and the sum of others, are parameters.
    module _ (is_index : IndexValue → Bool)
        (exact_bound : IndexValue → List IndexValue → Option ℤ) where
      abbrev pub prove_constant_offset_with_bounds : IndexValue → Option ℤ
      unfolding strip_numeric_casts
      prove_constant_offset_with_bounds idx =
          let idx' = strip_numeric_casts idx in
          let others =
            index_values is_index
              (strip_numeric_casts loop_iv ∷ strip_numeric_casts chunk_offset ∷ []) in
          if is_index idx' then bound_from (exact_bound idx') others else none

      abbrev pub extract_constant_offset : IndexValue → Option ℤ
      unfolding offset_from prove_constant_offset_with_bounds
      extract_constant_offset idx =
          or_else (prove_constant_offset_with_bounds idx) (offset_from idx (pos 0))

pub record AccessBoundsResult : Type 0 where
  pub min_offset : ℤ
  pub max_offset : ℤ
  pub center_offset : ℤ
  pub is_stencil : Bool
  pub valid : Bool
  pub has_variable_offset : Bool

-- normalizeAccessBounds
unfoldable pub normalize_access_bounds : AccessBoundsResult → AccessBoundsResult
unfolding ◌+ℤ◌ ◌-ℤ◌
normalize_access_bounds bounds =
    let sum = bounds.min_offset +ℤ bounds.max_offset in
    let center = quot sum (pos 2) in
    if not bounds.valid || not bounds.is_stencil
    then bounds
    else if ltb_ℤ bounds.min_offset (pos 0) && ltb_ℤ (pos 0) bounds.max_offset
    then bounds
    else if not (eqb_ℤ (rest sum (pos 2)) (pos 0))
    then bounds
    else if eqb_ℤ center (pos 0)
    then bounds
    else record bounds {
      center_offset = center;
      min_offset = bounds.min_offset -ℤ center;
      max_offset = bounds.max_offset -ℤ center;
    }
