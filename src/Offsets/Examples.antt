-- ===== src/Offsets/Examples.antt =====
-- Strides and constant offsets of small indices.
use carts.Base.{
  ℕ, zero, suc, Bool, true, false, Option, none, some, List, ◌≡◌, ◌≢◌, refl, ap, arith,
}
use carts.Base.Int.{ℤ, pos, negsuc, ◌+ℤ◌, ◌-ℤ◌, ◌*ℤ◌}
use carts.Fold.{IndexValue, constant, other, index_cast, trunc_i, add_i, sub_i, mul_i}
use carts.Fold.Samples.{one_name, given_seven}
use carts.Fold.Meaning.{Env, meaning, unbounded, KeepsWidth}
use carts.ValueFacts.Independent.{with_values}
use carts.Offsets.{
  get_offset_stride, extract_constant_offset, AccessBoundsResult, normalize_access_bounds,
}
use carts.Offsets.Stride.{is_plain, get_offset_stride_lem}
use carts.Offsets.Sums.{IsSum}
use carts.Offsets.Constant.{extract_constant_offset_lem}

one_name-equal : (a b : IndexValue) → one_name a b ≡ true → a ≡ b
one_name-equal (other i) (other j) h = ap other (ground arith)
one_name-equal a b h = absurd (ground arith)

-- The induction variable is 10, the chunk offset is 32.
abbrev here_values : ℕ → ℤ
here_values zero = pos 10
here_values (suc i) = pos 32

abbrev next_values : ℕ → ℤ
next_values zero = pos 11
next_values (suc i) = pos 32

abbrev here : Env
here = record given_seven { value = here_values }

abbrev next : Env
next = record given_seven { value = next_values }

same_elsewhere : (i : ℕ) → i ≢ 0 → next.value i ≡ here_values i
same_elsewhere zero h = absurd (h refl)
same_elsewhere (suc i) h = refl

-- 5 * i - 3 + offset
abbrev strided : IndexValue
strided =
    add_i (sub_i (mul_i (constant 64 (pos 5)) (other 0)) (constant 64 (pos 3)))
      (index_cast 64 (other 1))

stride_test : get_offset_stride one_name 9 strided (other 0) ≡ some (pos 5)
unfolding get_offset_stride
stride_test = refl

-- A product of products has the stride of the outer one.
nested_stride_test :
    get_offset_stride one_name 9
      (mul_i (constant 64 (pos 2)) (mul_i (constant 64 (pos 3)) (other 0)))
      (other 0)
    ≡ some (pos 2)
unfolding get_offset_stride
nested_stride_test = refl

-- A truncation is stripped, also one that wraps around.
truncated_stride_test : get_offset_stride one_name 9 (trunc_i 8 (other 0)) (other 0) ≡ some (pos 1)
unfolding get_offset_stride
truncated_stride_test = refl

strided_plain : is_plain 9 strided ≡ true
unfolding is_plain
strided_plain = refl

strided-KeepsWidth : KeepsWidth next strided
unfolding KeepsWidth meaning unbounded ◌+ℤ◌ ◌*ℤ◌ ◌-ℤ◌
strided-KeepsWidth = (refl, ((refl, ((refl, (refl, tt)), refl)), (refl, tt)))

strided-KeepsWidth_here : KeepsWidth (with_values next here_values) strided
unfolding KeepsWidth meaning unbounded ◌+ℤ◌ ◌*ℤ◌ ◌-ℤ◌
strided-KeepsWidth_here = (refl, ((refl, ((refl, (refl, tt)), refl)), (refl, tt)))

get_offset_stride_lem_example :
    meaning next strided
    ≡ meaning (with_values next here_values) strided +ℤ pos 5 *ℤ (pos 11 -ℤ pos 10)
get_offset_stride_lem_example =
    get_offset_stride_lem one_name 0 refl one_name-equal next here_values same_elsewhere 9 strided
      (pos 5) strided_plain strided-KeepsWidth strided-KeepsWidth_here stride_test

abbrev no_index : IndexValue → Bool
no_index v = false

abbrev no_exact_bound : IndexValue → List IndexValue → Option ℤ
no_exact_bound v others = none

-- (i + offset) - 2
abbrev shifted_index : IndexValue
shifted_index = add_i (add_i (other 0) (other 1)) (constant 64 (negsuc 1))

offset_test :
    extract_constant_offset one_name (other 0) (other 1) no_index no_exact_bound shifted_index
    ≡ some (negsuc 1)
unfolding extract_constant_offset ◌+ℤ◌
offset_test = refl

shifted-KeepsWidth : KeepsWidth here shifted_index
unfolding KeepsWidth meaning unbounded ◌+ℤ◌ ◌*ℤ◌ ◌-ℤ◌
shifted-KeepsWidth = (refl, ((refl, (tt, tt)), refl))

extract_constant_offset_lem_example :
    (w : ℤ) × IsSum (meaning here (other 0)) (meaning here (other 1)) w
    × (meaning here shifted_index ≡ w +ℤ negsuc 1)
unfolding KeepsWidth
extract_constant_offset_lem_example =
    extract_constant_offset_lem here one_name (λ a b h. ap (meaning here) (one_name-equal a b h))
      (other 0) (other 1) no_index no_exact_bound (λ v others d h. absurd (ground arith))
      shifted_index (negsuc 1) tt tt shifted-KeepsWidth offset_test

-- Accesses at 1 to 3 are seen from 2.
abbrev one_to_three : AccessBoundsResult
one_to_three = record {
  min_offset = pos 1;
  max_offset = pos 3;
  center_offset = pos 0;
  is_stencil = true;
  valid = true;
  has_variable_offset = false;
}

center_test : normalize_access_bounds one_to_three ≡ record {
  min_offset = negsuc 0;
  max_offset = pos 1;
  center_offset = pos 2;
  is_stencil = true;
  valid = true;
  has_variable_offset = false;
}
unfolding normalize_access_bounds ◌*ℤ◌
center_test = refl
