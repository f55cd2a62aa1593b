-- ===== src/Fold/Examples.antt =====
-- The constant folder on small values.
use carts.Base.{Option, none, some, ◌≡◌, refl, arith}
use carts.Base.Int.{◌+ℤ◌, ℤ, pos, negsuc}
use carts.Fold.{
  eval_cmp, IndexValue, constant, other, index_cast, add_i, mul_i, ceil_div_ui, max_ui, trunc_i, eq,
  slt, cmp_i, select, sle, try_fold_constant_index, same_value,
}
use carts.Fold.Samples.{one_name, no_bounds, given_seven, one_name-meaning}
use carts.Fold.Meaning.{meaning, unbounded, KeepsWidth}
use carts.Fold.Sound.{try_fold_constant_index_lem}

abbrev no_extra : IndexValue → Option ℤ
no_extra v = none

abbrev fold : IndexValue → Option ℤ
unfolding try_fold_constant_index same_value
fold v = try_fold_constant_index (λ a b. same_value one_name no_bounds 2 a b) no_extra v

-- (x ≤ x) ? ⌈(3 + 4) / 2⌉ : y, with x behind a cast
abbrev example : IndexValue
example =
    select (cmp_i sle (index_cast 64 (other 0)) (other 0))
      (ceil_div_ui (add_i (constant 64 (pos 3)) (constant 64 (pos 4))) (constant 64 (pos 2)))
      (other 1)

fold_example : fold example ≡ some (pos 4)
unfolding fold
fold_example = refl

-- The unsigned maximum takes a negative number as a large one.
fold_max : fold (max_ui (constant 64 (negsuc 0)) (constant 64 (pos 5))) ≡ some (negsuc 0)
unfolding fold
fold_max = refl

fold_unknown : fold (mul_i (other 0) (constant 64 (pos 0))) ≡ none
unfolding fold
fold_unknown = refl

example-KeepsWidth : KeepsWidth given_seven example
unfolding KeepsWidth meaning unbounded ◌+ℤ◌
example-KeepsWidth = ((refl, ((refl, tt), tt)), ((refl, ((refl, (refl, refl)), refl)), tt))

-- What the condition on widths excludes: a cast to 8 bits, and the constant true of one bit, of which
-- -1 is read.
narrowed : fold (trunc_i 8 (constant 64 (pos 300))) ≡ some (pos 300)
unfolding fold
narrowed = refl

narrowed-meaning : meaning given_seven (trunc_i 8 (constant 64 (pos 300))) ≡ pos 44
unfolding meaning
narrowed-meaning = refl

abbrev holds_as_true : IndexValue
holds_as_true =
    cmp_i eq (cmp_i slt (constant 64 (pos 1)) (constant 64 (pos 2))) (constant 1 (negsuc 0))

holds_as_true_folds : fold holds_as_true ≡ some (pos 0)
unfolding fold
holds_as_true_folds = refl

holds_as_true-meaning : meaning given_seven holds_as_true ≡ pos 1
unfolding meaning eval_cmp
holds_as_true-meaning = refl

try_fold_constant_index_lem_example : meaning given_seven example ≡ pos 4
unfolding try_fold_constant_index fold
try_fold_constant_index_lem_example =
    try_fold_constant_index_lem given_seven one_name no_bounds no_extra one_name-meaning
      (λ a b h. absurd (ground arith)) (λ v n h. absurd (ground arith)) 2 example (pos 4)
      example-KeepsWidth fold_example
