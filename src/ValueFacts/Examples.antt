-- ===== src/ValueFacts/Examples.antt =====
-- The facts of values on small ones.
use carts.Base.{ℕ, zero, suc, ◌<◌, ◌^◌, Bool, true, Option, none, some, ◌≡◌, refl, arith}
use carts.Base.Int.{ℤ, pos, negsuc, ◌+ℤ◌, ◌*ℤ◌, ◌≤ℤ◌}
use carts.Schedule.Chunk.Run.{word}
use carts.Fold.{
  IndexValue, constant, other, index_cast, trunc_i, add_i, sub_i, mul_i, max_ui, max_si, cmp_i, slt,
  sge,
}
use carts.Fold.Samples.{one_name, no_bounds, given_seven, one_name-meaning}
use carts.Fold.Meaning.{meaning, unbounded, KeepsWidth}
use carts.ValueFacts.{strip_constant_offset, are_values_equivalent, is_provably_non_zero}
use carts.ValueFacts.Equal.{are_values_equivalent_sound, are_values_equivalent_comparisons}
use carts.ValueFacts.NonZero.{fits, is_provably_non_zero_sound}

abbrev given_other : ℕ → ℤ
given_other zero = pos 9
given_other (suc i) = pos 7

-- x * 4 + y, and y + 4 * x with x behind a cast
abbrev scaled : IndexValue
scaled = add_i (mul_i (other 0) (constant 64 (pos 4))) (other 1)

abbrev scaled_swapped : IndexValue
scaled_swapped = add_i (other 1) (mul_i (constant 64 (pos 4)) (index_cast 64 (other 0)))

strip_test :
    strip_constant_offset
      (add_i (constant 64 (pos 3)) (sub_i (other 0) (constant 64 (pos 5))))
      (pos 0)
    ≡ (other 0, negsuc 1)
unfolding strip_constant_offset ◌+ℤ◌
strip_test = refl

scaled_equivalent : are_values_equivalent one_name no_bounds 7 scaled scaled_swapped ≡ true
unfolding are_values_equivalent
scaled_equivalent = refl

scaled-KeepsWidth : KeepsWidth given_seven scaled
unfolding KeepsWidth meaning unbounded ◌+ℤ◌ ◌*ℤ◌
scaled-KeepsWidth = (refl, ((refl, (tt, refl)), tt))

scaled_swapped-KeepsWidth : KeepsWidth given_seven scaled_swapped
unfolding KeepsWidth meaning unbounded ◌+ℤ◌ ◌*ℤ◌
scaled_swapped-KeepsWidth = (refl, (tt, (refl, (refl, (refl, tt)))))

are_values_equivalent_sound_example :
    meaning given_seven scaled ≡ meaning given_seven scaled_swapped
are_values_equivalent_sound_example =
    are_values_equivalent_sound given_seven one_name no_bounds one_name-meaning
      (λ a b h. absurd (ground arith)) 7 scaled scaled_swapped refl refl scaled-KeepsWidth
      scaled_swapped-KeepsWidth scaled_equivalent

abbrev itself : IndexValue → IndexValue → Bool
itself a b = true

are_values_equivalent_comparisons_example :
    are_values_equivalent itself no_bounds 7
      (cmp_i slt (other 0) (other 1))
      (cmp_i sge (other 0) (other 1))
    ≡ true
are_values_equivalent_comparisons_example =
    are_values_equivalent_comparisons itself no_bounds (λ v. refl) 6 slt sge (other 0) (other 1)

comparisons_test :
    are_values_equivalent one_name no_bounds 7
      (cmp_i slt (other 0) (other 1))
      (cmp_i sge (other 0) (other 1))
    ≡ true
unfolding are_values_equivalent
comparisons_test = refl

abbrev no_bound : IndexValue → Option ℤ
no_bound v = none

abbrev bound_of_first : IndexValue → Option ℤ
bound_of_first (other i) = some (pos 3)
bound_of_first v = none

bound_of_first_sound :
    (v : IndexValue) (b : ℤ)
    → bound_of_first v ≡ some b
    → (b ≤ℤ meaning given_seven v) × (fits (meaning given_seven v) ≡ true)
unfolding meaning
bound_of_first_sound v b h = ground arith

-- The larger of 0 and x, with x at least 3
abbrev largest : IndexValue
largest = max_ui (constant 64 (pos 0)) (index_cast 64 (other 0))

largest-KeepsWidth : KeepsWidth given_seven largest
unfolding KeepsWidth meaning unbounded
largest-KeepsWidth = (refl, (refl, (refl, tt)))

largest_non_zero : is_provably_non_zero bound_of_first no_bound 5 largest ≡ true
unfolding is_provably_non_zero
largest_non_zero = refl

is_provably_non_zero_sound_example : 0 < word (meaning given_seven largest)
is_provably_non_zero_sound_example =
    is_provably_non_zero_sound given_seven bound_of_first no_bound bound_of_first_sound
      (λ v b h. absurd (ground arith)) 5 largest refl largest-KeepsWidth largest_non_zero

-- A value of at most -3, and its maximum with 0, which is 0 and yet found not to be.
abbrev upper_of_first : IndexValue → Option ℤ
upper_of_first (other i) = some (negsuc 2)
upper_of_first v = none

max_si_test :
    is_provably_non_zero no_bound upper_of_first 5 (max_si (other 0) (constant 64 (pos 0))) ≡ true
unfolding is_provably_non_zero
max_si_test = refl

max_si_meaning :
    meaning (record given_seven { value = λ i. negsuc 2 }) (max_si (other 0) (constant 64 (pos 0)))
    ≡ pos 0
unfolding meaning
max_si_meaning = refl

-- What the condition on widths excludes: a value found not to be 0 whose low 32 bits are.
truncated_test :
    is_provably_non_zero no_bound no_bound 5 (trunc_i 32 (constant 64 (pos (2 ^ 32)))) ≡ true
unfolding is_provably_non_zero
truncated_test = refl

truncated_meaning : meaning given_seven (trunc_i 32 (constant 64 (pos (2 ^ 32)))) ≡ pos 0
unfolding meaning
truncated_meaning = refl
