-- ===== src/Fold.antt =====
-- lib/carts/utils/ValueAnalysis.cpp: the constant folder of index arithmetic, tryFoldConstantIndex,
-- with the comparison of values that it calls. An int64_t is an integer without bound, since C++
-- leaves signed overflow undefined; a cast to uint64_t is the word of 64 bits. The sizes of types
-- and the loads of scalars, which the code folds too, are left out.
pub mod Meaning
pub mod Parts
pub mod Sound
pub mod Samples
mod Examples
use carts.Base.{
  ℕ, zero, suc, ◌+◌, ◌-◌, ◌/◌, ◌%◌, max, min, Bool, true, false, not, ◌&&◌, ◌||◌, ◌==◌, ltb,
  if◌then◌else◌, Option, none, some, is_some,
}
use carts.Base.Int.{ℤ, pos, negsuc, pos_part, neg_part, sub_ℕ, ◌+ℤ◌, ◌-ℤ◌, ◌*ℤ◌, ltb_ℤ, eqb_ℤ}
use carts.Schedule.Chunk.Run.{modulus, half, word}

pub data CmpPredicate : Type 0 where
  eq ne slt sle sgt sge ult ule ugt uge : CmpPredicate

-- A value with the operations that define it. `other` is a block argument. A constant has a width,
-- and the number that IntegerAttr::getInt reads, which is its sign extension; a cast has the width
-- that it is to, and `unlisted` is any operation but those that are listed here and the floating-point
-- ones that the code names, of no operand, one or two, with a name and what its attributes are.
pub data IndexValue : Type 0 where
  constant : ℕ → ℤ → IndexValue
  other : ℕ → IndexValue
  index_cast index_cast_ui ext_si ext_ui trunc_i : ℕ → IndexValue → IndexValue
  add_i sub_i mul_i div_ui div_si : IndexValue → IndexValue → IndexValue
  ceil_div_ui ceil_div_si rem_ui rem_si max_ui min_ui max_si min_si :
      IndexValue → IndexValue → IndexValue
  cmp_i : CmpPredicate → IndexValue → IndexValue → IndexValue
  select : IndexValue → IndexValue → IndexValue → IndexValue
  unlisted_0 : ℕ → ℕ → IndexValue
  unlisted_1 : ℕ → ℕ → IndexValue → IndexValue
  unlisted_2 : ℕ → ℕ → IndexValue → IndexValue → IndexValue

-- static_cast<int64_t> of a word
abbrev pub signed : ℕ → ℤ
signed w = if ltb w half then pos w else negsuc (modulus - 1 - w)

abbrev pub is_negative : ℤ → Bool
is_negative (pos n) = false
is_negative (negsuc n) = true

abbrev pub magnitude : ℤ → ℕ
magnitude a = pos_part a + neg_part a

-- a / b, which C++ rounds towards zero.
abbrev pub quot : ℤ → ℤ → ℤ
quot a b =
    let q = magnitude a / magnitude b in
    if is_negative a
    then (if is_negative b then pos q else sub_ℕ 0 q)
    else if is_negative b
    then sub_ℕ 0 q
    else pos q

abbrev pub bit : Bool → ℤ
bit true = pos 1
bit false = pos 0

-- The lambda evalCmp.
unfoldable pub eval_cmp : CmpPredicate → ℤ → ℤ → Bool
eval_cmp eq a b = eqb_ℤ a b
eval_cmp ne a b = not (eqb_ℤ a b)
eval_cmp slt a b = ltb_ℤ a b
eval_cmp sle a b = not (ltb_ℤ b a)
eval_cmp sgt a b = ltb_ℤ b a
eval_cmp sge a b = not (ltb_ℤ a b)
eval_cmp ult a b = ltb (word a) (word b)
eval_cmp ule a b = not (ltb (word b) (word a))
eval_cmp ugt a b = ltb (word b) (word a)
eval_cmp uge a b = not (ltb (word a) (word b))

-- The result for two values that are the same.
abbrev pub reflexive : CmpPredicate → Bool
reflexive eq = true
reflexive sle = true
reflexive sge = true
reflexive ule = true
reflexive uge = true
reflexive _ = false

-- The results where the right value, or the left one, is 0.
abbrev pub with_right_zero : CmpPredicate → Option ℤ
with_right_zero ult = some (pos 0)
with_right_zero uge = some (pos 1)
with_right_zero _ = none

abbrev pub with_left_zero : CmpPredicate → Option ℤ
with_left_zero ugt = some (pos 0)
with_left_zero ule = some (pos 1)
with_left_zero _ = none

abbrev pub is_zero : Option ℤ → Bool
is_zero none = false
is_zero (some n) = eqb_ℤ n (pos 0)

abbrev pub or_else : Option ℤ → Option ℤ → Option ℤ
or_else none later = later
or_else (some n) later = some n

-- It stops at a cast from an unsigned index.
unfoldable pub strip_numeric_casts : IndexValue → IndexValue
strip_numeric_casts (index_cast bits x) = strip_numeric_casts x
strip_numeric_casts (ext_si bits x) = strip_numeric_casts x
strip_numeric_casts (ext_ui bits x) = strip_numeric_casts x
strip_numeric_casts (trunc_i bits x) = strip_numeric_casts x
strip_numeric_casts x = x

abbrev pub both : (ℤ → ℤ → Option ℤ) → Option ℤ → Option ℤ → Option ℤ
both f none r = none
both f (some a) none = none
both f (some a) (some b) = f a b

abbrev pub divide_ui : ℤ → ℤ → Option ℤ
divide_ui a b = if eqb_ℤ b (pos 0) then none else some (signed (word a / word b))

abbrev pub divide_si : ℤ → ℤ → Option ℤ
divide_si a b = if eqb_ℤ b (pos 0) then none else some (quot a b)

-- Only a nonnegative dividend and a positive divisor are divided.
abbrev pub ceil_divides : ℤ → ℤ → Bool
ceil_divides a b = not (ltb_ℤ a (pos 0)) && ltb_ℤ (pos 0) b

abbrev pub ceil_divide_ui : ℤ → ℤ → Option ℤ
ceil_divide_ui a b =
    if ceil_divides a b
    then some (signed (word a / word b + (if word a % word b == 0 then 0 else 1)))
    else none

abbrev pub ceil_divide_si : ℤ → ℤ → Option ℤ
ceil_divide_si a b =
    if ceil_divides a b then some (pos ((pos_part a + pos_part b - 1) / pos_part b)) else none

abbrev pub equal_results : Option ℤ → Option ℤ → Option ℤ
equal_results none f = none
equal_results (some a) none = none
equal_results (some a) (some b) = if eqb_ℤ a b then some a else none

abbrev pub by_condition : Option ℤ → Option ℤ → Option ℤ → Option ℤ
by_condition none t f = equal_results t f
by_condition (some c) t f = if eqb_ℤ c (pos 0) then f else t

-- sameValue and the folder for other operations are arguments here.
module _ (same_value : IndexValue → IndexValue → Bool) (extra : IndexValue → Option ℤ) where
  -- tryFoldCmpResult, with the folder at the depth of the operands.
  unfoldable pub try_fold_cmp_result :
      (IndexValue → Option ℤ) → CmpPredicate → IndexValue → IndexValue → Option ℤ
  unfolding eval_cmp strip_numeric_casts
  try_fold_cmp_result fold p l r =
      let lv = strip_numeric_casts l in
      let rv = strip_numeric_casts r in
      let by_right = if is_zero (fold rv) then with_right_zero p else none in
      let by_left = if is_zero (fold lv) then with_left_zero p else none in
      or_else (both (λ a b. some (bit (eval_cmp p a b))) (fold l) (fold r))
        (if same_value lv rv then some (bit (reflexive p)) else or_else by_right by_left)

  -- One step of the folder, with the folder one level deeper and two.
  unfoldable pub fold_operation :
      (IndexValue → Option ℤ) → (IndexValue → Option ℤ) → IndexValue → Option ℤ
  unfolding try_fold_cmp_result ◌+ℤ◌ ◌-ℤ◌ ◌*ℤ◌
  fold_operation deeper deepest (index_cast bits x) = deeper x
  fold_operation deeper deepest (index_cast_ui bits x) = deeper x
  fold_operation deeper deepest (ext_si bits x) = deeper x
  fold_operation deeper deepest (ext_ui bits x) = deeper x
  fold_operation deeper deepest (trunc_i bits x) = deeper x
  fold_operation deeper deepest (add_i l r) = both (λ a b. some (a +ℤ b)) (deeper l) (deeper r)
  fold_operation deeper deepest (sub_i l r) = both (λ a b. some (a -ℤ b)) (deeper l) (deeper r)
  fold_operation deeper deepest (mul_i l r) = both (λ a b. some (a *ℤ b)) (deeper l) (deeper r)
  fold_operation deeper deepest (div_ui l r) = both divide_ui (deeper l) (deeper r)
  fold_operation deeper deepest (div_si l r) = both divide_si (deeper l) (deeper r)
  fold_operation deeper deepest (ceil_div_ui l r) = both ceil_divide_ui (deeper l) (deeper r)
  fold_operation deeper deepest (ceil_div_si l r) = both ceil_divide_si (deeper l) (deeper r)
  fold_operation deeper deepest (max_ui l r) =
      both (λ a b. some (signed (max (word a) (word b)))) (deeper l) (deeper r)
  fold_operation deeper deepest (min_ui l r) =
      both (λ a b. some (signed (min (word a) (word b)))) (deeper l) (deeper r)
  fold_operation deeper deepest (cmp_i p l r) = try_fold_cmp_result deepest p l r
  fold_operation deeper deepest (select c t f) = by_condition (deeper c) (deeper t) (deeper f)
  fold_operation deeper deepest (constant bits n) = none
  fold_operation deeper deepest (other i) = none
  fold_operation deeper deepest (unlisted_0 name attribute) = none
  fold_operation deeper deepest (unlisted_1 name attribute x) = none
  fold_operation deeper deepest (unlisted_2 name attribute l r) = none
  fold_operation deeper deepest (rem_ui l r) = none
  fold_operation deeper deepest (rem_si l r) = none
  fold_operation deeper deepest (max_si l r) = none
  fold_operation deeper deepest (min_si l r) = none

  abbrev pub fold_value : (IndexValue → Option ℤ) → (IndexValue → Option ℤ) → IndexValue → Option ℤ
  unfolding fold_operation
  fold_value deeper deepest (constant bits n) = some n
  fold_value deeper deepest v = or_else (extra v) (fold_operation deeper deepest v)

  -- tryFoldConstantIndexWithImpl, by the levels of depth that are left.
  unfoldable pub fold_levels : ℕ → IndexValue → Option ℤ
  unfolding fold_operation
  fold_levels zero v = none
  fold_levels (suc zero) v = fold_value (λ x. none) (λ x. none) v
  fold_levels (suc (suc n)) v = fold_value (λ x. fold_levels (suc n) x) (λ x. fold_levels n x) v

  -- tryFoldConstantIndexWith from depth 0, with a largest depth of 32; tryFoldConstantIndex has an
  -- `extra` that finds nothing.
  abbrev pub try_fold_constant_index : IndexValue → Option ℤ
  unfolding fold_levels
  try_fold_constant_index v = fold_levels 33 v

-- Whether two values are one, and whether MLIR's value bounds prove them equal, are parameters.
module _ (identical equal_by_bounds : IndexValue → IndexValue → Bool) where
  -- sameValue, which folds both values, and so compares the operands of their comparisons: `nested`
  -- is how deep comparisons stand in comparisons.
  unfoldable pub same_value : ℕ → IndexValue → IndexValue → Bool
  unfolding fold_levels strip_numeric_casts
  same_value zero a b =
      let a' = strip_numeric_casts a in
      let b' = strip_numeric_casts b in identical a' b' || equal_by_bounds a' b'
  same_value (suc nested) a b =
      let a' = strip_numeric_casts a in
      let b' = strip_numeric_casts b in
      let fold = fold_levels (λ x y. same_value nested x y) (λ v. none) 33 in
      identical a' b' || (equal_by_bounds a' b' || is_some (equal_results (fold a') (fold b')))
