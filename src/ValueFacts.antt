-- ===== src/ValueFacts.antt =====
-- lib/carts/utils/ValueAnalysis.cpp: what the passes ask of the values of index arithmetic, with the
-- values of Fold. `other` is a block argument here; floating point is left out.
pub mod Strip
pub mod Named
pub mod Equal
pub mod Independent
pub mod NonZero
mod Examples
use carts.Base.{
  ℕ, zero, suc, ◌+◌, Bool, true, false, not, ◌&&◌, ◌||◌, ◌==◌, if◌then◌else◌, Option, none, some,
  is_some, List, [], ◌∷◌, any,
}
use carts.Base.Int.{ℤ, pos, negsuc, ltb_ℤ, eqb_ℤ, ◌+ℤ◌, ◌-ℤ◌}
use carts.Fold.{
  IndexValue, constant, other, index_cast, index_cast_ui, ext_si, ext_ui, trunc_i, add_i, sub_i,
  mul_i, div_ui, div_si, ceil_div_ui, ceil_div_si, rem_ui, rem_si, max_ui, min_ui, max_si, min_si,
  cmp_i, select, unlisted_0, unlisted_1, unlisted_2, strip_numeric_casts,
}

-- getConstantIndex and getConstantValue
abbrev pub get_constant_value : IndexValue → Option ℤ
get_constant_value (constant bits n) = some n
get_constant_value v = none

abbrev pub is_constant_equal : IndexValue → ℤ → Bool
is_constant_equal (constant bits n) val = eqb_ℤ n val
is_constant_equal v val = false

abbrev pub is_one_constant : IndexValue → Bool
is_one_constant v = is_constant_equal v (pos 1)

-- The value without what is added to it, and the sum of that.
unfoldable pub strip_constant_offset : IndexValue → ℤ → IndexValue × ℤ
unfolding ◌+ℤ◌ ◌-ℤ◌
strip_constant_offset (index_cast bits x) accumulator = strip_constant_offset x accumulator
strip_constant_offset (ext_si bits x) accumulator = strip_constant_offset x accumulator
strip_constant_offset (ext_ui bits x) accumulator = strip_constant_offset x accumulator
strip_constant_offset (trunc_i bits x) accumulator = strip_constant_offset x accumulator
strip_constant_offset (add_i (constant bits n) r) accumulator =
    strip_constant_offset r (accumulator +ℤ n)
strip_constant_offset (add_i l (constant bits n)) accumulator =
    strip_constant_offset l (accumulator +ℤ n)
strip_constant_offset (sub_i l (constant bits n)) accumulator =
    strip_constant_offset l (accumulator -ℤ n)
strip_constant_offset v accumulator = (v, accumulator)

unfoldable pub strip_clamp_one : IndexValue → IndexValue
unfolding strip_numeric_casts
strip_clamp_one (index_cast bits x) = strip_clamp_one x
strip_clamp_one (ext_si bits x) = strip_clamp_one x
strip_clamp_one (ext_ui bits x) = strip_clamp_one x
strip_clamp_one (trunc_i bits x) = strip_clamp_one x
strip_clamp_one (max_ui l r) =
    let left = strip_clamp_one l in
    let right = strip_clamp_one r in
    if is_one_constant (strip_numeric_casts l)
    then right
    else if is_one_constant (strip_numeric_casts r)
    then left
    else max_ui l r
strip_clamp_one v = v

-- The operands of an operation, and its name as a number; a block argument has none, and attributes,
-- such as the predicate of a comparison, are no part of a name.
abbrev pub operands : IndexValue → List IndexValue
operands (constant bits n) = []
operands (other i) = []
operands (index_cast bits x) = x ∷ []
operands (index_cast_ui bits x) = x ∷ []
operands (ext_si bits x) = x ∷ []
operands (ext_ui bits x) = x ∷ []
operands (trunc_i bits x) = x ∷ []
operands (add_i l r) = l ∷ r ∷ []
operands (sub_i l r) = l ∷ r ∷ []
operands (mul_i l r) = l ∷ r ∷ []
operands (div_ui l r) = l ∷ r ∷ []
operands (div_si l r) = l ∷ r ∷ []
operands (ceil_div_ui l r) = l ∷ r ∷ []
operands (ceil_div_si l r) = l ∷ r ∷ []
operands (rem_ui l r) = l ∷ r ∷ []
operands (rem_si l r) = l ∷ r ∷ []
operands (max_ui l r) = l ∷ r ∷ []
operands (min_ui l r) = l ∷ r ∷ []
operands (max_si l r) = l ∷ r ∷ []
operands (min_si l r) = l ∷ r ∷ []
operands (cmp_i p l r) = l ∷ r ∷ []
operands (select c t f) = c ∷ t ∷ f ∷ []
operands (unlisted_0 name attribute) = []
operands (unlisted_1 name attribute x) = x ∷ []
operands (unlisted_2 name attribute l r) = l ∷ r ∷ []

abbrev pub name_of : IndexValue → Option ℕ
name_of (other i) = none
name_of (constant bits n) = some 0
name_of (index_cast bits x) = some 1
name_of (index_cast_ui bits x) = some 2
name_of (ext_si bits x) = some 3
name_of (ext_ui bits x) = some 4
name_of (trunc_i bits x) = some 5
name_of (add_i l r) = some 6
name_of (sub_i l r) = some 7
name_of (mul_i l r) = some 8
name_of (div_ui l r) = some 9
name_of (div_si l r) = some 10
name_of (ceil_div_ui l r) = some 11
name_of (ceil_div_si l r) = some 12
name_of (rem_ui l r) = some 13
name_of (rem_si l r) = some 14
name_of (max_ui l r) = some 15
name_of (min_ui l r) = some 16
name_of (max_si l r) = some 17
name_of (min_si l r) = some 18
name_of (cmp_i p l r) = some 19
name_of (select c t f) = some 20
name_of (unlisted_0 name attribute) = some (21 + name)
name_of (unlisted_1 name attribute x) = some (21 + name)
name_of (unlisted_2 name attribute l r) = some (21 + name)

-- Two operations of one name that are not swapped, and have as many operands.
abbrev pub same_name : Option ℕ → Option ℕ → Bool
same_name (some a) (some b) = a == b
same_name a b = false

-- isa of AddIOp, MulIOp, MaxUIOp or MinUIOp
abbrev pub is_commutative : IndexValue → Bool
is_commutative (add_i l r) = true
is_commutative (mul_i l r) = true
is_commutative (max_ui l r) = true
is_commutative (min_ui l r) = true
is_commutative v = false

abbrev pub all_equal : (IndexValue → IndexValue → Bool) → List IndexValue → List IndexValue → Bool
all_equal eq [] [] = true
all_equal eq (x ∷ xs) (y ∷ ys) = eq x y && all_equal eq xs ys
all_equal eq xs ys = false

-- Also where the operands are swapped.
abbrev pub either_order :
    (IndexValue → IndexValue → Bool) → List IndexValue → List IndexValue → Bool
either_order eq (a0 ∷ a1 ∷ []) (b0 ∷ b1 ∷ []) = (eq a0 b0 && eq a1 b1) || (eq a0 b1 && eq a1 b0)
either_order eq xs ys = all_equal eq xs ys

abbrev pub same_operation : (IndexValue → IndexValue → Bool) → IndexValue → IndexValue → Bool
same_operation eq a b =
    same_name (name_of a) (name_of b)
    && (if is_commutative a
        then either_order eq (operands a) (operands b)
        else all_equal eq (operands a) (operands b))

abbrev pub same_constant : Option ℤ → Option ℤ → Bool → Bool
same_constant (some a) (some b) later = eqb_ℤ a b
same_constant a b later = later

-- The operations that dependsOn looks through.
abbrev pub looks_through : IndexValue → Bool
looks_through (constant bits n) = false
looks_through (other i) = false
looks_through (ceil_div_ui l r) = false
looks_through (ceil_div_si l r) = false
looks_through (unlisted_0 name attribute) = false
looks_through (unlisted_1 name attribute x) = false
looks_through (unlisted_2 name attribute l r) = false
looks_through v = true

-- Whether two values are one, and whether MLIR's value bounds prove them equal, are parameters.
module _ (identical : IndexValue → IndexValue → Bool) where
  -- dependsOn, by the levels of depth that are left.
  unfoldable pub depends_on : ℕ → IndexValue → IndexValue → Bool
  depends_on zero value base = false
  depends_on (suc n) value base =
      identical value base
      || (looks_through value && any (λ x. depends_on n x base) (operands value))

  module _ (equal_by_bounds : IndexValue → IndexValue → Bool) where
    -- areValuesEquivalent, by the levels of depth that are left.
    unfoldable pub are_values_equivalent : ℕ → IndexValue → IndexValue → Bool
    unfolding strip_numeric_casts
    are_values_equivalent zero a b = identical a b
    are_values_equivalent (suc n) a b =
        let a' = strip_numeric_casts a in
        let b' = strip_numeric_casts b in
        identical a b
        || (identical a' b'
            || (equal_by_bounds a' b'
                || same_constant (get_constant_value a') (get_constant_value b')
                    (same_operation (λ x y. are_values_equivalent n x y) a' b')))

abbrev pub decided : Option Bool → Bool → Bool
decided (some b) later = b
decided none later = later

abbrev pub at_least : Option ℤ → ℤ → Option Bool
at_least (some lower) least = some (not (ltb_ℤ lower least))
at_least none least = none

abbrev pub at_most_minus_one : Option ℤ → Option Bool
at_most_minus_one (some upper) = some (not (ltb_ℤ (negsuc 0) upper))
at_most_minus_one none = none

abbrev pub max_operand : (IndexValue → Bool) → IndexValue → Bool
max_operand f (max_ui l r) = f l || f r
max_operand f (max_si l r) = f l || f r
max_operand f v = false

-- The constant bounds that MLIR computes of a value; none where its type is not index.
module _ (lower_bound upper_bound : IndexValue → Option ℤ) where
  abbrev pub prove_value_at_least : IndexValue → ℤ → Option Bool
  prove_value_at_least v least = at_least (lower_bound v) least

  abbrev pub prove_value_non_zero : IndexValue → Option Bool
  prove_value_non_zero v =
      if decided (prove_value_at_least v (pos 1)) false
      then some true
      else at_most_minus_one (upper_bound v)

  abbrev pub is_at_least_one : Option ℤ → Bool
  is_at_least_one (some val) = not (ltb_ℤ val (pos 1))
  is_at_least_one none = false

  unfoldable pub is_constant_at_least_one : IndexValue → Bool
  unfolding strip_numeric_casts
  is_constant_at_least_one v =
      let v' = strip_numeric_casts v in
      decided (prove_value_at_least v' (pos 1)) (is_at_least_one (get_constant_value v'))

  -- isProvablyNonZero, by the levels of depth that are left.
  unfoldable pub is_provably_non_zero : ℕ → IndexValue → Bool
  unfolding is_constant_at_least_one strip_numeric_casts
  is_provably_non_zero zero v = false
  is_provably_non_zero (suc n) v =
      let v' = strip_numeric_casts v in
      decided (prove_value_non_zero v')
        (is_constant_at_least_one v' || max_operand (λ x. is_provably_non_zero n x) v')
