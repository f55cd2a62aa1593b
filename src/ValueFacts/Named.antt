-- ===== src/ValueFacts/Named.antt =====
-- What a value means, by the name of its operation and its operands.
use carts.Base.{
  ℕ, ◌/◌, ◌%◌, max, min, All, not, ltb, Bool, true, false, ◌&&◌, ◌==◌, if◌then◌else◌, Option, none,
  some, List, [], ◌∷◌, map, ◌≡◌, refl, ap, arith,
}
use carts.Base.Int.{ℤ, pos, ◌+ℤ◌, ◌-ℤ◌, ◌*ℤ◌, eqb_ℤ, +ℤ_comm}
use carts.Schedule.Chunk.Run.{word, ceil_ui}
use carts.Fold.{
  IndexValue, constant, other, index_cast, index_cast_ui, ext_si, ext_ui, trunc_i, add_i, sub_i,
  mul_i, div_ui, div_si, ceil_div_ui, ceil_div_si, rem_ui, rem_si, max_ui, min_ui, max_si, min_si,
  cmp_i, select, unlisted_0, unlisted_1, unlisted_2, signed, quot,
}
use carts.Fold.Meaning.{Env, KeepsWidth, unbounded, meaning, ceil_quot, rest, max_ℤ, min_ℤ}
use carts.ValueFacts.{operands, name_of, same_name, is_commutative}

-- No operation with attributes stands in the value: no comparison, and none that is not listed.
abbrev pub no_attribute : IndexValue → Bool
no_attribute (constant bits n) = true
no_attribute (other i) = true
no_attribute (index_cast bits x) = no_attribute x
no_attribute (index_cast_ui bits x) = no_attribute x
no_attribute (ext_si bits x) = no_attribute x
no_attribute (ext_ui bits x) = no_attribute x
no_attribute (trunc_i bits x) = no_attribute x
no_attribute (add_i l r) = no_attribute l && no_attribute r
no_attribute (sub_i l r) = no_attribute l && no_attribute r
no_attribute (mul_i l r) = no_attribute l && no_attribute r
no_attribute (div_ui l r) = no_attribute l && no_attribute r
no_attribute (div_si l r) = no_attribute l && no_attribute r
no_attribute (ceil_div_ui l r) = no_attribute l && no_attribute r
no_attribute (ceil_div_si l r) = no_attribute l && no_attribute r
no_attribute (rem_ui l r) = no_attribute l && no_attribute r
no_attribute (rem_si l r) = no_attribute l && no_attribute r
no_attribute (max_ui l r) = no_attribute l && no_attribute r
no_attribute (min_ui l r) = no_attribute l && no_attribute r
no_attribute (max_si l r) = no_attribute l && no_attribute r
no_attribute (min_si l r) = no_attribute l && no_attribute r
no_attribute (cmp_i p l r) = false
no_attribute (unlisted_0 name attribute) = false
no_attribute (unlisted_1 name attribute x) = false
no_attribute (unlisted_2 name attribute l r) = false
no_attribute (select c t f) = no_attribute c && (no_attribute t && no_attribute f)

-- What an operation of two operands computes, by its name.
abbrev compute : ℕ → ℤ → ℤ → ℤ
compute name a b =
    if name == 6
    then a +ℤ b
    else if name == 7
    then a -ℤ b
    else if name == 8
    then a *ℤ b
    else if name == 9
    then signed (word a / word b)
    else if name == 10
    then quot a b
    else if name == 11
    then signed (ceil_ui (word a) (word b))
    else if name == 12
    then ceil_quot a b
    else if name == 13
    then signed (word a % word b)
    else if name == 14
    then rest a b
    else if name == 15
    then signed (max (word a) (word b))
    else if name == 16
    then signed (min (word a) (word b))
    else if name == 17
    then max_ℤ a b
    else min_ℤ a b

-- An operation that is no constant and no comparison, by its name and its operands.
abbrev pub by_name : Option ℕ → List ℤ → ℤ
by_name (some name) (a ∷ []) = a
by_name (some name) (a ∷ b ∷ []) = compute name a b
by_name (some name) (c ∷ t ∷ f ∷ []) = if eqb_ℤ c (pos 0) then f else t
by_name name values = pos 0

abbrev pub is_computed : Option ℕ → Bool
is_computed none = false
is_computed (some name) = not (name == 0) && (not (name == 19) && ltb name 21)

pub meaning-by_name :
    (given : Env) (v : IndexValue)
    → KeepsWidth given v
    → is_computed (name_of v) ≡ true
    → meaning given v ≡ by_name (name_of v) (map (meaning given) (operands v))
unfolding meaning unbounded KeepsWidth
meaning-by_name given (constant bits n) k h = absurd (ground arith)
meaning-by_name given (other i) k h = absurd (ground arith)
meaning-by_name given (cmp_i p l r) k h = absurd (ground arith)
meaning-by_name given (unlisted_0 name attribute) k h = absurd (ground arith)
meaning-by_name given (unlisted_1 name attribute x) k h = absurd (ground arith)
meaning-by_name given (unlisted_2 name attribute l r) k h = absurd (ground arith)
meaning-by_name given (index_cast bits x) (fit, k) h = fit
meaning-by_name given (index_cast_ui bits x) (fit, k) h = fit
meaning-by_name given (ext_si bits x) (fit, k) h = fit
meaning-by_name given (ext_ui bits x) (fit, k) h = fit
meaning-by_name given (trunc_i bits x) (fit, k) h = fit
meaning-by_name given (add_i l r) (fit, k) h = fit
meaning-by_name given (sub_i l r) (fit, k) h = fit
meaning-by_name given (mul_i l r) (fit, k) h = fit
meaning-by_name given (div_ui l r) (fit, k) h = fit
meaning-by_name given (div_si l r) (fit, k) h = fit
meaning-by_name given (ceil_div_ui l r) (fit, k) h = fit
meaning-by_name given (ceil_div_si l r) (fit, k) h = fit
meaning-by_name given (rem_ui l r) (fit, k) h = fit
meaning-by_name given (rem_si l r) (fit, k) h = fit
meaning-by_name given (max_ui l r) (fit, k) h = fit
meaning-by_name given (min_ui l r) (fit, k) h = fit
meaning-by_name given (max_si l r) (fit, k) h = fit
meaning-by_name given (min_si l r) (fit, k) h = fit
meaning-by_name given (select c t f) k h = refl

*ℤ_comm : (a b : ℤ) → a *ℤ b ≡ b *ℤ a
unfolding ◌*ℤ◌
*ℤ_comm a b = ground arith

pub swapped :
    (v : IndexValue) (a b : ℤ)
    → is_commutative v ≡ true
    → by_name (name_of v) (a ∷ b ∷ []) ≡ by_name (name_of v) (b ∷ a ∷ [])
swapped (add_i l r) a b h = +ℤ_comm a b
swapped (mul_i l r) a b h = *ℤ_comm a b
swapped (max_ui l r) a b h = ap signed (omega arith)
swapped (min_ui l r) a b h = ap signed (omega arith)
swapped v a b h = absurd (ground arith)

pub same_name_equal : (a b : Option ℕ) → same_name a b ≡ true → a ≡ b
same_name_equal none b h = absurd (ground arith)
same_name_equal (some m) none h = absurd (ground arith)
same_name_equal (some m) (some n) h = ap some (ground arith)

pub both_true : (a b : Bool) → (a && b) ≡ true → (a ≡ true) × ((b ≡ true) × Unit {0})
both_true true b h = (refl, (h, tt))
both_true false b h = absurd (ground arith)

three_true :
    (a b c : Bool) → (a && (b && c)) ≡ true → (a ≡ true) × ((b ≡ true) × ((c ≡ true) × Unit {0}))
three_true true b c h = (refl, both_true b c h)
three_true false b c h = absurd (ground arith)

pub operands-no_attribute :
    (v : IndexValue) → no_attribute v ≡ true → All (λ x. no_attribute x ≡ true) (operands v)
operands-no_attribute (index_cast bits x) h = (h, tt)
operands-no_attribute (index_cast_ui bits x) h = (h, tt)
operands-no_attribute (ext_si bits x) h = (h, tt)
operands-no_attribute (ext_ui bits x) h = (h, tt)
operands-no_attribute (trunc_i bits x) h = (h, tt)
operands-no_attribute (add_i l r) h = both_true (no_attribute l) (no_attribute r) h
operands-no_attribute (sub_i l r) h = both_true (no_attribute l) (no_attribute r) h
operands-no_attribute (mul_i l r) h = both_true (no_attribute l) (no_attribute r) h
operands-no_attribute (div_ui l r) h = both_true (no_attribute l) (no_attribute r) h
operands-no_attribute (div_si l r) h = both_true (no_attribute l) (no_attribute r) h
operands-no_attribute (ceil_div_ui l r) h = both_true (no_attribute l) (no_attribute r) h
operands-no_attribute (ceil_div_si l r) h = both_true (no_attribute l) (no_attribute r) h
operands-no_attribute (rem_ui l r) h = both_true (no_attribute l) (no_attribute r) h
operands-no_attribute (rem_si l r) h = both_true (no_attribute l) (no_attribute r) h
operands-no_attribute (max_ui l r) h = both_true (no_attribute l) (no_attribute r) h
operands-no_attribute (min_ui l r) h = both_true (no_attribute l) (no_attribute r) h
operands-no_attribute (max_si l r) h = both_true (no_attribute l) (no_attribute r) h
operands-no_attribute (min_si l r) h = both_true (no_attribute l) (no_attribute r) h
operands-no_attribute (select c t f) h =
    three_true (no_attribute c) (no_attribute t) (no_attribute f) h
operands-no_attribute (constant bits n) h = tt
operands-no_attribute (other i) h = tt
operands-no_attribute (cmp_i p l r) h = absurd (ground arith)
operands-no_attribute (unlisted_0 name attribute) h = absurd (ground arith)
operands-no_attribute (unlisted_1 name attribute x) h = absurd (ground arith)
operands-no_attribute (unlisted_2 name attribute l r) h = absurd (ground arith)

pub operands-KeepsWidth :
    (given : Env) (v : IndexValue) → KeepsWidth given v → All (λ x. KeepsWidth given x) (operands v)
unfolding KeepsWidth
operands-KeepsWidth given (index_cast bits x) (fit, k) = (k, tt)
operands-KeepsWidth given (index_cast_ui bits x) (fit, k) = (k, tt)
operands-KeepsWidth given (ext_si bits x) (fit, k) = (k, tt)
operands-KeepsWidth given (ext_ui bits x) (fit, k) = (k, tt)
operands-KeepsWidth given (trunc_i bits x) (fit, k) = (k, tt)
operands-KeepsWidth given (add_i l r) (fit, (kl, kr)) = (kl, (kr, tt))
operands-KeepsWidth given (sub_i l r) (fit, (kl, kr)) = (kl, (kr, tt))
operands-KeepsWidth given (mul_i l r) (fit, (kl, kr)) = (kl, (kr, tt))
operands-KeepsWidth given (div_ui l r) (fit, (kl, kr)) = (kl, (kr, tt))
operands-KeepsWidth given (div_si l r) (fit, (kl, kr)) = (kl, (kr, tt))
operands-KeepsWidth given (ceil_div_ui l r) (fit, (kl, kr)) = (kl, (kr, tt))
operands-KeepsWidth given (ceil_div_si l r) (fit, (kl, kr)) = (kl, (kr, tt))
operands-KeepsWidth given (rem_ui l r) (fit, (kl, kr)) = (kl, (kr, tt))
operands-KeepsWidth given (rem_si l r) (fit, (kl, kr)) = (kl, (kr, tt))
operands-KeepsWidth given (max_ui l r) (fit, (kl, kr)) = (kl, (kr, tt))
operands-KeepsWidth given (min_ui l r) (fit, (kl, kr)) = (kl, (kr, tt))
operands-KeepsWidth given (max_si l r) (fit, (kl, kr)) = (kl, (kr, tt))
operands-KeepsWidth given (min_si l r) (fit, (kl, kr)) = (kl, (kr, tt))
operands-KeepsWidth given (cmp_i p l r) (fit, (kl, kr)) = (kl, (kr, tt))
operands-KeepsWidth given (select c t f) (kc, (kt, kf)) = (kc, (kt, (kf, tt)))
operands-KeepsWidth given (constant bits n) k = tt
operands-KeepsWidth given (other i) k = tt
operands-KeepsWidth given (unlisted_0 name attribute) k = tt
operands-KeepsWidth given (unlisted_1 name attribute x) k = (k, tt)
operands-KeepsWidth given (unlisted_2 name attribute l r) (kl, kr) = (kl, (kr, tt))
