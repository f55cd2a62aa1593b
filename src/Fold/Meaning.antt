-- ===== src/Fold/Meaning.antt =====
-- What a value of the index arithmetic stands for, at the widths of its types: the operations of the
-- arith dialect. A value of more than one bit is read as a signed integer, and a value of one bit as
-- 0 or 1.
use carts.Base.{
  ℕ, ◌/◌, ◌%◌, max, min, if◌then◌else◌, List, [], ◌∷◌, ◌≡◌, Bool, true, false, ◌^◌, ◌-◌, ltb, ◌==◌,
}
use carts.Base.Int.{ℤ, pos, negsuc, sub_ℕ, ◌+ℤ◌, ◌-ℤ◌, ◌*ℤ◌, ltb_ℤ, eqb_ℤ}
use carts.Schedule.Chunk.Run.{word, ceil_ui}
use carts.Fold.{
  CmpPredicate, IndexValue, constant, other, index_cast, index_cast_ui, ext_si, ext_ui, trunc_i,
  add_i, sub_i, unlisted_0, unlisted_1, unlisted_2, ult, ule, ugt, uge, mul_i, div_ui, div_si,
  ceil_div_ui, ceil_div_si, rem_ui, rem_si, max_si, min_si, max_ui, min_ui, cmp_i, select, signed,
  is_negative, magnitude, quot, bit, eval_cmp,
}

-- A quotient rounded up: of magnitudes where the signs agree, else rounded towards zero.
abbrev pub ceil_quot : ℤ → ℤ → ℤ
ceil_quot a b =
    let up = pos (ceil_ui (magnitude a) (magnitude b)) in
    let down = sub_ℕ 0 (magnitude a / magnitude b) in
    if is_negative a
    then (if is_negative b then up else down)
    else if is_negative b
    then down
    else up

-- a % b, which C++ gives the sign of a.
abbrev pub rest : ℤ → ℤ → ℤ
rest a b = a -ℤ quot a b *ℤ b

abbrev pub max_ℤ : ℤ → ℤ → ℤ
max_ℤ a b = if ltb_ℤ a b then b else a

abbrev pub min_ℤ : ℤ → ℤ → ℤ
min_ℤ a b = if ltb_ℤ b a then b else a

-- What a block argument is, its width, and the result of an operation that is not listed, with its
-- width.
pub record Env : Type 0 where
  pub value : ℕ → ℤ
  pub width : ℕ → ℕ
  pub result : ℕ → ℕ → List ℤ → ℤ
  pub result_width : ℕ → ℕ → ℕ

unfoldable pub width_of : (ℕ → ℕ) → (ℕ → ℕ → ℕ) → IndexValue → ℕ
width_of width result_width (constant bits n) = bits
width_of width result_width (other i) = width i
width_of width result_width (index_cast bits x) = bits
width_of width result_width (index_cast_ui bits x) = bits
width_of width result_width (ext_si bits x) = bits
width_of width result_width (ext_ui bits x) = bits
width_of width result_width (trunc_i bits x) = bits
width_of width result_width (add_i l r) = width_of width result_width l
width_of width result_width (sub_i l r) = width_of width result_width l
width_of width result_width (mul_i l r) = width_of width result_width l
width_of width result_width (div_ui l r) = width_of width result_width l
width_of width result_width (div_si l r) = width_of width result_width l
width_of width result_width (ceil_div_ui l r) = width_of width result_width l
width_of width result_width (ceil_div_si l r) = width_of width result_width l
width_of width result_width (rem_ui l r) = width_of width result_width l
width_of width result_width (rem_si l r) = width_of width result_width l
width_of width result_width (max_ui l r) = width_of width result_width l
width_of width result_width (min_ui l r) = width_of width result_width l
width_of width result_width (max_si l r) = width_of width result_width l
width_of width result_width (min_si l r) = width_of width result_width l
width_of width result_width (cmp_i p l r) = 1
width_of width result_width (select c t f) = width_of width result_width t
width_of width result_width (unlisted_0 name attribute) = result_width name attribute
width_of width result_width (unlisted_1 name attribute x) = result_width name attribute
width_of width result_width (unlisted_2 name attribute l r) = result_width name attribute

-- The low bits of a number, unsigned and signed.
abbrev pub unsigned_at : ℕ → ℤ → ℕ
unsigned_at bits a = word a % 2 ^ bits

abbrev pub signed_at : ℕ → ℤ → ℤ
signed_at bits a =
    let low = unsigned_at bits a in
    if ltb low (2 ^ (bits - 1)) then pos low else negsuc (2 ^ bits - 1 - low)

-- The reading of the low bits.
abbrev pub at_width : ℕ → ℤ → ℤ
at_width bits a = if bits == 1 then pos (unsigned_at 1 a) else signed_at bits a

abbrev pub is_unsigned : CmpPredicate → Bool
is_unsigned ult = true
is_unsigned ule = true
is_unsigned ugt = true
is_unsigned uge = true
is_unsigned p = false

abbrev pub compared_at : ℕ → CmpPredicate → ℤ → ℤ
compared_at bits p a = if is_unsigned p then pos (unsigned_at bits a) else signed_at bits a

unfoldable pub meaning : Env → IndexValue → ℤ
unfolding width_of
meaning given (constant bits n) = at_width bits n
meaning given (other i) = given.value i
meaning given (index_cast bits x) =
    at_width bits (signed_at (width_of given.width given.result_width x) (meaning given x))
meaning given (index_cast_ui bits x) =
    at_width bits (pos (unsigned_at (width_of given.width given.result_width x) (meaning given x)))
meaning given (ext_si bits x) =
    at_width bits (signed_at (width_of given.width given.result_width x) (meaning given x))
meaning given (ext_ui bits x) =
    at_width bits (pos (unsigned_at (width_of given.width given.result_width x) (meaning given x)))
meaning given (trunc_i bits x) = at_width bits (meaning given x)
meaning given (add_i l r) =
    let w = width_of given.width given.result_width l in
    let a = meaning given l in let b = meaning given r in at_width w (a +ℤ b)
meaning given (sub_i l r) =
    let w = width_of given.width given.result_width l in
    let a = meaning given l in let b = meaning given r in at_width w (a -ℤ b)
meaning given (mul_i l r) =
    let w = width_of given.width given.result_width l in
    let a = meaning given l in let b = meaning given r in at_width w (a *ℤ b)
meaning given (div_ui l r) =
    let w = width_of given.width given.result_width l in
    let a = meaning given l in
    let b = meaning given r in at_width w (pos (unsigned_at w a / unsigned_at w b))
meaning given (div_si l r) =
    let w = width_of given.width given.result_width l in
    let a = meaning given l in
    let b = meaning given r in at_width w (quot (signed_at w a) (signed_at w b))
meaning given (ceil_div_ui l r) =
    let w = width_of given.width given.result_width l in
    let a = meaning given l in
    let b = meaning given r in at_width w (pos (ceil_ui (unsigned_at w a) (unsigned_at w b)))
meaning given (ceil_div_si l r) =
    let w = width_of given.width given.result_width l in
    let a = meaning given l in
    let b = meaning given r in at_width w (ceil_quot (signed_at w a) (signed_at w b))
meaning given (rem_ui l r) =
    let w = width_of given.width given.result_width l in
    let a = meaning given l in
    let b = meaning given r in at_width w (pos (unsigned_at w a % unsigned_at w b))
meaning given (rem_si l r) =
    let w = width_of given.width given.result_width l in
    let a = meaning given l in
    let b = meaning given r in at_width w (rest (signed_at w a) (signed_at w b))
meaning given (max_ui l r) =
    let w = width_of given.width given.result_width l in
    let a = meaning given l in
    let b = meaning given r in at_width w (pos (max (unsigned_at w a) (unsigned_at w b)))
meaning given (min_ui l r) =
    let w = width_of given.width given.result_width l in
    let a = meaning given l in
    let b = meaning given r in at_width w (pos (min (unsigned_at w a) (unsigned_at w b)))
meaning given (max_si l r) =
    let w = width_of given.width given.result_width l in
    let a = meaning given l in
    let b = meaning given r in at_width w (max_ℤ (signed_at w a) (signed_at w b))
meaning given (min_si l r) =
    let w = width_of given.width given.result_width l in
    let a = meaning given l in
    let b = meaning given r in at_width w (min_ℤ (signed_at w a) (signed_at w b))
meaning given (cmp_i p l r) =
    let w = width_of given.width given.result_width l in
    bit (eval_cmp p (compared_at w p (meaning given l)) (compared_at w p (meaning given r)))
meaning given (select c t f) =
    if eqb_ℤ (meaning given c) (pos 0) then meaning given f else meaning given t
meaning given (unlisted_0 name attribute) = given.result name attribute []
meaning given (unlisted_1 name attribute x) = given.result name attribute (meaning given x ∷ [])
meaning given (unlisted_2 name attribute l r) =
    given.result name attribute (meaning given l ∷ meaning given r ∷ [])

-- What an operation gives on integers without bound, its unsigned numbers words of 64 bits, from what
-- its operands mean; a cast gives its operand, and a constant the number that is read of it.
unfoldable pub unbounded : Env → IndexValue → ℤ
unfolding meaning
unbounded given (constant bits n) = n
unbounded given (index_cast bits x) = meaning given x
unbounded given (index_cast_ui bits x) = meaning given x
unbounded given (ext_si bits x) = meaning given x
unbounded given (ext_ui bits x) = meaning given x
unbounded given (trunc_i bits x) = meaning given x
unbounded given (add_i l r) = meaning given l +ℤ meaning given r
unbounded given (sub_i l r) = meaning given l -ℤ meaning given r
unbounded given (mul_i l r) = meaning given l *ℤ meaning given r
unbounded given (div_ui l r) = signed (word (meaning given l) / word (meaning given r))
unbounded given (div_si l r) = quot (meaning given l) (meaning given r)
unbounded given (ceil_div_ui l r) =
    signed (ceil_ui (word (meaning given l)) (word (meaning given r)))
unbounded given (ceil_div_si l r) = ceil_quot (meaning given l) (meaning given r)
unbounded given (rem_ui l r) = signed (word (meaning given l) % word (meaning given r))
unbounded given (rem_si l r) = rest (meaning given l) (meaning given r)
unbounded given (max_ui l r) = signed (max (word (meaning given l)) (word (meaning given r)))
unbounded given (min_ui l r) = signed (min (word (meaning given l)) (word (meaning given r)))
unbounded given (max_si l r) = max_ℤ (meaning given l) (meaning given r)
unbounded given (min_si l r) = min_ℤ (meaning given l) (meaning given r)
unbounded given (cmp_i p l r) = bit (eval_cmp p (meaning given l) (meaning given r))
unbounded given v = meaning given v

-- At the operation of the value, its widths do not change the result.
abbrev pub Fits : Env → IndexValue → Type 0
Fits given v = meaning given v ≡ unbounded given v

-- And so at each operation in the value.
unfoldable pub KeepsWidth : Env → IndexValue → Type 0
KeepsWidth given (constant bits n) = Fits given (constant bits n)
KeepsWidth given (other i) = Unit {0}
KeepsWidth given (unlisted_0 name attribute) = Unit {0}
KeepsWidth given (unlisted_1 name attribute x) = KeepsWidth given x
KeepsWidth given (unlisted_2 name attribute l r) = KeepsWidth given l × KeepsWidth given r
KeepsWidth given (index_cast bits x) = Fits given (index_cast bits x) × KeepsWidth given x
KeepsWidth given (index_cast_ui bits x) = Fits given (index_cast_ui bits x) × KeepsWidth given x
KeepsWidth given (ext_si bits x) = Fits given (ext_si bits x) × KeepsWidth given x
KeepsWidth given (ext_ui bits x) = Fits given (ext_ui bits x) × KeepsWidth given x
KeepsWidth given (trunc_i bits x) = Fits given (trunc_i bits x) × KeepsWidth given x
KeepsWidth given (add_i l r) = Fits given (add_i l r) × (KeepsWidth given l × KeepsWidth given r)
KeepsWidth given (sub_i l r) = Fits given (sub_i l r) × (KeepsWidth given l × KeepsWidth given r)
KeepsWidth given (mul_i l r) = Fits given (mul_i l r) × (KeepsWidth given l × KeepsWidth given r)
KeepsWidth given (div_ui l r) = Fits given (div_ui l r) × (KeepsWidth given l × KeepsWidth given r)
KeepsWidth given (div_si l r) = Fits given (div_si l r) × (KeepsWidth given l × KeepsWidth given r)
KeepsWidth given (ceil_div_ui l r) =
    Fits given (ceil_div_ui l r) × (KeepsWidth given l × KeepsWidth given r)
KeepsWidth given (ceil_div_si l r) =
    Fits given (ceil_div_si l r) × (KeepsWidth given l × KeepsWidth given r)
KeepsWidth given (rem_ui l r) = Fits given (rem_ui l r) × (KeepsWidth given l × KeepsWidth given r)
KeepsWidth given (rem_si l r) = Fits given (rem_si l r) × (KeepsWidth given l × KeepsWidth given r)
KeepsWidth given (max_ui l r) = Fits given (max_ui l r) × (KeepsWidth given l × KeepsWidth given r)
KeepsWidth given (min_ui l r) = Fits given (min_ui l r) × (KeepsWidth given l × KeepsWidth given r)
KeepsWidth given (max_si l r) = Fits given (max_si l r) × (KeepsWidth given l × KeepsWidth given r)
KeepsWidth given (min_si l r) = Fits given (min_si l r) × (KeepsWidth given l × KeepsWidth given r)
KeepsWidth given (cmp_i p l r) =
    Fits given (cmp_i p l r) × (KeepsWidth given l × KeepsWidth given r)
KeepsWidth given (select c t f) = KeepsWidth given c × (KeepsWidth given t × KeepsWidth given f)
