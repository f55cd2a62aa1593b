-- ===== src/DbLayout/Run.antt =====
-- The emitted index arithmetic on words of 64 bits.
use carts.Base.{ℕ, ◌+◌, ◌-◌, ◌*◌, ◌/◌, ◌%◌, ◌≤◌, ◌<◌, max, ◌≡◌, refl, arith}
use carts.Base.Int.{pos}
use carts.Loop.{Value, constant, unknown}
use carts.Schedule.Chunk.Run.{modulus, word}
use carts.DbLayout.{IndexExpr, value, index, add_i, sub_i, max_ui, div_ui, ceil_div_positive_index}

-- `given` has the values that are not constants.
abbrev pub word_of : (ℕ → ℕ) → Value → ℕ
word_of given (constant n) = word n
word_of given (unknown i) = given i % modulus

abbrev pub eval : (ℕ → ℕ) → IndexExpr → ℕ
eval given (value v) = word_of given v
eval given (index n) = word n
eval given (add_i a b) = (eval given a + eval given b) % modulus
eval given (sub_i a b) = (eval given a + (modulus - eval given b)) % modulus
eval given (max_ui a b) = max (eval given a) (eval given b)
eval given (div_ui a b) = eval given a / eval given b

-- Where the sum of the dividend and the divisor is a word, the arithmetic rounds a quotient up.
pub ceil_div_lem :
    (given : ℕ → ℕ) (v : Value) (b : ℕ)
    → 0 < b
    → word_of given v + b < modulus
    → eval given (ceil_div_positive_index (value v) (index (pos b)))
      ≡ (word_of given v + (b - 1)) / b
ceil_div_lem given v b h fits =
    let d : max (b % modulus) 1 ≡ b = omega arith in
    let n : (word_of given v + (b + 18446744073709551615) % modulus) % modulus
        ≡ word_of given v + (b - 1) =
      omega arith in
    rw (d, n) refl

pub quotient_covers : (n b : ℕ) → 0 < b → n ≤ (n + (b - 1)) / b * b
quotient_covers n b h = grind arith

pub quotient_least : (n b m : ℕ) → 0 < b → n ≤ m * b → (n + (b - 1)) / b ≤ m
quotient_least n b m h k = grind arith
