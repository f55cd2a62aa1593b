-- ===== src/Schedule/Chunk/Run.antt =====
-- How the arithmetic of a symbolic chunk runs: an index is a word of 64 bits, and the operations
-- are those of the arith dialect.
use carts.Base.{ℕ, ◌+◌, ◌-◌, ◌/◌, ◌%◌, max, min, Bool, ltb, ◌==◌, if◌then◌else◌}
use carts.Base.Int.{ℤ, pos, negsuc}
use carts.Loop.{Value, constant, unknown}
use carts.Schedule.Chunk.{
  Expr, value, index, logical_workers, sub_i, max_ui, min_ui, ceil_div_ui, ceil_div_si, select_sle,
  select_slt,
}

abbrev pub modulus : ℕ
modulus = 18446744073709551616

abbrev pub half : ℕ
half = 9223372036854775808

-- The word of an integer, and the opposite of a word.
abbrev pub word : ℤ → ℕ
word (pos n) = n % modulus
word (negsuc n) = modulus - 1 - n % modulus

abbrev opposite : ℕ → ℕ
opposite w = (modulus - w) % modulus

abbrev pub slt : ℕ → ℕ → Bool
slt a b = ltb ((a + half) % modulus) ((b + half) % modulus)

abbrev pub ceil_ui : ℕ → ℕ → ℕ
ceil_ui a b = if a == 0 then 0 else (a - 1) / b + 1

abbrev pub ceil_si : ℕ → ℕ → ℕ
ceil_si a b =
    if ltb a half
    then if ltb b half then ceil_ui a b else opposite (a / opposite b)
    else if ltb b half
    then opposite (opposite a / b)
    else ceil_ui (opposite a) (opposite b)

-- The word of a value where the program is run: `env` gives the values that are not constants.
abbrev pub word_of : (ℕ → ℕ) → Value → ℕ
word_of env (constant n) = word n
word_of env (unknown i) = env i

unfoldable pub eval : (ℕ → ℕ) → ℕ → Expr → ℕ
eval env workers (value v) = word_of env v
eval env workers (index n) = n % modulus
eval env workers logical_workers = workers
eval env workers (sub_i a b) = (eval env workers a + (modulus - eval env workers b)) % modulus
eval env workers (max_ui a b) = max (eval env workers a) (eval env workers b)
eval env workers (min_ui a b) = min (eval env workers a) (eval env workers b)
eval env workers (ceil_div_ui a b) = ceil_ui (eval env workers a) (eval env workers b)
eval env workers (ceil_div_si a b) = ceil_si (eval env workers a) (eval env workers b)
eval env workers (select_sle a b c d) =
    if slt (eval env workers b) (eval env workers a) then eval env workers d else eval env workers c
eval env workers (select_slt a b c d) =
    if slt (eval env workers a) (eval env workers b) then eval env workers c else eval env workers d
