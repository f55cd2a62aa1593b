-- ===== src/Fold/Samples.antt =====
-- Tests of equal values, and values, for examples.
use carts.Base.{◌==◌, Bool, true, false, ◌≡◌, arith}
use carts.Base.Int.{pos}
use carts.Fold.{IndexValue, other}
use carts.Fold.Meaning.{Env, meaning}

-- Two values of one name are one.
abbrev pub one_name : IndexValue → IndexValue → Bool
one_name (other i) (other j) = i == j
one_name a b = false

abbrev pub no_bounds : IndexValue → IndexValue → Bool
no_bounds a b = false

-- All block arguments are indices of 64 bits that are 7.
abbrev pub given_seven : Env
given_seven = record {
  value = λ i. pos 7;
  width = λ i. 64;
  result = λ name attribute values. pos 0;
  result_width = λ name attribute. 64;
}

pub one_name-meaning :
    (a b : IndexValue) → one_name a b ≡ true → meaning given_seven a ≡ meaning given_seven b
unfolding meaning
one_name-meaning a b h = ground arith
