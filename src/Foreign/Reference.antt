-- ===== src/Foreign/Reference.antt =====
-- Concrete instances of the foreign interfaces, for runs and examples.
use mathlib.Core.List.{Perm}
use mathlib.Core.List.Perm
use carts.Base.{
  ℕ, zero, suc, not, ◌+◌, ◌-◌, ◌*◌, ◌/◌, ◌≤◌, ◌<◌, List, [], ◌∷◌, arith, leb, if◌then◌else◌,
  Bool-cases, inl, inr,
}
use carts.Base.Int.{ℤ, pos, pos_part, ◌+ℤ◌, ◌-ℤ◌, ◌*ℤ◌, ltb_ℤ, abs}
use carts.Foreign.{Llvm, Float}

abbrev insert_descending : ℕ → List ℕ → List ℕ
insert_descending x [] = x ∷ []
insert_descending x (y ∷ ys) = if leb y x then x ∷ y ∷ ys else y ∷ insert_descending x ys

abbrev insertion_sort : List ℕ → List ℕ
insertion_sort [] = []
insertion_sort (x ∷ xs) = insert_descending x (insertion_sort xs)

insert_descending-perm : (x : ℕ) (ys : List ℕ) → Perm (insert_descending x ys) (x ∷ ys)
insert_descending-perm x [] = Perm.refl (x ∷ [])
insert_descending-perm x (y ∷ ys) = elim (Bool-cases (leb y x)) [
  | inl e ↦ rw e (Perm.refl (x ∷ y ∷ ys))
  | inr e ↦ rw e (Perm.trans (Perm.cons y (insert_descending-perm x ys)) (Perm.swap x y ys))
]

pub insertion_sort-perm : (xs : List ℕ) → Perm (insertion_sort xs) xs
insertion_sort-perm [] = Perm.refl []
insertion_sort-perm (x ∷ xs) =
    Perm.trans (insert_descending-perm x (insertion_sort xs)) (Perm.cons x (insertion_sort-perm xs))

abbrev ceil_quotient : ℕ → ℕ → ℕ
ceil_quotient a b = (a + b - 1) / b

pub ceil_quotient_covers : (a b : ℕ) → 0 < b → a ≤ ceil_quotient a b * b
ceil_quotient_covers a b h = grind arith

pub ceil_quotient_tight : (a b : ℕ) → 0 < b → ceil_quotient a b * b < a + b
ceil_quotient_tight a b h = grind arith

abbrev pub llvm : Llvm
llvm = record {
  divide_ceil = ceil_quotient;
  divide_ceil_covers = ceil_quotient_covers;
  divide_ceil_tight = ceil_quotient_tight;
  sort_descending = insertion_sort;
  sort_descending-perm = insertion_sort-perm;
}

-- floor(log2(n)), with fuel for its bits.
abbrev log2_nat : ℕ → ℕ → ℕ
log2_nat zero n = 0
log2_nat (suc fuel) n = let rest = log2_nat fuel (n / 2) in if leb n 1 then 0 else suc rest

-- Arithmetic on whole numbers, rounded down.
abbrev pub whole_numbers : Float
whole_numbers = record {
  Real = ℤ;
  of_int = λ n. n;
  infinity = pos 9223372036854775807;
  add = λ a b. a +ℤ b;
  sub = λ a b. a -ℤ b;
  mul = λ a b. a *ℤ b;
  div = λ a b. pos (pos_part a / pos_part b);
  abs = abs;
  log2 = λ a. pos (log2_nat 64 (pos_part a));
  ceil = λ a. a;
  lt = ltb_ℤ;
  le = λ a b. not (ltb_ℤ b a);
  to_int = λ a. a;
}
