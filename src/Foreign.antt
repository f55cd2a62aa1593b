-- ===== src/Foreign.antt =====
-- What the compiler takes from code outside the repository: integer division and sorting from
-- LLVM's support library, and the machine's floating-point arithmetic. Each is a record of
-- operations with the documented facts that the proofs use.
pub mod Reference
use mathlib.Core.List.{Perm}
use carts.Base.{ℕ, ◌+◌, ◌*◌, ◌≤◌, ◌<◌, List, Bool}
use carts.Base.Int.{ℤ}

-- llvm::divideCeil rounds a quotient up; llvm::sort rearranges a range.
pub record Llvm : Type 0 where
  pub divide_ceil : ℕ → ℕ → ℕ
  pub divide_ceil_covers : (a b : ℕ) → 0 < b → a ≤ divide_ceil a b * b
  pub divide_ceil_tight : (a b : ℕ) → 0 < b → divide_ceil a b * b < a + b
  pub sort_descending : List ℕ → List ℕ
  pub sort_descending-perm : (xs : List ℕ) → Perm (sort_descending xs) xs

-- A floating-point type (double or long double) with the operations that the planners call.
pub record Float : Type 1 where
  pub Real : Type 0
  pub of_int : ℤ → Real
  pub infinity : Real
  pub add : Real → Real → Real
  pub sub : Real → Real → Real
  pub mul : Real → Real → Real
  pub div : Real → Real → Real
  pub abs : Real → Real
  pub log2 : Real → Real
  pub ceil : Real → Real
  pub lt : Real → Real → Bool
  pub le : Real → Real → Bool
  -- static_cast<int64_t>
  pub to_int : Real → ℤ
