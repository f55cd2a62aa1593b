-- ===== src/Fold/Parts.antt =====
-- The parts of the constant folder: what each operation computes is what it means.
use native.Mathlib.Nat.{add-mul-div_right, div-eq_of_lt, div-add-mod', div-zero, mod-zero}
use carts.Base.{
  ℕ, ◌*◌, zero, suc, ◌+◌, ◌-◌, ◌/◌, ◌%◌, ◌<◌, Bool, true, false, ◌||◌, ◌==◌, if◌then◌else◌, Option,
  none, some, ◌≡◌, ◌⊎◌, refl, sym, ap, ap₂, ◌∙◌, arith, inl, inr, Bool-cases, is_some,
}
use carts.Base.Int.{ℤ, pos, negsuc, eqb_ℤ, eq_of_parts}
use carts.Schedule.Chunk.Run.{word, ceil_ui}
use carts.Schedule.Chunk.Symbolic.{ceil_ui_lem}
use carts.Fold.{
  CmpPredicate, IndexValue, index_cast, ext_si, ext_ui, trunc_i, signed, quot, bit, eval_cmp,
  reflexive, with_right_zero, with_left_zero, is_zero, or_else, strip_numeric_casts, both,
  divide_ui, divide_si, ceil_divides, ceil_divide_ui, ceil_divide_si, equal_results,
}
use carts.Fold.Meaning.{Env, KeepsWidth, unbounded, meaning, ceil_quot}

pub strip_numeric_casts-meaning :
    (given : Env) (v : IndexValue)
    → KeepsWidth given v
    → meaning given (strip_numeric_casts v) ≡ meaning given v
unfolding strip_numeric_casts KeepsWidth unbounded
strip_numeric_casts-meaning given (index_cast bits x) (fit, k) =
    strip_numeric_casts-meaning given x k ∙ sym fit
strip_numeric_casts-meaning given (ext_si bits x) (fit, k) =
    strip_numeric_casts-meaning given x k ∙ sym fit
strip_numeric_casts-meaning given (ext_ui bits x) (fit, k) =
    strip_numeric_casts-meaning given x k ∙ sym fit
strip_numeric_casts-meaning given (trunc_i bits x) (fit, k) =
    strip_numeric_casts-meaning given x k ∙ sym fit
strip_numeric_casts-meaning given v k = refl

pub strip_numeric_casts-KeepsWidth :
    (given : Env) (v : IndexValue) → KeepsWidth given v → KeepsWidth given (strip_numeric_casts v)
unfolding strip_numeric_casts KeepsWidth
strip_numeric_casts-KeepsWidth given (index_cast bits x) (fit, k) =
    strip_numeric_casts-KeepsWidth given x k
strip_numeric_casts-KeepsWidth given (ext_si bits x) (fit, k) =
    strip_numeric_casts-KeepsWidth given x k
strip_numeric_casts-KeepsWidth given (ext_ui bits x) (fit, k) =
    strip_numeric_casts-KeepsWidth given x k
strip_numeric_casts-KeepsWidth given (trunc_i bits x) (fit, k) =
    strip_numeric_casts-KeepsWidth given x k
strip_numeric_casts-KeepsWidth given v k = k

pub eval_cmp_self : (p : CmpPredicate) (a : ℤ) → eval_cmp p a a ≡ reflexive p
unfolding eval_cmp
eval_cmp_self p a = ground arith

pub right_zero :
    (p : CmpPredicate) (a n : ℤ) → with_right_zero p ≡ some n → bit (eval_cmp p a (pos 0)) ≡ n
unfolding eval_cmp
right_zero p a n h = ground arith

pub left_zero :
    (p : CmpPredicate) (a n : ℤ) → with_left_zero p ≡ some n → bit (eval_cmp p (pos 0) a) ≡ n
unfolding eval_cmp
left_zero p a n h = ground arith

-- A quotient and whether there is a rest make the quotient rounded up.
shifted : (x q b : ℕ) → 0 < b → x < b → (x + q * b) / b ≡ q
shifted x q b h lt = add-mul-div_right x q h ∙ omega (arith, div-eq_of_lt lt)

ceil_ui_rest : (a b : ℕ) → 0 < b → a / b + (if a % b == 0 then 0 else 1) ≡ ceil_ui a b
ceil_ui_rest a b h =
    let parts = div-add-mod' a b in
    let small : a % b < b = grind arith in
    elim (Bool-cases (a % b == 0)) [
      | inl e ↦
          let sum : a + b - 1 ≡ b - 1 + a / b * b = ground arith in
          let whole : ceil_ui a b ≡ a / b =
            ceil_ui_lem a b h ∙ ap (λ x. x / b) sum ∙ shifted (b - 1) (a / b) b h (omega arith) in
          let same : a / b + 0 ≡ a / b = omega arith in rw e (same ∙ sym whole)
      | inr e ↦
          let sum : a + b - 1 ≡ a % b - 1 + (a / b + 1) * b = ground arith in
          rw e (
            sym (
              ceil_ui_lem a b h
              ∙ ap (λ x. x / b) sum
              ∙ shifted (a % b - 1) (a / b + 1) b h (omega arith)))
    ]

pub ceil_divide_si_lem : (a b n : ℤ) → ceil_divide_si a b ≡ some n → ceil_quot a b ≡ n
ceil_divide_si_lem (pos a) (pos b) n h = ground (arith, ceil_ui_lem a b)
ceil_divide_si_lem (pos a) (negsuc b) n h = absurd (ground arith)
ceil_divide_si_lem (negsuc a) b n h = absurd (ground arith)

-- Also where the divisor is 0, since the operations of words are total.
ceil_ui_rest_any : (a b : ℕ) → a / b + (if a % b == 0 then 0 else 1) ≡ ceil_ui a b
ceil_ui_rest_any a zero = ground (arith, div-zero a, div-zero (a - 1), mod-zero a)
ceil_ui_rest_any a (suc b) = ceil_ui_rest a (suc b) (omega arith)

pub ceil_divide_ui_lem :
    (a b n : ℤ) → ceil_divide_ui a b ≡ some n → signed (ceil_ui (word a) (word b)) ≡ n
ceil_divide_ui_lem a b n h = elim (Bool-cases (ceil_divides a b)) [
  | inl e ↦ ap signed (sym (ceil_ui_rest_any (word a) (word b))) ∙ ground arith
  | inr e ↦ absurd (ground arith)
]

pub unsome : (a b : ℤ) → ◌≡◌ {A = Option ℤ} (some a) (some b) → a ≡ b
unsome a b h = cc

guarded : (t : Bool) (x n : ℤ) → ◌≡◌ {A = Option ℤ} (if t then none else some x) (some n) → x ≡ n
guarded true x n h = absurd (ground arith)
guarded false x n h = unsome x n h

pub divide_ui_lem : (a b n : ℤ) → divide_ui a b ≡ some n → signed (word a / word b) ≡ n
divide_ui_lem a b n h = guarded (eqb_ℤ b (pos 0)) (signed (word a / word b)) n h

pub divide_si_lem : (a b n : ℤ) → divide_si a b ≡ some n → quot a b ≡ n
divide_si_lem a b n h = guarded (eqb_ℤ b (pos 0)) (quot a b) n h

pub or_else_cases : (x y : Option ℤ) (n : ℤ) → or_else x y ≡ some n → (x ≡ some n) ⊎ (y ≡ some n)
or_else_cases none y n h = inr h
or_else_cases (some m) y n h = inl h

zero_of_test : (n : ℤ) → eqb_ℤ n (pos 0) ≡ true → n ≡ pos 0
zero_of_test n h = eq_of_parts n (pos 0) (ground arith)

-- A table for a value that folds to 0.
pub zero_case :
    (o t : Option ℤ) (n : ℤ)
    → (if is_zero o then t else none) ≡ some n
    → (o ≡ some (pos 0)) × (t ≡ some n)
zero_case none t n h = absurd (ground arith)
zero_case (some m) t n h = elim (Bool-cases (eqb_ℤ m (pos 0))) [
  | inl e ↦ (ap some (zero_of_test m e), sym (ap (λ b. if b then t else none) e) ∙ h)
  | inr e ↦ absurd (refuse (sym (ap (λ b. if b then t else none) e) ∙ h))
]
  where
    refuse : ◌≡◌ {A = Option ℤ} none (some n) → ⊥
    refuse q = ground arith

-- A folder finds only what values mean, where their widths do not change a result.
abbrev pub IsSound : Env → (IndexValue → Option ℤ) → Type 0
IsSound given fold =
    (v : IndexValue) (n : ℤ) → KeepsWidth given v → fold v ≡ some n → meaning given v ≡ n

both_cases :
    (f : ℤ → ℤ → Option ℤ) (l r : Option ℤ) (n : ℤ)
    → both f l r ≡ some n
    → (a : ℤ) × (b : ℤ) × (l ≡ some a) × (r ≡ some b) × (f a b ≡ some n)
both_cases f none r n h = absurd (ground arith)
both_cases f (some a) none n h = absurd (ground arith)
both_cases f (some a) (some b) n h = (a, b, refl, refl, h)

-- An operation of two values, by what the folder computes of their results.
pub binary :
    (given : Env) (fold : IndexValue → Option ℤ) (f : ℤ → ℤ → Option ℤ) (g : ℤ → ℤ → ℤ)
    (l r : IndexValue) (n : ℤ)
    → IsSound given fold
    → KeepsWidth given l × KeepsWidth given r
    → ((a b : ℤ) → fold r ≡ some b → f a b ≡ some n → g a b ≡ n)
    → both f (fold l) (fold r) ≡ some n
    → g (meaning given l) (meaning given r) ≡ n
binary given fold f g l r n sound (kl, kr) agree h =
    let (a, b, el, er, e) = both_cases f (fold l) (fold r) n h in
    ap₂ g (sound l a kl el) (sound r b kr er) ∙ agree a b er e

pub equal_cases :
    (l r : Option ℤ) (n : ℤ) → equal_results l r ≡ some n → (l ≡ some n) × (r ≡ some n)
equal_cases none r n h = absurd (ground arith)
equal_cases (some a) none n h = absurd (ground arith)
equal_cases (some a) (some b) n h = elim (Bool-cases (eqb_ℤ a b)) [
  | inl e ↦
      let same : a ≡ b = eq_of_parts a b (ground arith) in
      let left = unsome a n (sym (ap (λ t. if t then some a else none) e) ∙ h) in
      (ap some left, ap some (sym same ∙ left))
  | inr e ↦ absurd (refuse (sym (ap (λ t. if t then some a else none) e) ∙ h))
]
  where
    refuse : ◌≡◌ {A = Option ℤ} none (some n) → ⊥
    refuse q = ground arith

pub either_true : (a b : Bool) → (a || b) ≡ true → (a ≡ true) ⊎ (b ≡ true)
either_true true b h = inl refl
either_true false b h = inr h

pub is_some_cases : (o : Option ℤ) → is_some o ≡ true → (n : ℤ) × (o ≡ some n)
is_some_cases none q = absurd (ground arith)
is_some_cases (some n) q = (n, refl)
