-- ===== src/Fold/Sound.antt =====
-- What the constant folder finds is what the value means.
use carts.Base.{
  ℕ, zero, suc, ◌/◌, max, min, Bool, true, false, ◌||◌, if◌then◌else◌, Option, none, some, ◌≡◌, sym,
  ap, ◌∙◌, arith, inl, inr, Bool-cases, Option-cases, is_some,
}
use carts.Base.Int.{ℤ, pos, ◌+ℤ◌, ◌-ℤ◌, ◌*ℤ◌, eqb_ℤ}
use carts.Schedule.Chunk.Run.{word, ceil_ui}
use carts.Fold.{
  CmpPredicate, IndexValue, constant, other, index_cast, index_cast_ui, ext_si, ext_ui, trunc_i,
  add_i, sub_i, mul_i, div_ui, div_si, ceil_div_ui, ceil_div_si, rem_ui, rem_si, max_si, min_si,
  max_ui, min_ui, cmp_i, select, unlisted_0, unlisted_1, unlisted_2, signed, quot, bit, eval_cmp,
  reflexive, with_right_zero, with_left_zero, is_zero, or_else, strip_numeric_casts, both,
  divide_ui, divide_si, ceil_divide_ui, ceil_divide_si, equal_results, by_condition,
  try_fold_cmp_result, fold_operation, fold_value, fold_levels, try_fold_constant_index, same_value,
}
use carts.Fold.Meaning.{Env, KeepsWidth, unbounded, meaning, ceil_quot}
use carts.Fold.Parts.{
  strip_numeric_casts-meaning, strip_numeric_casts-KeepsWidth, eval_cmp_self, right_zero, left_zero,
  unsome, divide_ui_lem, divide_si_lem, ceil_divide_ui_lem, ceil_divide_si_lem, or_else_cases,
  zero_case, IsSound, binary, equal_cases, either_true, is_some_cases,
}

module _ (given : Env) (same : IndexValue → IndexValue → Bool) (extra : IndexValue → Option ℤ)
    (same_sound : (a b : IndexValue)
      → KeepsWidth given a
      → KeepsWidth given b
      → same a b ≡ true
      → meaning given a ≡ meaning given b)
    (extra_sound : IsSound given extra) where
  -- The comparison of two values, folded or not.
  try_fold_cmp_result_sound :
      (fold : IndexValue → Option ℤ) (p : CmpPredicate) (l r : IndexValue) (n : ℤ)
      → IsSound given fold
      → KeepsWidth given l
      → KeepsWidth given r
      → try_fold_cmp_result same extra fold p l r ≡ some n
      → bit (eval_cmp p (meaning given l) (meaning given r)) ≡ n
  unfolding try_fold_cmp_result
  try_fold_cmp_result_sound fold p l r n sound kl kr h =
      let kl' = strip_numeric_casts-KeepsWidth given l kl in
      let kr' = strip_numeric_casts-KeepsWidth given r kr in
      let lv = strip_numeric_casts l in
      let rv = strip_numeric_casts r in
      let left = strip_numeric_casts-meaning given l kl in
      let right = strip_numeric_casts-meaning given r kr in
      let by_right = if is_zero (fold rv) then with_right_zero p else none in
      let by_left = if is_zero (fold lv) then with_left_zero p else none in
      let rest = or_else by_right by_left in
      let compare = λ (a b : ℤ). bit (eval_cmp p a b) in
      elim (or_else_cases (both (λ a b. some (compare a b)) (fold l) (fold r)) _ n h) [
        | inl x ↦
            binary given fold (λ a b. some (compare a b)) compare l r n sound (kl, kr)
              (λ a b f q. unsome _ n q) x
        | inr x ↦ elim (Bool-cases (same lv rv)) [
          | inl e ↦
              let equal = sym left ∙ same_sound lv rv kl' kr' e ∙ right in
              ap (λ m. compare m (meaning given r)) equal
              ∙ ap bit (eval_cmp_self p (meaning given r))
              ∙ unsome _ n (sym (ap (λ b. if b then some (bit (reflexive p)) else rest) e) ∙ x)
          | inr e ↦
              elim (or_else_cases by_right by_left n
                (sym (ap (λ b. if b then some (bit (reflexive p)) else rest) e) ∙ x)) [
                  | inl y ↦
                      let (zero_r, table) = zero_case (fold rv) (with_right_zero p) n y in
                      ap (compare (meaning given l)) (sym right ∙ sound rv (pos 0) kr' zero_r)
                      ∙ right_zero p (meaning given l) n table
                  | inr y ↦
                      let (zero_l, table) = zero_case (fold lv) (with_left_zero p) n y in
                      ap (λ m. compare m (meaning given r)) (sym left ∙ sound lv (pos 0) kl' zero_l)
                      ∙ left_zero p (meaning given r) n table
                ]
        ]
      ]

  fold_operation_sound :
      (deeper deepest : IndexValue → Option ℤ) (v : IndexValue) (n : ℤ)
      → IsSound given deeper
      → IsSound given deepest
      → KeepsWidth given v
      → fold_operation same extra deeper deepest v ≡ some n
      → meaning given v ≡ n
  unfolding fold_operation meaning KeepsWidth unbounded
  fold_operation_sound deeper deepest (index_cast bits x) n d e (fit, k) h = fit ∙ d x n k h
  fold_operation_sound deeper deepest (index_cast_ui bits x) n d e (fit, k) h = fit ∙ d x n k h
  fold_operation_sound deeper deepest (ext_si bits x) n d e (fit, k) h = fit ∙ d x n k h
  fold_operation_sound deeper deepest (ext_ui bits x) n d e (fit, k) h = fit ∙ d x n k h
  fold_operation_sound deeper deepest (trunc_i bits x) n d e (fit, k) h = fit ∙ d x n k h
  fold_operation_sound deeper deepest (add_i l r) n d e (fit, k) h =
      fit
      ∙ binary given deeper (λ a b. some (a +ℤ b)) (λ a b. a +ℤ b) l r n d k
          (λ a b f q. unsome _ n q) h
  fold_operation_sound deeper deepest (sub_i l r) n d e (fit, k) h =
      fit
      ∙ binary given deeper (λ a b. some (a -ℤ b)) (λ a b. a -ℤ b) l r n d k
          (λ a b f q. unsome _ n q) h
  fold_operation_sound deeper deepest (mul_i l r) n d e (fit, k) h =
      fit
      ∙ binary given deeper (λ a b. some (a *ℤ b)) (λ a b. a *ℤ b) l r n d k
          (λ a b f q. unsome _ n q) h
  fold_operation_sound deeper deepest (div_ui l r) n d e (fit, k) h =
      fit
      ∙ binary given deeper divide_ui (λ a b. signed (word a / word b)) l r n d k
          (λ a b f q. divide_ui_lem a b n q) h
  fold_operation_sound deeper deepest (div_si l r) n d e (fit, k) h =
      fit ∙ binary given deeper divide_si quot l r n d k (λ a b f q. divide_si_lem a b n q) h
  fold_operation_sound deeper deepest (ceil_div_ui l r) n d e (fit, k) h =
      fit
      ∙ binary given deeper ceil_divide_ui (λ a b. signed (ceil_ui (word a) (word b))) l r n d k
          (λ a b f q. ceil_divide_ui_lem a b n q) h
  fold_operation_sound deeper deepest (ceil_div_si l r) n d e (fit, k) h =
      fit
      ∙ binary given deeper ceil_divide_si ceil_quot l r n d k
          (λ a b f q. ceil_divide_si_lem a b n q) h
  fold_operation_sound deeper deepest (max_ui l r) n d e (fit, k) h =
      fit
      ∙ binary given deeper (λ a b. some (signed (max (word a) (word b))))
          (λ a b. signed (max (word a) (word b))) l r n d k (λ a b f q. unsome _ n q) h
  fold_operation_sound deeper deepest (min_ui l r) n d e (fit, k) h =
      fit
      ∙ binary given deeper (λ a b. some (signed (min (word a) (word b))))
          (λ a b. signed (min (word a) (word b))) l r n d k (λ a b f q. unsome _ n q) h
  fold_operation_sound deeper deepest (cmp_i p l r) n d e (fit, (kl, kr)) h =
      fit ∙ try_fold_cmp_result_sound deepest p l r n e kl kr h
  fold_operation_sound deeper deepest (select c t f) n d e (kc, (kt, kf)) h =
      elim (Option-cases (deeper c)) [
        | inl q ↦
            let (ea, eb) =
              equal_cases (deeper t) (deeper f) n
                (sym (ap (λ o. by_condition o (deeper t) (deeper f)) q) ∙ h) in
            either (eqb_ℤ (meaning given c) (pos 0)) _ _ n (d f n kf eb) (d t n kt ea)
        | inr (k, q) ↦ branch (eqb_ℤ (meaning given c) (pos 0)) f t n d kf kt (
            ap (λ z. if eqb_ℤ z (pos 0) then deeper f else deeper t) (d c k kc q)
            ∙ sym (ap (λ o. by_condition o (deeper t) (deeper f)) q)
            ∙ h)
      ]
    where
      either : (b : Bool) (x y m : ℤ) → x ≡ m → y ≡ m → (if b then x else y) ≡ m
      either true x y m p q = p
      either false x y m p q = q

      branch :
          (b : Bool) (x y : IndexValue) (m : ℤ)
          → IsSound given deeper
          → KeepsWidth given x
          → KeepsWidth given y
          → (if b then deeper x else deeper y) ≡ some m
          → (if b then meaning given x else meaning given y) ≡ m
      branch true x y m s kx ky q = s x m kx q
      branch false x y m s kx ky q = s y m ky q
  fold_operation_sound deeper deepest (constant bits m) n d e k h = absurd (ground arith)
  fold_operation_sound deeper deepest (other i) n d e k h = absurd (ground arith)
  fold_operation_sound deeper deepest (rem_ui l r) n d e k h = absurd (ground arith)
  fold_operation_sound deeper deepest (rem_si l r) n d e k h = absurd (ground arith)
  fold_operation_sound deeper deepest (max_si l r) n d e k h = absurd (ground arith)
  fold_operation_sound deeper deepest (min_si l r) n d e k h = absurd (ground arith)
  fold_operation_sound deeper deepest (unlisted_0 name attribute) n d e k h = absurd (ground arith)
  fold_operation_sound deeper deepest (unlisted_1 name attribute x) n d e k h =
      absurd (ground arith)
  fold_operation_sound deeper deepest (unlisted_2 name attribute l r) n d e k h =
      absurd (ground arith)

  -- A step of the folder, where the folder one level deeper and two find only what values mean.
  fold_value-IsSound :
      (deeper deepest : IndexValue → Option ℤ)
      → IsSound given deeper
      → IsSound given deepest
      → IsSound given (λ v. fold_value same extra deeper deepest v)
  unfolding meaning fold_value KeepsWidth unbounded
  fold_value-IsSound deeper deepest d e (constant bits m) n k h = k ∙ unsome m n h
  fold_value-IsSound deeper deepest d e v n k h =
      elim (or_else_cases (extra v) (fold_operation same extra deeper deepest v) n h) [
        | inl q ↦ extra_sound v n k q
        | inr q ↦ fold_operation_sound deeper deepest v n d e k q
      ]

  nothing-IsSound : IsSound given (λ v. none)
  nothing-IsSound v n k h = absurd (ground arith)

  fold_levels-IsSound : (levels : ℕ) → IsSound given (λ v. fold_levels same extra levels v)
  unfolding fold_levels
  fold_levels-IsSound zero v n k h = absurd (ground arith)
  fold_levels-IsSound (suc zero) v n k h =
      fold_value-IsSound (λ x. none) (λ x. none) nothing-IsSound nothing-IsSound v n k h
  fold_levels-IsSound (suc (suc l)) v n k h =
      fold_value-IsSound (λ x. fold_levels same extra (suc l) x) (λ x. fold_levels same extra l x)
        (λ x m j q. fold_levels-IsSound (suc l) x m j q) (λ x m j q. fold_levels-IsSound l x m j q)
        v n k h

-- sameValue, where values that are identical, or equal by their bounds, mean the same.
same_value_sound :
    (given : Env) (identical equal_by_bounds : IndexValue → IndexValue → Bool)
    → ((a b : IndexValue) → identical a b ≡ true → meaning given a ≡ meaning given b)
    → ((a b : IndexValue) → equal_by_bounds a b ≡ true → meaning given a ≡ meaning given b)
    → (nested : ℕ) (a b : IndexValue) → KeepsWidth given a
    → KeepsWidth given b
    → same_value identical equal_by_bounds nested a b ≡ true
    → meaning given a ≡ meaning given b
unfolding same_value
same_value_sound given identical bounds i e zero a b ka kb h =
    let sa = strip_numeric_casts a in
    let sb = strip_numeric_casts b in
    sym (strip_numeric_casts-meaning given a ka)
    ∙ elim (either_true (identical sa sb) (bounds sa sb) h) [
      | inl q ↦ i sa sb q
      | inr q ↦ e sa sb q
    ]
    ∙ strip_numeric_casts-meaning given b kb
same_value_sound given identical bounds i e (suc nested) a b ka kb h =
    let sa = strip_numeric_casts a in
    let sb = strip_numeric_casts b in
    let same = λ (x y : IndexValue). same_value identical bounds nested x y in
    let fold = fold_levels same (λ (v : IndexValue). none) 33 in
    let rest = is_some (equal_results (fold sa) (fold sb)) in
    let known =
      fold_levels-IsSound given same (λ (v : IndexValue). none)
        (same_value_sound given identical bounds i e nested) (λ v n k q. absurd (ground arith))
        33 in
    sym (strip_numeric_casts-meaning given a ka)
    ∙ elim (either_true (identical sa sb) (bounds sa sb || rest) h) [
      | inl q ↦ i sa sb q
      | inr q ↦ elim (either_true (bounds sa sb) rest q) [
        | inl x ↦ e sa sb x
        | inr x ↦
            let (n, found) = is_some_cases (equal_results (fold sa) (fold sb)) x in
            let (l, r) = equal_cases (fold sa) (fold sb) n found in
            known sa n (strip_numeric_casts-KeepsWidth given a ka) l
            ∙ sym (known sb n (strip_numeric_casts-KeepsWidth given b kb) r)
      ]
    ]
    ∙ strip_numeric_casts-meaning given b kb

-- Where values that are identical, or that MLIR's value bounds prove equal, mean the same, and the
-- folder that the caller adds finds only what values mean: a number that tryFoldConstantIndexWith
-- finds of a value is what the value means, if at every operation in it the widths of its types do
-- not change the result: each cast keeps its operand, each constant is the number that is read of
-- it, which the constant true of one bit is not, and each operation gives at its width what it gives
-- on integers without bound, or on words of 64 bits where it is unsigned.
pub try_fold_constant_index_lem :
    (given : Env) (identical equal_by_bounds : IndexValue → IndexValue → Bool)
    (extra : IndexValue → Option ℤ)
    → ((a b : IndexValue) → identical a b ≡ true → meaning given a ≡ meaning given b)
    → ((a b : IndexValue) → equal_by_bounds a b ≡ true → meaning given a ≡ meaning given b)
    → ((v : IndexValue) (n : ℤ) → extra v ≡ some n → meaning given v ≡ n)
    → (nested : ℕ) (v : IndexValue) (n : ℤ) → KeepsWidth given v
    → try_fold_constant_index (λ a b. same_value identical equal_by_bounds nested a b) extra v
      ≡ some n
    → meaning given v ≡ n
unfolding try_fold_constant_index
try_fold_constant_index_lem given identical bounds extra i e x nested v n k h =
    fold_levels-IsSound given (λ a b. same_value identical bounds nested a b) extra
      (same_value_sound given identical bounds i e nested) (λ u m j q. x u m q) 33 v n k h
