-- ===== src/ValueFacts/Independent.antt =====
-- When a value does not depend on another.
use carts.Base.{
  ℕ, zero, suc, ◌/◌, ◌%◌, max, min, ◌≢◌, Bool, true, false, ◌&&◌, ◌||◌, if◌then◌else◌, List, [],
  ◌∷◌, any, all, All, ◌≡◌, inl, inr, refl, ap, ap₂, ◌∙◌, arith, Bool-cases, ◌==◌,
}
use carts.Base.Int.{ℤ, pos, ◌+ℤ◌, ◌-ℤ◌, ◌*ℤ◌, eqb_ℤ}
use carts.Fold.{
  IndexValue, constant, other, index_cast, index_cast_ui, ext_si, ext_ui, trunc_i, add_i, sub_i,
  mul_i, div_ui, div_si, ceil_div_ui, ceil_div_si, rem_ui, rem_si, max_ui, min_ui, max_si, min_si,
  cmp_i, select, unlisted_0, unlisted_1, unlisted_2, quot, bit, eval_cmp,
}
use carts.Fold.Meaning.{
  Env, width_of, unsigned_at, signed_at, at_width, compared_at, meaning, rest, max_ℤ, min_ℤ,
}
use carts.ValueFacts.Named.{both_true}
use carts.ValueFacts.{operands, looks_through, depends_on}

-- All the operations in a value are ones that dependsOn looks through, and the value is not deeper
-- than the levels.
abbrev pub is_seen : ℕ → IndexValue → Bool
is_seen zero v = false
is_seen (suc n) (constant bits m) = true
is_seen (suc n) (other i) = true
is_seen (suc n) v = looks_through v && all (λ x. is_seen n x) (operands v)

-- The same with other block arguments.
abbrev pub with_values : Env → (ℕ → ℤ) → Env
with_values given values = record given { value = values }

-- What is computed from values of operands that agree, agrees.
meaning_of_operands :
    (given : Env) (values : ℕ → ℤ) (v : IndexValue)
    → looks_through v ≡ true
    → All (λ x. meaning given x ≡ meaning (with_values given values) x) (operands v)
    → meaning given v ≡ meaning (with_values given values) v
unfolding meaning
meaning_of_operands given o (constant bits n) t a = refl
meaning_of_operands given o (other n) t a = absurd (ground arith)
meaning_of_operands given o (unlisted_0 name attribute) t a = absurd (ground arith)
meaning_of_operands given o (unlisted_1 name attribute x) t a = absurd (ground arith)
meaning_of_operands given o (unlisted_2 name attribute l r) t a = absurd (ground arith)
meaning_of_operands given o (ceil_div_ui l r) t a = absurd (ground arith)
meaning_of_operands given o (ceil_div_si l r) t a = absurd (ground arith)
meaning_of_operands given o (index_cast bits x) t (a, u) =
    ap (λ z. at_width bits (signed_at (width_of given.width given.result_width x) z)) a
meaning_of_operands given o (ext_si bits x) t (a, u) =
    ap (λ z. at_width bits (signed_at (width_of given.width given.result_width x) z)) a
meaning_of_operands given o (index_cast_ui bits x) t (a, u) =
    ap (λ z. at_width bits (pos (unsigned_at (width_of given.width given.result_width x) z))) a
meaning_of_operands given o (ext_ui bits x) t (a, u) =
    ap (λ z. at_width bits (pos (unsigned_at (width_of given.width given.result_width x) z))) a
meaning_of_operands given o (trunc_i bits x) t (a, u) = ap (at_width bits) a
meaning_of_operands given o (add_i l r) t (a, (b, u)) =
    let w = width_of given.width given.result_width l in ap₂ (λ x y. at_width w (x +ℤ y)) a b
meaning_of_operands given o (sub_i l r) t (a, (b, u)) =
    let w = width_of given.width given.result_width l in ap₂ (λ x y. at_width w (x -ℤ y)) a b
meaning_of_operands given o (mul_i l r) t (a, (b, u)) =
    let w = width_of given.width given.result_width l in ap₂ (λ x y. at_width w (x *ℤ y)) a b
meaning_of_operands given o (div_ui l r) t (a, (b, u)) =
    let w = width_of given.width given.result_width l in
    ap₂ (λ x y. at_width w (pos (unsigned_at w x / unsigned_at w y))) a b
meaning_of_operands given o (div_si l r) t (a, (b, u)) =
    let w = width_of given.width given.result_width l in
    ap₂ (λ x y. at_width w (quot (signed_at w x) (signed_at w y))) a b
meaning_of_operands given o (rem_ui l r) t (a, (b, u)) =
    let w = width_of given.width given.result_width l in
    ap₂ (λ x y. at_width w (pos (unsigned_at w x % unsigned_at w y))) a b
meaning_of_operands given o (rem_si l r) t (a, (b, u)) =
    let w = width_of given.width given.result_width l in
    ap₂ (λ x y. at_width w (rest (signed_at w x) (signed_at w y))) a b
meaning_of_operands given o (max_ui l r) t (a, (b, u)) =
    let w = width_of given.width given.result_width l in
    ap₂ (λ x y. at_width w (pos (max (unsigned_at w x) (unsigned_at w y)))) a b
meaning_of_operands given o (min_ui l r) t (a, (b, u)) =
    let w = width_of given.width given.result_width l in
    ap₂ (λ x y. at_width w (pos (min (unsigned_at w x) (unsigned_at w y)))) a b
meaning_of_operands given o (max_si l r) t (a, (b, u)) =
    let w = width_of given.width given.result_width l in
    ap₂ (λ x y. at_width w (max_ℤ (signed_at w x) (signed_at w y))) a b
meaning_of_operands given o (min_si l r) t (a, (b, u)) =
    let w = width_of given.width given.result_width l in
    ap₂ (λ x y. at_width w (min_ℤ (signed_at w x) (signed_at w y))) a b
meaning_of_operands given o (cmp_i p l r) t (a, (b, u)) =
    let w = width_of given.width given.result_width l in
    ap₂ (λ x y. bit (eval_cmp p (compared_at w p x) (compared_at w p y))) a b
meaning_of_operands given o (select c t f) k (a, (b, (d, u))) =
    ap (λ z. if eqb_ℤ z (pos 0) then meaning given f else meaning given t) a
    ∙ ap₂ (λ x y. if eqb_ℤ (meaning (with_values given o) c) (pos 0) then x else y) d b

both_false : (a b : Bool) → (a || b) ≡ false → (a ≡ false) × (b ≡ false)
both_false true b h = absurd (ground arith)
both_false false b h = (refl, h)

contrary : (b : Bool) → b ≡ true → b ≡ false → ⊥
contrary b t f = ground arith

behind_true : (a b : Bool) → a ≡ true → (a && b) ≡ false → b ≡ false
behind_true a b t h = ground arith

each :
    {P : IndexValue → Type 0} (seen depends : IndexValue → Bool) (xs : List IndexValue)
    → ((x : IndexValue) → seen x ≡ true → depends x ≡ false → P x)
    → all seen xs ≡ true
    → any depends xs ≡ false
    → All P xs
each seen depends [] f s d = tt
each seen depends (x ∷ xs) f s d =
    let (now, (later, u)) = both_true (seen x) (all seen xs) s in
    let (not_now, not_later) = both_false (depends x) (any depends xs) d in
    (f x now not_now, each seen depends xs f later not_later)

module _ (identical : IndexValue → IndexValue → Bool) (base : ℕ)
    (one : identical (other base) (other base) ≡ true) (given : Env) (values : ℕ → ℤ)
    (agree : (i : ℕ) → i ≢ base → given.value i ≡ values i) where
  pub depends_on_independent :
      (levels : ℕ) (v : IndexValue)
      → is_seen levels v ≡ true
      → depends_on identical levels v (other base) ≡ false
      → meaning given v ≡ meaning (with_values given values) v
  unfolding depends_on meaning
  depends_on_independent zero v s h = absurd (ground arith)
  depends_on_independent (suc n) (constant bits m) s h = refl
  depends_on_independent (suc n) (other i) s h = elim (Bool-cases (i == base)) [
    | inl e ↦
        let same : i ≡ base = ground arith in
        let found = ap (λ k. identical (other k) (other base)) same ∙ one in
        let (not_base, u) = both_false (identical (other i) (other base)) false h in
        absurd (contrary (identical (other i) (other base)) found not_base)
    | inr e ↦ agree i (λ q. ground arith)
  ]
  depends_on_independent (suc n) v s h =
      let seen = λ (x : IndexValue). is_seen n x in
      let depends = λ (x : IndexValue). depends_on identical n x (other base) in
      let (looks, (deeper, u)) = both_true (looks_through v) (all seen (operands v)) s in
      let (not_base, behind) =
        both_false (identical v (other base)) (looks_through v && any depends (operands v)) h in
      meaning_of_operands given values v looks (
        each seen depends (operands v) (λ x t d. depends_on_independent n x t d) deeper
          (behind_true (looks_through v) (any depends (operands v)) looks behind))
