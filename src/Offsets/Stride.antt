-- ===== src/Offsets/Stride.antt =====
-- How an index moves with the value that its stride is of.
use carts.Base.{
  ℕ, zero, suc, Bool, true, false, ◌&&◌, if◌then◌else◌, Option, none, some, ◌≡◌, ◌≢◌, ◌⊎◌, inl, inr,
  refl, sym, ap, ◌∙◌, arith, Bool-cases, subst,
}
use carts.Base.Int.{ℤ, pos, ◌+ℤ◌, ◌-ℤ◌, ◌*ℤ◌, +ℤ_comm, +ℤ_assoc}
use carts.Base.Scale.{scale}
use carts.Fold.{IndexValue, constant, other, add_i, sub_i, mul_i, strip_numeric_casts}
use carts.Fold.Meaning.{Env, KeepsWidth, unbounded, meaning}
use carts.Offsets.Sums.{constant-meaning}
use carts.Fold.Parts.{
  strip_numeric_casts-meaning, strip_numeric_casts-KeepsWidth, unsome, or_else_cases, either_true,
}
use carts.ValueFacts.{get_constant_value, depends_on}
use carts.ValueFacts.Named.{both_true}
use carts.ValueFacts.Independent.{with_values, is_seen, depends_on_independent}
use carts.Offsets.{by_side, times, stride_of, get_offset_stride}

abbrev pub is_simple : IndexValue → Bool
is_simple (constant bits n) = true
is_simple (other i) = true
is_simple v = false

-- Sums and differences of values that dependsOn sees through, down to products of constants and block
-- arguments.
abbrev pub plain_of : (IndexValue → Bool) → IndexValue → Bool
plain_of f (add_i l r) = f l && f r
plain_of f (sub_i l r) = f l && f r
plain_of f (mul_i l r) = is_simple l && is_simple r
plain_of f v = true

unfoldable pub is_plain : ℕ → IndexValue → Bool
unfolding strip_numeric_casts
is_plain zero v = true
is_plain (suc n) v = plain_of (λ x. is_seen n x && is_plain n x) (strip_numeric_casts v)

*ℤ_comm : (a b : ℤ) → a *ℤ b ≡ b *ℤ a
unfolding ◌*ℤ◌
*ℤ_comm a b = ground arith

by_one : (x y : ℤ) → x ≡ y +ℤ pos 1 *ℤ (x -ℤ y)
unfolding ◌*ℤ◌ ◌+ℤ◌ ◌-ℤ◌
by_one x y = ground arith

left_moves : (l m r s : ℤ) → l ≡ m +ℤ s → l +ℤ r ≡ m +ℤ r +ℤ s
left_moves l m r s h =
    ap (λ z. z +ℤ r) h ∙ +ℤ_assoc m s r ∙ ap (λ z. m +ℤ z) (+ℤ_comm s r) ∙ sym (+ℤ_assoc m r s)

difference_moves : (m r s : ℤ) → m +ℤ s -ℤ r ≡ m -ℤ r +ℤ s
unfolding ◌+ℤ◌ ◌-ℤ◌
difference_moves m r s = ground arith

minuend_moves : (l m r s : ℤ) → l ≡ m +ℤ s → l -ℤ r ≡ m -ℤ r +ℤ s
minuend_moves l m r s h = ap (λ z. z -ℤ r) h ∙ difference_moves m r s

-- Which operand depends on the base, and its stride.
by_side_cases :
    (l r : Bool) (left right : Option ℤ) (s : ℤ)
    → by_side l r left right ≡ some s
    → ((r ≡ false) × (left ≡ some s)) ⊎ ((l ≡ false) × (right ≡ some s))
by_side_cases true false left right s h = inl (refl, h)
by_side_cases false true left right s h = inr (refl, h)
by_side_cases true true left right s h = absurd (ground arith)
by_side_cases false false left right s h = absurd (ground arith)

times_cases :
    (factor : Option ℤ) (dependent : Bool) (s : ℤ)
    → times factor dependent ≡ some s
    → (factor ≡ some s) × (dependent ≡ true)
times_cases none dependent s h = absurd (ground arith)
times_cases (some c) true s h = (h, refl)
times_cases (some c) false s h = absurd (ground arith)

module _ (identical : IndexValue → IndexValue → Bool) (base : ℕ)
    (one : identical (other base) (other base) ≡ true)
    (alike : (a b : IndexValue) → identical a b ≡ true → a ≡ b) (given : Env) (values : ℕ → ℤ)
    (agree : (i : ℕ) → i ≢ base → given.value i ≡ values i) where
  abbrev moved : Env
  moved = with_values given values

  -- No width changes a result, before and after.
  abbrev Steady : IndexValue → Type 0
  Steady v = KeepsWidth given v × KeepsWidth moved v

  -- What the index moves by, for a stride.
  abbrev Moves : IndexValue → ℤ → Type 0
  Moves v s = meaning given v ≡ meaning moved v +ℤ s *ℤ (given.value base -ℤ values base)

  -- A simple value that depends on the base is the base.
  simple_base :
      (n : ℕ) (v : IndexValue)
      → is_simple v ≡ true
      → depends_on identical n v (other base) ≡ true
      → v ≡ other base
  unfolding depends_on
  simple_base zero v s h = absurd (ground arith)
  simple_base (suc n) (constant bits m) s h =
      elim (either_true (identical (constant bits m) (other base)) false h) [
        | inl q ↦ alike (constant bits m) (other base) q
        | inr q ↦ absurd (ground arith)
      ]
  simple_base (suc n) (other i) s h =
      elim (either_true (identical (other i) (other base)) false h) [
        | inl q ↦ alike (other i) (other base) q
        | inr q ↦ absurd (ground arith)
      ]
  simple_base (suc n) v s h = absurd (ground arith)

  operands_plain :
      (n : ℕ) (l r : IndexValue)
      → ((is_seen n l && is_plain n l) && (is_seen n r && is_plain n r)) ≡ true
      → ((is_seen n l ≡ true) × (is_plain n l ≡ true))
        × ((is_seen n r ≡ true) × (is_plain n r ≡ true))
  operands_plain n l r p =
      let (left, (right, u)) =
        both_true (is_seen n l && is_plain n l) (is_seen n r && is_plain n r) p in
      let (sl, (pl, ul)) = both_true (is_seen n l) (is_plain n l) left in
      let (sr, (pr, ur)) = both_true (is_seen n r) (is_plain n r) right in ((sl, pl), (sr, pr))

  still :
      (n : ℕ) (v : IndexValue)
      → is_seen n v ≡ true
      → depends_on identical n v (other base) ≡ false
      → meaning given v ≡ meaning moved v
  still n v s h = depends_on_independent identical base one given values agree n v s h

  product_moves :
      (n : ℕ) (c : ℤ) (v : IndexValue)
      → is_simple v ≡ true
      → depends_on identical n v (other base) ≡ true
      → c *ℤ meaning given v ≡ c *ℤ meaning moved v +ℤ c *ℤ (given.value base -ℤ values base)
  unfolding meaning
  product_moves n c v s h =
      let same = simple_base n v s h in
      ap (λ x. c *ℤ meaning given x) same
      ∙ scale c (given.value base) (values base)
      ∙ ap (λ x. c *ℤ meaning moved x +ℤ c *ℤ (given.value base -ℤ values base)) (sym same)

  stride_of-Moves :
      (n : ℕ) (v : IndexValue) (s : ℤ)
      → ((x : IndexValue) (t : ℤ)
          → is_plain n x ≡ true
          → Steady x
          → get_offset_stride identical n x (other base) ≡ some t
          → Moves x t)
      → plain_of (λ x. is_seen n x && is_plain n x) v ≡ true
      → Steady v
      → stride_of
          (λ x. get_offset_stride identical n x (other base))
          (λ x. depends_on identical n x (other base))
          v
        ≡ some s
      → Moves v s
  unfolding KeepsWidth unbounded
  stride_of-Moves n (add_i l r) s deeper p ((fit, (kl, kr)), (fit', (kl', kr'))) h =
      let ((sl, pl), (sr, pr)) = operands_plain n l r p in
      fit
      ∙ elim (by_side_cases (depends_on identical n l (other base))
          (depends_on identical n r (other base)) (get_offset_stride identical n l (other base))
          (get_offset_stride identical n r (other base)) s h) [
            | inl (free, q) ↦
                ap (λ z. meaning given l +ℤ z) (still n r sr free)
                ∙ left_moves (meaning given l) (meaning moved l) (meaning moved r)
                    (s *ℤ (given.value base -ℤ values base)) (deeper l s pl (kl, kl') q)
            | inr (free, q) ↦
                ap (λ z. z +ℤ meaning given r) (still n l sl free)
                ∙ ap (λ z. meaning moved l +ℤ z) (deeper r s pr (kr, kr') q)
                ∙ sym (
                    +ℤ_assoc (meaning moved l) (meaning moved r)
                      (s *ℤ (given.value base -ℤ values base)))
          ]
      ∙ ap (λ z. z +ℤ s *ℤ (given.value base -ℤ values base)) (sym fit')
  stride_of-Moves n (sub_i l r) s deeper p ((fit, (kl, kr)), (fit', (kl', kr'))) h =
      let ((sl, pl), (sr, pr)) = operands_plain n l r p in
      fit
      ∙ elim (by_side_cases (depends_on identical n l (other base))
          (depends_on identical n r (other base)) (get_offset_stride identical n l (other base))
          none s h) [
            | inl (free, q) ↦
                ap (λ z. meaning given l -ℤ z) (still n r sr free)
                ∙ minuend_moves (meaning given l) (meaning moved l) (meaning moved r)
                    (s *ℤ (given.value base -ℤ values base)) (deeper l s pl (kl, kl') q)
            | inr (free, q) ↦ absurd (ground arith)
          ]
      ∙ ap (λ z. z +ℤ s *ℤ (given.value base -ℤ values base)) (sym fit')
  stride_of-Moves n (mul_i l r) s deeper p ((fit, (kl, kr)), (fit', (kl', kr'))) h =
      let (simple_l, (simple_r, u)) = both_true (is_simple l) (is_simple r) p in
      fit
      ∙ elim (or_else_cases (times (get_constant_value l) (depends_on identical n r (other base)))
          (times (get_constant_value r) (depends_on identical n l (other base))) s h) [
            | inl q ↦
                let (factor, dependent) =
                  times_cases (get_constant_value l) (depends_on identical n r (other base)) s q in
                ap (λ z. z *ℤ meaning given r) (constant-meaning given l s kl factor)
                ∙ product_moves n s r simple_r dependent
                ∙ ap (λ z. z *ℤ meaning moved r +ℤ s *ℤ (given.value base -ℤ values base))
                    (sym (constant-meaning moved l s kl' factor))
            | inr q ↦
                let (factor, dependent) =
                  times_cases (get_constant_value r) (depends_on identical n l (other base)) s q in
                *ℤ_comm (meaning given l) (meaning given r)
                ∙ ap (λ z. z *ℤ meaning given l) (constant-meaning given r s kr factor)
                ∙ product_moves n s l simple_l dependent
                ∙ ap (λ z. z *ℤ meaning moved l +ℤ s *ℤ (given.value base -ℤ values base))
                    (sym (constant-meaning moved r s kr' factor))
                ∙ ap (λ z. z +ℤ s *ℤ (given.value base -ℤ values base))
                    (*ℤ_comm (meaning moved r) (meaning moved l))
          ]
      ∙ ap (λ z. z +ℤ s *ℤ (given.value base -ℤ values base)) (sym fit')
  stride_of-Moves n v s deeper p k h = absurd (ground arith)

  -- An index for which a stride from a block argument is found moves by that stride for each step of
  -- the block argument, whatever its value is, where all that is identical is the same value, the
  -- index is a sum or difference of values that dependsOn sees through, down to products of a
  -- constant and a block argument, and at both values of the block argument the widths of the types
  -- change no result in the index, so that each cast keeps its operand.
  pub get_offset_stride_lem :
      (levels : ℕ) (idx : IndexValue) (stride : ℤ)
      → is_plain levels idx ≡ true
      → KeepsWidth given idx
      → KeepsWidth (with_values given values) idx
      → get_offset_stride identical levels idx (other base) ≡ some stride
      → meaning given idx
        ≡ meaning (with_values given values) idx +ℤ stride *ℤ (given.value base -ℤ values base)
  unfolding get_offset_stride is_plain meaning
  get_offset_stride_lem zero idx s p k k' h = absurd (ground arith)
  get_offset_stride_lem (suc n) idx s p k k' h =
      let v = strip_numeric_casts idx in
      let rest =
        stride_of (λ x. get_offset_stride identical n x (other base))
          (λ x. depends_on identical n x (other base)) v in
      let chosen = λ (t : Bool). if t then some (pos 1) else rest in
      let step : Moves v s = elim (Bool-cases (identical v (other base))) [
        | inl e ↦
            let same = alike v (other base) e in
            let stride = unsome (pos 1) s (sym (ap chosen e) ∙ h) in
            subst (λ t. Moves v t) stride
              (subst (λ x. Moves x (pos 1)) (sym same) (by_one (given.value base) (values base)))
        | inr e ↦
            stride_of-Moves n v s (λ x t q (j, j') r. get_offset_stride_lem n x t q j j' r) p
              (
                strip_numeric_casts-KeepsWidth given idx k,
                strip_numeric_casts-KeepsWidth moved idx k',
              )
              (sym (ap chosen e) ∙ h)
      ] in
      sym (strip_numeric_casts-meaning given idx k)
      ∙ step
      ∙ ap (λ z. z +ℤ s *ℤ (given.value base -ℤ values base))
          (strip_numeric_casts-meaning moved idx k')
