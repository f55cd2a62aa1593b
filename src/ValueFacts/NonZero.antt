-- ===== src/ValueFacts/NonZero.antt =====
-- When a value that isProvablyNonZero finds not to be 0 is not 0.
use carts.Base.{
  ℕ, zero, suc, ◌<◌, max, Bool, true, false, ◌&&◌, ◌||◌, if◌then◌else◌, Option, none, some, ◌≡◌,
  ◌⊎◌, inl, inr, refl, sym, ap, ◌∙◌, arith, Bool-cases, ltb, subst,
}
use carts.Base.Int.{ℤ, pos, negsuc, ◌≤ℤ◌}
use carts.Schedule.Chunk.Run.{half, word}
use carts.Fold.{
  IndexValue, constant, index_cast, ext_si, ext_ui, trunc_i, max_ui, max_si, signed,
  strip_numeric_casts,
}
use carts.Fold.Meaning.{Env, KeepsWidth, unbounded, meaning}
use carts.Fold.Parts.{strip_numeric_casts-meaning, strip_numeric_casts-KeepsWidth, either_true}
use carts.ValueFacts.{
  get_constant_value, decided, at_least, at_most_minus_one, max_operand, prove_value_at_least,
  prove_value_non_zero, is_at_least_one, is_constant_at_least_one, is_provably_non_zero,
}
use carts.ValueFacts.Strip.{word-signed, word_small}
use carts.ValueFacts.Named.{both_true}

-- An integer is one of 64 bits.
abbrev pub fits : ℤ → Bool
fits (pos n) = ltb n half
fits (negsuc n) = ltb n half

-- Constants fit, and no signed maximum is looked into.
abbrev pub is_covered : IndexValue → Bool
is_covered (constant bits n) = fits n
is_covered (index_cast bits x) = is_covered x
is_covered (ext_si bits x) = is_covered x
is_covered (ext_ui bits x) = is_covered x
is_covered (trunc_i bits x) = is_covered x
is_covered (max_ui l r) = is_covered l && is_covered r
is_covered (max_si l r) = false
is_covered v = true

strip_numeric_casts-is_covered :
    (v : IndexValue) → is_covered (strip_numeric_casts v) ≡ is_covered v
unfolding strip_numeric_casts
strip_numeric_casts-is_covered (index_cast bits x) = strip_numeric_casts-is_covered x
strip_numeric_casts-is_covered (ext_si bits x) = strip_numeric_casts-is_covered x
strip_numeric_casts-is_covered (ext_ui bits x) = strip_numeric_casts-is_covered x
strip_numeric_casts-is_covered (trunc_i bits x) = strip_numeric_casts-is_covered x
strip_numeric_casts-is_covered v = refl

decided_cases :
    (o : Option Bool) (later : Bool) → decided o later ≡ true → (o ≡ some true) ⊎ (later ≡ true)
decided_cases none later h = inr h
decided_cases (some b) later h = inl (ap some h)

positive_word : (a : ℤ) → fits a ≡ true → pos 1 ≤ℤ a → 0 < word a
positive_word a f h = ground arith

negative_word : (a : ℤ) → fits a ≡ true → a ≤ℤ negsuc 0 → 0 < word a
negative_word a f h = ground arith

at_least_sound :
    (o : Option ℤ) (m : ℤ) → at_least o m ≡ some true → (b : ℤ) × (o ≡ some b) × (m ≤ℤ b)
at_least_sound none m h = absurd (ground arith)
at_least_sound (some b) m h = (b, refl, ground arith)

at_most_sound :
    (o : Option ℤ) → at_most_minus_one o ≡ some true → (b : ℤ) × (o ≡ some b) × (b ≤ℤ negsuc 0)
at_most_sound none h = absurd (ground arith)
at_most_sound (some b) h = (b, refl, ground arith)

≤ℤ_trans : (a b c : ℤ) → a ≤ℤ b → b ≤ℤ c → a ≤ℤ c
≤ℤ_trans a b c h k = omega arith

-- The larger of two words, one of them not 0.
max_positive : (a b : ℤ) → (0 < word a) ⊎ (0 < word b) → 0 < word (signed (max (word a) (word b)))
max_positive a b h =
    let same = word-signed (max (word a) (word b)) (omega (arith, word_small a, word_small b)) in
    rw same (elim h [ inl p ↦ omega arith | inr p ↦ omega arith ])

module _ (given : Env) (lower_bound upper_bound : IndexValue → Option ℤ)
    (lower_sound : (v : IndexValue) (b : ℤ)
      → lower_bound v ≡ some b
      → (b ≤ℤ meaning given v) × (fits (meaning given v) ≡ true))
    (upper_sound : (v : IndexValue) (b : ℤ)
      → upper_bound v ≡ some b
      → (meaning given v ≤ℤ b) × (fits (meaning given v) ≡ true)) where
  prove_value_at_least_sound :
      (v : IndexValue)
      → prove_value_at_least lower_bound upper_bound v (pos 1) ≡ some true
      → 0 < word (meaning given v)
  prove_value_at_least_sound v h =
      let (b, found, least) = at_least_sound (lower_bound v) (pos 1) h in
      let (below, fit) = lower_sound v b found in
      positive_word (meaning given v) fit (≤ℤ_trans (pos 1) b (meaning given v) least below)

  prove_value_non_zero_sound :
      (v : IndexValue)
      → prove_value_non_zero lower_bound upper_bound v ≡ some true
      → 0 < word (meaning given v)
  prove_value_non_zero_sound v h =
      let sure = decided (prove_value_at_least lower_bound upper_bound v (pos 1)) false in
      let chosen = λ (t : Bool). if t then some true else at_most_minus_one (upper_bound v) in
      elim (Bool-cases sure) [
        | inl e ↦
            elim (decided_cases (prove_value_at_least lower_bound upper_bound v (pos 1)) false e) [
              | inl q ↦ prove_value_at_least_sound v q
              | inr q ↦ absurd (ground arith)
            ]
        | inr e ↦
            let (b, found, most) = at_most_sound (upper_bound v) (sym (ap chosen e) ∙ h) in
            let (above, fit) = upper_sound v b found in
            negative_word (meaning given v) fit (≤ℤ_trans (meaning given v) b (negsuc 0) above most)
      ]

  constant_sound :
      (v : IndexValue)
      → is_covered v ≡ true
      → KeepsWidth given v
      → is_at_least_one lower_bound upper_bound (get_constant_value v) ≡ true
      → 0 < word (meaning given v)
  unfolding KeepsWidth unbounded
  constant_sound (constant bits n) c k h =
      subst (λ m. 0 < word m) (sym k) (positive_word n c (ground arith))
  constant_sound v c k h = absurd (ground arith)

  is_constant_at_least_one_sound :
      (v : IndexValue)
      → is_covered v ≡ true
      → KeepsWidth given v
      → is_constant_at_least_one lower_bound upper_bound v ≡ true
      → 0 < word (meaning given v)
  unfolding is_constant_at_least_one
  is_constant_at_least_one_sound v c k h =
      let s = strip_numeric_casts v in
      let known = is_at_least_one lower_bound upper_bound (get_constant_value s) in
      subst (λ m. 0 < word m) (strip_numeric_casts-meaning given v k)
        (elim (decided_cases (prove_value_at_least lower_bound upper_bound s (pos 1)) known h) [
          | inl q ↦ prove_value_at_least_sound s q
          | inr q ↦
              constant_sound s (strip_numeric_casts-is_covered v ∙ c)
                (strip_numeric_casts-KeepsWidth given v k) q
        ])

  max_operand_sound :
      (f : IndexValue → Bool) (v : IndexValue)
      → ((x : IndexValue)
          → is_covered x ≡ true
          → KeepsWidth given x
          → f x ≡ true
          → 0 < word (meaning given x))
      → is_covered v ≡ true
      → KeepsWidth given v
      → max_operand f v ≡ true
      → 0 < word (meaning given v)
  unfolding KeepsWidth unbounded
  max_operand_sound f (max_ui l r) sound c (fit, (kl, kr)) h =
      let (cl, (cr, u)) = both_true (is_covered l) (is_covered r) c in
      subst (λ m. 0 < word m) (sym fit)
        (max_positive (meaning given l) (meaning given r) (elim (either_true (f l) (f r) h) [
          | inl q ↦ inl (sound l cl kl q)
          | inr q ↦ inr (sound r cr kr q)
        ]))
  max_operand_sound f v sound c k h = absurd (ground arith)

  -- Where the bounds that MLIR computes are bounds of values of 64 bits, and the constants are of 64
  -- bits, a value that is found not to be 0 is not 0 as a word, if no signed maximum is looked into
  -- and at every operation in the value the widths of its types do not change the result, so that
  -- each cast keeps its operand.
  pub is_provably_non_zero_sound :
      (levels : ℕ) (v : IndexValue)
      → is_covered v ≡ true
      → KeepsWidth given v
      → is_provably_non_zero lower_bound upper_bound levels v ≡ true
      → 0 < word (meaning given v)
  unfolding is_provably_non_zero
  is_provably_non_zero_sound zero v c k h = absurd (ground arith)
  is_provably_non_zero_sound (suc n) v c k h =
      let ks = strip_numeric_casts-KeepsWidth given v k in
      let s = strip_numeric_casts v in
      let cs = strip_numeric_casts-is_covered v ∙ c in
      let deeper = λ (x : IndexValue). is_provably_non_zero lower_bound upper_bound n x in
      let one = is_constant_at_least_one lower_bound upper_bound s in
      let later = one || max_operand deeper s in
      subst (λ m. 0 < word m) (strip_numeric_casts-meaning given v k)
        (elim (decided_cases (prove_value_non_zero lower_bound upper_bound s) later h) [
          | inl q ↦ prove_value_non_zero_sound s q
          | inr q ↦ elim (either_true one (max_operand deeper s) q) [
            | inl x ↦ is_constant_at_least_one_sound s cs ks x
            | inr x ↦
                max_operand_sound deeper s (λ y cy ky hy. is_provably_non_zero_sound n y cy ky hy)
                  cs ks x
          ]
        ])
