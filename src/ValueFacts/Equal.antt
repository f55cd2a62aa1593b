-- ===== src/ValueFacts/Equal.antt =====
-- When values that areValuesEquivalent finds equivalent mean the same.
use carts.Base.{
  ℕ, zero, suc, All, Bool, true, ◌&&◌, ◌||◌, if◌then◌else◌, Option, List, [], ◌∷◌, map, ◌≡◌, inl,
  inr, refl, sym, ap, ap₂, ◌∙◌, arith, Bool-cases,
}
use carts.Base.Int.{ℤ, eq_of_parts}
use carts.Fold.{
  IndexValue, constant, other, index_cast, ext_si, ext_ui, trunc_i, CmpPredicate, cmp_i, unlisted_0,
  unlisted_1, unlisted_2, strip_numeric_casts,
}
use carts.Fold.Meaning.{Env, KeepsWidth, unbounded, meaning}
use carts.Fold.Parts.{strip_numeric_casts-meaning, strip_numeric_casts-KeepsWidth, either_true}
use carts.ValueFacts.{
  operands, name_of, same_name, is_commutative, all_equal, either_order, same_operation,
  get_constant_value, same_constant, are_values_equivalent,
}
use carts.ValueFacts.Named.{
  no_attribute, by_name, is_computed, meaning-by_name, swapped, same_name_equal, both_true,
  operands-no_attribute, operands-KeepsWidth,
}

module _ (given : Env) where
  -- No attribute stands in the value, and no width changes a result.
  abbrev Plain : IndexValue → Type 0
  Plain v = (no_attribute v ≡ true) × KeepsWidth given v

  zip_all :
      (xs : List IndexValue)
      → All (λ x. no_attribute x ≡ true) xs
      → All (λ x. KeepsWidth given x) xs
      → All (λ x. Plain x) xs
  zip_all [] n k = tt
  zip_all (x ∷ xs) (n, ns) (k, ks) = ((n, k), zip_all xs ns ks)

  -- A test of two plain values that finds equal only what means the same.
  abbrev IsSoundTest : (IndexValue → IndexValue → Bool) → Type 0
  IsSoundTest eq =
      (a b : IndexValue) → Plain a → Plain b → eq a b ≡ true → meaning given a ≡ meaning given b

  module _ (eq : IndexValue → IndexValue → Bool) (sound : IsSoundTest eq) where
    all_equal_sound :
        (xs ys : List IndexValue)
        → All (λ x. Plain x) xs
        → All (λ y. Plain y) ys
        → all_equal eq xs ys ≡ true
        → map (meaning given) xs ≡ map (meaning given) ys
    all_equal_sound [] [] nx ny h = refl
    all_equal_sound [] (y ∷ ys) nx ny h = absurd (ground arith)
    all_equal_sound (x ∷ xs) [] nx ny h = absurd (ground arith)
    all_equal_sound (x ∷ xs) (y ∷ ys) (nx, nxs) (ny, nys) h =
        let (first, (later, t)) = both_true (eq x y) (all_equal eq xs ys) h in
        ap₂ (λ v vs. v ∷ vs) (sound x y nx ny first) (all_equal_sound xs ys nxs nys later)

    -- Also where the two operands of a commutative operation are swapped.
    either_order_sound :
        (name : Option ℕ) (xs ys : List IndexValue)
        → ((a b : ℤ) → by_name name (a ∷ b ∷ []) ≡ by_name name (b ∷ a ∷ []))
        → All (λ x. Plain x) xs
        → All (λ y. Plain y) ys
        → either_order eq xs ys ≡ true
        → by_name name (map (meaning given) xs) ≡ by_name name (map (meaning given) ys)
    either_order_sound name (a0 ∷ a1 ∷ []) (b0 ∷ b1 ∷ []) comm (p0, (p1, t)) (q0, (q1, u)) h =
        elim (either_true (eq a0 b0 && eq a1 b1) (eq a0 b1 && eq a1 b0) h) [
          | inl e ↦
              let (first, (second, z)) = both_true (eq a0 b0) (eq a1 b1) e in
              ap₂ (λ v w. by_name name (v ∷ w ∷ [])) (sound a0 b0 p0 q0 first)
                (sound a1 b1 p1 q1 second)
          | inr e ↦
              let (first, (second, z)) = both_true (eq a0 b1) (eq a1 b0) e in
              ap₂ (λ v w. by_name name (v ∷ w ∷ [])) (sound a0 b1 p0 q1 first)
                (sound a1 b0 p1 q0 second)
              ∙ comm (meaning given b1) (meaning given b0)
        ]
    either_order_sound name xs ys comm nx ny h = ap (by_name name) (all_equal_sound xs ys nx ny h)

    computed_sound :
        (a b : IndexValue)
        → Plain a
        → Plain b
        → is_computed (name_of a) ≡ true
        → same_operation eq a b ≡ true
        → meaning given a ≡ meaning given b
    computed_sound a b na nb c h =
        let order =
          if is_commutative a
          then either_order eq (operands a) (operands b)
          else all_equal eq (operands a) (operands b) in
        let (named, (equal, z)) = both_true (same_name (name_of a) (name_of b)) order h in
        let name = same_name_equal (name_of a) (name_of b) named in
        let pa =
          zip_all (operands a) (operands-no_attribute a na.0) (operands-KeepsWidth given a na.1) in
        let pb =
          zip_all (operands b) (operands-no_attribute b nb.0) (operands-KeepsWidth given b nb.1) in
        let values = λ (v : IndexValue). map (meaning given) (operands v) in
        let same : by_name (name_of a) (values a) ≡ by_name (name_of a) (values b) =
          elim (Bool-cases (is_commutative a)) [
            | inl e ↦
                either_order_sound (name_of a) (operands a) (operands b) (λ x y. swapped a x y e) pa
                  pb
                  (sym (
                      ap
                        (λ t.
                          if t
                          then either_order eq (operands a) (operands b)
                          else all_equal eq (operands a) (operands b))
                        e)
                    ∙ equal)
            | inr e ↦ ap (by_name (name_of a)) (
                all_equal_sound (operands a) (operands b) pa pb (
                  sym (
                    ap
                      (λ t.
                        if t
                        then either_order eq (operands a) (operands b)
                        else all_equal eq (operands a) (operands b))
                      e)
                  ∙ equal))
          ] in
        meaning-by_name given a na.1 c
        ∙ same
        ∙ ap (λ n. by_name n (values b)) name
        ∙ sym (meaning-by_name given b nb.1 (sym (ap is_computed name) ∙ c))

    same_operation_sound :
        (a b : IndexValue)
        → Plain a
        → Plain b
        → same_constant (get_constant_value a) (get_constant_value b) (same_operation eq a b) ≡ true
        → meaning given a ≡ meaning given b
    unfolding KeepsWidth unbounded
    same_operation_sound (constant bits m) (constant more n) (na, ka) (nb, kb) h =
        ka ∙ eq_of_parts m n (ground arith) ∙ sym kb
    same_operation_sound (constant bits m) b na nb h = absurd (ground arith)
    same_operation_sound (other i) b na nb h = absurd (ground arith)
    same_operation_sound (cmp_i p l r) b (na, ka) nb h = absurd (ground arith)
    same_operation_sound (unlisted_0 name attribute) b (na, ka) nb h = absurd (ground arith)
    same_operation_sound (unlisted_1 name attribute x) b (na, ka) nb h = absurd (ground arith)
    same_operation_sound (unlisted_2 name attribute l r) b (na, ka) nb h = absurd (ground arith)
    same_operation_sound a b na nb h = computed_sound a b na nb refl h

strip_numeric_casts-no_attribute :
    (v : IndexValue) → no_attribute (strip_numeric_casts v) ≡ no_attribute v
unfolding strip_numeric_casts
strip_numeric_casts-no_attribute (index_cast bits x) = strip_numeric_casts-no_attribute x
strip_numeric_casts-no_attribute (ext_si bits x) = strip_numeric_casts-no_attribute x
strip_numeric_casts-no_attribute (ext_ui bits x) = strip_numeric_casts-no_attribute x
strip_numeric_casts-no_attribute (trunc_i bits x) = strip_numeric_casts-no_attribute x
strip_numeric_casts-no_attribute v = refl

-- Where values that are identical, or that MLIR's value bounds prove equal, mean the same, two values
-- that are found equivalent at any number of levels mean the same, also where the operands of
-- commutative operations are swapped, if in either there is no operation with attributes, which is
-- no comparison and none but the operations of `IndexValue`, and at every operation the widths of
-- its types do not change the result, so that each cast keeps its operand.
pub are_values_equivalent_sound :
    (given : Env) (identical equal_by_bounds : IndexValue → IndexValue → Bool)
    → ((a b : IndexValue) → identical a b ≡ true → meaning given a ≡ meaning given b)
    → ((a b : IndexValue) → equal_by_bounds a b ≡ true → meaning given a ≡ meaning given b)
    → (levels : ℕ) (a b : IndexValue) → no_attribute a ≡ true
    → no_attribute b ≡ true
    → KeepsWidth given a
    → KeepsWidth given b
    → are_values_equivalent identical equal_by_bounds levels a b ≡ true
    → meaning given a ≡ meaning given b
unfolding are_values_equivalent
are_values_equivalent_sound given identical bounds i e zero a b na nb ka kb h = i a b h
are_values_equivalent_sound given identical bounds i e (suc n) a b na nb ka kb h =
    let sa = strip_numeric_casts a in
    let sb = strip_numeric_casts b in
    let eq = λ (x y : IndexValue). are_values_equivalent identical bounds n x y in
    let known =
      same_constant (get_constant_value sa) (get_constant_value sb) (same_operation eq sa sb) in
    let stripped : (identical sa sb || (bounds sa sb || known)) ≡ true
        → meaning given sa ≡ meaning given sb =
      λ q. elim (either_true (identical sa sb) (bounds sa sb || known) q) [
        | inl x ↦ i sa sb x
        | inr x ↦ elim (either_true (bounds sa sb) known x) [
          | inl y ↦ e sa sb y
          | inr y ↦
              same_operation_sound given eq
                (λ u v (nu, ku) (nv, kv) z.
                  are_values_equivalent_sound given identical bounds i e n u v nu nv ku kv z)
                sa sb
                (strip_numeric_casts-no_attribute a ∙ na, strip_numeric_casts-KeepsWidth given a ka)
                (strip_numeric_casts-no_attribute b ∙ nb, strip_numeric_casts-KeepsWidth given b kb)
                y
        ]
      ] in
    elim (either_true (identical a b) (identical sa sb || (bounds sa sb || known)) h) [
      | inl x ↦ i a b x
      | inr x ↦
          sym (strip_numeric_casts-meaning given a ka)
          ∙ stripped x
          ∙ strip_numeric_casts-meaning given b kb
    ]

last_true : (a b c : Bool) → (a || (b || (c || true))) ≡ true
last_true a b c = ground arith

equivalent_itself :
    (identical equal_by_bounds : IndexValue → IndexValue → Bool)
    → ((v : IndexValue) → identical v v ≡ true)
    → (levels : ℕ) (v : IndexValue)
    → are_values_equivalent identical equal_by_bounds levels v v ≡ true
unfolding are_values_equivalent
equivalent_itself identical bounds one zero v = one v
equivalent_itself identical bounds one (suc n) v = rw (one v) refl

-- Two comparisons of the same operands are found equivalent whatever their predicates, where a value
-- is identical to itself.
pub are_values_equivalent_comparisons :
    (identical equal_by_bounds : IndexValue → IndexValue → Bool)
    → ((v : IndexValue) → identical v v ≡ true)
    → (levels : ℕ) (p q : CmpPredicate) (l r : IndexValue)
    → are_values_equivalent identical equal_by_bounds (suc levels) (cmp_i p l r) (cmp_i q l r)
      ≡ true
unfolding are_values_equivalent
are_values_equivalent_comparisons identical bounds one n p q l r =
    rw (equivalent_itself identical bounds one n l) (
      rw (equivalent_itself identical bounds one n r) (
        last_true (identical (cmp_i p l r) (cmp_i q l r)) (identical (cmp_i p l r) (cmp_i q l r))
          (bounds (cmp_i p l r) (cmp_i q l r))))
