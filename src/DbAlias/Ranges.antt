-- ===== src/DbAlias/Ranges.antt =====
-- The indices that a range of values covers, when the values that are not constants are given.
use carts.Base.{
  ℕ, true, ◌||◌, some, List, [], ◌∷◌, ◌≡◌, inl, inr, ap, ◌∙◌, map, arith, Bool-cases, Option-cases,
}
use carts.Base.Int.{ℤ, pos, ◌+ℤ◌, ◌≤ℤ◌, +ℤ_parts}
use carts.Loop.{Value, constant, unknown, get_constant_index}
use carts.DbAlias.{apart, any_apart, extract_range, constants_apart, partition_apart}

abbrev pub value_of : (ℕ → ℤ) → Value → ℤ
value_of given (constant c) = c
value_of given (unknown i) = given i

-- An index lies in a range, dimension by dimension; a dimension without a size has no bound.
abbrev pub InBox : List ℤ → List ℤ → List ℤ → Type 0
InBox [] ss [] = Unit
InBox [] ss (i ∷ is) = ⊥
InBox (o ∷ os) ss [] = ⊥
InBox (o ∷ os) [] (i ∷ is) = InBox os [] is
InBox (o ∷ os) (s ∷ ss) (i ∷ is) = (o ≤ℤ i) × (i +ℤ pos 1 ≤ℤ o +ℤ s) × InBox os ss is

abbrev pub InRange : (ℕ → ℤ) → List Value → List Value → List ℤ → Type 0
InRange given os ss = InBox (map (value_of given) os) (map (value_of given) ss)

apart_sound :
    (oa sa ob sb i : ℤ)
    → apart oa sa ob sb ≡ true
    → oa ≤ℤ i
    → i +ℤ pos 1 ≤ℤ oa +ℤ sa
    → ob ≤ℤ i
    → i +ℤ pos 1 ≤ℤ ob +ℤ sb
    → ⊥
apart_sound oa sa ob sb i h a b c d =
    ground (arith, +ℤ_parts oa sa, +ℤ_parts ob sb, +ℤ_parts i (pos 1))

pub any_apart_sound :
    (oas sas obs sbs is : List ℤ)
    → any_apart oas sas obs sbs ≡ true
    → InBox oas sas is
    → InBox obs sbs is
    → ⊥
unfolding any_apart
any_apart_sound [] sas obs sbs is h a b = absurd (ground arith)
any_apart_sound (oa ∷ oas) [] obs sbs is h a b = absurd (ground arith)
any_apart_sound (oa ∷ oas) (sa ∷ sas) [] sbs is h a b = absurd (ground arith)
any_apart_sound (oa ∷ oas) (sa ∷ sas) (ob ∷ obs) [] is h a b = absurd (ground arith)
any_apart_sound (oa ∷ oas) (sa ∷ sas) (ob ∷ obs) (sb ∷ sbs) [] h a b = a
any_apart_sound (oa ∷ oas) (sa ∷ sas) (ob ∷ obs) (sb ∷ sbs) (i ∷ is) h (a, b, c) (d, e, f) =
    elim (Bool-cases (apart oa sa ob sb)) [
      | inl x ↦ apart_sound oa sa ob sb i x a b d e
      | inr x ↦ any_apart_sound oas sas obs sbs is (ground arith) c f
    ]

pub partition_apart_sound :
    (given : ℕ → ℤ) (oas sas obs sbs : List Value) (is : List ℤ)
    → partition_apart oas sas obs sbs ≡ true
    → InRange given oas sas is
    → InRange given obs sbs is
    → ⊥
unfolding partition_apart get_constant_index
partition_apart_sound given [] sas obs sbs is h a b = absurd (ground arith)
partition_apart_sound given (oa ∷ oas) [] obs sbs is h a b = absurd (ground arith)
partition_apart_sound given (oa ∷ oas) (sa ∷ sas) [] sbs is h a b = absurd (ground arith)
partition_apart_sound given (oa ∷ oas) (sa ∷ sas) (ob ∷ obs) [] is h a b = absurd (ground arith)
partition_apart_sound given (oa ∷ oas) (sa ∷ sas) (ob ∷ obs) (sb ∷ sbs) [] h a b = a
partition_apart_sound given (oa ∷ oas) (sa ∷ sas) (ob ∷ obs) (sb ∷ sbs) (i ∷ is) h (a, b, c)
      (d, e, f) =
    let rest = λ (q : partition_apart oas sas obs sbs ≡ true).
      partition_apart_sound given oas sas obs sbs is q c f in
    dims oa sa ob sb rest h a b d e
  where
    dims :
        (oa sa ob sb : Value)
        → (partition_apart oas sas obs sbs ≡ true → ⊥)
        → (constants_apart
              (get_constant_index oa)
              (get_constant_index sa)
              (get_constant_index ob)
              (get_constant_index sb)
            || partition_apart oas sas obs sbs)
          ≡ true
        → value_of given oa ≤ℤ i
        → i +ℤ pos 1 ≤ℤ value_of given oa +ℤ value_of given sa
        → value_of given ob ≤ℤ i
        → i +ℤ pos 1 ≤ℤ value_of given ob +ℤ value_of given sb
        → ⊥
    dims (unknown n) sa ob sb rest h a b d e = rest h
    dims (constant p) (unknown n) ob sb rest h a b d e = rest h
    dims (constant p) (constant q) (unknown n) sb rest h a b d e = rest h
    dims (constant p) (constant q) (constant r) (unknown n) rest h a b d e = rest h
    dims (constant p) (constant q) (constant r) (constant s) rest h a b d e =
        elim (Bool-cases (apart p q r s)) [
          | inl x ↦ apart_sound p q r s i x a b d e
          | inr x ↦ rest (ground arith)
        ]

-- Where the values of a range are constants, they are the constants extracted.
pub extract_range_lem :
    (given : ℕ → ℤ) (vs : List Value) (cs : List ℤ)
    → extract_range vs ≡ some cs
    → map (value_of given) vs ≡ cs
unfolding extract_range get_constant_index
extract_range_lem given [] cs e = ground arith
extract_range_lem given (constant c ∷ vs) cs e = elim (Option-cases (extract_range vs)) [
  | inl q ↦ absurd (ground arith)
  | inr (ds, q) ↦ ap (λ t. c ∷ t) (extract_range_lem given vs ds q) ∙ ground arith
]
extract_range_lem given (unknown i ∷ vs) cs e = absurd (ground arith)
