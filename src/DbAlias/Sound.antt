-- ===== src/DbAlias/Sound.antt =====
-- What an alias result says of the memory that two acquires cover.
use carts.Base.{
  ℕ, true, false, ◌==◌, some, List, [], ◌∷◌, ◌≡◌, ◌⊎◌, inl, inr, refl, sym, ◌∙◌, ap₂, subst, map,
  arith, Bool-cases, Option-cases, ==_iff,
}
use carts.Base.Int.{ℤ, eq_of_parts}
use carts.DbAlias.{
  AliasResult, no_alias, may_alias, must_alias, OverlapKind, disjoint, full, Acquire, acquire,
  ConstantSlice, extract_range, extract_constant_slice, eq_ints, compare_slices,
  refine_alias_with_slices, refine_overlap_with_partition_ranges, estimate_overlap, classify_alias,
  known_to_differ, result_of,
}
use carts.DbAlias.Ranges.{
  value_of, InRange, InBox, any_apart_sound, partition_apart_sound, extract_range_lem,
}

eq_ints_sound : (as' bs : List ℤ) → eq_ints as' bs ≡ true → as' ≡ bs
eq_ints_sound [] [] h = refl
eq_ints_sound [] (b ∷ bs) h = absurd (ground arith)
eq_ints_sound (a ∷ as') [] h = absurd (ground arith)
eq_ints_sound (a ∷ as') (b ∷ bs) h =
    ap₂ (λ x y. x ∷ y) (eq_of_parts a b (ground arith)) (eq_ints_sound as' bs (ground arith))

-- The ranges of the slices of two acquires, and of their partitions.
abbrev pub InSlice : (ℕ → ℤ) → Acquire → List ℤ → Type 0
InSlice given a = InRange given a.offsets a.sizes

abbrev pub InPartition : (ℕ → ℤ) → Acquire → List ℤ → Type 0
InPartition given a = InRange given a.partition_offsets a.partition_sizes

-- Nothing is in both slices, or nothing in both partitions, whatever the values are.
abbrev pub Apart : Acquire → Acquire → Type 0
Apart a b =
    ((given : ℕ → ℤ) (is : List ℤ) → InSlice given a is → InSlice given b is → ⊥)
    ⊎ ((given : ℕ → ℤ) (is : List ℤ) → InPartition given a is → InPartition given b is → ⊥)

-- The slices hold the same indices, whatever the values are.
abbrev pub SameSlice : Acquire → Acquire → Type 0
SameSlice a b =
    (given : ℕ → ℤ)
    → (map (value_of given) a.offsets ≡ map (value_of given) b.offsets)
      × (map (value_of given) a.sizes ≡ map (value_of given) b.sizes)

-- A slice is extracted from constants.
record Extracted (a : Acquire) (s : ConstantSlice) : Type 0 where
  offsets : extract_range a.offsets ≡ some s.offsets
  sizes : extract_range a.sizes ≡ some s.sizes

extract_constant_slice-Extracted :
    (a : Acquire) (s : ConstantSlice) → extract_constant_slice a ≡ some s → Extracted a s
unfolding extract_constant_slice
extract_constant_slice-Extracted a s h = elim (Option-cases (extract_range a.offsets)) [
  | inl e ↦ absurd (ground arith)
  | inr (os, e) ↦ elim (Option-cases (extract_range a.sizes)) [
    | inl f ↦ absurd (ground arith)
    | inr (ss, f) ↦ record { offsets = ground arith; sizes = ground arith }
  ]
]

-- What a comparison of slices rests on.
refined :
    (a b : Acquire) (r : AliasResult)
    → refine_alias_with_slices a b ≡ some r
    → (s : ConstantSlice) × (t : ConstantSlice) × Extracted a s
      × Extracted b t
      × (compare_slices s t ≡ some r)
unfolding refine_alias_with_slices
refined a b r h = elim (Option-cases (extract_constant_slice a)) [
  | inl e ↦ absurd (ground arith)
  | inr (s, e) ↦ elim (Option-cases (extract_constant_slice b)) [
    | inl f ↦ absurd (ground arith)
    | inr (t, f) ↦ (
      s,
      t,
      extract_constant_slice-Extracted a s e,
      extract_constant_slice-Extracted b t f,
      ground arith,
    )
  ]
]

slices_apart :
    (a b : Acquire)
    → refine_alias_with_slices a b ≡ some no_alias
    → (given : ℕ → ℤ) (is : List ℤ) → InSlice given a is
    → InSlice given b is
    → ⊥
unfolding compare_slices
slices_apart a b h given is x y =
    let (s, t, ea, eb, c) = refined a b no_alias h in
    let box = λ (v : Acquire) (u : ConstantSlice) (e : Extracted v u) (z : InSlice given v is).
      subst (λ os. InBox os u.sizes is) (extract_range_lem given v.offsets u.offsets e.offsets)
        (subst (λ ss. InBox (map (value_of given) v.offsets) ss is)
          (extract_range_lem given v.sizes u.sizes e.sizes) z) in
    any_apart_sound s.offsets s.sizes t.offsets t.sizes is (ground arith) (box a s ea x)
      (box b t eb y)

slices_same : (a b : Acquire) → refine_alias_with_slices a b ≡ some must_alias → SameSlice a b
unfolding compare_slices
slices_same a b h given =
    let (s, t, ea, eb, c) = refined a b must_alias h in
    let os = eq_ints_sound s.offsets t.offsets (ground arith) in
    let ss = eq_ints_sound s.sizes t.sizes (ground arith) in
    (
      extract_range_lem given a.offsets s.offsets ea.offsets
          ∙ os
          ∙ sym (extract_range_lem given b.offsets t.offsets eb.offsets),
      extract_range_lem given a.sizes s.sizes ea.sizes
          ∙ ss
          ∙ sym (extract_range_lem given b.sizes t.sizes eb.sizes),
    )

partitions_apart :
    (a b : Acquire)
    → refine_overlap_with_partition_ranges a b ≡ some disjoint
    → (given : ℕ → ℤ) (is : List ℤ) → InPartition given a is
    → InPartition given b is
    → ⊥
unfolding refine_overlap_with_partition_ranges
partitions_apart a b h given is x y =
    partition_apart_sound given a.partition_offsets a.partition_sizes b.partition_offsets
      b.partition_sizes is (ground arith) x y

pub estimate_overlap_disjoint :
    (a b : Acquire)
    → estimate_overlap a b ≡ disjoint
    → (known_to_differ a.root b.root ≡ true) ⊎ Apart a b
unfolding estimate_overlap
estimate_overlap_disjoint a b h = elim (Bool-cases (known_to_differ a.root b.root)) [
  | inl e ↦ inl e
  | inr e ↦ elim (Option-cases (refine_alias_with_slices a b)) [
    | inl f ↦ inr (inr (partitions_apart a b (ground arith)))
    | inr (no_alias, f) ↦ inr (inl (slices_apart a b f))
    | inr (may_alias, f) ↦ inr (inr (partitions_apart a b (ground arith)))
    | inr (must_alias, f) ↦ absurd (ground arith)
  ]
]

pub estimate_overlap_full :
    (a b : Acquire)
    → estimate_overlap a b ≡ full
    → (a.node ≡ b.node) ⊎ ((a.ptr ≡ b.ptr) ⊎ SameSlice a b)
unfolding estimate_overlap
estimate_overlap_full a b h = elim (Bool-cases (a.node == b.node)) [
  | inl e ↦ inl ((==_iff a.node b.node).0 e)
  | inr e ↦ elim (Bool-cases (a.ptr == b.ptr)) [
    | inl f ↦ inr (inl ((==_iff a.ptr b.ptr).0 f))
    | inr f ↦ elim (Option-cases (refine_alias_with_slices a b)) [
      | inl g ↦ absurd (ground arith)
      | inr (no_alias, g) ↦ absurd (ground arith)
      | inr (may_alias, g) ↦ absurd (ground arith)
      | inr (must_alias, g) ↦ inr (inr (slices_same a b g))
    ]
  ]
]

no_alias_disjoint : (k : OverlapKind) → result_of k ≡ no_alias → k ≡ disjoint
no_alias_disjoint k h = ground arith

must_alias_full : (k : OverlapKind) → result_of k ≡ must_alias → k ≡ full
must_alias_full k h = ground arith

-- Two acquires that are found not to alias differ in their root allocation, or no index lies in
-- both their slices, or no element lies in both their partition ranges, whatever the values of
-- the operands that are not constants.
pub classify_alias_disjoint :
    (a b : Acquire)
    → classify_alias (acquire a) (acquire b) ≡ no_alias
    → (known_to_differ a.root b.root ≡ true) ⊎ Apart a b
unfolding classify_alias
classify_alias_disjoint a b h = elim (Bool-cases (known_to_differ a.root b.root)) [
  | inl e ↦ inl e
  | inr e ↦ estimate_overlap_disjoint a b (no_alias_disjoint (estimate_overlap a b) (ground arith))
]

-- Two acquires that are found to be the same memory are not known to have different root
-- allocations unless they are one node or one operation, and are one node, one operation or one
-- pointer, or have slices of the same offsets and sizes, whatever the values of the operands that
-- are not constants.
pub classify_alias_same :
    (a b : Acquire)
    → classify_alias (acquire a) (acquire b) ≡ must_alias
    → (a.node ≡ b.node)
      ⊎ ((a.op ≡ b.op)
          ⊎ ((known_to_differ a.root b.root ≡ false) × ((a.ptr ≡ b.ptr) ⊎ SameSlice a b)))
unfolding classify_alias
classify_alias_same a b h = elim (Bool-cases (a.node == b.node)) [
  | inl e ↦ inl ((==_iff a.node b.node).0 e)
  | inr e ↦ elim (Bool-cases (a.op == b.op)) [
    | inl f ↦ inr (inl ((==_iff a.op b.op).0 f))
    | inr f ↦ elim (Bool-cases (known_to_differ a.root b.root)) [
      | inl g ↦ absurd (ground arith)
      | inr g ↦
          elim (estimate_overlap_full a b (must_alias_full (estimate_overlap a b) (ground arith))) [
            | inl x ↦ inl x
            | inr y ↦ inr (inr (g, y))
          ]
    ]
  ]
]
