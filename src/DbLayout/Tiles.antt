-- ===== src/DbLayout/Tiles.antt =====
-- The blocks of a resolved layout tile the datablock.
use carts.Base.{
  ℕ, zero, suc, ◌+◌, ◌*◌, ◌≤◌, ◌<◌, true, false, ◌==◌, Option, none, some, List, [], ◌∷◌, ◌≡◌, ◌⊎◌,
  inl, inr, refl, sym, ap, ◌∙◌, subst, arith, length, get_elem?, Bool-cases, Option-cases, ==_iff,
}
use carts.Base.Int.{ℤ, pos, negsuc, ltb_ℤ}
use carts.Loop.{Value}
use carts.Schedule.Chunk.Run.{modulus}
use carts.DbLayout.{
  IndexExpr, value, index, ceil_div_positive_index, DbPhysicalLayoutPlan, has_dim, owner_dims_from,
  block_for, block_sizes_from, outer_sizes_of, block_size_for, inner_size, inner_sizes_from,
  plan_from, plan_of, resolve_physical_db_layout_plan, read_i64_array_attr,
}
use carts.DbLayout.Run.{word_of, eval, ceil_div_lem, quotient_covers, quotient_least}

-- Dimensions below the rank, none of them among those seen, nor twice.
abbrev pub Owners : ℕ → List ℕ → List ℕ → Type 0
Owners rank seen [] = Unit
Owners rank seen (d ∷ ds) = (d < rank) × (has_dim seen d ≡ false) × Owners rank (d ∷ seen) ds

-- An owner dimension with the block and the number of blocks in its place.
abbrev pub OwnerAt : ℕ → ℤ → IndexExpr → List ℕ → List ℤ → List IndexExpr → Type 0
OwnerAt i b o (d ∷ ds) (c ∷ cs) (p ∷ ps) = ((d ≡ i) × (c ≡ b) × (p ≡ o)) ⊎ OwnerAt i b o ds cs ps
OwnerAt i b o _ _ _ = ⊥

-- The blocks cover the extent, and no fewer of them do, where the arithmetic does not wrap around.
abbrev pub Covers : Value → ℕ → IndexExpr → Type 0
Covers extent n o =
    (given : ℕ → ℕ)
    → word_of given extent + n < modulus
    → (word_of given extent ≤ eval given o * n)
      × ((m : ℕ) → word_of given extent ≤ m * n → eval given o ≤ m)

-- A dimension of the datablock is whole in each block, or is an owner dimension cut into blocks.
abbrev pub Cut : DbPhysicalLayoutPlan → ℕ → Value → Type 0
Cut plan i extent =
    ((has_dim plan.partitioned_dims i ≡ false)
      × (get_elem? plan.inner_sizes i ≡ some (value extent)))
    ⊎ ((n : ℕ) × (o : IndexExpr) × OwnerAt i (pos n) o plan.partitioned_dims plan.block_sizes
          plan.outer_sizes
        × (0 < n)
        × (get_elem? plan.inner_sizes i ≡ some (index (pos n)))
        × Covers extent n o)

owner_dims-Owners :
    (rank : ℕ) (seen : List ℕ) (owners : List ℤ) (dims : List ℕ)
    → owner_dims_from rank seen owners ≡ some dims
    → Owners rank seen dims
unfolding owner_dims_from
owner_dims-Owners rank seen [] dims h =
    let same : [] ≡ dims = ground arith in subst (Owners rank seen) same tt
owner_dims-Owners rank seen (negsuc n ∷ rest) dims h = absurd (ground arith)
owner_dims-Owners rank seen (pos d ∷ rest) dims h =
    elim (Option-cases (owner_dims_from rank (d ∷ seen) rest)) [
      | inl e ↦ absurd (ground arith)
      | inr (ds, e) ↦
          let same : d ∷ ds ≡ dims = ground arith in
          subst (Owners rank seen) same
            (ground arith, ground arith, owner_dims-Owners rank (d ∷ seen) rest ds e)
    ]

-- Each block that is found is positive.
AllPositive : List ℤ → Type 0
AllPositive [] = Unit
AllPositive (b ∷ bs) = (ltb_ℤ (pos 0) b ≡ true) × AllPositive bs

block_sizes-AllPositive :
    (rank : ℕ) (shape : List ℤ) (slot : ℕ) (dims : List ℕ) (bs : List ℤ)
    → block_sizes_from rank shape slot dims ≡ some bs
    → AllPositive bs
unfolding block_sizes_from AllPositive
block_sizes-AllPositive rank shape slot [] bs h =
    let same : [] ≡ bs = ground arith in subst AllPositive same tt
block_sizes-AllPositive rank shape slot (d ∷ ds) bs h =
    elim (Option-cases (block_for rank shape slot d)) [
      | inl e ↦ absurd (ground arith)
      | inr (b, e) ↦ elim (Option-cases (block_sizes_from rank shape (suc slot) ds)) [
        | inl f ↦ absurd (ground arith)
        | inr (cs, f) ↦
            let same : b ∷ cs ≡ bs = ground arith in
            subst AllPositive same
              (ground arith, block_sizes-AllPositive rank shape (suc slot) ds cs f)
      ]
    ]

ceil_div-Covers :
    (extent : Value) (n : ℕ)
    → 0 < n
    → Covers extent n (ceil_div_positive_index (value extent) (index (pos n)))
ceil_div-Covers extent n h given fits =
    let w = word_of given extent in
    let e = ceil_div_lem given extent n h fits in
    (
      subst (λ q. w ≤ q * n) (sym e) (quotient_covers w n h),
      λ m k. subst (λ q. q ≤ m) (sym e) (quotient_least w n m h k),
    )

-- What is found for an owner dimension.
abbrev Found : List ℕ → List ℤ → ℕ → Value → List IndexExpr → Type 0
Found dims bs i extent os =
    (n : ℕ) × (o : IndexExpr) × OwnerAt i (pos n) o dims bs os
    × (0 < n)
    × (block_size_for dims bs i ≡ some (pos n))
    × Covers extent n o

owner-Found :
    (extents : List Value) (dims : List ℕ) (bs : List ℤ) (os : List IndexExpr) (i : ℕ)
    (extent : Value)
    → outer_sizes_of extents dims bs ≡ some os
    → AllPositive bs
    → get_elem? extents i ≡ some extent
    → has_dim dims i ≡ true
    → Found dims bs i extent os
unfolding outer_sizes_of AllPositive block_size_for
owner-Found extents [] bs os i extent h p e m = absurd (ground arith)
owner-Found extents (d ∷ ds) [] os i extent h p e m = absurd (ground arith)
owner-Found extents (d ∷ ds) (negsuc n ∷ bs) os i extent h (p, ps) e m = absurd (ground arith)
owner-Found extents (d ∷ ds) (pos n ∷ bs) os i extent h (p, ps) e m =
    elim (Option-cases (get_elem? extents d)) [
      | inl f ↦ absurd (ground arith)
      | inr (x, f) ↦ elim (Option-cases (outer_sizes_of extents ds bs)) [
        | inl g ↦ absurd (ground arith)
        | inr (ps', g) ↦
            let o = ceil_div_positive_index (value x) (index (pos n)) in
            let same : o ∷ ps' ≡ os = ground arith in
            subst (Found (d ∷ ds) (pos n ∷ bs) i extent) same (elim (Bool-cases (d == i)) [
              | inl q ↦
                  let found : x ≡ extent = ground arith in
                  (
                    n,
                    o,
                    inl ((==_iff d i).0 q, refl, refl),
                    ground arith,
                    rw q refl,
                    subst (λ v. Covers v n o) found (ceil_div-Covers x n (ground arith)),
                  )
              | inr q ↦
                  let (k, r, at, pk, bk, ck) =
                    owner-Found extents ds bs ps' i extent g ps e (ground arith) in
                  (k, r, inr at, pk, rw q bk, ck)
            ])
      ]
    ]

no_owner :
    (dims : List ℕ) (bs : List ℤ) (i : ℕ) → has_dim dims i ≡ false → block_size_for dims bs i ≡ none
unfolding block_size_for
no_owner [] bs i h = refl
no_owner (d ∷ ds) [] i h = refl
no_owner (d ∷ ds) (b ∷ bs) i h = ground (arith, no_owner ds bs i)

inner_sizes_get :
    (dims : List ℕ) (bs : List ℤ) (k i : ℕ) (extents : List Value) (extent : Value)
    → get_elem? extents i ≡ some extent
    → get_elem? (inner_sizes_from dims bs k extents) i
      ≡ some (inner_size (block_size_for dims bs (k + i)) extent)
unfolding inner_sizes_from
inner_sizes_get dims bs k i [] extent h = absurd (ground arith)
inner_sizes_get dims bs k zero (e ∷ es) extent h =
    let same : e ≡ extent = ground arith in
    let at : k ≡ k + 0 = omega arith in
    ap (λ v. some (inner_size (block_size_for dims bs k) v)) same
    ∙ ap (λ j. some (inner_size (block_size_for dims bs j) extent)) at
inner_sizes_get dims bs k (suc i) (e ∷ es) extent h =
    let at : suc k + i ≡ k + suc i = omega arith in
    inner_sizes_get dims bs (suc k) i es extent h
    ∙ ap (λ j. some (inner_size (block_size_for dims bs j) extent)) at

plan_from-Cut :
    (extents : List Value) (dims : List ℕ) (bs : List ℤ) (plan : DbPhysicalLayoutPlan) (i : ℕ)
    (extent : Value)
    → plan_from extents dims bs ≡ some plan
    → AllPositive bs
    → get_elem? extents i ≡ some extent
    → Cut plan i extent
plan_from-Cut extents dims bs plan i extent h p e =
    elim (Option-cases (outer_sizes_of extents dims bs)) [
      | inl f ↦ absurd (ground arith)
      | inr (os, f) ↦
          let built : DbPhysicalLayoutPlan = record {
            block_sizes = bs;
            partitioned_dims = dims;
            outer_sizes = os;
            inner_sizes = inner_sizes_from dims bs 0 extents;
          } in
          let inner = inner_sizes_get dims bs 0 i extents extent e in
          let start : 0 + i ≡ i = omega arith in
          let same : built ≡ plan = ground arith in
          subst (λ r. Cut r i extent) same
            (elim (Bool-cases (has_dim dims i)) [
              | inr out ↦ inl (
                out,
                inner
                    ∙ ap (λ b. some (inner_size b extent))
                        (ap (block_size_for dims bs) start ∙ no_owner dims bs i out),
              )
              | inl own ↦
                  let (n, o, at, pn, bn, cn) = owner-Found extents dims bs os i extent f p e own in
                  inr (
                    n,
                    o,
                    at,
                    pn,
                    inner
                        ∙ ap (λ b. some (inner_size b extent))
                            (ap (block_size_for dims bs) start ∙ bn),
                    cn,
                  )
            ])
    ]

plan_from_dims :
    (extents : List Value) (dims : List ℕ) (bs : List ℤ) (plan : DbPhysicalLayoutPlan)
    → plan_from extents dims bs ≡ some plan
    → dims ≡ plan.partitioned_dims
plan_from_dims extents dims bs plan h = elim (Option-cases (outer_sizes_of extents dims bs)) [
  | inl f ↦ absurd (ground arith)
  | inr (os, f) ↦ ground arith
]

plan_of-Cut :
    (extents : List Value) (owners shape : List ℤ) (plan : DbPhysicalLayoutPlan)
    → plan_of extents owners shape ≡ some plan
    → Owners (length extents) [] plan.partitioned_dims
      × ((i : ℕ) (extent : Value) → get_elem? extents i ≡ some extent → Cut plan i extent)
unfolding plan_of
plan_of-Cut extents owners shape plan h =
    elim (Option-cases (owner_dims_from (length extents) [] owners)) [
      | inl e ↦ absurd (ground arith)
      | inr (dims, e) ↦ elim (Option-cases (block_sizes_from (length extents) shape 0 dims)) [
        | inl f ↦ absurd (ground arith)
        | inr (bs, f) ↦
            let built : plan_from extents dims bs ≡ some plan = ground arith in
            (
              subst (Owners (length extents) []) (plan_from_dims extents dims bs plan built)
                  (owner_dims-Owners (length extents) [] owners dims e),
              λ i extent x.
                  plan_from-Cut extents dims bs plan i extent built
                    (block_sizes-AllPositive (length extents) shape 0 dims bs f) x,
            )
      ]
    ]

-- Of a layout that is resolved, the owner dimensions are different dimensions of the datablock, and
-- each dimension is whole in every block, or is an owner dimension with a positive block size, the
-- extent of the block in that dimension, whose blocks cover the dimension and are as few as do,
-- wherever the extent and the block size add up to a 64-bit word.
pub resolve_physical_db_layout_plan-Cut :
    (owner_attr shape_attr : Option (List (Option ℤ))) (extents : List Value)
    (plan : DbPhysicalLayoutPlan)
    → resolve_physical_db_layout_plan owner_attr shape_attr extents ≡ some plan
    → Owners (length extents) [] plan.partitioned_dims
      × ((i : ℕ) (extent : Value) → get_elem? extents i ≡ some extent → Cut plan i extent)
unfolding resolve_physical_db_layout_plan
resolve_physical_db_layout_plan-Cut owner_attr shape_attr extents plan h =
    elim (Option-cases (read_i64_array_attr owner_attr)) [
      | inl e ↦ absurd (ground arith)
      | inr (owners, e) ↦ elim (Option-cases (read_i64_array_attr shape_attr)) [
        | inl f ↦ absurd (ground arith)
        | inr (shape, f) ↦ plan_of-Cut extents owners shape plan (ground arith)
      ]
    ]
