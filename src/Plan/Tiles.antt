-- ===== src/Plan/Tiles.antt =====
-- The blocks of a physical plan tile the output.
use carts.Base.{
  ℕ, zero, suc, ◌+◌, ◌*◌, ◌≤◌, ◌<◌, ◌≡◌, ◌≢◌, ◌⊎◌, inl, inr, Option, some, List, [], ◌∷◌, map,
  length, arith, refl, sym, ap, ◌∙◌, subst, get_or, get_elem?, set, get_or-set_self, length-set,
  ==_iff, ◌==◌, get_or-set_ne, Option-cases, Bool-cases, product, false,
}
use carts.Base.Int.{ℤ, pos}
use carts.Foreign.{Llvm}
use carts.Sizing.{at_least_one, is_empty, ceil_div_positive, factor_workers_across_dims}
use carts.Sizing.Grid.{factor_workers_across_dims-product, ceil_div_positive_lem, cell_pos}
use carts.Plan.{
  LoopIndexedOutputPlan, PhysicalPlan, valid_dim, positive_dim, owner_dims_from, extents_of,
  cut_dims, build_loop_indexed_plan,
}

differ : (a b : ℕ) → (a == b) ≡ false → a ≢ b
differ a b h e = absurd (ground arith)

set_self :
    (block : List ℤ) (dim d : ℕ) (v : ℤ)
    → dim ≡ d
    → d < length block
    → get_or (set block dim v) d (pos 0) ≡ v
set_self block dim d v q h =
    ap (λ n. get_or (set block n v) d (pos 0)) q ∙ get_or-set_self block d v (pos 0) h

-- No entry is this dimension.
abbrev pub Unlisted : List ℕ → ℕ → Type 0
Unlisted dims d = (i : ℕ) → get_elem? dims i ≢ some d

Unlisted-empty : (d : ℕ) → Unlisted [] d
Unlisted-empty d i h = absurd (ground arith)

Unlisted-cons : (dim d : ℕ) (dims : List ℕ) → dim ≢ d → Unlisted dims d → Unlisted (dim ∷ dims) d
Unlisted-cons dim d dims other absent zero h = other (ground arith)
Unlisted-cons dim d dims other absent (suc i) h = absent i h

module _ (L : Llvm) where
  -- A dimension that is cut is cut by the cell of one of its entries among the owner dimensions,
  -- which are counted from `idx`.
  abbrev IsCut : List ℤ → List ℕ → ℕ → List ℕ → ℕ → ℤ → Type 0
  IsCut shape grid idx dims d b =
      (i : ℕ) × (get_elem? dims i ≡ some d)
      × (b ≡ pos (ceil_div_positive L (get_or shape d (pos 0)) (pos (get_or grid (idx + i) 1))))

  IsCut-cases :
      (shape : List ℤ) (grid : List ℕ) (idx : ℕ) (dims : List ℕ) (block : List ℤ) (d : ℕ)
      → d < length block
      → ((get_or (cut_dims L shape grid idx dims block) d (pos 0) ≡ get_or block d (pos 0))
          × Unlisted dims d)
        ⊎ IsCut shape grid idx dims d (get_or (cut_dims L shape grid idx dims block) d (pos 0))
  unfolding cut_dims
  IsCut-cases shape grid idx [] block d h = inl (refl, Unlisted-empty d)
  IsCut-cases shape grid idx (dim ∷ dims) block d h =
      let cut = pos (ceil_div_positive L (get_or shape dim (pos 0)) (pos (get_or grid idx 1))) in
      let inside : d < length (set block dim cut) =
        subst (λ n. d < n) (sym (length-set block dim cut)) h in
      elim (IsCut-cases shape grid (suc idx) dims (set block dim cut) d inside) [
        | inr (i, e, b) ↦ inr (
          suc i,
          e,
          b
              ∙ ap (λ n. pos (ceil_div_positive L (get_or shape d (pos 0)) (pos (get_or grid n 1))))
                  (omega arith),
        )
        | inl (e, absent) ↦ elim (Bool-cases (dim == d)) [
          | inl same ↦
              let q = (==_iff dim d).0 same in
              inr (
                0,
                ap some q,
                e
                    ∙ set_self block dim d cut q h
                    ∙ ap
                        (λ n.
                          pos (
                            ceil_div_positive L (get_or shape n (pos 0)) (pos (get_or grid idx 1))))
                        q
                    ∙ ap
                        (λ n.
                          pos
                            (ceil_div_positive L (get_or shape d (pos 0)) (pos (get_or grid n 1))))
                        (omega arith),
              )
          | inr other ↦ inl (
            e ∙ get_or-set_ne block dim d cut (pos 0) (differ dim d other),
            Unlisted-cons dim d dims (differ dim d other) absent,
          )
        ]
      ]

  -- A cut of an extent by a cell of a grid that has no empty cell.
  cut_tile :
      (grid : List ℕ) (i extent : ℕ)
      → 0 < extent
      → 0 < product grid
      → let cell = get_or grid i 1 in
        let tile = ceil_div_positive L (pos extent) (pos cell) in
        (extent ≤ tile * cell) × (tile * cell < extent + cell)
  cut_tile grid i extent h p =
      let positive = cell_pos L grid i p in
      rw (ceil_div_positive_lem L extent (get_or grid i 1) h positive)
        (L.divide_ceil_covers extent _ positive, L.divide_ceil_tight extent _ positive)

  -- What a plan says of one dimension of the output with this extent.
  abbrev pub Tiles : List ℕ → List ℕ → ℕ → ℕ → ℤ → Type 0
  Tiles grid dims d extent b =
      ((b ≡ pos extent) × Unlisted dims d)
      ⊎ ((i tile : ℕ) × (get_elem? dims i ≡ some d)
          × (b ≡ pos tile)
          × (extent ≤ tile * get_or grid i 1)
          × (tile * get_or grid i 1 < extent + get_or grid i 1))

  cut_dims-Tiles :
      (shape : List ℤ) (grid dims : List ℕ) (d extent : ℕ)
      → 0 < product grid
      → d < length shape
      → get_or shape d (pos 0) ≡ pos extent
      → 0 < extent
      → Tiles grid dims d extent (get_or (cut_dims L shape grid 0 dims shape) d (pos 0))
  cut_dims-Tiles shape grid dims d extent p h e x = elim (IsCut-cases shape grid 0 dims shape d h) [
    | inl (same, absent) ↦ inl (same ∙ e, absent)
    | inr (i, found, b) ↦
        let cell = get_or grid i 1 in
        inr (
          i,
          ceil_div_positive L (pos extent) (pos cell),
          found,
          b
              ∙ ap (λ (t : ℤ). pos (ceil_div_positive L t (pos (get_or grid (0 + i) 1)))) e
              ∙ ap (λ n. pos (ceil_div_positive L (pos extent) (pos (get_or grid n 1))))
                  (omega arith),
          (cut_tile grid i extent x p).0,
          (cut_tile grid i extent x p).1,
        )
  ]

owner_dims_from-length :
    (shape : List ℤ) (raws : List (Option ℕ)) (dims : List ℕ)
    → owner_dims_from shape raws ≡ some dims
    → length dims ≡ length raws
unfolding owner_dims_from
owner_dims_from-length shape [] dims h = ground arith
owner_dims_from-length shape (raw ∷ raws) dims h = elim (Option-cases (positive_dim shape raw)) [
  | inl e ↦ absurd (ground arith)
  | inr (n, e) ↦ elim (Option-cases (owner_dims_from shape raws)) [
    | inl d ↦ absurd (ground arith)
    | inr (ns, d) ↦
        let whole : dims ≡ n ∷ ns = ground arith in
        ap length whole ∙ ap suc (owner_dims_from-length shape raws ns d)
  ]
]

length-map {ℓ κ} :
    {A : Type ℓ} {B : Type κ} (f : A → B) (xs : List A) → length (map f xs) ≡ length xs
length-map f [] = refl
length-map f (x ∷ xs) = ap suc (length-map f xs)

listed : (A : Type 0) (xs : List A) → is_empty xs ≡ false → 0 < length xs
listed A [] h = absurd (ground arith)
listed A (x ∷ xs) h = omega arith

module _ (L : Llvm) where
  abbrev grid_of : LoopIndexedOutputPlan → ℤ → List ℕ → List ℕ
  grid_of plan workers dims =
      factor_workers_across_dims L (pos (at_least_one workers)) (extents_of plan.output_shape dims)

  abbrev plan_of : LoopIndexedOutputPlan → ℤ → List ℕ → PhysicalPlan
  plan_of plan workers dims = record {
    owner_dims = dims;
    block_shape = cut_dims L plan.output_shape (grid_of plan workers dims) 0 dims plan.output_shape;
    halo_shape = [];
  }

  loop_indexed_cases :
      (plan : LoopIndexedOutputPlan) (workers : ℤ) (p : PhysicalPlan)
      → build_loop_indexed_plan L plan workers ≡ some p
      → (is_empty plan.owner_physical_dims ≡ false)
        × ((dims : List ℕ) × (owner_dims_from plan.output_shape
                (map (valid_dim plan.output_shape) plan.owner_physical_dims)
              ≡ some dims)
            × (p ≡ plan_of plan workers dims))
  unfolding build_loop_indexed_plan
  loop_indexed_cases plan workers p h =
      elim (Option-cases (
        owner_dims_from plan.output_shape
          (map (valid_dim plan.output_shape) plan.owner_physical_dims))) [
            | inl e ↦ absurd (ground arith)
            | inr (dims, e) ↦ (ground arith, (dims, e, ground arith))
          ]

  plan_of-Tiles :
      (plan : LoopIndexedOutputPlan) (workers : ℤ) (dims : List ℕ) (d extent : ℕ)
      → 0 < length dims
      → d < length plan.output_shape
      → get_or plan.output_shape d (pos 0) ≡ pos extent
      → 0 < extent
      → (product (grid_of plan workers dims) ≡ at_least_one workers)
        × Tiles L
            (grid_of plan workers dims)
            dims
            d
            extent
            (get_or (plan_of plan workers dims).block_shape d (pos 0))
  plan_of-Tiles plan workers dims d extent some_dim h e x =
      let extents = extents_of plan.output_shape dims in
      let (whole, _) =
        factor_workers_across_dims-product L (at_least_one workers) extents (omega arith)
          (subst (λ n. 0 < n) (sym (length-map _ dims)) some_dim) in
      (
        whole,
        cut_dims-Tiles L plan.output_shape (grid_of plan workers dims) dims d extent
            (subst (λ n. 0 < n) (sym whole) (omega arith)) h e x,
      )

  -- When a plan is built from a loop-indexed output, the cells of the worker grid over its owner
  -- dimensions multiply to the number of workers, taken as at least 1, and each dimension of the
  -- output of positive extent either is no owner dimension and keeps its whole extent as its block,
  -- or is an owner dimension whose block, laid out once for each worker of its cell, covers the
  -- extent and is the smallest block that does.
  pub build_loop_indexed_plan-Tiles :
      (plan : LoopIndexedOutputPlan) (workers : ℤ) (p : PhysicalPlan) (d extent : ℕ)
      → build_loop_indexed_plan L plan workers ≡ some p
      → d < length plan.output_shape
      → get_or plan.output_shape d (pos 0) ≡ pos extent
      → 0 < extent
      → let grid =
          factor_workers_across_dims L
            (pos (at_least_one workers))
            (extents_of plan.output_shape p.owner_dims) in
        (product grid ≡ at_least_one workers)
        × Tiles L grid p.owner_dims d extent (get_or p.block_shape d (pos 0))
  build_loop_indexed_plan-Tiles plan workers p d extent h inside e x =
      let (some_dim, (dims, found, whole)) = loop_indexed_cases plan workers p h in
      let size =
        owner_dims_from-length plan.output_shape
          (map (valid_dim plan.output_shape) plan.owner_physical_dims) dims found
        ∙ length-map _ plan.owner_physical_dims in
      let nonempty = subst (λ n. 0 < n) (sym size) (listed ℤ plan.owner_physical_dims some_dim) in
      subst
        (λ (q : PhysicalPlan).
          (product (grid_of plan workers q.owner_dims) ≡ at_least_one workers)
          × Tiles L (grid_of plan workers q.owner_dims) q.owner_dims d extent
              (get_or q.block_shape d (pos 0)))
        (sym whole) (plan_of-Tiles plan workers dims d extent nonempty inside e x)
