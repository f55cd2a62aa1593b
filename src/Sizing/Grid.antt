-- ===== src/Sizing/Grid.antt =====
-- What the worker grid of IterationSizingUtils.cpp promises: its cells are the workers, and the
-- tiles that it gives cover each extent.
use native.Mathlib.Nat.{mul_assoc, mul-one, one-mul, ℕ_set}
use mathlib.Core.List.{Perm, Permᴰ}
use mathlib.Core.Logic.{∥∥₁_elim}
use carts.Base.{
  ℕ, zero, suc, ◌+◌, ◌*◌, ◌<◌, ◌≡◌, refl, sym, ◌∙◌, ap, ap₂, List, [], ◌∷◌, arith, false, ◌||◌,
  Bool-cases, inl, inr, product, length, get_or, replicate, all, length-set, length-replicate,
}
use carts.Base.Int.{ℤ, pos, negsuc, ltb_ℤ}
use carts.Foreign.{Llvm, Float}
use carts.Sizing.{
  multiply_at, is_empty, factors_of, ceil_div_positive, widest, distribute,
  factor_workers_across_dims, best_stencil_dim, distribute_stencil,
  factor_stencil_workers_across_dims,
}
use carts.Sizing.Factors.{factors_of-IsPrime}

product-Permᴰ : {xs ys : List ℕ} → Permᴰ xs ys → product xs ≡ product ys
product-Permᴰ Permᴰ.nil = refl
product-Permᴰ (Permᴰ.cons e p) = cc (product-Permᴰ p)
product-Permᴰ (Permᴰ.swap {a = a} {b = b} {l = l} e g) = rw (← e, ← g) (omega arith)
product-Permᴰ (Permᴰ.trans p q) = product-Permᴰ p ∙ product-Permᴰ q

product-perm : (xs ys : List ℕ) → Perm xs ys → product xs ≡ product ys
product-perm xs ys p = ∥∥₁_elim p (ℕ_set _ _) product-Permᴰ

product-multiply_at :
    (grid : List ℕ) (dim factor : ℕ)
    → dim < length grid
    → product (multiply_at grid dim factor) ≡ product grid * factor
product-multiply_at [] dim factor h = absurd (omega arith)
product-multiply_at (g ∷ grid) zero factor h = omega arith
product-multiply_at (g ∷ grid) (suc dim) factor h =
    ap (λ (t : ℕ). g * t) (product-multiply_at grid dim factor (omega arith))
    ∙ sym (mul_assoc g (product grid) factor)

product-replicate : (n : ℕ) → product (replicate n 1) ≡ 1
product-replicate zero = refl
product-replicate (suc n) = one-mul _ ∙ product-replicate n

module _ (L : Llvm) where
  widest-lt :
      (extents : List ℤ) (grid : List ℕ) (idx best : ℕ) (span : ℤ) (n : ℕ)
      → idx + length extents ≡ n
      → best < n
      → widest L extents grid idx best span < n
  unfolding widest
  widest-lt [] grid idx best span n e h = h
  widest-lt (x ∷ xs) grid idx best span n e h =
      widest-lt xs grid (idx + 1) _ _ n (omega (arith, e)) (ground arith)

  -- Each factor multiplies one cell of the grid.
  distribute-product :
      (extents : List ℤ) (factors grid : List ℕ)
      → 0 < length extents
      → length grid ≡ length extents
      → (product (distribute L extents factors grid) ≡ product grid * product factors)
        × (length (distribute L extents factors grid) ≡ length extents)
  unfolding distribute
  distribute-product extents [] grid h e = (sym (mul-one _), e)
  distribute-product extents (f ∷ fs) grid h e =
      let dim = widest L extents grid 0 0 (negsuc 0) in
      let inside : dim < length grid =
        rw e (widest-lt extents grid 0 0 (negsuc 0) _ (omega arith) h) in
      let (p, l) =
        distribute-product extents fs (multiply_at grid dim f) h (length-set grid dim _ ∙ e) in
      (
        p
            ∙ ap (λ (t : ℕ). t * product fs) (product-multiply_at grid dim f inside)
            ∙ mul_assoc (product grid) f (product fs),
        l,
      )

  sorted_factors-product : (w : ℕ) → 0 < w → product (L.sort_descending (factors_of w)) ≡ w
  sorted_factors-product w h =
      product-perm _ _ (L.sort_descending-perm (factors_of w)) ∙ (factors_of-IsPrime w h).1

  -- From the grid of ones, the cells of the finished grid are the workers.
  grid_of_ones :
      (w : ℕ) (extents : List ℤ) (grid : List ℕ)
      → 0 < w
      → (product grid
          ≡ product (replicate (length extents) 1) * product (L.sort_descending (factors_of w)))
        × (length grid ≡ length extents)
      → (product grid ≡ w) × (length grid ≡ length extents)
  grid_of_ones w extents grid h (p, l) = (
    p
        ∙ ap (λ (t : ℕ). t * product (L.sort_descending (factors_of w))) (product-replicate _)
        ∙ one-mul _
        ∙ sorted_factors-product w h,
    l,
  )

  is_empty-length : (extents : List ℤ) → 0 < length extents → is_empty extents ≡ false
  is_empty-length [] h = absurd (omega arith)
  is_empty-length (x ∷ xs) h = refl

  -- For at least one worker and at least one dimension the grid has a cell for each dimension, and
  -- the product of its cells is exactly the number of workers.
  pub factor_workers_across_dims-product :
      (workers : ℕ) (extents : List ℤ)
      → 0 < workers
      → 0 < length extents
      → (product (factor_workers_across_dims L (pos workers) extents) ≡ workers)
        × (length (factor_workers_across_dims L (pos workers) extents) ≡ length extents)
  unfolding factor_workers_across_dims
  factor_workers_across_dims-product w extents h he = elim (Bool-cases (ltb_ℤ (pos w) (pos 2))) [
    | inl few ↦
        let single : w ≡ 1 = ground arith in
        rw few (product-replicate _ ∙ sym single, length-replicate _ 1)
    | inr many ↦
        rw (many, is_empty-length extents he)
          (grid_of_ones w extents _ h
            (distribute-product extents _ _ he (length-replicate (length extents) 1)))
  ]

  module _ (F : Float) where
    best_stencil_dim-lt :
        (extents halos : List ℤ) (grid : List ℕ) (factor : ℕ) (left : List ℤ) (idx best : ℕ)
        (ratio : F.Real) (span : ℤ) (n : ℕ)
        → idx + length left ≡ n
        → best < n
        → best_stencil_dim L F extents halos grid factor left idx best ratio span < n
    unfolding best_stencil_dim
    best_stencil_dim-lt extents halos grid factor [] idx best ratio span n e h = h
    best_stencil_dim-lt extents halos grid factor (x ∷ left) idx best ratio span n e h =
        best_stencil_dim-lt extents halos grid factor left (idx + 1) _ _ _ n (omega (arith, e))
          (ground arith)

    distribute_stencil-product :
        (extents halos : List ℤ) (factors grid : List ℕ)
        → 0 < length extents
        → length grid ≡ length extents
        → (product (distribute_stencil L F extents halos factors grid)
            ≡ product grid * product factors)
          × (length (distribute_stencil L F extents halos factors grid) ≡ length extents)
    unfolding distribute_stencil
    distribute_stencil-product extents halos [] grid h e = (sym (mul-one _), e)
    distribute_stencil-product extents halos (f ∷ fs) grid h e =
        let dim = best_stencil_dim L F extents halos grid f extents 0 0 F.infinity (negsuc 0) in
        let inside : dim < length grid = rw e (
          best_stencil_dim-lt extents halos grid f extents 0 0 F.infinity (negsuc 0) _ (omega arith)
            h) in
        let (p, l) =
          distribute_stencil-product extents halos fs (multiply_at grid dim f) h
            (length-set grid dim _ ∙ e) in
        (
          p
              ∙ ap (λ (t : ℕ). t * product fs) (product-multiply_at grid dim f inside)
              ∙ mul_assoc (product grid) f (product fs),
          l,
        )

    -- For at least one worker and at least one dimension, any halo radii and any floating-point
    -- arithmetic, the stencil grid too has a cell for each dimension, and the product of its cells
    -- is exactly the number of workers.
    pub factor_stencil_workers_across_dims-product :
        (workers : ℕ) (extents halos : List ℤ)
        → 0 < workers
        → 0 < length extents
        → (product (factor_stencil_workers_across_dims L F (pos workers) extents halos) ≡ workers)
          × (length (factor_stencil_workers_across_dims L F (pos workers) extents halos)
              ≡ length extents)
    unfolding factor_stencil_workers_across_dims
    factor_stencil_workers_across_dims-product w extents halos h he =
        elim (Bool-cases (ltb_ℤ (pos w) (pos 2))) [
          | inl few ↦
              let single : w ≡ 1 = ground arith in
              rw few (product-replicate _ ∙ sym single, length-replicate _ 1)
          | inr many ↦
              elim (Bool-cases (is_empty halos || all (λ halo. ltb_ℤ halo (pos 1)) halos)) [
                | inl flat ↦
                    rw (many, is_empty-length extents he, flat)
                      (factor_workers_across_dims-product w extents h he)
                | inr wide ↦
                    rw (many, is_empty-length extents he, wide)
                      (grid_of_ones w extents _ h (
                        distribute_stencil-product extents halos _ _ he
                          (length-replicate (length extents) 1)))
              ]
        ]

  -- A cell of a list of numbers with a positive product is positive.
  pub cell_pos : (grid : List ℕ) (i : ℕ) → 0 < product grid → 0 < get_or grid i 1
  cell_pos [] i h = omega arith
  cell_pos (g ∷ grid) zero h = grind arith
  cell_pos (g ∷ grid) (suc i) h = cell_pos grid i (grind arith)

  pub ceil_div_positive_lem :
      (a b : ℕ) → 0 < a → 0 < b → ceil_div_positive L (pos a) (pos b) ≡ L.divide_ceil a b
  unfolding ceil_div_positive
  ceil_div_positive_lem a b ha hb = ap₂ L.divide_ceil (omega arith) (omega arith)
