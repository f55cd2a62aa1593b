-- ===== src/Sizing.antt =====
-- lib/carts/dialect/sde/Utils/IterationSizingUtils.cpp: the grid of workers over the dimensions of
-- an iteration space. A loop that the source writes with `while` or with a tested `for` recurs on
-- fuel and keeps its state when the fuel is gone; Sizing/Factors shows that it never is.
pub mod Factors
pub mod Grid
mod Examples
use carts.Base.{
  ℕ, zero, suc, ◌+◌, ◌*◌, ◌/◌, ◌%◌, ◌≤◌, Bool, true, false, ◌&&◌, ◌||◌, List, [], ◌∷◌, ◌++◌, ltb,
  leb, ◌==◌, if◌then◌else◌, length, get_or, set, replicate, all, max,
}
use carts.Base.Int.{ℤ, pos, negsuc, pos_part, ltb_ℤ}
use carts.Foreign.{Llvm, Float}

-- std::max<int64_t>(1, value)
abbrev pub at_least_one : ℤ → ℕ
at_least_one v = max 1 (pos_part v)

-- The inner loop: takes the factor out of what remains as often as it divides it.
unfoldable pub strip : ℕ → ℕ → ℕ → List ℕ → List ℕ × ℕ
strip zero factor remaining factors = (factors, remaining)
strip (suc fuel) factor remaining factors =
    let rest = strip fuel factor (remaining / factor) (factors ++ (factor ∷ [])) in
    if remaining % factor == 0 then rest else (factors, remaining)

-- The outer loop, over the candidate factors.
unfoldable pub collect : ℕ → ℕ → ℕ → List ℕ → List ℕ × ℕ
collect zero factor remaining factors = (factors, remaining)
collect (suc fuel) factor remaining factors =
    let stripped = strip remaining factor remaining factors in
    let rest = collect fuel (factor + 1) stripped.1 stripped.0 in
    if leb (factor * factor) remaining then rest else (factors, remaining)

-- The factors of the worker count, before they are sorted.
unfoldable pub factors_of : ℕ → List ℕ
factors_of workers =
    let found = collect workers 2 workers [] in
    if ltb 1 found.1 then found.0 ++ (found.1 ∷ []) else found.0

abbrev pub is_empty {ℓ} : {A : Type ℓ} → List A → Bool
is_empty [] = true
is_empty (x ∷ xs) = false

-- grid[dim] *= factor
abbrev pub multiply_at : List ℕ → ℕ → ℕ → List ℕ
multiply_at grid dim factor = set grid dim (get_or grid dim 1 * factor)

-- max(0, haloRadii[idx]), and 0 past the end of haloRadii
abbrev pub halo_at : List ℤ → ℕ → ℕ
halo_at halos idx = pos_part (get_or halos idx (pos 0))

module _ (L : Llvm) where
  unfoldable pub ceil_div_positive : ℤ → ℤ → ℕ
  ceil_div_positive value divisor = L.divide_ceil (at_least_one value) (at_least_one divisor)

  -- The loop over the extents: the first dimension whose tile is widest.
  unfoldable pub widest : List ℤ → List ℕ → ℕ → ℕ → ℤ → ℕ
  widest [] grid idx best_dim best_span = best_dim
  widest (extent ∷ extents) grid idx best_dim best_span =
      let span = pos (ceil_div_positive extent (pos (get_or grid idx 1))) in
      let wider = ltb_ℤ best_span span in
      widest extents grid (idx + 1) (if wider then idx else best_dim)
        (if wider then span else best_span)

  unfoldable pub distribute : List ℤ → List ℕ → List ℕ → List ℕ
  distribute extents [] grid = grid
  distribute extents (factor ∷ factors) grid =
      distribute extents factors (multiply_at grid (widest extents grid 0 0 (negsuc 0)) factor)

  unfoldable pub factor_workers_across_dims : ℤ → List ℤ → List ℕ
  factor_workers_across_dims workers extents =
      let grid = replicate (length extents) 1 in
      if ltb_ℤ workers (pos 2) || is_empty extents
      then grid
      else distribute extents (L.sort_descending (factors_of (pos_part workers))) grid

  module _ (F : Float) where
    open F use {Real}

    -- The loop of estimateStencilExpandedTileRatio, from dimension `idx`.
    pub tile_volumes : List ℤ → List ℤ → List ℕ → ℕ → Real → Real → Real × Real
    tile_volumes [] halos grid idx owned expanded = (owned, expanded)
    tile_volumes (extent ∷ extents) halos grid idx owned expanded =
        let tile = ceil_div_positive extent (pos (get_or grid idx 1)) in
        let halo = halo_at halos idx in
        tile_volumes extents halos grid (idx + 1) (F.mul owned (F.of_int (pos tile)))
          (F.mul expanded (F.of_int (pos (tile + 2 * halo))))

    pub estimate_stencil_expanded_tile_ratio : List ℤ → List ℤ → List ℕ → Real
    estimate_stencil_expanded_tile_ratio extents halos grid =
        let one = F.of_int (pos 1) in
        let volumes = tile_volumes extents halos grid 0 one one in
        if F.le volumes.0 (F.of_int (pos 0)) then F.infinity else F.div volumes.1 volumes.0

    -- 1.0e-12L
    abbrev epsilon : Real
    epsilon = F.div (F.of_int (pos 1)) (F.of_int (pos 1_000_000_000_000))

    -- The loop over the dimensions that a factor may go to: `left` are the extents still to try.
    pub best_stencil_dim : List ℤ → List ℤ → List ℕ → ℕ → List ℤ → ℕ → ℕ → Real → ℤ → ℕ
    best_stencil_dim extents halos grid factor [] idx best_dim best_ratio best_span = best_dim
    best_stencil_dim extents halos grid factor (extent ∷ left) idx best_dim best_ratio best_span =
        let candidate = multiply_at grid idx factor in
        let ratio = estimate_stencil_expanded_tile_ratio extents halos candidate in
        let span = pos (ceil_div_positive extent (pos (get_or candidate idx 1))) in
        let better =
          F.lt (F.add ratio epsilon) best_ratio
          || (F.le (F.abs (F.sub ratio best_ratio)) epsilon && ltb_ℤ best_span span) in
        best_stencil_dim extents halos grid factor left (idx + 1) (if better then idx else best_dim)
          (if better then ratio else best_ratio) (if better then span else best_span)

    pub distribute_stencil : List ℤ → List ℤ → List ℕ → List ℕ → List ℕ
    distribute_stencil extents halos [] grid = grid
    distribute_stencil extents halos (factor ∷ factors) grid =
        let dim = best_stencil_dim extents halos grid factor extents 0 0 F.infinity (negsuc 0) in
        distribute_stencil extents halos factors (multiply_at grid dim factor)

    pub factor_stencil_workers_across_dims : ℤ → List ℤ → List ℤ → List ℕ
    factor_stencil_workers_across_dims workers extents halos =
        let grid = replicate (length extents) 1 in
        if ltb_ℤ workers (pos 2) || is_empty extents
        then grid
        else if is_empty halos || all (λ halo. ltb_ℤ halo (pos 1)) halos
        then factor_workers_across_dims workers extents
        else distribute_stencil extents halos (L.sort_descending (factors_of (pos_part workers)))
            grid
