-- ===== src/Schedule/Chunk/Bounds.antt =====
-- The chunk of a loop whose trip count is known.
use carts.Base.{
  ℕ, ◌+◌, ◌-◌, ◌*◌, ◌/◌, ◌≤◌, ◌<◌, max, min, ◌≡◌, ◌⊎◌, inl, inr, arith, Bool-cases, leb, subst, sym,
}
use carts.Foreign.{Float, Llvm}
use carts.Cost.{CostModel}
use carts.Sizing.{at_least_one}
use carts.Schedule.Chunk.{clamp, static_chunk}

le_antisymm : (a b : ℕ) → a ≤ b → b ≤ a → a ≡ b
le_antisymm a b h k = omega arith

below : (d q b x : ℕ) → x < d * b + b → q * b ≤ x → q ≤ d
below d q b x h k = grind arith

pub clamp_lem : (low d t : ℕ) → 1 ≤ low → 1 ≤ t → clamp (max low d) 1 t ≡ min (max low d) t
clamp_lem low d t h k = ground arith

covers : (c d w t : ℕ) → d ≤ c → t ≤ d * w → t ≤ c * w
covers c d w t h k = grind arith

times_positive : (t w : ℕ) → 1 ≤ w → t ≤ t * w
times_positive t w h = grind arith

pub covers_min : (c d w t : ℕ) → 1 ≤ w → d ≤ c → t ≤ d * w → t ≤ min c t * w
covers_min c d w t p h k = elim (Bool-cases (leb c t)) [
  | inl e ↦ subst (λ z. t ≤ z * w) (ground arith) (covers c d w t h k)
  | inr e ↦ subst (λ z. t ≤ z * w) (ground arith) (times_positive t w p)
]

-- The chunk of t iterations for w workers and the minimum `low`, with d = ceil(t / w).
chunk_bounds :
    (low d w t : ℕ)
    → 1 ≤ low
    → 1 ≤ t
    → 1 ≤ w
    → t ≤ d * w
    → (1 ≤ clamp (max low d) 1 t)
      × (clamp (max low d) 1 t ≤ t)
      × ((low ≤ clamp (max low d) 1 t) ⊎ (clamp (max low d) 1 t ≡ t))
      × (t ≤ clamp (max low d) 1 t * w)
chunk_bounds low d w t hl ht hw h = (
  ground arith,
  ground arith,
  ground arith,
  subst (λ z. t ≤ z * w) (sym (clamp_lem low d t hl ht))
      (covers_min (max low d) d w t hw (omega arith) h),
)

module _ (L : Llvm) where
  pub divide_ceil_lem : (a b : ℕ) → 0 < b → L.divide_ceil a b ≡ (a + b - 1) / b
  divide_ceil_lem a b h =
      let q = (a + b - 1) / b in
      let covers = L.divide_ceil_covers a b h in
      let tight = L.divide_ceil_tight a b h in
      le_antisymm (L.divide_ceil a b) q
        (below q (L.divide_ceil a b) b (a + b - 1) (grind arith) (omega arith))
        (below (L.divide_ceil a b) q b (a + b - 1) (omega arith) (grind arith))

  -- For a trip count of at least 1, the chunk of a loop is between 1 and the trip count, it is at
  -- least the configured minimum of iterations unless it is the whole loop, and as many chunks as
  -- the machine has workers cover the loop.
  pub static_chunk-bounds :
      (F : Float) (m : CostModel F) (trip_count : ℕ)
      → 1 ≤ trip_count
      → (1 ≤ static_chunk L F m trip_count)
        × (static_chunk L F m trip_count ≤ trip_count)
        × ((at_least_one m.get_min_iterations_per_worker ≤ static_chunk L F m trip_count)
            ⊎ (static_chunk L F m trip_count ≡ trip_count))
        × (trip_count ≤ static_chunk L F m trip_count * at_least_one m.get_logical_worker_capacity)
  unfolding static_chunk
  static_chunk-bounds F m trip_count h =
      chunk_bounds (at_least_one m.get_min_iterations_per_worker)
        (L.divide_ceil trip_count (at_least_one m.get_logical_worker_capacity))
        (at_least_one m.get_logical_worker_capacity) trip_count (omega arith) h (omega arith)
        (L.divide_ceil_covers trip_count (at_least_one m.get_logical_worker_capacity) (omega arith))
