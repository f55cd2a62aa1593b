-- ===== src/Schedule.antt =====
-- The scheduling passes of lib/carts/dialect/sde/Transforms/effect/scheduling. A pass visits each
-- loop; a model without a cost model leaves the module alone.
pub mod Refinement
pub mod Chunk
pub mod Reduction
mod Examples
