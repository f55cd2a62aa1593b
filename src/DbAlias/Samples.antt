-- ===== src/DbAlias/Samples.antt =====
-- Acquires of one datablock for examples.
use carts.Base.{ℕ, some, [], ◌∷◌}
use carts.Base.Int.{pos}
use carts.Loop.{constant, unknown}
use carts.DbAlias.{ArtsMode, Acquire}

-- Ten indices from a constant, of allocation 1.
abbrev pub ten_from : ℕ → ArtsMode → ℕ → ℕ → Acquire
ten_from node mode user first = record {
  node = node;
  op = node;
  ptr = node;
  root = some 1;
  parent = 1;
  mode = mode;
  user = some user;
  offsets = constant (pos first) ∷ [];
  sizes = constant (pos 10) ∷ [];
  partition_offsets = unknown 0 ∷ [];
  partition_sizes = constant (pos 10) ∷ [];
}
