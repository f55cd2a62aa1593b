-- ===== src/Partition.antt =====
-- The partition modes of data blocks (include/carts/dialect/arts/IR/ArtsAttrs.td), and which of them
-- an ownership proof takes for partitioned in blocks.
use carts.Base.{Bool, true, false, Option, none, some}

pub data PartitionMode : Type 0 where
  coarse block fine_grained stencil : PartitionMode

-- An absent mode is compatible.
unfoldable pub block_compatible : Option PartitionMode → Bool
block_compatible none = true
block_compatible (some coarse) = false
block_compatible (some fine_grained) = false
block_compatible (some block) = true
block_compatible (some stencil) = true
