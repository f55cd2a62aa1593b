-- ===== src/EdtGraph/Examples.antt =====
-- A small task graph, and instances of the theorem about it.
use carts.Base.{true, [], ◌∷◌, ◌≡◌, ◌↔◌}
use carts.EdtGraph.{EdtGraph, is_edt_reachable}
use carts.EdtGraph.Reachable.{Reaches, is_edt_reachable_iff}

-- 1 to 2, 2 to 3 and back to 2.
abbrev loop : EdtGraph
loop = record { nodes = 1 ∷ 2 ∷ 3 ∷ []; edges = (1, 2) ∷ (2, 3) ∷ (3, 2) ∷ [] }

is_edt_reachable_iff_example :
    (is_edt_reachable loop 1 3 ≡ true) ↔ ((true ≡ true) × (true ≡ true) × Reaches loop.edges 1 3)
is_edt_reachable_iff_example = is_edt_reachable_iff loop 1 3
