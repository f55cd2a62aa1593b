-- ===== src/EdtGraph/Topological/Order.antt =====
-- The rounds of the topological order: what holds before each, and what follows at the end.
pub mod Rounds
pub mod Whole
use carts.Base.{ℕ, ◌+◌, ◌&&◌, ◌==◌, not, true, false, if◌then◌else◌, List, [], ◌∷◌, ◌≡◌}
use carts.EdtGraph.{has}
use carts.EdtGraph.Visits.{Edge}
use carts.EdtGraph.Topological.Pending.{occ, pending}

-- Each node is placed behind its predecessors in the graph, and once.
abbrev pub Follows : List (ℕ × ℕ) → List ℕ → List ℕ → List ℕ → Type 0
Follows edges nodes before [] = Unit
Follows edges nodes before (n ∷ ns) =
    (has nodes n ≡ true)
    × (has before n ≡ false)
    × ((from : ℕ) → Edge edges from n → has nodes from ≡ true → has before from ≡ true)
    × Follows edges nodes (n ∷ before) ns

-- What holds before each round, of the nodes placed so far.
pub record Placing (edges : List (ℕ × ℕ)) (nodes done worklist : List ℕ) (degree : ℕ → ℕ)
    : Type 0 where
  pub counts : (n : ℕ) → has nodes n ≡ true → degree n ≡ pending nodes done edges n
  pub waits :
      (n : ℕ)
      → occ n worklist ≡ (if has nodes n && (degree n == 0 && not (has done n)) then 1 else 0)
  pub placed : (n : ℕ) → has done n ≡ true → (has nodes n ≡ true) × (degree n ≡ 0)

-- The nodes placed once more are placed.
abbrev pub after : List ℕ → List ℕ → List ℕ
after done [] = done
after done (n ∷ ns) = after (n ∷ done) ns

-- The nodes that are not placed.
abbrev pub open_nodes : List ℕ → List ℕ → ℕ
open_nodes [] done = 0
open_nodes (n ∷ ns) done = (if has done n then 0 else 1) + open_nodes ns done
