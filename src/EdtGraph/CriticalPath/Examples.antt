-- ===== src/EdtGraph/CriticalPath/Examples.antt =====
-- A task graph with a task that depends on itself, and its topological order.
use carts.Base.{ℕ, ◌≤◌, ◌≡◌, true, some, [], ◌∷◌, ◌++◌, refl, arith}
use carts.Foreign.Reference.{llvm}
use carts.EdtGraph.{EdtGraph, has}
use carts.EdtGraph.Visits.{Edge}
use carts.EdtGraph.Topological.{get_deterministic_topological_order}
use carts.EdtGraph.Topological.Pending.{occ}
use carts.EdtGraph.Topological.Order.{Follows}
use carts.EdtGraph.Topological.Order.Whole.{
  get_deterministic_topological_order-Follows, leftover_predecessor,
}
use carts.EdtGraph.CriticalPath.{analyze_critical_path, find}
use carts.EdtGraph.CriticalPath.Longest.{analyze_critical_path_longest, Walk}

-- 1 to 2, 2 and 1 to 3, 4 to itself.
abbrev tasks : EdtGraph
tasks = record { nodes = 1 ∷ 2 ∷ 3 ∷ 4 ∷ []; edges = (1, 2) ∷ (2, 3) ∷ (1, 3) ∷ (4, 4) ∷ [] }

tasks_order :
    get_deterministic_topological_order llvm.sort_descending tasks ≡ (1 ∷ 2 ∷ 3 ∷ [], 4 ∷ [])
unfolding get_deterministic_topological_order
tasks_order = refl

tasks_distances :
    analyze_critical_path llvm.sort_descending tasks ≡ (1, 0) ∷ (2, 1) ∷ (3, 2) ∷ (4, 0) ∷ []
unfolding analyze_critical_path
tasks_distances = refl

tasks_distinct : (n : ℕ) → occ n tasks.nodes ≤ 1
tasks_distinct n = ground arith

get_deterministic_topological_order-Follows_example :
    let (order, leftover) = get_deterministic_topological_order llvm.sort_descending tasks in
    Follows tasks.edges tasks.nodes [] order
    × ((n : ℕ) → occ n (order ++ leftover) ≡ occ n tasks.nodes)
get_deterministic_topological_order-Follows_example =
    get_deterministic_topological_order-Follows llvm.sort_descending llvm.sort_descending-perm tasks
      tasks_distinct

leftover_predecessor_example :
    (from : ℕ) × Edge tasks.edges from 4
    × (has (get_deterministic_topological_order llvm.sort_descending tasks).1 from ≡ true)
unfolding get_deterministic_topological_order
leftover_predecessor_example =
    leftover_predecessor llvm.sort_descending llvm.sort_descending-perm tasks tasks_distinct 4 refl

analyze_critical_path_longest_example :
    (d : ℕ) × (find (analyze_critical_path llvm.sort_descending tasks) 3 ≡ some d)
    × Walk tasks.edges tasks.nodes d 3
    × ((k : ℕ) → Walk tasks.edges tasks.nodes k 3 → k ≤ d)
unfolding get_deterministic_topological_order
analyze_critical_path_longest_example =
    analyze_critical_path_longest llvm.sort_descending llvm.sort_descending-perm tasks
      tasks_distinct 3 refl
