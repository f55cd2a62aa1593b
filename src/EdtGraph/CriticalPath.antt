-- ===== src/EdtGraph/CriticalPath.antt =====
-- lib/carts/dialect/arts/Transforms/edt/EdtTransformsPass.cpp, analyzeCriticalPath: the distance of
-- each task from the tasks that wait for nothing. A map of distances is an association list, and
-- the distances, below the number of tasks, are natural numbers.
pub mod Longest
mod Examples
use carts.Base.{ℕ, suc, ◌==◌, if◌then◌else◌, Option, none, some, List, [], ◌∷◌, ◌++◌, map, max}
use carts.EdtGraph.{EdtGraph}
use carts.EdtGraph.Topological.{get_deterministic_topological_order}

unfoldable pub find : List (ℕ × ℕ) → ℕ → Option ℕ
find [] n = none
find ((m, d) ∷ ms) n = if m == n then some d else find ms n

-- distance[node], which is 0 where none is stored.
abbrev pub or_zero : Option ℕ → ℕ
or_zero none = 0
or_zero (some d) = d

unfoldable pub in_edges : List (ℕ × ℕ) → ℕ → List ℕ
in_edges [] n = []
in_edges ((from, to) ∷ es) n = if to == n then from ∷ in_edges es n else in_edges es n

abbrev pub at_least_behind : ℕ → Option ℕ → ℕ
at_least_behind dist none = dist
at_least_behind dist (some d) = max dist (suc d)

-- The loop over the edges into a task.
unfoldable pub max_behind : List (ℕ × ℕ) → List ℕ → ℕ → ℕ
max_behind distance [] dist = dist
max_behind distance (from ∷ froms) dist =
    max_behind distance froms (at_least_behind dist (find distance from))

-- The loop over the topological order.
unfoldable pub distances : List (ℕ × ℕ) → List ℕ → List (ℕ × ℕ) → List (ℕ × ℕ)
unfolding max_behind in_edges
distances edges [] distance = distance
distances edges (n ∷ ns) distance =
    distances edges ns ((n, max_behind distance (in_edges edges n) 0) ∷ distance)

-- What each task is annotated with, in order.
unfoldable pub analyze_critical_path : (List ℕ → List ℕ) → EdtGraph → List (ℕ × ℕ)
unfolding distances get_deterministic_topological_order find
analyze_critical_path sort g =
    let (order, leftover) = get_deterministic_topological_order sort g in
    let distance = distances g.edges order [] in
    map (λ n. (n, or_zero (find distance n))) order ++ map (λ n. (n, 0)) leftover
