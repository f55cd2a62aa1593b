-- ===== src/EdtGraph.antt =====
-- The graph of tasks: lib/carts/dialect/arts/Analysis/graphs/edt/EdtGraph.cpp. A task (EDT) is a
-- number, and an edge a pair of them; an edge's payload is not kept.
pub mod CriticalPath
pub mod Topological
pub mod Visits
pub mod Reachable
mod Examples
use carts.Base.{
  ℕ, zero, suc, Bool, true, false, not, ◌&&◌, ◌||◌, ◌==◌, if◌then◌else◌, List, [], ◌∷◌, ◌++◌, any,
  length,
}

pub record EdtGraph : Type 0 where
  pub nodes : List ℕ
  pub edges : List (ℕ × ℕ)

-- invalidate leaves a graph without nodes and edges.
abbrev pub invalidate : EdtGraph
invalidate = record { nodes = []; edges = [] }

abbrev pub has : List ℕ → ℕ → Bool
has ns n = any (λ m. m == n) ns

abbrev pub has_edge : List (ℕ × ℕ) → ℕ → ℕ → Bool
has_edge edges a b = any (λ e. e.0 == a && e.1 == b) edges

unfoldable pub get_or_create_node : EdtGraph → ℕ → EdtGraph
get_or_create_node g n = if has g.nodes n then g else record g { nodes = g.nodes ++ (n ∷ []) }

-- An edge that is there already is not added again.
unfoldable pub add_edge : EdtGraph → ℕ → ℕ → EdtGraph × Bool
add_edge g from to =
    if has_edge g.edges from to
    then (g, false)
    else (record g { edges = g.edges ++ ((from, to) ∷ []) }, true)

-- The targets of the edges out of a node, in the order in which the edges were added.
unfoldable pub out_edges : List (ℕ × ℕ) → ℕ → List ℕ
out_edges [] n = []
out_edges ((from, to) ∷ es) n = let rest = out_edges es n in if from == n then to ∷ rest else rest

-- A search in progress; the back of the work list is its head here.
pub record Search : Type 0 where
  pub found : Bool
  pub visited : List ℕ
  pub worklist : List ℕ

-- The loop over the edges out of the current node; it ends at an edge to the target.
pub visit_edges : ℕ → List ℕ → List ℕ → List ℕ → Search
visit_edges to [] visited worklist = record {
  found = false;
  visited = visited;
  worklist = worklist;
}
visit_edges to (next ∷ nexts) visited worklist =
    let skipped = visit_edges to nexts visited worklist in
    let pushed = visit_edges to nexts (next ∷ visited) (next ∷ worklist) in
    if next == to
    then record { found = true; visited = visited; worklist = worklist }
    else if has visited next
    then skipped
    else pushed

-- The loop over the work list, on fuel.
pub search : List (ℕ × ℕ) → ℕ → ℕ → List ℕ → List ℕ → Bool
search edges to zero visited worklist = false
search edges to (suc fuel) visited [] = false
search edges to (suc fuel) visited (current ∷ worklist) =
    let s = visit_edges to (out_edges edges current) visited worklist in
    let rest = search edges to fuel s.visited s.worklist in if s.found then true else rest

-- Each task is taken from the work list once, and but for the first it is put there by an edge.
pub is_edt_reachable : EdtGraph → ℕ → ℕ → Bool
unfolding search
is_edt_reachable g from to =
    if has g.nodes from && has g.nodes to
    then search g.edges to (suc (length g.edges)) (from ∷ []) (from ∷ [])
    else false

-- DbUtils::hasSharedWritableRootConflict is a parameter.
unfoldable pub are_edts_independent : (ℕ → ℕ → Bool) → EdtGraph → ℕ → ℕ → Bool
are_edts_independent conflict g a b =
    if a == b then false else if has g.nodes a && has g.nodes b then not (conflict a b) else false
