-- ===== src/EdtGraph/Topological.antt =====
-- EdtGraph.cpp, getDeterministicTopologicalOrder. A count of edges, an unsigned in the code, is a
-- natural number, since a graph has fewer than 2 ^ 32 edges; lowering a 0 wraps around.
pub mod Pending
pub mod Release
pub mod Order
use mathlib.Core.List.{reverse}
use carts.Base.{
  ℕ, zero, suc, ◌+◌, Bool, not, ◌&&◌, ◌==◌, if◌then◌else◌, List, [], ◌∷◌, ◌++◌, length,
}
use carts.EdtGraph.{EdtGraph, has, out_edges}

-- The edges into a node from nodes of the graph.
unfoldable pub in_degree : List ℕ → List (ℕ × ℕ) → ℕ → ℕ
in_degree nodes [] n = 0
in_degree nodes ((from, to) ∷ es) n =
    (if to == n && has nodes from then 1 else 0) + in_degree nodes es n

abbrev pub decrement : ℕ → ℕ
decrement zero = 4294967295
decrement (suc n) = n

abbrev pub lower : (ℕ → ℕ) → ℕ → ℕ → ℕ
lower degree to n = if n == to then decrement (degree n) else degree n

pub record Released : Type 0 where
  pub degree : ℕ → ℕ
  pub successors : List ℕ

-- The loop over the edges out of the node that is placed.
unfoldable pub release : List ℕ → List ℕ → (ℕ → ℕ) → List ℕ → Released
release nodes [] degree successors = record { degree = degree; successors = successors }
release nodes (to ∷ tos) degree successors =
    let skipped = release nodes tos degree successors in
    let lowered =
      release nodes tos (lower degree to)
        (if lower degree to to == 0 then successors ++ (to ∷ []) else successors) in
    if has nodes to then lowered else skipped

unfoldable pub keep : (ℕ → Bool) → List ℕ → List ℕ
keep p [] = []
keep p (n ∷ ns) = if p n then n ∷ keep p ns else keep p ns

-- Sorting by hierarchical id is the parameter.
module _ (sort_edt_nodes_by_hier_id : List ℕ → List ℕ) where
  -- The loop over the work list, whose back is its head here, on fuel. It gives the nodes in the
  -- order in which they are placed.
  unfoldable pub place : List (ℕ × ℕ) → List ℕ → ℕ → List ℕ → (ℕ → ℕ) → List ℕ
  unfolding release out_edges
  place edges nodes zero worklist degree = []
  place edges nodes (suc fuel) [] degree = []
  place edges nodes (suc fuel) (current ∷ worklist) degree =
      let r = release nodes (out_edges edges current) degree [] in
      current
      ∷ place edges nodes fuel (reverse (sort_edt_nodes_by_hier_id r.successors) ++ worklist)
          r.degree

  unfoldable pub topo_order : EdtGraph → List ℕ
  unfolding place keep in_degree
  topo_order g =
      let degree = in_degree g.nodes g.edges in
      place g.edges g.nodes (length g.nodes)
        (reverse (sort_edt_nodes_by_hier_id (keep (λ n. degree n == 0) g.nodes))) degree

  -- The nodes in order, and those left over. Each round places another node, so the nodes are
  -- rounds enough.
  unfoldable pub get_deterministic_topological_order : EdtGraph → List ℕ × List ℕ
  unfolding topo_order
  get_deterministic_topological_order g =
      let order = topo_order g in
      (
        order,
        if length order == length g.nodes
            then []
            else sort_edt_nodes_by_hier_id (keep (λ n. not (has order n)) g.nodes),
      )
