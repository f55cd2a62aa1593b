-- ===== src/EdtGraph/Topological/Order/Whole.antt =====
-- The whole topological order of a task graph, and the tasks that it leaves over.
use mathlib.Core.List.{Perm, reverse}
use carts.Base.{
  ℕ, ◌+◌, ◌≤◌, ◌&&◌, ◌==◌, not, true, false, if◌then◌else◌, List, [], ◌∷◌, ◌++◌, ◌≡◌, refl, ◌∙◌,
  ◌↔◌, ◌⊎◌, arith, length, Bool-cases, inl, inr,
}
use carts.EdtGraph.{EdtGraph, has, out_edges}
use carts.EdtGraph.Visits.{Edge}
use carts.EdtGraph.Topological.{in_degree, keep, topo_order, get_deterministic_topological_order}
use carts.EdtGraph.Topological.Pending.{
  occ, occ-append, occ-reverse, occ-perm, occ-keep, pending_start, has-occ, occ-has,
}
use carts.EdtGraph.Topological.Order.{Follows, Placing, after, open_nodes}
use carts.EdtGraph.Topological.Order.Rounds.{place-Follows, place-length, place-Closed}

open_none : (nodes : List ℕ) → open_nodes nodes [] ≡ length nodes
open_none [] = refl
open_none (n ∷ ns) = omega (arith, open_none ns)

open_zero :
    (nodes done : List ℕ) (n : ℕ)
    → open_nodes nodes done ≡ 0
    → has nodes n ≡ true
    → has done n ≡ true
open_zero [] done n z h = absurd (ground arith)
open_zero (m ∷ ms) done n z h = ground (arith, open_zero ms done n)

pub has-after_iff :
    (done order : List ℕ) (n : ℕ)
    → (has (after done order) n ≡ true) ↔ ((has done n ≡ true) ⊎ (has order n ≡ true))
has-after_iff done [] n = ground arith
has-after_iff done (m ∷ ms) n =
    let (there, back) = has-after_iff (m ∷ done) ms n in
    (λ h. elim (there h) [ inl q ↦ ground arith | inr q ↦ ground arith ], λ h. back (ground arith))

-- Either a predecessor of a node is not placed, or all are.
unplaced_predecessor :
    (nodes order : List ℕ) (edges : List (ℕ × ℕ)) (n : ℕ)
    → ((from : ℕ) × Edge edges from n × (has nodes from ≡ true) × (has order from ≡ false))
      ⊎ ((from : ℕ) → Edge edges from n → has nodes from ≡ true → has order from ≡ true)
unfolding out_edges
unplaced_predecessor nodes order [] n = inr (λ from e m. absurd (ground arith))
unplaced_predecessor nodes order ((a, b) ∷ es) n =
    elim (Bool-cases (b == n && (has nodes a && not (has order a)))) [
      | inl e ↦ inl (a, ground arith, ground arith, ground arith)
      | inr e ↦ elim (unplaced_predecessor nodes order es n) [
        | inl (from, x, y, z) ↦ inl (from, ground arith, y, z)
        | inr all ↦ inr (λ from x m. ground (arith, all from))
      ]
    ]

-- What is placed is in the graph, was not placed before, and is placed once.
Follows-occ :
    (edges : List (ℕ × ℕ)) (nodes before order : List ℕ) (n : ℕ)
    → Follows edges nodes before order
    → occ n order ≤ (if has nodes n && not (has before n) then 1 else 0)
Follows-occ edges nodes before [] n f = omega arith
Follows-occ edges nodes before (m ∷ ms) n (a, b, c, d) =
    ground (arith, Follows-occ edges nodes (m ∷ before) ms n d)

module _ (sort : List ℕ → List ℕ) (sort-perm : (xs : List ℕ) → Perm (sort xs) xs) where
  module _ (g : EdtGraph) (distinct : (n : ℕ) → occ n g.nodes ≤ 1) where
    start-Placing :
        let degree = in_degree g.nodes g.edges in
        Placing g.edges g.nodes [] (reverse (sort (keep (λ n. degree n == 0) g.nodes))) degree
    start-Placing =
        let degree = in_degree g.nodes g.edges in
        let ready = keep (λ n. degree n == 0) g.nodes in
        record {
          counts = λ n h. pending_start g.nodes g.edges n;
          waits = λ n.
              let d = distinct n in
              ground (
                arith,
                occ-reverse n (sort ready),
                occ-perm n (sort ready) ready (sort-perm ready),
                occ-keep n (λ n. degree n == 0) g.nodes,
                has-occ n g.nodes,
                occ-has n g.nodes,
              );
          placed = λ n h. absurd (ground arith);
        }

    topo_order-Follows : Follows g.edges g.nodes [] (topo_order sort g)
    unfolding topo_order
    topo_order-Follows = place-Follows sort sort-perm g.edges g.nodes _ [] _ _ start-Placing

    topo_order-length :
        length (topo_order sort g) + open_nodes g.nodes (after [] (topo_order sort g))
        ≡ length g.nodes
    unfolding topo_order
    topo_order-length =
        place-length sort sort-perm g.edges g.nodes (length g.nodes) [] _ _ distinct start-Placing
        ∙ open_none g.nodes

    topo_order_full :
        (n : ℕ)
        → length (topo_order sort g) ≡ length g.nodes
        → has g.nodes n ≡ true
        → has (topo_order sort g) n ≡ true
    topo_order_full n e h =
        let reached =
          open_zero g.nodes (after [] (topo_order sort g)) n (omega (arith, topo_order-length)) h in
        elim ((has-after_iff [] (topo_order sort g) n).0 reached) [
          | inl q ↦ absurd (ground arith)
          | inr q ↦ q
        ]

    -- A node whose predecessors are placed is placed.
    topo_order_closed :
        (n : ℕ)
        → ((from : ℕ)
            → Edge g.edges from n
            → has g.nodes from ≡ true
            → has (topo_order sort g) from ≡ true)
        → has g.nodes n ≡ true
        → has (topo_order sort g) n ≡ true
    unfolding topo_order
    topo_order_closed n all h =
        let order = topo_order sort g in
        let reached =
          place-Closed sort sort-perm g.edges g.nodes (length g.nodes) [] _ _
            (omega (arith, open_none g.nodes)) start-Placing n h
            (λ from e m. (has-after_iff [] order from).1 (inr (all from e m))) in
        elim ((has-after_iff [] order n).0 reached) [ inl q ↦ absurd (ground arith) | inr q ↦ q ]

    -- What is left over is the rest of the graph.
    leftover-occ :
        (n : ℕ)
        → occ n (get_deterministic_topological_order sort g).1
          ≡ (if has (topo_order sort g) n then 0 else occ n g.nodes)
    unfolding get_deterministic_topological_order
    leftover-occ n =
        let order = topo_order sort g in
        let rest = keep (λ n. not (has order n)) g.nodes in
        elim (Bool-cases (length order == length g.nodes)) [
          | inl e ↦ rw e (ground (arith, topo_order_full n, has-occ n g.nodes, occ-has n g.nodes))
          | inr e ↦ rw e (
              ground (
                arith,
                occ-perm n (sort rest) rest (sort-perm rest),
                occ-keep n (λ n. not (has order n)) g.nodes,
              ))
        ]

    -- For any sort by id, and any graph whose nodes are distinct: the order has each task behind
    -- all its predecessors in the graph, and the order and the tasks left over are together the
    -- tasks of the graph, each once.
    pub get_deterministic_topological_order-Follows :
        let (order, leftover) = get_deterministic_topological_order sort g in
        Follows g.edges g.nodes [] order × ((n : ℕ) → occ n (order ++ leftover) ≡ occ n g.nodes)
    unfolding get_deterministic_topological_order
    get_deterministic_topological_order-Follows = (
      topo_order-Follows,
      λ n.
          let order = topo_order sort g in
          let total = occ-append n order (get_deterministic_topological_order sort g).1 in
          total
          ∙ ground (
            arith,
            leftover-occ n,
            distinct n,
            Follows-occ g.edges g.nodes [] order n topo_order-Follows,
            has-occ n order,
            occ-has n order,
            has-occ n g.nodes,
            occ-has n g.nodes,
          ),
    )

    -- For any sort by id, and any graph whose nodes are distinct: a task is left over only where a
    -- predecessor of it is left over too, so that the tasks left over are on or behind a cycle.
    pub leftover_predecessor :
        (n : ℕ)
        → let (order, leftover) = get_deterministic_topological_order sort g in
          has leftover n ≡ true → (from : ℕ) × Edge g.edges from n × (has leftover from ≡ true)
    leftover_predecessor n h =
        let order = topo_order sort g in
        let leftover = (get_deterministic_topological_order sort g).1 in
        elim (unplaced_predecessor g.nodes order g.edges n) [
          | inl (from, e, m, u) ↦ (
            from,
            e,
            ground (arith, leftover-occ from, has-occ from g.nodes, occ-has from leftover),
          )
          | inr all ↦ absurd (
              ground (
                arith,
                leftover-occ n,
                has-occ n leftover,
                occ-has n g.nodes,
                topo_order_closed n all,
              ))
        ]
