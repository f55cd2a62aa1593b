-- ===== src/EdtGraph/Reachable.antt =====
-- The search of the task graph finds exactly the tasks that a path leads to.
use carts.Base.{
  ℕ, zero, suc, ◌+◌, ◌≤◌, ◌≡◌, ◌≢◌, ◌⊎◌, ◌↔◌, inl, inr, true, ◌==◌, List, [], ◌∷◌, arith, refl, sym,
  subst, length, Bool-cases, ==_iff,
}
use carts.EdtGraph.{EdtGraph, has, out_edges, Search, visit_edges, search, is_edt_reachable}
use carts.EdtGraph.Visits.{
  Edge, has_here, has_later, has_cases, open_edges, open_edges-length, visit_edges-Visited,
  visit_edges_measure, Visited,
}

-- A path of one edge or more.
pub data Reaches (edges : List (ℕ × ℕ)) : ℕ → ℕ → Type 0 where
  last : {a b : ℕ} → Edge edges a b → Reaches edges a b
  step : {a b c : ℕ} → Edge edges a b → Reaches edges b c → Reaches edges a c

snoc : (edges : List (ℕ × ℕ)) (a b c : ℕ) → Reaches edges a b → Edge edges b c → Reaches edges a c
snoc edges a b c (last e) f = step e (last f)
snoc edges a b c (step e p) f = step e (snoc edges _ b c p f)

-- Each visited task is queued, or all its edges lead to visited tasks and none to the target.
Closed : List (ℕ × ℕ) → ℕ → List ℕ → List ℕ → Type 0
Closed edges to visited worklist =
    (n : ℕ)
    → has visited n ≡ true
    → (has worklist n ≡ true) ⊎ ((t : ℕ) → Edge edges n t → (has visited t ≡ true) × (t ≢ to))

no_way :
    (edges : List (ℕ × ℕ)) (to : ℕ) (visited : List ℕ) (a b : ℕ)
    → Closed edges to visited []
    → has visited a ≡ true
    → Reaches edges a b
    → b ≢ to
unfolding Closed
no_way edges to visited a b c h (last e) = elim (c a h) [
  | inl q ↦ absurd (ground arith)
  | inr f ↦ (f b e).1
]
no_way edges to visited a b c h (step {b = m} e p) = elim (c a h) [
  | inl q ↦ absurd (ground arith)
  | inr f ↦ no_way edges to visited m b c (f m e).0 p
]

round-Closed :
    (edges : List (ℕ × ℕ)) (to current : ℕ) (visited worklist : List ℕ) (s : Search)
    → Visited to (out_edges edges current) visited worklist s
    → Closed edges to visited (current ∷ worklist)
    → Closed edges to s.visited s.worklist
unfolding Closed
round-Closed edges to current visited worklist s v c n h = elim (v.origin n h) [
  | inr q ↦ inl q
  | inl old ↦ elim (c n old) [
    | inr f ↦ inr (λ t e. (v.keeps t (f t e).0, (f t e).1))
    | inl queued ↦ elim (has_cases current n worklist queued) [
      | inr q ↦ inl (v.queues n q)
      | inl same ↦ inr (λ t e. v.covers t (subst (λ z. Edge edges z t) (sym same) e))
    ]
  ]
]

search_complete :
    (edges : List (ℕ × ℕ)) (to fuel : ℕ) (visited worklist : List ℕ) (a : ℕ)
    → length worklist + open_edges edges visited ≤ fuel
    → Closed edges to visited worklist
    → has visited a ≡ true
    → Reaches edges a to
    → search edges to fuel visited worklist ≡ true
unfolding search
search_complete edges to zero visited [] a m c h p =
    absurd (no_way edges to visited a to c h p refl)
search_complete edges to zero visited (w ∷ ws) a m c h p = absurd (omega arith)
search_complete edges to (suc fuel) visited [] a m c h p =
    absurd (no_way edges to visited a to c h p refl)
search_complete edges to (suc fuel) visited (w ∷ ws) a m c h p =
    let s = visit_edges to (out_edges edges w) visited ws in
    elim (Bool-cases s.found) [
      | inl e ↦ rw (e, search) refl
      | inr e ↦
          let v = visit_edges-Visited to (out_edges edges w) visited ws e in
          let closer = visit_edges_measure edges w to (out_edges edges w) visited ws (λ n k. k) e in
          rw (e, search)
            (search_complete edges to fuel s.visited s.worklist a (omega arith)
              (round-Closed edges to w visited ws s v c) (v.keeps a h) p)
    ]

-- An edge to the target is among those looked at, where one is found.
visit_edges_found :
    (to : ℕ) (nexts visited worklist : List ℕ)
    → (visit_edges to nexts visited worklist).found ≡ true
    → has nexts to ≡ true
unfolding visit_edges
visit_edges_found to [] visited worklist h = absurd (ground arith)
visit_edges_found to (next ∷ nexts) visited worklist h = elim (Bool-cases (next == to)) [
  | inl e ↦ has_here next to nexts ((==_iff next to).0 e)
  | inr e ↦ elim (Bool-cases (has visited next)) [
    | inl seen ↦
        has_later next to nexts (visit_edges_found to nexts visited worklist (ground arith))
    | inr unseen ↦
        has_later next to nexts
          (visit_edges_found to nexts (next ∷ visited) (next ∷ worklist) (ground arith))
  ]
]

-- What is queued afterwards was queued before or is the end of an edge.
visit_edges_queued :
    (to : ℕ) (nexts visited worklist : List ℕ) (n : ℕ)
    → has (visit_edges to nexts visited worklist).worklist n ≡ true
    → (has worklist n ≡ true) ⊎ (has nexts n ≡ true)
unfolding visit_edges
visit_edges_queued to [] visited worklist n h = inl h
visit_edges_queued to (next ∷ nexts) visited worklist n h = elim (Bool-cases (next == to)) [
  | inl e ↦ inl (ground arith)
  | inr e ↦ elim (Bool-cases (has visited next)) [
    | inl seen ↦ elim (visit_edges_queued to nexts visited worklist n (ground arith)) [
      | inl q ↦ inl q
      | inr q ↦ inr (has_later next n nexts q)
    ]
    | inr unseen ↦
        elim (visit_edges_queued to nexts (next ∷ visited) (next ∷ worklist) n (ground arith)) [
          | inl q ↦ elim (has_cases next n worklist q) [
            | inl same ↦ inr (has_here next n nexts same)
            | inr q ↦ inl q
          ]
          | inr q ↦ inr (has_later next n nexts q)
        ]
  ]
]

abbrev Met : List (ℕ × ℕ) → ℕ → ℕ → Type 0
Met edges from n = (n ≡ from) ⊎ Reaches edges from n

extend :
    (edges : List (ℕ × ℕ)) (from n t : ℕ) → Met edges from n → Edge edges n t → Reaches edges from t
extend edges from n t (inl q) e = last (subst (λ z. Edge edges z t) q e)
extend edges from n t (inr p) e = snoc edges from n t p e

search_sound :
    (edges : List (ℕ × ℕ)) (from to fuel : ℕ) (visited worklist : List ℕ)
    → ((n : ℕ) → has worklist n ≡ true → Met edges from n)
    → search edges to fuel visited worklist ≡ true
    → Reaches edges from to
unfolding search
search_sound edges from to zero visited worklist f h = absurd (ground arith)
search_sound edges from to (suc fuel) visited [] f h = absurd (ground arith)
search_sound edges from to (suc fuel) visited (w ∷ ws) f h =
    let nexts = out_edges edges w in
    let s = visit_edges to nexts visited ws in
    let met = f w (has_here w w ws refl) in
    elim (Bool-cases s.found) [
      | inl e ↦ extend edges from w to met (visit_edges_found to nexts visited ws e)
      | inr e ↦
          search_sound edges from to fuel s.visited s.worklist
            (λ n q. elim (visit_edges_queued to nexts visited ws n q) [
              | inl q ↦ f n (has_later w n ws q)
              | inr q ↦ inr (extend edges from w n met q)
            ])
            (ground arith)
    ]

start-Closed : (edges : List (ℕ × ℕ)) (to from : ℕ) → Closed edges to (from ∷ []) (from ∷ [])
unfolding Closed
start-Closed edges to from n h = inl h

-- A task is reported to be reachable from another exactly when both are in the graph and a path of
-- at least one edge leads from the other to it, also on a cycle back to the task itself: the
-- search ends, finds no path that is not there, and misses none.
pub is_edt_reachable_iff :
    (g : EdtGraph) (from to : ℕ)
    → (is_edt_reachable g from to ≡ true)
      ↔ ((has g.nodes from ≡ true) × (has g.nodes to ≡ true) × Reaches g.edges from to)
unfolding is_edt_reachable
is_edt_reachable_iff g from to = (
  (λ h. (
    ground arith,
    ground arith,
    search_sound g.edges from to (suc (length g.edges)) (from ∷ []) (from ∷ [])
        (λ n q. elim (has_cases from n [] q) [
          | inl same ↦ inl (sym same)
          | inr q ↦ absurd (ground arith)
        ])
        (ground arith),
  )),
  λ (a, b, p).
      rw (a, b, is_edt_reachable)
        (search_complete g.edges to (suc (length g.edges)) (from ∷ []) (from ∷ []) from
          (omega (arith, open_edges-length g.edges (from ∷ []))) (start-Closed g.edges to from)
          (has_here from from [] refl) p),
)
