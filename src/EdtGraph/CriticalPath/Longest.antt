-- ===== src/EdtGraph/CriticalPath/Longest.antt =====
-- The distance of a task is the length of the longest path to it.
use mathlib.Core.List.{Perm}
use carts.Base.{
  ℕ, zero, suc, ◌≤◌, ◌<◌, ◌==◌, true, false, if◌then◌else◌, some, List, [], ◌∷◌, ◌++◌, ◌≡◌, ◌⊎◌,
  refl, sym, ◌∙◌, subst, map, max, arith, inl, inr, Bool-cases, Option-cases, is_some, ==_iff,
}
use carts.EdtGraph.{EdtGraph, has, out_edges}
use carts.EdtGraph.Visits.{Edge, has_cases}
use carts.EdtGraph.Topological.{get_deterministic_topological_order}
use carts.EdtGraph.Topological.Pending.{occ}
use carts.EdtGraph.Topological.Order.{Follows, after}
use carts.EdtGraph.Topological.Order.Whole.{
  has-after_iff, get_deterministic_topological_order-Follows,
}
use carts.EdtGraph.CriticalPath.{
  find, or_zero, in_edges, max_behind, at_least_behind, distances, analyze_critical_path,
}

-- A path of so many edges through tasks of the graph to a task.
pub data Walk (edges : List (ℕ × ℕ)) (nodes : List ℕ) : ℕ → ℕ → Type 0 where
  at_start : {n : ℕ} → has nodes n ≡ true → Walk edges nodes zero n
  extend :
      {k from n : ℕ}
      → Walk edges nodes k from
      → Edge edges from n
      → has nodes n ≡ true
      → Walk edges nodes (suc k) n

Walk-end :
    (edges : List (ℕ × ℕ)) (nodes : List ℕ) (k n : ℕ) → Walk edges nodes k n → has nodes n ≡ true
Walk-end edges nodes k n (at_start h) = h
Walk-end edges nodes k n (extend w e h) = h

in_edges_iff :
    (edges : List (ℕ × ℕ)) (from n : ℕ) → has (in_edges edges n) from ≡ has (out_edges edges from) n
unfolding in_edges out_edges
in_edges_iff [] from n = refl
in_edges_iff ((a, b) ∷ es) from n = ground (arith, in_edges_iff es from n)

max_behind_grows :
    (distance : List (ℕ × ℕ)) (froms : List ℕ) (dist : ℕ) → dist ≤ max_behind distance froms dist
unfolding max_behind
max_behind_grows distance [] dist = omega arith
max_behind_grows distance (f ∷ fs) dist =
    let rest = max_behind_grows distance fs (at_least_behind dist (find distance f)) in
    elim (Option-cases (find distance f)) [ inl e ↦ ground arith | inr (d, e) ↦ ground arith ]

max_behind_bounds :
    (distance : List (ℕ × ℕ)) (froms : List ℕ) (dist from d : ℕ)
    → has froms from ≡ true
    → find distance from ≡ some d
    → d < max_behind distance froms dist
unfolding max_behind
max_behind_bounds distance [] dist from d h e = absurd (ground arith)
max_behind_bounds distance (f ∷ fs) dist from d h e =
    let later = at_least_behind dist (find distance f) in
    elim (has_cases f from fs h) [
      | inl same ↦
          let grows = max_behind_grows distance fs later in
          let here : find distance f ≡ some d =
            subst (λ z. find distance z ≡ some d) (sym same) e in
          let big : later ≡ max dist (suc d) = rw here refl in omega arith
      | inr q ↦ max_behind_bounds distance fs later from d q e
    ]

-- The distance is that of the start, or one more than that of an edge's source.
max_behind_attained :
    (distance : List (ℕ × ℕ)) (froms : List ℕ) (dist : ℕ)
    → (max_behind distance froms dist ≡ dist)
      ⊎ ((from : ℕ) × (d : ℕ) × (has froms from ≡ true)
          × (find distance from ≡ some d)
          × (max_behind distance froms dist ≡ suc d))
unfolding max_behind
max_behind_attained distance [] dist = inl refl
max_behind_attained distance (f ∷ fs) dist =
    let later = at_least_behind dist (find distance f) in
    elim (max_behind_attained distance fs later) [
      | inr (from, d, h, e, m) ↦ inr (from, d, ground arith, e, m)
      | inl m ↦ elim (Option-cases (find distance f)) [
        | inl e ↦ inl (m ∙ rw e refl)
        | inr (d, e) ↦
            let big : later ≡ max dist (suc d) = rw e refl in
            elim (Bool-cases (max dist (suc d) == dist)) [
              | inl q ↦ inl (ground arith)
              | inr q ↦ inr (f, d, ground arith, e, ground arith)
            ]
      ]
    ]

module _ (edges : List (ℕ × ℕ)) (nodes : List ℕ) where
  -- The stored distances are those of the tasks placed so far, and are longest paths.
  record Longest (done : List ℕ) (distance : List (ℕ × ℕ)) : Type 0 where
    stored : (n : ℕ) → is_some (find distance n) ≡ has done n
    reached : (n d : ℕ) → find distance n ≡ some d → Walk edges nodes d n
    behind :
        (n d from : ℕ)
        → find distance n ≡ some d
        → Edge edges from n
        → has nodes from ≡ true
        → (e : ℕ) × (find distance from ≡ some e) × (e < d)

  -- A stored distance is kept, since the task placed next has none.
  keeps :
      (n k : ℕ) (done : List ℕ) (distance : List (ℕ × ℕ)) (from e : ℕ)
      → has done n ≡ false
      → is_some (find distance from) ≡ has done from
      → find distance from ≡ some e
      → find ((n, k) ∷ distance) from ≡ some e
  unfolding find
  keeps n k done distance from e u s h = elim (Bool-cases (n == from)) [
    | inr q ↦ rw q h
    | inl q ↦
        let same = (==_iff n from).0 q in
        let gone = subst (λ z. has done z ≡ false) same u in absurd (ground arith)
  ]

  new-Walk :
      (n : ℕ) (distance : List (ℕ × ℕ))
      → has nodes n ≡ true
      → ((m d : ℕ) → find distance m ≡ some d → Walk edges nodes d m)
      → Walk edges nodes (max_behind distance (in_edges edges n) 0) n
  new-Walk n distance member reached = elim (max_behind_attained distance (in_edges edges n) 0) [
    | inl z ↦ subst (λ k. Walk edges nodes k n) (sym z) (at_start member)
    | inr (from, d, h, e, m) ↦
        subst (λ k. Walk edges nodes k n) (sym m)
          (extend (reached from d e) (sym (in_edges_iff edges from n) ∙ h) member)
  ]

  add-Longest :
      (n : ℕ) (done : List ℕ) (distance : List (ℕ × ℕ))
      → has nodes n ≡ true
      → has done n ≡ false
      → ((from : ℕ) → Edge edges from n → has nodes from ≡ true → has done from ≡ true)
      → Longest done distance
      → Longest (n ∷ done) ((n, max_behind distance (in_edges edges n) 0) ∷ distance)
  unfolding find
  add-Longest n done distance member unplaced f l =
      let top = max_behind distance (in_edges edges n) 0 in
      record {
        stored = λ m. ground (arith, l.stored m);
        reached = λ m d e. elim (Bool-cases (n == m)) [
          | inl q ↦
              let height : top ≡ d = ground arith in
              subst (λ z. Walk edges nodes d z) ((==_iff n m).0 q)
                (subst (λ k. Walk edges nodes k n) height (new-Walk n distance member l.reached))
          | inr q ↦ l.reached m d (ground arith)
        ];
        behind = λ m d from e x h. elim (Bool-cases (n == m)) [
          | inl q ↦
              let height : top ≡ d = ground arith in
              let edge = subst (λ z. Edge edges from z) (sym ((==_iff n m).0 q)) x in
              let placed = f from edge h in
              elim (Option-cases (find distance from)) [
                | inl none_stored ↦ absurd (ground (arith, l.stored from))
                | inr (k, found) ↦ (
                  k,
                  keeps n top done distance from k unplaced (l.stored from) found,
                  subst (λ t. k < t) height
                      (max_behind_bounds distance (in_edges edges n) 0 from k
                        (in_edges_iff edges from n ∙ edge) found),
                )
              ]
          | inr q ↦
              let (k, found, below) = l.behind m d from (ground arith) x h in
              (k, keeps n top done distance from k unplaced (l.stored from) found, below)
        ];
      }

  distances-Longest :
      (order done : List ℕ) (distance : List (ℕ × ℕ))
      → Follows edges nodes done order
      → Longest done distance
      → Longest (after done order) (distances edges order distance)
  unfolding distances
  distances-Longest [] done distance f l = l
  distances-Longest (n ∷ ns) done distance (member, unplaced, preds, rest) l =
      distances-Longest ns (n ∷ done) _ rest (add-Longest n done distance member unplaced preds l)

  start-Longest : Longest [] []
  unfolding find
  start-Longest = record {
    stored = λ n. refl;
    reached = λ n d e. absurd (ground arith);
    behind = λ n d from e x h. absurd (ground arith);
  }

  -- A stored distance bounds every path to the task.
  Walk-le :
      (done : List ℕ) (distance : List (ℕ × ℕ)) (k n d : ℕ)
      → Longest done distance
      → Walk edges nodes k n
      → find distance n ≡ some d
      → k ≤ d
  Walk-le done distance k n d l (at_start h) e = omega arith
  Walk-le done distance k n d l (extend {k = j} {from = from} w x h) e =
      let (c, found, below) = l.behind n d from e x (Walk-end edges nodes j from w) in
      let shorter = Walk-le done distance j from c l w found in omega arith

find-map :
    (f : ℕ → ℕ) (ns : List ℕ) (rest : List (ℕ × ℕ)) (n : ℕ)
    → find (map (λ m. (m, f m)) ns ++ rest) n ≡ (if has ns n then some (f n) else find rest n)
unfolding find
find-map f [] rest n = refl
find-map f (m ∷ ms) rest n = ground (arith, find-map f ms rest n)

module _ (sort : List ℕ → List ℕ) (sort-perm : (xs : List ℕ) → Perm (sort xs) xs) where
  -- For any sort by id, and any graph whose nodes are distinct: a task of the topological order is
  -- annotated with the number of edges of a path to it through the graph, and no path to it is
  -- longer.
  pub analyze_critical_path_longest :
      (g : EdtGraph)
      → ((n : ℕ) → occ n g.nodes ≤ 1)
      → (n : ℕ) → has (get_deterministic_topological_order sort g).0 n ≡ true
      → (d : ℕ) × (find (analyze_critical_path sort g) n ≡ some d)
        × Walk g.edges g.nodes d n
        × ((k : ℕ) → Walk g.edges g.nodes k n → k ≤ d)
  unfolding analyze_critical_path
  analyze_critical_path_longest g distinct n h =
      let (order, leftover) = get_deterministic_topological_order sort g in
      let distance = distances g.edges order [] in
      let (follows, whole) =
        get_deterministic_topological_order-Follows sort sort-perm g distinct in
      let l =
        distances-Longest g.edges g.nodes order [] [] follows (start-Longest g.edges g.nodes) in
      let placed = (has-after_iff [] order n).1 (inr h) in
      elim (Option-cases (find distance n)) [
        | inl e ↦ absurd (ground (arith, l.stored n))
        | inr (d, e) ↦ (
          d,
          find-map (λ m. or_zero (find distance m)) order _ n ∙ rw (h, e) refl,
          l.reached n d e,
          λ k w. Walk-le g.edges g.nodes (after [] order) distance k n d l w e,
        )
      ]
