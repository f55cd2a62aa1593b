-- ===== src/EdtGraph/Visits.antt =====
-- One round of the search of the task graph: what it visits, and that it comes closer to its end.
use carts.Base.{
  ℕ, suc, ◌+◌, ◌≤◌, ◌≡◌, ◌≢◌, ◌⊎◌, inl, inr, true, false, ◌&&◌, ◌==◌, if◌then◌else◌, List, [], ◌∷◌,
  arith, refl, sym, subst, ◌∙◌, length, Bool-cases, ==_iff,
}
use carts.EdtGraph.{has, out_edges, Search, visit_edges}

abbrev pub Edge : List (ℕ × ℕ) → ℕ → ℕ → Type 0
Edge edges a b = has (out_edges edges a) b ≡ true

pub has_here : (a b : ℕ) (ns : List ℕ) → a ≡ b → has (a ∷ ns) b ≡ true
has_here a b ns e = ground arith

pub has_later : (a b : ℕ) (ns : List ℕ) → has ns b ≡ true → has (a ∷ ns) b ≡ true
has_later a b ns h = ground arith

pub has_cases : (a b : ℕ) (ns : List ℕ) → has (a ∷ ns) b ≡ true → (a ≡ b) ⊎ (has ns b ≡ true)
has_cases a b ns h = ground arith

differ : (a b : ℕ) → (a == b) ≡ false → a ≢ b
differ a b h e = absurd (ground arith)

-- The edges into tasks that are not visited.
pub open_edges : List (ℕ × ℕ) → List ℕ → ℕ
open_edges [] visited = 0
open_edges (e ∷ es) visited = (if has visited e.1 then 0 else 1) + open_edges es visited

open_edges_shrink :
    (edges : List (ℕ × ℕ)) (visited : List ℕ) (n : ℕ)
    → open_edges edges (n ∷ visited) ≤ open_edges edges visited
unfolding open_edges
open_edges_shrink [] visited n = omega arith
open_edges_shrink (e ∷ es) visited n = let rest = open_edges_shrink es visited n in ground arith

open_edges_drop :
    (edges : List (ℕ × ℕ)) (visited : List ℕ) (a n : ℕ)
    → Edge edges a n
    → has visited n ≡ false
    → suc (open_edges edges (n ∷ visited)) ≤ open_edges edges visited
unfolding open_edges out_edges
open_edges_drop [] visited a n h u = absurd (ground arith)
open_edges_drop ((from, to) ∷ es) visited a n h u =
    let rest = open_edges_shrink es visited n in
    elim (Bool-cases (from == a && to == n)) [
      | inl e ↦
          let same = (==_iff to n).0 (ground arith) in
          let unseen : has visited to ≡ false = subst (λ z. has visited z ≡ false) (sym same) u in
          ground arith
      | inr e ↦ let later = open_edges_drop es visited a n (ground arith) u in ground arith
    ]

-- What the loop over the edges of a task does when it does not meet the target.
pub record Visited (to : ℕ) (nexts visited worklist : List ℕ) (s : Search) : Type 0 where
  pub keeps : (n : ℕ) → has visited n ≡ true → has s.visited n ≡ true
  pub queues : (n : ℕ) → has worklist n ≡ true → has s.worklist n ≡ true
  pub covers : (n : ℕ) → has nexts n ≡ true → (has s.visited n ≡ true) × (n ≢ to)
  pub origin : (n : ℕ) → has s.visited n ≡ true → (has visited n ≡ true) ⊎ (has s.worklist n ≡ true)

pub visit_edges-Visited :
    (to : ℕ) (nexts visited worklist : List ℕ)
    → (visit_edges to nexts visited worklist).found ≡ false
    → Visited to nexts visited worklist (visit_edges to nexts visited worklist)
unfolding visit_edges
visit_edges-Visited to [] visited worklist h = record {
  keeps = λ n e. e;
  queues = λ n e. e;
  covers = λ n e. absurd (ground arith);
  origin = λ n e. inl e;
}
visit_edges-Visited to (next ∷ nexts) visited worklist h = elim (Bool-cases (next == to)) [
  | inl e ↦ absurd (ground arith)
  | inr e ↦ elim (Bool-cases (has visited next)) [
    | inl seen ↦
        let s = visit_edges-Visited to nexts visited worklist (ground arith) in
        rw (e, seen, visit_edges)
          record {
            keeps = s.keeps;
            queues = s.queues;
            covers = λ n k. elim (has_cases next n nexts k) [
              | inl q ↦ (
                s.keeps n (subst (λ z. has visited z ≡ true) q seen),
                λ r. differ next to e (q ∙ r),
              )
              | inr k ↦ s.covers n k
            ];
            origin = s.origin;
          }
    | inr unseen ↦
        let s = visit_edges-Visited to nexts (next ∷ visited) (next ∷ worklist) (ground arith) in
        rw (e, unseen, visit_edges)
          record {
            keeps = λ n k. s.keeps n (has_later next n visited k);
            queues = λ n k. s.queues n (has_later next n worklist k);
            covers = λ n k. elim (has_cases next n nexts k) [
              | inl q ↦ (s.keeps n (has_here next n visited q), λ r. differ next to e (q ∙ r))
              | inr k ↦ s.covers n k
            ];
            origin = λ n k. elim (s.origin n k) [
              | inl k ↦ elim (has_cases next n visited k) [
                | inl q ↦ inr (s.queues n (has_here next n worklist q))
                | inr k ↦ inl k
              ]
              | inr k ↦ inr k
            ];
          }
  ]
]

pub visit_edges_measure :
    (edges : List (ℕ × ℕ)) (a to : ℕ) (nexts visited worklist : List ℕ)
    → ((n : ℕ) → has nexts n ≡ true → Edge edges a n)
    → (visit_edges to nexts visited worklist).found ≡ false
    → let s = visit_edges to nexts visited worklist in
      length s.worklist + open_edges edges s.visited ≤ length worklist + open_edges edges visited
unfolding visit_edges
visit_edges_measure edges a to [] visited worklist f h = omega arith
visit_edges_measure edges a to (next ∷ nexts) visited worklist f h =
    elim (Bool-cases (next == to)) [
      | inl e ↦ absurd (ground arith)
      | inr e ↦ elim (Bool-cases (has visited next)) [
        | inl seen ↦
            rw (e, seen, visit_edges)
              (visit_edges_measure edges a to nexts visited worklist
                (λ n k. f n (has_later next n nexts k)) (ground arith))
        | inr unseen ↦
            let drop =
              open_edges_drop edges visited a next (f next (has_here next next nexts refl))
                unseen in
            let rest =
              visit_edges_measure edges a to nexts (next ∷ visited) (next ∷ worklist)
                (λ n k. f n (has_later next n nexts k)) (ground arith) in
            rw (e, unseen, visit_edges) (omega (arith, drop, rest))
      ]
    ]

pub open_edges-length :
    (edges : List (ℕ × ℕ)) (visited : List ℕ) → open_edges edges visited ≤ length edges
unfolding open_edges
open_edges-length [] visited = omega arith
open_edges-length (e ∷ es) visited = let rest = open_edges-length es visited in ground arith
