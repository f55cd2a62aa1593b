-- ===== src/EdtGraph/Topological/Pending.antt =====
-- How often a node stands in a list, and how many edges into it come from nodes not yet placed.
use mathlib.Core.List.{Perm, Permᴰ, reverse, reverse-cons}
use mathlib.Core.Logic.{∥∥₁_elim}
use native.Mathlib.Nat.{ℕ_set}
use carts.Base.{
  ℕ, ◌+◌, ◌<◌, Bool, true, false, not, ◌&&◌, ◌==◌, if◌then◌else◌, List, [], ◌∷◌, ◌++◌, ◌≡◌, refl,
  ap, ◌∙◌, arith,
}
use carts.EdtGraph.{has, out_edges}
use carts.EdtGraph.Visits.{Edge}
use carts.EdtGraph.Topological.{in_degree, keep}

abbrev pub occ : ℕ → List ℕ → ℕ
occ n [] = 0
occ n (m ∷ ms) = (if m == n then 1 else 0) + occ n ms

pub occ-append : (n : ℕ) (xs ys : List ℕ) → occ n (xs ++ ys) ≡ occ n xs + occ n ys
occ-append n [] ys = omega arith
occ-append n (x ∷ xs) ys = omega (arith, occ-append n xs ys)

pub occ-reverse : (n : ℕ) (xs : List ℕ) → occ n (reverse xs) ≡ occ n xs
occ-reverse n [] = refl
occ-reverse n (x ∷ xs) =
    ap (occ n) (reverse-cons x xs)
    ∙ omega (arith, occ-append n (reverse xs) (x ∷ []), occ-reverse n xs)

occ-Permᴰ : (n : ℕ) {xs ys : List ℕ} → Permᴰ xs ys → occ n xs ≡ occ n ys
occ-Permᴰ n (Permᴰ.nil) = refl
occ-Permᴰ n (Permᴰ.cons e p) = ground (arith, occ-Permᴰ n p)
occ-Permᴰ n (Permᴰ.swap {a = a} {b = b} {l = l} e g) = rw (← e, ← g) (omega arith)
occ-Permᴰ n (Permᴰ.trans p q) = occ-Permᴰ n p ∙ occ-Permᴰ n q

pub occ-perm : (n : ℕ) (xs ys : List ℕ) → Perm xs ys → occ n xs ≡ occ n ys
occ-perm n xs ys p = ∥∥₁_elim p (ℕ_set _ _) (occ-Permᴰ n)

pub occ-keep :
    (n : ℕ) (p : ℕ → Bool) (ns : List ℕ) → occ n (keep p ns) ≡ (if p n then occ n ns else 0)
unfolding keep
occ-keep n p [] = ground arith
occ-keep n p (m ∷ ms) = ground (arith, occ-keep n p ms)

pub has-occ : (n : ℕ) (ns : List ℕ) → has ns n ≡ true → 0 < occ n ns
has-occ n [] h = absurd (ground arith)
has-occ n (m ∷ ms) h = ground (arith, has-occ n ms)

pub occ-has : (n : ℕ) (ns : List ℕ) → has ns n ≡ false → occ n ns ≡ 0
occ-has n [] h = refl
occ-has n (m ∷ ms) h = ground (arith, occ-has n ms)

-- The edges into a node from nodes of the graph that are not placed.
pub pending : List ℕ → List ℕ → List (ℕ × ℕ) → ℕ → ℕ
pending nodes done [] n = 0
pending nodes done ((from, to) ∷ es) n =
    (if to == n && (has nodes from && not (has done from)) then 1 else 0) + pending nodes done es n

pub pending_start :
    (nodes : List ℕ) (edges : List (ℕ × ℕ)) (n : ℕ)
    → in_degree nodes edges n ≡ pending nodes [] edges n
unfolding pending in_degree
pending_start nodes [] n = refl
pending_start nodes ((from, to) ∷ es) n = ground (arith, pending_start nodes es n)

-- Placing a node takes away its edges.
pub pending_place :
    (nodes done : List ℕ) (edges : List (ℕ × ℕ)) (current n : ℕ)
    → has nodes current ≡ true
    → has done current ≡ false
    → pending nodes (current ∷ done) edges n + occ n (out_edges edges current)
      ≡ pending nodes done edges n
unfolding pending out_edges
pending_place nodes done [] current n h u = refl
pending_place nodes done ((from, to) ∷ es) current n h u =
    ground (arith, pending_place nodes done es current n)

-- Where none are left, the predecessors are placed.
pub pending_none :
    (nodes done : List ℕ) (edges : List (ℕ × ℕ)) (n from : ℕ)
    → pending nodes done edges n ≡ 0
    → Edge edges from n
    → has nodes from ≡ true
    → has done from ≡ true
unfolding pending out_edges
pending_none nodes done [] n from h e m = absurd (ground arith)
pending_none nodes done ((a, b) ∷ es) n from h e m =
    ground (arith, pending_none nodes done es n from)

pub pending_all :
    (nodes done : List ℕ) (edges : List (ℕ × ℕ)) (n : ℕ)
    → ((from : ℕ) → Edge edges from n → has nodes from ≡ true → has done from ≡ true)
    → pending nodes done edges n ≡ 0
unfolding pending out_edges
pending_all nodes done [] n f = refl
pending_all nodes done ((a, b) ∷ es) n f =
    let rest = pending_all nodes done es n (λ c e m. f c (ground arith) m) in
    let first = f a in ground (arith, first)
