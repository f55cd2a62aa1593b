-- ===== src/EdtGraph/Topological/Release.antt =====
-- What the loop over the edges out of the placed node does to a count, and to the work list.
use carts.Base.{
  ℕ, ◌+◌, ◌≤◌, true, false, ◌&&◌, ◌==◌, ltb, if◌then◌else◌, List, [], ◌∷◌, ◌++◌, ◌≡◌, refl, arith,
  Bool-cases, inl, inr,
}
use carts.EdtGraph.{has}
use carts.EdtGraph.Topological.{release, lower}
use carts.EdtGraph.Topological.Pending.{occ, occ-append}

-- A count falls by the edges into the node, and the node is queued, once, if that makes it zero.
pub release_lem :
    (nodes tos : List ℕ) (degree : ℕ → ℕ) (successors : List ℕ) (n : ℕ)
    → has nodes n ≡ true
    → occ n tos ≤ degree n
    → let r = release nodes tos degree successors in
      (r.degree n + occ n tos ≡ degree n)
      × (occ n r.successors
          ≡ occ n successors + (if r.degree n == 0 && ltb 0 (occ n tos) then 1 else 0))
unfolding release
release_lem nodes [] degree successors n h le = ground arith
release_lem nodes (to ∷ tos) degree successors n h le = elim (Bool-cases (has nodes to)) [
  | inr e ↦ rw e (ground (arith, release_lem nodes tos degree successors n))
  | inl e ↦ elim (Bool-cases (lower degree to to == 0)) [
    | inl z ↦
        rw (e, z)
          (ground (
            arith,
            release_lem nodes tos (lower degree to) (successors ++ (to ∷ [])) n,
            occ-append n successors (to ∷ []),
          ))
    | inr z ↦ rw (e, z) (ground (arith, release_lem nodes tos (lower degree to) successors n))
  ]
]

-- A node outside the graph is not queued.
pub release_other :
    (nodes tos : List ℕ) (degree : ℕ → ℕ) (successors : List ℕ) (n : ℕ)
    → has nodes n ≡ false
    → occ n (release nodes tos degree successors).successors ≡ occ n successors
unfolding release
release_other nodes [] degree successors n h = refl
release_other nodes (to ∷ tos) degree successors n h = ground (
  arith,
  release_other nodes tos degree successors n,
  release_other nodes tos (lower degree to) (successors ++ (to ∷ [])) n,
  release_other nodes tos (lower degree to) successors n,
  occ-append n successors (to ∷ []),
)
