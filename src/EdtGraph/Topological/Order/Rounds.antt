-- ===== src/EdtGraph/Topological/Order/Rounds.antt =====
-- One round of the topological order, and all of them by induction on the fuel.
use mathlib.Core.List.{Perm, reverse}
use carts.Base.{
  ℕ, zero, suc, ◌+◌, ◌≤◌, ◌==◌, true, false, List, [], ◌∷◌, ◌++◌, ◌≡◌, refl, sym, ◌∙◌, arith,
  length, Bool-cases, inl, inr,
}
use carts.EdtGraph.{has, out_edges}
use carts.EdtGraph.Visits.{Edge}
use carts.EdtGraph.Topological.{release, place}
use carts.EdtGraph.Topological.Pending.{
  occ, occ-append, occ-reverse, occ-perm, pending_place, pending_none, pending_all, has-occ,
}
use carts.EdtGraph.Topological.Release.{release_lem, release_other}
use carts.EdtGraph.Topological.Order.{Follows, Placing, after, open_nodes}

pub open_place :
    (nodes done : List ℕ) (n : ℕ)
    → has done n ≡ false
    → open_nodes nodes (n ∷ done) + occ n nodes ≡ open_nodes nodes done
open_place [] done n u = refl
open_place (m ∷ ms) done n u = ground (arith, open_place ms done n)

pub has-after : (done order : List ℕ) (n : ℕ) → has done n ≡ true → has (after done order) n ≡ true
has-after done [] n h = h
has-after done (m ∷ ms) n h = has-after (m ∷ done) ms n (ground arith)

module _ (sort : List ℕ → List ℕ) (sort-perm : (xs : List ℕ) → Perm (sort xs) xs) where
  queued : (n : ℕ) (xs ys : List ℕ) → occ n (reverse (sort xs) ++ ys) ≡ occ n xs + occ n ys
  queued n xs ys = omega (
    arith,
    occ-append n (reverse (sort xs)) ys,
    occ-reverse n (sort xs),
    occ-perm n (sort xs) xs (sort-perm xs),
  )

  module _ (edges : List (ℕ × ℕ)) (nodes : List ℕ) where
    -- The node at the head of the work list is ready to be placed.
    current_ready :
        (done worklist : List ℕ) (degree : ℕ → ℕ) (current : ℕ)
        → Placing edges nodes done (current ∷ worklist) degree
        → (has nodes current ≡ true) × (degree current ≡ 0) × (has done current ≡ false)
    current_ready done worklist degree current v =
        let w = v.waits current in (ground arith, ground arith, ground arith)

    round-Placing :
        (done worklist : List ℕ) (degree : ℕ → ℕ) (current : ℕ)
        → Placing edges nodes done (current ∷ worklist) degree
        → let r = release nodes (out_edges edges current) degree [] in
          Placing edges nodes (current ∷ done) (reverse (sort r.successors) ++ worklist) r.degree
    round-Placing done worklist degree current v =
        let tos = out_edges edges current in
        let r = release nodes tos degree [] in
        let (member, none_left, unplaced) = current_ready done worklist degree current v in
        let fits : (n : ℕ) → has nodes n ≡ true → occ n tos ≤ degree n = λ n h.
          omega (arith, v.counts n h, pending_place nodes done edges current n member unplaced) in
        record {
          counts = λ n h. omega (
            arith,
            v.counts n h,
            pending_place nodes done edges current n member unplaced,
            (release_lem nodes tos degree [] n h (fits n h)).0,
          );
          waits = λ n. queued n r.successors worklist ∙ elim (Bool-cases (has nodes n)) [
            | inr e ↦ let w = v.waits n in ground (arith, release_other nodes tos degree [] n)
            | inl e ↦
                let w = v.waits n in
                let (falls, joins) = release_lem nodes tos degree [] n e (fits n e) in
                ground (arith, v.placed n)
          ];
          placed = λ n h. elim (Bool-cases (current == n)) [
            | inl e ↦
                let (falls, joins) =
                  release_lem nodes tos degree [] current member (fits current member) in
                ground arith
            | inr e ↦
                let (m, z) = v.placed n (ground arith) in
                let (falls, joins) = release_lem nodes tos degree [] n m (fits n m) in ground arith
          ];
        }

    pub place-Follows :
        (fuel : ℕ) (done worklist : List ℕ) (degree : ℕ → ℕ)
        → Placing edges nodes done worklist degree
        → Follows edges nodes done (place sort edges nodes fuel worklist degree)
    unfolding place
    place-Follows zero done worklist degree v = tt
    place-Follows (suc fuel) done [] degree v = tt
    place-Follows (suc fuel) done (current ∷ worklist) degree v =
        let (member, none_left, unplaced) = current_ready done worklist degree current v in
        (
          member,
          unplaced,
          λ from e m.
              pending_none nodes done edges current from (sym (v.counts current member) ∙ none_left)
                e m,
          place-Follows fuel (current ∷ done) _ _ (round-Placing done worklist degree current v),
        )

    -- Each node that is placed was not placed before.
    pub place-length :
        (fuel : ℕ) (done worklist : List ℕ) (degree : ℕ → ℕ)
        → ((n : ℕ) → occ n nodes ≤ 1)
        → Placing edges nodes done worklist degree
        → let order = place sort edges nodes fuel worklist degree in
          length order + open_nodes nodes (after done order) ≡ open_nodes nodes done
    unfolding place
    place-length zero done worklist degree distinct v = omega arith
    place-length (suc fuel) done [] degree distinct v = omega arith
    place-length (suc fuel) done (current ∷ worklist) degree distinct v =
        let (member, none_left, unplaced) = current_ready done worklist degree current v in
        omega (
          arith,
          open_place nodes done current unplaced,
          has-occ current nodes member,
          distinct current,
          place-length fuel (current ∷ done) _ _ distinct
              (round-Placing done worklist degree current v),
        )

    -- With fuel for the nodes that are open, a node whose predecessors are placed is placed.
    pub place-Closed :
        (fuel : ℕ) (done worklist : List ℕ) (degree : ℕ → ℕ)
        → open_nodes nodes done ≤ fuel
        → Placing edges nodes done worklist degree
        → let order = place sort edges nodes fuel worklist degree in
          (n : ℕ)
          → has nodes n ≡ true
          → ((from : ℕ)
              → Edge edges from n
              → has nodes from ≡ true
              → has (after done order) from ≡ true)
          → has (after done order) n ≡ true
    unfolding place
    place-Closed zero done [] degree le v n h f =
        let w = v.waits n in
        let c = v.counts n h in let p = pending_all nodes done edges n f in ground arith
    place-Closed zero done (current ∷ worklist) degree le v n h f =
        let (member, none_left, unplaced) = current_ready done worklist degree current v in
        absurd (omega (arith, open_place nodes done current unplaced, has-occ current nodes member))
    place-Closed (suc fuel) done [] degree le v n h f =
        let w = v.waits n in
        let c = v.counts n h in let p = pending_all nodes done edges n f in ground arith
    place-Closed (suc fuel) done (current ∷ worklist) degree le v n h f =
        let (member, none_left, unplaced) = current_ready done worklist degree current v in
        let fits = open_place nodes done current unplaced in
        let here = has-occ current nodes member in
        place-Closed fuel (current ∷ done) _ _ (omega arith)
          (round-Placing done worklist degree current v) n h f
