-- ===== src/Epoch/Narrow/Cuts.antt =====
-- The cut points of an epoch are exactly the places that no dependence crosses.
use native.Mathlib.Nat.{add_comm, add-zero}
use native.Mathlib.Numerals.{add-one}
use carts.Base.{
  ℕ, zero, suc, ◌+◌, ◌-◌, ◌≤◌, ◌<◌, min, Bool, true, false, leb, if◌then◌else◌, some, List, [], ◌∷◌,
  length, get_elem?, ◌≡◌, refl, sym, ◌∙◌, ap, subst, arith, ◌↔◌,
}
use carts.Epoch.Narrow.{
  BodyOp, operands_min, tail_of, suffix_min, conflicts_min, min_dep, min_deps,
  find_epoch_cut_points,
}
use carts.Epoch.Narrow.Minima.{
  OperandsFrom, operands_min_sound, operands_min_complete, AllFrom, suffix_min-cons, elem, IsCutAt,
  cuts_from_sound, cuts_from_complete,
}

module _ (conflict : BodyOp → BodyOp → Bool) where
  -- No operation before op, and before index i, conflicts with it.
  abbrev pub ConflictsFrom : List BodyOp → ℕ → ℕ → BodyOp → Type 0
  ConflictsFrom ops i j op =
      (k : ℕ) (o : BodyOp) → k < j → get_elem? ops k ≡ some o → conflict op o ≡ true → i ≤ k

  conflicts_min_sound :
      (op : BodyOp) (os : List BodyOp) (i k left acc : ℕ)
      → i ≤ conflicts_min conflict op os k left acc
      → (i ≤ acc)
        × ((t : ℕ) (o : BodyOp)
            → t < left
            → get_elem? os t ≡ some o
            → conflict op o ≡ true
            → i ≤ k + t)
  unfolding conflicts_min
  conflicts_min_sound op os i k zero acc h = (h, λ t o lt at c. absurd (omega arith))
  conflicts_min_sound op [] i k (suc left) acc h = (h, λ t o lt at c. absurd (cc))
  conflicts_min_sound op (x ∷ xs) i k (suc left) acc h =
      let (now, later) = conflicts_min_sound op xs i (k + 1) left _ h in
      (ground arith, λ t o lt at c. place t o lt at c now later)
    where
      place :
          (t : ℕ) (o : BodyOp)
          → t < suc left
          → get_elem? (x ∷ xs) t ≡ some o
          → conflict op o ≡ true
          → i ≤ (if conflict op x then min acc k else acc)
          → ((t : ℕ) (o : BodyOp)
              → t < left
              → get_elem? xs t ≡ some o
              → conflict op o ≡ true
              → i ≤ k + 1 + t)
          → i ≤ k + t
      place zero o lt at c now later = ground arith
      place (suc t) o lt at c now later = omega (arith, later t o (omega arith) at c)

  conflicts_min_complete :
      (op : BodyOp) (os : List BodyOp) (i k left acc : ℕ)
      → i ≤ acc
      → ((t : ℕ) (o : BodyOp)
          → t < left
          → get_elem? os t ≡ some o
          → conflict op o ≡ true
          → i ≤ k + t)
      → i ≤ conflicts_min conflict op os k left acc
  unfolding conflicts_min
  conflicts_min_complete op os i k zero acc h f = h
  conflicts_min_complete op [] i k (suc left) acc h f = h
  conflicts_min_complete op (x ∷ xs) i k (suc left) acc h f =
      conflicts_min_complete op xs i (k + 1) left _ (ground (arith, f 0 x))
        (λ t o lt at c. omega (arith, f (suc t) o (omega arith) at c))

  -- Everything that op, at index j, depends on stands at index i or later.
  abbrev pub DependsFrom : List BodyOp → ℕ → ℕ → BodyOp → Type 0
  DependsFrom ops i j op = OperandsFrom ops i op × ConflictsFrom ops i j op

  min_dep_iff :
      (ops : List BodyOp) (op : BodyOp) (i j : ℕ)
      → (i ≤ min_dep conflict ops op j) ↔ ((i ≤ length ops) × DependsFrom ops i j op)
  unfolding min_dep
  min_dep_iff ops op i j = (to, from)
    where
      to :
          i ≤ conflicts_min conflict op ops 0 j (operands_min ops op.operand_defs (length ops))
          → (i ≤ length ops) × DependsFrom ops i j op
      to h =
          let (a, conflicts) = conflicts_min_sound op ops i 0 j _ h in
          let (size, operands) = operands_min_sound ops i (length ops) op.operand_defs a in
          (size, (operands, λ k o lt at c. omega (arith, conflicts k o lt at c)))

      from :
          (i ≤ length ops) × DependsFrom ops i j op
          → i ≤ conflicts_min conflict op ops 0 j (operands_min ops op.operand_defs (length ops))
      from (size, (operands, conflicts)) =
          conflicts_min_complete op ops i 0 j _
            (operands_min_complete ops i (length ops) op.operand_defs size operands)
            (λ k o lt at c. omega (arith, conflicts k o lt at c))

  -- No operation from index i on depends on one before it.
  abbrev pub NothingCrosses : List BodyOp → ℕ → Type 0
  NothingCrosses ops i =
      (j : ℕ) (op : BodyOp) → i ≤ j → get_elem? ops j ≡ some op → DependsFrom ops i j op

  shift :
      (i j u : ℕ) (ops : List BodyOp) (op : BodyOp)
      → i ≤ min_dep conflict ops op (j + 1 + u)
      → i ≤ min_dep conflict ops op (j + suc u)
  shift i j u ops op h =
      let e : j + 1 + u ≡ j + suc u = omega arith in
      subst (λ (p : ℕ). i ≤ min_dep conflict ops op p) e h

  unshift :
      (i j u : ℕ) (ops : List BodyOp) (op : BodyOp)
      → i ≤ min_dep conflict ops op (j + suc u)
      → i ≤ min_dep conflict ops op (j + 1 + u)
  unshift i j u ops op h =
      let e : j + suc u ≡ j + 1 + u = omega arith in
      subst (λ (p : ℕ). i ≤ min_dep conflict ops op p) e h

  min_deps_sound :
      (ops rest : List BodyOp) (i t j : ℕ)
      → AllFrom i t (min_deps conflict ops rest j)
      → (u : ℕ) (op : BodyOp) → t ≤ u
      → get_elem? rest u ≡ some op
      → i ≤ min_dep conflict ops op (j + u)
  unfolding min_deps
  min_deps_sound ops [] i t j all u op le at = absurd (cc)
  min_deps_sound ops (x ∷ xs) i zero j all zero op le at =
      let same : op ≡ x = cc in rw same (rw add-zero all.0)
  min_deps_sound ops (x ∷ xs) i zero j all (suc u) op le at =
      shift i j u ops op (min_deps_sound ops xs i 0 (j + 1) all.1 u op (omega arith) at)
  min_deps_sound ops (x ∷ xs) i (suc t) j all zero op le at = absurd (omega arith)
  min_deps_sound ops (x ∷ xs) i (suc t) j all (suc u) op le at =
      shift i j u ops op (min_deps_sound ops xs i t (j + 1) all u op (omega arith) at)

  min_deps_complete :
      (ops rest : List BodyOp) (i t j : ℕ)
      → ((u : ℕ) (op : BodyOp)
          → t ≤ u
          → get_elem? rest u ≡ some op
          → i ≤ min_dep conflict ops op (j + u))
      → AllFrom i t (min_deps conflict ops rest j)
  unfolding min_deps
  min_deps_complete ops [] i zero j f = tt
  min_deps_complete ops [] i (suc t) j f = tt
  min_deps_complete ops (x ∷ xs) i zero j f = (
    rw add-zero at (f 0 x (omega arith) refl),
    min_deps_complete ops xs i 0 (j + 1)
        (λ u op le at. unshift i j u ops op (f (suc u) op (omega arith) at)),
  )
  min_deps_complete ops (x ∷ xs) i (suc t) j f =
      min_deps_complete ops xs i t (j + 1)
        (λ u op le at. unshift i j u ops op (f (suc u) op (omega arith) at))

  pub length-min_deps :
      (ops rest : List BodyOp) (j : ℕ) → length (min_deps conflict ops rest j) ≡ length rest
  unfolding min_deps
  length-min_deps ops [] j = refl
  length-min_deps ops (x ∷ xs) j = ap suc (length-min_deps ops xs (j + 1))

  tail_suffix_min :
      (x : BodyOp) (xs : List BodyOp)
      → tail_of (suffix_min (min_deps conflict (x ∷ xs) (x ∷ xs) 0))
        ≡ suffix_min (min_deps conflict (x ∷ xs) xs 1)
  unfolding min_deps
  tail_suffix_min x xs =
      let (s, e, f) =
        suffix_min-cons (min_dep conflict (x ∷ xs) x 0) (min_deps conflict (x ∷ xs) xs 1) in
      rw e

  -- The listed places in terms of dependences.
  IsCutAt-iff :
      (x : BodyOp) (xs : List BodyOp) (i : ℕ)
      → IsCutAt (min_deps conflict (x ∷ xs) xs 1) 1 i
        ↔ ((1 ≤ i) × (i < length (x ∷ xs)) × NothingCrosses (x ∷ xs) i)
  IsCutAt-iff x xs i = (to, from)
    where
      ops : List BodyOp
      ops = x ∷ xs

      to :
          (t : ℕ) × (i ≡ 1 + t)
            × (t < length (min_deps conflict ops xs 1))
            × AllFrom i t (min_deps conflict ops xs 1)
          → (1 ≤ i) × (i < length ops) × NothingCrosses ops i
      to (t, e, lt, all) =
          (omega arith, omega (arith, length-min_deps ops xs 1), λ j op le at. reach j op le at)
        where
          reach : (j : ℕ) (op : BodyOp) → i ≤ j → get_elem? ops j ≡ some op → DependsFrom ops i j op
          reach zero op le at = absurd (omega arith)
          reach (suc u) op le at =
              let m = min_deps_sound ops xs i t 1 all u op (omega arith) at in
              ((min_dep_iff ops op i (suc u)).0
                (subst (λ (p : ℕ). i ≤ min_dep conflict ops op p) (add_comm 1 u ∙ add-one u) m)).1

      from :
          (1 ≤ i) × (i < length ops) × NothingCrosses ops i
          → (t : ℕ) × (i ≡ 1 + t)
            × (t < length (min_deps conflict ops xs 1))
            × AllFrom i t (min_deps conflict ops xs 1)
      from (pos, lt, crosses) = (
        i - 1,
        omega arith,
        omega (arith, length-min_deps ops xs 1),
        min_deps_complete ops xs i (i - 1) 1 (λ u op le at. bound u op le at),
      )
        where
          bound :
              (u : ℕ) (op : BodyOp)
              → i - 1 ≤ u
              → get_elem? xs u ≡ some op
              → i ≤ min_dep conflict ops op (1 + u)
          bound u op le at =
              subst (λ (p : ℕ). i ≤ min_dep conflict ops op p) (sym (add_comm 1 u ∙ add-one u))
                ((min_dep_iff ops op i (suc u)).1
                  (omega arith, crosses (suc u) op (omega arith) at))

  -- An index inside the epoch is a cut point exactly when no operation from there on depends, by
  -- an operand or a datablock conflict, on an operation before it; no other index is.
  pub find_epoch_cut_points_iff :
      (ops : List BodyOp) (i : ℕ)
      → (elem i (find_epoch_cut_points conflict ops) ≡ true)
        ↔ ((1 ≤ i) × (i < length ops) × NothingCrosses ops i)
  unfolding find_epoch_cut_points
  find_epoch_cut_points_iff [] i = ((λ h. absurd (cc)), λ h. absurd (omega arith))
  find_epoch_cut_points_iff (x ∷ []) i = ((λ h. absurd (cc)), λ h. absurd (omega arith))
  find_epoch_cut_points_iff (x ∷ y ∷ ys) i =
      let many : leb (length (x ∷ y ∷ ys)) 1 ≡ false = ground arith in
      rw (many, tail_suffix_min x (y ∷ ys))
        (
          (λ h. (IsCutAt-iff x (y ∷ ys) i).0 (cuts_from_sound _ 1 i h)),
          λ h. cuts_from_complete _ 1 i ((IsCutAt-iff x (y ∷ ys) i).1 h),
        )
