-- ===== src/Epoch/Narrow.antt =====
-- The splitting of an epoch into independent epochs: findEpochCutPoints and narrowEpoch of
-- lib/carts/dialect/arts/Transforms/epoch/EpochOptStructural.cpp.
pub mod Minima
pub mod Cuts
pub mod Groups
use carts.Base.{
  ℕ, zero, suc, ◌+◌, ◌-◌, min, Bool, leb, ◌==◌, if◌then◌else◌, Option, none, some, List, [], ◌∷◌,
  length, take, drop,
}

-- An operation at the top of the epoch's body: its identity, and the operation that defines each
-- operand of it and of what is nested in it (`none` for a block argument).
pub record BodyOp : Type 0 where
  pub id : ℕ
  pub operand_defs : List (Option ℕ)

-- opIndex[ops[k]] = k, and the map's `find`.
pub index_of : List BodyOp → ℕ → ℕ → Option ℕ
index_of [] k op = none
index_of (o ∷ os) k op = elim (index_of os (k + 1) op) [
  | some i ↦ some i
  | none ↦ if o.id == op then some k else none
]

pub resolve : List BodyOp → Option ℕ → Option ℕ
resolve ops none = none
resolve ops (some op) = index_of ops 0 op

pub min_with : Option ℕ → ℕ → ℕ
min_with none acc = acc
min_with (some k) acc = min acc k

-- checkOperand, for each operand in turn
pub operands_min : List BodyOp → List (Option ℕ) → ℕ → ℕ
operands_min ops [] acc = acc
operands_min ops (d ∷ ds) acc = operands_min ops ds (min_with (resolve ops d) acc)

abbrev tail_of : List ℕ → List ℕ
tail_of [] = []
tail_of (x ∷ xs) = xs

-- suffixMin, filled from the end
push_min : ℕ → List ℕ → List ℕ
push_min m [] = m ∷ []
push_min m (s ∷ ss) = min m s ∷ s ∷ ss

pub suffix_min : List ℕ → List ℕ
unfolding push_min
suffix_min [] = []
suffix_min (m ∷ ms) = push_min m (suffix_min ms)

-- The last loop, from index `i` on.
pub cuts_from : List ℕ → ℕ → List ℕ
cuts_from [] i = []
cuts_from (s ∷ ss) i = let rest = cuts_from ss (i + 1) in if leb i s then i ∷ rest else rest

-- The groups between cut points, as pairs of a start and an end.
pub groups_from : ℕ → List ℕ → ℕ → List (ℕ × ℕ)
groups_from start [] size = (start, size) ∷ []
groups_from start (cut ∷ cuts) size = (start, cut) ∷ groups_from cut cuts size

pub slice : List BodyOp → ℕ × ℕ → List BodyOp
slice ops (start, end) = take (end - start) (drop start ops)

pub slices : List BodyOp → List (ℕ × ℕ) → List (List BodyOp)
slices ops [] = []
slices ops (g ∷ gs) = slice ops g ∷ slices ops gs

-- The rest of narrowEpoch, once the cut points are found.
pub split_epoch : List BodyOp → Bool → List ℕ → List (List BodyOp) × ℕ
split_epoch ops guid_used [] = (ops ∷ [], 0)
split_epoch ops guid_used (cut ∷ cuts) =
    let groups = groups_from 0 (cut ∷ cuts) (length ops) in
    if leb (length groups) 1
    then (ops ∷ [], 0)
    else if guid_used
    then (ops ∷ [], 0)
    else (slices ops groups, length groups - 1)

-- DbAnalysis::hasDbConflict is a parameter.
module _ (conflict : BodyOp → BodyOp → Bool) where
  -- The loop over k < j; `left` counts the rounds.
  pub conflicts_min : BodyOp → List BodyOp → ℕ → ℕ → ℕ → ℕ
  conflicts_min op ops k zero acc = acc
  conflicts_min op [] k (suc left) acc = acc
  conflicts_min op (o ∷ os) k (suc left) acc =
      conflicts_min op os (k + 1) left (if conflict op o then min acc k else acc)

  -- minDep[j]
  pub min_dep : List BodyOp → BodyOp → ℕ → ℕ
  min_dep ops op j = conflicts_min op ops 0 j (operands_min ops op.operand_defs (length ops))

  pub min_deps : List BodyOp → List BodyOp → ℕ → List ℕ
  min_deps ops [] j = []
  min_deps ops (op ∷ rest) j = min_dep ops op j ∷ min_deps ops rest (j + 1)

  pub find_epoch_cut_points : List BodyOp → List ℕ
  find_epoch_cut_points ops =
      if leb (length ops) 1 then [] else cuts_from (tail_of (suffix_min (min_deps ops ops 0))) 1

  -- The bodies of the epochs that stand in the place of the epoch, and the number returned.
  pub narrow_epoch : List BodyOp → Bool → List (List BodyOp) × ℕ
  narrow_epoch ops guid_used =
      if leb (length ops) 1
      then (ops ∷ [], 0)
      else split_epoch ops guid_used (find_epoch_cut_points ops)
