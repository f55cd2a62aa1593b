-- ===== src/Epoch/Examples.antt =====
-- Runs of the epoch heuristics and instances of the theorems about them.
use carts.Base.{
  ℕ, ◌+◌, ◌≤◌, ◌<◌, Bool, true, false, Option, none, some, List, [], ◌∷◌, ◌≡◌, ◌↔◌, length,
}
use carts.Epoch.{
  read_write, load, store, copy, Epoch, lookup, summarize_epoch_access, evaluate_epoch_fusion,
}
use carts.Epoch.Summary.{lookup-summarize_epoch_access}
use carts.Epoch.Fusion.{conflict_at, evaluate_epoch_fusion_iff}
use carts.Epoch.Narrow.{BodyOp, find_epoch_cut_points, narrow_epoch}
use carts.Epoch.Narrow.Minima.{elem}
use carts.Epoch.Narrow.Cuts.{NothingCrosses, find_epoch_cut_points_iff}
use carts.Epoch.Narrow.Groups.{concat, narrow_epoch_keeps}

-- Value n stands over the allocation n.
abbrev each : ℕ → Option ℕ
each n = some n

abbrev first_epoch : Epoch
first_epoch = record { ops = load 1 ∷ store 2 ∷ []; guid_used = true }

abbrev second_epoch : Epoch
second_epoch = record { ops = load 1 ∷ copy 1 3 ∷ []; guid_used = false }

lookup-summarize_epoch_access_example :
    lookup (summarize_epoch_access each (copy 1 3 ∷ load 3 ∷ [])) 3 ≡ read_write
lookup-summarize_epoch_access_example =
    lookup-summarize_epoch_access each (copy 1 3 ∷ load 3 ∷ []) 3

evaluate_epoch_fusion_iff_example :
    ((evaluate_epoch_fusion each (some first_epoch) (some second_epoch) none none).should_fuse
      ≡ true)
    ↔ ((false ≡ false)
        × ((a : ℕ) → conflict_at each (load 1 ∷ store 2 ∷ []) (load 1 ∷ copy 1 3 ∷ []) a ≡ false))
evaluate_epoch_fusion_iff_example = evaluate_epoch_fusion_iff each first_epoch second_epoch

-- Operation 2 reads a value that operation 1 defines; operation 3 stands alone.
abbrev body : List BodyOp
body =
    record { id = 10; operand_defs = [] }
    ∷ record { id = 11; operand_defs = [] }
    ∷ record { id = 12; operand_defs = some 11 ∷ none ∷ [] }
    ∷ record { id = 13; operand_defs = [] }
    ∷ []

abbrev no_conflict : BodyOp → BodyOp → Bool
no_conflict a b = false

find_epoch_cut_points_iff_example :
    (elem 3 (find_epoch_cut_points no_conflict body) ≡ true)
    ↔ ((1 ≤ 3) × (3 < length body) × NothingCrosses no_conflict body 3)
find_epoch_cut_points_iff_example = find_epoch_cut_points_iff no_conflict body 3

narrow_epoch_keeps_example :
    (concat (narrow_epoch no_conflict body false).0 ≡ body)
    × (length (narrow_epoch no_conflict body false).0 ≡ (narrow_epoch no_conflict body false).1 + 1)
    × (false ≡ true → (narrow_epoch no_conflict body false).1 ≡ 0)
narrow_epoch_keeps_example = narrow_epoch_keeps no_conflict body false
