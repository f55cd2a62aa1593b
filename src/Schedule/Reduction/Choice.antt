-- ===== src/Schedule/Reduction/Choice.antt =====
-- When a reduction is left to atomic updates.
use carts.Base.{
  ℕ, ◌≤◌, leb, get_elem?, get_elem?-map, suc, Bool, true, false, Option, none, some, List, [], ◌∷◌,
  All, ◌≡◌, ◌≢◌, ◌↔◌, arith, refl, length, length-replicate, replicate, ap, sym, ◌∙◌, Option-cases,
  Bool-cases, inl, inr, ◌==◌,
}
use carts.Base.Int.{pos}
use carts.Foreign.{Float}
use carts.Loop.{ReductionKind, add, atomic, SuIterate}
use carts.Cost.{CostModel}
use carts.Sizing.{at_least_one}
use carts.Schedule.Reduction.{
  is_atomic_capable, known_kind, parse_kinds, kinds_for, get_reduction_kinds, all_atomic_capable,
  choose_strategy, set_strategy, run_reduction_strategy,
}

-- Every accumulator is an integer and every entry of the kinds is `add`.
abbrev pub IntegerSums : List Bool → Option (List (Option ReductionKind)) → Type 0
IntegerSums floats kinds =
    (floats ≢ [])
    × (kinds ≡ some (replicate (length floats) (some add)))
    × All (λ f. f ≡ false) floats

abbrev Sums : List Bool → List (Option ReductionKind) → Type 0
Sums floats ks = (ks ≡ replicate (length floats) (some add)) × All (λ f. f ≡ false) floats

capable_kind :
    (k : Option ReductionKind) (kind : ReductionKind) (f : Bool)
    → known_kind k ≡ some kind
    → is_atomic_capable kind f ≡ true
    → (k ≡ some add) × (f ≡ false)
unfolding known_kind is_atomic_capable
capable_kind k kind f h e = ground arith

parse_cons :
    (k : Option ReductionKind) (ks : List (Option ReductionKind)) (kinds : List ReductionKind)
    → parse_kinds (k ∷ ks) ≡ some kinds
    → (kind : ReductionKind) × (rest : List ReductionKind) × (known_kind k ≡ some kind)
      × (parse_kinds ks ≡ some rest)
      × (kinds ≡ kind ∷ rest)
unfolding parse_kinds
parse_cons k ks kinds p = elim (Option-cases (known_kind k)) [
  | inl e ↦ absurd (ground arith)
  | inr (kind, e) ↦ elim (Option-cases (parse_kinds ks)) [
    | inl d ↦ absurd (ground arith)
    | inr (rest, d) ↦ (kind, rest, e, d, ground arith)
  ]
]

capable-Sums :
    (ks : List (Option ReductionKind)) (kinds : List ReductionKind) (floats : List Bool)
    → length ks ≡ length floats
    → parse_kinds ks ≡ some kinds
    → all_atomic_capable kinds floats ≡ true
    → Sums floats ks
unfolding parse_kinds all_atomic_capable
capable-Sums [] kinds [] e p h = (refl, tt)
capable-Sums [] kinds (f ∷ fs) e p h = absurd (omega arith)
capable-Sums (k ∷ ks) kinds [] e p h = absurd (omega arith)
capable-Sums (k ∷ ks) kinds (f ∷ fs) e p h =
    let (kind, rest, ek, er, es) = parse_cons k ks kinds p in
    let both = sym (ap (λ l. all_atomic_capable l (f ∷ fs)) es) ∙ h in
    let (sum, integer) = capable_kind k kind f ek (ground arith) in
    let (sums, integers) = capable-Sums ks rest fs (omega arith) er (ground arith) in
    (rw (sum, sums) refl, (integer, integers))

sums_kinds :
    (floats : List Bool)
    → All (λ f. f ≡ false) floats
    → (parse_kinds (replicate (length floats) (some add)) ≡ some (replicate (length floats) add))
      × (all_atomic_capable (replicate (length floats) add) floats ≡ true)
unfolding parse_kinds all_atomic_capable known_kind is_atomic_capable
sums_kinds [] h = (refl, refl)
sums_kinds (f ∷ fs) (e, h) =
    let (parsed, capable) = sums_kinds fs h in (rw parsed refl, rw (e, capable) refl)

kinds_for_iff :
    (floats : List Bool) (kinds : Option (List (Option ReductionKind))) (found : List ReductionKind)
    → kinds_for floats kinds ≡ some found
    → all_atomic_capable found floats ≡ true
    → IntegerSums floats kinds
unfolding kinds_for
kinds_for_iff [] kinds found h c = absurd (ground arith)
kinds_for_iff (f ∷ fs) none found h c = absurd (ground arith)
kinds_for_iff (f ∷ fs) (some ks) found h c = elim (Bool-cases (length ks == length (f ∷ fs))) [
  | inl e ↦
      let (sums, integers) =
        capable-Sums ks found (f ∷ fs) (ground arith) (sym (rw e refl) ∙ h) c in
      (λ x. cc, ap some sums, integers)
  | inr e ↦ absurd (ground arith)
]

kinds_for_sums :
    (floats : List Bool) (kinds : Option (List (Option ReductionKind)))
    → IntegerSums floats kinds
    → kinds_for floats kinds ≡ some (replicate (length floats) add)
unfolding kinds_for
kinds_for_sums [] kinds (listed, e, h) = absurd (listed refl)
kinds_for_sums (f ∷ fs) kinds (listed, e, h) =
    let same : (suc (length fs) == suc (length fs)) ≡ true = ground arith in
    let size = ap suc (length-replicate (length fs) (some add)) in
    let (parsed, capable) = sums_kinds (f ∷ fs) h in rw (e, size, same) parsed

module _ (F : Float) where
  choose_atomic_iff :
      (m : CostModel F) (workers : ℕ) (op : SuIterate) (kinds : List ReductionKind)
      → (choose_strategy F m workers op kinds ≡ atomic) ↔ (
          (op.nested_sequential_loop ≡ false)
          × (all_atomic_capable kinds op.accumulators_float ≡ true)
          × (F.le
                (F.mul (F.of_int (pos workers)) m.get_atomic_update_cost)
                (m.get_reduction_cost (pos workers))
              ≡ true))
  unfolding choose_strategy
  choose_atomic_iff m workers op kinds = (λ h. ground arith, λ h. ground arith)

  strategy_set :
      (m : CostModel F) (workers : ℕ) (op : SuIterate) (kinds : List ReductionKind)
      → op.reduction_strategy ≡ none
      → op.partial_reduction ≡ false
      → get_reduction_kinds op ≡ some kinds
      → (set_strategy F m workers op).reduction_strategy
        ≡ some (choose_strategy F m workers op kinds)
  unfolding set_strategy
  strategy_set m workers op kinds h whole found = ground arith

  strategy_choice :
      (m : CostModel F) (workers : ℕ) (op : SuIterate)
      → op.reduction_strategy ≡ none
      → (set_strategy F m workers op).reduction_strategy ≡ some atomic
      → (op.partial_reduction ≡ false)
        × ((kinds : List ReductionKind) × (get_reduction_kinds op ≡ some kinds)
            × (choose_strategy F m workers op kinds ≡ atomic))
  unfolding set_strategy
  strategy_choice m workers op h e = elim (Option-cases (get_reduction_kinds op)) [
    | inl d ↦ absurd (ground arith)
    | inr (kinds, d) ↦ (ground arith, (kinds, d, ground arith))
  ]

  -- What the walk does at one loop, for any number of workers.
  set_strategy_iff :
      (m : CostModel F) (workers : ℕ) (op : SuIterate)
      → op.reduction_strategy ≡ none
      → ((set_strategy F m workers op).reduction_strategy ≡ some atomic) ↔ (
          (op.partial_reduction ≡ false)
          × (op.nested_sequential_loop ≡ false)
          × IntegerSums op.accumulators_float op.reduction_kinds
          × (F.le
                (F.mul (F.of_int (pos workers)) m.get_atomic_update_cost)
                (m.get_reduction_cost (pos workers))
              ≡ true))
  unfolding get_reduction_kinds
  set_strategy_iff m workers op h = (
    λ e.
        let (whole, (kinds, d, c)) = strategy_choice m workers op h e in
        let (flat, capable, cheap) = (choose_atomic_iff m workers op kinds).0 c in
        (
          whole,
          flat,
          kinds_for_iff op.accumulators_float op.reduction_kinds kinds d capable,
          cheap,
        ),
    λ (whole, flat, sums, cheap).
        let kinds = replicate (length op.accumulators_float) add in
        let found = kinds_for_sums op.accumulators_float op.reduction_kinds sums in
        let capable = (sums_kinds op.accumulators_float sums.2).1 in
        let chosen = (choose_atomic_iff m workers op kinds).1 (flat, capable, cheap) in
        strategy_set m workers op kinds h whole found ∙ ap some chosen,
  )

  -- The atomic updates of all workers cost at most what the collective reduction costs.
  abbrev pub IsCheap : CostModel F → ℕ → Type 0
  IsCheap m workers =
      F.le (F.mul (F.of_int (pos workers)) m.get_atomic_update_cost)
        (m.get_reduction_cost (pos workers))
      ≡ true

  -- Each loop of a module is a loop of the module after the pass, at the same place. One without a
  -- reduction strategy has atomic updates after it exactly when the cost model counts two workers or
  -- more, and the loop is no partial reduction, holds no sequential loop, has accumulators, which
  -- are all integers, with an `add` for each as its kinds, and the atomic updates of all workers
  -- cost at most what the collective reduction costs.
  pub run_reduction_strategy_iff :
      (m : CostModel F) (ops : List SuIterate) (i : ℕ) (op : SuIterate)
      → get_elem? ops i ≡ some op
      → op.reduction_strategy ≡ none
      → let workers = at_least_one m.get_logical_worker_capacity in
        (after : SuIterate) × (get_elem? (run_reduction_strategy F (some m) ops) i ≡ some after)
        × ((after.reduction_strategy ≡ some atomic) ↔ (
            (2 ≤ workers)
            × (op.partial_reduction ≡ false)
            × (op.nested_sequential_loop ≡ false)
            × IntegerSums op.accumulators_float op.reduction_kinds
            × IsCheap m workers))
  unfolding run_reduction_strategy
  run_reduction_strategy_iff m ops i op found unset =
      let workers = at_least_one m.get_logical_worker_capacity in
      let at_one = set_strategy_iff m workers op unset in
      elim (Bool-cases (leb workers 1)) [
        | inl e ↦ (
          op,
          rw e found,
          ((λ h. absurd (ground arith)), λ (two, a, b, c, d). absurd (ground arith)),
        )
        | inr e ↦ (
          set_strategy F m workers op,
          rw e (get_elem?-map (set_strategy F m workers) ops i op found),
          (
            (λ h. let (a, b, c, d) = at_one.0 h in (ground arith, a, b, c, d)),
            λ (two, a, b, c, d). at_one.1 (a, b, c, d),
          ),
        )
      ]
