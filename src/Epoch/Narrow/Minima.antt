-- ===== src/Epoch/Narrow/Minima.antt =====
-- The minima from which an epoch's cut points are read.
use carts.Base.{
  ℕ, zero, suc, ◌+◌, ◌≤◌, ◌<◌, min, Bool, true, false, ◌||◌, ◌&&◌, leb, ◌==◌, Option, none, some,
  List, [], ◌∷◌, length, any, All, ◌≡◌, refl, sym, ◌∙◌, ap, arith, ◌↔◌, inl, inr, ◌⊎◌, drop,
}
use carts.Epoch.Narrow.{BodyOp, resolve, push_min, min_with, operands_min, suffix_min, cuts_from}

-- No operand is defined by an operation of the body before index i.
abbrev pub OperandsFrom : List BodyOp → ℕ → BodyOp → Type 0
OperandsFrom ops i op = All (λ d. (k : ℕ) → resolve ops d ≡ some k → i ≤ k) op.operand_defs

pub operands_min_sound :
    (ops : List BodyOp) (i acc : ℕ) (ds : List (Option ℕ))
    → i ≤ operands_min ops ds acc
    → (i ≤ acc) × All (λ d. (k : ℕ) → resolve ops d ≡ some k → i ≤ k) ds
unfolding operands_min
operands_min_sound ops i acc [] h = (h, tt)
operands_min_sound ops i acc (d ∷ ds) h =
    let (now, later) = operands_min_sound ops i (min_with (resolve ops d) acc) ds h in
    (at_acc (resolve ops d) now, ((λ k e. at_operand (resolve ops d) k e now), later))
  where
    at_acc : (r : Option ℕ) → i ≤ min_with r acc → i ≤ acc
    at_acc r p = unfold min_with in ground arith

    at_operand : (r : Option ℕ) (k : ℕ) → r ≡ some k → i ≤ min_with r acc → i ≤ k
    at_operand r k e p = unfold min_with in ground arith

pub operands_min_complete :
    (ops : List BodyOp) (i acc : ℕ) (ds : List (Option ℕ))
    → i ≤ acc
    → All (λ d. (k : ℕ) → resolve ops d ≡ some k → i ≤ k) ds
    → i ≤ operands_min ops ds acc
unfolding operands_min
operands_min_complete ops i acc [] h all = h
operands_min_complete ops i acc (d ∷ ds) h (now, later) =
    operands_min_complete ops i (min_with (resolve ops d) acc) ds (step (resolve ops d) now) later
  where
    step : (r : Option ℕ) → ((k : ℕ) → r ≡ some k → i ≤ k) → i ≤ min_with r acc
    step none f = unfold min_with in h
    step (some k) f = let p = f k refl in unfold min_with in omega arith

-- Every number from position t on is at least i.
abbrev pub AllFrom : ℕ → ℕ → List ℕ → Type 0
AllFrom i t ms = All (λ m. i ≤ m) (drop t ms)

-- The minimum of a non-empty suffix stands at its head, before those of the shorter suffixes.
pub suffix_min-cons :
    (m : ℕ) (ms : List ℕ)
    → (s : ℕ) × (suffix_min (m ∷ ms) ≡ s ∷ suffix_min ms)
      × ((i : ℕ) → (i ≤ s) ↔ AllFrom i 0 (m ∷ ms))
unfolding suffix_min
suffix_min-cons m [] = (m, refl, λ i. ((λ h. (h, tt)), λ h. h.0))
suffix_min-cons m (x ∷ xs) =
    let (s, e, f) = suffix_min-cons x xs in
    (
      min m s,
      ap (push_min m) e ∙ ap (λ (t : List ℕ). min m s ∷ t) (sym e),
      λ i. (
        (λ h. (omega arith, (f i).0 (omega arith))),
        λ h. let p = (f i).1 h.1 in omega (arith, h.0),
      ),
    )

abbrev pub elem : ℕ → List ℕ → Bool
elem i xs = any (λ x. x == i) xs

or_true : (a : Bool) → (a || true) ≡ true
or_true true = refl
or_true false = refl

-- An index is listed exactly if the least entry from its place on reaches it.
abbrev pub IsCutAt : List ℕ → ℕ → ℕ → Type 0
IsCutAt ms k i = (t : ℕ) × (i ≡ k + t) × (t < length ms) × AllFrom i t ms

elem-cuts_from :
    (s k i : ℕ) (ss : List ℕ)
    → elem i (cuts_from (s ∷ ss) k) ≡ ((leb k s && (k == i)) || elem i (cuts_from ss (k + 1)))
unfolding cuts_from
elem-cuts_from s k i ss = ground arith

or-cases : (a b : Bool) → (a || b) ≡ true → (a ≡ true) ⊎ (b ≡ true)
or-cases true b h = inl refl
or-cases false b h = inr h

pub cuts_from_sound :
    (ms : List ℕ) (k i : ℕ) → elem i (cuts_from (suffix_min ms) k) ≡ true → IsCutAt ms k i
cuts_from_sound [] k i h = absurd (unfold suffix_min cuts_from in cc)
cuts_from_sound (m ∷ ms) k i h =
    let (s, e, f) = suffix_min-cons m ms in
    let found = sym (elem-cuts_from s k i (suffix_min ms)) ∙ (rw e at h) in
    elim (or-cases (leb k s && (k == i)) _ found) [
      | inl here ↦ (0, ground arith, omega arith, (f i).0 (ground arith))
      | inr later ↦
          let (t, at, lt, all) = cuts_from_sound ms (k + 1) i later in
          (suc t, omega arith, omega arith, all)
    ]

pub cuts_from_complete :
    (ms : List ℕ) (k i : ℕ) → IsCutAt ms k i → elem i (cuts_from (suffix_min ms) k) ≡ true
cuts_from_complete [] k i (t, e, lt, all) = absurd (omega arith)
cuts_from_complete (m ∷ ms) k i (zero, at, lt, all) =
    let (s, e, f) = suffix_min-cons m ms in
    let fits : i ≤ s = (f i).1 all in rw e (elem-cuts_from s k i (suffix_min ms) ∙ ground arith)
cuts_from_complete (m ∷ ms) k i (suc t, at, lt, all) =
    let (s, e, f) = suffix_min-cons m ms in
    let later = cuts_from_complete ms (k + 1) i (t, omega arith, omega arith, all) in
    rw e (elem-cuts_from s k i (suffix_min ms) ∙ rw later (or_true _))
