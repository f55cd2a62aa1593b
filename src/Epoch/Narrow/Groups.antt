-- ===== src/Epoch/Narrow/Groups.antt =====
-- The epochs that an epoch is split into (narrowEpoch in EpochOptStructural.cpp).
use native.Mathlib.Nat.{sub-zero}
use mathlib.Core.List.{append-nil}
use carts.Base.{
  ℕ, zero, suc, ◌+◌, ◌-◌, ◌≤◌, Bool, true, false, leb, if◌then◌else◌, List, [], ◌∷◌, ◌++◌, length,
  ◌≡◌, refl, sym, ◌∙◌, ap, arith, Bool-cases, inl, inr, take, drop,
}
use carts.Epoch.Narrow.{
  BodyOp, tail_of, push_min, suffix_min, cuts_from, groups_from, slice, slices, min_deps,
  find_epoch_cut_points, split_epoch, narrow_epoch,
}
use carts.Epoch.Narrow.Cuts.{length-min_deps}

length-tail_of : (xs : List ℕ) → length (tail_of xs) ≡ length xs - 1
length-tail_of [] = omega arith
length-tail_of (x ∷ xs) = omega arith

abbrev pub concat : List (List BodyOp) → List BodyOp
concat [] = []
concat (b ∷ bs) = b ++ concat bs

-- Places in order, from `start` up to `size`.
Chain : ℕ → List ℕ → ℕ → Type 0
Chain start [] size = start ≤ size
Chain start (c ∷ cs) size = (start ≤ c) × Chain c cs size

cuts_from-Chain :
    (ss : List ℕ) (start k size : ℕ)
    → start ≤ k
    → k + length ss ≤ size
    → Chain start (cuts_from ss k) size
unfolding cuts_from Chain
cuts_from-Chain [] start k size h le = omega arith
cuts_from-Chain (s ∷ ss) start k size h le = elim (Bool-cases (leb k s)) [
  | inl e ↦ rw e (h, cuts_from-Chain ss k (k + 1) size (omega arith) (omega arith))
  | inr e ↦ rw e (cuts_from-Chain ss start (k + 1) size (omega arith) (omega arith))
]

length-push_min : (m : ℕ) (ss : List ℕ) → length (push_min m ss) ≡ suc (length ss)
unfolding push_min
length-push_min m [] = refl
length-push_min m (s ∷ ss) = refl

length-suffix_min : (ms : List ℕ) → length (suffix_min ms) ≡ length ms
unfolding suffix_min
length-suffix_min [] = refl
length-suffix_min (m ∷ ms) = length-push_min m (suffix_min ms) ∙ ap suc (length-suffix_min ms)

drop_nil : (n : ℕ) → drop {A = BodyOp} n [] ≡ []
drop_nil zero = refl
drop_nil (suc n) = refl

take_all : (n : ℕ) (xs : List BodyOp) → length xs ≤ n → take n xs ≡ xs
take_all zero [] h = refl
take_all zero (x ∷ xs) h = absurd (omega arith)
take_all (suc n) [] h = refl
take_all (suc n) (x ∷ xs) h = ap (λ t. x ∷ t) (take_all n xs (omega arith))

length-drop : (n : ℕ) (xs : List BodyOp) → length (drop n xs) ≡ length xs - n
length-drop zero xs = omega arith
length-drop (suc n) [] = omega arith
length-drop (suc n) (x ∷ xs) = omega (arith, length-drop n xs)

take-append-drop : (n : ℕ) (xs : List BodyOp) → take n xs ++ drop n xs ≡ xs
take-append-drop zero xs = refl
take-append-drop (suc n) [] = refl
take-append-drop (suc n) (x ∷ xs) = ap (λ t. x ∷ t) (take-append-drop n xs)

drop-drop : (a c : ℕ) (ops : List BodyOp) → a ≤ c → drop (c - a) (drop a ops) ≡ drop c ops
drop-drop zero c ops h = rw sub-zero
drop-drop (suc a) zero ops h = absurd (omega arith)
drop-drop (suc a) (suc c) [] h = drop_nil (suc c - suc a)
drop-drop (suc a) (suc c) (o ∷ ops) h =
    let e : suc c - suc a ≡ c - a = omega arith in rw e (drop-drop a c ops (omega arith))

slices-concat :
    (ops : List BodyOp) (cuts : List ℕ) (start : ℕ)
    → Chain start cuts (length ops)
    → concat (slices ops (groups_from start cuts (length ops))) ≡ drop start ops
unfolding slices groups_from slice Chain
slices-concat ops [] start h =
    append-nil _
    ∙ take_all (length ops - start) (drop start ops) (omega (arith, length-drop start ops))
slices-concat ops (c ∷ cs) start (le, h) =
    ap (λ t. take (c - start) (drop start ops) ++ t)
      (slices-concat ops cs c h ∙ sym (drop-drop start c ops le))
    ∙ take-append-drop (c - start) (drop start ops)

length-slices : (ops : List BodyOp) (gs : List (ℕ × ℕ)) → length (slices ops gs) ≡ length gs
unfolding slices
length-slices ops [] = refl
length-slices ops (g ∷ gs) = ap suc (length-slices ops gs)

abbrev Keeps : List BodyOp → Bool → List (List BodyOp) × ℕ → Type 0
Keeps ops guid_used (bodies, n) =
    (concat bodies ≡ ops) × (length bodies ≡ n + 1) × (guid_used ≡ true → n ≡ 0)

whole-Keeps : (ops : List BodyOp) (guid_used : Bool) → Keeps ops guid_used (ops ∷ [], 0)
whole-Keeps ops guid_used = (append-nil ops, omega arith, λ _. refl)

split_epoch-Keeps :
    (ops : List BodyOp) (guid_used : Bool) (cuts : List ℕ)
    → Chain 0 cuts (length ops)
    → Keeps ops guid_used (split_epoch ops guid_used cuts)
unfolding split_epoch
split_epoch-Keeps ops guid_used [] h = whole-Keeps ops guid_used
split_epoch-Keeps ops guid_used (cut ∷ cuts) h =
    let groups = groups_from 0 (cut ∷ cuts) (length ops) in
    elim (Bool-cases (leb (length groups) 1)) [
      | inl few ↦ rw few (whole-Keeps ops guid_used)
      | inr many ↦ rw many (parts guid_used many)
    ]
  where
    parts :
        (g : Bool)
        → leb (length (groups_from 0 (cut ∷ cuts) (length ops))) 1 ≡ false
        → Keeps ops g (
            if g then (ops ∷ [], 0) else (
              slices ops (groups_from 0 (cut ∷ cuts) (length ops)),
              length (groups_from 0 (cut ∷ cuts) (length ops)) - 1,
            ))
    parts true many = whole-Keeps ops true
    parts false many = (
      slices-concat ops (cut ∷ cuts) 0 h,
      length-slices ops (groups_from 0 (cut ∷ cuts) (length ops)) ∙ ground arith,
      λ e. absurd (cc),
    )

module _ (conflict : BodyOp → BodyOp → Bool) where
  find_epoch_cut_points-Chain :
      (ops : List BodyOp) → Chain 0 (find_epoch_cut_points conflict ops) (length ops)
  unfolding find_epoch_cut_points
  find_epoch_cut_points-Chain [] = unfold Chain in omega arith
  find_epoch_cut_points-Chain (x ∷ xs) = elim (Bool-cases (leb (length (x ∷ xs)) 1)) [
    | inl few ↦ rw few (unfold Chain in omega arith)
    | inr many ↦ rw many (
        cuts_from-Chain _ 0 1 _ (omega arith) (
          omega (
            arith,
            length-tail_of (suffix_min (min_deps conflict (x ∷ xs) (x ∷ xs) 0)),
            length-suffix_min (min_deps conflict (x ∷ xs) (x ∷ xs) 0),
            length-min_deps conflict (x ∷ xs) (x ∷ xs) 0,
          )))
  ]

  -- Splitting keeps every operation, in order; the number returned is that of the new epochs; and
  -- an epoch whose GUID is used stays whole.
  pub narrow_epoch_keeps :
      (ops : List BodyOp) (guid_used : Bool)
      → (concat (narrow_epoch conflict ops guid_used).0 ≡ ops)
        × (length (narrow_epoch conflict ops guid_used).0
            ≡ (narrow_epoch conflict ops guid_used).1 + 1)
        × (guid_used ≡ true → (narrow_epoch conflict ops guid_used).1 ≡ 0)
  unfolding narrow_epoch
  narrow_epoch_keeps ops guid_used = elim (Bool-cases (leb (length ops) 1)) [
    | inl few ↦ rw few (whole-Keeps ops guid_used)
    | inr many ↦ rw many (split_epoch-Keeps ops guid_used _ (find_epoch_cut_points-Chain ops))
  ]
