-- ===== src/Epoch/Fusion.antt =====
-- When two epochs may be fused (evaluateEpochFusion in EpochHeuristics.cpp).
use carts.Base.{
  ℕ, Bool, true, false, not, ◌||◌, ◌&&◌, ◌==◌, if◌then◌else◌, Option, none, some, List, [], ◌∷◌,
  any, ◌≡◌, refl, sym, ◌∙◌, arith, ◌↔◌,
}
use carts.Epoch.{
  AccessMode, untouched, read, write, read_write, code, epoch_access_mode_has_write, AccessSummary,
  find, or_untouched, lookup, EpochOp, summarize_epoch_access, can_fuse_entries, can_fuse_summaries,
  Epoch, evaluate_epoch_fusion,
}
use carts.Epoch.Summary.{mode_of, reads, writes, lookup-summarize_epoch_access}
use carts.Epoch.Proper.{IsTouched, IsProper, summarize_epoch_access-IsProper}

-- Two modes for one allocation exclude fusion: both touch it, and one writes.
abbrev conflicting : AccessMode → AccessMode → Bool
conflicting untouched n = false
conflicting m untouched = false
conflicting read read = false
conflicting m n = true

-- An entry of the loop is decided by `conflicting`.
entry_step :
    (m n : AccessMode) (later : Bool)
    → IsTouched m
    → (if code n == 0
        then later
        else if epoch_access_mode_has_write m || epoch_access_mode_has_write n
        then false
        else later)
      ≡ (not (conflicting m n) && later)
unfolding epoch_access_mode_has_write
entry_step untouched n later t = cc
entry_step read untouched later t = refl
entry_step read read later t = refl
entry_step read write later t = refl
entry_step read read_write later t = refl
entry_step write untouched later t = refl
entry_step write read later t = refl
entry_step write write later t = refl
entry_step write read_write later t = refl
entry_step read_write untouched later t = refl
entry_step read_write read later t = refl
entry_step read_write write later t = refl
entry_step read_write read_write later t = refl

entries_unfold :
    (k : ℕ) (m : AccessMode) (rest : List (ℕ × AccessMode)) (b : AccessSummary)
    → IsTouched m
    → can_fuse_entries ((k, m) ∷ rest) b
      ≡ (not (conflicting m (lookup b k)) && can_fuse_entries rest b)
unfolding can_fuse_entries
entries_unfold k m rest b t = entry_step m (lookup b k) (can_fuse_entries rest b) t

can_fuse_entries_sound :
    (s : List (ℕ × AccessMode)) (b : AccessSummary) (a : ℕ)
    → IsProper s
    → can_fuse_entries s b ≡ true
    → conflicting (or_untouched (find s a)) (lookup b a) ≡ false
unfolding find
can_fuse_entries_sound [] b a h e = refl
can_fuse_entries_sound ((k, m) ∷ rest) b a h e =
    ground (arith, entries_unfold k m rest b h.1, can_fuse_entries_sound rest b a h.2)

can_fuse_entries_complete :
    (s : List (ℕ × AccessMode)) (b : AccessSummary)
    → IsProper s
    → ((a : ℕ) → conflicting (or_untouched (find s a)) (lookup b a) ≡ false)
    → can_fuse_entries s b ≡ true
can_fuse_entries_complete [] b h apart = unfold can_fuse_entries in refl
can_fuse_entries_complete ((k, m) ∷ rest) b h apart =
    entries_unfold k m rest b h.1
    ∙ both (head (apart k)) (can_fuse_entries_complete rest b h.2 (λ a. tail a (apart a)))
  where
    both : {x y : Bool} → x ≡ false → y ≡ true → (not x && y) ≡ true
    both p q = rw (p, q)

    head :
        conflicting (or_untouched (find ((k, m) ∷ rest) k)) (lookup b k) ≡ false
        → conflicting m (lookup b k) ≡ false
    head p = unfold find in ground arith

    tail :
        (a : ℕ)
        → conflicting (or_untouched (find ((k, m) ∷ rest) a)) (lookup b a) ≡ false
        → conflicting (or_untouched (find rest a)) (lookup b a) ≡ false
    tail a p = unfold find in ground (arith, h.0)

-- Some operation of one list writes the allocation `a` that an operation of the other touches.
abbrev pub conflict_at : (ℕ → Option ℕ) → List EpochOp → List EpochOp → ℕ → Bool
conflict_at underlying first second a =
    (any (reads underlying a) first && any (writes underlying a) second)
    || (any (writes underlying a) first
        && (any (reads underlying a) second || any (writes underlying a) second))

conflicting-mode_of :
    (r w r' w' : Bool)
    → conflicting (mode_of r w) (mode_of r' w') ≡ ((r && w') || (w && (r' || w')))
conflicting-mode_of r w r' w' = ground arith

module _ (underlying : ℕ → Option ℕ) (first second : Epoch) where
  summaries_conflict :
      (a : ℕ)
      → conflicting
          (lookup (summarize_epoch_access underlying first.ops) a)
          (lookup (summarize_epoch_access underlying second.ops) a)
        ≡ conflict_at underlying first.ops second.ops a
  summaries_conflict a =
      rw
        (
          lookup-summarize_epoch_access underlying first.ops a,
          lookup-summarize_epoch_access underlying second.ops a,
        )
        (conflicting-mode_of _ _ _ _)

  abbrev Fused : Type 0
  Fused = (evaluate_epoch_fusion underlying (some first) (some second) none none).should_fuse ≡ true

  guid : Fused → second.guid_used ≡ false
  unfolding evaluate_epoch_fusion
  guid e = ground arith

  sound :
      (a : ℕ)
      → Fused
      → conflicting
          (lookup (summarize_epoch_access underlying first.ops) a)
          (lookup (summarize_epoch_access underlying second.ops) a)
        ≡ false
  unfolding evaluate_epoch_fusion can_fuse_summaries lookup
  sound a e =
      can_fuse_entries_sound _ (summarize_epoch_access underlying second.ops) a
        (summarize_epoch_access-IsProper underlying first.ops) (ground arith)

  fuses :
      second.guid_used ≡ false
      → ((a : ℕ)
          → conflicting
              (lookup (summarize_epoch_access underlying first.ops) a)
              (lookup (summarize_epoch_access underlying second.ops) a)
            ≡ false)
      → Fused
  unfolding evaluate_epoch_fusion can_fuse_summaries
  fuses unused apart = rw (
    unused,
    can_fuse_entries_complete _ (summarize_epoch_access underlying second.ops)
        (summarize_epoch_access-IsProper underlying first.ops) (unfold lookup in apart),
  )

  -- Two epochs, both present and their summaries computed, are to be fused exactly when nothing
  -- outside uses the second epoch's GUID and no allocation is written by one of them and touched
  -- by the other.
  pub evaluate_epoch_fusion_iff :
      ((evaluate_epoch_fusion underlying (some first) (some second) none none).should_fuse ≡ true)
      ↔ ((second.guid_used ≡ false)
          × ((a : ℕ) → conflict_at underlying first.ops second.ops a ≡ false))
  evaluate_epoch_fusion_iff = (
    (λ e. (guid e, λ a. sym (summaries_conflict a) ∙ sound a e)),
    λ (unused, apart). fuses unused (λ a. summaries_conflict a ∙ apart a),
  )
