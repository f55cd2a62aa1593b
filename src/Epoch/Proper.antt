-- ===== src/Epoch/Proper.antt =====
-- A summary lists each allocation once, with an access.
use carts.Base.{
  ℕ, false, ◌==◌, if◌then◌else◌, Option, none, some, List, [], ◌∷◌, ◌≡◌, refl, ◌∙◌, arith,
  Bool-cases, inl, inr,
}
use carts.Epoch.{
  AccessMode, untouched, read, write, read_write, code, combine_epoch_access_modes, AccessSummary,
  no_accesses, find, assign, record_mode, EpochOp, acquire, load, store, affine_load, affine_store,
  copy, dim, regions, structural, other, record_access, record_acquire, record_operands, visit,
  summarize_from, summarize_epoch_access,
}
use carts.Epoch.Summary.{find-assign}

abbrev pub IsTouched : AccessMode → Type 0
IsTouched m = (code m == 0) ≡ false

-- Each key of the map stands in one entry, and no entry is without an access.
abbrev pub IsProper : List (ℕ × AccessMode) → Type 0
IsProper [] = Unit
IsProper ((k, m) ∷ rest) = (find rest k ≡ none) × IsTouched m × IsProper rest

combine-IsTouched : (m n : AccessMode) → IsTouched n → IsTouched (combine_epoch_access_modes m n)
unfolding combine_epoch_access_modes
combine-IsTouched untouched n h = ground arith
combine-IsTouched read n h = ground arith
combine-IsTouched write n h = ground arith
combine-IsTouched read_write n h = ground arith

assign-IsProper :
    (s : List (ℕ × AccessMode)) (k : ℕ) (m : AccessMode)
    → IsTouched m
    → IsProper s
    → IsProper (assign s k m)
unfolding assign
assign-IsProper [] k m t h = (unfold find in refl, t, tt)
assign-IsProper ((i, old) ∷ rest) k m t h = elim (Bool-cases (i == k)) [
  | inl e ↦ rw e (h.0, t, h.2)
  | inr e ↦ rw e (find-assign rest k i m ∙ keep e, h.1, assign-IsProper rest k m t h.2)
]
  where
    keep : (i == k) ≡ false → (if k == i then some m else find rest i) ≡ none
    keep e = ground arith

module _ (underlying : ℕ → Option ℕ) where
  record_mode-IsProper :
      (s : AccessSummary) (o : Option ℕ) (m : AccessMode)
      → IsProper s.alloc_modes
      → IsProper (record_mode s o m).alloc_modes
  unfolding record_mode
  record_mode-IsProper s none m h = h
  record_mode-IsProper s (some b) m h = elim (Bool-cases (code m == 0)) [
    | inl e ↦ rw e h
    | inr e ↦ rw e (assign-IsProper s.alloc_modes b _ (combine-IsTouched _ m e) h)
  ]

  record_access-IsProper :
      (s : AccessSummary) (v : ℕ) (m : AccessMode)
      → IsProper s.alloc_modes
      → IsProper (record_access underlying s v m).alloc_modes
  unfolding record_access
  record_access-IsProper s v m h = record_mode-IsProper s (underlying v) m h

  record_acquire-modes :
      (s : AccessSummary) (v : ℕ) → (record_acquire underlying s v).alloc_modes ≡ s.alloc_modes
  unfolding record_acquire
  record_acquire-modes s v = ground arith

  record_operands-IsProper :
      (s : AccessSummary) (vs : List ℕ)
      → IsProper s.alloc_modes
      → IsProper (record_operands underlying s vs).alloc_modes
  unfolding record_operands
  record_operands-IsProper s [] h = h
  record_operands-IsProper s (v ∷ vs) h =
      record_operands-IsProper (record_access underlying s v read_write) vs
        (record_access-IsProper s v read_write h)

  visit-IsProper :
      (s : AccessSummary) (op : EpochOp)
      → IsProper s.alloc_modes
      → IsProper (visit underlying s op).alloc_modes
  unfolding visit
  visit-IsProper s (acquire v) h = rw (record_acquire-modes s v) h
  visit-IsProper s (load v) h = record_access-IsProper s v read h
  visit-IsProper s (store v) h = record_access-IsProper s v write h
  visit-IsProper s (affine_load v) h = record_access-IsProper s v read h
  visit-IsProper s (affine_store v) h = record_access-IsProper s v write h
  visit-IsProper s (copy source target) h =
      record_access-IsProper _ target write (record_access-IsProper s source read h)
  visit-IsProper s (dim v) h = record_access-IsProper s v read h
  visit-IsProper s regions h = h
  visit-IsProper s structural h = h
  visit-IsProper s (other operands) h = record_operands-IsProper s operands h

  summarize_from-IsProper :
      (s : AccessSummary) (ops : List EpochOp)
      → IsProper s.alloc_modes
      → IsProper (summarize_from underlying s ops).alloc_modes
  unfolding summarize_from
  summarize_from-IsProper s [] h = h
  summarize_from-IsProper s (op ∷ ops) h =
      summarize_from-IsProper (visit underlying s op) ops (visit-IsProper s op h)

module _ (underlying : ℕ → Option ℕ) where
  pub summarize_epoch_access-IsProper :
      (ops : List EpochOp) → IsProper (summarize_epoch_access underlying ops).alloc_modes
  unfolding summarize_epoch_access
  summarize_epoch_access-IsProper ops = summarize_from-IsProper underlying no_accesses ops tt
