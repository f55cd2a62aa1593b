-- ===== src/Epoch/Summary.antt =====
-- The summary of an epoch against the accesses of its operations (EpochHeuristics.cpp).
use carts.Base.{
  ℕ, Bool, true, false, ◌||◌, ◌&&◌, ◌==◌, if◌then◌else◌, Option, none, some, List, [], ◌∷◌, any,
  ◌≡◌, refl, ◌∙◌, ap₂, arith,
}
use carts.Epoch.{
  AccessMode, untouched, read, write, read_write, combine_epoch_access_modes, AccessSummary,
  no_accesses, find, assign, or_untouched, lookup, record_mode, EpochOp, acquire, load, store,
  affine_load, affine_store, copy, dim, regions, structural, other, record_access, record_acquire,
  record_operands, visit, summarize_from, summarize_epoch_access,
}

-- The mode of an allocation that is read, or not, and written, or not.
abbrev pub mode_of : Bool → Bool → AccessMode
mode_of false false = untouched
mode_of true false = read
mode_of false true = write
mode_of true true = read_write

combine-mode_of :
    (r w r' w' : Bool)
    → combine_epoch_access_modes (mode_of r w) (mode_of r' w') ≡ mode_of (r || r') (w || w')
unfolding combine_epoch_access_modes
combine-mode_of false false false false = refl
combine-mode_of false false false true = refl
combine-mode_of false false true false = refl
combine-mode_of false false true true = refl
combine-mode_of false true false false = refl
combine-mode_of false true false true = refl
combine-mode_of false true true false = refl
combine-mode_of false true true true = refl
combine-mode_of true false false false = refl
combine-mode_of true false false true = refl
combine-mode_of true false true false = refl
combine-mode_of true false true true = refl
combine-mode_of true true false false = refl
combine-mode_of true true false true = refl
combine-mode_of true true true false = refl
combine-mode_of true true true true = refl

combine-untouched : (m : AccessMode) → combine_epoch_access_modes m untouched ≡ m
unfolding combine_epoch_access_modes
combine-untouched untouched = refl
combine-untouched read = refl
combine-untouched write = refl
combine-untouched read_write = refl

pub find-assign :
    (s : List (ℕ × AccessMode)) (k j : ℕ) (m : AccessMode)
    → find (assign s k m) j ≡ (if k == j then some m else find s j)
unfolding find assign
find-assign [] k j m = refl
find-assign ((i, old) ∷ rest) k j m = ground (arith, find-assign rest k j m)

abbrev hits : Option ℕ → ℕ → Bool
hits none a = false
hits (some b) a = b == a

lookup-record_mode :
    (s : AccessSummary) (o : Option ℕ) (m : AccessMode) (a : ℕ)
    → lookup (record_mode s o m) a
      ≡ (if hits o a then combine_epoch_access_modes (lookup s a) m else lookup s a)
unfolding record_mode lookup
lookup-record_mode s none m a = refl
lookup-record_mode s (some b) m a = ground (
  arith,
  find-assign s.alloc_modes b a
      (combine_epoch_access_modes (or_untouched (find s.alloc_modes b)) m),
  combine-untouched (or_untouched (find s.alloc_modes a)),
)

or_false : (b : Bool) → b ≡ (b || false)
or_false true = refl
or_false false = refl

or_assoc : (a b c : Bool) → ((a || b) || c) ≡ (a || (b || c))
or_assoc true b c = refl
or_assoc false b c = refl

regroup : (r b rest : Bool) → ((r || (b && true)) || rest) ≡ (r || (b || rest))
regroup r b rest = ground arith

nothing : (a : ℕ) → lookup no_accesses a ≡ untouched
unfolding lookup find
nothing a = refl

module _ (underlying : ℕ → Option ℕ) where
  -- The value's allocation is `a`.
  abbrev pub is_on : ℕ → ℕ → Bool
  is_on a v = hits (underlying v) a

  -- What an operation does to the allocation `a`.
  abbrev pub reads : ℕ → EpochOp → Bool
  reads a (load v) = is_on a v
  reads a (affine_load v) = is_on a v
  reads a (copy source target) = is_on a source
  reads a (dim v) = is_on a v
  reads a (other operands) = any (is_on a) operands
  reads a _ = false

  abbrev pub writes : ℕ → EpochOp → Bool
  writes a (store v) = is_on a v
  writes a (affine_store v) = is_on a v
  writes a (copy source target) = is_on a target
  writes a (other operands) = any (is_on a) operands
  writes a _ = false

  abbrev At : AccessSummary → ℕ → Bool → Bool → Type 0
  At s a r w = lookup s a ≡ mode_of r w

  record_access-At :
      (s : AccessSummary) (v a : ℕ) (r w r' w' : Bool)
      → At s a r w
      → At
          (record_access underlying s v (mode_of r' w'))
          a
          (r || (is_on a v && r'))
          (w || (is_on a v && w'))
  unfolding record_access
  record_access-At s v a r w r' w' h =
      lookup-record_mode s (underlying v) (mode_of r' w') a ∙ joined (is_on a v)
    where
      joined :
          (b : Bool)
          → (if b then combine_epoch_access_modes (lookup s a) (mode_of r' w') else lookup s a)
            ≡ mode_of (r || (b && r')) (w || (b && w'))
      joined true = rw h (combine-mode_of r w r' w')
      joined false = h ∙ ap₂ mode_of (or_false r) (or_false w)

  lookup-record_acquire :
      (s : AccessSummary) (v a : ℕ) → lookup (record_acquire underlying s v) a ≡ lookup s a
  unfolding record_acquire lookup
  lookup-record_acquire s v a = ground arith

  record_operands-At :
      (s : AccessSummary) (vs : List ℕ) (a : ℕ) (r w : Bool)
      → At s a r w
      → At (record_operands underlying s vs) a (r || any (is_on a) vs) (w || any (is_on a) vs)
  unfolding record_operands
  record_operands-At s [] a r w h = h ∙ ap₂ mode_of (or_false r) (or_false w)
  record_operands-At s (v ∷ vs) a r w h =
      record_operands-At (record_access underlying s v read_write) vs a _ _
        (record_access-At s v a r w true true h)
      ∙ ap₂ mode_of (regroup r (is_on a v) (any (is_on a) vs))
          (regroup w (is_on a v) (any (is_on a) vs))

  both_flags :
      (s : AccessSummary) (a : ℕ) {r w r' w' : Bool} → At s a r w → r ≡ r' → w ≡ w' → At s a r' w'
  both_flags s a h e g = h ∙ ap₂ mode_of e g

  visit-At :
      (s : AccessSummary) (op : EpochOp) (a : ℕ) (r w : Bool)
      → At s a r w
      → At (visit underlying s op) a (r || reads a op) (w || writes a op)
  unfolding visit
  visit-At s (acquire v) a r w h =
      lookup-record_acquire s v a ∙ h ∙ ap₂ mode_of (or_false r) (or_false w)
  visit-At s (load v) a r w h =
      both_flags _ a (record_access-At s v a r w true false h) (ground arith) (ground arith)
  visit-At s (store v) a r w h =
      both_flags _ a (record_access-At s v a r w false true h) (ground arith) (ground arith)
  visit-At s (affine_load v) a r w h =
      both_flags _ a (record_access-At s v a r w true false h) (ground arith) (ground arith)
  visit-At s (affine_store v) a r w h =
      both_flags _ a (record_access-At s v a r w false true h) (ground arith) (ground arith)
  visit-At s (copy source target) a r w h =
      both_flags _ a
        (record_access-At _ target a _ _ false true (record_access-At s source a r w true false h))
        (ground arith) (ground arith)
  visit-At s (dim v) a r w h =
      both_flags _ a (record_access-At s v a r w true false h) (ground arith) (ground arith)
  visit-At s regions a r w h = h ∙ ap₂ mode_of (or_false r) (or_false w)
  visit-At s structural a r w h = h ∙ ap₂ mode_of (or_false r) (or_false w)
  visit-At s (other operands) a r w h = record_operands-At s operands a r w h

  summarize_from-At :
      (s : AccessSummary) (ops : List EpochOp) (a : ℕ) (r w : Bool)
      → At s a r w
      → At (summarize_from underlying s ops) a (r || any (reads a) ops) (w || any (writes a) ops)
  unfolding summarize_from
  summarize_from-At s [] a r w h = h ∙ ap₂ mode_of (or_false r) (or_false w)
  summarize_from-At s (op ∷ ops) a r w h =
      summarize_from-At (visit underlying s op) ops a _ _ (visit-At s op a r w h)
      ∙ ap₂ mode_of (or_assoc r (reads a op) (any (reads a) ops))
          (or_assoc w (writes a op) (any (writes a) ops))

  -- The recorded mode of an allocation says exactly whether some operation of the epoch reads it
  -- and whether some operation writes it, for any operations and any allocation.
  pub lookup-summarize_epoch_access :
      (ops : List EpochOp) (a : ℕ)
      → lookup (summarize_epoch_access underlying ops) a
        ≡ mode_of (any (reads a) ops) (any (writes a) ops)
  unfolding summarize_epoch_access
  lookup-summarize_epoch_access ops a = summarize_from-At no_accesses ops a false false (nothing a)
