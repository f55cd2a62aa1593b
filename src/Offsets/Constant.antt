-- ===== src/Offsets/Constant.antt =====
-- What the constant offset of an index from a loop is.
use carts.Base.{
  Bool, true, false, ◌&&◌, if◌then◌else◌, Option, none, some, ◌≡◌, inl, inr, refl, sym, ap, ap₂,
  ◌∙◌, arith, subst, Bool-cases, List, [], ◌∷◌, map,
}
use carts.Base.Int.{ℤ, pos, ◌+ℤ◌, ◌-ℤ◌, +ℤ_comm, +ℤ_assoc}
use carts.Fold.{strip_numeric_casts, IndexValue, index_cast, add_i, sub_i}
use carts.Fold.Meaning.{Env, KeepsWidth, unbounded, meaning}
use carts.Fold.Parts.{either_true, unsome, or_else_cases, strip_numeric_casts-meaning}
use carts.ValueFacts.{get_constant_value}
use carts.ValueFacts.Strip.{plus_zero}
use carts.ValueFacts.Named.{both_true}
use carts.Offsets.{
  after_sum, after_difference, bound_from, prove_constant_offset_with_bounds,
  extract_constant_offset, is_base_value, is_base_pattern, is_base, offset_from,
}
use carts.Offsets.Sums.{
  total, IsSum, of_iv, of_chunk, plus, constant-meaning, move_sum, move_left, move_difference,
}

module _ (given : Env) (identical : IndexValue → IndexValue → Bool)
    (same : (a b : IndexValue) → identical a b ≡ true → meaning given a ≡ meaning given b)
    (loop_iv chunk_offset : IndexValue) where
  -- The value and what was accumulated are a sum of base values and the offset.
  abbrev ReachesTo : ℤ → ℤ → ℤ → Type 0
  ReachesTo m accumulator n =
      (w : ℤ) × IsSum (meaning given loop_iv) (meaning given chunk_offset) w
      × (w +ℤ n ≡ m +ℤ accumulator)

  abbrev Reaches : IndexValue → ℤ → ℤ → Type 0
  Reaches v accumulator n = ReachesTo (meaning given v) accumulator n

  abbrev Sum : IndexValue → Type 0
  Sum v =
      (w : ℤ) × IsSum (meaning given loop_iv) (meaning given chunk_offset) w × (w ≡ meaning given v)

  is_base_value-Sum :
      (v : IndexValue) → is_base_value identical loop_iv chunk_offset v ≡ true → Sum v
  is_base_value-Sum v h = elim (either_true (identical v loop_iv) (identical v chunk_offset) h) [
    | inl q ↦ (meaning given loop_iv, of_iv, sym (same v loop_iv q))
    | inr q ↦ (meaning given chunk_offset, of_chunk, sym (same v chunk_offset q))
  ]

  is_base_pattern-Sum :
      (v : IndexValue)
      → KeepsWidth given v
      → is_base_pattern identical loop_iv chunk_offset v ≡ true
      → Sum v
  unfolding KeepsWidth unbounded
  is_base_pattern-Sum (add_i l r) (fit, k) h =
      elim (either_true (identical l loop_iv && identical r chunk_offset) _ h) [
        | inl q ↦
            let (a, (b, u)) = both_true (identical l loop_iv) (identical r chunk_offset) q in
            (
              meaning given loop_iv +ℤ meaning given chunk_offset,
              plus of_iv of_chunk,
              ap₂ (λ x y. x +ℤ y) (sym (same l loop_iv a)) (sym (same r chunk_offset b)) ∙ sym fit,
            )
        | inr q ↦
            let (a, (b, u)) = both_true (identical l chunk_offset) (identical r loop_iv) q in
            (
              meaning given chunk_offset +ℤ meaning given loop_iv,
              plus of_chunk of_iv,
              ap₂ (λ x y. x +ℤ y) (sym (same l chunk_offset a)) (sym (same r loop_iv b)) ∙ sym fit,
            )
      ]
  is_base_pattern-Sum v k h = absurd (ground arith)

  is_base-Sum :
      (v : IndexValue)
      → KeepsWidth given v
      → is_base identical loop_iv chunk_offset v ≡ true
      → Sum v
  is_base-Sum v k h =
      elim (either_true (is_base_value identical loop_iv chunk_offset v)
        (is_base_pattern identical loop_iv chunk_offset v) h) [
          | inl q ↦ is_base_value-Sum v q
          | inr q ↦ is_base_pattern-Sum v k q
        ]

  -- Either the value is a base, or the search goes on.
  at_base :
      (v : IndexValue) (accumulator n : ℤ) (later : Option ℤ)
      → KeepsWidth given v
      → (later ≡ some n → Reaches v accumulator n)
      → (if is_base identical loop_iv chunk_offset v then some accumulator else later) ≡ some n
      → Reaches v accumulator n
  at_base v accumulator n later k go h =
      elim (Bool-cases (is_base identical loop_iv chunk_offset v)) [
        | inl e ↦
            let (w, sum, q) = is_base-Sum v k e in
            let end =
              unsome accumulator n (sym (ap (λ t. if t then some accumulator else later) e) ∙ h) in
            (w, sum, ap₂ (λ x y. x +ℤ y) q (sym end))
        | inr e ↦ go (sym (ap (λ t. if t then some accumulator else later) e) ∙ h)
      ]

  after_sum-Reaches :
      (l r : IndexValue) (right left : Option ℤ) (bl br : Bool) (on_left on_right : ℤ → Option ℤ)
      (accumulator n : ℤ)
      → ((c : ℤ) → right ≡ some c → meaning given r ≡ c)
      → ((c : ℤ) → left ≡ some c → meaning given l ≡ c)
      → (bl ≡ true → Sum l)
      → (br ≡ true → Sum r)
      → ((a : ℤ) → on_left a ≡ some n → Reaches l a n)
      → ((a : ℤ) → on_right a ≡ some n → Reaches r a n)
      → after_sum right left bl br on_left on_right accumulator ≡ some n
      → ReachesTo (meaning given l +ℤ meaning given r) accumulator n
  unfolding after_sum
  after_sum-Reaches l r (some c) left bl br kl kr a n cr cl sl sr gl gr h =
      let (w, sum, q) = gl (a +ℤ c) h in
      (
        w,
        sum,
        move_sum (meaning given l) c a w n q
            ∙ ap (λ z. meaning given l +ℤ z +ℤ a) (sym (cr c refl)),
      )
  after_sum-Reaches l r none (some c) bl br kl kr a n cr cl sl sr gl gr h =
      let (w, sum, q) = gr (a +ℤ c) h in
      (
        w,
        sum,
        move_left (meaning given r) c a w n q
            ∙ ap (λ z. z +ℤ meaning given r +ℤ a) (sym (cl c refl)),
      )
  after_sum-Reaches l r none none true true kl kr a n cr cl sl sr gl gr h =
      let (wl, left, ql) = sl refl in
      let (wr, right, qr) = sr refl in
      (
        wl +ℤ wr,
        plus left right,
        ap₂ (λ x y. x +ℤ y) (ap₂ (λ x y. x +ℤ y) ql qr) (sym (unsome a n h)),
      )
  after_sum-Reaches l r none none true false kl kr a n cr cl sl sr gl gr h =
      let (wl, left, ql) = sl refl in
      let (wr, right, qr) = gr a h in
      (
        wl +ℤ wr,
        plus left right,
        +ℤ_assoc wl wr n
            ∙ ap₂ (λ x y. x +ℤ y) ql qr
            ∙ sym (+ℤ_assoc (meaning given l) (meaning given r) a),
      )
  after_sum-Reaches l r none none false true kl kr a n cr cl sl sr gl gr h =
      let (wr, right, qr) = sr refl in
      let (wl, left, ql) = gl a h in
      (
        wr +ℤ wl,
        plus right left,
        +ℤ_assoc wr wl n
            ∙ ap₂ (λ x y. x +ℤ y) qr ql
            ∙ sym (+ℤ_assoc (meaning given r) (meaning given l) a)
            ∙ ap (λ z. z +ℤ a) (+ℤ_comm (meaning given r) (meaning given l)),
      )
  after_sum-Reaches l r none none false false kl kr a n cr cl sl sr gl gr h = absurd (ground arith)

  after_difference-Reaches :
      (l r : IndexValue) (right : Option ℤ) (on_left : ℤ → Option ℤ) (accumulator n : ℤ)
      → ((c : ℤ) → right ≡ some c → meaning given r ≡ c)
      → ((a : ℤ) → on_left a ≡ some n → Reaches l a n)
      → after_difference right on_left accumulator ≡ some n
      → ReachesTo (meaning given l -ℤ meaning given r) accumulator n
  unfolding after_difference
  after_difference-Reaches l r (some c) kl a n cr gl h =
      let (w, sum, p) = gl (a -ℤ c) h in
      (
        w,
        sum,
        move_difference (meaning given l) c a w n p
            ∙ ap (λ z. meaning given l -ℤ z +ℤ a) (sym (cr c refl)),
      )
  after_difference-Reaches l r none kl a n cr gl h = absurd (ground arith)

  offset_from-Reaches :
      (v : IndexValue) (accumulator n : ℤ)
      → KeepsWidth given v
      → offset_from identical loop_iv chunk_offset v accumulator ≡ some n
      → Reaches v accumulator n
  unfolding offset_from after_difference KeepsWidth unbounded
  offset_from-Reaches (add_i l r) a n (fit, (kl, kr)) h =
      at_base (add_i l r) a n _ (fit, (kl, kr))
        (λ t.
          subst (λ m. ReachesTo m a n) (sym fit)
            (after_sum-Reaches l r (get_constant_value r) (get_constant_value l)
              (is_base identical loop_iv chunk_offset l) (is_base identical loop_iv chunk_offset r)
              (λ x. offset_from identical loop_iv chunk_offset l x)
              (λ x. offset_from identical loop_iv chunk_offset r x) a n
              (λ c q. constant-meaning given r c kr q) (λ c q. constant-meaning given l c kl q)
              (is_base-Sum l kl) (is_base-Sum r kr) (λ x q. offset_from-Reaches l x n kl q)
              (λ x q. offset_from-Reaches r x n kr q) t))
        h
  offset_from-Reaches (sub_i l r) a n (fit, (kl, kr)) h =
      at_base (sub_i l r) a n _ (fit, (kl, kr))
        (λ t.
          subst (λ m. ReachesTo m a n) (sym fit)
            (after_difference-Reaches l r (get_constant_value r)
              (λ x. offset_from identical loop_iv chunk_offset l x) a n
              (λ c q. constant-meaning given r c kr q) (λ x q. offset_from-Reaches l x n kl q) t))
        h
  offset_from-Reaches (index_cast bits x) a n (fit, k) h =
      at_base (index_cast bits x) a n _ (fit, k)
        (λ t. subst (λ m. ReachesTo m a n) (sym fit) (offset_from-Reaches x a n k t)) h
  offset_from-Reaches v a n k h = at_base v a n none k (λ q. absurd (ground arith)) h

  module _ (is_index : IndexValue → Bool) (exact_bound : IndexValue → List IndexValue → Option ℤ)
      (bound_sound : (v : IndexValue) (others : List IndexValue) (d : ℤ)
        → exact_bound v others ≡ some d
        → meaning given v ≡ total (map (meaning given) others) +ℤ d) where
    abbrev Differs : IndexValue → ℤ → Type 0
    Differs v n =
        (w : ℤ) × IsSum (meaning given loop_iv) (meaning given chunk_offset) w
        × (meaning given v ≡ w +ℤ n)

    -- By which of the three values are of index type.
    by_bounds :
        (v iv chunk : IndexValue) (n : ℤ) (tv ti tc : Bool)
        → meaning given iv ≡ meaning given loop_iv
        → meaning given chunk ≡ meaning given chunk_offset
        → (if tv
            then bound_from
                (exact_bound v)
                (let later = if tc then chunk ∷ [] else [] in if ti then iv ∷ later else later)
            else none)
          ≡ some n
        → Differs v n
    unfolding total
    by_bounds v iv chunk n true true true ei ec h = (
      meaning given loop_iv +ℤ meaning given chunk_offset,
      plus of_iv of_chunk,
      bound_sound v (iv ∷ chunk ∷ []) n h
          ∙ ap (λ z. z +ℤ n) (ap₂ (λ x y. x +ℤ y) ei (plus_zero (meaning given chunk) ∙ ec)),
    )
    by_bounds v iv chunk n true true false ei ec h = (
      meaning given loop_iv,
      of_iv,
      bound_sound v (iv ∷ []) n h ∙ ap (λ z. z +ℤ n) (plus_zero (meaning given iv) ∙ ei),
    )
    by_bounds v iv chunk n true false true ei ec h = (
      meaning given chunk_offset,
      of_chunk,
      bound_sound v (chunk ∷ []) n h ∙ ap (λ z. z +ℤ n) (plus_zero (meaning given chunk) ∙ ec),
    )
    by_bounds v iv chunk n true false false ei ec h = absurd (ground arith)
    by_bounds v iv chunk n false ti tc ei ec h = absurd (ground arith)

    -- An index of which a constant offset is extracted is that offset and a sum of one or more
    -- numbers, each the induction variable or the chunk offset, where identical values mean the
    -- same and MLIR's exact bounds of differences hold, if at every operation in the three the
    -- widths of its types do not change the result, so that each cast keeps its operand.
    pub extract_constant_offset_lem :
        (idx : IndexValue) (n : ℤ)
        → KeepsWidth given loop_iv
        → KeepsWidth given chunk_offset
        → KeepsWidth given idx
        → extract_constant_offset identical loop_iv chunk_offset is_index exact_bound idx ≡ some n
        → (w : ℤ) × IsSum (meaning given loop_iv) (meaning given chunk_offset) w
          × (meaning given idx ≡ w +ℤ n)
    unfolding extract_constant_offset prove_constant_offset_with_bounds
    extract_constant_offset_lem idx n ki kc k h =
        let strip = strip_numeric_casts in
        let proved =
          prove_constant_offset_with_bounds identical loop_iv chunk_offset is_index exact_bound
            idx in
        elim (or_else_cases proved (offset_from identical loop_iv chunk_offset idx (pos 0)) n h) [
          | inl q ↦
              let (w, sum, e) =
                by_bounds (strip idx) (strip loop_iv) (strip chunk_offset) n (is_index (strip idx))
                  (is_index (strip loop_iv)) (is_index (strip chunk_offset))
                  (strip_numeric_casts-meaning given loop_iv ki)
                  (strip_numeric_casts-meaning given chunk_offset kc) q in
              (w, sum, sym (strip_numeric_casts-meaning given idx k) ∙ e)
          | inr q ↦
              let (w, sum, e) = offset_from-Reaches idx (pos 0) n k q in
              (w, sum, sym (plus_zero (meaning given idx)) ∙ sym e)
        ]
