-- ===== src/ValueFacts/Strip.antt =====
-- What stripping a constant offset, or a maximum with 1, leaves of a value.
use carts.Base.{ℕ, ◌<◌, max, Bool, true, false, if◌then◌else◌, ◌≡◌, refl, sym, ap, ◌∙◌, arith}
use carts.Base.Int.{ℤ, pos, ◌+ℤ◌, ◌-ℤ◌, eq_of_parts, +ℤ_comm}
use carts.Schedule.Chunk.Run.{modulus, word}
use carts.Fold.{
  IndexValue, constant, index_cast, ext_si, ext_ui, trunc_i, add_i, sub_i, max_ui, signed,
  strip_numeric_casts,
}
use carts.Fold.Meaning.{Env, KeepsWidth, unbounded, meaning}
use carts.Fold.Parts.{strip_numeric_casts-meaning, strip_numeric_casts-KeepsWidth}
use carts.ValueFacts.{strip_constant_offset, strip_clamp_one, is_one_constant}

pub plus_zero : (a : ℤ) → a +ℤ pos 0 ≡ a
unfolding ◌+ℤ◌
plus_zero a = ground arith

plus_behind : (x c n : ℤ) → x +ℤ (c +ℤ n) ≡ x +ℤ n +ℤ c
unfolding ◌+ℤ◌
plus_behind x c n = ground arith

minus_behind : (x c n : ℤ) → x +ℤ (c -ℤ n) ≡ x -ℤ n +ℤ c
unfolding ◌+ℤ◌ ◌-ℤ◌
minus_behind x c n = ground arith

-- The stripped value and the offset together are the value and what was accumulated before.
strip_constant_offset_from :
    (given : Env) (v : IndexValue) (c : ℤ)
    → KeepsWidth given v
    → meaning given (strip_constant_offset v c).0 +ℤ (strip_constant_offset v c).1
      ≡ meaning given v +ℤ c
unfolding strip_constant_offset KeepsWidth unbounded
strip_constant_offset_from given (index_cast bits x) c (fit, k) =
    strip_constant_offset_from given x c k ∙ ap (λ z. z +ℤ c) (sym fit)
strip_constant_offset_from given (ext_si bits x) c (fit, k) =
    strip_constant_offset_from given x c k ∙ ap (λ z. z +ℤ c) (sym fit)
strip_constant_offset_from given (ext_ui bits x) c (fit, k) =
    strip_constant_offset_from given x c k ∙ ap (λ z. z +ℤ c) (sym fit)
strip_constant_offset_from given (trunc_i bits x) c (fit, k) =
    strip_constant_offset_from given x c k ∙ ap (λ z. z +ℤ c) (sym fit)
strip_constant_offset_from given (add_i (constant bits n) r) c (fit, (kl, kr)) =
    strip_constant_offset_from given r (c +ℤ n) kr
    ∙ plus_behind (meaning given r) c n
    ∙ ap (λ z. z +ℤ c) (+ℤ_comm (meaning given r) n)
    ∙ ap (λ z. z +ℤ meaning given r +ℤ c) (sym kl)
    ∙ ap (λ z. z +ℤ c) (sym fit)
strip_constant_offset_from given (add_i l (constant bits n)) c (fit, (kl, kr)) =
    strip_constant_offset_from given l (c +ℤ n) kl
    ∙ plus_behind (meaning given l) c n
    ∙ ap (λ z. meaning given l +ℤ z +ℤ c) (sym kr)
    ∙ ap (λ z. z +ℤ c) (sym fit)
strip_constant_offset_from given (sub_i l (constant bits n)) c (fit, (kl, kr)) =
    strip_constant_offset_from given l (c -ℤ n) kl
    ∙ minus_behind (meaning given l) c n
    ∙ ap (λ z. meaning given l -ℤ z +ℤ c) (sym kr)
    ∙ ap (λ z. z +ℤ c) (sym fit)
strip_constant_offset_from given v c k = refl

pub word-signed : (w : ℕ) → w < modulus → word (signed w) ≡ w
word-signed w h = ground arith

pub word_small : (a : ℤ) → word a < modulus
word_small a = ground arith

one_of_test :
    (v : IndexValue) (given : Env)
    → KeepsWidth given v
    → is_one_constant v ≡ true
    → meaning given v ≡ pos 1
unfolding KeepsWidth unbounded
one_of_test (constant bits n) given k h = k ∙ eq_of_parts n (pos 1) (ground arith)
one_of_test v given k h = absurd (ground arith)

-- The maximum of two words, at least 1.
max_of_words :
    (a b : ℤ) → max 1 (word (signed (max (word a) (word b)))) ≡ max 1 (max (word a) (word b))
max_of_words a b =
    ap (λ w. max 1 w)
      (word-signed (max (word a) (word b)) (omega (arith, word_small a, word_small b)))

-- By which of the two operands is 1.
clamp_cases :
    (given : Env) (left right : Bool) (l r sl sr : IndexValue)
    → meaning given (max_ui l r) ≡ signed (max (word (meaning given l)) (word (meaning given r)))
    → (left ≡ true → meaning given l ≡ pos 1)
    → (right ≡ true → meaning given r ≡ pos 1)
    → max 1 (word (meaning given sl)) ≡ max 1 (word (meaning given l))
    → max 1 (word (meaning given sr)) ≡ max 1 (word (meaning given r))
    → max 1 (word (meaning given (if left then sr else if right then sl else max_ui l r)))
      ≡ max 1 (word (meaning given (max_ui l r)))
clamp_cases given true right l r sl sr fit one_l one_r el er =
    let one : word (meaning given l) ≡ 1 = ap word (one_l refl) in
    rw fit (omega (arith, er, one, max_of_words (meaning given l) (meaning given r)))
clamp_cases given false true l r sl sr fit one_l one_r el er =
    let one : word (meaning given r) ≡ 1 = ap word (one_r refl) in
    rw fit (omega (arith, el, one, max_of_words (meaning given l) (meaning given r)))
clamp_cases given false false l r sl sr fit one_l one_r el er = refl

-- Stripping a maximum with 1 keeps the value, where it is at least 1 as a word, and so the maximum
-- of it and 1.
strip_clamp_one_lem :
    (given : Env) (v : IndexValue)
    → KeepsWidth given v
    → max 1 (word (meaning given (strip_clamp_one v))) ≡ max 1 (word (meaning given v))
unfolding strip_clamp_one KeepsWidth unbounded
strip_clamp_one_lem given (index_cast bits x) (fit, k) =
    strip_clamp_one_lem given x k ∙ ap (λ z. max 1 (word z)) (sym fit)
strip_clamp_one_lem given (ext_si bits x) (fit, k) =
    strip_clamp_one_lem given x k ∙ ap (λ z. max 1 (word z)) (sym fit)
strip_clamp_one_lem given (ext_ui bits x) (fit, k) =
    strip_clamp_one_lem given x k ∙ ap (λ z. max 1 (word z)) (sym fit)
strip_clamp_one_lem given (trunc_i bits x) (fit, k) =
    strip_clamp_one_lem given x k ∙ ap (λ z. max 1 (word z)) (sym fit)
strip_clamp_one_lem given (max_ui l r) (fit, (kl, kr)) =
    clamp_cases given (is_one_constant (strip_numeric_casts l))
      (is_one_constant (strip_numeric_casts r)) l r (strip_clamp_one l) (strip_clamp_one r) fit
      (λ h.
        sym (strip_numeric_casts-meaning given l kl)
        ∙ one_of_test (strip_numeric_casts l) given (strip_numeric_casts-KeepsWidth given l kl) h)
      (λ h.
        sym (strip_numeric_casts-meaning given r kr)
        ∙ one_of_test (strip_numeric_casts r) given (strip_numeric_casts-KeepsWidth given r kr) h)
      (strip_clamp_one_lem given l kl) (strip_clamp_one_lem given r kr)
strip_clamp_one_lem given v k = refl

-- The value that is left when constant offsets are stripped, and the offset that is returned, add up
-- to the value; and a value whose maximum with 1 is stripped is the same word, wherever either is at
-- least 1; both where no width changes a result.
pub strip_lem :
    (given : Env) (v : IndexValue)
    → KeepsWidth given v
    → (meaning given (strip_constant_offset v (pos 0)).0 +ℤ (strip_constant_offset v (pos 0)).1
        ≡ meaning given v)
      × (max 1 (word (meaning given (strip_clamp_one v))) ≡ max 1 (word (meaning given v)))
strip_lem given v k = (
  strip_constant_offset_from given v (pos 0) k ∙ plus_zero (meaning given v),
  strip_clamp_one_lem given v k,
)
