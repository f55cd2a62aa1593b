-- ===== src/Offsets/Sums.antt =====
-- Sums of base values, and how a constant moves out of them.
use carts.Base.{some, ◌≡◌, sym, ap, ◌∙◌, arith, List, [], ◌∷◌}
use carts.Base.Int.{ℤ, pos, ◌+ℤ◌, ◌-ℤ◌, +ℤ_comm, +ℤ_assoc}
use carts.Fold.{IndexValue, constant}
use carts.Fold.Meaning.{Env, KeepsWidth, unbounded, meaning}
use carts.Fold.Parts.{unsome}
use carts.ValueFacts.{get_constant_value}

unfoldable pub total : List ℤ → ℤ
total [] = pos 0
total (a ∷ rest) = a +ℤ total rest

-- A sum of one or more numbers, each the induction variable or the chunk offset.
pub data IsSum (iv chunk : ℤ) : ℤ → Type 0 where
  of_iv : IsSum iv chunk iv
  of_chunk : IsSum iv chunk chunk
  plus : {a b : ℤ} → IsSum iv chunk a → IsSum iv chunk b → IsSum iv chunk (a +ℤ b)

pub constant-meaning :
    (given : Env) (v : IndexValue) (c : ℤ)
    → KeepsWidth given v
    → get_constant_value v ≡ some c
    → meaning given v ≡ c
unfolding KeepsWidth unbounded
constant-meaning given (constant bits n) c k h = k ∙ unsome n c h
constant-meaning given v c k h = absurd (ground arith)

-- Where the number that is left differs from the value by a constant.
pub move_sum : (l c a w n : ℤ) → w +ℤ n ≡ l +ℤ (a +ℤ c) → w +ℤ n ≡ l +ℤ c +ℤ a
move_sum l c a w n h = h ∙ ap (λ z. l +ℤ z) (+ℤ_comm a c) ∙ sym (+ℤ_assoc l c a)

pub move_left : (r c a w n : ℤ) → w +ℤ n ≡ r +ℤ (a +ℤ c) → w +ℤ n ≡ c +ℤ r +ℤ a
move_left r c a w n h = move_sum r c a w n h ∙ ap (λ z. z +ℤ a) (+ℤ_comm r c)

pub move_difference : (l c a w n : ℤ) → w +ℤ n ≡ l +ℤ (a -ℤ c) → w +ℤ n ≡ l -ℤ c +ℤ a
unfolding ◌+ℤ◌ ◌-ℤ◌
move_difference l c a w n h = h ∙ regrouped
  where
    regrouped : l +ℤ (a -ℤ c) ≡ l -ℤ c +ℤ a
    regrouped = ground arith
