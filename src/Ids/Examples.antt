-- ===== src/Ids/Examples.antt =====
-- Runs of the id registry and an instance of the theorem about it.
use carts.Base.{ℕ, some, [], ◌∷◌, ◌≡◌, refl}
use carts.Base.Int.{pos}
use carts.Config.{Bytes, codes}
use carts.Config.Text.{bytes_eq}
use carts.Ids.{
  start, get, set_id_attribute, allocate, assign_from_key, assign_from_location, create,
  get_or_create, get_or_create_all,
}
use carts.Ids.Unique.{get_or_create_all_unique}

-- Every operation stands at one place of the source.
abbrev one_place : ℕ → Bytes
one_place op = codes "a.c:1:1"

-- Operation 9, asked for second, is given the second id though its place is that of operation 7.
second_id : (get_or_create_all one_place start (7 ∷ 9 ∷ 7 ∷ [])).attribute 9 ≡ some (pos 2)
unfolding get_or_create_all get_or_create create assign_from_location assign_from_key allocate
    set_id_attribute get bytes_eq
second_id = refl

-- An operation that carries an id before the registry is made shares it with the first operation
-- that the registry gives an id.
shared_id :
    (get_or_create_all one_place (set_id_attribute start 5 (pos 1)) (5 ∷ 7 ∷ [])).attribute 7
    ≡ (get_or_create_all one_place (set_id_attribute start 5 (pos 1)) (5 ∷ 7 ∷ [])).attribute 5
unfolding get_or_create_all get_or_create create assign_from_location assign_from_key allocate
    set_id_attribute get bytes_eq
shared_id = refl

get_or_create_all_unique_example : ◌≡◌ {A = ℕ} 9 9
get_or_create_all_unique_example =
    get_or_create_all_unique one_place (7 ∷ 9 ∷ 7 ∷ []) 9 9 (pos 2) second_id second_id
