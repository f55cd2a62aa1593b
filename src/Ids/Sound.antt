-- ===== src/Ids/Sound.antt =====
-- The cached ids of a registry are below the next one and belong to one operation each.
use carts.Base.{
  ℕ, ◌≤◌, ◌<◌, ◌≡◌, ◌≢◌, ◌⊎◌, Bool, true, Option, some, arith, refl, sym, ap, ◌∙◌, Option-cases,
  inl, inr,
}
use carts.Base.Int.{ℤ, pos, pos_part}
use carts.Config.{Bytes}
use carts.Ids.{Registry, insert_op, insert_id, try_emplace, allocate, assign_from_key}

-- Cached ids are the numbers below the next one, each of one operation; an id of a location is used.
pub record IsSound (r : Registry) : Type 0 where
  pub bounded :
      (op : ℕ) (id : ℤ)
      → r.operation_cache op ≡ some id
      → (n : ℕ) × (id ≡ pos n) × (1 ≤ n) × (n < r.next_id)
  pub distinct :
      (op other : ℕ) (id : ℤ)
      → r.operation_cache op ≡ some id
      → r.operation_cache other ≡ some id
      → op ≡ other
  pub consumed : (key : Bytes) (id : ℤ) → r.location_cache key ≡ some id → r.used_ids id ≡ true
  pub positive : 1 ≤ r.next_id

pub insert_cases :
    (m : ℕ → Option ℤ) (op : ℕ) (id : ℤ) (other : ℕ) (found : ℤ)
    → insert_op m op id other ≡ some found
    → ((other ≡ op) × (found ≡ id)) ⊎ (m other ≡ some found)
insert_cases m op id other found h = ground arith

emplace_cases :
    (m : Bytes → Option ℤ) (key : Bytes) (id : ℤ) (other : Bytes) (found : ℤ)
    → try_emplace m key id other ≡ some found
    → (m other ≡ some found) ⊎ (found ≡ id)
emplace_cases m key id other found h = ground arith

pub insert_id_keeps : (m : ℤ → Bool) (id other : ℤ) → m other ≡ true → insert_id m id other ≡ true
insert_id_keeps m id other h = ground arith

insert_id_self : (m : ℤ → Bool) (id other : ℤ) → other ≡ id → insert_id m id other ≡ true
insert_id_self m id other h = ground arith

below_next : (n next : ℕ) → n < next → n ≢ next
below_next n next h e = absurd (omega arith)

fresh :
    (r : Registry)
    → IsSound r
    → (op : ℕ) (id : ℤ) → r.operation_cache op ≡ some id
    → id ≢ pos r.next_id
fresh r s op id h e =
    let (n, known, low, high) = s.bounded op id h in
    absurd (below_next n r.next_id high (ap pos_part (sym known ∙ e)))

pub allocate-IsSound :
    (r : Registry) (op : ℕ) (key : Bytes) → IsSound r → IsSound (allocate r op key).0
unfolding allocate
allocate-IsSound r op key s = record {
  bounded = λ o id h. elim (insert_cases r.operation_cache op (pos r.next_id) o id h) [
    | inl (same, e) ↦ (r.next_id, e, s.positive, omega arith)
    | inr h ↦ let (n, e, low, high) = s.bounded o id h in (n, e, low, omega arith)
  ];
  distinct = λ o p id h k. elim (insert_cases r.operation_cache op (pos r.next_id) o id h) [
    | inl (same, e) ↦ elim (insert_cases r.operation_cache op (pos r.next_id) p id k) [
      | inl (same', e') ↦ same ∙ sym same'
      | inr k ↦ absurd (fresh r s p id k e)
    ]
    | inr h ↦ elim (insert_cases r.operation_cache op (pos r.next_id) p id k) [
      | inl (same', e') ↦ absurd (fresh r s o id h e')
      | inr k ↦ s.distinct o p id h k
    ]
  ];
  consumed = λ k id h. elim (emplace_cases r.location_cache key (pos r.next_id) k id h) [
    | inl known ↦ insert_id_keeps r.used_ids (pos r.next_id) id (s.consumed k id known)
    | inr e ↦ insert_id_self r.used_ids (pos r.next_id) id e
  ];
  positive = omega arith;
}

-- The location of a sound registry never hands its id out again.
pub assign_from_key-allocates :
    (r : Registry) (op : ℕ) (key : Bytes) → IsSound r → assign_from_key r op key ≡ allocate r op key
unfolding assign_from_key
assign_from_key-allocates r op key s = elim (Option-cases (r.location_cache key)) [
  | inl e ↦ rw (e, assign_from_key) refl
  | inr (id, e) ↦ rw (e, s.consumed key id e, assign_from_key) refl
]
