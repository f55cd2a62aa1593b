-- ===== src/Ids/Unique.antt =====
-- No two operations are given one id.
use carts.Base.{
  ℕ, ◌≡◌, ◌≢◌, ◌⊎◌, ◌==◌, false, not, Option, none, some, List, [], ◌∷◌, arith, refl, sym, subst,
  ◌∙◌, Option-cases, Bool-cases, inl, inr, ==_iff,
}
use carts.Base.Int.{ℤ, pos, eqb_ℤ}
use carts.Config.{Bytes}
use carts.Ids.{
  Registry, State, start, insert_op, insert_id, get, set_id_attribute, allocate,
  assign_from_location, create, get_or_create, get_or_create_all,
}
use carts.Ids.Sound.{
  IsSound, insert_cases, insert_id_keeps, allocate-IsSound, assign_from_key-allocates,
}

-- What an assignment to an operation without an id leaves: the cached ids stay, and the new one is
-- cached unless it is 0.
record Assigned (r : Registry) (op : ℕ) (after : Registry × ℤ) : Type 0 where
  sound : IsSound after.0
  keeps :
      (other : ℕ) (id : ℤ)
      → r.operation_cache other ≡ some id
      → after.0.operation_cache other ≡ some id
  cached : (after.1 ≡ pos 0) ⊎ (after.0.operation_cache op ≡ some after.1)

insert_self : (m : ℕ → Option ℤ) (op : ℕ) (id : ℤ) → insert_op m op id op ≡ some id
insert_self m op id = ground arith

none-some : {id : ℤ} → none ≢ some id
none-some h = cc

insert_keeps :
    (m : ℕ → Option ℤ) (op : ℕ) (id : ℤ) (other : ℕ) (found : ℤ)
    → m op ≡ none
    → m other ≡ some found
    → insert_op m op id other ≡ some found
insert_keeps m op id other found h k = elim (Bool-cases (other == op)) [
  | inl e ↦
      let same = (==_iff other op).0 e in
      absurd (none-some (sym h ∙ subst (λ o. m o ≡ some found) same k))
  | inr e ↦ rw e k
]

allocate-Assigned :
    (r : Registry) (op : ℕ) (key : Bytes)
    → IsSound r
    → r.operation_cache op ≡ none
    → Assigned r op (allocate r op key)
unfolding allocate
allocate-Assigned r op key s h = record {
  sound = allocate-IsSound r op key s;
  keeps = λ other id. insert_keeps r.operation_cache op (pos r.next_id) other id h;
  cached = inr (insert_self r.operation_cache op (pos r.next_id));
}

assign_from_location-Assigned :
    (r : Registry) (op : ℕ) (key : Bytes)
    → IsSound r
    → r.operation_cache op ≡ none
    → Assigned r op (assign_from_location r op key)
unfolding assign_from_location
assign_from_location-Assigned r op [] s h =
    rw (h, assign_from_location) (record { sound = s; keeps = λ other id e. e; cached = inl refl })
assign_from_location-Assigned r op (c ∷ cs) s h =
    rw (h, assign_from_location, assign_from_key-allocates r op (c ∷ cs) s)
      (allocate-Assigned r op (c ∷ cs) s h)

-- The registry is sound, and every id attribute is cached.
pub record IsConsistent (st : State) : Type 0 where
  sound : IsSound st.registry
  recorded :
      (op : ℕ) (id : ℤ) → st.attribute op ≡ some id → st.registry.operation_cache op ≡ some id

set_id-IsConsistent :
    (st : State) (op : ℕ) (id : ℤ)
    → IsConsistent st
    → st.registry.operation_cache op ≡ some id
    → IsConsistent (set_id_attribute st op id)
unfolding set_id_attribute
set_id-IsConsistent st op id s h = record {
  sound = s.sound;
  recorded = λ o i e. elim (insert_cases st.attribute op id o i e) [
    | inl (same, e) ↦ rw (same, e) h
    | inr e ↦ s.recorded o i e
  ];
}

use_id-IsConsistent :
    (st : State) (id : ℤ)
    → IsConsistent st
    → IsConsistent (record st {
      registry = record st.registry { used_ids = insert_id st.registry.used_ids id };
    })
use_id-IsConsistent st id s = record {
  sound = record {
    bounded = s.sound.bounded;
    distinct = s.sound.distinct;
    consumed = λ key i e. insert_id_keeps st.registry.used_ids id i (s.sound.consumed key i e);
    positive = s.sound.positive;
  };
  recorded = s.recorded;
}

moved-IsConsistent :
    (st : State) (r : Registry)
    → IsConsistent st
    → IsSound r
    → ((other : ℕ) (id : ℤ)
        → st.registry.operation_cache other ≡ some id
        → r.operation_cache other ≡ some id)
    → IsConsistent (record st { registry = r })
moved-IsConsistent st r s sound keeps = record {
  sound = sound;
  recorded = λ op id e. keeps op id (s.recorded op id e);
}

nonzero : (id : ℤ) → id ≡ pos 0 → eqb_ℤ id (pos 0) ≢ false
nonzero id e h = ground arith

create-IsConsistent :
    (key_of : ℕ → Bytes) (st : State) (op : ℕ)
    → IsConsistent st
    → IsConsistent (create key_of st op).0
unfolding create
create-IsConsistent key_of st op s = elim (Option-cases (st.registry.operation_cache op)) [
  | inl e ↦
      let a = assign_from_location-Assigned st.registry op (key_of op) s.sound e in
      let after = assign_from_location st.registry op (key_of op) in
      let kept = moved-IsConsistent st after.0 s a.sound a.keeps in
      elim (Bool-cases (eqb_ℤ after.1 (pos 0))) [
        | inl zero ↦ rw (e, zero, create) kept
        | inr one ↦
            rw (e, one, create)
              (set_id-IsConsistent (record st { registry = after.0 }) op after.1 kept
                (elim a.cached [ inl zero ↦ absurd (nonzero after.1 zero one) | inr c ↦ c ]))
      ]
  | inr (id, e) ↦ rw (e, create) (set_id-IsConsistent _ op id (use_id-IsConsistent st id s) e)
]

get_or_create-IsConsistent :
    (key_of : ℕ → Bytes) (st : State) (op : ℕ)
    → IsConsistent st
    → IsConsistent (get_or_create key_of st (some op)).0
unfolding get_or_create
get_or_create-IsConsistent key_of st op s = elim (Bool-cases (not (eqb_ℤ (get st op) (pos 0)))) [
  | inl e ↦ rw (e, get_or_create) s
  | inr e ↦ rw (e, get_or_create) (create-IsConsistent key_of st op s)
]

start-IsConsistent : IsConsistent start
start-IsConsistent = record {
  sound = record {
    bounded = λ op id h. absurd (none-some h);
    distinct = λ op other id h k. absurd (none-some h);
    consumed = λ key id h. absurd (none-some h);
    positive = omega arith;
  };
  recorded = λ op id h. absurd (none-some h);
}

all-IsConsistent :
    (key_of : ℕ → Bytes) (st : State) (ops : List ℕ)
    → IsConsistent st
    → IsConsistent (get_or_create_all key_of st ops)
unfolding get_or_create_all
all-IsConsistent key_of st [] s = s
all-IsConsistent key_of st (op ∷ ops) s =
    all-IsConsistent key_of (get_or_create key_of st (some op)).0 ops
      (get_or_create-IsConsistent key_of st op s)

-- When ids are asked for any operations in any order, repeats included, of a registry that is just
-- made, over operations none of which has an id yet, no two operations carry the same id
-- afterwards, also when their source locations are the same.
pub get_or_create_all_unique :
    (key_of : ℕ → Bytes) (ops : List ℕ) (op other : ℕ) (id : ℤ)
    → (get_or_create_all key_of start ops).attribute op ≡ some id
    → (get_or_create_all key_of start ops).attribute other ≡ some id
    → op ≡ other
get_or_create_all_unique key_of ops op other id h k =
    let s = all-IsConsistent key_of start ops start-IsConsistent in
    s.sound.distinct op other id (s.recorded op id h) (s.recorded other id k)
