-- ===== src/Ids.antt =====
-- lib/carts/dialect/arts-rt/Utils/IdRegistry.cpp and its header: the ids that operations carry into
-- the runtime lowering. An operation is a number, and `key_of` gives the key of its source location
-- (LocationMetadata). The registry's maps are functions, and so is the attribute of the operations.
pub mod Sound
pub mod Unique
mod Examples
use carts.Base.{
  ℕ, suc, ◌==◌, Bool, true, false, ◌||◌, not, Option, none, some, List, [], ◌∷◌, if◌then◌else◌,
}
use carts.Base.Int.{ℤ, pos, eqb_ℤ}
use carts.Config.{Bytes}
use carts.Config.Text.{bytes_eq}

pub record Registry : Type 0 where
  pub operation_cache : ℕ → Option ℤ
  pub location_cache : Bytes → Option ℤ
  pub used_ids : ℤ → Bool
  pub next_id : ℕ

-- The registry and the id attributes of the operations.
pub record State : Type 0 where
  pub registry : Registry
  pub attribute : ℕ → Option ℤ

-- A registry that is just made, over operations of which none has an id.
abbrev pub start : State
start = record {
  registry = record {
    operation_cache = λ op. none;
    location_cache = λ key. none;
    used_ids = λ id. false;
    next_id = 1;
  };
  attribute = λ op. none;
}

abbrev pub insert_op : (ℕ → Option ℤ) → ℕ → ℤ → ℕ → Option ℤ
insert_op m op id other = if other == op then some id else m other

abbrev pub insert_id : (ℤ → Bool) → ℤ → ℤ → Bool
insert_id m id other = eqb_ℤ other id || m other

-- try_emplace keeps an entry that is there.
abbrev pub try_emplace : (Bytes → Option ℤ) → Bytes → ℤ → Bytes → Option ℤ
try_emplace m key id other = elim (m other) [
  | some known ↦ some known
  | none ↦ if bytes_eq other key then some id else none
]

unfoldable pub get : State → ℕ → ℤ
get st op = elim (st.attribute op) [ none ↦ pos 0 | some id ↦ id ]

pub set_id_attribute : State → ℕ → ℤ → State
set_id_attribute st op id = record st { attribute = insert_op st.attribute op id }

pub allocate : Registry → ℕ → Bytes → Registry × ℤ
allocate r op key =
    let id = pos r.next_id in
    (
      record {
        operation_cache = insert_op r.operation_cache op id;
        location_cache = try_emplace r.location_cache key id;
        used_ids = insert_id r.used_ids id;
        next_id = suc r.next_id;
      },
      id,
    )

-- The part of assignFromLocation after the key is known to be there.
pub assign_from_key : Registry → ℕ → Bytes → Registry × ℤ
unfolding allocate
assign_from_key r op key = elim (r.location_cache key) [
  | none ↦ allocate r op key
  | some id ↦
      if not (r.used_ids id)
      then (record r { operation_cache = insert_op r.operation_cache op id }, id)
      else allocate r op key
]

pub assign_from_location : Registry → ℕ → Bytes → Registry × ℤ
unfolding assign_from_key
assign_from_location r op [] = elim (r.operation_cache op) [ some id ↦ (r, id) | none ↦ (r, pos 0) ]
assign_from_location r op (c ∷ cs) = elim (r.operation_cache op) [
  | some id ↦ (r, id)
  | none ↦ assign_from_key r op (c ∷ cs)
]

-- What getOrCreate does where the operation has no id: the cache, then the location.
pub create : (ℕ → Bytes) → State → ℕ → State × ℤ
unfolding set_id_attribute assign_from_location
create key_of st op = elim (st.registry.operation_cache op) [
  | some id ↦ (
    set_id_attribute
        (record st {
          registry = record st.registry { used_ids = insert_id st.registry.used_ids id };
        })
        op id,
    id,
  )
  | none ↦
      let (registry, id) = assign_from_location st.registry op (key_of op) in
      let assigned = record st { registry = registry } in
      if eqb_ℤ id (pos 0) then (assigned, pos 0) else (set_id_attribute assigned op id, id)
]

unfoldable pub get_or_create : (ℕ → Bytes) → State → Option ℕ → State × ℤ
unfolding create
get_or_create key_of st none = (st, pos 0)
get_or_create key_of st (some op) =
    let existing = get st op in
    if not (eqb_ℤ existing (pos 0)) then (st, existing) else create key_of st op

-- The calls of a lowering, in order.
unfoldable pub get_or_create_all : (ℕ → Bytes) → State → List ℕ → State
get_or_create_all key_of st [] = st
get_or_create_all key_of st (op ∷ ops) =
    get_or_create_all key_of (get_or_create key_of st (some op)).0 ops
