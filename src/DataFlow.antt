-- ===== src/DataFlow.antt =====
-- lib/carts/dialect/arts/Analysis/edt/EdtDataFlowAnalysis.cpp: the dependences between the tasks of
-- a function. A set of acquires or of dependences is a list without repetitions, and a map from
-- allocations an association list. The order of the result, by position in the function and for one
-- pair of tasks by insertion, is left out.
pub mod Genuine
pub mod Flow
pub mod Lost
mod Examples
use carts.Base.{
  ℕ, zero, suc, Bool, true, false, not, ◌&&◌, ◌||◌, ◌==◌, if◌then◌else◌, Option, none, some, List,
  [], ◌∷◌, any,
}
use carts.DbAlias.{
  AliasResult, no_alias, may_alias, OverlapKind, disjoint, ArtsMode, in_mode, out_mode, inout,
  Acquire, acquire, estimate_overlap, classify_alias,
}

pub data DbDepType : Type 0 where
  raw waw war : DbDepType

-- An edge between two tasks: DbEdge under its key in dependencyMap.
pub record Dep : Type 0 where
  pub from : ℕ
  pub to : ℕ
  pub producer : Acquire
  pub consumer : Acquire
  pub kind : DbDepType

-- The writers and readers that are live, by allocation.
abbrev pub Live : Type 0
Live = List (ℕ × List Acquire)

pub record Environment : Type 0 where
  pub writers : Live
  pub readers : Live

-- A task: whether it is synchronous, and the acquires that its dependencies are defined by; one
-- that is not an acquire of the graph is `none`.
pub record Task : Type 0 where
  pub sync : Bool
  pub dependencies : List (Option Acquire)

-- The operations of a region that the analysis looks into. An absent else region is an empty one.
mutual
  pub data Op : Type 0 where
    edt : Task → Op
    epoch : Ops → Op
    if_op : Ops → Ops → Op
    for_op : Ops → Op
    other : Op

  pub data Ops : Type 0 where
    nil : Ops
    cons : Op → Ops → Ops

pub record Outcome : Type 0 where
  pub env : Environment
  pub changed : Bool
  pub deps : List Dep

abbrev pub reads : ArtsMode → Bool
reads in_mode = true
reads inout = true
reads _ = false

abbrev pub writes : ArtsMode → Bool
writes out_mode = true
writes inout = true
writes _ = false

abbrev pub select : (ArtsMode → Bool) → List (Option Acquire) → List Acquire
select p [] = []
select p (none ∷ ds) = select p ds
select p (some a ∷ ds) = if p a.mode then a ∷ select p ds else select p ds

abbrev pub contains_acquire : List Acquire → Acquire → Bool
contains_acquire as' a = any (λ b. b.node == a.node) as'

abbrev pub insert_acquire : Acquire → List Acquire → List Acquire
insert_acquire a as' = if contains_acquire as' a then as' else a ∷ as'

-- defs of a map, without an entry the empty set.
unfoldable pub get_set : Live → ℕ → List Acquire
get_set [] k = []
get_set ((j, as') ∷ m) k = if j == k then as' else get_set m k

-- A write at a key, which makes an entry where there is none.
unfoldable pub put_set : Live → ℕ → List Acquire → Live
put_set [] k bs = (k, bs) ∷ []
put_set ((j, as') ∷ m) k bs = if j == k then (j, bs) ∷ m else (j, as') ∷ put_set m k bs

abbrev pub dep_code : DbDepType → ℕ
dep_code raw = 0
dep_code waw = 1
dep_code war = 2

abbrev pub eq_dep : Dep → Dep → Bool
eq_dep d e =
    d.from == e.from
    && (d.to == e.to
        && (d.producer.node == e.producer.node
            && (d.consumer.node == e.consumer.node && dep_code d.kind == dep_code e.kind)))

abbrev pub contains_dep : List Dep → Dep → Bool
contains_dep deps d = any (λ e. eq_dep e d) deps

abbrev pub insert_dep : Dep → List Dep → List Dep
insert_dep d deps = if contains_dep deps d then deps else d ∷ deps

unfoldable pub classify_dep : Acquire → Acquire → Option DbDepType
classify_dep producer consumer =
    if not (producer.parent == consumer.parent)
    then none
    else if writes producer.mode && reads consumer.mode
    then some raw
    else if writes producer.mode && writes consumer.mode
    then some waw
    else if reads producer.mode && writes consumer.mode
    then some war
    else none

abbrev pub record_between :
    Option ℕ → Option ℕ → Acquire → Acquire → DbDepType → List Dep → List Dep
record_between none to p c kind deps = deps
record_between (some from) none p c kind deps = deps
record_between (some from) (some to) p c kind deps =
    if from == to
    then deps
    else insert_dep (record { from = from; to = to; producer = p; consumer = c; kind = kind }) deps

-- A dependence within one task, or of an acquire that no task uses, is not recorded.
unfoldable pub record_dep : Acquire → Acquire → DbDepType → List Dep → List Dep
record_dep p c kind deps = record_between p.user c.user p c kind deps

abbrev pub is_kind : Option DbDepType → DbDepType → Bool
is_kind none kind = false
is_kind (some k) kind = dep_code k == dep_code kind

-- The inner loops: of the candidates, those whose dependence is of the kind that is looked for.
unfoldable pub record_from : DbDepType → List Acquire → Acquire → List Dep → List Dep
unfolding record_dep classify_dep
record_from kind [] c deps = deps
record_from kind (p ∷ ps) c deps =
    record_from kind ps c
      (if is_kind (classify_dep p c) kind then record_dep p c kind deps else deps)

abbrev pub is_disjoint : OverlapKind → Bool
is_disjoint disjoint = true
is_disjoint _ = false

abbrev pub ruled_out : AliasResult → OverlapKind → Bool
ruled_out no_alias overlap = true
ruled_out may_alias overlap = is_disjoint overlap
ruled_out _ overlap = false

unfoldable pub cannot_reach : Acquire → Acquire → Bool
unfolding classify_alias estimate_overlap
cannot_reach def a = ruled_out (classify_alias (acquire def) (acquire a)) (estimate_overlap def a)

unfoldable pub reaching : List Acquire → Acquire → List Acquire
unfolding cannot_reach
reaching [] a = []
reaching (def ∷ defs) a = if cannot_reach def a then reaching defs a else def ∷ reaching defs a

unfoldable pub find_definitions : Acquire → Environment → List Acquire
unfolding reaching get_set
find_definitions a env = reaching (get_set env.writers a.parent) a

-- The loop over the input acquires.
unfoldable pub find_raw : List Acquire → Environment → List Dep → List Dep
unfolding find_definitions record_from
find_raw [] env deps = deps
find_raw (c ∷ cs) env deps = find_raw cs env (record_from raw (find_definitions c env) c deps)

-- defs.size() != 1 || !defs.contains(writer)
abbrev pub needs_update : List Acquire → Acquire → Bool
needs_update (d ∷ []) w = not (d.node == w.node)
needs_update _ w = true

-- The dependences of an output acquire on the writers that are live.
unfoldable pub written : Acquire → Outcome → List Dep
unfolding find_definitions record_from
written w o = record_from waw (find_definitions w o.env) w o.deps

-- A writer takes the place of all definitions of its allocation, where it is not the only one.
abbrev pub write_to : Acquire → Outcome → Outcome
unfolding put_set written
write_to w o = record {
  env = record { writers = put_set o.env.writers w.parent (w ∷ []); readers = o.env.readers };
  changed = true;
  deps = written w o;
}

abbrev pub keep_to : Acquire → Outcome → Outcome
unfolding written
keep_to w o = record { env = o.env; changed = o.changed; deps = written w o }

-- The first loop over the output acquires.
unfoldable pub find_waw : List Acquire → Outcome → Outcome
unfolding get_set put_set written
find_waw [] o = o
find_waw (w ∷ ws) o =
    find_waw ws
      (if needs_update (get_set o.env.writers w.parent) w then write_to w o else keep_to w o)

-- The second loop over them, which makes an entry for the readers and empties it.
unfoldable pub find_war : List Acquire → Outcome → Outcome
unfolding record_from get_set put_set
find_war [] o = o
find_war (w ∷ ws) o = find_war ws (record {
  env = record { writers = o.env.writers; readers = put_set o.env.readers w.parent [] };
  changed = o.changed;
  deps = record_from war (get_set o.env.readers w.parent) w o.deps;
})

unfoldable pub add_readers : List Acquire → Live → Live
unfolding get_set put_set
add_readers [] m = m
add_readers (r ∷ rs) m = add_readers rs (put_set m r.parent (insert_acquire r (get_set m r.parent)))

abbrev pub nothing_live : Environment
nothing_live = record { writers = []; readers = [] }

abbrev pub is_empty : Live → Bool
is_empty [] = true
is_empty (e ∷ m) = false

-- A synchronous task leaves nothing live.
abbrev pub finish_task : Bool → Outcome → Outcome
finish_task false o = o
finish_task true o = record {
  env = nothing_live;
  changed = o.changed || (not (is_empty o.env.writers) || not (is_empty o.env.readers));
  deps = o.deps;
}

abbrev pub with_readers : List Acquire → Outcome → Outcome
with_readers inputs o = record {
  env = record { writers = o.env.writers; readers = add_readers inputs o.env.readers };
  changed = o.changed;
  deps = o.deps;
}

unfoldable pub process_edt : Task → Environment → List Dep → Outcome
unfolding find_raw find_waw find_war add_readers
process_edt t env deps =
    let inputs = select reads t.dependencies in
    let outputs = select writes t.dependencies in
    let start : Outcome = record { env = env; changed = false; deps = find_raw inputs env deps } in
    finish_task t.sync (with_readers inputs (find_war outputs (find_waw outputs start)))

-- The acquires of one entry of the source.
abbrev pub union_set : List Acquire → List Acquire → List Acquire × Bool
union_set target [] = (target, false)
union_set target (a ∷ as') =
    let rest = union_set (insert_acquire a target) as' in
    (rest.0, not (contains_acquire target a) || rest.1)

unfoldable pub union_live : Live → Live → Live × Bool
unfolding get_set put_set
union_live target [] = (target, false)
union_live target ((k, as') ∷ m) =
    let set = union_set (get_set target k) as' in
    let rest = union_live (put_set target k set.0) m in (rest.0, set.1 || rest.1)

unfoldable pub union_into : Environment → Environment → Environment × Bool
unfolding union_live
union_into target source =
    let w = union_live target.writers source.writers in
    let r = union_live target.readers source.readers in
    (record { writers = w.0; readers = r.0 }, w.1 || r.1)

-- The rounds of a loop: to a fixed point, or as many as are given.
unfoldable pub iterate :
    (Environment → List Dep → Outcome) → ℕ → Environment → Bool → List Dep → Outcome
unfolding union_into
iterate body zero env changed deps = record { env = env; changed = changed; deps = deps }
iterate body (suc rounds) env changed deps =
    let r = body env deps in
    let u = union_into env r.env in
    let now = changed || (r.changed || u.1) in
    let rest = iterate body rounds u.0 now r.deps in
    if not r.changed && not u.1 then record { env = u.0; changed = now; deps = r.deps } else rest

abbrev pub max_iterations : ℕ
max_iterations = 5

abbrev pub merge_branches : Outcome → Outcome → Outcome
unfolding union_into
merge_branches t e =
    let u = union_into t.env e.env in
    record { env = u.0; changed = t.changed || (e.changed || u.1); deps = e.deps }

unfoldable mutual
  unfolding process_edt iterate union_into

  pub process_op : Op → Environment → List Dep → Outcome
  process_op (edt t) env deps = process_edt t env deps
  process_op (epoch body) env deps =
      let r = process_region body env false deps in
      record { env = nothing_live; changed = r.changed; deps = r.deps }
  process_op (if_op then_ops else_ops) env deps =
      let t = process_region then_ops env false deps in
      merge_branches t (process_region else_ops env false t.deps)
  process_op (for_op body) env deps =
      iterate (λ e d. process_region body e false d) max_iterations env false deps
  process_op other env deps = record { env = env; changed = false; deps = deps }

  -- What is live and whether anything changed is carried from each operation to the next.
  pub process_region : Ops → Environment → Bool → List Dep → Outcome
  process_region nil env changed deps = record { env = env; changed = changed; deps = deps }
  process_region (cons op ops) env changed deps =
      let r = process_op op env deps in process_region ops r.env (changed || r.changed) r.deps

-- The dependences of a function's body.
unfoldable pub run : Ops → List Dep
unfolding process_region
run body = (process_region body nothing_live false []).deps
