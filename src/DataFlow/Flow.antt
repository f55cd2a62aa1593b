-- ===== src/DataFlow/Flow.antt =====
-- A read is found to depend on the write before it.
use carts.Base.{
  ℕ, Bool, true, false, ◌==◌, if◌then◌else◌, some, List, [], ◌∷◌, ◌++◌, ◌≡◌, ◌≢◌, ◌⊎◌, inl, inr,
  refl, sym, ap, ◌∙◌, subst, arith, All, Bool-cases, ==_iff,
}
use carts.DbAlias.{Acquire}
use carts.DataFlow.{
  raw, Dep, Live, Environment, Task, edt, Ops, cons, Outcome, reads, writes, select,
  contains_acquire, contains_dep, eq_dep, insert_dep, classify_dep, record_dep, is_kind,
  record_from, cannot_reach, reaching, find_definitions, find_raw, find_waw, find_war, process_edt,
  process_op, process_region, needs_update, get_set, put_set, write_to, keep_to, record_between,
  with_readers, finish_task,
}
use carts.DataFlow.Genuine.{
  Genuine, find_raw_keeps, find_waw_keeps, find_war_keeps, finish_task_keeps, process_region_keeps,
}

-- A region of tasks.
abbrev pub straight : List Task → Ops → Ops
straight [] rest = rest
straight (t ∷ ts) rest = cons (edt t) (straight ts rest)

-- An acquire of a list.
abbrev pub Holds : Acquire → List Acquire → Type 0
Holds a [] = ⊥
Holds a (b ∷ bs) = (a ≡ b) ⊎ Holds a bs

abbrev Contains : Dep → List Dep → Type 0
Contains d deps = contains_dep deps d ≡ true

Contains-insert :
    (d e : Dep) (deps : List Dep) → Genuine e → Contains d deps → Contains d (insert_dep e deps)
Contains-insert d e deps g h = ground arith

-- An acquire of another allocation.
abbrev pub Elsewhere : ℕ → Acquire → Type 0
Elsewhere k a = a.parent ≢ k

get_set-put_set_self : (m : Live) (k : ℕ) (bs : List Acquire) → get_set (put_set m k bs) k ≡ bs
unfolding get_set put_set
get_set-put_set_self [] k bs = ground arith
get_set-put_set_self ((j, as') ∷ m) k bs = ground (arith, get_set-put_set_self m k bs)

get_set-put_set_ne :
    (m : Live) (j k : ℕ) (bs : List Acquire) → j ≢ k → get_set (put_set m j bs) k ≡ get_set m k
unfolding get_set put_set
get_set-put_set_ne [] j k bs h = ground arith
get_set-put_set_ne ((i, as') ∷ m) j k bs h = ground (arith, get_set-put_set_ne m j k bs)

find_waw-append :
    (xs ys : List Acquire) (o : Outcome) → find_waw (xs ++ ys) o ≡ find_waw ys (find_waw xs o)
unfolding find_waw
find_waw-append [] ys o = refl
find_waw-append (x ∷ xs) ys o = find_waw-append xs ys _

find_waw-Elsewhere :
    (k : ℕ) (ws : List Acquire) (o : Outcome)
    → All (Elsewhere k) ws
    → get_set (find_waw ws o).env.writers k ≡ get_set o.env.writers k
unfolding find_waw
find_waw-Elsewhere k [] o h = refl
find_waw-Elsewhere k (w ∷ ws) o (h, hs) =
    find_waw-Elsewhere k ws _ hs
    ∙ elim (needs_update (get_set o.env.writers w.parent) w)
        as (λ b.
          get_set (if b then write_to w o else keep_to w o).env.writers k
          ≡ get_set o.env.writers k) [
            | true ↦ get_set-put_set_ne o.env.writers w.parent k (w ∷ []) h
            | false ↦ refl
          ]

needs_update_new :
    (ds : List Acquire) (a : Acquire) → contains_acquire ds a ≡ false → needs_update ds a ≡ true
needs_update_new [] a h = refl
needs_update_new (d ∷ []) a h = ground arith
needs_update_new (d ∷ e ∷ ds) a h = refl

find_waw_step :
    (w : Acquire) (ws : List Acquire) (o : Outcome)
    → needs_update (get_set o.env.writers w.parent) w ≡ true
    → find_waw (w ∷ ws) o ≡ find_waw ws (write_to w o)
unfolding find_waw
find_waw_step w ws o h = ap (λ b. find_waw ws (if b then write_to w o else keep_to w o)) h

-- The only acquire of an allocation that a task writes becomes its only live writer.
find_waw_writes :
    (pre post : List Acquire) (a : Acquire) (o : Outcome)
    → All (Elsewhere a.parent) pre
    → All (Elsewhere a.parent) post
    → contains_acquire (get_set o.env.writers a.parent) a ≡ false
    → get_set (find_waw (pre ++ (a ∷ post)) o).env.writers a.parent ≡ a ∷ []
unfolding write_to put_set
find_waw_writes pre post a o hp hq new =
    let mid = find_waw pre o in
    let live = λ (r : Outcome). get_set r.env.writers a.parent in
    let same = find_waw-Elsewhere a.parent pre o hp in
    let update =
      needs_update_new (get_set mid.env.writers a.parent) a
        (ap (λ ds. contains_acquire ds a) same ∙ new) in
    ap live (find_waw-append pre (a ∷ post) o)
    ∙ ap live (find_waw_step a post mid update)
    ∙ find_waw-Elsewhere a.parent post (write_to a mid) hq
    ∙ get_set-put_set_self mid.env.writers a.parent (a ∷ [])

find_war_writers : (ws : List Acquire) (o : Outcome) → (find_war ws o).env.writers ≡ o.env.writers
unfolding find_war
find_war_writers [] o = refl
find_war_writers (w ∷ ws) o = find_war_writers ws _

finish_task_async : (sync : Bool) (o : Outcome) → sync ≡ false → finish_task sync o ≡ o
finish_task_async true o h = absurd (ground arith)
finish_task_async false o h = refl

-- Before the readers are added, the writers are those that the loop over the outputs leaves.
process_edt_writers :
    (t : Task) (env : Environment) (deps : List Dep) (k : ℕ)
    → t.sync ≡ false
    → (o : Outcome) × (o.env ≡ env)
      × (get_set (process_edt t env deps).env.writers k
          ≡ get_set (find_waw (select writes t.dependencies) o).env.writers k)
unfolding process_edt
process_edt_writers t env deps k async =
    let inputs = select reads t.dependencies in
    let outputs = select writes t.dependencies in
    let start : Outcome = record { env = env; changed = false; deps = find_raw inputs env deps } in
    (
      start,
      refl,
      ap (λ r. get_set (Environment.writers (Outcome.env r)) k)
            (finish_task_async t.sync
              (with_readers inputs (find_war outputs (find_waw outputs start))) async)
          ∙ ap (λ m. get_set m k) (find_war_writers outputs (find_waw outputs start)),
    )

-- A task that writes one acquire of an allocation leaves it as its only live writer.
pub process_edt_writes :
    (pre post : List Acquire) (a : Acquire) (t : Task) (env : Environment) (deps : List Dep)
    → t.sync ≡ false
    → select writes t.dependencies ≡ pre ++ (a ∷ post)
    → All (Elsewhere a.parent) pre
    → All (Elsewhere a.parent) post
    → contains_acquire (get_set env.writers a.parent) a ≡ false
    → get_set (process_edt t env deps).env.writers a.parent ≡ a ∷ []
process_edt_writes pre post a t env deps async outputs hp hq new =
    let (o, start, e) = process_edt_writers t env deps a.parent async in
    let fresh : contains_acquire (get_set o.env.writers a.parent) a ≡ false =
      ap (λ v. contains_acquire (get_set (Environment.writers v) a.parent) a) start ∙ new in
    e
    ∙ ap (λ ws. get_set (Environment.writers (Outcome.env (find_waw ws o))) a.parent) outputs
    ∙ find_waw_writes pre post a o hp hq fresh

-- A task that writes no acquire of the allocation, and does not wait for all before it.
abbrev pub Passes : ℕ → Task → Type 0
Passes k t = (t.sync ≡ false) × All (Elsewhere k) (select writes t.dependencies)

Passes-writers :
    (k : ℕ) (t : Task) (env : Environment) (deps : List Dep)
    → Passes k t
    → get_set (process_edt t env deps).env.writers k ≡ get_set env.writers k
Passes-writers k t env deps (async, other) =
    let (o, same, e) = process_edt_writers t env deps k async in
    e
    ∙ find_waw-Elsewhere k (select writes t.dependencies) o other
    ∙ ap (λ v. get_set (Environment.writers v) k) same

eq_dep_refl : (d : Dep) → eq_dep d d ≡ true
eq_dep_refl d = ground arith

Contains-insert_self : (d : Dep) (deps : List Dep) → Contains d (insert_dep d deps)
Contains-insert_self d deps = elim (Bool-cases (contains_dep deps d)) [
  | inl e ↦ rw e e
  | inr e ↦ rw e (ground (arith, eq_dep_refl d))
]

abbrev pub raw_dep : ℕ → ℕ → Acquire → Acquire → Dep
raw_dep from to p c = record { from = from; to = to; producer = p; consumer = c; kind = raw }

differ : (a b : ℕ) → a ≢ b → (a == b) ≡ false
differ a b h = elim (Bool-cases (a == b)) [ inl e ↦ absurd (h ((==_iff a b).0 e)) | inr e ↦ e ]

record_dep-Contains :
    (from to : ℕ) (p c : Acquire) (deps : List Dep)
    → p.user ≡ some from
    → c.user ≡ some to
    → from ≢ to
    → Contains (raw_dep from to p c) (record_dep p c raw deps)
unfolding record_dep
record_dep-Contains from to p c deps e f h =
    let d = raw_dep from to p c in
    let recorded : Contains d (if from == to then deps else insert_dep d deps) =
      subst (λ b. Contains d (if b then deps else insert_dep d deps)) (sym (differ from to h))
        (Contains-insert_self d deps) in
    subst (λ u. Contains d (record_between u c.user p c raw deps)) (sym e)
      (subst (λ v. Contains d (record_between (some from) v p c raw deps)) (sym f) recorded)

module _ (from to : ℕ) (a c : Acquire) (writes_a : writes a.mode ≡ true)
    (reads_c : reads c.mode ≡ true) (same : a.parent ≡ c.parent) (reach : cannot_reach a c ≡ false)
    (a_user : a.user ≡ some from) (c_user : c.user ≡ some to) (distinct : from ≢ to) where
  kind_of_two : is_kind (classify_dep a c) raw ≡ true
  unfolding classify_dep
  kind_of_two = ground arith

  record_from_one :
      (deps : List Dep)
      → Contains (raw_dep from to a c) (record_from raw (reaching (a ∷ []) c) c deps)
  unfolding record_from reaching
  record_from_one deps =
      rw (reach, kind_of_two) (record_dep-Contains from to a c deps a_user c_user distinct)

  find_raw-Contains :
      (cs : List Acquire) (env : Environment) (deps : List Dep)
      → Holds c cs
      → get_set env.writers a.parent ≡ a ∷ []
      → Contains (raw_dep from to a c) (find_raw cs env deps)
  unfolding find_raw find_definitions
  find_raw-Contains [] env deps h live = absurd h
  find_raw-Contains (b ∷ bs) env deps (inl e) live =
      let d = raw_dep from to a c in
      let here : get_set env.writers c.parent ≡ a ∷ [] =
        subst (λ k. get_set env.writers k ≡ a ∷ []) same live in
      find_raw_keeps (Contains d) (Contains-insert d) bs env _ (
        subst
          (λ z.
            Contains d
              (record_from raw (reaching (get_set env.writers (Acquire.parent z)) z) z deps))
          e
          (subst (λ ds. Contains d (record_from raw (reaching ds c) c deps)) (sym here)
            (record_from_one deps)))
  find_raw-Contains (b ∷ bs) env deps (inr h) live = find_raw-Contains bs env _ h live

  process_edt-Contains :
      (t : Task) (env : Environment) (deps : List Dep)
      → Holds c (select reads t.dependencies)
      → get_set env.writers a.parent ≡ a ∷ []
      → Contains (raw_dep from to a c) (process_edt t env deps).deps
  unfolding process_edt
  process_edt-Contains t env deps h live =
      let d = raw_dep from to a c in
      let inputs = select reads t.dependencies in
      let outputs = select writes t.dependencies in
      let start : Outcome = record {
        env = env;
        changed = false;
        deps = find_raw inputs env deps;
      } in
      finish_task_keeps (Contains d) (Contains-insert d) t.sync _ (
        find_war_keeps (Contains d) (Contains-insert d) outputs (find_waw outputs start) (
          find_waw_keeps (Contains d) (Contains-insert d) outputs start
            (find_raw-Contains inputs env deps h live)))

  read_after :
      (mids : List Task) (r : Task) (rest : Ops) (env : Environment) (changed : Bool)
      (deps : List Dep)
      → All (Passes a.parent) mids
      → Holds c (select reads r.dependencies)
      → get_set env.writers a.parent ≡ a ∷ []
      → Contains
          (raw_dep from to a c)
          (process_region (straight mids (cons (edt r) rest)) env changed deps).deps
  unfolding process_region process_op
  read_after [] r rest env changed deps p h live =
      let d = raw_dep from to a c in
      process_region_keeps (Contains d) (Contains-insert d) rest _ _ _
        (process_edt-Contains r env deps h live)
  read_after (m ∷ ms) r rest env changed deps (p, ps) h live =
      read_after ms r rest _ _ _ ps h (Passes-writers a.parent m env deps p ∙ live)

  -- Of a task that writes one acquire of an allocation, and does not wait for all before it, a task
  -- that reads the allocation by an acquire which the alias analysis does not rule out is found to
  -- depend, where the tasks between them do not write the allocation and do not wait for all before
  -- them, whatever is done before and after; the two tasks differ, and the acquire is not among
  -- the live writers before.
  pub process_region-raw :
      (pre post : List Acquire) (w : Task) (mids : List Task) (r : Task) (rest : Ops)
      (env : Environment) (changed : Bool) (deps : List Dep)
      → contains_acquire (get_set env.writers a.parent) a ≡ false
      → w.sync ≡ false
      → select writes w.dependencies ≡ pre ++ (a ∷ post)
      → All (Elsewhere a.parent) pre
      → All (Elsewhere a.parent) post
      → All (Passes a.parent) mids
      → Holds c (select reads r.dependencies)
      → contains_dep
          (process_region (cons (edt w) (straight mids (cons (edt r) rest))) env changed deps).deps
          (raw_dep from to a c)
        ≡ true
  unfolding process_region process_op
  process_region-raw pre post w mids r rest env changed deps new async outputs hp hq pass h =
      read_after mids r rest _ _ _ pass h
        (process_edt_writes pre post a w env deps async outputs hp hq new)
