-- ===== src/DataFlow/Lost.antt =====
-- A write of one part of an allocation hides the writes of its other parts.
use carts.Base.{
  ℕ, true, false, ◌==◌, if◌then◌else◌, Option, none, some, List, [], ◌∷◌, ◌≡◌, ◌≢◌, inl, inr, refl,
  sym, ap, ◌∙◌, subst, All, Bool-cases,
}
use carts.DbAlias.{in_mode, out_mode, Acquire}
use carts.DataFlow.{
  DbDepType, raw, waw, war, Dep, Environment, Task, nil, Outcome, reads, writes, select,
  contains_dep, insert_dep, classify_dep, record_dep, is_kind, record_from, cannot_reach, reaching,
  find_definitions, find_raw, find_waw, find_war, process_edt, process_op, process_region, run,
  needs_update, get_set, written, record_between, nothing_live, write_to, keep_to, with_readers,
  contains_acquire,
}
use carts.DataFlow.Flow.{straight, process_edt_writes}

-- A task with one acquire.
abbrev pub single : Acquire → Task
single a = record { sync = false; dependencies = some a ∷ [] }

-- No dependence of a task is among those recorded.
abbrev pub Free : ℕ → List Dep → Type 0
Free to = All (λ d. d.to ≢ to)

Free-insert :
    (to : ℕ) (d : Dep) (deps : List Dep) → d.to ≢ to → Free to deps → Free to (insert_dep d deps)
Free-insert to d deps h all = elim (Bool-cases (contains_dep deps d)) [
  | inl e ↦ rw e all
  | inr e ↦ rw e (h, all)
]

record_between-Free :
    (to : ℕ) (u v : Option ℕ) (p c : Acquire) (kind : DbDepType) (deps : List Dep)
    → v ≢ some to
    → Free to deps
    → Free to (record_between u v p c kind deps)
record_between-Free to none v p c kind deps h all = all
record_between-Free to (some i) none p c kind deps h all = all
record_between-Free to (some i) (some j) p c kind deps h all = elim (Bool-cases (i == j)) [
  | inl e ↦ rw e all
  | inr e ↦ rw e (Free-insert to _ deps (λ q. h (ap some q)) all)
]

record_from-Free :
    (to : ℕ) (kind : DbDepType) (ps : List Acquire) (c : Acquire) (deps : List Dep)
    → c.user ≢ some to
    → Free to deps
    → Free to (record_from kind ps c deps)
unfolding record_from record_dep
record_from-Free to kind [] c deps h all = all
record_from-Free to kind (p ∷ ps) c deps h all =
    elim (Bool-cases (is_kind (classify_dep p c) kind)) [
      | inl e ↦ rw e (
          record_from-Free to kind ps c _ h
            (record_between-Free to p.user c.user p c kind deps h all))
      | inr e ↦ rw e (record_from-Free to kind ps c deps h all)
    ]

-- A task, by what it reads and what it writes.
abbrev task_outcome : List Acquire → List Acquire → Environment → List Dep → Outcome
task_outcome inputs outputs env deps = with_readers inputs (
    find_war outputs
      (find_waw outputs (record { env = env; changed = false; deps = find_raw inputs env deps })))

out_task :
    (a : Acquire) (env : Environment) (deps : List Dep)
    → a.mode ≡ out_mode
    → process_edt (single a) env deps ≡ task_outcome [] (a ∷ []) env deps
unfolding process_edt
out_task a env deps m =
    ap
      (λ k.
        task_outcome (if reads k then a ∷ [] else []) (if writes k then a ∷ [] else []) env deps)
      m

in_task :
    (a : Acquire) (env : Environment) (deps : List Dep)
    → a.mode ≡ in_mode
    → process_edt (single a) env deps ≡ task_outcome (a ∷ []) [] env deps
unfolding process_edt
in_task a env deps m =
    ap
      (λ k.
        task_outcome (if reads k then a ∷ [] else []) (if writes k then a ∷ [] else []) env deps)
      m

-- A task that only writes is a target of its own dependences alone.
out_task-Free :
    (to : ℕ) (a : Acquire) (env : Environment) (deps : List Dep)
    → a.mode ≡ out_mode
    → a.user ≢ some to
    → Free to deps
    → Free to (process_edt (single a) env deps).deps
unfolding find_raw find_waw find_war written find_definitions
out_task-Free to a env deps m h all =
    let start : Outcome = record { env = env; changed = false; deps = deps } in
    let after : Free to (find_waw (a ∷ []) start).deps =
      elim (needs_update (get_set env.writers a.parent) a)
        as (λ b. Free to (if b then write_to a start else keep_to a start).deps) [
          | true ↦ record_from-Free to waw (find_definitions a env) a deps h all
          | false ↦ record_from-Free to waw (find_definitions a env) a deps h all
        ] in
    subst (λ r. Free to (Outcome.deps r)) (sym (out_task a env deps m))
      (record_from-Free to war (get_set (find_waw (a ∷ []) start).env.readers a.parent) a _ h after)

-- A task that only reads, where the only live writer is ruled out, depends on nothing.
in_task-Free :
    (to : ℕ) (b c : Acquire) (env : Environment) (deps : List Dep)
    → c.mode ≡ in_mode
    → get_set env.writers c.parent ≡ b ∷ []
    → cannot_reach b c ≡ true
    → Free to deps
    → Free to (process_edt (single c) env deps).deps
unfolding find_raw find_waw find_war find_definitions reaching record_from
in_task-Free to b c env deps m live out all =
    subst (λ r. Free to (Outcome.deps r)) (sym (in_task c env deps m))
      (subst (λ ds. Free to (record_from raw (reaching ds c) c deps)) (sym live) (rw out all))

select_out : (a : Acquire) → a.mode ≡ out_mode → select writes (some a ∷ []) ≡ a ∷ []
select_out a m = ap (λ k. if writes k then a ∷ [] else []) m

-- After a write of an allocation, a write of another part of it, and a read that the second write
-- cannot reach, no dependence of the reading task is recorded: also not on the first write, even
-- where it is of the very part that is read.
pub run-Free :
    (a b c : Acquire) (to : ℕ)
    → a.mode ≡ out_mode
    → b.mode ≡ out_mode
    → c.mode ≡ in_mode
    → a.parent ≡ b.parent
    → b.parent ≡ c.parent
    → (a.node == b.node) ≡ false
    → a.user ≢ some to
    → b.user ≢ some to
    → c.user ≡ some to
    → cannot_reach b c ≡ true
    → All (λ d. d.to ≢ to) (run (straight (single a ∷ single b ∷ single c ∷ []) nil))
unfolding run process_region process_op get_set
run-Free a b c to ma mb mc ab bc other ua ub uc out =
    let first = process_edt (single a) nothing_live [] in
    let second = process_edt (single b) first.env first.deps in
    let free = out_task-Free to a nothing_live [] ma ua tt in
    let free' = out_task-Free to b first.env first.deps mb ub free in
    let live : get_set first.env.writers a.parent ≡ a ∷ [] =
      process_edt_writes [] [] a (single a) nothing_live [] refl (select_out a ma) tt tt refl in
    let live_b : get_set first.env.writers b.parent ≡ a ∷ [] =
      subst (λ k. get_set first.env.writers k ≡ a ∷ []) ab live in
    let fresh : contains_acquire (get_set first.env.writers b.parent) b ≡ false =
      ap (λ ds. contains_acquire ds b) live_b ∙ rw other refl in
    let live' : get_set second.env.writers b.parent ≡ b ∷ [] =
      process_edt_writes [] [] b (single b) first.env first.deps refl (select_out b mb) tt tt
        fresh in
    in_task-Free to b c second.env second.deps mc
      (subst (λ k. get_set second.env.writers k ≡ b ∷ []) bc live') out free'
