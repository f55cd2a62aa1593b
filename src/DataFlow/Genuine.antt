-- ===== src/DataFlow/Genuine.antt =====
-- Each dependence that the analysis records is one between two tasks that use the same allocation.
use carts.Base.{
  ℕ, zero, suc, Bool, true, false, not, ◌&&◌, ◌==◌, if◌then◌else◌, Option, none, some, List, [],
  ◌∷◌, ◌≡◌, ◌≢◌, ◌⊎◌, inl, inr, refl, arith, All, Bool-cases,
}
use carts.DbAlias.{ArtsMode, Acquire}
use carts.DataFlow.{
  DbDepType, raw, waw, war, Dep, Environment, Task, Op, edt, epoch, if_op, for_op, other, Ops, nil,
  cons, Outcome, reads, writes, select, contains_dep, insert_dep, classify_dep, record_dep, is_kind,
  record_from, cannot_reach, reaching, find_definitions, find_raw, find_waw, find_war, process_edt,
  iterate, max_iterations, process_op, process_region, run, needs_update, get_set, finish_task,
  record_between, union_into, nothing_live, write_to, keep_to, written,
}

-- What the modes of the two acquires are for a dependence of each kind.
abbrev pub Fits : DbDepType → ArtsMode → ArtsMode → Type 0
Fits raw before after = (writes before ≡ true) × (reads after ≡ true)
Fits waw before after = (writes before ≡ true) × (writes after ≡ true)
Fits war before after = (reads before ≡ true) × (writes after ≡ true)

pub record Genuine (d : Dep) : Type 0 where
  pub distinct : d.from ≢ d.to
  pub producer_user : d.producer.user ≡ some d.from
  pub consumer_user : d.consumer.user ≡ some d.to
  pub parent : d.producer.parent ≡ d.consumer.parent
  pub fits : Fits d.kind d.producer.mode d.consumer.mode
  pub may_reach : (d.kind ≡ war) ⊎ (cannot_reach d.producer d.consumer ≡ false)

classify_dep-Fits :
    (p c : Acquire) (kind : DbDepType)
    → is_kind (classify_dep p c) kind ≡ true
    → (p.parent ≡ c.parent) × Fits kind p.mode c.mode
unfolding classify_dep
classify_dep-Fits p c raw h = (ground arith, (ground arith, ground arith))
classify_dep-Fits p c waw h = (ground arith, (ground arith, ground arith))
classify_dep-Fits p c war h = (ground arith, (ground arith, ground arith))

abbrev MayReach : DbDepType → Acquire → Acquire → Type 0
MayReach kind c p = (kind ≡ war) ⊎ (cannot_reach p c ≡ false)

reaching-All :
    (kind : DbDepType) (defs : List Acquire) (a : Acquire) → All (MayReach kind a) (reaching defs a)
unfolding reaching
reaching-All kind [] a = tt
reaching-All kind (d ∷ ds) a = elim (Bool-cases (cannot_reach d a)) [
  | inl e ↦ rw e (reaching-All kind ds a)
  | inr e ↦ rw e (inr e, reaching-All kind ds a)
]

war-All : (ps : List Acquire) (c : Acquire) → All (MayReach war c) ps
war-All [] c = tt
war-All (p ∷ ps) c = (inl refl, war-All ps c)

insert_dep-All :
    (d : Dep) (deps : List Dep) → Genuine d → All Genuine deps → All Genuine (insert_dep d deps)
insert_dep-All d deps g all = elim (Bool-cases (contains_dep deps d)) [
  | inl e ↦ rw e all
  | inr e ↦ rw e (g, all)
]

-- What recording a genuine dependence keeps, the analysis keeps.
module _ (P : List Dep → Type 0)
    (keep : (d : Dep) (deps : List Dep) → Genuine d → P deps → P (insert_dep d deps)) where
  record_between_keeps :
      (u v : Option ℕ) (p c : Acquire) (kind : DbDepType) (deps : List Dep)
      → p.user ≡ u
      → c.user ≡ v
      → is_kind (classify_dep p c) kind ≡ true
      → MayReach kind c p
      → P deps
      → P (record_between u v p c kind deps)
  record_between_keeps none v p c kind deps e f k m all = all
  record_between_keeps (some from) none p c kind deps e f k m all = all
  record_between_keeps (some from) (some to) p c kind deps e f k m all =
      elim (Bool-cases (from == to)) [
        | inl q ↦ rw q all
        | inr q ↦
            let (parent, fits) = classify_dep-Fits p c kind k in
            rw q (
              keep (record { from = from; to = to; producer = p; consumer = c; kind = kind }) deps
                (record {
                  distinct = λ same. absurd (ground arith);
                  producer_user = e;
                  consumer_user = f;
                  parent = parent;
                  fits = fits;
                  may_reach = m;
                })
                all)
      ]

  record_dep_keeps :
      (p c : Acquire) (kind : DbDepType) (deps : List Dep)
      → is_kind (classify_dep p c) kind ≡ true
      → MayReach kind c p
      → P deps
      → P (record_dep p c kind deps)
  unfolding record_dep
  record_dep_keeps p c kind deps k m all =
      record_between_keeps p.user c.user p c kind deps refl refl k m all

  record_from_keeps :
      (kind : DbDepType) (ps : List Acquire) (c : Acquire) (deps : List Dep)
      → All (MayReach kind c) ps
      → P deps
      → P (record_from kind ps c deps)
  unfolding record_from
  record_from_keeps kind [] c deps m all = all
  record_from_keeps kind (p ∷ ps) c deps (m, ms) all =
      elim (Bool-cases (is_kind (classify_dep p c) kind)) [
        | inl e ↦ rw e (record_from_keeps kind ps c _ ms (record_dep_keeps p c kind deps e m all))
        | inr e ↦ rw e (record_from_keeps kind ps c deps ms all)
      ]

  pub find_raw_keeps :
      (cs : List Acquire) (env : Environment) (deps : List Dep) → P deps → P (find_raw cs env deps)
  unfolding find_raw find_definitions
  find_raw_keeps [] env deps all = all
  find_raw_keeps (c ∷ cs) env deps all =
      find_raw_keeps cs env _
        (record_from_keeps raw _ c deps (reaching-All raw (get_set env.writers c.parent) c) all)

  pub find_waw_keeps : (ws : List Acquire) (o : Outcome) → P o.deps → P (find_waw ws o).deps
  unfolding find_waw written find_definitions
  find_waw_keeps [] o all = all
  find_waw_keeps (w ∷ ws) o all =
      let now =
        record_from_keeps waw _ w o.deps (reaching-All waw (get_set o.env.writers w.parent) w)
          all in
      elim (needs_update (get_set o.env.writers w.parent) w)
        as (λ b. P (find_waw ws (if b then write_to w o else keep_to w o)).deps) [
          | true ↦ find_waw_keeps ws _ now
          | false ↦ find_waw_keeps ws _ now
        ]

  pub find_war_keeps : (ws : List Acquire) (o : Outcome) → P o.deps → P (find_war ws o).deps
  unfolding find_war
  find_war_keeps [] o all = all
  find_war_keeps (w ∷ ws) o all = find_war_keeps ws _ (
      record_from_keeps war (get_set o.env.readers w.parent) w o.deps
        (war-All (get_set o.env.readers w.parent) w) all)

  pub finish_task_keeps : (sync : Bool) (o : Outcome) → P o.deps → P (finish_task sync o).deps
  finish_task_keeps false o all = all
  finish_task_keeps true o all = all

  process_edt_keeps :
      (t : Task) (env : Environment) (deps : List Dep) → P deps → P (process_edt t env deps).deps
  unfolding process_edt
  process_edt_keeps t env deps all =
      let inputs = select reads t.dependencies in
      let outputs = select writes t.dependencies in
      let start : Outcome = record {
        env = env;
        changed = false;
        deps = find_raw inputs env deps;
      } in
      finish_task_keeps t.sync _ (
        find_war_keeps outputs (find_waw outputs start)
          (find_waw_keeps outputs start (find_raw_keeps inputs env deps all)))

  iterate_keeps :
      (body : Environment → List Dep → Outcome) (rounds : ℕ) (env : Environment) (changed : Bool)
      (deps : List Dep)
      → ((e : Environment) (ds : List Dep) → P ds → P (body e ds).deps)
      → P deps
      → P (iterate body rounds env changed deps).deps
  unfolding iterate
  iterate_keeps body zero env changed deps keep all = all
  iterate_keeps body (suc rounds) env changed deps keep all =
      let r = body env deps in
      let u = union_into env r.env in
      let now = keep env deps all in
      elim (Bool-cases (not r.changed && not u.1)) [
        | inl e ↦ rw e now
        | inr e ↦ rw e (iterate_keeps body rounds u.0 _ r.deps keep now)
      ]

  mutual
    unfolding process_op process_region

    process_op_keeps :
        (op : Op) (env : Environment) (deps : List Dep) → P deps → P (process_op op env deps).deps
    process_op_keeps (edt t) env deps all = process_edt_keeps t env deps all
    process_op_keeps (epoch body) env deps all = process_region_keeps body env false deps all
    process_op_keeps (if_op t e) env deps all =
        process_region_keeps e env false _ (process_region_keeps t env false deps all)
    process_op_keeps (for_op body) env deps all =
        iterate_keeps (λ e ds. process_region body e false ds) max_iterations env false deps
          (λ e ds a. process_region_keeps body e false ds a) all
    process_op_keeps other env deps all = all

    pub process_region_keeps :
        (ops : Ops) (env : Environment) (changed : Bool) (deps : List Dep)
        → P deps
        → P (process_region ops env changed deps).deps
    process_region_keeps nil env changed deps all = all
    process_region_keeps (cons op ops) env changed deps all =
        process_region_keeps ops _ _ _ (process_op_keeps op env deps all)

-- For any function body, its loops, branches and epochs included: each dependence that is recorded
-- is between two different tasks, by an acquire that the one uses and an acquire of the same
-- allocation that the other uses, with the modes that its kind says; and but for a write after a
-- read the alias analysis does not rule it out.
pub run-All : (body : Ops) → All Genuine (run body)
unfolding run
run-All body = process_region_keeps (All Genuine) insert_dep-All body nothing_live false [] tt
