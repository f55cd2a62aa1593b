-- ===== src/Config/Workers.antt =====
-- The worker counts that the scheduler reads (RuntimeConfig.h).
use carts.Base.{
  ℕ, max, ◌<◌, ◌^◌, subst, refl, ◌*◌, if◌then◌else◌, ◌≤◌, ◌≡◌, ◌↔◌, sym, ap, ◌∙◌, arith,
}
use carts.Base.Int.{ℤ, pos, negsuc, pos_part, ltb_ℤ, ◌≤ℤ◌, ◌*ℤ◌, eq_of_parts}
use carts.Config.{
  RuntimeConfig, single_threaded, inter_node, get_runtime_workers_per_node, int32,
  get_runtime_total_workers, get_execution_mode,
}

workers_per_node_pos : (c : RuntimeConfig) → pos 1 ≤ℤ get_runtime_workers_per_node c
unfolding get_runtime_workers_per_node
workers_per_node_pos c = ground arith

at_least_pos : (w : ℤ) → pos 1 ≤ℤ w → w ≡ pos (pos_part w)
at_least_pos (pos n) h = refl
at_least_pos (negsuc n) h = absurd (omega arith)

pos-*ℤ : (n w : ℕ) → pos n *ℤ pos w ≡ pos (n * w)
unfolding ◌*ℤ◌
pos-*ℤ n w = ground arith

-- A product of at least one node and at least one worker on it.
product_pos : (n w : ℤ) → pos 1 ≤ℤ n → pos 1 ≤ℤ w → pos 1 ≤ℤ n *ℤ w
product_pos (pos n) (pos w) hn hw = rw (pos-*ℤ n w) (grind arith)
product_pos (pos n) (negsuc w) hn hw = absurd (omega arith)
product_pos (negsuc n) w hn hw = absurd (omega arith)

product_one : (n w : ℤ) → pos 1 ≤ℤ n → pos 1 ≤ℤ w → n *ℤ w ≡ pos 1 → (n ≡ pos 1) × (w ≡ pos 1)
product_one (pos n) (pos w) hn hw e =
    let one : n * w ≡ 1 = ap pos_part (sym (pos-*ℤ n w) ∙ e) in
    let small_n : n ≤ 1 = grind arith in
    let small_w : w ≤ 1 = grind arith in (ap pos (omega arith), ap pos (omega arith))
product_one (pos n) (negsuc w) hn hw e = absurd (omega arith)
product_one (negsuc n) w hn hw e = absurd (omega arith)

node_factor_pos :
    (c : RuntimeConfig) → pos 1 ≤ℤ (if ltb_ℤ (pos 0) c.node_count then c.node_count else pos 1)
node_factor_pos c = ground arith

abbrev node_factor : RuntimeConfig → ℤ
node_factor c = if ltb_ℤ (pos 0) c.node_count then c.node_count else pos 1

-- The product of the nodes, at least 1, and of the workers on each is an int of 32 bits.
abbrev pub CountsFit : RuntimeConfig → Type 0
CountsFit c = max 1 (pos_part c.node_count) * pos_part (get_runtime_workers_per_node c) < 2 ^ 31

int32_small : (n : ℕ) → n < 2 ^ 31 → int32 (pos n) ≡ pos n
unfolding int32
int32_small n h = ground arith

-- So the total is the product itself.
total_product :
    (c : RuntimeConfig)
    → CountsFit c
    → get_runtime_total_workers c ≡ node_factor c *ℤ get_runtime_workers_per_node c
unfolding get_runtime_total_workers
total_product c h =
    let nodes : node_factor c ≡ pos (max 1 (pos_part c.node_count)) = ground arith in
    let workers : get_runtime_workers_per_node c ≡ pos (pos_part (get_runtime_workers_per_node c)) =
      at_least_pos _ (workers_per_node_pos c) in
    let product : node_factor c *ℤ get_runtime_workers_per_node c
        ≡ pos (max 1 (pos_part c.node_count) * pos_part (get_runtime_workers_per_node c)) =
      ap (λ n. n *ℤ get_runtime_workers_per_node c) nodes
      ∙ ap (λ w. pos (max 1 (pos_part c.node_count)) *ℤ w) workers
      ∙ pos-*ℤ _ _ in
    ap int32 product ∙ int32_small _ h ∙ sym product

-- A cluster with one worker is a single thread on a single node.
total-one :
    (c : RuntimeConfig)
    → CountsFit c
    → (get_runtime_total_workers c ≡ pos 1)
      ↔ ((c.node_count ≤ℤ pos 1) × (get_runtime_workers_per_node c ≡ pos 1))
total-one c fit = (
  (λ e.
      let (n, w) =
        product_one _ _ (node_factor_pos c) (workers_per_node_pos c)
          (sym (total_product c fit) ∙ e) in
      (ground arith, w)),
  λ (few, w). total_product c fit ∙ rw w (one few),
)
  where
    one :
        c.node_count ≤ℤ pos 1
        → (if ltb_ℤ (pos 0) c.node_count then c.node_count else pos 1) *ℤ pos 1 ≡ pos 1
    one few =
        let e : (if ltb_ℤ (pos 0) c.node_count then c.node_count else pos 1) ≡ pos 1 =
          ground (arith, eq_of_parts c.node_count (pos 1)) in
        rw e (pos-*ℤ 1 1)

-- Where the counts fit there is always a worker, and the mode tells the counts apart: a single thread exactly when the
-- whole cluster has one worker, several nodes exactly when the node count says so.
pub get_execution_mode_iff :
    (c : RuntimeConfig)
    → CountsFit c
    → (pos 1 ≤ℤ get_runtime_total_workers c)
      × ((get_execution_mode c ≡ inter_node) ↔ (pos 2 ≤ℤ c.node_count))
      × ((get_execution_mode c ≡ single_threaded) ↔ (get_runtime_total_workers c ≡ pos 1))
unfolding get_execution_mode
get_execution_mode_iff c fit = (
  total_pos,
  ((λ h. ground arith), λ h. ground arith),
  (
    (λ h. (total-one c fit).1 (single h)),
    λ h. let (few, w) = (total-one c fit).0 h in ground arith,
  ),
)
  where
    single :
        get_execution_mode c ≡ single_threaded
        → (c.node_count ≤ℤ pos 1) × (get_runtime_workers_per_node c ≡ pos 1)
    single h = (
      ground arith,
      ground (arith, workers_per_node_pos c, eq_of_parts (get_runtime_workers_per_node c) (pos 1)),
    )

    total_pos : pos 1 ≤ℤ get_runtime_total_workers c
    total_pos =
        subst (λ t. pos 1 ≤ℤ t) (sym (total_product c fit))
          (product_pos _ _ (node_factor_pos c) (workers_per_node_pos c))
