-- ===== src/Config/Validate/Validity.antt =====
-- What a valid configuration is.
use carts.Base.{
  Bool, true, false, not, ◌&&◌, if◌then◌else◌, List, [], ◌∷◌, length, ◌≡◌, ◌≢◌, ◌⊎◌, ◌↔◌, refl, sym,
  ◌∙◌, arith, Bool-cases, inl, inr,
}
use carts.Base.Int.{ℤ, pos, ltb_ℤ, ◌≤ℤ◌, eqb_ℤ}
use carts.Config.{Bytes, codes, RuntimeConfig, has_gpu_support}
use carts.Config.Text.{bytes_eq}
use carts.Config.Validate.{
  contains, is_empty, check_nodes, check_gpu, validity, validate_configuration,
}

-- The nodes are listed, as many as announced, and the master is one of them.
abbrev pub NodesAgree : RuntimeConfig → Type 0
NodesAgree c =
    (c.nodes ≢ []) × (pos (length c.nodes) ≡ c.node_count) × (contains c.nodes c.master_node ≡ true)

eqb_ℤ_iff : (a b : ℤ) → (eqb_ℤ a b ≡ true) ↔ (a ≡ b)
eqb_ℤ_iff a b = ground arith

-- The tests under the GPU test repeat its two halves, so they never fail.
check_gpu_idle :
    (c : RuntimeConfig) (v : Bool) → (if has_gpu_support c then check_gpu c v else v) ≡ v
unfolding has_gpu_support check_gpu
check_gpu_idle c v = ground arith

is_empty_iff : (ns : List Bytes) → (is_empty ns ≡ false) ↔ (ns ≢ [])
unfolding is_empty
is_empty_iff [] = ((λ h. absurd (cc)), λ h. absurd (h refl))
is_empty_iff (n ∷ ns) = ((λ h e. cc), λ h. refl)

check_nodes_conjunction :
    (c : RuntimeConfig) (v : Bool)
    → check_nodes c v ≡ (
        not (is_empty c.nodes)
        && (eqb_ℤ (pos (length c.nodes)) c.node_count && (contains c.nodes c.master_node && v)))
unfolding check_nodes
check_nodes_conjunction c v = ground arith

check_nodes_sound :
    (c : RuntimeConfig) (v : Bool) → check_nodes c v ≡ true → NodesAgree c × (v ≡ true)
check_nodes_sound c v h =
    let e = sym (check_nodes_conjunction c v) ∙ h in
    (
      (
        (is_empty_iff c.nodes).0 (ground arith),
        (eqb_ℤ_iff (pos (length c.nodes)) c.node_count).0 (ground arith),
        ground arith,
      ),
      ground arith,
    )

check_nodes_complete :
    (c : RuntimeConfig) (v : Bool) → NodesAgree c → v ≡ true → check_nodes c v ≡ true
check_nodes_complete c v (listed, counted, master) e =
    check_nodes_conjunction c v
    ∙ rw (
      (is_empty_iff c.nodes).1 listed,
      (eqb_ℤ_iff (pos (length c.nodes)) c.node_count).1 counted,
      master,
      e,
    )

-- The flag before the node list is looked at.
abbrev counted : RuntimeConfig → Bool
counted c =
    if not (ltb_ℤ (pos 0) c.node_count)
    then false
    else if not (ltb_ℤ (pos 0) c.threads)
    then false
    else true

counted_iff :
    (c : RuntimeConfig) → (counted c ≡ true) ↔ ((pos 1 ≤ℤ c.threads) × (pos 1 ≤ℤ c.node_count))
counted_iff c = ((λ h. (ground arith, ground arith)), λ h. ground arith)

validity_lem :
    (c : RuntimeConfig)
    → validity c
      ≡ (if not (bytes_eq c.launcher (codes "slurm")) then check_nodes c (counted c) else counted c)
unfolding validity
validity_lem c = check_gpu_idle c _

-- A configuration is valid exactly when it has a positive number of workers and of nodes, and, but
-- for the slurm launcher, its node list agrees with them. The GPU settings never decide.
pub validity_iff :
    (c : RuntimeConfig)
    → ((validate_configuration c).1 ≡ true) ↔ (
        (pos 1 ≤ℤ c.threads)
        × (pos 1 ≤ℤ c.node_count)
        × ((bytes_eq c.launcher (codes "slurm") ≡ true) ⊎ NodesAgree c))
unfolding validate_configuration
validity_iff c = rw (validity_lem c) (elim (Bool-cases (bytes_eq c.launcher (codes "slurm"))) [
  | inl slurm ↦ rw slurm (
    (λ h. let (t, n) = (counted_iff c).0 h in (t, n, inl refl)),
    λ h. (counted_iff c).1 (h.0, h.1),
  )
  | inr ssh ↦ rw ssh (
    (λ h.
        let (agree, e) = check_nodes_sound c (counted c) h in
        let (t, n) = (counted_iff c).0 e in (t, n, inr agree)),
    λ h. elim h.2 [
      | inl e ↦ absurd (cc)
      | inr agree ↦ check_nodes_complete c _ agree ((counted_iff c).1 (h.0, h.1))
    ],
  )
])
