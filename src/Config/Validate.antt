-- ===== src/Config/Validate.antt =====
-- RuntimeConfig::validateConfiguration (RuntimeConfig.cpp). Each test that fails clears the flag.
pub mod Validity
use carts.Base.{ℕ, suc, Bool, true, false, not, ◌&&◌, ◌||◌, if◌then◌else◌, List, [], ◌∷◌, length}
use carts.Base.Int.{ℤ, pos, ltb_ℤ, eqb_ℤ}
use carts.Config.{Bytes, codes, RuntimeConfig, has_gpu_support}
use carts.Config.Text.{bytes_eq}

-- std::find(nodes.begin(), nodes.end(), master) != nodes.end()
unfoldable pub contains : List Bytes → Bytes → Bool
contains [] b = false
contains (x ∷ xs) b = bytes_eq x b || contains xs b

is_empty : List Bytes → Bool
is_empty [] = true
is_empty (x ∷ xs) = false

-- The tests on the node list, where the launcher is not slurm.
check_nodes : RuntimeConfig → Bool → Bool
check_nodes c valid =
    let counted =
      if is_empty c.nodes
      then false
      else if not (eqb_ℤ (pos (length c.nodes)) c.node_count)
      then false
      else valid in
    if not (is_empty c.nodes) && not (contains c.nodes c.master_node) then false else counted

-- The tests under hasGpuSupport().
check_gpu : RuntimeConfig → Bool → Bool
check_gpu c valid =
    let counted = if not (ltb_ℤ (pos 0) c.gpu) then false else valid in
    if not (eqb_ℤ c.scheduler (pos 3)) then false else counted

unfoldable pub validity : RuntimeConfig → Bool
unfolding check_nodes check_gpu is_empty
validity c =
    let workers = if not (ltb_ℤ (pos 0) c.threads) then false else true in
    let counted = if not (ltb_ℤ (pos 0) c.node_count) then false else workers in
    let placed =
      if not (bytes_eq c.launcher (codes "slurm")) then check_nodes c counted else counted in
    if has_gpu_support c then check_gpu c placed else placed

-- The configuration with its flag set, and the value returned.
unfoldable pub validate_configuration : RuntimeConfig → RuntimeConfig × Bool
validate_configuration c = (record c { is_valid_flag = validity c }, validity c)
