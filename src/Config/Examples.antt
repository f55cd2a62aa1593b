-- ===== src/Config/Examples.antt =====
-- Runs of the configuration parser and instances of the theorems about it.
use carts.Base.{true, false, [], ◌∷◌, map, ◌≡◌, ◌↔◌, ◌⊎◌, refl}
use carts.Base.Int.{pos, ◌≤ℤ◌}
use carts.Config.{codes, RuntimeConfig, defaults}
use carts.Config.Text.{bytes_eq, trim, split_csv}
use carts.Config.Text.Csv.{join, split_csv-join}
use carts.Config.Validate.{validate_configuration}
use carts.Config.Validate.Validity.{NodesAgree, validity_iff}
use carts.Config.Parse.{ParseState}

-- Four workers on each of two nodes.
abbrev cluster : RuntimeConfig
cluster = record defaults {
  threads = pos 4;
  node_count = pos 2;
  nodes = codes "a" ∷ codes "b" ∷ [];
  master_node = codes "a";
}

validity_iff_example : ((validate_configuration cluster).1 ≡ true) ↔ (
    (pos 1 ≤ℤ pos 4)
    × (pos 1 ≤ℤ pos 2)
    × ((bytes_eq (codes "ssh") (codes "slurm") ≡ true) ⊎ NodesAgree cluster))
validity_iff_example = validity_iff cluster

split_csv-join_example :
    split_csv (join b',' (codes "a" ∷ codes " b" ∷ [])) ≡ map trim (codes "a" ∷ codes " b" ∷ [])
split_csv-join_example =
    split_csv-join (codes "a" ∷ codes " b" ∷ []) ((refl, tt), ((refl, (refl, tt)), tt)) (λ e. cc)

abbrev outside : ParseState
outside = record { config = defaults; in_arts_section = false }
