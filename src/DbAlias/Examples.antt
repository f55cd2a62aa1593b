-- ===== src/DbAlias/Examples.antt =====
-- Runs of the alias analysis, and instances of its theorems.
use carts.Base.{◌≡◌, ◌⊎◌, refl, true, false}
use carts.DbAlias.{may_alias, in_mode, out_mode, acquire, classify_alias, known_to_differ}
use carts.DbAlias.Samples.{ten_from}
use carts.DbAlias.Sound.{Apart, SameSlice, classify_alias_disjoint, classify_alias_same}

touching :
    classify_alias (acquire (ten_from 1 out_mode 1 0)) (acquire (ten_from 2 in_mode 2 9))
    ≡ may_alias
unfolding classify_alias
touching = refl

classify_alias_disjoint_example :
    (known_to_differ (ten_from 1 out_mode 1 0).root (ten_from 2 in_mode 2 10).root ≡ true)
    ⊎ Apart (ten_from 1 out_mode 1 0) (ten_from 2 in_mode 2 10)
unfolding classify_alias
classify_alias_disjoint_example =
    classify_alias_disjoint (ten_from 1 out_mode 1 0) (ten_from 2 in_mode 2 10) refl

classify_alias_same_example :
    ((ten_from 1 out_mode 1 0).node ≡ (ten_from 2 in_mode 2 0).node)
    ⊎ (((ten_from 1 out_mode 1 0).op ≡ (ten_from 2 in_mode 2 0).op)
        ⊎ ((known_to_differ (ten_from 1 out_mode 1 0).root (ten_from 2 in_mode 2 0).root ≡ false)
            × (((ten_from 1 out_mode 1 0).ptr ≡ (ten_from 2 in_mode 2 0).ptr)
                ⊎ SameSlice (ten_from 1 out_mode 1 0) (ten_from 2 in_mode 2 0))))
unfolding classify_alias
classify_alias_same_example =
    classify_alias_same (ten_from 1 out_mode 1 0) (ten_from 2 in_mode 2 0) refl
