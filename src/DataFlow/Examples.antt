-- ===== src/DataFlow/Examples.antt =====
-- Runs of the data flow analysis, and instances of its theorems.
use carts.Base.{◌≡◌, ◌≢◌, refl, true, false, All, [], ◌∷◌, inl, some, none, arith}
use carts.DbAlias.{in_mode, out_mode, inout, Acquire}
use carts.DbAlias.Samples.{ten_from}
use carts.DataFlow.{
  Task, edt, for_op, nil, cons, run, contains_dep, process_region, cannot_reach, nothing_live,
  get_set,
}
use carts.DataFlow.Genuine.{Genuine, run-All}
use carts.DataFlow.Flow.{straight, process_region-raw, raw_dep}
use carts.DataFlow.Lost.{single, run-Free}

abbrev first_half : Acquire
first_half = ten_from 1 out_mode 1 0

abbrev other_half : Acquire
other_half = ten_from 2 out_mode 2 10

abbrev reading : Acquire
reading = ten_from 3 in_mode 3 0

abbrev between : Task
between = record { sync = false; dependencies = none ∷ some (ten_from 4 in_mode 4 5) ∷ [] }

-- A loop whose task reads and writes: the dependence on itself is not recorded.
own_loop : run (cons (for_op (cons (edt (single (ten_from 5 inout 5 0))) nil)) nil) ≡ []
unfolding run
own_loop = refl

process_region-raw_example :
    contains_dep
      (process_region
        (cons (edt (single first_half)) (straight (between ∷ []) (cons (edt (single reading)) nil)))
        nothing_live
        false
        []).deps
      (raw_dep 1 3 first_half reading)
    ≡ true
unfolding cannot_reach get_set
process_region-raw_example =
    process_region-raw 1 3 first_half reading refl refl refl refl refl refl (omega arith) [] []
      (single first_half) (between ∷ []) (single reading) nil nothing_live false [] refl refl refl
      tt tt ((refl, tt), tt) (inl refl)

run-All_example :
    All Genuine (run (straight (single first_half ∷ single other_half ∷ single reading ∷ []) nil))
run-All_example =
    run-All (straight (single first_half ∷ single other_half ∷ single reading ∷ []) nil)

run-Free_example :
    All
      (λ d. d.to ≢ 3)
      (run (straight (single first_half ∷ single other_half ∷ single reading ∷ []) nil))
unfolding cannot_reach
run-Free_example =
    run-Free first_half other_half reading 3 refl refl refl refl refl refl
      (λ e. absurd (ground arith)) (λ e. absurd (ground arith)) refl refl
