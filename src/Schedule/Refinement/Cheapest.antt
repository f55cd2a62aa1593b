-- ===== src/Schedule/Refinement/Cheapest.antt =====
-- The schedule that ScheduleRefinement.cpp selects.
use carts.Base.{
  true, false, some, List, [], ◌∷◌, ◌≡◌, subst, refl, sym, ◌∙◌, arith, Bool-cases, inl, inr, All,
  if◌then◌else◌,
}
use carts.Base.Int.{ℤ}
use carts.Foreign.{Float}
use carts.Loop.{ScheduleKind, static, dynamic, guided, auto, runtime}
use carts.Cost.{CostModel}
use carts.Schedule.Refinement.{is_schedule_refinement_candidate, cheaper, select_schedule}

module _ (F : Float) (m : CostModel F) where
  -- The comparison of costs is transitive where it fails, as it is for numbers.
  module _
      (not_less_trans : (a b c : F.Real) → F.lt b a ≡ false → F.lt c b ≡ false → F.lt c a ≡ false)
      (less_than_not_less : (a b : F.Real) → F.lt a b ≡ true → F.lt b a ≡ false)
      (irreflexive : (a : F.Real) → F.lt a a ≡ false) where
    abbrev cost_of : ℤ → ScheduleKind → F.Real
    cost_of n kind = m.get_scheduling_overhead kind n

    -- Nothing among `best` and the list costs less than `winner`.
    abbrev Least : ℤ → ScheduleKind → List ScheduleKind → ScheduleKind → Type 0
    Least n best rest winner =
        (F.lt (cost_of n best) (cost_of n winner) ≡ false)
        × All (λ k. F.lt (cost_of n k) (cost_of n winner) ≡ false) rest

    cheaper-cons :
        (n : ℤ) (k : ScheduleKind) (rest : List ScheduleKind) (best : ScheduleKind)
        → cheaper F m n (k ∷ rest) best (cost_of n best) ≡ (
            if F.lt (cost_of n k) (cost_of n best)
            then cheaper F m n rest k (cost_of n k)
            else cheaper F m n rest best (cost_of n best))
    unfolding cheaper
    cheaper-cons n k rest best = elim (Bool-cases (F.lt (cost_of n k) (cost_of n best))) [
      | inl e ↦ rw e
      | inr e ↦ rw e
    ]

    cheaper-Least :
        (n : ℤ) (rest : List ScheduleKind) (best : ScheduleKind)
        → Least n best rest (cheaper F m n rest best (cost_of n best))
    cheaper-Least n [] best = (unfold cheaper in irreflexive _, tt)
    cheaper-Least n (k ∷ rest) best = elim (Bool-cases (F.lt (cost_of n k) (cost_of n best))) [
      | inl e ↦
          let (head, all) = cheaper-Least n rest k in
          subst (Least n best (k ∷ rest)) (sym (cheaper-cons n k rest best ∙ rw e))
            (not_less_trans _ _ _ head (less_than_not_less _ _ e), (head, all))
      | inr e ↦
          let (head, all) = cheaper-Least n rest best in
          subst (Least n best (k ∷ rest)) (sym (cheaper-cons n k rest best ∙ rw e))
            (head, (not_less_trans _ _ _ head e, all))
    ]

    cheaper-concrete :
        (n : ℤ) (rest : List ScheduleKind) (best : ScheduleKind) (cost : F.Real)
        → is_schedule_refinement_candidate (some best) ≡ false
        → All (λ k. is_schedule_refinement_candidate (some k) ≡ false) rest
        → is_schedule_refinement_candidate (some (cheaper F m n rest best cost)) ≡ false
    unfolding cheaper
    cheaper-concrete n [] best cost h all = h
    cheaper-concrete n (k ∷ rest) best cost h (hk, all) =
        cheaper-concrete n rest _ _ (ground arith) all

    -- Where the comparison of costs is that of a total order, the selected schedule is static,
    -- guided or dynamic for any trip count, and none of those three costs less.
    pub select_schedule_cheapest :
        (n : ℤ) (k : ScheduleKind)
        → is_schedule_refinement_candidate (some k) ≡ false
        → (F.lt (cost_of n k) (cost_of n (select_schedule F m n)) ≡ false)
          × (is_schedule_refinement_candidate (some (select_schedule F m n)) ≡ false)
    unfolding select_schedule is_schedule_refinement_candidate
    select_schedule_cheapest n k h =
        (least k h, cheaper-concrete n (guided ∷ dynamic ∷ []) static _ refl (refl, (refl, tt)))
      where
        least :
            (k : ScheduleKind)
            → is_schedule_refinement_candidate (some k) ≡ false
            → F.lt (cost_of n k) (cost_of n (select_schedule F m n)) ≡ false
        least static h = (cheaper-Least n (guided ∷ dynamic ∷ []) static).0
        least guided h = (cheaper-Least n (guided ∷ dynamic ∷ []) static).1.0
        least dynamic h = (cheaper-Least n (guided ∷ dynamic ∷ []) static).1.1.0
        least auto h = absurd (cc)
        least runtime h = absurd (cc)
