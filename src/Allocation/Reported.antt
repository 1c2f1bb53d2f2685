-- ===== src/Allocation/Reported.antt =====
-- optimization/solver.py: what an allocation reports, against the selection that it stands for.
use mathlib.Core.Path.{subst}
use inforsight.Common.{◌≤◌, String, Bool, ◌≡◌, refl, sym, ap, ◌∙◌, List, [], ◌∷◌, length}
use inforsight.Common.Int.{pos}
use inforsight.Common.Result.{ok}
use inforsight.Allocation.Models.{ActionUtility, OptimalRecommendation, PortfolioOptimizer}
use inforsight.Allocation.Exact.{Used, Candidate}
use inforsight.Allocation.Selections.{
  Chosen, total_cost, total_seconds, add_values, action_names, usage, IsFeasible,
}
use inforsight.Allocation.Optimal.{menus_of}
use inforsight.Allocation.Portfolio.{
  PortfolioAllocation, Pair, ids_of, ordered_pairs, portfolio_of, allocate_recommendations,
}
use inforsight.Allocation.Allocated.{
  AreSelected, no_pairs, no_actions, select, allocate_recommendations-IsReturned, solve-exact,
}
use inforsight.Allocation.Monotone.{answered}

-- The recommendations of the occurrences, with the actions in place of theirs.
abbrev pub with_actions : List Pair → List String → List OptimalRecommendation
with_actions [] actions = []
with_actions (p ∷ ps) [] = []
with_actions (p ∷ ps) (a ∷ actions) =
    record p.1 { recommended_action = a } ∷ with_actions ps actions

-- The report of one selection, which has a choice from the menu of each occurrence.
pub record IsReported (o : PortfolioOptimizer) (ordered : List Pair) (a : PortfolioAllocation)
    : Type 0 where
  pub sel : List ActionUtility
  pub chosen : Chosen (menus_of (portfolio_of ordered)) sel
  pub feasible : IsFeasible o (usage sel)
  pub budget_used : a.budget_used_usd_micros ≡ total_cost sel
  pub personnel_used : a.personnel_used_seconds ≡ total_seconds sel
  pub objective : a.objective_usd_micros ≡ add_values (pos 0) sel
  pub recommendations : a.recommendations ≡ with_actions ordered (action_names sel)
  pub occurrence_ids : a.occurrence_ids ≡ ids_of ordered

AreSelected-with_actions :
    {ps : List Pair} {actions : List String} {rs : List OptimalRecommendation}
    → AreSelected ps actions rs
    → rs ≡ with_actions ps actions
AreSelected-with_actions no_pairs = refl
AreSelected-with_actions (no_actions {ps = []}) = refl
AreSelected-with_actions (no_actions {ps = p ∷ ps}) = refl
AreSelected-with_actions (select p a u e rest) =
    ap (λ rs. record p.1 { recommended_action = a } ∷ rs) (AreSelected-with_actions rest)

-- An allocation of at most six recommendations that is returned reports one selection, with a
-- choice from the menu of each occurrence in the order of the ids: the money and the time used and
-- the objective are the sums over its choices, these are within the capacities, and each
-- recommendation is that of its occurrence with the action chosen for it.
pub allocate_recommendations-IsReported :
    (o : PortfolioOptimizer) (recommendations : List OptimalRecommendation) (ids : List String)
    (aware : Bool) (a : PortfolioAllocation)
    → length recommendations ≤ 6
    → allocate_recommendations o recommendations ids aware ≡ ok a
    → IsReported o (ordered_pairs recommendations ids) a
allocate_recommendations-IsReported o recommendations ids aware a small h =
    let ordered = ordered_pairs recommendations ids in
    let r = allocate_recommendations-IsReturned o recommendations ids aware a h in
    let k =
      answered o (portfolio_of ordered) r.best.0 r.best.1
        (sym (solve-exact o recommendations ids small) ∙ r.solved) in
    record {
      sel = k.sel;
      chosen = k.chosen;
      feasible = subst (IsFeasible o) k.uses k.feasible;
      budget_used = r.allocated.costs ∙ ap (λ (u : Used). u.cost) k.uses;
      personnel_used = r.allocated.seconds ∙ ap (λ (u : Used). u.seconds) k.uses;
      objective = r.allocated.objective ∙ ap (λ (c : Candidate). c.objective) k.gains;
      recommendations =
          AreSelected-with_actions r.allocated.selected
          ∙ ap (λ (c : Candidate). with_actions ordered c.actions) k.gains;
      occurrence_ids = r.allocated.ids;
    }
