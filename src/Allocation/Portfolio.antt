-- ===== src/Allocation/Portfolio.antt =====
-- optimization/solver.py: allocate_recommendations and marginal_opportunity_values, and the checks
-- of optimization/models.py: PortfolioAllocation. The digest that names an allocation, the float
-- views of amounts and the time of the cutoff itself are left out.
use inforsight.Common.{
  ℕ, ◌+◌, String, Bool, false, not, ◌||◌, none, some, List, [], ◌∷◌, length, any, ltb, ◌==◌, str_eq,
  if◌then◌else◌,
}
use inforsight.Common.Int.{ℤ, pos, pos_part, leℤ, ◌-ℤ◌}
use inforsight.Common.Order.{text_le}
use inforsight.Common.Sort.{sort}
use inforsight.Common.Dict.{Dict, get}
use inforsight.Common.Result.{Result, ok, err, ◌>>=◌, ◌>>◌, refuse_if}
use inforsight.Allocation.Models.{
  ActionUtility, OptimalRecommendation, AllocationError, context_mismatch, invalid_capacity,
  infeasible, unknown_action, PortfolioOptimizer, governed_optimizer,
}
use inforsight.Allocation.Exact.{Used, Candidate, exact}
use inforsight.Allocation.Heuristic.{Occurrence, heuristic_state}

pub record PortfolioAllocation : Type 0 where
  pub budget_capacity_usd_micros : ℕ
  pub budget_used_usd_micros : ℕ
  pub personnel_capacity_seconds : ℕ
  pub personnel_used_seconds : ℕ
  pub objective_usd_micros : ℤ
  pub recommendations : List OptimalRecommendation
  pub occurrence_ids : List String

-- PortfolioAllocation.__post_init__; the amounts are not negative by their type.
unfoldable pub portfolio_allocation :
    PortfolioAllocation → Result AllocationError PortfolioAllocation
portfolio_allocation a =
    refuse_if (ltb a.budget_capacity_usd_micros a.budget_used_usd_micros) infeasible
    >> (refuse_if (ltb a.personnel_capacity_seconds a.personnel_used_seconds) infeasible
        >> (refuse_if (not (length a.recommendations == length a.occurrence_ids)) context_mismatch
            >> ok a))

-- An item of the list of pairs of occurrence id and recommendation.
abbrev pub Pair : Type 0
Pair = String × OptimalRecommendation

abbrev pub policy_ids : List OptimalRecommendation → List String
policy_ids [] = []
policy_ids (r ∷ rs) = r.policy_id ∷ policy_ids rs

-- occurrence_ids or (r.policy_id for r in recommendations), no ids given as []
abbrev pub ids_or_policies : List String → List OptimalRecommendation → List String
ids_or_policies [] rs = policy_ids rs
ids_or_policies (id ∷ ids) rs = id ∷ ids

-- len(set(ids)) != len(ids)
unfoldable pub has_repeats : List String → Bool
has_repeats [] = false
has_repeats (id ∷ ids) = any (str_eq id) ids || has_repeats ids

abbrev pub zipped : List String → List OptimalRecommendation → List Pair
zipped [] rs = []
zipped (id ∷ ids) [] = []
zipped (id ∷ ids) (r ∷ rs) = (id, r) ∷ zipped ids rs

unfoldable pub pair_le : Pair → Pair → Bool
unfolding text_le
pair_le p q = text_le p.0 q.0

abbrev pub occurrences : List Pair → List Occurrence
occurrences [] = []
occurrences (p ∷ ps) = (p.0, p.1.action_utilities) ∷ occurrences ps

abbrev pub portfolio_of : List Pair → List (Dict ActionUtility)
portfolio_of [] = []
portfolio_of (p ∷ ps) = p.1.action_utilities ∷ portfolio_of ps

abbrev pub ids_of : List Pair → List String
ids_of [] = []
ids_of (p ∷ ps) = p.0 ∷ ids_of ps

-- _selected_recommendation
unfoldable pub selected_recommendation :
    OptimalRecommendation → String → Result AllocationError OptimalRecommendation
unfolding get
selected_recommendation source action = elim (get action source.action_utilities) [
  | none ↦ err unknown_action
  | some u ↦ ok (record source { recommended_action = action })
]

-- tuple(_selected_recommendation(rec, action) for (_, rec), action in zip(ordered, best[2]))
unfoldable pub selected_all :
    List Pair → List String → Result AllocationError (List OptimalRecommendation)
unfolding selected_recommendation
selected_all [] actions = ok []
selected_all (p ∷ ps) [] = ok []
selected_all (p ∷ ps) (a ∷ actions) =
    selected_recommendation p.1 a >>= λ r. selected_all ps actions >>= λ rs. ok (r ∷ rs)

-- The exact domain has at most six occurrences.
unfoldable pub solve : PortfolioOptimizer → List Pair → Result AllocationError (Used × Candidate)
unfolding heuristic_state exact
solve o ordered =
    if ltb 6 (length ordered)
    then heuristic_state o (occurrences ordered)
    else exact o (portfolio_of ordered)

-- What is returned for what was found.
unfoldable pub allocation_of :
    PortfolioOptimizer → List Pair → Used × Candidate → Result AllocationError PortfolioAllocation
unfolding selected_all portfolio_allocation
allocation_of o ordered best = selected_all ordered best.1.actions >>= λ selected.
    portfolio_allocation (record {
      budget_capacity_usd_micros = o.budget_capacity_usd_micros;
      budget_used_usd_micros = best.0.cost;
      personnel_capacity_seconds = o.personnel_capacity_seconds;
      personnel_used_seconds = best.0.seconds;
      objective_usd_micros = best.1.objective;
      recommendations = selected;
      occurrence_ids = ids_of ordered;
    })

-- The recommendations with their ids, in the order of the ids.
abbrev pub ordered_pairs : List OptimalRecommendation → List String → List Pair
ordered_pairs recommendations occurrence_ids =
    sort pair_le (zipped (ids_or_policies occurrence_ids recommendations) recommendations)

-- allocate_recommendations; `aware` says whether the cutoff has a time zone
unfoldable pub allocate_recommendations :
    PortfolioOptimizer
    → List OptimalRecommendation
    → List String
    → Bool
    → Result AllocationError PortfolioAllocation
unfolding solve allocation_of has_repeats
allocate_recommendations o recommendations occurrence_ids aware =
    let ids = ids_or_policies occurrence_ids recommendations in
    refuse_if (not aware) context_mismatch
    >> (refuse_if (not (length ids == length recommendations) || has_repeats ids) context_mismatch
        >> (solve o (ordered_pairs recommendations occurrence_ids)
            >>= allocation_of o (ordered_pairs recommendations occurrence_ids)))

pub record MarginalValues : Type 0 where
  pub money : ℤ
  pub personnel : ℤ

-- marginal_opportunity_values: what the optimum gains with more money, and with more staff time
unfoldable pub marginal_opportunity_values :
    PortfolioOptimizer
    → List OptimalRecommendation
    → ℤ
    → ℤ
    → List String
    → Bool
    → Result AllocationError MarginalValues
unfolding allocate_recommendations governed_optimizer
marginal_opportunity_values o recommendations more_money more_personnel ids aware =
    refuse_if (leℤ more_money (pos 0) || leℤ more_personnel (pos 0)) invalid_capacity
    >> (allocate_recommendations o recommendations ids aware >>= λ base.
        governed_optimizer (pos o.personnel_capacity_seconds)
          (pos (o.budget_capacity_usd_micros + pos_part more_money))
        >>= λ richer. allocate_recommendations richer recommendations ids aware >>= λ money.
            governed_optimizer (pos (o.personnel_capacity_seconds + pos_part more_personnel))
              (pos o.budget_capacity_usd_micros)
            >>= λ staffed.
                allocate_recommendations staffed recommendations ids aware >>= λ personnel.
                ok (record {
                  money = money.objective_usd_micros -ℤ base.objective_usd_micros;
                  personnel = personnel.objective_usd_micros -ℤ base.objective_usd_micros;
                }))
