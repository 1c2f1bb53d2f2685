-- ===== src/Allocation/Allocated.antt =====
-- optimization/solver.py: what an allocation that is returned is.
use mathlib.Core.Path.{subst}
use inforsight.Common.{
  ℕ, suc, ◌≤◌, String, Bool, false, not, ◌||◌, ◌≡◌, refl, sym, ap, ◌∙◌, Option, none, some, List,
  [], ◌∷◌, length, ltb, ◌==◌, arith,
}
use inforsight.Common.Dict.{get}
use inforsight.Common.Sort.{IsSorted, length-sort, sort-IsSorted}
use inforsight.Common.Order.{IsOrder, text_le-IsOrder}
use inforsight.Common.Result.{ok, chained, passed}
use inforsight.Allocation.Models.{
  ActionUtility, OptimalRecommendation, context_mismatch, infeasible, PortfolioOptimizer,
}
use inforsight.Allocation.Exact.{Used, Candidate, exact}
use inforsight.Allocation.Portfolio.{
  PortfolioAllocation, portfolio_allocation, Pair, ids_or_policies, has_repeats, zipped, pair_le,
  ids_of, selected_recommendation, solve, allocation_of, ordered_pairs, portfolio_of, selected_all,
  allocate_recommendations,
}

-- Each recommendation is that of its occurrence, for an action that it has a utility for.
pub data AreSelected : List Pair → List String → List OptimalRecommendation → Type 0 where
  no_pairs : {actions : List String} → AreSelected [] actions []
  no_actions : {ps : List Pair} → AreSelected ps [] []
  select :
      {ps : List Pair} {actions : List String} {rs : List OptimalRecommendation} (p : Pair)
      (a : String) (u : ActionUtility)
      → get a p.1.action_utilities ≡ some u
      → AreSelected ps actions rs
      → AreSelected (p ∷ ps) (a ∷ actions) (record p.1 { recommended_action = a } ∷ rs)

pub record IsAllocated (o : PortfolioOptimizer) (ordered : List Pair) (best : Used × Candidate)
    (a : PortfolioAllocation) : Type 0 where
  pub objective : a.objective_usd_micros ≡ best.1.objective
  pub budget : a.budget_used_usd_micros ≤ o.budget_capacity_usd_micros
  pub personnel : a.personnel_used_seconds ≤ o.personnel_capacity_seconds
  pub costs : a.budget_used_usd_micros ≡ best.0.cost
  pub seconds : a.personnel_used_seconds ≡ best.0.seconds
  pub ids : a.occurrence_ids ≡ ids_of ordered
  pub complete : length a.recommendations ≡ length ordered
  pub selected : AreSelected ordered best.1.actions a.recommendations

selected_recommendation-ok :
    (source r : OptimalRecommendation) (action : String)
    → selected_recommendation source action ≡ ok r
    → (u : ActionUtility) × (get action source.action_utilities ≡ some u)
      × (r ≡ record source { recommended_action = action })
unfolding selected_recommendation
selected_recommendation-ok source r action h = by_entry (get action source.action_utilities) refl
  where
    by_entry :
        (e : Option ActionUtility)
        → get action source.action_utilities ≡ e
        → (u : ActionUtility) × (get action source.action_utilities ≡ some u)
          × (r ≡ record source { recommended_action = action })
    by_entry none q = cc (rw (selected_recommendation, q) at h)
    by_entry (some u) q = (u, q, sym (cc (rw (selected_recommendation, q) at h)))

selected_all-AreSelected :
    (ps : List Pair) (actions : List String) (rs : List OptimalRecommendation)
    → selected_all ps actions ≡ ok rs
    → AreSelected ps actions rs
unfolding selected_all
selected_all-AreSelected [] actions rs h = subst (AreSelected [] actions) (cc h) no_pairs
selected_all-AreSelected (p ∷ ps) [] rs h = subst (AreSelected (p ∷ ps) []) (cc h) no_actions
selected_all-AreSelected (p ∷ ps) (a ∷ actions) rs h =
    let (r, q, h') = chained (selected_recommendation p.1 a) _ h in
    let (ts, k, j) = chained (selected_all ps actions) _ h' in
    let (u, e, same) = selected_recommendation-ok p.1 r a q in
    let whole : record p.1 { recommended_action = a } ∷ ts ≡ rs = cc (same, j) in
    subst (AreSelected (p ∷ ps) (a ∷ actions)) whole
      (select p a u e (selected_all-AreSelected ps actions ts k))

length-ids_of : (ps : List Pair) → length (ids_of ps) ≡ length ps
length-ids_of [] = refl
length-ids_of (p ∷ ps) = ap (λ n. suc n) (length-ids_of ps)

within_capacity : (most n : ℕ) → ltb most n ≡ false → n ≤ most
within_capacity most n h = ground arith

same_count : (n m : ℕ) → not (n == m) ≡ false → n ≡ m
same_count n m h = ground arith

record IsAccepted (a b : PortfolioAllocation) : Type 0 where
  budget : a.budget_used_usd_micros ≤ a.budget_capacity_usd_micros
  personnel : a.personnel_used_seconds ≤ a.personnel_capacity_seconds
  count : length a.recommendations ≡ length a.occurrence_ids
  same : a ≡ b

portfolio_allocation-IsAccepted :
    (a b : PortfolioAllocation) → portfolio_allocation a ≡ ok b → IsAccepted a b
unfolding portfolio_allocation
portfolio_allocation-IsAccepted a b h =
    let (x, h1) =
      passed (ltb a.budget_capacity_usd_micros a.budget_used_usd_micros) infeasible _ h in
    let (y, h2) =
      passed (ltb a.personnel_capacity_seconds a.personnel_used_seconds) infeasible _ h1 in
    let (z, h3) =
      passed (not (length a.recommendations == length a.occurrence_ids)) context_mismatch _ h2 in
    record {
      budget = within_capacity a.budget_capacity_usd_micros a.budget_used_usd_micros x;
      personnel = within_capacity a.personnel_capacity_seconds a.personnel_used_seconds y;
      count = same_count (length a.recommendations) (length a.occurrence_ids) z;
      same = cc h3;
    }

pub allocation_of-IsAllocated :
    (o : PortfolioOptimizer) (ordered : List Pair) (best : Used × Candidate)
    (a : PortfolioAllocation)
    → allocation_of o ordered best ≡ ok a
    → IsAllocated o ordered best a
unfolding allocation_of
allocation_of-IsAllocated o ordered best a h =
    let (rs, q, h') = chained (selected_all ordered best.1.actions) _ h in
    let k = portfolio_allocation-IsAccepted _ a h' in
    subst (IsAllocated o ordered best) k.same (record {
      objective = refl;
      budget = k.budget;
      personnel = k.personnel;
      costs = refl;
      seconds = refl;
      ids = refl;
      complete = k.count ∙ length-ids_of ordered;
      selected = selected_all-AreSelected ordered best.1.actions rs q;
    })

-- What the guards and the solution of a call leave.
pub record IsReturned (o : PortfolioOptimizer) (recommendations : List OptimalRecommendation)
    (ids : List String) (a : PortfolioAllocation) : Type 0 where
  pub best : Used × Candidate
  pub solved : solve o (ordered_pairs recommendations ids) ≡ ok best
  pub allocated : IsAllocated o (ordered_pairs recommendations ids) best a
  pub distinct : has_repeats (ids_or_policies ids recommendations) ≡ false
  pub covers : length (ids_or_policies ids recommendations) ≡ length recommendations
  pub sorted : IsSorted pair_le (ordered_pairs recommendations ids)

pair_le-IsOrder : IsOrder pair_le
unfolding pair_le
pair_le-IsOrder = record {
  total = λ p q. text_le-IsOrder.total p.0 q.0;
  trans = λ p q r. text_le-IsOrder.trans p.0 q.0 r.0;
}

neither : (a b : Bool) → a || b ≡ false → (a ≡ false) × (b ≡ false)
neither a b h = ground arith

-- The parts of a call that returns.
pub allocate_recommendations-IsReturned :
    (o : PortfolioOptimizer) (recommendations : List OptimalRecommendation) (ids : List String)
    (aware : Bool) (a : PortfolioAllocation)
    → allocate_recommendations o recommendations ids aware ≡ ok a
    → IsReturned o recommendations ids a
unfolding allocate_recommendations
allocate_recommendations-IsReturned o recommendations ids aware a h =
    let ids' = ids_or_policies ids recommendations in
    let (_, h1) = passed (not aware) context_mismatch _ h in
    let (r, h2) =
      passed (not (length ids' == length recommendations) || has_repeats ids') context_mismatch _
        h1 in
    let (best, q, h3) = chained (solve o (ordered_pairs recommendations ids)) _ h2 in
    let (n, d) = neither (not (length ids' == length recommendations)) (has_repeats ids') r in
    record {
      best = best;
      solved = q;
      allocated = allocation_of-IsAllocated o (ordered_pairs recommendations ids) best a h3;
      distinct = d;
      covers = same_count (length ids') (length recommendations) n;
      sorted =
          sort-IsSorted pair_le pair_le-IsOrder
            (zipped (ids_or_policies ids recommendations) recommendations);
    }

-- Not more pairs than recommendations.
length-zipped :
    (ids : List String) (rs : List OptimalRecommendation) → length (zipped ids rs) ≤ length rs
length-zipped [] rs = omega arith
length-zipped (id ∷ ids) [] = omega arith
length-zipped (id ∷ ids) (r ∷ rs) = omega (arith, length-zipped ids rs)

-- A small portfolio is solved exactly.
pub solve-exact :
    (o : PortfolioOptimizer) (recommendations : List OptimalRecommendation) (ids : List String)
    → length recommendations ≤ 6
    → solve o (ordered_pairs recommendations ids)
      ≡ exact o (portfolio_of (ordered_pairs recommendations ids))
unfolding solve
solve-exact o recommendations ids small =
    let pairs = zipped (ids_or_policies ids recommendations) recommendations in
    let few : length (ordered_pairs recommendations ids) ≤ 6 = omega (
      arith,
      small,
      length-zipped (ids_or_policies ids recommendations) recommendations,
      length-sort pair_le pairs,
    ) in
    rw (not_more 6 (length (ordered_pairs recommendations ids)) few) refl
  where
    not_more : (n m : ℕ) → m ≤ n → ltb n m ≡ false
    not_more n m h = ground arith
