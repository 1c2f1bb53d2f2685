-- ===== src/Allocation/Monotone.antt =====
-- optimization/solver.py: more capacity never costs value.
use mathlib.Core.Path.{subst}
use inforsight.Common.{
  ℕ, ◌+◌, ◌≤◌, String, Bool, ◌||◌, ◌≡◌, refl, sym, ◌∙◌, inl, inr, Option, none, some, List, length,
  arith,
}
use inforsight.Common.Int.{ℤ, pos, pos_part, ◌≤ℤ◌, ◌-ℤ◌, -ℤ_parts, leℤ}
use inforsight.Common.Dict.{Dict}
use inforsight.Common.Result.{ok, chained, passed}
use inforsight.Allocation.Models.{
  ActionUtility, OptimalRecommendation, invalid_capacity, PortfolioOptimizer, governed_optimizer,
}
use inforsight.Allocation.Exact.{Used, Candidate, exact}
use inforsight.Allocation.Selections.{Chosen, usage, worth, AtMost, IsFeasible, NoWorse}
use inforsight.Allocation.Answers.{Answers, exact-Answers}
use inforsight.Allocation.Optimal.{menus_of}
use inforsight.Allocation.Portfolio.{
  PortfolioAllocation, ordered_pairs, portfolio_of, allocate_recommendations, MarginalValues,
  marginal_opportunity_values,
}
use inforsight.Allocation.Allocated.{allocate_recommendations-IsReturned, solve-exact}

-- The second optimizer allows whatever the first does.
pub record Allows (o p : PortfolioOptimizer) : Type 0 where
  pub budget : o.budget_capacity_usd_micros ≤ p.budget_capacity_usd_micros
  pub personnel : o.personnel_capacity_seconds ≤ p.personnel_capacity_seconds
  pub specialists : p.legacy_specialist_capacity ≡ none

none_limits : (most : Option ℕ) (n : ℕ) → most ≡ none → AtMost most n
none_limits none n q = tt
none_limits (some m) n q = cc q

Allows-IsFeasible :
    (o p : PortfolioOptimizer) (u : Used) → Allows o p → IsFeasible o u → IsFeasible p u
Allows-IsFeasible o p u a f = record {
  budget = omega (arith, a.budget, f.budget);
  personnel = omega (arith, a.personnel, f.personnel);
  specialists = none_limits p.legacy_specialist_capacity u.specialists a.specialists;
}

NoWorse-objective : (c d : Candidate) → NoWorse c d → d.objective ≤ℤ c.objective
NoWorse-objective c d (inl h) = omega arith
NoWorse-objective c d (inr (e, _)) = ground (arith, e)

pub answered :
    (o : PortfolioOptimizer) (portfolio : List (Dict ActionUtility)) (u : Used) (c : Candidate)
    → exact o portfolio ≡ ok (u, c)
    → Answers o portfolio (ok (u, c))
answered o portfolio u c h = subst (Answers o portfolio) h (exact-Answers o portfolio)

-- With more capacity the optimum is at least as great.
pub exact_mono :
    (o p : PortfolioOptimizer) (portfolio : List (Dict ActionUtility)) (u v : Used)
    (c d : Candidate)
    → Allows o p
    → exact o portfolio ≡ ok (u, c)
    → exact p portfolio ≡ ok (v, d)
    → c.objective ≤ℤ d.objective
exact_mono o p portfolio u v c d a h k =
    let f = answered o portfolio u c h in
    let g = answered p portfolio v d k in
    subst (λ (z : Candidate). z.objective ≤ℤ d.objective) (sym f.gains)
      (NoWorse-objective d (worth f.sel) (
        g.best f.sel f.chosen
          (Allows-IsFeasible o p (usage f.sel) a (subst (IsFeasible o) f.uses f.feasible))))

-- The optimizers with more money, and with more staff time.
abbrev richer : PortfolioOptimizer → ℤ → PortfolioOptimizer
richer p more = record {
  personnel_capacity_seconds = p.personnel_capacity_seconds;
  budget_capacity_usd_micros = p.budget_capacity_usd_micros + pos_part more;
  legacy_specialist_capacity = none;
}

abbrev staffed : PortfolioOptimizer → ℤ → PortfolioOptimizer
staffed p more = record {
  personnel_capacity_seconds = p.personnel_capacity_seconds + pos_part more;
  budget_capacity_usd_micros = p.budget_capacity_usd_micros;
  legacy_specialist_capacity = none;
}

module _ (recommendations : List OptimalRecommendation) (ids : List String) (aware : Bool)
    (small : length recommendations ≤ 6) where
  -- The objective of a small portfolio is that of the exact answer.
  allocate-exact :
      (o : PortfolioOptimizer) (a : PortfolioAllocation)
      → allocate_recommendations o recommendations ids aware ≡ ok a
      → (u : Used) × (c : Candidate) × (exact o (portfolio_of (ordered_pairs recommendations ids))
          ≡ ok (u, c))
        × (a.objective_usd_micros ≡ c.objective)
  allocate-exact o a h =
      let r = allocate_recommendations-IsReturned o recommendations ids aware a h in
      (
        r.best.0,
        r.best.1,
        sym (solve-exact o recommendations ids small) ∙ r.solved,
        r.allocated.objective,
      )

  -- An allocation of at most six recommendations that is returned has an objective that no
  -- selection within the capacities exceeds.
  pub allocate_recommendations-IsBest :
      (o : PortfolioOptimizer) (a : PortfolioAllocation) (sel : List ActionUtility)
      → allocate_recommendations o recommendations ids aware ≡ ok a
      → Chosen (menus_of (portfolio_of (ordered_pairs recommendations ids))) sel
      → IsFeasible o (usage sel)
      → (worth sel).objective ≤ℤ a.objective_usd_micros
  allocate_recommendations-IsBest o a sel h chosen f =
      let (u, c, q, same) = allocate-exact o a h in
      let k = answered o (portfolio_of (ordered_pairs recommendations ids)) u c q in
      subst (λ v. (worth sel).objective ≤ℤ v) (sym same)
        (NoWorse-objective c (worth sel) (k.best sel chosen f))

  allocate_mono :
      (o p : PortfolioOptimizer) (a b : PortfolioAllocation)
      → Allows o p
      → allocate_recommendations o recommendations ids aware ≡ ok a
      → allocate_recommendations p recommendations ids aware ≡ ok b
      → pos 0 ≤ℤ b.objective_usd_micros -ℤ a.objective_usd_micros
  allocate_mono o p a b k h j =
      let (u, c, q, same) = allocate-exact o a h in
      let (v, d, r, same') = allocate-exact p b j in
      let less = exact_mono o p (portfolio_of (ordered_pairs recommendations ids)) u v c d k q r in
      gains a.objective_usd_micros b.objective_usd_micros (
        subst (λ x. x ≤ℤ b.objective_usd_micros) (sym same)
          (subst (λ y. c.objective ≤ℤ y) (sym same') less))
    where
      gains : (x y : ℤ) → x ≤ℤ y → pos 0 ≤ℤ y -ℤ x
      gains x y l = omega (arith, l, -ℤ_parts y x)

  -- For at most six recommendations, more money and more staff time have no negative value.
  pub marginal_opportunity_values-gains :
      (o : PortfolioOptimizer) (more_money more_personnel : ℤ) (m : MarginalValues)
      → marginal_opportunity_values o recommendations more_money more_personnel ids aware ≡ ok m
      → (pos 0 ≤ℤ m.money) × (pos 0 ≤ℤ m.personnel)
  unfolding marginal_opportunity_values governed_optimizer
  marginal_opportunity_values-gains o more_money more_personnel m h =
      let (_, h1) =
        passed (leℤ more_money (pos 0) || leℤ more_personnel (pos 0)) invalid_capacity _ h in
      let (base, q, h2) = chained (allocate_recommendations o recommendations ids aware) _ h1 in
      let (money, r, h3) =
        chained (allocate_recommendations (richer o more_money) recommendations ids aware) _ h2 in
      let (staff, s, h4) =
        chained (allocate_recommendations (staffed o more_personnel) recommendations ids aware) _
          h3 in
      subst (λ (z : MarginalValues). (pos 0 ≤ℤ z.money) × (pos 0 ≤ℤ z.personnel)) (cc h4)
        (
          allocate_mono o (richer o more_money) base money
              (record { budget = omega arith; personnel = omega arith; specialists = refl }) q r,
          allocate_mono o (staffed o more_personnel) base staff
              (record { budget = omega arith; personnel = omega arith; specialists = refl }) q s,
        )
