-- ===== src/Allocation/Tests.antt =====
-- optimization/solver.py: runs at concrete portfolios.
use mathlib.Core.List.{Memᴰ}
use mathlib.Core.Path.{subst}
use inforsight.Common.{
  String, true, false, ◌≡◌, ◌≢◌, refl, sym, ap, ◌∙◌, none, List, [], ◌∷◌, arith, eq_iff,
}
use inforsight.Common.Int.{pos, ◌≤ℤ◌, ◌+ℤ◌, ◌-ℤ◌}
use inforsight.Common.Dict.{Dict, get}
use inforsight.Common.Order.{text_le, lex_le}
use inforsight.Common.Sort.{sort, insert}
use inforsight.Common.Result.{ok}
use inforsight.Allocation.Models.{
  ActionUtility, OptimalRecommendation, PortfolioOptimizer, governed_optimizer, is_specialist,
}
use inforsight.Allocation.Exact.{
  is_abstain, improves, offer, fits, try_choices, try_states, choice_le, choices_of, run, best_of,
  exact, ties_le,
}
use inforsight.Allocation.Selections.{Chosen, done, choose, usage, worth, IsFeasible}
use inforsight.Allocation.Optimal.{menus_of}
use inforsight.Allocation.Answers.{Answers, exact-Answers}
use inforsight.Allocation.Heuristic.{Occurrence, heuristic_state}
use inforsight.Allocation.Gathered.{AreUnique}
use inforsight.Allocation.Served.{HeuristicAnswers, heuristic_state-Answers}
use inforsight.Allocation.Portfolio.{
  PortfolioAllocation, portfolio_allocation, ids_or_policies, ordered_pairs, portfolio_of,
  has_repeats, pair_le, solve, allocation_of, selected_all, selected_recommendation,
  allocate_recommendations, MarginalValues, marginal_opportunity_values,
}
use inforsight.Allocation.Reported.{IsReported, allocate_recommendations-IsReported}
use inforsight.Allocation.Monotone.{
  allocate_recommendations-IsBest, marginal_opportunity_values-gains,
}
use inforsight.Allocation.Returns.{CanAbstain}
use inforsight.Allocation.Completes.{allocate_recommendations-returns}

abbrev abstain : ActionUtility
abstain = record {
  action_type = "abstain";
  action_id = "act_abstain_v1";
  is_eligible = true;
  direct_cost_usd_micros = pos 0;
  net_expected_value_usd_micros = pos 0;
  personnel_seconds = pos 0;
}

abbrev email : ActionUtility
email = record {
  action_type = "email";
  action_id = "act_email_v1";
  is_eligible = true;
  direct_cost_usd_micros = pos 2;
  net_expected_value_usd_micros = pos 7;
  personnel_seconds = pos 1;
}

abbrev call : ActionUtility
call = record {
  action_type = "specialist_phone_outreach";
  action_id = "act_call_v1";
  is_eligible = true;
  direct_cost_usd_micros = pos 5;
  net_expected_value_usd_micros = pos 9;
  personnel_seconds = pos 3;
}

abbrev menu : Dict ActionUtility
menu = ("abstain", abstain) ∷ ("email", email) ∷ ("specialist_phone_outreach", call) ∷ []

abbrev recommendation : String → String → OptimalRecommendation
recommendation policy action = record {
  policy_id = policy;
  recommended_action = action;
  action_utilities = menu;
}

abbrev two : List OptimalRecommendation
two = recommendation "pol_b" "abstain" ∷ recommendation "pol_a" "abstain" ∷ []

abbrev optimizer : PortfolioOptimizer
optimizer = record {
  personnel_capacity_seconds = 10;
  budget_capacity_usd_micros = 7;
  legacy_specialist_capacity = none;
}

-- Both by email would be worth 14, an email and a call are worth 16, and two calls cost too much.
abbrev allocated : PortfolioAllocation
allocated = record {
  budget_capacity_usd_micros = 7;
  budget_used_usd_micros = 7;
  personnel_capacity_seconds = 10;
  personnel_used_seconds = 4;
  objective_usd_micros = pos 16;
  recommendations =
      recommendation "pol_a" "specialist_phone_outreach" ∷ recommendation "pol_b" "email" ∷ [];
  occurrence_ids = "pol_a" ∷ "pol_b" ∷ [];
}

allocated_run : allocate_recommendations optimizer two [] true ≡ ok allocated
unfolding allocate_recommendations has_repeats pair_le text_le lex_le sort insert solve exact run
    choices_of choice_le is_abstain try_states try_choices fits is_specialist offer improves ties_le
    best_of allocation_of selected_all selected_recommendation portfolio_allocation get ◌+ℤ◌
allocated_run = refl

exact-Answers_example : Answers optimizer (menu ∷ menu ∷ []) (exact optimizer (menu ∷ menu ∷ []))
exact-Answers_example = exact-Answers optimizer (menu ∷ menu ∷ [])

abbrev ordered : List Occurrence
ordered = ("occ_1", menu) ∷ ("occ_2", menu) ∷ []

ids_apart : ◌≢◌ {A = String} "occ_1" "occ_2"
ids_apart p = ground (arith, eq_iff "occ_1" "occ_2", p)

ordered-AreUnique : AreUnique ordered
ordered-AreUnique = (
  λ f m. elim m [
    | Memᴰ.head q ↦ λ p. ids_apart (p ∙ ap (λ (z : Occurrence). z.0) q)
    | Memᴰ.tail k ↦ elim k [ ]
  ],
  (λ f m. elim m [ ], tt),
)

heuristic_state-Answers_example :
    HeuristicAnswers optimizer ordered (heuristic_state optimizer ordered)
heuristic_state-Answers_example = heuristic_state-Answers optimizer ordered ordered-AreUnique

two_calls-Chosen : Chosen (menus_of (portfolio_of (ordered_pairs two []))) (call ∷ email ∷ [])
unfolding pair_le text_le lex_le sort insert choices_of choice_le
two_calls-Chosen =
    choose call (Memᴰ.tail (Memᴰ.head refl))
      (choose email (Memᴰ.tail (Memᴰ.tail (Memᴰ.head refl))) done)

two_calls-IsFeasible : IsFeasible optimizer (usage (call ∷ email ∷ []))
two_calls-IsFeasible = record { budget = omega arith; personnel = omega arith; specialists = tt }

allocate_recommendations-IsBest_example :
    (worth (call ∷ email ∷ [])).objective ≤ℤ allocated.objective_usd_micros
allocate_recommendations-IsBest_example =
    allocate_recommendations-IsBest two [] true (omega arith) optimizer allocated
      (call ∷ email ∷ []) allocated_run two_calls-Chosen two_calls-IsFeasible

-- Three more of money pays for a second call in place of an email.
abbrev gained : MarginalValues
gained = record { money = pos 2; personnel = pos 0 }

gained_run : marginal_opportunity_values optimizer two (pos 3) (pos 1) [] true ≡ ok gained
unfolding marginal_opportunity_values governed_optimizer allocate_recommendations has_repeats
    pair_le text_le lex_le sort insert solve exact run choices_of choice_le is_abstain try_states
    try_choices fits is_specialist offer improves ties_le best_of allocation_of selected_all
    selected_recommendation portfolio_allocation get ◌+ℤ◌ ◌-ℤ◌
gained_run = refl

marginal_opportunity_values-gains_example : (pos 0 ≤ℤ gained.money) × (pos 0 ≤ℤ gained.personnel)
marginal_opportunity_values-gains_example =
    marginal_opportunity_values-gains two [] true (omega arith) optimizer (pos 3) (pos 1) gained
      gained_run

menu-CanAbstain : CanAbstain menu
unfolding is_abstain is_specialist
menu-CanAbstain = record {
  keyed = λ e m. elim m [
    | Memᴰ.head q ↦
        ap (λ (z : String × ActionUtility). z.0) q
        ∙ ap (λ (z : String × ActionUtility). z.1.action_type) (sym q)
    | Memᴰ.tail (Memᴰ.head q) ↦
        ap (λ (z : String × ActionUtility). z.0) q
        ∙ ap (λ (z : String × ActionUtility). z.1.action_type) (sym q)
    | Memᴰ.tail (Memᴰ.tail (Memᴰ.head q)) ↦
        ap (λ (z : String × ActionUtility). z.0) q
        ∙ ap (λ (z : String × ActionUtility). z.1.action_type) (sym q)
    | Memᴰ.tail (Memᴰ.tail (Memᴰ.tail k)) ↦ elim k [ ]
  ];
  abstain = abstain;
  offered = Memᴰ.head refl;
  free = record { choice = refl; abstains = refl; cost = refl; seconds = refl; specialists = refl };
}

two-CanAbstain : (r : OptimalRecommendation) → Memᴰ r two → CanAbstain r.action_utilities
two-CanAbstain r (Memᴰ.head q) =
    subst (λ (z : OptimalRecommendation). CanAbstain z.action_utilities) (sym q) menu-CanAbstain
two-CanAbstain r (Memᴰ.tail (Memᴰ.head q)) =
    subst (λ (z : OptimalRecommendation). CanAbstain z.action_utilities) (sym q) menu-CanAbstain
two-CanAbstain r (Memᴰ.tail (Memᴰ.tail k)) = elim k [ ]

two-distinct : has_repeats (ids_or_policies [] two) ≡ false
unfolding has_repeats
two-distinct = refl

allocate_recommendations-returns_example :
    (a : PortfolioAllocation) × (allocate_recommendations optimizer two [] true ≡ ok a)
allocate_recommendations-returns_example =
    allocate_recommendations-returns optimizer two [] (omega arith) refl two-distinct two-CanAbstain

allocate_recommendations-IsReported_example : IsReported optimizer (ordered_pairs two []) allocated
allocate_recommendations-IsReported_example =
    allocate_recommendations-IsReported optimizer two [] true allocated (omega arith) allocated_run
