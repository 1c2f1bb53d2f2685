-- ===== src/Allocation/Exact.antt =====
-- optimization/solver.py: the dynamic program of allocate_recommendations.
use inforsight.Common.{
  ℕ, ◌+◌, String, Bool, true, false, not, ◌&&◌, ◌||◌, Option, none, some, List, [], ◌∷◌, ◌++◌, any,
  leb, ◌==◌, str_eq, if◌then◌else◌,
}
use text.Mathlib.Text.{starts_with}
use inforsight.Common.Int.{ℤ, pos, pos_part, ◌+ℤ◌, ltℤ}
use inforsight.Common.Order.{lex_le, text_le, text_lt}
use inforsight.Common.Sort.{sort}
use inforsight.Common.Dict.{Dict, values}
use inforsight.Common.Members.{filtered}
use inforsight.Common.Result.{Result, ok, err}
use inforsight.Allocation.Models.{
  ActionUtility, AllocationError, lacks_abstain, infeasible, PortfolioOptimizer, is_nonnegative,
  tie_name, is_specialist, one_if,
}

-- PortfolioOptimizer._is_abstain
unfoldable pub is_abstain : String → Bool
is_abstain name = str_eq name "abstain" || starts_with name "act_abstain_"

-- A key of `states`: (cost, seconds, legacy specialist count).
pub record Used : Type 0 where
  pub cost : ℕ
  pub seconds : ℕ
  pub specialists : ℕ

-- A value of `states`: (objective, stable tie vector, action-name vector).
pub record Candidate : Type 0 where
  pub objective : ℤ
  pub ties : List String
  pub actions : List String

-- The dictionary, in its order of insertion.
abbrev pub States : Type 0
States = List (Used × Candidate)

abbrev pub nothing_used : Used
nothing_used = record { cost = 0; seconds = 0; specialists = 0 }

abbrev pub no_choice : Candidate
no_choice = record { objective = pos 0; ties = []; actions = [] }

abbrev pub same_used : Used → Used → Bool
same_used u v = u.cost == v.cost && (u.seconds == v.seconds && u.specialists == v.specialists)

-- `a <= b` for tie vectors
unfoldable pub ties_le : List String → List String → Bool
ties_le = lex_le text_le

-- Whether a candidate replaces the incumbent.
unfoldable pub improves : Candidate → Candidate → Bool
unfolding ties_le
improves c d =
    ltℤ d.objective c.objective
    || (not (ltℤ c.objective d.objective) && not (ties_le d.ties c.ties))

-- next_states[key] = candidate, where there is no incumbent or the candidate improves on it
unfoldable pub offer : Used → Candidate → States → States
unfolding improves
offer key c [] = (key, c) ∷ []
offer key c ((u, d) ∷ states) =
    if same_used u key
    then (u, (if improves c d then c else d)) ∷ states
    else (u, d) ∷ offer key c states

abbrev pub spend : Used → ActionUtility → Used
spend u x = record {
  cost = u.cost + pos_part x.direct_cost_usd_micros;
  seconds = u.seconds + pos_part x.personnel_seconds;
  specialists = u.specialists + one_if (is_specialist x);
}

abbrev pub extend : Candidate → ActionUtility → Candidate
extend c x = record {
  objective = c.objective +ℤ x.net_expected_value_usd_micros;
  ties = c.ties ++ tie_name x ∷ [];
  actions = c.actions ++ x.action_type ∷ [];
}

abbrev pub specialists_fit : Option ℕ → ℕ → Bool
specialists_fit none n = true
specialists_fit (some most) n = leb n most

-- No `continue` of the loop is taken.
unfoldable pub fits : PortfolioOptimizer → Used → Bool
fits o u =
    leb u.cost o.budget_capacity_usd_micros
    && (leb u.seconds o.personnel_capacity_seconds
        && specialists_fit o.legacy_specialist_capacity u.specialists)

-- The inner loop, over the choices of one occurrence.
unfoldable pub try_choices :
    PortfolioOptimizer → Used → Candidate → List ActionUtility → States → States
unfolding fits offer
try_choices o u c [] next = next
try_choices o u c (x ∷ xs) next =
    try_choices o u c xs (if fits o (spend u x) then offer (spend u x) (extend c x) next else next)

-- The loop over `states.items()`.
unfoldable pub try_states : PortfolioOptimizer → List ActionUtility → States → States → States
unfolding try_choices
try_states o choices [] next = next
try_states o choices ((u, c) ∷ states) next =
    try_states o choices states (try_choices o u c choices next)

-- Eligible, with no negative amount.
abbrev pub is_choice : ActionUtility → Bool
is_choice x =
    x.is_eligible && (is_nonnegative x.direct_cost_usd_micros && is_nonnegative x.personnel_seconds)

-- key=lambda choice: (choice.action_id, choice.action_type)
unfoldable pub choice_le : ActionUtility → ActionUtility → Bool
unfolding text_le
choice_le x y =
    if text_lt x.action_id y.action_id
    then true
    else if text_lt y.action_id x.action_id
    then false
    else text_le x.action_type y.action_type

-- The choices of one occurrence, sorted.
unfoldable pub choices_of : Dict ActionUtility → List ActionUtility
unfolding choice_le
choices_of utilities = sort choice_le (filtered is_choice (values utilities))

abbrev pub has_abstain : List ActionUtility → Bool
has_abstain choices = any (λ x. is_abstain x.action_type) choices

-- The loop over the occurrences.
unfoldable pub run :
    PortfolioOptimizer → List (Dict ActionUtility) → States → Result AllocationError States
unfolding try_states choices_of is_abstain
run o [] states = ok states
run o (utilities ∷ rest) states =
    let next = run o rest (try_states o (choices_of utilities) states []) in
    if has_abstain (choices_of utilities) then next else err lacks_abstain

-- min(states.items(), key=lambda item: (-item[1][0], item[1][1])): the first that none improves on
unfoldable pub best_of : Used × Candidate → States → Used × Candidate
unfolding improves
best_of best [] = best
best_of best (s ∷ states) = best_of (if improves s.1 best.1 then s else best) states

abbrev pub pick : States → Result AllocationError (Used × Candidate)
pick [] = err infeasible
pick (s ∷ states) = ok (best_of s states)

-- The exact allocation: what is used, and the best candidate.
unfoldable pub exact :
    PortfolioOptimizer → List (Dict ActionUtility) → Result AllocationError (Used × Candidate)
unfolding run best_of
exact o portfolio = elim (run o portfolio ((nothing_used, no_choice) ∷ [])) [
  | ok states ↦ pick states
  | err e ↦ err e
]
