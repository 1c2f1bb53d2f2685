-- ===== src/Allocation/Models.antt =====
-- optimization/models.py and the constructor of optimization/solver.py. Amounts are the exact
-- integers; the float fields and the names of contracts are left out.
use inforsight.Common.{ℕ, String, Bool, true, false, ◌||◌, Option, none, str_eq, if◌then◌else◌}
use inforsight.Common.Int.{ℤ, pos, negsuc}
use inforsight.Common.Dict.{Dict}
use inforsight.Common.Result.{Result, ok, err}

pub record ActionUtility : Type 0 where
  pub action_type : String
  pub action_id : String
  pub is_eligible : Bool
  pub direct_cost_usd_micros : ℤ
  pub net_expected_value_usd_micros : ℤ
  pub personnel_seconds : ℤ

pub record OptimalRecommendation : Type 0 where
  pub policy_id : String
  pub recommended_action : String
  pub action_utilities : Dict ActionUtility

-- The failures of the allocator, by their codes.
pub data AllocationError : Type 0 where
  invalid_capacity context_mismatch lacks_abstain infeasible unknown_action incomparable :
      AllocationError

pub record PortfolioOptimizer : Type 0 where
  pub personnel_capacity_seconds : ℕ
  pub budget_capacity_usd_micros : ℕ
  pub legacy_specialist_capacity : Option ℕ

-- PortfolioOptimizer(personnel_capacity_seconds=..., budget_capacity_usd_micros=...)
unfoldable pub governed_optimizer : ℤ → ℤ → Result AllocationError PortfolioOptimizer
governed_optimizer (negsuc _) budget = err invalid_capacity
governed_optimizer (pos seconds) (negsuc _) = err invalid_capacity
governed_optimizer (pos seconds) (pos budget) = ok (record {
  personnel_capacity_seconds = seconds;
  budget_capacity_usd_micros = budget;
  legacy_specialist_capacity = none;
})

abbrev pub is_nonnegative : ℤ → Bool
is_nonnegative (pos _) = true
is_nonnegative (negsuc _) = false

-- `choice.action_id or choice.action_type`
abbrev pub tie_name : ActionUtility → String
tie_name u = if str_eq u.action_id "" then u.action_type else u.action_id

-- action_type in SPECIALIST_ACTIONS
unfoldable pub is_specialist : ActionUtility → Bool
is_specialist u =
    str_eq u.action_type "specialist_phone_outreach"
    || str_eq u.action_type "grace_period_consultation"

-- int(choice.action_type in SPECIALIST_ACTIONS)
abbrev pub one_if : Bool → ℕ
one_if true = 1
one_if false = 0
