-- ===== src/Allocation/Selections.antt =====
-- What an allocation is to be: a selection of one choice for each occurrence, its totals, whether
-- they fit the capacities, and which of two selections is the better one.
use mathlib.Core.List.{Memᴰ}
use inforsight.Common.{
  ℕ, ◌+◌, ◌≤◌, String, true, false, ◌≡◌, refl, ◌∙◌, ◌⊎◌, inl, inr, Bool-cases, Option, none, some,
  List, [], ◌∷◌, arith,
}
use inforsight.Common.Int.{ℤ, pos, pos_part, ◌+ℤ◌, ◌<ℤ◌, ltℤ}
use inforsight.Common.Order.{IsOrder, lex_le-IsOrder, text_le, text_le-IsOrder, le_of_not}
use inforsight.Allocation.Models.{
  ActionUtility, PortfolioOptimizer, tie_name, is_specialist, one_if,
}
use inforsight.Allocation.Exact.{Used, Candidate, ties_le, improves}

-- One choice from each menu, in the order of the menus.
pub data Chosen : List (List ActionUtility) → List ActionUtility → Type 0 where
  done : Chosen [] []
  choose :
      {menu : List ActionUtility} {menus : List (List ActionUtility)} {sel : List ActionUtility}
      → (x : ActionUtility) → Memᴰ x menu
      → Chosen menus sel
      → Chosen (menu ∷ menus) (x ∷ sel)

abbrev pub total_cost : List ActionUtility → ℕ
total_cost [] = 0
total_cost (x ∷ sel) = pos_part x.direct_cost_usd_micros + total_cost sel

abbrev pub total_seconds : List ActionUtility → ℕ
total_seconds [] = 0
total_seconds (x ∷ sel) = pos_part x.personnel_seconds + total_seconds sel

abbrev pub total_specialists : List ActionUtility → ℕ
total_specialists [] = 0
total_specialists (x ∷ sel) = one_if (is_specialist x) + total_specialists sel

-- The value of the selection on top of another amount.
abbrev pub add_values : ℤ → List ActionUtility → ℤ
add_values v [] = v
add_values v (x ∷ sel) = add_values (v +ℤ x.net_expected_value_usd_micros) sel

abbrev pub tie_names : List ActionUtility → List String
tie_names [] = []
tie_names (x ∷ sel) = tie_name x ∷ tie_names sel

abbrev pub action_names : List ActionUtility → List String
action_names [] = []
action_names (x ∷ sel) = x.action_type ∷ action_names sel

-- What a selection uses, and what it is worth.
abbrev pub usage : List ActionUtility → Used
usage sel = record {
  cost = total_cost sel;
  seconds = total_seconds sel;
  specialists = total_specialists sel;
}

abbrev pub worth : List ActionUtility → Candidate
worth sel = record {
  objective = add_values (pos 0) sel;
  ties = tie_names sel;
  actions = action_names sel;
}

abbrev pub AtMost : Option ℕ → ℕ → Type 0
AtMost none n = Unit
AtMost (some most) n = n ≤ most

-- The totals are within the capacities.
pub record IsFeasible (o : PortfolioOptimizer) (u : Used) : Type 0 where
  pub budget : u.cost ≤ o.budget_capacity_usd_micros
  pub personnel : u.seconds ≤ o.personnel_capacity_seconds
  pub specialists : AtMost o.legacy_specialist_capacity u.specialists

-- A greater objective, or the same one and a tie vector that does not come later.
abbrev pub NoWorse : Candidate → Candidate → Type 0
NoWorse c d =
    (d.objective <ℤ c.objective) ⊎ ((c.objective ≡ d.objective) × (ties_le c.ties d.ties ≡ true))

ties_le-IsOrder : IsOrder ties_le
unfolding ties_le
ties_le-IsOrder = lex_le-IsOrder text_le text_le-IsOrder

ltℤ-lt : (a b : ℤ) → ltℤ a b ≡ true → a <ℤ b
ltℤ-lt a b h = ground arith

same_integer : (a b : ℤ) → ltℤ a b ≡ false → ltℤ b a ≡ false → a ≡ b
same_integer a b h k = ground arith

pub NoWorse-refl : (c : Candidate) → NoWorse c c
NoWorse-refl c = inr (refl, elim (ties_le-IsOrder.total c.ties c.ties) [ inl h ↦ h | inr h ↦ h ])

pub NoWorse-trans : (a b c : Candidate) → NoWorse a b → NoWorse b c → NoWorse a c
NoWorse-trans a b c (inl h) (inl k) = inl (omega arith)
NoWorse-trans a b c (inl h) (inr (e, k)) = inl (ground (arith, e))
NoWorse-trans a b c (inr (e, h)) (inl k) = inl (ground (arith, e))
NoWorse-trans a b c (inr (e, h)) (inr (f, k)) =
    inr (e ∙ f, ties_le-IsOrder.trans a.ties b.ties c.ties h k)

-- What improves is no worse, and what does not improve leaves the incumbent no worse.
pub improves-NoWorse : (c d : Candidate) → improves c d ≡ true → NoWorse c d
unfolding improves
improves-NoWorse c d h = elim (Bool-cases (ltℤ d.objective c.objective)) [
  | inl b ↦ inl (ltℤ-lt d.objective c.objective b)
  | inr b ↦ inr (
    same_integer c.objective d.objective (ground (arith, b, h)) b,
    le_of_not ties_le ties_le-IsOrder d.ties c.ties (ground (arith, b, h)),
  )
]

pub keeps-NoWorse : (c d : Candidate) → improves c d ≡ false → NoWorse d c
unfolding improves
keeps-NoWorse c d h = elim (Bool-cases (ltℤ c.objective d.objective)) [
  | inl b ↦ inl (ltℤ-lt c.objective d.objective b)
  | inr b ↦
      inr (same_integer d.objective c.objective (ground (arith, b, h)) b, ground (arith, b, h))
]
