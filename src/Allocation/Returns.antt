-- ===== src/Allocation/Returns.antt =====
-- optimization/solver.py: an allocation is returned wherever every occurrence may abstain for free.
use mathlib.Core.List.{Memᴰ}
use inforsight.Common.{
  ℕ, String, true, ◌≡◌, refl, sym, ◌∙◌, inl, inr, Option, none, some, List, [], ◌∷◌, arith,
}
use inforsight.Common.Int.{pos_part}
use inforsight.Common.Dict.{Dict, values}
use inforsight.Common.Members.{filtered, filtered-mem, any-mem}
use inforsight.Common.Sort.{sort-mem}
use inforsight.Common.Result.{Result, ok, err}
use inforsight.Allocation.Models.{
  ActionUtility, AllocationError, lacks_abstain, infeasible, unknown_action, invalid_capacity,
  context_mismatch, incomparable, PortfolioOptimizer, is_specialist, one_if,
}
use inforsight.Allocation.Exact.{Used, Candidate, is_abstain, is_choice, choice_le, choices_of}
use inforsight.Allocation.Selections.{
  Chosen, done, choose, usage, total_cost, total_seconds, total_specialists, AtMost, IsFeasible,
}
use inforsight.Allocation.Optimal.{menus_of, LacksAbstain}
use inforsight.Allocation.Answers.{Answers}

-- A utility that is eligible, is to abstain and takes nothing.
pub record IsFree (u : ActionUtility) : Type 0 where
  pub choice : is_choice u ≡ true
  pub abstains : is_abstain u.action_type ≡ true
  pub cost : pos_part u.direct_cost_usd_micros ≡ 0
  pub seconds : pos_part u.personnel_seconds ≡ 0
  pub specialists : one_if (is_specialist u) ≡ 0

-- Utilities that stand under their action types, with a free one to abstain among them.
pub record CanAbstain (utilities : Dict ActionUtility) : Type 0 where
  pub keyed : (e : String × ActionUtility) → Memᴰ e utilities → e.0 ≡ e.1.action_type
  pub abstain : ActionUtility
  pub offered : Memᴰ abstain (values utilities)
  pub free : IsFree abstain

abstain-mem : (d : Dict ActionUtility) (k : CanAbstain d) → Memᴰ k.abstain (choices_of d)
unfolding choices_of
abstain-mem d k =
    sort-mem choice_le k.abstain (filtered is_choice (values d))
      (filtered-mem is_choice (values d) k.abstain k.offered k.free.choice)

abbrev pub AllAbstain : List (Dict ActionUtility) → Type 0
AllAbstain [] = Unit
AllAbstain (d ∷ rest) = CanAbstain d × AllAbstain rest

abbrev abstentions :
    (portfolio : List (Dict ActionUtility)) → AllAbstain portfolio → List ActionUtility
abstentions [] k = []
abstentions (d ∷ rest) (k, ks) = k.abstain ∷ abstentions rest ks

abstentions-Chosen :
    (portfolio : List (Dict ActionUtility)) (k : AllAbstain portfolio)
    → Chosen (menus_of portfolio) (abstentions portfolio k)
abstentions-Chosen [] k = done
abstentions-Chosen (d ∷ rest) (k, ks) =
    choose k.abstain (abstain-mem d k) (abstentions-Chosen rest ks)

usage-abstentions :
    (portfolio : List (Dict ActionUtility)) (k : AllAbstain portfolio)
    → (total_cost (abstentions portfolio k) ≡ 0)
      × (total_seconds (abstentions portfolio k) ≡ 0)
      × (total_specialists (abstentions portfolio k) ≡ 0)
usage-abstentions [] k = (refl, refl, refl)
usage-abstentions (d ∷ rest) (k, ks) =
    let (c, s, n) = usage-abstentions rest ks in
    (
      omega (arith, k.free.cost, c),
      omega (arith, k.free.seconds, s),
      omega (arith, k.free.specialists, n),
    )

none_used : (most : Option ℕ) (n : ℕ) → n ≡ 0 → AtMost most n
none_used none n q = tt
none_used (some m) n q = omega arith

abstentions-IsFeasible :
    (o : PortfolioOptimizer) (portfolio : List (Dict ActionUtility)) (k : AllAbstain portfolio)
    → IsFeasible o (usage (abstentions portfolio k))
abstentions-IsFeasible o portfolio k =
    let (c, s, n) = usage-abstentions portfolio k in
    record {
      budget = omega (arith, c);
      personnel = omega (arith, s);
      specialists = none_used o.legacy_specialist_capacity _ n;
    }

never_lacks :
    (portfolio : List (Dict ActionUtility)) → AllAbstain portfolio → LacksAbstain portfolio → ⊥
never_lacks [] k n = n
never_lacks (d ∷ rest) (k, ks) (inr n) = never_lacks rest ks n
never_lacks (d ∷ rest) (k, ks) (inl n) = cc (
    sym n
    ∙ any-mem (λ x. is_abstain x.action_type) (choices_of d) k.abstain (abstain-mem d k)
        k.free.abstains)

-- The exact allocation returns.
pub exact-returns :
    (o : PortfolioOptimizer) (portfolio : List (Dict ActionUtility))
    → AllAbstain portfolio
    → (r : Result AllocationError (Used × Candidate)) → Answers o portfolio r
    → (s : Used × Candidate) × (r ≡ ok s)
exact-returns o portfolio k (ok s) a = (s, refl)
exact-returns o portfolio k (err lacks_abstain) a = elim (never_lacks portfolio k a) [ ]
exact-returns o portfolio k (err infeasible) a =
    elim (a (abstentions portfolio k) (abstentions-Chosen portfolio k)
      (abstentions-IsFeasible o portfolio k)) [ ]
exact-returns o portfolio k (err invalid_capacity) a = elim a [ ]
exact-returns o portfolio k (err context_mismatch) a = elim a [ ]
exact-returns o portfolio k (err unknown_action) a = elim a [ ]
exact-returns o portfolio k (err incomparable) a = elim a [ ]
