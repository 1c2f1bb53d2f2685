-- ===== src/Allocation/Heuristic.antt =====
-- optimization/solver.py: PortfolioOptimizer._heuristic_state, the greedy selection for portfolios
-- outside the exact domain. Utilities that differ only in a field that is left out count as equal.
use inforsight.Common.{
  String, Bool, true, false, not, ◌&&◌, ◌||◌, Option, none, some, List, [], ◌∷◌, ◌++◌, any, str_eq,
  if◌then◌else◌,
}
use inforsight.Common.Int.{ℤ, pos, ◌+ℤ◌, ltℤ}
use inforsight.Common.Order.{text_le, text_lt}
use inforsight.Common.Sort.{sort}
use inforsight.Common.Dict.{Dict, get, put, values}
use inforsight.Common.Members.{filtered}
use inforsight.Common.Result.{Result, ok, err}
use inforsight.Allocation.Models.{
  ActionUtility, AllocationError, lacks_abstain, incomparable, unknown_action, PortfolioOptimizer,
  is_nonnegative, tie_name,
}
use inforsight.Allocation.Exact.{is_abstain, Used, Candidate, nothing_used, spend, fits}
use inforsight.Allocation.Selections.{tie_names, action_names}

-- An item of `ordered`: the occurrence id and the utilities of its recommendation.
abbrev pub Occurrence : Type 0
Occurrence = String × Dict ActionUtility

-- An item of `candidates`; the tie name is that of the choice.
pub record Bid : Type 0 where
  pub occurrence_id : String
  pub choice : ActionUtility

abbrev pub eligible_of : Dict ActionUtility → List ActionUtility
eligible_of utilities = filtered (λ u. u.is_eligible) (values utilities)

unfoldable pub first_abstain : List ActionUtility → Option ActionUtility
unfolding is_abstain
first_abstain [] = none
first_abstain (u ∷ us) = if is_abstain u.action_type then some u else first_abstain us

unfoldable pub is_bid : ActionUtility → Bool
unfolding is_abstain
is_bid u =
    not (is_abstain u.action_type)
    && (ltℤ (pos 0) u.net_expected_value_usd_micros
        && (is_nonnegative u.direct_cost_usd_micros && is_nonnegative u.personnel_seconds))

unfoldable pub bids_of : String → List ActionUtility → List Bid
unfolding is_bid
bids_of id [] = []
bids_of id (u ∷ us) =
    let rest = bids_of id us in
    if is_bid u then record { occurrence_id = id; choice = u } ∷ rest else rest

-- The first loop: what is selected, and the candidates in their order.
unfoldable pub gather :
    List Occurrence
    → Dict ActionUtility
    → List Bid
    → Result AllocationError (Dict ActionUtility × List Bid)
unfolding first_abstain bids_of
gather [] selected bids = ok (selected, bids)
gather (e ∷ rest) selected bids = elim (first_abstain (eligible_of e.1)) [
  | none ↦ err lacks_abstain
  | some a ↦ gather rest (put e.0 a selected) (bids ++ bids_of e.0 (eligible_of e.1))
]

-- The order of the candidates: the greatest value first, then the occurrence, then the tie name.
unfoldable pub bid_le : Bid → Bid → Bool
unfolding text_le
bid_le a b =
    if ltℤ b.choice.net_expected_value_usd_micros a.choice.net_expected_value_usd_micros
    then true
    else if ltℤ a.choice.net_expected_value_usd_micros b.choice.net_expected_value_usd_micros
    then false
    else if text_lt a.occurrence_id b.occurrence_id
    then true
    else if text_lt b.occurrence_id a.occurrence_id
    then false
    else text_le (tie_name a.choice) (tie_name b.choice)

abbrev pub same_ℤ : ℤ → ℤ → Bool
same_ℤ a b = not (ltℤ a b) && not (ltℤ b a)

abbrev pub same_utility : ActionUtility → ActionUtility → Bool
same_utility u v =
    str_eq u.action_type v.action_type
    && (str_eq u.action_id v.action_id
        && (same_ℤ u.direct_cost_usd_micros v.direct_cost_usd_micros
            && same_ℤ u.personnel_seconds v.personnel_seconds))

-- Tuples that differ first at their utilities, which have no order: the sort raises a TypeError.
unfoldable pub cannot_compare : Bid → Bid → Bool
unfolding bid_le
cannot_compare a b = bid_le a b && (bid_le b a && not (same_utility a.choice b.choice))

unfoldable pub any_incomparable : List Bid → Bool
unfolding cannot_compare
any_incomparable [] = false
any_incomparable (b ∷ bids) = any (cannot_compare b) bids || any_incomparable bids

-- The variables of the second loop.
pub record Greedy : Type 0 where
  pub selected : Dict ActionUtility
  pub committed : List String
  pub used : Used
  pub objective : ℤ

-- One round of it, with its `continue`s.
unfoldable pub commit : PortfolioOptimizer → Greedy → Bid → Greedy
unfolding fits put
commit o g b =
    if any (str_eq b.occurrence_id) g.committed
    then g
    else if not (fits o (spend g.used b.choice))
    then g
    else record {
      selected = put b.occurrence_id b.choice g.selected;
      committed = b.occurrence_id ∷ g.committed;
      used = spend g.used b.choice;
      objective = g.objective +ℤ b.choice.net_expected_value_usd_micros;
    }

unfoldable pub commit_all : PortfolioOptimizer → Greedy → List Bid → Greedy
unfolding commit
commit_all o g [] = g
commit_all o g (b ∷ bids) = commit_all o (commit o g b) bids

-- [selected[occurrence_id] for occurrence_id, _ in ordered]
unfoldable pub chosen_of : Dict ActionUtility → List Occurrence → Option (List ActionUtility)
unfolding get
chosen_of selected [] = some []
chosen_of selected (e ∷ rest) = elim (get e.0 selected) [
  | none ↦ none
  | some u ↦ elim (chosen_of selected rest) [ none ↦ none | some us ↦ some (u ∷ us) ]
]

abbrev pub heuristic_result :
    Greedy → Option (List ActionUtility) → Result AllocationError (Used × Candidate)
heuristic_result g none = err unknown_action
heuristic_result g (some chosen) = ok (
  g.used,
  record { objective = g.objective; ties = tie_names chosen; actions = action_names chosen },
)

abbrev pub no_commitment : Dict ActionUtility → Greedy
no_commitment selected = record {
  selected = selected;
  committed = [];
  used = nothing_used;
  objective = pos 0;
}

unfoldable pub greedy :
    PortfolioOptimizer
    → List Occurrence
    → Dict ActionUtility
    → List Bid
    → Result AllocationError (Used × Candidate)
unfolding commit_all bid_le any_incomparable chosen_of
greedy o ordered selected bids =
    let g = commit_all o (no_commitment selected) (sort bid_le bids) in
    if any_incomparable bids
    then err incomparable
    else heuristic_result g (chosen_of g.selected ordered)

unfoldable pub heuristic_state :
    PortfolioOptimizer → List Occurrence → Result AllocationError (Used × Candidate)
unfolding gather greedy
heuristic_state o ordered = elim (gather ordered [] []) [
  | err e ↦ err e
  | ok (selected, bids) ↦ greedy o ordered selected bids
]
