-- ===== src/Rules/Results.antt =====
-- The other results of the engine: the freeze and the per-action results (rules/engine.py).
use inforsight.Common.{
  String, false, ◌≡◌, ◌↔◌, refl, ◌∙◌, none, some, [], ◌∷◌, contains, arith, Bool-cases, inl, inr,
}
use inforsight.Common.Dict
use inforsight.Rules.Models.{
  ReasonCode, PolicyContext, ConservationActionDefinition, ActionEligibilityResult, is_eligible,
}
use inforsight.Rules.Invariants.{evaluate_legal_freeze, evaluate_policy_viability}
use inforsight.Rules.Engine.{
  Catalog, global_safety_missing, evaluate, fill, build_unavailable_set, unavailable_result,
}
use inforsight.Rules.Loop.{HasDistinctTypes, fill-eligible, fill-results, fill_agree, offers}
use inforsight.Rules.Judged.{evaluate_action-type, block_action-type}

-- A result set is frozen unless the absence of a claim, of a hold and of a dispute is confirmed.
pub evaluate-is_frozen :
    (catalog : Catalog) (c : PolicyContext)
    → ((evaluate catalog c).is_frozen ≡ false) ↔ (
        (c.has_active_claim ≡ some false)
        × (c.has_legal_hold ≡ some false)
        × (c.has_registered_dispute ≡ some false))
unfolding evaluate build_unavailable_set global_safety_missing evaluate_legal_freeze
evaluate-is_frozen catalog c = ground arith

-- The lookup of `is_eligible`, and the list, after one run of the loop.
agree :
    (judge : ConservationActionDefinition → ActionEligibilityResult)
    → ((a : ConservationActionDefinition) → (judge a).action_type ≡ a.action_type)
    → (k : String) (catalog : Catalog) → HasDistinctTypes catalog
    → (elim (Dict.get k (fill judge catalog ([], [])).0) [ none ↦ false | some r ↦ r.is_eligible ])
      ≡ contains k (fill judge catalog ([], [])).1
agree judge types k catalog d =
    rw (fill-results judge k catalog [] [], fill-eligible judge k catalog [] [])
      (unfold Dict.get in fill_agree judge types k catalog d)

unavailable_offers :
    (r : ReasonCode) (k : String) (catalog : Catalog)
    → offers (unavailable_result r) k catalog ≡ false
unfolding unavailable_result
unavailable_offers r k [] = refl
unavailable_offers r k (a ∷ rest) = unavailable_offers r k rest

unavailable_agree :
    (r : ReasonCode) (k : String) (catalog : Catalog)
    → HasDistinctTypes catalog
    → (elim (Dict.get k (fill (unavailable_result r) catalog ([], [])).0) [
      | none ↦ false
      | some r ↦ r.is_eligible
    ])
      ≡ false
unavailable_agree r k catalog d =
    agree (unavailable_result r) (λ a. unfold unavailable_result in refl) k catalog d
    ∙ fill-eligible (unavailable_result r) k catalog [] []
    ∙ unavailable_offers r k catalog

-- For a catalog with distinct action types, asking the result set about a type gives true exactly
-- if the type is in its list of eligible actions.
pub evaluate-is_eligible :
    (catalog : Catalog) (c : PolicyContext) (k : String)
    → HasDistinctTypes catalog
    → is_eligible (evaluate catalog c) k ≡ contains k (evaluate catalog c).eligible_actions
unfolding evaluate is_eligible build_unavailable_set
evaluate-is_eligible catalog c k d = elim (Bool-cases (global_safety_missing c)) [
  | inl m ↦ rw m (unavailable_agree _ k catalog d)
  | inr m ↦ elim (Bool-cases (evaluate_legal_freeze c).0) [
    | inl f ↦ rw (m, f) (agree _ (block_action-type _ _) k catalog d)
    | inr f ↦ elim (Bool-cases (evaluate_policy_viability c).0) [
      | inl v ↦ rw (m, f, v) (agree _ (evaluate_action-type c) k catalog d)
      | inr v ↦ rw (m, f, v) (agree _ (block_action-type _ _) k catalog d)
    ]
  ]
]
