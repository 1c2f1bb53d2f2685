-- ===== src/Rules/Judged.antt =====
-- What the loops of rules/engine.py list, for each of their two judgements.
use inforsight.Common.{String, true, false, ◌≡◌, ◌↔◌, refl, [], ◌∷◌, any, str_eq, eq_iff, arith}
use inforsight.Rules.Models.{
  ReasonCode, Detail, PolicyContext, ConservationActionDefinition, ActionEligibilityResult,
}
use inforsight.Rules.Engine.{Catalog, is_abstain, evaluate_action, block_action}
use inforsight.Rules.Checks.{Permits, disqualifications-empty}
use inforsight.Rules.Loop.{offers}

pub evaluate_action-type :
    (c : PolicyContext) (a : ConservationActionDefinition)
    → (evaluate_action c a).action_type ≡ a.action_type
unfolding evaluate_action
evaluate_action-type c a = ground (arith, eq_iff a.action_type "abstain")

pub block_action-type :
    (r : ReasonCode) (d : Detail) (a : ConservationActionDefinition)
    → (block_action r d a).action_type ≡ a.action_type
unfolding block_action
block_action-type r d a = ground (arith, eq_iff a.action_type "abstain")

-- An intervention is judged eligible exactly if the context permits it.
pub judged_eligible :
    (c : PolicyContext) (a : ConservationActionDefinition)
    → is_abstain a ≡ false
    → ((evaluate_action c a).is_eligible ≡ true) ↔ Permits c a
unfolding evaluate_action
judged_eligible c a h =
    let e = disqualifications-empty c a in (λ k. e.0 (ground arith), λ p. ground (arith, e.1 p))

pub blocked_offers :
    (r : ReasonCode) (d : Detail) (t : String) (catalog : Catalog)
    → str_eq t "abstain" ≡ false
    → offers (block_action r d) t catalog ≡ false
unfolding block_action
blocked_offers r d t [] h = refl
blocked_offers r d t (a ∷ rest) h =
    ground (arith, blocked_offers r d t rest, eq_iff "abstain" t, eq_iff t "abstain")

pub abstain_offered :
    (judge : ConservationActionDefinition → ActionEligibilityResult)
    → ((a : ConservationActionDefinition) → (judge a).action_type ≡ a.action_type)
    → ((a : ConservationActionDefinition) → is_abstain a ≡ true → (judge a).is_eligible ≡ true)
    → (catalog : Catalog) → offers judge "abstain" catalog ≡ any is_abstain catalog
abstain_offered judge types keeps [] = refl
abstain_offered judge types keeps (a ∷ rest) =
    ground (arith, abstain_offered judge types keeps rest, types a, keeps a)

pub blocked_abstain :
    (r : ReasonCode) (d : Detail) (catalog : Catalog)
    → offers (block_action r d) "abstain" catalog ≡ any is_abstain catalog
blocked_abstain r d =
    abstain_offered (block_action r d) (block_action-type r d) (λ a e. unfold block_action in rw e)

pub evaluated_abstain :
    (c : PolicyContext) (catalog : Catalog)
    → offers (evaluate_action c) "abstain" catalog ≡ any is_abstain catalog
evaluated_abstain c =
    abstain_offered (evaluate_action c) (evaluate_action-type c)
      (λ a e. unfold evaluate_action in rw e)
