-- ===== src/Rules/Engine.antt =====
-- rules/engine.py: the evaluator over an action catalog.
use inforsight.Common.{
  String, Bool, true, false, not, ◌&&◌, ◌||◌, Option, none, some, List, [], ◌∷◌, ◌++◌, any, str_eq,
  if◌then◌else◌,
}
use inforsight.Common.Int.{pos}
use inforsight.Common.Dict
use inforsight.Common.Dict.{Dict}
use inforsight.Common.Result.{Result, ok, err}
use inforsight.Rules.Models.{
  ReasonCode, ContextError, DateTime, PyValue, py_text, Detail, PolicyContext, SafetyField,
  ConservationActionDefinition, ActionEligibilityResult, EligibleActionSet, active_claim_field,
  legal_hold_field, registered_dispute_field, sms_field, email_field, phone_field, dnc_field,
  legal_dispute_freeze, policy_not_in_force, missing_safety_evidence, missing_required_attribute,
  consent_evidence_required, frozen_by_default, not_in_force, evidence_unavailable,
  unparseable_context,
}
use inforsight.Rules.Context.{ContextMapping, Parsers, ReadContext, from_dict}
use inforsight.Rules.Invariants.{
  Verdict, is_true, evaluate_legal_freeze, evaluate_policy_viability, evaluate_channel_consent,
  evaluate_contact_cooling_off, evaluate_grace_period, evaluate_tenure_bounds,
}

abbrev pub Catalog : Type 0
Catalog = List ConservationActionDefinition

abbrev pub is_abstain : ConservationActionDefinition → Bool
is_abstain action = str_eq action.action_type "abstain"

abbrev pub default_abstain : ConservationActionDefinition
default_abstain = record {
  action_id = "act_abstain_default_v1";
  action_type = "abstain";
  channel = "none";
  regulatory_cooling_off_days = pos 0;
  minimum_policy_tenure_days = pos 0;
  maximum_policy_tenure_days = none;
  requires_grace_period = false;
  required_safety_evidence = [];
}

-- EligibilityRulesEngine.__init__, for a catalog that is given
unfoldable pub init_catalog : Catalog → Catalog
init_catalog catalog = if any is_abstain catalog then catalog else catalog ++ default_abstain ∷ []

abbrev pub is_none : Option Bool → Bool
is_none none = true
is_none (some _) = false

-- getattr(context, field)
abbrev pub safety_fact : PolicyContext → SafetyField → Option Bool
safety_fact c active_claim_field = c.has_active_claim
safety_fact c legal_hold_field = c.has_legal_hold
safety_fact c registered_dispute_field = c.has_registered_dispute
safety_fact c sms_field = c.sms_opt_out
safety_fact c email_field = c.email_opt_out
safety_fact c phone_field = c.phone_opt_out
safety_fact c dnc_field = c.dnc_registered

abbrev pub is_channel_field : SafetyField → Bool
is_channel_field active_claim_field = false
is_channel_field legal_hold_field = false
is_channel_field registered_dispute_field = false
is_channel_field _ = true

-- The guard on `global_safety`: no fact is true and one is missing.
unfoldable pub global_safety_missing : PolicyContext → Bool
global_safety_missing c =
    not (is_true c.has_active_claim || is_true c.has_legal_hold || is_true c.has_registered_dispute)
    && (is_none c.has_active_claim || is_none c.has_legal_hold || is_none c.has_registered_dispute)

abbrev pub abstain_result : ActionEligibilityResult
abstain_result = record {
  action_type = "abstain";
  is_eligible = true;
  disqualification_reasons = [];
  disqualification_details = [];
}

unfoldable pub missing_channel_evidence : PolicyContext → ConservationActionDefinition → Bool
missing_channel_evidence c action =
    any (λ f. is_channel_field f && is_none (safety_fact c f)) action.required_safety_evidence

-- The consent verdict of the loop, with its guard on missing evidence.
unfoldable pub channel_verdict : PolicyContext → ConservationActionDefinition → Verdict
channel_verdict c action =
    if missing_channel_evidence c action
    then (false, some missing_safety_evidence, some (consent_evidence_required action.channel))
    else evaluate_channel_consent c action.channel

-- What one invariant of the loop appends to the reasons and the details.
unfoldable pub collect : Verdict → List ReasonCode × List Detail → List ReasonCode × List Detail
collect (true, _, _) found = found
collect (false, none, _) found = found
collect (false, some code, none) (reasons, details) = (reasons ++ code ∷ [], details)
collect (false, some code, some detail) (reasons, details) =
    (reasons ++ code ∷ [], details ++ detail ∷ [])

-- The four invariants of one action, in their order.
unfoldable pub disqualifications :
    PolicyContext → ConservationActionDefinition → List ReasonCode × List Detail
unfolding collect
disqualifications c action =
    collect
      (evaluate_tenure_bounds c action.minimum_policy_tenure_days action.maximum_policy_tenure_days)
      (collect (evaluate_grace_period c action.requires_grace_period) (
        collect (evaluate_contact_cooling_off c action.regulatory_cooling_off_days)
          (collect (channel_verdict c action) ([], []))))

abbrev pub is_empty : List ReasonCode → Bool
is_empty [] = true
is_empty (_ ∷ _) = false

-- The body of the third loop for one action.
unfoldable pub evaluate_action :
    PolicyContext → ConservationActionDefinition → ActionEligibilityResult
evaluate_action c action =
    if is_abstain action
    then abstain_result
    else (let (reasons, details) = disqualifications c action in
        record {
          action_type = action.action_type;
          is_eligible = is_empty reasons;
          disqualification_reasons = reasons;
          disqualification_details = details;
        })

-- The body of the first two loops: only abstain is eligible.
unfoldable pub block_action :
    ReasonCode → Detail → ConservationActionDefinition → ActionEligibilityResult
block_action reason detail action = if is_abstain action then abstain_result else record {
  action_type = action.action_type;
  is_eligible = false;
  disqualification_reasons = reason ∷ [];
  disqualification_details = detail ∷ [];
}

-- The loops over the catalog: a result for each action, and the list of the eligible ones.
unfoldable pub fill :
    (ConservationActionDefinition → ActionEligibilityResult)
    → Catalog
    → Dict ActionEligibilityResult × List String
    → Dict ActionEligibilityResult × List String
fill judge [] found = found
fill judge (action ∷ rest) (results, eligible) = fill judge rest (
  Dict.put (judge action).action_type (judge action) results,
  (if (judge action).is_eligible then eligible ++ (judge action).action_type ∷ [] else eligible),
)

abbrev or_code : Option ReasonCode → ReasonCode → ReasonCode
or_code none d = d
or_code (some r) d = r

abbrev or_detail : Option Detail → Detail → Detail
or_detail none d = d
or_detail (some r) d = r

unfoldable pub action_set :
    PolicyContext
    → Bool
    → Option ReasonCode
    → Dict ActionEligibilityResult × List String
    → EligibleActionSet
action_set c is_frozen freeze_reason (results, eligible) = record {
  policy_id = c.policy_id;
  as_of = c.as_of;
  is_frozen = is_frozen;
  freeze_reason = freeze_reason;
  results = results;
  eligible_actions = eligible;
  snapshot_id = none;
  safety_evidence_id = none;
}

unfoldable pub unavailable_result :
    ReasonCode → ConservationActionDefinition → ActionEligibilityResult
unavailable_result reason action = record {
  action_type = action.action_type;
  is_eligible = false;
  disqualification_reasons = reason ∷ [];
  disqualification_details = evidence_unavailable ∷ [];
}

-- _build_unavailable_set: nothing is eligible, abstain neither
unfoldable pub build_unavailable_set :
    Catalog → PyValue → DateTime → ReasonCode → Option String → EligibleActionSet
unfolding unavailable_result fill
build_unavailable_set catalog policy_id as_of reason snapshot_id = record {
  policy_id = policy_id;
  as_of = as_of;
  is_frozen = true;
  freeze_reason = some reason;
  results = (fill (unavailable_result reason) catalog ([], [])).0;
  eligible_actions = [];
  snapshot_id = snapshot_id;
  safety_evidence_id = none;
}

-- The freeze verdict decides between the first loop and the two others.
unfoldable pub after_freeze : Catalog → PolicyContext → Verdict → Verdict → EligibleActionSet
unfolding action_set
after_freeze catalog c (true, code, detail) viability = action_set c true code (
    fill (block_action (or_code code legal_dispute_freeze) (or_detail detail frozen_by_default))
      catalog ([], []))
after_freeze catalog c (false, _, _) (false, code, detail) = action_set c false none (
    fill (block_action (or_code code policy_not_in_force) (or_detail detail not_in_force)) catalog
      ([], []))
after_freeze catalog c (false, _, _) (true, _, _) =
    action_set c false none (fill (evaluate_action c) catalog ([], []))

-- `evaluate` on a PolicyContext
unfoldable pub evaluate : Catalog → PolicyContext → EligibleActionSet
unfolding after_freeze
evaluate catalog c =
    if global_safety_missing c
    then build_unavailable_set catalog c.policy_id c.as_of missing_safety_evidence none
    else after_freeze catalog c (evaluate_legal_freeze c) (evaluate_policy_viability c)

-- _build_fail_closed_error_set; the time is that of the call
unfoldable pub build_fail_closed_error_set :
    Catalog → DateTime → PyValue → ReasonCode → Detail → EligibleActionSet
unfolding fill
build_fail_closed_error_set catalog now policy_id reason detail = record {
  policy_id = policy_id;
  as_of = now;
  is_frozen = true;
  freeze_reason = some reason;
  results = (fill (block_action reason detail) catalog ([], [])).0;
  eligible_actions = "abstain" ∷ [];
  snapshot_id = none;
  safety_evidence_id = none;
}

-- `evaluate` on what was read: past the missing facts and the freeze it calls `lower` on the status,
-- outside the `try`, and a status that is no text raises an AttributeError.
pub data EvaluationError : Type 0 where
  status_without_lower : EvaluationError

unfoldable pub reads_status : PolicyContext → Bool
unfolding global_safety_missing evaluate_legal_freeze
reads_status c = not (global_safety_missing c) && not (evaluate_legal_freeze c).0

unfoldable pub evaluate_context : Catalog → ReadContext → Result EvaluationError EligibleActionSet
unfolding evaluate reads_status
evaluate_context catalog (py_text s, c) = ok (evaluate catalog c)
evaluate_context catalog (status, c) =
    if reads_status c then err status_without_lower else ok (evaluate catalog c)

-- An exception of `from_dict` fails closed. `getattr` finds no attribute `policy_id` on a mapping,
-- so the identity is always "unknown" then.
unfoldable pub evaluate_read :
    Catalog → DateTime → Result ContextError ReadContext → Result EvaluationError EligibleActionSet
unfolding evaluate_context
evaluate_read catalog now (ok c) = evaluate_context catalog c
evaluate_read catalog now (err e) = ok (
    build_fail_closed_error_set catalog now (py_text "unknown") missing_required_attribute
      (unparseable_context e))

-- `evaluate` on a mapping
unfoldable pub evaluate_mapping :
    Parsers → Catalog → DateTime → ContextMapping → Result EvaluationError EligibleActionSet
unfolding evaluate_read
evaluate_mapping p catalog now m = evaluate_read catalog now (from_dict p m)
