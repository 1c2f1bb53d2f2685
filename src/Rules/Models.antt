-- ===== src/Rules/Models.antt =====
-- rules/models.py and rules/reasons.py: the records of the eligibility rules. An aware datetime is
-- the number of microseconds since datetime.min in UTC with its offset; a naive one has no offset.
-- The float cost and hour fields of an action, which no rule reads, are left out.
use inforsight.Common.{ℕ, String, Bool, Option, none, some, List, []}
use inforsight.Common.Int.{ℤ}
use inforsight.Common.Dict
use inforsight.Common.Dict.{Dict}

-- DisqualificationReasonCode; the last is the literal that `_build_unavailable_set` defaults to.
pub data ReasonCode : Type 0 where
  legal_dispute_freeze active_claim legal_hold : ReasonCode
  policy_not_in_force policy_terminated policy_surrendered policy_lapsed policy_matured : ReasonCode
  channel_opt_out_sms channel_opt_out_email channel_opt_out_phone dnc_registry : ReasonCode
  contact_cooling_off_active grace_period_required : ReasonCode
  minimum_tenure_not_met maximum_tenure_exceeded : ReasonCode
  missing_required_attribute ambiguous_state missing_safety_evidence : ReasonCode
  insufficient_domain_evidence : ReasonCode

pub record DateTime : Type 0 where
  pub instant : ℕ
  pub offset : Option ℤ

-- A value of a mapping, as far as the code tells values apart: `py_other` is a float, a list, a
-- dictionary or another object that has no `lower`, by a number of its own.
pub data PyValue : Type 0 where
  py_none : PyValue
  py_bool : Bool → PyValue
  py_int : ℤ → PyValue
  py_text : String → PyValue
  py_datetime : DateTime → PyValue
  py_other : ℕ → PyValue

-- What `PolicyContext` may refuse.
pub data ContextError : Type 0 where
  empty_policy_id as_of_not_datetime as_of_not_utc negative_tenure_days : ContextError
  negative_days_past_due flag_not_boolean last_contact_not_datetime : ContextError
  last_contact_not_utc last_contact_in_future : ContextError
  missing_key : String → ContextError
  bad_timestamp bad_integer : ContextError

-- The detail messages: the text of each, with the values that it shows.
pub data Detail : Type 0 where
  under_legal_hold claim_pending dispute_registered frozen_by_default : Detail
  status_lapsed status_surrendered status_terminated status_matured status_not_viable :
      String → Detail
  not_in_force : Detail
  opted_out_sms opted_out_email opted_out_phone on_dnc_registry : Detail
  consent_evidence_required : String → Detail
  contacted_recently : ℤ → ℤ → Detail
  not_in_grace : Detail
  tenure_below tenure_above : ℤ → ℤ → Detail
  evidence_unavailable : Detail
  unparseable_context : ContextError → Detail

-- The identity is only copied, so it may be any value.
pub record PolicyContext : Type 0 where
  pub policy_id : PyValue
  pub as_of : DateTime
  pub status : String
  pub tenure_days : ℤ
  pub in_grace_period : Bool
  pub days_past_due : Option ℤ
  pub has_active_claim : Option Bool
  pub has_legal_hold : Option Bool
  pub has_registered_dispute : Option Bool
  pub sms_opt_out : Option Bool
  pub email_opt_out : Option Bool
  pub phone_opt_out : Option Bool
  pub dnc_registered : Option Bool
  pub last_contact_date : Option DateTime

-- The names that `required_safety_evidence` may hold.
pub data SafetyField : Type 0 where
  active_claim_field legal_hold_field registered_dispute_field : SafetyField
  sms_field email_field phone_field dnc_field : SafetyField

pub record ConservationActionDefinition : Type 0 where
  pub action_id : String
  pub action_type : String
  pub channel : String
  pub regulatory_cooling_off_days : ℤ
  pub minimum_policy_tenure_days : ℤ
  pub maximum_policy_tenure_days : Option ℤ
  pub requires_grace_period : Bool
  pub required_safety_evidence : List SafetyField

pub record ActionEligibilityResult : Type 0 where
  pub action_type : String
  pub is_eligible : Bool
  pub disqualification_reasons : List ReasonCode
  pub disqualification_details : List Detail

pub record EligibleActionSet : Type 0 where
  pub policy_id : PyValue
  pub as_of : DateTime
  pub is_frozen : Bool
  pub freeze_reason : Option ReasonCode
  pub results : Dict ActionEligibilityResult
  pub eligible_actions : List String
  pub snapshot_id : Option String
  pub safety_evidence_id : Option String

-- EligibleActionSet.is_eligible
unfoldable pub is_eligible : EligibleActionSet → String → Bool
is_eligible s action_type = elim (Dict.get action_type s.results) [
  | none ↦ Bool.false
  | some result ↦ result.is_eligible
]

-- EligibleActionSet.get_reasons
unfoldable pub get_reasons : EligibleActionSet → String → List ReasonCode
get_reasons s action_type = elim (Dict.get action_type s.results) [
  | none ↦ []
  | some result ↦ result.disqualification_reasons
]
