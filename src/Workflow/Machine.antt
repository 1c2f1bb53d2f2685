-- ===== src/Workflow/Machine.antt =====
-- workflow/state_machine.py. A method returns its event or the exception, and the machine beside
-- either. The identity of a new event, `case_event_id or uuid`, is an argument.
use inforsight.Common.{
  String, Bool, true, false, not, ◌&&◌, Option, none, some, List, [], ◌∷◌, ◌++◌, contains, str_eq,
  if◌then◌else◌,
}
use inforsight.Common.Dict
use inforsight.Common.Dict.{Dict}
use inforsight.Common.Result.{Result, ok, err}
use inforsight.Workflow.Models.{
  CaseState, none_yet, created, triaged, evidence_assembled, recommended, human_reviewed, executed,
  dismissed, resolved, ReviewDecision, approved, overridden, rejected, WorkflowError,
  invalid_transition, unauthorized_execution, ineligible_override, HumanReview, Payload, CaseEvent,
  review_payload, execution_payload, abstain_payload, dismissal_payload, resolution_payload,
}

-- VALID_TRANSITIONS
unfoldable pub valid_transition : CaseState → CaseState → Bool
valid_transition none_yet created = true
valid_transition created triaged = true
valid_transition triaged evidence_assembled = true
valid_transition evidence_assembled recommended = true
valid_transition recommended human_reviewed = true
valid_transition human_reviewed executed = true
valid_transition human_reviewed dismissed = true
valid_transition executed resolved = true
valid_transition dismissed resolved = true
valid_transition _ _ = false

pub record CaseStateMachine : Type 0 where
  pub case_id : String
  pub policy_id : String
  pub current_state : CaseState
  pub events : List CaseEvent
  pub human_review : Option HumanReview
  pub approved_action_type : Option String

-- CaseStateMachine.__init__
abbrev pub new_machine : String → String → CaseState → CaseStateMachine
new_machine case_id policy_id initial_state = record {
  case_id = case_id;
  policy_id = policy_id;
  current_state = initial_state;
  events = [];
  human_review = none;
  approved_action_type = none;
}

-- What a method of the machine returns.
abbrev pub Outcome : Type 0
Outcome = Result WorkflowError CaseEvent × CaseStateMachine

abbrev pub is_executed : CaseState → Bool
is_executed executed = true
is_executed _ = false

abbrev pub is_recommended : CaseState → Bool
is_recommended recommended = true
is_recommended _ = false

abbrev pub is_human_reviewed : CaseState → Bool
is_human_reviewed human_reviewed = true
is_human_reviewed _ = false

abbrev pub is_closed : CaseState → Bool
is_closed executed = true
is_closed dismissed = true
is_closed _ = false

abbrev pub event_of : CaseStateMachine → CaseState → Payload → String → String → CaseEvent
event_of m to payload occurred_at event_id = record {
  case_event_id = event_id;
  case_id = m.case_id;
  policy_id = m.policy_id;
  from_state = m.current_state;
  to_state = to;
  occurred_at = occurred_at;
  payload = payload;
}

-- self._current_state = event.to_state; self._events.append(event)
abbrev pub record_event : CaseEvent → CaseStateMachine → CaseStateMachine
record_event e m = record m { current_state = e.to_state; events = m.events ++ e ∷ [] }

unfoldable pub transition : CaseState → Payload → String → String → CaseStateMachine → Outcome
unfolding valid_transition
transition to payload occurred_at event_id m =
    if is_executed to
    then (err unauthorized_execution, m)
    else if not (valid_transition m.current_state to)
    then (err invalid_transition, m)
    else (let event = event_of m to payload occurred_at event_id in
        (ok event, record_event event m))

-- The action that a review decision selects.
unfoldable pub chosen_action :
    ReviewDecision → String → List String → Option String → Result WorkflowError String
chosen_action approved recommended_action eligible_actions selected = ok recommended_action
chosen_action overridden recommended_action eligible_actions none = err ineligible_override
chosen_action overridden recommended_action eligible_actions (some selected) =
    if str_eq selected ""
    then err ineligible_override
    else if not (contains selected eligible_actions)
    then err ineligible_override
    else ok selected
chosen_action rejected recommended_action eligible_actions selected = ok "abstain"

-- The writes of `submit_human_review` after its checks.
unfoldable pub accept_review :
    HumanReview → String → String → Result WorkflowError String → CaseStateMachine → Outcome
unfolding transition
accept_review review occurred_at event_id (err e) m = (err e, m)
accept_review review occurred_at event_id (ok chosen) m =
    transition human_reviewed (review_payload review) occurred_at event_id
      (record m { human_review = some review; approved_action_type = some chosen })

unfoldable pub submit_human_review :
    HumanReview
    → String
    → String
    → List String
    → Option String
    → String
    → CaseStateMachine
    → Outcome
unfolding accept_review chosen_action
submit_human_review review occurred_at recommended_action eligible_actions selected event_id m =
    if not (is_recommended m.current_state)
    then (err invalid_transition, m)
    else accept_review review occurred_at event_id
        (chosen_action review.decision recommended_action eligible_actions selected) m

-- self._approved_action_type or "abstain"
abbrev pub action_or_abstain : Option String → String
action_or_abstain none = "abstain"
action_or_abstain (some a) = if str_eq a "" then "abstain" else a

abbrev spread : Dict String → Dict String → Dict String
spread [] base = base
spread ((k, v) ∷ rest) base = spread rest (Dict.put k v base)

-- execution_details, with the metadata spread over its first three entries
unfoldable pub execution_details : String → String → String → Dict String → Dict String
execution_details action_type channel outreach_reference metadata = spread metadata (
    ("action_type", action_type)
    ∷ ("channel", channel)
    ∷ ("outreach_reference", outreach_reference)
    ∷ [])

-- The last part of `_prepare_execution`, once a review that does not reject is at hand.
unfoldable pub prepare_reviewed :
    HumanReview → String → String → Dict String → String → String → CaseStateMachine → Outcome
unfolding transition execution_details
prepare_reviewed review channel reference metadata occurred_at event_id m =
    let action = action_or_abstain m.approved_action_type in
    if str_eq action "abstain"
    then transition dismissed (abstain_payload review) occurred_at event_id m
    else (
      ok (
          event_of m executed
            (execution_payload review (execution_details action channel reference metadata))
            occurred_at event_id),
      m,
    )

unfoldable pub prepare_on :
    ReviewDecision
    → HumanReview
    → String
    → String
    → Dict String
    → String
    → String
    → CaseStateMachine
    → Outcome
unfolding prepare_reviewed
prepare_on rejected review channel reference metadata occurred_at event_id m =
    (err invalid_transition, m)
prepare_on _ review channel reference metadata occurred_at event_id m =
    prepare_reviewed review channel reference metadata occurred_at event_id m

unfoldable pub prepare_decided :
    Option HumanReview
    → String
    → String
    → Dict String
    → String
    → String
    → CaseStateMachine
    → Outcome
unfolding prepare_on
prepare_decided none channel reference metadata occurred_at event_id m =
    (err unauthorized_execution, m)
prepare_decided (some review) channel reference metadata occurred_at event_id m =
    prepare_on review.decision review channel reference metadata occurred_at event_id m

-- _prepare_execution; on abstain it makes the transition to DISMISSED itself
unfoldable pub prepare_execution :
    String → String → Dict String → String → String → CaseStateMachine → Outcome
unfolding prepare_decided
prepare_execution channel reference metadata occurred_at event_id m =
    if not (is_human_reviewed m.current_state)
    then (err unauthorized_execution, m)
    else prepare_decided m.human_review channel reference metadata occurred_at event_id m

-- _record_prepared_execution
unfoldable pub record_prepared_execution : CaseEvent → CaseStateMachine → Outcome
record_prepared_execution event m =
    if not (is_human_reviewed m.current_state)
    then (err unauthorized_execution, m)
    else if not (is_human_reviewed event.from_state && is_executed event.to_state)
    then (err unauthorized_execution, m)
    else (ok event, record_event event m)

unfoldable pub record_if_ok : Outcome → Outcome
unfolding record_prepared_execution
record_if_ok (ok event, m) = record_prepared_execution event m
record_if_ok (err e, m) = (err e, m)

-- _commit_execution
unfoldable pub commit_execution :
    String → String → Dict String → String → String → CaseStateMachine → Outcome
unfolding prepare_execution record_if_ok
commit_execution channel reference metadata occurred_at event_id m =
    record_if_ok (prepare_execution channel reference metadata occurred_at event_id m)

unfoldable pub dismiss : String → String → String → CaseStateMachine → Outcome
unfolding transition
dismiss reason occurred_at event_id m =
    if not (is_human_reviewed m.current_state)
    then (err invalid_transition, m)
    else transition dismissed (dismissal_payload reason m.human_review) occurred_at event_id m

unfoldable pub resolve : String → String → String → CaseStateMachine → Outcome
unfolding transition
resolve resolution_notes occurred_at event_id m =
    if not (is_closed m.current_state)
    then (err invalid_transition, m)
    else transition resolved (resolution_payload resolution_notes) occurred_at event_id m
