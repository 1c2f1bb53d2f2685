-- ===== src/Workflow/Tests.antt =====
-- Runs of the workflow on one case, and instances of its theorems.
use mathlib.Core.List.{Memᴰ}
use inforsight.Common.{
  ◌≤◌, true, false, ◌≡◌, refl, none, some, List, [], ◌∷◌, ◌++◌, length, str_eq, if◌then◌else◌,
}
use inforsight.Common.Dict
use inforsight.Common.Dict.{Dict}
use inforsight.Common.Result.{Result, ok, err, is_ok}
use inforsight.Workflow.Models.{
  CaseState, none_yet, created, triaged, evidence_assembled, recommended, human_reviewed, executed,
  approve_recommendation, approved, HumanReview, CaseEvent, as_of_payload, scoring_payload,
  evidence_payload, recommendation_payload, TrustedActorContext, ActionResourceRequirement,
  audit_failed, execution_payload, WorkflowError, human_review, reviewer_id_matches,
  rationale_code_matches,
}
use inforsight.Workflow.Machine.{
  CaseStateMachine, new_machine, valid_transition, transition, submit_human_review, chosen_action,
  accept_review, prepare_execution, prepare_decided, prepare_on, prepare_reviewed,
  execution_details, record_prepared_execution, resolve, record_if_ok, commit_execution,
}
use inforsight.Workflow.Lifecycle.{
  Call, call_transition, call_review, call_execution, perform, perform_all,
}
use inforsight.Workflow.Authority.{
  Trail, depth, Authorized, perform_all-Trail, length-events, perform_all-Authorized,
}
use inforsight.Workflow.Capacity.{
  Capacity, IsBalanced, replace_reservation, replacement_resources, replaced,
}
use inforsight.Workflow.Balance.{replace_reservation-IsBalanced}
use inforsight.Workflow.Service.{
  AuditRow, AuditPort, at, Outside, WorkflowContext, Service, no_faults, settle,
  restore_mutation_state, handoff, append_row, commit_write, write_store,
}
use inforsight.Workflow.Review
use inforsight.Workflow.Review.{
  ReviewRequest, submit_review, review_found, review_action, decide, review_attempt, review_checks,
}
use inforsight.Workflow.Dispatch
use inforsight.Workflow.Dispatch.{
  DispatchRequest, dispatch_execution, dispatch_keyed, dispatch_new, dispatch_checks, bound_checks,
  approval_checks, dispatch_attempt,
}
use inforsight.Workflow.Closing.{ClosingRequest, Others, resolve_case, close_case, closing_attempt}
use inforsight.Workflow.Restart.{has_event, restarted, decided, handoff-restarted}
use inforsight.Workflow.Service.{Faults, refused_before, written}
use inforsight.Workflow.Restored.{submit_review-unchanged}
use inforsight.Workflow.Delivery.{Left, dispatch_execution-Left}
use inforsight.Workflow.Execution.{IsDelivered, dispatch_execution-IsDelivered}

abbrev to_recommended : List Call
to_recommended =
    call_transition created (as_of_payload "2026-01-01") "t1" "evt_1"
    ∷ call_transition triaged (scoring_payload "tier_1") "t1" "evt_2"
    ∷ call_transition evidence_assembled (evidence_payload "digest") "t1" "evt_3"
    ∷ call_transition recommended (recommendation_payload "sms" ("sms" ∷ [])) "t1" "evt_4"
    ∷ []

abbrev good_review : HumanReview
good_review = record {
  reviewer_id = "usr_anna";
  reviewed_at = "t2";
  decision = approved;
  rationale_code = "FIT";
  justification = none;
}

abbrev to_executed : List Call
to_executed =
    to_recommended
    ++ call_review good_review "t2" "sms" ("sms" ∷ []) none "evt_5"
      ∷ call_execution "sms" "ref" [] "t3" "evt_6"
      ∷ []

executes :
    (perform_all to_executed (new_machine "case_1" "pol_1" none_yet)).current_state ≡ executed
unfolding perform_all perform transition valid_transition submit_human_review chosen_action
    accept_review commit_execution prepare_decided prepare_on prepare_reviewed execution_details
    record_if_ok
executes = refl

perform_all-Trail_example :
    let m = perform_all to_executed (new_machine "case_1" "pol_1" none_yet) in
    Trail none_yet m.events m.current_state
perform_all-Trail_example = perform_all-Trail to_executed "case_1" "pol_1"

length-events_example :
    let m = perform_all to_executed (new_machine "case_1" "pol_1" none_yet) in
    (length m.events ≡ depth m.current_state) × (length m.events ≤ 7)
length-events_example = length-events to_executed "case_1" "pol_1"

abbrev case_machine : CaseStateMachine
case_machine = new_machine "case_1" "pol_1" recommended

abbrev budget : Capacity
budget = record {
  remaining_seconds = 900;
  remaining_cost_usd_micros = 500;
  capacity_version = 0;
  reservation_version = 0;
  capacity_seconds = 1000;
  capacity_cost_usd_micros = 500;
  reservations =
      ("case_9", ("email", record { personnel_seconds = 100; direct_cost_usd_micros = 0 })) ∷ [];
}

abbrev call_needs : ActionResourceRequirement
call_needs = record { personnel_seconds = 300; direct_cost_usd_micros = 200 }

replace_reservation-IsBalanced_example :
    IsBalanced (replace_reservation "case_1" (some "sms") (some call_needs) 0 budget).1
unfolding Dict.get
replace_reservation-IsBalanced_example =
    replace_reservation-IsBalanced "case_1" (some ("sms", call_needs)) 0 budget
      (record { one_each = (refl, tt); seconds = refl; micros = refl })

abbrev world : Outside
world = record {
  parse_time = λ t. at (if str_eq t "t9" then 9 else 3);
  expiry_after = λ t n. some "t9";
  approval_identity = λ s. "apr_1";
  execution_identity = λ s. "exe_1";
  request_digest = λ x. x.outreach_reference;
  set_digest = λ e. e.content;
}

-- A ledger that is the list of its rows, and one that refuses.
abbrev open_port : AuditPort (List AuditRow)
open_port = record {
  append = λ r l. (true, l ++ r ∷ []);
  rows = λ l. l;
  append-rows = λ r l e. refl;
}

abbrev closed_port : AuditPort (List AuditRow)
closed_port = record { append = λ r l. (false, l); rows = λ l. l; append-rows = λ r l e. cc }

abbrev case_context : WorkflowContext
case_context = record {
  case_id = "case_1";
  policy_id = "pol_1";
  state_machine = case_machine;
  decision_digest = "digest";
  recommended_action = "sms";
  eligible_actions = "sms" ∷ [];
  as_of_date = "2026-01-01";
  snapshot_id = some "snap";
  safety_evidence_id = some "safe";
  eligibility_digest = "elig";
  requirements_version = "v1";
  recommendation_version = "v1";
  model_bundle_id = "m1";
  action_channels = ("sms", "sms") ∷ [];
  action_resources = ("sms", call_needs) ∷ [];
  case_version = 0;
  approval = none;
  metadata = [];
}

abbrev open_service : Service (List AuditRow)
open_service = record {
  state = record {
    cases = ("case_1", case_context) ∷ [];
    capacity = budget;
    execution_results = [];
  };
  ledger = [];
  store = none;
  approval_ttl = 900;
}

abbrev anna : TrustedActorContext
anna = record {
  actor_id = "usr_anna";
  authenticated = true;
  roles = "conservation_specialist" ∷ [];
  trust_source = "local";
}

abbrev review_request : ReviewRequest
review_request = record {
  case_id = "case_1";
  trusted_actor = anna;
  rationale_code = "FIT";
  justification = none;
  selected_action = none;
  expected_capacity_version = some 0;
  occurred_at = "t2";
  event_id = "evt_5";
}

abbrev reviewed_service : Service (List AuditRow)
reviewed_service =
    (submit_review open_port world approve_recommendation no_faults review_request open_service).1

abbrev dispatch_request : DispatchRequest
dispatch_request = record {
  execution = record {
    case_id = "case_1";
    approval_id = "apr_1";
    expected_case_version = 1;
    current_eligible_action_set = record {
      eligible_actions = "sms" ∷ [];
      snapshot_id = some "snap";
      safety_evidence_id = some "safe";
      requirements_version = some "v1";
      content = "elig";
    };
    outreach_reference = "ref";
    metadata = [];
  };
  trusted_actor = anna;
  idempotency_key = "exe_1";
  occurred_at = "t3";
  event_id = "evt_6";
}

abbrev dispatched : Result WorkflowError CaseEvent × Service (List AuditRow)
dispatched = dispatch_execution open_port world no_faults dispatch_request reviewed_service

reviews :
    is_ok
      (submit_review open_port world approve_recommendation no_faults review_request open_service).0
    ≡ true
unfolding submit_review review_found review_action decide review_checks review_attempt
    Review.after_machine Review.after_expiry Review.after_reserve Review.reserve Review.binding
    Review.select_action Review.default_channel Review.review_row human_review reviewer_id_matches
    rationale_code_matches submit_human_review accept_review chosen_action transition
    valid_transition replacement_resources replace_reservation replaced settle handoff append_row
    commit_write write_store Dict.get Dict.put
reviews = refl

dispatches : is_ok dispatched.0 ≡ true
unfolding submit_review review_found review_action decide review_checks review_attempt
    Review.after_machine Review.after_expiry Review.after_reserve Review.reserve Review.binding
    Review.select_action Review.default_channel Review.review_row human_review reviewer_id_matches
    rationale_code_matches submit_human_review accept_review chosen_action transition
    valid_transition replacement_resources replace_reservation replaced settle handoff append_row
    commit_write write_store Dict.get Dict.put dispatch_execution dispatch_keyed dispatch_new
    dispatch_checks bound_checks approval_checks dispatch_attempt Dispatch.after_checks
    Dispatch.after_prepare Dispatch.after_reserve Dispatch.after_record Dispatch.with_machine
    Dispatch.reserve_now Dispatch.execution_row prepare_execution prepare_decided prepare_on
    prepare_reviewed execution_details record_prepared_execution restore_mutation_state
dispatches = refl

abbrev done_review : HumanReview
done_review = record {
  reviewer_id = "usr_anna";
  reviewed_at = "t2";
  decision = approved;
  rationale_code = "FIT";
  justification = none;
}

abbrev executed_event : CaseEvent
executed_event = record {
  case_event_id = "evt_6";
  case_id = "case_1";
  policy_id = "pol_1";
  from_state = human_reviewed;
  to_state = executed;
  occurred_at = "t3";
  payload =
      execution_payload done_review
        (("action_type", "sms") ∷ ("channel", "sms") ∷ ("outreach_reference", "ref") ∷ []);
}

perform_all-Authorized_example :
    Authorized
      (perform_all to_executed (new_machine "case_1" "pol_1" none_yet)).events
      executed_event
unfolding perform_all perform transition valid_transition submit_human_review chosen_action
    accept_review commit_execution prepare_decided prepare_on prepare_reviewed execution_details
    record_if_ok
perform_all-Authorized_example =
    perform_all-Authorized to_executed "case_1" "pol_1" executed_event
      (Memᴰ.tail (Memᴰ.tail (Memᴰ.tail (Memᴰ.tail (Memᴰ.tail (Memᴰ.head refl))))))

dispatch_execution-IsDelivered_example :
    IsDelivered open_port world dispatch_request executed_event reviewed_service dispatched.1
unfolding submit_review review_found review_action decide review_checks review_attempt
    Review.after_machine Review.after_expiry Review.after_reserve Review.reserve Review.binding
    Review.select_action Review.default_channel Review.review_row human_review reviewer_id_matches
    rationale_code_matches submit_human_review accept_review chosen_action transition
    valid_transition replacement_resources replace_reservation replaced settle handoff append_row
    commit_write write_store Dict.get Dict.put dispatch_execution dispatch_keyed dispatch_new
    dispatch_checks bound_checks approval_checks dispatch_attempt Dispatch.after_checks
    Dispatch.after_prepare Dispatch.after_reserve Dispatch.after_record Dispatch.with_machine
    Dispatch.reserve_now Dispatch.execution_row prepare_execution prepare_decided prepare_on
    prepare_reviewed execution_details record_prepared_execution restore_mutation_state
dispatch_execution-IsDelivered_example =
    dispatch_execution-IsDelivered open_port world no_faults dispatch_request executed_event
      reviewed_service refl refl

dispatch_execution-Left_example :
    Left closed_port world dispatch_request reviewed_service
      (dispatch_execution closed_port world no_faults dispatch_request reviewed_service).1
unfolding submit_review review_found review_action decide review_checks review_attempt
    Review.after_machine Review.after_expiry Review.after_reserve Review.reserve Review.binding
    Review.select_action Review.default_channel Review.review_row human_review reviewer_id_matches
    rationale_code_matches submit_human_review accept_review chosen_action transition
    valid_transition replacement_resources replace_reservation replaced settle handoff append_row
    commit_write write_store Dict.get Dict.put dispatch_execution dispatch_keyed dispatch_new
    dispatch_checks bound_checks approval_checks dispatch_attempt Dispatch.after_checks
    Dispatch.after_prepare Dispatch.after_reserve Dispatch.after_record Dispatch.with_machine
    Dispatch.reserve_now Dispatch.execution_row prepare_execution prepare_decided prepare_on
    prepare_reviewed execution_details record_prepared_execution restore_mutation_state
dispatch_execution-Left_example =
    dispatch_execution-Left closed_port world no_faults dispatch_request reviewed_service
      audit_failed refl

-- The audit row was refused, and still the retry returns the event.
retried :
    let failed = dispatch_execution closed_port world no_faults dispatch_request reviewed_service in
    (failed.0 ≡ err audit_failed)
    × ((dispatch_execution open_port world no_faults dispatch_request failed.1).0
        ≡ ok executed_event)
unfolding submit_review review_found review_action decide review_checks review_attempt
    Review.after_machine Review.after_expiry Review.after_reserve Review.reserve Review.binding
    Review.select_action Review.default_channel Review.review_row human_review reviewer_id_matches
    rationale_code_matches submit_human_review accept_review chosen_action transition
    valid_transition replacement_resources replace_reservation replaced settle handoff append_row
    commit_write write_store Dict.get Dict.put dispatch_execution dispatch_keyed dispatch_new
    dispatch_checks bound_checks approval_checks dispatch_attempt Dispatch.after_checks
    Dispatch.after_prepare Dispatch.after_reserve Dispatch.after_record Dispatch.with_machine
    Dispatch.reserve_now Dispatch.execution_row prepare_execution prepare_decided prepare_on
    prepare_reviewed execution_details record_prepared_execution restore_mutation_state
retried = (refl, refl)

submit_review-unchanged_example :
    (submit_review closed_port world approve_recommendation no_faults review_request
      open_service).1.state
    ≡ open_service.state
unfolding submit_review review_found review_action decide review_checks review_attempt
    Review.after_machine Review.after_expiry Review.after_reserve Review.reserve Review.binding
    Review.select_action Review.default_channel Review.review_row human_review reviewer_id_matches
    rationale_code_matches submit_human_review accept_review chosen_action transition
    valid_transition replacement_resources replace_reservation replaced settle handoff append_row
    commit_write write_store Dict.get Dict.put restore_mutation_state
submit_review-unchanged_example =
    submit_review-unchanged closed_port world no_faults approve_recommendation review_request
      open_service audit_failed (λ e. cc) refl

abbrev closing_request : ClosingRequest
closing_request = record {
  case_id = "case_1";
  text = "no contact";
  occurred_at = "t3";
  event_id = "evt_6";
}

-- The case at a state of its machine, alone in the service.
abbrev context_at : CaseState → WorkflowContext
context_at st = record case_context { state_machine = new_machine "case_1" "pol_1" st }

abbrev service_at : CaseState → Service (List AuditRow)
service_at st = record open_service {
  state = record open_service.state { cases = ("case_1", context_at st) ∷ [] };
}

-- Another thread reserves for a second case, before the method or before the `except` block.
abbrev reserved : Service (List AuditRow) → Service (List AuditRow)
reserved s = record s {
  state = record s.state {
    capacity = (replace_reservation "case_2" (some "sms") (some call_needs) 0 s.state.capacity).1;
  };
}

abbrev before_method : Others (List AuditRow)
before_method = record { before = reserved; after = λ s. s }

abbrev after_attempt : Others (List AuditRow)
after_attempt = record { before = λ s. s; after = reserved }

-- The other thread's reservation is lost.
lost_reservation :
    (Dict.get "case_2" (reserved (service_at executed)).state.capacity.reservations
      ≡ some ("sms", call_needs))
    × (Dict.get "case_2"
          (resolve_case closed_port no_faults after_attempt closing_request
            (service_at executed)).1.state.capacity.reservations
        ≡ none)
unfolding resolve_case close_case closing_attempt resolve transition valid_transition settle handoff
    append_row write_store restore_mutation_state Dict.get Dict.put replace_reservation replaced
lost_reservation = (refl, refl)

abbrev pending_service : Service (List AuditRow)
pending_service = record open_service {
  store = some (record { committed = open_service.state; pending = none });
}

abbrev executed_row : AuditRow
executed_row = record {
  case_id = "case_1";
  policy_id = "pol_1";
  case_event_id = "evt_6";
  from_state = human_reviewed;
  to_state = executed;
  decision_context_digest = "digest";
  human_review = some done_review;
  dispatched_action = none;
  approval_binding = none;
  timestamp = "t3";
}

-- The row is written and the commit is not: the restart takes the pending state.
handoff-restarted_example :
    let cut : Faults = record {
      begin_write = written;
      commit_write = refused_before;
      rollback_write = written;
    } in
    let left =
      (handoff open_port cut open_service.state executed_event executed_row pending_service).1 in
    restarted left.ledger left.store open_service.state
    ≡ decided open_port cut open_service.state executed_event executed_row pending_service.state
        left.ledger
unfolding has_event
handoff-restarted_example =
    handoff-restarted open_port
      (record { begin_write = written; commit_write = refused_before; rollback_write = written })
      open_service.state executed_event executed_row pending_service refl refl refl
