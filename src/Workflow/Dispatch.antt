-- ===== src/Workflow/Dispatch.antt =====
-- workflow/service.py: dispatch_execution, the boundary of every intervention.
use inforsight.Common.{
  ◌+◌, String, Bool, true, false, not, ◌&&◌, ◌||◌, Option, none, some, [], ◌∷◌, contains, any, ltb,
  ◌==◌, str_eq, if◌then◌else◌,
}
use inforsight.Common.Dict
use inforsight.Common.Dict.{Dict}
use inforsight.Common.Result.{Result, ok, err, ◌>>=◌, ◌>>◌, refuse_if}
use inforsight.Workflow.Models.{
  TrustedActorContext, ApprovalBinding, ActionResourceRequirement, no_resources, CaseEvent, Payload,
  execution_payload, WorkflowError, AuthorityCode, case_not_found, authority, idempotency_conflict,
  approval_missing, approval_mismatch, actor_mismatch, approval_expired, case_version_stale,
  evidence_stale, eligibility_stale, capacity_exhausted, capacity_exceeded, stale_allocation,
  metadata_override,
}
use inforsight.Workflow.Machine.{
  CaseStateMachine, Outcome, prepare_execution, record_prepared_execution,
}
use inforsight.Workflow.Capacity.{Reservation, Capacity, replacement_resources, replace_reservation}
use inforsight.Workflow.Service.{
  AuditRow, AuditPort, ExecutionRequest, Outside, WorkflowContext, State, Service, Faults, Attempt,
  instant_of, put_case, handoff, settle,
}

-- The keyword arguments, and the event identity that the machine draws.
pub record DispatchRequest : Type 0 where
  pub execution : ExecutionRequest
  pub trusted_actor : TrustedActorContext
  pub idempotency_key : String
  pub occurred_at : String
  pub event_id : String

-- dict.get(key) != value
abbrev differs : Option String → String → Bool
differs none v = true
differs (some s) v = not (str_eq s v)

abbrev pub or_required : Option ActionResourceRequirement → ActionResourceRequirement
or_required none = no_resources
or_required (some r) = r

has_key : String → Dict String → Bool
has_key key [] = false
has_key key ((k, _) ∷ rest) = str_eq k key || has_key key rest

-- protected.intersection(metadata)
overrides_authority : Dict String → Bool
unfolding has_key
overrides_authority metadata =
    any (λ key. has_key key metadata)
      ("action_type" ∷ "channel" ∷ "reviewer_id" ∷ "approval_id" ∷ "case_version" ∷ [])

-- The capacity check where the case holds no reservation, and the match of the one it holds.
check_reservation :
    String
    → String
    → ActionResourceRequirement
    → Option Reservation
    → Capacity
    → Result WorkflowError (Unit {0})
check_reservation case_id action requirement none c =
    elim (replacement_resources case_id (some requirement) c.capacity_version c) [
      | ok _ ↦ ok tt
      | err capacity_exceeded ↦ err (authority capacity_exhausted)
      | err e ↦ err (authority e)
    ]
check_reservation case_id action requirement (some (reserved, _)) c =
    refuse_if (not (str_eq reserved action)) (authority stale_allocation)

-- The checks on a bound approval, in their order.
unfoldable pub approval_checks :
    Outside
    → DispatchRequest
    → WorkflowContext
    → ApprovalBinding
    → Capacity
    → Result WorkflowError (Unit {0})
unfolding check_reservation overrides_authority
approval_checks o q ctx approval c = do
  let x = q.execution
  refuse_if
      (not (
        str_eq approval.approval_id x.approval_id
        && str_eq approval.idempotency_key q.idempotency_key))
      (authority approval_mismatch)
  refuse_if (not (str_eq approval.actor_id q.trusted_actor.actor_id)) (authority actor_mismatch)
  now ← instant_of (o.parse_time q.occurred_at)
  end ← instant_of (o.parse_time approval.expires_at)
  refuse_if (ltb end now) (authority approval_expired)
  refuse_if
      (not (
        ctx.case_version == x.expected_case_version
        && approval.case_version == x.expected_case_version))
      (authority case_version_stale)
  let current = x.current_eligible_action_set
  refuse_if
      (differs current.snapshot_id approval.snapshot_id
        || differs current.safety_evidence_id approval.safety_evidence_id
        || differs current.requirements_version approval.requirements_version)
      (authority evidence_stale)
  refuse_if
      (not (
        str_eq (o.set_digest current) approval.eligibility_digest
        && contains approval.action_type current.eligible_actions))
      (authority eligibility_stale)
  check_reservation x.case_id approval.action_type
      (or_required (Dict.get approval.action_type ctx.action_resources))
      (Dict.get x.case_id c.reservations) c
  refuse_if (overrides_authority x.metadata) (authority metadata_override)

unfoldable pub bound_checks :
    Outside
    → DispatchRequest
    → WorkflowContext
    → Capacity
    → Option ApprovalBinding
    → Result WorkflowError ApprovalBinding
unfolding approval_checks
bound_checks o q ctx c none = err (authority approval_missing)
bound_checks o q ctx c (some approval) = do approval_checks o q ctx approval c; ok approval

unfoldable pub dispatch_checks :
    Outside → DispatchRequest → WorkflowContext → Capacity → Result WorkflowError ApprovalBinding
unfolding bound_checks
dispatch_checks o q ctx c = bound_checks o q ctx c ctx.approval

-- event.payload.get("execution_details")
abbrev pub details_of : Payload → Option (Dict String)
details_of (execution_payload _ details) = some details
details_of _ = none

unfoldable pub execution_row :
    DispatchRequest → WorkflowContext → ApprovalBinding → CaseEvent → AuditRow
execution_row q ctx approval event = record {
  case_id = q.execution.case_id;
  policy_id = ctx.policy_id;
  case_event_id = event.case_event_id;
  from_state = event.from_state;
  to_state = event.to_state;
  decision_context_digest = ctx.decision_digest;
  human_review = ctx.state_machine.human_review;
  dispatched_action = details_of event.payload;
  approval_binding = some approval;
  timestamp = q.occurred_at;
}

-- The reservation of the `try` block, where the case holds none.
unfoldable pub reserve_now :
    DispatchRequest
    → ApprovalBinding
    → ActionResourceRequirement
    → Capacity
    → Result AuthorityCode (Unit {0}) × Capacity
reserve_now q approval requirement c = elim (Dict.get q.execution.case_id c.reservations) [
  | none ↦
      replace_reservation q.execution.case_id (some approval.action_type) (some requirement)
        c.capacity_version c
  | some _ ↦ (ok tt, c)
]

module _ {L : Type 0} (port : AuditPort L) (o : Outside) where
  unfoldable pub with_machine :
      DispatchRequest → WorkflowContext → CaseStateMachine → Service L → Service L
  with_machine q ctx m s = record s {
    state = put_case q.execution.case_id (record ctx { state_machine = m }) s.state;
  }

  unfoldable pub after_record :
      Faults
      → DispatchRequest
      → ApprovalBinding
      → State
      → WorkflowContext
      → Service L
      → Outcome
      → Attempt L
  unfolding execution_row with_machine
  after_record faults q approval committed ctx s (err e, m) = (err e, with_machine q ctx m s, false)
  after_record faults q approval committed ctx s (ok event, m) =
      let ctx' = record ctx { state_machine = m; case_version = ctx.case_version + 1 } in
      let st = put_case q.execution.case_id ctx' s.state in
      let remembered =
        Dict.put q.idempotency_key (o.request_digest q.execution, event) st.execution_results in
      handoff port faults committed event (execution_row q ctx' approval event)
        (record s { state = record st { execution_results = remembered } })

  unfoldable pub after_reserve :
      Faults
      → DispatchRequest
      → ApprovalBinding
      → State
      → WorkflowContext
      → CaseEvent
      → Service L
      → Result AuthorityCode (Unit {0}) × Capacity
      → Attempt L
  unfolding after_record record_prepared_execution
  after_reserve faults q approval committed ctx event s (err e, c) =
      (err (authority e), record s { state = record s.state { capacity = c } }, false)
  after_reserve faults q approval committed ctx event s (ok _, c) =
      after_record faults q approval committed ctx
        (record s { state = record s.state { capacity = c } })
        (record_prepared_execution event ctx.state_machine)

  unfoldable pub after_prepare :
      Faults → DispatchRequest → ApprovalBinding → WorkflowContext → Service L → Outcome → Attempt L
  unfolding after_reserve reserve_now with_machine
  after_prepare faults q approval ctx s (err e, m) = (err e, with_machine q ctx m s, false)
  after_prepare faults q approval ctx s (ok event, m) =
      let s' = with_machine q ctx m s in
      let requirement = or_required (Dict.get approval.action_type ctx.action_resources) in
      after_reserve faults q approval s.state (record ctx { state_machine = m }) event s'
        (reserve_now q approval requirement s'.state.capacity)

  -- The `try` block.
  unfoldable pub dispatch_attempt :
      Faults → DispatchRequest → ApprovalBinding → WorkflowContext → Service L → Attempt L
  unfolding after_prepare prepare_execution
  dispatch_attempt faults q approval ctx s = after_prepare faults q approval ctx s (
      prepare_execution approval.channel q.execution.outreach_reference q.execution.metadata
        q.occurred_at q.event_id ctx.state_machine)

  unfoldable pub after_checks :
      Faults
      → DispatchRequest
      → WorkflowContext
      → Service L
      → Result WorkflowError ApprovalBinding
      → Result WorkflowError CaseEvent × Service L
  unfolding dispatch_attempt settle
  after_checks faults q ctx s (err e) = (err e, s)
  after_checks faults q ctx s (ok approval) =
      settle faults s.state q.execution.case_id ctx (dispatch_attempt faults q approval ctx s)

  -- A request whose key has no result.
  unfoldable pub dispatch_new :
      Faults
      → DispatchRequest
      → Option WorkflowContext
      → Service L
      → Result WorkflowError CaseEvent × Service L
  unfolding after_checks dispatch_checks
  dispatch_new faults q none s = (err case_not_found, s)
  dispatch_new faults q (some ctx) s =
      after_checks faults q ctx s (dispatch_checks o q ctx s.state.capacity)

  -- The idempotency check stands first.
  unfoldable pub dispatch_keyed :
      Faults
      → DispatchRequest
      → Option (String × CaseEvent)
      → Service L
      → Result WorkflowError CaseEvent × Service L
  unfolding dispatch_new
  dispatch_keyed faults q (some (digest, event)) s =
      if not (str_eq digest (o.request_digest q.execution))
      then (err (authority idempotency_conflict), s)
      else (ok event, s)
  dispatch_keyed faults q none s =
      dispatch_new faults q (Dict.get q.execution.case_id s.state.cases) s

  -- dispatch_execution
  unfoldable pub dispatch_execution :
      Faults → DispatchRequest → Service L → Result WorkflowError CaseEvent × Service L
  unfolding dispatch_keyed
  dispatch_execution faults q s =
      dispatch_keyed faults q (Dict.get q.idempotency_key s.state.execution_results) s
