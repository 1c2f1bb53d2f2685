-- ===== src/Workflow/Review.antt =====
-- workflow/service.py: submit_review.
use inforsight.Common.{
  ℕ, ◌+◌, String, Bool, true, false, not, ◌&&◌, ◌||◌, Option, none, some, contains, last?, str_eq,
  is_some, if◌then◌else◌,
}
use inforsight.Common.Dict
use inforsight.Common.Dict.{Dict}
use inforsight.Common.Result.{Result, ok, err, ◌>>=◌, ◌>>◌, refuse_if}
use inforsight.Workflow.Models.{
  SpecialistReviewAction, approve_recommendation, override_action, request_more_info,
  reject_and_close, ReviewDecision, approved, overridden, rejected, TrustedActorContext,
  ApprovalBinding, ActionResourceRequirement, HumanReview, human_review, CaseEvent, WorkflowError,
  AuthorityCode, ineligible_override, case_not_found, no_event_yet, timestamp_malformed, authority,
  evidence_unbound, resource_unbound, channel_unbound,
}
use inforsight.Workflow.Machine.{Outcome, submit_human_review}
use inforsight.Workflow.Capacity.{Capacity, replacement_resources, replace_reservation}
use inforsight.Workflow.Service.{
  AuditRow, AuditPort, ApprovalSeed, Outside, WorkflowContext, State, Service, Faults, Attempt,
  put_case, handoff, settle,
}

-- The keyword arguments, and the event identity that `submit_human_review` draws.
pub record ReviewRequest : Type 0 where
  pub case_id : String
  pub trusted_actor : TrustedActorContext
  pub rationale_code : String
  pub justification : Option String
  pub selected_action : Option String
  pub expected_capacity_version : Option ℕ
  pub occurred_at : String
  pub event_id : String

abbrev is_binding : ReviewDecision → Bool
is_binding approved = true
is_binding overridden = true
is_binding rejected = false

-- not value, for an optional text
abbrev is_blank : Option String → Bool
is_blank none = true
is_blank (some s) = str_eq s ""

unfoldable pub select_action :
    ReviewDecision → WorkflowContext → Option String → Result WorkflowError String
select_action approved ctx selected = ok ctx.recommended_action
select_action overridden ctx none = err ineligible_override
select_action overridden ctx (some selected) =
    if not (contains selected ctx.eligible_actions) then err ineligible_override else ok selected
select_action rejected ctx selected = ok "abstain"

unfoldable pub default_channel : String → String
default_channel action = if str_eq action "abstain" then "none" else "unknown"

-- action_channels.get(chosen_action, default)
abbrev or_text : Option String → String → String
or_text none d = d
or_text (some s) d = s

-- The requirement that an approval reserves; there is one wherever the checks pass.
abbrev requirement_for :
    ReviewDecision → Option ActionResourceRequirement → Option ActionResourceRequirement
requirement_for rejected found = none
requirement_for _ found = found

abbrev preflight :
    Option ℕ
    → String
    → Option ActionResourceRequirement
    → Capacity
    → Result WorkflowError (Unit {0})
preflight none case_id requirement c = ok tt
preflight (some version) case_id requirement c =
    elim (replacement_resources case_id requirement version c) [
      | ok _ ↦ ok tt
      | err e ↦ err (authority e)
    ]

-- What the checks before the `try` block find.
pub record Decided : Type 0 where
  pub chosen : String
  pub channel : String
  pub requirement : Option ActionResourceRequirement
  pub review : HumanReview

-- The checks of `_submit_review_locked` for a decision.
unfoldable pub review_checks :
    ReviewDecision → ReviewRequest → WorkflowContext → Capacity → Result WorkflowError Decided
unfolding select_action default_channel human_review
review_checks decision q ctx capacity = do
  chosen ← select_action decision ctx q.selected_action
  refuse_if
      (is_binding decision
        && (is_blank ctx.snapshot_id
            || is_blank ctx.safety_evidence_id
            || str_eq ctx.requirements_version ""))
      (authority evidence_unbound)
  refuse_if (is_binding decision && not (is_some (Dict.get chosen ctx.action_resources)))
      (authority resource_unbound)
  let channel = or_text (Dict.get chosen ctx.action_channels) (default_channel chosen)
  refuse_if (is_binding decision && str_eq channel "unknown") (authority channel_unbound)
  let requirement = requirement_for decision (Dict.get chosen ctx.action_resources)
  preflight q.expected_capacity_version q.case_id requirement capacity
  review ← human_review (record {
    reviewer_id = q.trusted_actor.actor_id;
    reviewed_at = q.occurred_at;
    decision = decision;
    rationale_code = q.rationale_code;
    justification = q.justification;
  })
  ok (record { chosen = chosen; channel = channel; requirement = requirement; review = review })

abbrev or_unavailable : Option String → String
or_unavailable none = "unavailable"
or_unavailable (some s) = if str_eq s "" then "unavailable" else s

unfoldable pub binding :
    Outside → ReviewRequest → Decided → WorkflowContext → String → ApprovalBinding
binding o q d ctx expires_at =
    let seed : ApprovalSeed = record {
      case_id = q.case_id;
      case_version = ctx.case_version;
      eligibility_digest = ctx.eligibility_digest;
      action_type = d.chosen;
      channel = d.channel;
      actor_id = q.trusted_actor.actor_id;
      reviewed_at = q.occurred_at;
    } in
    record {
      approval_id = o.approval_identity seed;
      case_id = q.case_id;
      case_version = ctx.case_version;
      snapshot_id = or_unavailable ctx.snapshot_id;
      safety_evidence_id = or_unavailable ctx.safety_evidence_id;
      eligibility_digest = ctx.eligibility_digest;
      requirements_version = ctx.requirements_version;
      action_type = d.chosen;
      channel = d.channel;
      recommendation_version = ctx.recommendation_version;
      model_bundle_id = ctx.model_bundle_id;
      actor_id = q.trusted_actor.actor_id;
      reviewed_at = q.occurred_at;
      expires_at = expires_at;
      idempotency_key = o.execution_identity seed;
    }

-- The reservation of the `try` block, only made for an expected version.
unfoldable pub reserve :
    ReviewRequest → Decided → Capacity → Result AuthorityCode (Unit {0}) × Capacity
reserve q d c = elim q.expected_capacity_version [
  | none ↦ (ok tt, c)
  | some version ↦
      replace_reservation q.case_id (if is_some d.requirement then some d.chosen else none)
        d.requirement version c
]

unfoldable pub review_row : ReviewRequest → Decided → WorkflowContext → CaseEvent → AuditRow
review_row q d ctx event = record {
  case_id = q.case_id;
  policy_id = ctx.policy_id;
  case_event_id = event.case_event_id;
  from_state = event.from_state;
  to_state = event.to_state;
  decision_context_digest = ctx.decision_digest;
  human_review = some d.review;
  dispatched_action = none;
  approval_binding = none;
  timestamp = q.occurred_at;
}

module _ {L : Type 0} (port : AuditPort L) (o : Outside) where
  unfoldable pub after_reserve :
      Faults
      → ReviewRequest
      → Decided
      → State
      → WorkflowContext
      → CaseEvent
      → Service L
      → Result AuthorityCode (Unit {0}) × Capacity
      → Attempt L
  unfolding review_row
  after_reserve faults q d committed ctx event s (err e, capacity) =
      (err (authority e), record s { state = record s.state { capacity = capacity } }, false)
  after_reserve faults q d committed ctx event s (ok _, capacity) =
      handoff port faults committed event (review_row q d ctx event)
        (record s { state = record s.state { capacity = capacity } })

  unfoldable pub after_expiry :
      Faults
      → ReviewRequest
      → Decided
      → State
      → WorkflowContext
      → CaseEvent
      → Service L
      → Option String
      → Attempt L
  unfolding after_reserve reserve binding
  after_expiry faults q d committed ctx event s none = (err timestamp_malformed, s, false)
  after_expiry faults q d committed ctx event s (some expires_at) =
      let ctx' = record ctx { approval = some (binding o q d ctx expires_at) } in
      let s' = record s { state = put_case q.case_id ctx' s.state } in
      after_reserve faults q d committed ctx' event s' (reserve q d s'.state.capacity)

  unfoldable pub after_machine :
      Faults → ReviewRequest → Decided → State → WorkflowContext → Service L → Outcome → Attempt L
  unfolding after_expiry
  after_machine faults q d committed ctx s (err e, m) = (
    err e,
    record s { state = put_case q.case_id (record ctx { state_machine = m }) s.state },
    false,
  )
  after_machine faults q d committed ctx s (ok event, m) =
      let ctx' = record ctx { state_machine = m; case_version = ctx.case_version + 1 } in
      let s' = record s { state = put_case q.case_id ctx' s.state } in
      after_expiry faults q d committed ctx' event s' (o.expiry_after q.occurred_at s.approval_ttl)

  -- The `try` block.
  unfoldable pub review_attempt :
      Faults → ReviewRequest → Decided → WorkflowContext → Service L → Attempt L
  unfolding after_machine submit_human_review
  review_attempt faults q d ctx s = after_machine faults q d s.state ctx s (
      submit_human_review d.review q.occurred_at ctx.recommended_action ctx.eligible_actions
        q.selected_action q.event_id ctx.state_machine)

  unfoldable pub decide :
      Faults
      → ReviewRequest
      → WorkflowContext
      → Service L
      → Result WorkflowError Decided
      → Result WorkflowError CaseEvent × Service L
  unfolding review_attempt settle
  decide faults q ctx s (err e) = (err e, s)
  decide faults q ctx s (ok d) =
      settle faults s.state q.case_id ctx (review_attempt faults q d ctx s)

  -- REQUEST_MORE_INFO: notes in the metadata, and the last event is returned
  unfoldable pub more_info :
      ReviewRequest → WorkflowContext → Service L → Result WorkflowError CaseEvent × Service L
  more_info q ctx s =
      let noted = Dict.put "more_info_justification" q.justification (
        Dict.put "last_reviewer_id" (some q.trusted_actor.actor_id)
          (Dict.put "review_status" (some "MORE_INFO_REQUESTED") ctx.metadata)) in
      let s' = record s { state = put_case q.case_id (record ctx { metadata = noted }) s.state } in
      elim (last? ctx.state_machine.events) [
        | none ↦ (err no_event_yet, s')
        | some event ↦ (ok event, s')
      ]

  unfoldable pub review_action :
      SpecialistReviewAction
      → Faults
      → ReviewRequest
      → WorkflowContext
      → Service L
      → Result WorkflowError CaseEvent × Service L
  unfolding decide more_info review_checks
  review_action approve_recommendation faults q ctx s =
      if not (contains ctx.recommended_action ctx.eligible_actions)
      then (err ineligible_override, s)
      else decide faults q ctx s (review_checks approved q ctx s.state.capacity)
  review_action override_action faults q ctx s =
      decide faults q ctx s (review_checks overridden q ctx s.state.capacity)
  review_action reject_and_close faults q ctx s =
      decide faults q ctx s (review_checks rejected q ctx s.state.capacity)
  review_action request_more_info faults q ctx s = more_info q ctx s

  unfoldable pub review_found :
      SpecialistReviewAction
      → Faults
      → ReviewRequest
      → Option WorkflowContext
      → Service L
      → Result WorkflowError CaseEvent × Service L
  unfolding review_action
  review_found action faults q none s = (err case_not_found, s)
  review_found action faults q (some ctx) s = review_action action faults q ctx s

  -- submit_review
  unfoldable pub submit_review :
      SpecialistReviewAction
      → Faults
      → ReviewRequest
      → Service L
      → Result WorkflowError CaseEvent × Service L
  unfolding review_found
  submit_review action faults q s =
      review_found action faults q (Dict.get q.case_id s.state.cases) s
