-- ===== src/Workflow/Closing.antt =====
-- workflow/service.py: dismiss_case and resolve_case. They take no lock, so what other threads do to
-- the service while one runs is an argument: before the machine's method, and before the `except`
-- block. Other threads are taken to change a present case in place, as all operations but create_case
-- with an id in use do; what they do between the steps of the `try` block is left out.
use inforsight.Common.{String, Option, none, some, false}
use inforsight.Common.Dict
use inforsight.Common.Result.{Result, ok, err}
use inforsight.Workflow.Models.{CaseEvent, WorkflowError, case_not_found}
use inforsight.Workflow.Machine.{CaseStateMachine, Outcome, dismiss, resolve}
use inforsight.Workflow.Service.{
  AuditRow, AuditPort, WorkflowContext, Service, Faults, Attempt, put_case, handoff, settle,
}

-- The keyword arguments, and the event identity that the machine draws; the text is the reason or
-- the notes.
pub record ClosingRequest : Type 0 where
  pub case_id : String
  pub text : String
  pub occurred_at : String
  pub event_id : String

closing_row : ClosingRequest → WorkflowContext → CaseStateMachine → CaseEvent → AuditRow
closing_row q ctx m event = record {
  case_id = q.case_id;
  policy_id = ctx.policy_id;
  case_event_id = event.case_event_id;
  from_state = event.from_state;
  to_state = event.to_state;
  decision_context_digest = ctx.decision_digest;
  human_review = m.human_review;
  dispatched_action = none;
  approval_binding = none;
  timestamp = q.occurred_at;
}

-- What other threads do to the service after the snapshot and the committed state are taken and
-- before the method of the machine, and after the `try` block.
pub record Others (L : Type 0) : Type 0 where
  pub before : Service L → Service L
  pub after : Service L → Service L

abbrev pub current : WorkflowContext → Option WorkflowContext → WorkflowContext
current ctx none = ctx
current ctx (some now) = now

module _ {L : Type 0} (port : AuditPort L) where
  -- The `try` block, after the machine's method.
  unfoldable pub closing_attempt :
      Faults → ClosingRequest → WorkflowContext → Service L → Outcome → Attempt L
  unfolding closing_row
  closing_attempt faults q ctx s (err e, m) = (
    err e,
    record s { state = put_case q.case_id (record ctx { state_machine = m }) s.state },
    false,
  )
  closing_attempt faults q ctx s (ok event, m) =
      handoff port faults s.state event (closing_row q ctx m event)
        (record s { state = put_case q.case_id (record ctx { state_machine = m }) s.state })

  -- The context that the method works on is the object that was looked up, as other threads left it.
  unfoldable pub close_case :
      (ClosingRequest → CaseStateMachine → Outcome)
      → Faults
      → Others L
      → ClosingRequest
      → Option WorkflowContext
      → Service L
      → Result WorkflowError CaseEvent × Service L
  unfolding closing_attempt settle
  close_case method faults others q none s = (err case_not_found, s)
  close_case method faults others q (some ctx) s =
      let t = others.before s in
      let now = current ctx (Dict.get q.case_id t.state.cases) in
      let (r, u, committed) = closing_attempt faults q now t (method q now.state_machine) in
      settle faults s.state q.case_id ctx (r, others.after u, committed)

  unfoldable pub dismiss_case :
      Faults → Others L → ClosingRequest → Service L → Result WorkflowError CaseEvent × Service L
  unfolding close_case
  dismiss_case faults others q s =
      close_case (λ q m. dismiss q.text q.occurred_at q.event_id m) faults others q
        (Dict.get q.case_id s.state.cases) s

  unfoldable pub resolve_case :
      Faults → Others L → ClosingRequest → Service L → Result WorkflowError CaseEvent × Service L
  unfolding close_case
  resolve_case faults others q s =
      close_case (λ q m. resolve q.text q.occurred_at q.event_id m) faults others q
        (Dict.get q.case_id s.state.cases) s
