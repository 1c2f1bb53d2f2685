-- ===== src/Workflow/Execution.antt =====
-- workflow/service.py: an execution that dispatch_execution returns was permitted, and is on record.
use inforsight.Common.{
  String, true, false, ◌≡◌, ◌≢◌, refl, sym, ap, ◌∙◌, Option, none, some, [], ◌∷◌, ◌++◌,
}
use inforsight.Common.Dict
use inforsight.Common.Dict.{Dict, get-put_self}
use inforsight.Common.Result.{Result, ok, err}
use inforsight.Workflow.Models.{
  executed, rejected, CaseEvent, WorkflowError, AuthorityCode, HumanReview, ApprovalBinding,
}
use inforsight.Workflow.Machine.{Outcome, record_prepared_execution}
use inforsight.Workflow.Capacity.{Capacity}
use inforsight.Workflow.Service.{
  AuditRow, AuditPort, Outside, WorkflowContext, State, Stored, Service, Faults, Attempt, put_case,
  settle,
}
use inforsight.Workflow.Dispatch
use inforsight.Workflow.Dispatch.{
  DispatchRequest, approval_checks, dispatch_checks, dispatch_attempt, dispatch_new, dispatch_keyed,
  dispatch_execution,
}
use inforsight.Workflow.Handoff.{
  handoff-IsOnRecord, IsApproved, prepare_execution-IsApproved, record_prepared-executed,
}
use inforsight.Workflow.Permission.{IsPermitted, dispatch_checks-ok}

module _ {L : Type 0} (port : AuditPort L) (o : Outside) (q : DispatchRequest) (e : CaseEvent) where
  -- The event executes, its row ends the ledger with the approval and with a review that did not
  -- reject, its result is kept under its key, and a store has committed the state.
  pub record IsExecution (approval : ApprovalBinding) (s t : Service L) : Type 0 where
    pub executes : e.to_state ≡ executed
    pub row : AuditRow
    pub audited : port.rows t.ledger ≡ port.rows s.ledger ++ row ∷ []
    pub row_event : row.case_event_id ≡ e.case_event_id
    pub row_approval : row.approval_binding ≡ some approval
    pub reviewed : (r : HumanReview) × (row.human_review ≡ some r) × (r.decision ≢ rejected)
    pub kept :
        Dict.get q.idempotency_key t.state.execution_results
        ≡ some (o.request_digest q.execution, e)
    pub stored :
        (old : Stored)
        → s.store ≡ some old
        → t.store ≡ some (record { committed = t.state; pending = none })

  -- What a dispatch that returned a new event has checked and done.
  pub record IsDelivered (s t : Service L) : Type 0 where
    pub ctx : WorkflowContext
    pub approval : ApprovalBinding
    pub found : Dict.get q.execution.case_id s.state.cases ≡ some ctx
    pub bound : ctx.approval ≡ some approval
    pub permitted : IsPermitted o q ctx approval
    pub execution : IsExecution approval s t

  module _ (faults : Faults) (approval : ApprovalBinding) (committed : State)
      (ctx : WorkflowContext) where
    after_record-IsExecution :
        (s : Service L) (r : Outcome)
        → ((event : CaseEvent) → r.0 ≡ ok event → (event.to_state ≡ executed) × IsApproved r.1)
        → (Dispatch.after_record port o faults q approval committed ctx s r).0 ≡ ok e
        → IsExecution approval s
            (Dispatch.after_record port o faults q approval committed ctx s r).1
    unfolding Dispatch.after_record Dispatch.execution_row
    after_record-IsExecution s (err x, m) p h = cc
    after_record-IsExecution s (ok event, m) p h =
        let (same, r) = handoff-IsOnRecord port faults event e _ committed _ h in
        let (executes, reviewed) = p event refl in
        record {
          executes = ap (λ x. x.to_state) same ∙ executes;
          row = _;
          audited = r.audited;
          row_event = ap (λ x. x.case_event_id) (sym same);
          row_approval = refl;
          reviewed = reviewed;
          kept =
              ap (λ st. Dict.get q.idempotency_key st.execution_results) r.state
              ∙ get-put_self q.idempotency_key _ s.state.execution_results
              ∙ ap (λ x. some (o.request_digest q.execution, x)) (sym same);
          stored = λ old k.
              r.stored old k
              ∙ ap (λ st. some (record { committed = st; pending = none })) (sym r.state);
        }

  -- The state at the start is not what it depends on.
  of_state :
      {t : Service L} (approval : ApprovalBinding) (s : Service L) (st : State)
      → IsExecution approval (record s { state = st }) t
      → IsExecution approval s t
  of_state approval s st x = record {
    executes = x.executes;
    row = x.row;
    audited = x.audited;
    row_event = x.row_event;
    row_approval = x.row_approval;
    reviewed = x.reviewed;
    kept = x.kept;
    stored = x.stored;
  }

  module _ (faults : Faults) (approval : ApprovalBinding) (ctx : WorkflowContext) where
    after_reserve-IsExecution :
        (committed : State) (event : CaseEvent) (s : Service L)
        → (r : Result AuthorityCode (Unit {0}) × Capacity) → IsApproved ctx.state_machine
        → (Dispatch.after_reserve port o faults q approval committed ctx event s r).0 ≡ ok e
        → IsExecution approval s
            (Dispatch.after_reserve port o faults q approval committed ctx event s r).1
    unfolding Dispatch.after_reserve
    after_reserve-IsExecution committed event s (err x, c) a h = cc
    after_reserve-IsExecution committed event s (ok _, c) a h =
        let m = ctx.state_machine in
        of_state approval s (record s.state { capacity = c })
          (after_record-IsExecution faults approval committed ctx
            (record s { state = record s.state { capacity = c } })
            (record_prepared_execution event m)
            (λ event' k.
              let (same, executes, kept) = record_prepared-executed event event' m k in
              let (r, held, n) = a in (ap (λ v. v.to_state) same ∙ executes, (r, kept ∙ held, n)))
            h)

  module _ (faults : Faults) (approval : ApprovalBinding) (ctx : WorkflowContext) where
    after_prepare-IsExecution :
        (s : Service L) (r : Outcome)
        → ((event : CaseEvent) → r.0 ≡ ok event → IsApproved r.1)
        → (Dispatch.after_prepare port o faults q approval ctx s r).0 ≡ ok e
        → IsExecution approval s (Dispatch.after_prepare port o faults q approval ctx s r).1
    unfolding Dispatch.after_prepare
    after_prepare-IsExecution s (err x, m) p h = cc
    after_prepare-IsExecution s (ok event, m) p h =
        let ctx' = record ctx { state_machine = m } in
        let s' = Dispatch.with_machine port o q ctx m s in
        let requirement =
          Dispatch.or_required (Dict.get approval.action_type ctx.action_resources) in
        of_state approval s (put_case q.execution.case_id ctx' s.state) (
          after_reserve-IsExecution faults approval ctx' s.state event s'
            (Dispatch.reserve_now q approval requirement s'.state.capacity) (p event refl) h)

settled :
    {L : Type 0} (faults : Faults) (committed : State) (case_id : String) (ctx : WorkflowContext)
    → (a : Attempt L) (e : CaseEvent) → (settle faults committed case_id ctx a).0 ≡ ok e
    → (a.0 ≡ ok e) × ((settle faults committed case_id ctx a).1 ≡ a.1)
unfolding settle
settled faults committed case_id ctx (ok event, s, _) e h = (h, refl)
settled faults committed case_id ctx (err x, s, true) e h = cc
settled faults committed case_id ctx (err x, s, false) e h = cc

module _ {L : Type 0} (port : AuditPort L) (o : Outside) (faults : Faults)
    (q : DispatchRequest) where
  module _ (e : CaseEvent) (s : Service L) where
    attempt-IsExecution :
        (approval : ApprovalBinding) (ctx : WorkflowContext)
        → (dispatch_attempt port o faults q approval ctx s).0 ≡ ok e
        → IsExecution port o q e approval s (dispatch_attempt port o faults q approval ctx s).1
    unfolding dispatch_attempt
    attempt-IsExecution approval ctx h =
        after_prepare-IsExecution port o q e faults approval ctx s _
          (λ event.
            prepare_execution-IsApproved approval.channel q.execution.outreach_reference
              q.execution.metadata q.occurred_at q.event_id ctx.state_machine event)
          h

    checked-IsDelivered :
        (ctx : WorkflowContext) (r : Result WorkflowError ApprovalBinding)
        → Dict.get q.execution.case_id s.state.cases ≡ some ctx
        → r ≡ dispatch_checks o q ctx s.state.capacity
        → (Dispatch.after_checks port o faults q ctx s r).0 ≡ ok e
        → IsDelivered port o q e s (Dispatch.after_checks port o faults q ctx s r).1
    unfolding Dispatch.after_checks
    checked-IsDelivered ctx (err x) g k h = cc
    checked-IsDelivered ctx (ok approval) g k h =
        let (ran, same) = settled faults s.state q.execution.case_id ctx _ e h in
        let (bound, permitted) = dispatch_checks-ok o q ctx s.state.capacity approval (sym k) in
        record {
          ctx = ctx;
          approval = approval;
          found = g;
          bound = bound;
          permitted = permitted;
          execution = rw same (attempt-IsExecution approval ctx ran);
        }

    new-IsDelivered :
        (found : Option WorkflowContext)
        → Dict.get q.execution.case_id s.state.cases ≡ found
        → (dispatch_new port o faults q found s).0 ≡ ok e
        → IsDelivered port o q e s (dispatch_new port o faults q found s).1
    unfolding dispatch_new
    new-IsDelivered none g h = cc
    new-IsDelivered (some ctx) g h = checked-IsDelivered ctx _ g refl h

    keyed-IsDelivered :
        (kept : Option (String × CaseEvent))
        → kept ≡ none
        → (dispatch_keyed port o faults q kept s).0 ≡ ok e
        → IsDelivered port o q e s (dispatch_keyed port o faults q kept s).1
    unfolding dispatch_keyed
    keyed-IsDelivered none n h = new-IsDelivered _ refl h
    keyed-IsDelivered (some r) n h = cc

    -- Where dispatch_execution returns for a key with no result, the case holds an approval that
    -- permits the request; the event executes; its one new ledger row carries that approval and a
    -- human review that did not reject; the result is kept under the key; and a store has committed
    -- the state.
    pub dispatch_execution-IsDelivered :
        Dict.get q.idempotency_key s.state.execution_results ≡ none
        → (dispatch_execution port o faults q s).0 ≡ ok e
        → IsDelivered port o q e s (dispatch_execution port o faults q s).1
    unfolding dispatch_execution
    dispatch_execution-IsDelivered n h = keyed-IsDelivered _ n h
