-- ===== src/Workflow/Delivery.antt =====
-- workflow/service.py: what dispatch_execution leaves where it raises, and what its retry does.
use inforsight.Common.{
  String, ◌≡◌, refl, ap, ◌∙◌, Option, none, some, arith, Bool-cases, eq_iff, inl, inr, ◌⊎◌, str_eq,
}
use inforsight.Common.Dict
use inforsight.Common.Dict.{Dict, put-put, get-put_self}
use inforsight.Common.Result.{Result, ok, err}
use inforsight.Workflow.Models.{CaseEvent, WorkflowError, AuthorityCode, ApprovalBinding}
use inforsight.Workflow.Machine.{Outcome, record_prepared_execution}
use inforsight.Workflow.Capacity.{Capacity}
use inforsight.Workflow.Service.{
  AuditPort, Outside, WorkflowContext, State, Service, Faults, Attempt, settle,
}
use inforsight.Workflow.Dispatch
use inforsight.Workflow.Dispatch.{
  DispatchRequest, dispatch_attempt, dispatch_new, dispatch_keyed, dispatch_execution,
}
use inforsight.Workflow.Atomicity.{
  Confined, Confined-put, settle-state, handoff-Confined, handoff-state,
}

-- The results with the one of a request added, under its key.
abbrev pub remembered :
    Outside → DispatchRequest → CaseEvent → Dict (String × CaseEvent) → Dict (String × CaseEvent)
remembered o q event rs = Dict.put q.idempotency_key (o.request_digest q.execution, event) rs

module _ {L : Type 0} (port : AuditPort L) (o : Outside) where
  -- What a failed attempt leaves of the results.
  record IsKept (q : DispatchRequest) (s : Service L) (a : Attempt L) : Type 0 where
    confined : Confined q.execution.case_id s.state.cases a.1.state.cases
    results :
        (a.1.state.execution_results ≡ s.state.execution_results)
        ⊎ (event : CaseEvent) × (a.1.state.execution_results
            ≡ remembered o q event s.state.execution_results)

  module _ (faults : Faults) where
    after_record-IsKept :
        (q : DispatchRequest) (approval : ApprovalBinding) (committed : State)
        (ctx : WorkflowContext)
        → (s0 s : Service L) (r : Outcome)
        → Confined q.execution.case_id s0.state.cases s.state.cases
        → s.state.execution_results ≡ s0.state.execution_results
        → IsKept q s0 (Dispatch.after_record port o faults q approval committed ctx s r)
    unfolding Dispatch.after_record Dispatch.with_machine
    after_record-IsKept q approval committed ctx s0 s (err e, m) h k = record {
      confined = Confined-put q.execution.case_id s0.state.cases s.state.cases _ h;
      results = inl k;
    }
    after_record-IsKept q approval committed ctx s0 s (ok event, m) h k = record {
      confined =
          handoff-Confined q.execution.case_id port faults _ event _ _ _
            (Confined-put q.execution.case_id s0.state.cases s.state.cases _ h);
      results = inr (
        event,
        ap (λ st. st.execution_results) (handoff-state q.execution.case_id port faults _ event _ _)
            ∙ ap (remembered o q event) k,
      );
    }

    after_reserve-IsKept :
        (q : DispatchRequest) (approval : ApprovalBinding) (committed : State)
        (ctx : WorkflowContext)
        → (event : CaseEvent) (s0 s : Service L) (r : Result AuthorityCode (Unit {0}) × Capacity)
        → Confined q.execution.case_id s0.state.cases s.state.cases
        → s.state.execution_results ≡ s0.state.execution_results
        → IsKept q s0 (Dispatch.after_reserve port o faults q approval committed ctx event s r)
    unfolding Dispatch.after_reserve
    after_reserve-IsKept q approval committed ctx event s0 s (err e, c) h k = record {
      confined = h;
      results = inl k;
    }
    after_reserve-IsKept q approval committed ctx event s0 s (ok _, c) h k =
        after_record-IsKept q approval committed ctx s0
          (record s { state = record s.state { capacity = c } })
          (record_prepared_execution event ctx.state_machine) h k

    after_prepare-IsKept :
        (q : DispatchRequest) (approval : ApprovalBinding) (ctx : WorkflowContext) (s : Service L)
        → (r : Outcome) → IsKept q s (Dispatch.after_prepare port o faults q approval ctx s r)
    unfolding Dispatch.after_prepare Dispatch.with_machine Dispatch.reserve_now
    after_prepare-IsKept q approval ctx s (err e, m) = record {
      confined = Confined-put q.execution.case_id s.state.cases s.state.cases _ (λ v. refl);
      results = inl refl;
    }
    after_prepare-IsKept q approval ctx s (ok event, m) =
        let ctx' = record ctx { state_machine = m } in
        let s' = Dispatch.with_machine port o q ctx m s in
        let requirement =
          Dispatch.or_required (Dict.get approval.action_type ctx.action_resources) in
        after_reserve-IsKept q approval s.state ctx' event s s'
          (Dispatch.reserve_now q approval requirement s'.state.capacity)
          (Confined-put q.execution.case_id s.state.cases s.state.cases ctx' (λ v. refl)) refl

  -- Another call of the request only hands out the event.
  abbrev pub IsReplayed : DispatchRequest → CaseEvent → Service L → Type 0
  IsReplayed q event t = (faults : Faults) → dispatch_execution port o faults q t ≡ (ok event, t)

  -- A remembered result is what a request of that key and content returns.
  pub dispatch_execution-IsReplayed :
      (q : DispatchRequest) (event : CaseEvent) (t : Service L)
      → Dict.get q.idempotency_key t.state.execution_results
        ≡ some (o.request_digest q.execution, event)
      → (faults : Faults) → dispatch_execution port o faults q t ≡ (ok event, t)
  unfolding dispatch_execution dispatch_keyed
  dispatch_execution-IsReplayed q event t h faults =
      rw (h, (eq_iff (o.request_digest q.execution) (o.request_digest q.execution)).1 refl) refl

  -- The state is as it was, or all but the result is, and that result answers every retry.
  abbrev pub Left : DispatchRequest → Service L → Service L → Type 0
  Left q s t =
      (t.state ≡ s.state)
      ⊎ ((event : CaseEvent) × (t.state
            ≡ record s.state { execution_results = remembered o q event s.state.execution_results })
          × IsReplayed q event t)

  settle-Left :
      (faults : Faults) (q : DispatchRequest) (s : Service L) (ctx : WorkflowContext)
      (a : Attempt L)
      → (e : WorkflowError) → Dict.get q.execution.case_id s.state.cases ≡ some ctx
      → IsKept q s a
      → (settle faults s.state q.execution.case_id ctx a).0 ≡ err e
      → Left q s (settle faults s.state q.execution.case_id ctx a).1
  settle-Left faults q s ctx a e g k h =
      let restored = settle-state q.execution.case_id faults s ctx a e g k.confined h in
      elim k.results [
        | inl r ↦ inl (restored ∙ ap (λ rs. record s.state { execution_results = rs }) r)
        | inr (event, r) ↦ inr (
          event,
          restored ∙ ap (λ rs. record s.state { execution_results = rs }) r,
          λ faults'.
              dispatch_execution-IsReplayed q event _
                (ap (λ st. Dict.get q.idempotency_key st.execution_results) restored
                  ∙ ap (Dict.get q.idempotency_key) r
                  ∙ get-put_self q.idempotency_key _ s.state.execution_results)
                faults',
        )
      ]

  module _ (faults : Faults) (q : DispatchRequest) (s : Service L) (e : WorkflowError) where
    after_checks-Left :
        (ctx : WorkflowContext) (r : Result WorkflowError ApprovalBinding)
        → Dict.get q.execution.case_id s.state.cases ≡ some ctx
        → (Dispatch.after_checks port o faults q ctx s r).0 ≡ err e
        → Left q s (Dispatch.after_checks port o faults q ctx s r).1
    unfolding Dispatch.after_checks dispatch_attempt
    after_checks-Left ctx (err x) g h = inl refl
    after_checks-Left ctx (ok approval) g h =
        settle-Left faults q s ctx _ e g (after_prepare-IsKept faults q approval ctx s _) h

    dispatch_new-Left :
        (found : Option WorkflowContext)
        → Dict.get q.execution.case_id s.state.cases ≡ found
        → (dispatch_new port o faults q found s).0 ≡ err e
        → Left q s (dispatch_new port o faults q found s).1
    unfolding dispatch_new
    dispatch_new-Left none g h = inl refl
    dispatch_new-Left (some ctx) g h = after_checks-Left ctx _ g h

    dispatch_keyed-Left :
        (kept : Option (String × CaseEvent))
        → (dispatch_keyed port o faults q kept s).0 ≡ err e
        → Left q s (dispatch_keyed port o faults q kept s).1
    unfolding dispatch_keyed
    dispatch_keyed-Left none h = dispatch_new-Left _ refl h
    dispatch_keyed-Left (some (digest, event)) h =
        elim (Bool-cases (str_eq digest (o.request_digest q.execution))) [
          | inl c ↦ ground (arith, c)
          | inr c ↦ rw c (inl refl)
        ]

    -- A dispatch that raises leaves the state as it was, or (where the event had been recorded
    -- before the handoff failed) all but the remembered result, and then every retry of the request
    -- returns that event as if it had been executed, and changes nothing.
    pub dispatch_execution-Left :
        (dispatch_execution port o faults q s).0 ≡ err e
        → Left q s (dispatch_execution port o faults q s).1
    unfolding dispatch_execution
    dispatch_execution-Left h = dispatch_keyed-Left _ h
