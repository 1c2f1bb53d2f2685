-- ===== src/Workflow/Restored.antt =====
-- workflow/service.py: what a failed review and a failed dispatch leave of the state.
use inforsight.Common.{
  ◌+◌, String, ◌≡◌, ◌≢◌, refl, ap, ◌∙◌, Option, none, some, contains, arith, Bool-cases, inl, inr,
}
use inforsight.Common.Dict
use inforsight.Common.Dict.{Dict, put-put, get-put}
use inforsight.Common.Result.{Result, ok, err}
use inforsight.Workflow.Models.{
  CaseEvent, WorkflowError, AuthorityCode, SpecialistReviewAction, approve_recommendation,
  override_action, reject_and_close, request_more_info, approved,
}
use inforsight.Workflow.Machine.{Outcome}
use inforsight.Workflow.Capacity.{Capacity}
use inforsight.Workflow.Service.{
  AuditPort, Outside, WorkflowContext, State, Service, Faults, put_case,
}
use inforsight.Workflow.Review
use inforsight.Workflow.Review.{
  ReviewRequest, Decided, review_attempt, decide, review_action, review_found, submit_review,
}
use inforsight.Workflow.Atomicity.{
  Confined, Confined-put, IsLocal, settle-IsLocal, handoff-Confined, handoff-state,
}

module _ {L : Type 0} (port : AuditPort L) (o : Outside) (faults : Faults) where
  -- After writes to the case alone, a reservation and the handoff.
  after_reserve-IsLocal :
      (q : ReviewRequest) (d : Decided) (committed : State) (ctx : WorkflowContext)
      → (event : CaseEvent) (s0 s : Service L) → (r : Result AuthorityCode (Unit {0}) × Capacity)
      → Confined q.case_id s0.state.cases s.state.cases
      → s.state.execution_results ≡ s0.state.execution_results
      → IsLocal q.case_id s0 (Review.after_reserve port o faults q d committed ctx event s r)
  unfolding Review.after_reserve
  after_reserve-IsLocal q d committed ctx event s0 s (err e, c) h k = record {
    confined = h;
    results = k;
  }
  after_reserve-IsLocal q d committed ctx event s0 s (ok _, c) h k = record {
    confined = handoff-Confined q.case_id port faults _ event _ _ _ h;
    results = ap (λ st. st.execution_results) (handoff-state q.case_id port faults _ event _ _) ∙ k;
  }

  after_expiry-IsLocal :
      (q : ReviewRequest) (d : Decided) (committed : State) (ctx : WorkflowContext)
      → (event : CaseEvent) (s0 s : Service L) (expires_at : Option String)
      → Confined q.case_id s0.state.cases s.state.cases
      → s.state.execution_results ≡ s0.state.execution_results
      → IsLocal q.case_id s0
          (Review.after_expiry port o faults q d committed ctx event s expires_at)
  unfolding Review.after_expiry
  after_expiry-IsLocal q d committed ctx event s0 s none h k = record { confined = h; results = k }
  after_expiry-IsLocal q d committed ctx event s0 s (some expires_at) h k =
      let ctx' = record ctx { approval = some (Review.binding o q d ctx expires_at) } in
      let s' = record s { state = put_case q.case_id ctx' s.state } in
      after_reserve-IsLocal q d committed ctx' event s0 s' (Review.reserve q d s'.state.capacity)
        (Confined-put q.case_id s0.state.cases s.state.cases ctx' h) k

  after_machine-IsLocal :
      (q : ReviewRequest) (d : Decided) (ctx : WorkflowContext) (s : Service L) (r : Outcome)
      → IsLocal q.case_id s (Review.after_machine port o faults q d s.state ctx s r)
  unfolding Review.after_machine
  after_machine-IsLocal q d ctx s (err e, m) = record {
    confined = Confined-put q.case_id s.state.cases s.state.cases _ (λ v. refl);
    results = refl;
  }
  after_machine-IsLocal q d ctx s (ok event, m) =
      let ctx' = record ctx { state_machine = m; case_version = ctx.case_version + 1 } in
      let s' = record s { state = put_case q.case_id ctx' s.state } in
      after_expiry-IsLocal q d s.state ctx' event s s' (o.expiry_after q.occurred_at s.approval_ttl)
        (Confined-put q.case_id s.state.cases s.state.cases _ (λ v. refl)) refl

  decide-unchanged :
      (q : ReviewRequest) (ctx : WorkflowContext) (s : Service L) (r : Result WorkflowError Decided)
      → (e : WorkflowError) → Dict.get q.case_id s.state.cases ≡ some ctx
      → (decide port o faults q ctx s r).0 ≡ err e
      → (decide port o faults q ctx s r).1.state ≡ s.state
  unfolding decide review_attempt
  decide-unchanged q ctx s (err x) e g h = refl
  decide-unchanged q ctx s (ok d) e g h =
      settle-IsLocal faults q.case_id s ctx _ e g (after_machine-IsLocal q d ctx s _) h

  review_action-unchanged :
      (action : SpecialistReviewAction) (q : ReviewRequest) (ctx : WorkflowContext) (s : Service L)
      → (e : WorkflowError) → action ≢ request_more_info
      → Dict.get q.case_id s.state.cases ≡ some ctx
      → (review_action port o action faults q ctx s).0 ≡ err e
      → (review_action port o action faults q ctx s).1.state ≡ s.state
  unfolding review_action
  review_action-unchanged approve_recommendation q ctx s e n g h =
      elim (Bool-cases (contains ctx.recommended_action ctx.eligible_actions)) [
        | inl c ↦ ground (
          arith,
          c,
          h,
          decide-unchanged q ctx s (Review.review_checks approved q ctx s.state.capacity) e g,
        )
        | inr c ↦ ground (arith, c)
      ]
  review_action-unchanged override_action q ctx s e n g h = decide-unchanged q ctx s _ e g h
  review_action-unchanged reject_and_close q ctx s e n g h = decide-unchanged q ctx s _ e g h
  review_action-unchanged request_more_info q ctx s e n g h = elim (n refl) [ ]

  found-unchanged :
      (action : SpecialistReviewAction) (q : ReviewRequest) (s : Service L) (e : WorkflowError)
      → action ≢ request_more_info
      → (found : Option WorkflowContext) → Dict.get q.case_id s.state.cases ≡ found
      → (review_found port o action faults q found s).0 ≡ err e
      → (review_found port o action faults q found s).1.state ≡ s.state
  unfolding review_found
  found-unchanged action q s e n none g h = refl
  found-unchanged action q s e n (some ctx) g h = review_action-unchanged action q ctx s e n g h

  -- A review that raises, whatever refused it or failed, leaves the cases, the capacity and the
  -- remembered results as they were. (REQUEST_MORE_INFO notes itself before it can raise.)
  pub submit_review-unchanged :
      (action : SpecialistReviewAction) (q : ReviewRequest) (s : Service L) (e : WorkflowError)
      → action ≢ request_more_info
      → (submit_review port o action faults q s).0 ≡ err e
      → (submit_review port o action faults q s).1.state ≡ s.state
  unfolding submit_review
  submit_review-unchanged action q s e n h = found-unchanged action q s e n _ refl h
