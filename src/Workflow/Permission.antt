-- ===== src/Workflow/Permission.antt =====
-- workflow/service.py: what the checks of dispatch_execution ensure where they pass.
use inforsight.Common.{
  ℕ, ◌≤◌, Bool, true, false, not, ◌&&◌, ◌≡◌, sym, ap, ◌∙◌, Option, none, some, contains, ltb, ◌==◌,
  arith, eq_iff,
}
use inforsight.Common.Result.{ok, chained, passed}
use inforsight.Workflow.Models.{ApprovalBinding}
use inforsight.Workflow.Capacity.{Capacity}
use inforsight.Workflow.Service.{ParsedTime, at, Outside, WorkflowContext, instant_of}
use inforsight.Workflow.Dispatch.{DispatchRequest, approval_checks, bound_checks, dispatch_checks}

-- The approval is the request's own, by its actor, unexpired, for the current version of the case
-- and the current evidence, and its action is still eligible.
pub record IsPermitted (o : Outside) (q : DispatchRequest) (ctx : WorkflowContext)
    (a : ApprovalBinding) : Type 0 where
  pub id : a.approval_id ≡ q.execution.approval_id
  pub key : a.idempotency_key ≡ q.idempotency_key
  pub actor : a.actor_id ≡ q.trusted_actor.actor_id
  pub now : ℕ
  pub end : ℕ
  pub occurs : o.parse_time q.occurred_at ≡ at now
  pub expires : o.parse_time a.expires_at ≡ at end
  pub unexpired : now ≤ end
  pub reviewed_version : a.case_version ≡ q.execution.expected_case_version
  pub current_version : ctx.case_version ≡ q.execution.expected_case_version
  pub evidence : o.set_digest q.execution.current_eligible_action_set ≡ a.eligibility_digest
  pub eligible :
      contains a.action_type q.execution.current_eligible_action_set.eligible_actions ≡ true

instant_of-at : (t : ParsedTime) (n : ℕ) → instant_of t ≡ ok n → t ≡ at n
instant_of-at t n h = ground arith

opposite : (a : Bool) → not a ≡ false → a ≡ true
opposite a h = ground arith

not_before : (j k : ℕ) → ltb j k ≡ false → k ≤ j
not_before j k h = ground arith

==-eq : (j k : ℕ) → (j == k) ≡ true → j ≡ k
==-eq j k h = ground arith

split_and : (a b : Bool) → not (a && b) ≡ false → (a ≡ true) × (b ≡ true)
split_and a b h = ground arith

pub approval_checks-IsPermitted :
    (o : Outside) (q : DispatchRequest) (ctx : WorkflowContext) (a : ApprovalBinding) (c : Capacity)
    → approval_checks o q ctx a c ≡ ok tt
    → IsPermitted o q ctx a
unfolding approval_checks
approval_checks-IsPermitted o q ctx a c h =
    let (b1, h1) = passed _ _ _ h in
    let (b2, h2) = passed _ _ _ h1 in
    let (now, t1, h3) = chained _ _ h2 in
    let (end, t2, h4) = chained _ _ h3 in
    let (b3, h5) = passed _ _ _ h4 in
    let (b4, h6) = passed _ _ _ h5 in
    let (b5, h7) = passed _ _ _ h6 in
    let (b6, h8) = passed _ _ _ h7 in
    record {
      id = (eq_iff _ _).0 (split_and _ _ b1).0;
      key = (eq_iff _ _).0 (split_and _ _ b1).1;
      actor = (eq_iff _ _).0 (opposite _ b2);
      now = now;
      end = end;
      occurs = instant_of-at _ now t1;
      expires = instant_of-at _ end t2;
      unexpired = not_before end now b3;
      current_version = ==-eq _ _ (split_and _ _ b4).0;
      reviewed_version = ==-eq _ _ (split_and _ _ b4).1;
      evidence = (eq_iff _ _).0 (split_and _ _ b6).0;
      eligible = (split_and _ _ b6).1;
    }

bound_checks-ok :
    (o : Outside) (q : DispatchRequest) (ctx : WorkflowContext) (c : Capacity) (a : ApprovalBinding)
    → (found : Option ApprovalBinding) → bound_checks o q ctx c found ≡ ok a
    → (found ≡ some a) × (approval_checks o q ctx a c ≡ ok tt)
unfolding bound_checks
bound_checks-ok o q ctx c a none h = cc
bound_checks-ok o q ctx c a (some b) h =
    let (_, passes, same) = chained (approval_checks o q ctx b c) _ h in
    let e : b ≡ a = cc same in (ap some e, ap (λ x. approval_checks o q ctx x c) (sym e) ∙ passes)

-- The approval that passes is the one bound to the case.
pub dispatch_checks-ok :
    (o : Outside) (q : DispatchRequest) (ctx : WorkflowContext) (c : Capacity) (a : ApprovalBinding)
    → dispatch_checks o q ctx c ≡ ok a
    → (ctx.approval ≡ some a) × IsPermitted o q ctx a
unfolding dispatch_checks
dispatch_checks-ok o q ctx c a h =
    let (bound, checks) = bound_checks-ok o q ctx c a ctx.approval h in
    (bound, approval_checks-IsPermitted o q ctx a c checks)
