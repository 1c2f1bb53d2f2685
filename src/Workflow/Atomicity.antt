-- ===== src/Workflow/Atomicity.antt =====
-- workflow/service.py: what the handoff and the `except` block of an operation leave of the state.
use mathlib.Core.Path.{subst}
use inforsight.Common.{
  String, true, false, ◌≡◌, refl, sym, ap, ◌∙◌, none, some, arith, Bool-cases, inl, inr,
}
use inforsight.Common.Dict
use inforsight.Common.Dict.{Dict, put-put, put-get}
use inforsight.Common.Result.{ok, err}
use inforsight.Workflow.Models.{CaseEvent, WorkflowError}
use inforsight.Workflow.Service.{
  AuditRow, AuditPort, WorkflowContext, State, Service, Faults, Attempt, handoff, settle,
  write_store, append_row, commit_write,
}

-- Of the cases of two states, only `case_id` may differ.
abbrev pub Confined : String → Dict WorkflowContext → Dict WorkflowContext → Type 0
Confined case_id xs ys = (v : WorkflowContext) → Dict.put case_id v ys ≡ Dict.put case_id v xs

-- One more write to the case leaves it confined.
pub Confined-put :
    (case_id : String) (xs ys : Dict WorkflowContext) (ctx : WorkflowContext)
    → Confined case_id xs ys
    → Confined case_id xs (Dict.put case_id ctx ys)
Confined-put case_id xs ys ctx c = λ v. put-put case_id v ctx ys ∙ c v

module _ {L : Type 0} (case_id : String) where
  -- A run of the `except` block brings all but the execution results back.
  pub settle-state :
      (faults : Faults) (s : Service L) (ctx : WorkflowContext) (a : Attempt L) (e : WorkflowError)
      → Dict.get case_id s.state.cases ≡ some ctx
      → Confined case_id s.state.cases a.1.state.cases
      → (settle faults s.state case_id ctx a).0 ≡ err e
      → (settle faults s.state case_id ctx a).1.state
        ≡ record s.state { execution_results = a.1.state.execution_results }
  unfolding settle
  settle-state faults s ctx (ok event, s', b) e g c h = cc
  settle-state faults s ctx (err x, s', true) e g c h =
      ground (arith, c ctx, put-get case_id ctx s.state.cases)
  settle-state faults s ctx (err x, s', false) e g c h =
      ground (arith, c ctx, put-get case_id ctx s.state.cases)

  module _ (port : AuditPort L) (faults : Faults) where
    commit_write-state :
        (event : CaseEvent) (s : Service L) → (commit_write port faults event s).1.state ≡ s.state
    unfolding commit_write
    commit_write-state event s =
        elim (Bool-cases
          (write_store faults.commit_write (record { committed = s.state; pending = none })
            s.store).0) [ inl w ↦ rw w refl | inr w ↦ rw w refl ]

    append_row-state :
        (event : CaseEvent) (row : AuditRow) (s : Service L)
        → (append_row port faults event row s).1.state ≡ s.state
    unfolding append_row
    append_row-state event row s = elim (Bool-cases (port.append row s.ledger).0) [
      | inr a ↦ rw a refl
      | inl a ↦ rw a (commit_write-state event _)
    ]

    -- The handoff writes to the ledger and the store alone.
    pub handoff-state :
        (committed : State) (event : CaseEvent) (row : AuditRow) (s : Service L)
        → (handoff port faults committed event row s).1.state ≡ s.state
    unfolding handoff
    handoff-state committed event row s =
        elim (Bool-cases
          (write_store faults.begin_write
            (record { committed = committed; pending = some (event.case_event_id, s.state) })
            s.store).0) [ inr a ↦ rw a refl | inl a ↦ rw a (append_row-state event row _) ]

-- A handoff keeps what is confined so.
pub handoff-Confined :
    {L : Type 0} (case_id : String) (port : AuditPort L) (faults : Faults)
    → (committed : State) (event : CaseEvent) (row : AuditRow) (xs : Dict WorkflowContext)
    → (u : Service L) → Confined case_id xs u.state.cases
    → Confined case_id xs (handoff port faults committed event row u).1.state.cases
handoff-Confined case_id port faults committed event row xs u c =
    subst (λ st. Confined case_id xs st.cases)
      (sym (handoff-state case_id port faults committed event row u)) c

-- What an attempt that writes to one case leaves of the rest.
pub record IsLocal {L : Type 0} (case_id : String) (s : Service L) (a : Attempt L) : Type 0 where
  pub confined : Confined case_id s.state.cases a.1.state.cases
  pub results : a.1.state.execution_results ≡ s.state.execution_results

-- The end of a local attempt, where it fails: nothing of the state has changed.
pub settle-IsLocal :
    {L : Type 0} (faults : Faults) (case_id : String) (s : Service L) (ctx : WorkflowContext)
    → (a : Attempt L) (e : WorkflowError) → Dict.get case_id s.state.cases ≡ some ctx
    → IsLocal case_id s a
    → (settle faults s.state case_id ctx a).0 ≡ err e
    → (settle faults s.state case_id ctx a).1.state ≡ s.state
settle-IsLocal faults case_id s ctx a e g l h =
    settle-state case_id faults s ctx a e g l.confined h
    ∙ ap (λ r. record s.state { execution_results = r }) l.results
