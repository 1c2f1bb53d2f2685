-- ===== src/Workflow/Lifecycle.antt =====
-- The life of one case: what each method of workflow/state_machine.py does to the machine, and
-- what therefore holds after any sequence of calls, refused ones included.
use inforsight.Common.{
  String, true, false, ◌≡◌, ◌≢◌, refl, ap, Option, none, some, List, [], ◌∷◌, str_eq, arith,
  Bool-cases, inl, inr,
}
use inforsight.Common.Dict.{Dict}
use inforsight.Common.Result.{Result, ok, err}
use inforsight.Workflow.Models.{
  CaseState, recommended, human_reviewed, executed, dismissed, resolved, ReviewDecision, approved,
  overridden, rejected, dismissal_payload, resolution_payload, abstain_payload, HumanReview,
  Payload, CaseEvent, review_payload, execution_payload, WorkflowError,
}
use inforsight.Workflow.Machine.{
  CaseStateMachine, Outcome, valid_transition, transition, submit_human_review, accept_review,
  commit_execution, prepare_decided, prepare_on, prepare_reviewed, record_if_ok, execution_details,
  action_or_abstain, dismiss, resolve, record_event, event_of, is_executed, is_recommended,
  is_human_reviewed, is_closed,
}

-- The methods that a caller of the machine has.
pub data Call : Type 0 where
  call_transition : CaseState → Payload → String → String → Call
  call_review : HumanReview → String → String → List String → Option String → String → Call
  call_execution : String → String → Dict String → String → String → Call
  call_dismiss call_resolve : String → String → String → Call

unfoldable pub perform : Call → CaseStateMachine → Outcome
perform (call_transition to payload at id) m = transition to payload at id m
perform (call_review review at recommendation eligible selected id) m =
    submit_human_review review at recommendation eligible selected id m
perform (call_execution channel reference metadata at id) m =
    commit_execution channel reference metadata at id m
perform (call_dismiss reason at id) m = dismiss reason at id m
perform (call_resolve notes at id) m = resolve notes at id m

-- The calls in turn; a caller goes on after an exception.
unfoldable pub perform_all : List Call → CaseStateMachine → CaseStateMachine
perform_all [] m = m
perform_all (c ∷ cs) m = perform_all cs (perform c m).1

-- What a call leaves behind.
pub data Effect (m m' : CaseStateMachine) : Type 0 where
  still : m' ≡ m → Effect m m'
  moved :
      (e : CaseEvent)
      → m' ≡ record_event e m
      → e.from_state ≡ m.current_state
      → valid_transition e.from_state e.to_state ≡ true
      → is_executed e.to_state ≡ false
      → Effect m m'
  reviewed :
      (r : HumanReview) (action : String) (e : CaseEvent)
      → m' ≡ record_event e (record m { human_review = some r; approved_action_type = some action })
      → e.from_state ≡ m.current_state
      → e.from_state ≡ recommended
      → e.to_state ≡ human_reviewed
      → e.payload ≡ review_payload r
      → Effect m m'
  authorized :
      (r : HumanReview) (details : Dict String) (e : CaseEvent)
      → m' ≡ record_event e m
      → m.human_review ≡ some r
      → r.decision ≢ rejected
      → e.from_state ≡ m.current_state
      → e.from_state ≡ human_reviewed
      → e.to_state ≡ executed
      → e.payload ≡ execution_payload r details
      → Effect m m'

is_recommended-eq : (s : CaseState) → is_recommended s ≡ true → s ≡ recommended
is_recommended-eq s h = ground arith

is_human_reviewed-eq : (s : CaseState) → is_human_reviewed s ≡ true → s ≡ human_reviewed
is_human_reviewed-eq s h = ground arith

module _ (m : CaseStateMachine) where
  transition-Effect :
      (to : CaseState) (p : Payload) (at id : String) → Effect m (transition to p at id m).1
  unfolding transition
  transition-Effect to p at id = elim (Bool-cases (is_executed to)) [
    | inl e ↦ still (rw e)
    | inr e ↦ elim (Bool-cases (valid_transition m.current_state to)) [
      | inl v ↦ moved (event_of m to p at id) (rw (e, v)) refl v e
      | inr v ↦ still (rw (e, v))
    ]
  ]

  accept_review-Effect :
      (r : HumanReview) (at id : String) (chosen : Result WorkflowError String)
      → m.current_state ≡ recommended
      → Effect m (accept_review r at id chosen m).1
  unfolding accept_review
  accept_review-Effect r at id (err e) h = still refl
  accept_review-Effect r at id (ok action) h =
      reviewed r action (event_of m human_reviewed (review_payload r) at id) (rw h refl) refl h refl
        refl

  submit-Effect :
      (r : HumanReview) (at recommendation : String) (eligible : List String)
      → (selected : Option String) (id : String)
      → Effect m (submit_human_review r at recommendation eligible selected id m).1
  unfolding submit_human_review
  submit-Effect r at recommendation eligible selected id =
      elim (Bool-cases (is_recommended m.current_state)) [
        | inl h ↦ rw h (accept_review-Effect r at id _ (is_recommended-eq _ h))
        | inr h ↦ still (rw h)
      ]

  dismiss-Effect : (reason at id : String) → Effect m (dismiss reason at id m).1
  unfolding dismiss
  dismiss-Effect reason at id = elim (Bool-cases (is_human_reviewed m.current_state)) [
    | inl h ↦ rw h (transition-Effect dismissed (dismissal_payload reason m.human_review) at id)
    | inr h ↦ still (rw h)
  ]

  resolve-Effect : (notes at id : String) → Effect m (resolve notes at id m).1
  unfolding resolve
  resolve-Effect notes at id = elim (Bool-cases (is_closed m.current_state)) [
    | inl h ↦ rw h (transition-Effect resolved (resolution_payload notes) at id)
    | inr h ↦ still (rw h)
  ]

  reviewed-Effect :
      (r : HumanReview) (channel reference : String) (metadata : Dict String) (at id : String)
      → m.current_state ≡ human_reviewed
      → m.human_review ≡ some r
      → r.decision ≢ rejected
      → Effect m (record_if_ok (prepare_reviewed r channel reference metadata at id m)).1
  unfolding prepare_reviewed record_if_ok
  reviewed-Effect r channel reference metadata at id h e n =
      elim (Bool-cases (str_eq (action_or_abstain m.approved_action_type) "abstain")) [
        | inl a ↦ rw a (
            abstained (transition dismissed (abstain_payload r) at id m)
              (unfold transition in rw h refl))
        | inr a ↦
            let details =
              execution_details (action_or_abstain m.approved_action_type) channel reference
                metadata in
            authorized r details (event_of m executed (execution_payload r details) at id)
              (rw (a, h) refl) e n refl h refl refl
      ]
    where
      abstained :
          (o : Outcome)
          → o ≡ (
            ok (event_of m dismissed (abstain_payload r) at id),
            record_event (event_of m dismissed (abstain_payload r) at id) m,
          )
          → Effect m (record_if_ok o).1
      abstained o q =
          moved (event_of m dismissed (abstain_payload r) at id)
            (ap (λ (x : Outcome). (record_if_ok x).1) q) refl (unfold valid_transition in rw h refl)
            refl

  on-Effect :
      (d : ReviewDecision) (r : HumanReview) (channel reference : String) (metadata : Dict String)
      → (at id : String) → d ≡ r.decision
      → m.current_state ≡ human_reviewed
      → m.human_review ≡ some r
      → Effect m (record_if_ok (prepare_on d r channel reference metadata at id m)).1
  unfolding prepare_on record_if_ok
  on-Effect rejected r channel reference metadata at id q h e = still refl
  on-Effect approved r channel reference metadata at id q h e =
      reviewed-Effect r channel reference metadata at id h e (λ z. cc)
  on-Effect overridden r channel reference metadata at id q h e =
      reviewed-Effect r channel reference metadata at id h e (λ z. cc)

  decided-Effect :
      (found : Option HumanReview) (channel reference : String) (metadata : Dict String)
      → (at id : String) → m.current_state ≡ human_reviewed
      → m.human_review ≡ found
      → Effect m (record_if_ok (prepare_decided found channel reference metadata at id m)).1
  unfolding prepare_decided record_if_ok
  decided-Effect none channel reference metadata at id h e = still refl
  decided-Effect (some r) channel reference metadata at id h e =
      on-Effect r.decision r channel reference metadata at id refl h e

  commit-Effect :
      (channel reference : String) (metadata : Dict String) (at id : String)
      → Effect m (commit_execution channel reference metadata at id m).1
  unfolding commit_execution
  commit-Effect channel reference metadata at id =
      elim (Bool-cases (is_human_reviewed m.current_state)) [
        | inr h ↦ still (rw h)
        | inl h ↦ rw h (
            decided-Effect m.human_review channel reference metadata at id
              (is_human_reviewed-eq _ h) refl)
      ]

-- Every call leaves the machine as it was, or makes one legal step of it.
pub perform-Effect : (c : Call) (m : CaseStateMachine) → Effect m (perform c m).1
unfolding perform
perform-Effect (call_transition to p at id) m = transition-Effect m to p at id
perform-Effect (call_review r at recommendation eligible selected id) m =
    submit-Effect m r at recommendation eligible selected id
perform-Effect (call_execution channel reference metadata at id) m =
    commit-Effect m channel reference metadata at id
perform-Effect (call_dismiss reason at id) m = dismiss-Effect m reason at id
perform-Effect (call_resolve notes at id) m = resolve-Effect m notes at id
