-- ===== src/Workflow/Handoff.antt =====
-- workflow/service.py: what a handoff that returned has written, and what a machine has that
-- prepared an execution.
use inforsight.Common.{
  String, true, ◌≡◌, ◌≢◌, refl, ap, ◌∙◌, Option, none, some, [], ◌∷◌, ◌++◌, arith, Bool-cases, inl,
  inr,
}
use inforsight.Common.Dict.{Dict}
use inforsight.Common.Result.{ok}
use inforsight.Workflow.Models.{
  executed, CaseEvent, HumanReview, ReviewDecision, approved, overridden, rejected,
}
use inforsight.Workflow.Machine.{
  CaseStateMachine, transition, prepare_reviewed, prepare_on, prepare_decided, prepare_execution,
  record_prepared_execution, is_human_reviewed,
}
use inforsight.Workflow.Service.{
  AuditRow, AuditPort, State, Stored, Service, Faults, Write, write_store, handoff, append_row,
  commit_write,
}

-- The event is on record: its row ends the ledger, the store (where there is one) holds the state
-- as committed, and nothing is pending.
pub record IsOnRecord {L : Type 0} (port : AuditPort L) (row : AuditRow) (s t : Service L)
    : Type 0 where
  pub audited : port.rows t.ledger ≡ port.rows s.ledger ++ row ∷ []
  pub state : t.state ≡ s.state
  pub stored :
      (old : Stored)
      → s.store ≡ some old
      → t.store ≡ some (record { committed = s.state; pending = none })

write_store-written :
    (w : Write) (new : Stored) (store : Option Stored)
    → (write_store w new store).0 ≡ true
    → (old : Stored) → store ≡ some old
    → (write_store w new store).1 ≡ some new
unfolding write_store
write_store-written w new store h old e = ground (arith, h, e)

begun :
    {L : Type 0} {port : AuditPort L} {row : AuditRow} {P : Type 0} {s t : Service L} {new : Stored}
    → (store : Option Stored) → ((old : Stored) → s.store ≡ some old → store ≡ some new)
    → P × IsOnRecord port row (record s { store = store }) t
    → P × IsOnRecord port row s t
begun {s} {t} {new} store h (p, r) =
    (p, record { audited = r.audited; state = r.state; stored = λ old k. r.stored new (h old k) })

module _ {L : Type 0} (port : AuditPort L) (faults : Faults) (event e : CaseEvent)
    (row : AuditRow) where
  record IsCommitted (s t : Service L) : Type 0 where
    same : e ≡ event
    ledger : t.ledger ≡ s.ledger
    state : t.state ≡ s.state
    stored :
        (old : Stored)
        → s.store ≡ some old
        → t.store ≡ some (record { committed = s.state; pending = none })

  commit_write-IsCommitted :
      (s : Service L)
      → (commit_write port faults event s).0 ≡ ok e
      → IsCommitted s (commit_write port faults event s).1
  unfolding commit_write
  commit_write-IsCommitted s h =
      let new : Stored = record { committed = s.state; pending = none } in
      elim (Bool-cases (write_store faults.commit_write new s.store).0) [
        | inl w ↦ rw w (record {
          same = ground (arith, w, h);
          ledger = refl;
          state = refl;
          stored = write_store-written faults.commit_write new s.store w;
        })
        | inr w ↦ ground (arith, w, h)
      ]

  append_row-IsOnRecord :
      (s : Service L)
      → (append_row port faults event row s).0 ≡ ok e
      → (e ≡ event) × IsOnRecord port row s (append_row port faults event row s).1
  unfolding append_row
  append_row-IsOnRecord s h = elim (Bool-cases (port.append row s.ledger).0) [
    | inl a ↦ rw a (
        committed
          (commit_write-IsCommitted (record s { ledger = (port.append row s.ledger).1 })
            (ground (arith, a, h)))
          a)
    | inr a ↦ ground (arith, a, h)
  ]
    where
      committed :
          {t : Service L}
          → IsCommitted (record s { ledger = (port.append row s.ledger).1 }) t
          → (port.append row s.ledger).0 ≡ true
          → (e ≡ event) × IsOnRecord port row s t
      committed {t} c a = (
        c.same,
        record {
          audited = ap port.rows c.ledger ∙ port.append-rows row s.ledger a;
          state = c.state;
          stored = c.stored;
        },
      )

  -- A handoff that returns returns its event, which then is on record.
  pub handoff-IsOnRecord :
      (committed : State) (s : Service L)
      → (handoff port faults committed event row s).0 ≡ ok e
      → (e ≡ event) × IsOnRecord port row s (handoff port faults committed event row s).1
  unfolding handoff
  handoff-IsOnRecord committed s h =
      let new : Stored = record {
        committed = committed;
        pending = some (event.case_event_id, s.state);
      } in
      let s' = record s { store = (write_store faults.begin_write new s.store).1 } in
      elim (Bool-cases (write_store faults.begin_write new s.store).0) [
        | inl w ↦ rw w (
            begun (write_store faults.begin_write new s.store).1
              (write_store-written faults.begin_write new s.store w)
              (append_row-IsOnRecord s' (ground (arith, w, h))))
        | inr w ↦ ground (arith, w, h)
      ]

-- The machine holds a review that does not reject.
abbrev pub IsApproved : CaseStateMachine → Type 0
IsApproved m = (r : HumanReview) × (m.human_review ≡ some r) × (r.decision ≢ rejected)

module _ (channel reference : String) (metadata : Dict String) (at id : String)
    (m : CaseStateMachine) (e : CaseEvent) where
  prepare_reviewed-human_review :
      (r : HumanReview)
      → (prepare_reviewed r channel reference metadata at id m).1.human_review ≡ m.human_review
  unfolding prepare_reviewed transition
  prepare_reviewed-human_review r = ground arith

  prepare_on-IsApproved :
      (d : ReviewDecision) (r : HumanReview)
      → d ≡ r.decision
      → m.human_review ≡ some r
      → (prepare_on d r channel reference metadata at id m).0 ≡ ok e
      → IsApproved (prepare_on d r channel reference metadata at id m).1
  unfolding prepare_on
  prepare_on-IsApproved rejected r q g h = cc
  prepare_on-IsApproved approved r q g h = (r, prepare_reviewed-human_review r ∙ g, λ z. cc)
  prepare_on-IsApproved overridden r q g h = (r, prepare_reviewed-human_review r ∙ g, λ z. cc)

  prepare_decided-IsApproved :
      (found : Option HumanReview)
      → m.human_review ≡ found
      → (prepare_decided found channel reference metadata at id m).0 ≡ ok e
      → IsApproved (prepare_decided found channel reference metadata at id m).1
  unfolding prepare_decided
  prepare_decided-IsApproved none g h = cc
  prepare_decided-IsApproved (some r) g h = prepare_on-IsApproved r.decision r refl g h

  -- Execution is prepared on a review that does not reject, which stays in the machine.
  pub prepare_execution-IsApproved :
      (prepare_execution channel reference metadata at id m).0 ≡ ok e
      → IsApproved (prepare_execution channel reference metadata at id m).1
  unfolding prepare_execution
  prepare_execution-IsApproved h = elim (Bool-cases (is_human_reviewed m.current_state)) [
    | inl c ↦ rw c (prepare_decided-IsApproved m.human_review refl (ground (arith, c, h)))
    | inr c ↦ ground (arith, c, h)
  ]

-- What is recorded as executed is the event that was prepared, and the review stays.
pub record_prepared-executed :
    (event e : CaseEvent) (m : CaseStateMachine)
    → (record_prepared_execution event m).0 ≡ ok e
    → (e ≡ event)
      × (event.to_state ≡ executed)
      × ((record_prepared_execution event m).1.human_review ≡ m.human_review)
unfolding record_prepared_execution
record_prepared-executed event e m h = ground arith
