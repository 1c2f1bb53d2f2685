-- ===== src/Workflow/Restart.antt =====
-- workflow/service.py and workflow/persistence.py: what a restart reads from the state file, and that
-- it agrees with the ledger wherever an operation was cut off.
use inforsight.Common.{
  String, Bool, true, false, ◌||◌, ◌≡◌, refl, Option, none, some, List, [], ◌∷◌, ◌++◌, arith,
  Bool-cases, eq_iff, inl, inr, str_eq, if◌then◌else◌,
}
use inforsight.Workflow.Models.{CaseEvent}
use inforsight.Workflow.Service.{
  AuditRow, AuditPort, State, Stored, Service, Faults, Write, write_store, handoff, append_row,
  commit_write,
}

-- Whether an audit row is of the event.
unfoldable pub has_event : String → List AuditRow → Bool
has_event id [] = false
has_event id (r ∷ rs) = str_eq r.case_event_id id || has_event id rs

-- _restore_persisted_state, up to the state that it selects
unfoldable pub selected_state : List AuditRow → Stored → State
unfolding has_event
selected_state rows stored = elim stored.pending [
  | none ↦ stored.committed
  | some (id, target) ↦ if has_event id rows then target else stored.committed
]

has_event-last :
    (rs : List AuditRow) (r : AuditRow) → has_event r.case_event_id (rs ++ r ∷ []) ≡ true
unfolding has_event
has_event-last [] r = ground (arith, eq_iff r.case_event_id r.case_event_id)
has_event-last (x ∷ rs) r = ground (arith, has_event-last rs r)

-- The state that a restart of the service selects; with no store there is nothing to read.
abbrev pub restarted : List AuditRow → Option Stored → State → State
restarted rows none fallback = fallback
restarted rows (some stored) fallback = selected_state rows stored

begun :
    (w : Write) (new : Stored) (store : Option Stored) {old : Stored}
    → (write_store w new store).0 ≡ true
    → store ≡ some old
    → (write_store w new store).1 ≡ some new
unfolding write_store
begun w new store a k = ground (arith, a, k)

-- A pending write that failed leaves a store from which the committed state is selected.
refused :
    (w : Write) (id : String) (rows : List AuditRow) (committed target : State)
    (store : Option Stored)
    → store ≡ some (record { committed = committed; pending = none })
    → has_event id rows ≡ false
    → (write_store w (record { committed = committed; pending = some (id, target) }) store).0
      ≡ false
    → restarted rows
        (write_store w (record { committed = committed; pending = some (id, target) }) store).1
        committed
      ≡ (if has_event id rows then target else committed)
unfolding write_store selected_state
refused w id rows committed target store k n a = ground (arith, a, k, n)

module _ {L : Type 0} (port : AuditPort L) (faults : Faults) (committed : State) (event : CaseEvent)
    (row : AuditRow) where
  -- What the row on the ledger decides.
  abbrev pub decided : State → List AuditRow → State
  decided target rows = if has_event event.case_event_id rows then target else committed

  commit_write-restarted :
      (s : Service L)
      → s.store
        ≡ some (record { committed = committed; pending = some (event.case_event_id, s.state) })
      → has_event event.case_event_id (port.rows s.ledger) ≡ true
      → restarted
          (port.rows (commit_write port faults event s).1.ledger)
          (commit_write port faults event s).1.store
          committed
        ≡ decided s.state (port.rows (commit_write port faults event s).1.ledger)
  unfolding commit_write write_store selected_state
  commit_write-restarted s k h = ground (arith, k, h)

  append_row-restarted :
      (s : Service L)
      → row.case_event_id ≡ event.case_event_id
      → s.store
        ≡ some (record { committed = committed; pending = some (event.case_event_id, s.state) })
      → restarted
          (port.rows (append_row port faults event row s).1.ledger)
          (append_row port faults event row s).1.store
          committed
        ≡ decided s.state (port.rows (append_row port faults event row s).1.ledger)
  unfolding append_row selected_state
  append_row-restarted s e k = elim (Bool-cases (port.append row s.ledger).0) [
    | inl a ↦ rw a (
        commit_write-restarted (record s { ledger = (port.append row s.ledger).1 }) k
          (ground
            (arith, port.append-rows row s.ledger a, has_event-last (port.rows s.ledger) row, e)))
    | inr a ↦ rw (a, k) refl
  ]

  -- Wherever a handoff stops (before, after or between the pending write, the audit row and the
  -- commit, or at its end), a restart selects the new state if the ledger has the event's row and the
  -- committed one if not, for an event that is new to the ledger and a store with nothing pending.
  pub handoff-restarted :
      (s : Service L)
      → row.case_event_id ≡ event.case_event_id
      → has_event event.case_event_id (port.rows s.ledger) ≡ false
      → s.store ≡ some (record { committed = committed; pending = none })
      → restarted
          (port.rows (handoff port faults committed event row s).1.ledger)
          (handoff port faults committed event row s).1.store
          committed
        ≡ decided s.state (port.rows (handoff port faults committed event row s).1.ledger)
  unfolding handoff write_store selected_state
  handoff-restarted s e n k =
      let new : Stored = record {
        committed = committed;
        pending = some (event.case_event_id, s.state);
      } in
      elim (Bool-cases (write_store faults.begin_write new s.store).0) [
        | inl a ↦ rw a (
            append_row-restarted
              (record s { store = (write_store faults.begin_write new s.store).1 }) e
              (begun faults.begin_write new s.store a k))
        | inr a ↦ rw a (
            refused faults.begin_write event.case_event_id (port.rows s.ledger) committed s.state
              s.store k n a)
      ]
