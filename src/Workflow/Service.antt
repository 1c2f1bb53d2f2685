-- ===== src/Workflow/Service.antt =====
-- workflow/service.py and workflow/persistence.py: the state of the service, its interface to the
-- audit ledger, the state store with its faults, and the handoff that every operation ends in.
use inforsight.Common.{
  ℕ, String, Bool, true, false, ◌≡◌, Option, none, some, List, [], ◌∷◌, ◌++◌, if◌then◌else◌,
}
use inforsight.Common.Dict
use inforsight.Common.Dict.{Dict}
use inforsight.Common.Result.{Result, ok, err}
use inforsight.Workflow.Models.{
  CaseState, HumanReview, ApprovalBinding, ActionResourceRequirement, CaseEvent, WorkflowError,
  audit_failed, store_failed, time_invalid, timestamp_malformed, authority,
}
use inforsight.Workflow.Machine.{CaseStateMachine}
use inforsight.Workflow.Capacity.{Capacity}

-- The arguments of one call of `AuditLedger.append`; the digests of the context are one text.
pub record AuditRow : Type 0 where
  pub case_id : String
  pub policy_id : String
  pub case_event_id : String
  pub from_state : CaseState
  pub to_state : CaseState
  pub decision_context_digest : String
  pub human_review : Option HumanReview
  pub dispatched_action : Option (Dict String)
  pub approval_binding : Option ApprovalBinding
  pub timestamp : String

-- The ledger as the service uses it. `append` may raise; what it leaves then is its own matter.
pub record AuditPort (L : Type 0) : Type 0 where
  pub append : AuditRow → L → Bool × L
  pub rows : L → List AuditRow
  pub append-rows :
      (r : AuditRow) (l : L) → (append r l).0 ≡ true → rows (append r l).1 ≡ rows l ++ r ∷ []

-- datetime.fromisoformat(value.replace("Z", "+00:00")): with no offset, or as an instant. Both are
-- counted in microseconds.
pub data ParsedTime : Type 0 where
  malformed : ParsedTime
  naive at : ℕ → ParsedTime

-- A current eligible action set, as far as the service reads the dictionary.
pub record EligibleSet : Type 0 where
  pub eligible_actions : List String
  pub snapshot_id : Option String
  pub safety_evidence_id : Option String
  pub requirements_version : Option String
  pub content : String

pub record ApprovalSeed : Type 0 where
  pub case_id : String
  pub case_version : ℕ
  pub eligibility_digest : String
  pub action_type : String
  pub channel : String
  pub actor_id : String
  pub reviewed_at : String

pub record ExecutionRequest : Type 0 where
  pub case_id : String
  pub approval_id : String
  pub expected_case_version : ℕ
  pub current_eligible_action_set : EligibleSet
  pub outreach_reference : String
  pub metadata : Dict String

-- What the service computes through libraries: times, and SHA-256 over canonical JSON. The two
-- identities are the slices of one digest that an approval takes.
pub record Outside : Type 0 where
  pub parse_time : String → ParsedTime
  pub expiry_after : String → ℕ → Option String
  pub approval_identity : ApprovalSeed → String
  pub execution_identity : ApprovalSeed → String
  pub request_digest : ExecutionRequest → String
  pub set_digest : EligibleSet → String

pub record WorkflowContext : Type 0 where
  pub case_id : String
  pub policy_id : String
  pub state_machine : CaseStateMachine
  pub decision_digest : String
  pub recommended_action : String
  pub eligible_actions : List String
  pub as_of_date : String
  pub snapshot_id : Option String
  pub safety_evidence_id : Option String
  pub eligibility_digest : String
  pub requirements_version : String
  pub recommendation_version : String
  pub model_bundle_id : String
  pub action_channels : Dict String
  pub action_resources : Dict ActionResourceRequirement
  pub case_version : ℕ
  pub approval : Option ApprovalBinding
  pub metadata : Dict (Option String)

-- What `_serialize_state` writes and `_restore_state` reads back.
pub record State : Type 0 where
  pub cases : Dict WorkflowContext
  pub capacity : Capacity
  pub execution_results : Dict (String × CaseEvent)

-- The file of WorkflowStateStore: the committed state, and the pending one with its audit event.
pub record Stored : Type 0 where
  pub committed : State
  pub pending : Option (String × State)

pub record Service (L : Type 0) : Type 0 where
  pub state : State
  pub ledger : L
  pub store : Option Stored
  pub approval_ttl : ℕ

-- How one atomic write ends: done, refused before the file is replaced, or failed after that.
pub data Write : Type 0 where
  written refused_before failed_after : Write

-- What the environment does to the three writes of an operation.
pub record Faults : Type 0 where
  pub begin_write : Write
  pub commit_write : Write
  pub rollback_write : Write

abbrev pub no_faults : Faults
no_faults = record { begin_write = written; commit_write = written; rollback_write = written }

-- WorkflowStateStore.write; a service with no store writes nothing
unfoldable pub write_store : Write → Stored → Option Stored → Bool × Option Stored
write_store w new none = (true, none)
write_store written new (some old) = (true, some new)
write_store refused_before new (some old) = (false, some old)
write_store failed_after new (some old) = (false, some new)

-- ApprovalBinding.is_expired_at, for the two texts
abbrev pub instant_of : ParsedTime → Result WorkflowError ℕ
instant_of malformed = err timestamp_malformed
instant_of (naive t) = err (authority time_invalid)
instant_of (at t) = ok t

abbrev pub put_case : String → WorkflowContext → State → State
put_case case_id ctx st = record st { cases = Dict.put case_id ctx st.cases }

-- The result of a `try` block, the service it leaves, and `audit_committed`.
abbrev pub Attempt : Type 0 → Type 0
Attempt L = Result WorkflowError CaseEvent × Service L × Bool

module _ {L : Type 0} (port : AuditPort L) where
  unfoldable pub commit_write : Faults → CaseEvent → Service L → Attempt L
  commit_write faults event s =
      let (done, store) =
        write_store faults.commit_write (record { committed = s.state; pending = none }) s.store in
      let s' = record s { store = store } in
      if done then (ok event, s', true) else (err store_failed, s', true)

  unfoldable pub append_row : Faults → CaseEvent → AuditRow → Service L → Attempt L
  unfolding commit_write
  append_row faults event row s =
      let (done, ledger) = port.append row s.ledger in
      let s' = record s { ledger = ledger } in
      if done then commit_write faults event s' else (err audit_failed, s', false)

  -- _begin_pending, AuditLedger.append, _persist_committed
  unfoldable pub handoff : Faults → State → CaseEvent → AuditRow → Service L → Attempt L
  unfolding append_row write_store
  handoff faults committed event row s =
      let (done, store) =
        write_store faults.begin_write
          (record { committed = committed; pending = some (event.case_event_id, s.state) })
          s.store in
      let s' = record s { store = store } in
      if done then append_row faults event row s' else (err store_failed, s', false)

-- _restore_mutation_state: the case and the capacity go back to the snapshot
unfoldable pub restore_mutation_state :
    {L : Type 0} → String → WorkflowContext → Capacity → Service L → Service L
restore_mutation_state case_id ctx capacity s = record s {
  state = record s.state { cases = Dict.put case_id ctx s.state.cases; capacity = capacity };
}

-- The `except` block of the operations.
unfoldable pub settle :
    {L : Type 0}
    → Faults
    → State
    → String
    → WorkflowContext
    → Attempt L
    → Result WorkflowError CaseEvent × Service L
unfolding restore_mutation_state write_store
settle faults committed case_id ctx (ok event, s, _) = (ok event, s)
settle faults committed case_id ctx (err e, s, true) =
    (err e, restore_mutation_state case_id ctx committed.capacity s)
settle faults committed case_id ctx (err e, s, false) =
    let back = restore_mutation_state case_id ctx committed.capacity s in
    let (done, store) =
      write_store faults.rollback_write (record { committed = committed; pending = none })
        s.store in
    (err (if done then e else store_failed), record back { store = store })
