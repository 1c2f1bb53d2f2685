-- ===== src/Lib.antt =====
-- The conservation decision core of InforSight: the history of a policy, which interventions a lapsing
-- policy may be offered, which of them a budget allows, how a case passes human review to execution,
-- and the audit trail that shows it.
--
-- The parts are packages and modules of simulator/src/inforsight_simulator:
--
--   rules/     The eligibility engine. `evaluate` takes the context of one policy and a catalog of
--              actions and returns, for each action, whether it is eligible and why not.
--              Rules/Models and Rules/Context are models.py (with from_dict and __post_init__),
--              Rules/Invariants is invariants.py, Rules/Engine is engine.py. Rules/Checks, Rules/Loop,
--              Rules/Judged, Rules/Eligibility, Rules/Results and Rules/Mapping hold the proofs.
--   workflow/  The case workflow. A case is a state machine (state_machine.py, Workflow/Machine) with
--              mandatory human review; service.py keeps the cases, an exact resource budget with one
--              reservation for each case (Workflow/Capacity) and the results of past dispatches, and
--              hands every change to the state file and to the audit ledger (Workflow/Service).
--              Workflow/Review is submit_review, Workflow/Dispatch is dispatch_execution,
--              Workflow/Closing is dismiss_case and resolve_case, Workflow/Models is models.py,
--              Workflow/Restart the choice that _restore_persisted_state makes on restart.
--              Workflow/Lifecycle and Workflow/Authority are about the machine alone, Workflow/Balance
--              about the budget; Workflow/Atomicity, Workflow/Restored, Workflow/Delivery and
--              Workflow/Undone about operations that raise; Workflow/Handoff, Workflow/Permission and
--              Workflow/Execution about a dispatch that returns.
--   audit/     The hash-chained ledger. Audit/Entries has the records and their dictionaries,
--              Audit/Ledger is `append` of ledger.py, Audit/Verifier is verify_records of verifier.py;
--              Audit/Chain, Audit/Governance and Audit/Built hold the proofs.
--
--   optimization/  The choice of one action for each policy under a budget of money and staff time.
--              Allocation/Models is models.py; solver.py is Allocation/Exact (the dynamic program),
--              Allocation/Heuristic (the greedy selection beyond six occurrences) and
--              Allocation/Portfolio (allocate_recommendations and the marginal values). Selections says
--              what an allocation is to be; Table, Sound, Totals, Optimal and Answers are about the
--              dynamic program, Gathered, Committed, Spent and Served about the heuristic, Allocated,
--              Monotone, Returns, Completes and Reported about what callers get.
--   validation.py, reconstruction.py  Timeline/Events, Timeline/Preparation and Timeline/Checks are the
--              checks of a history, Timeline/Replay is reconstruct_policy_state; Statuses, Followed and
--              Lifetimes hold the proofs.
--   streaming.py  Streaming/Ingress is StreamingIngress and Streaming/Buffer is PointInTimeEventBuffer;
--              Deduplicated, Visible, Kept and Arrival hold the proofs.
--   safety_evidence.py  Safety/Evidence is reconstruct_safety_evidence, which gives the rules their
--              safety facts; Updates and Supported hold the proofs.
--
-- The service uses the ledger through the record `AuditPort`; `ledger_port` of Audit/Ledger fills it.
-- The output of the rules reaches the workflow as the eligible actions of a case.
--
-- Conventions. A method that may raise returns `Result`, and where it changes an object that object
-- comes back beside the result, since what was written before a raise stays written. submit_review
-- and dispatch_execution hold the lock of the service while they run, so each is one function of the
-- state; an operation without the lock that another thread runs in the middle of one of them is not
-- modelled. dismiss_case and resolve_case take no lock: what other threads do to the service before
-- their method and before their `except` block is an argument (`Others`). The dictionaries of the
-- source are association lists in the order of insertion. Integers are exact, as in Python; a
-- context's numbers may be negative and are ℤ. All recursion is structural, on lists.
--
-- Parameters stand for what the code takes from libraries: date parsing and arithmetic, the JSON
-- schema validators, SHA-256, json.dumps, int() and bool() of objects, the identities of new events,
-- and what each write to disk does (`Faults`, `Append`). The assumptions on them are stated where they
-- are used: that all digests are of one length, that canonical JSON determines its payload, and that
-- equal JSON texts are of equal events.
--
-- Not modelled: the catalog loader and evaluate_snapshot of the rules; create_case, the state file
-- as text and the rest of its reading; the loading and the checkpoint of the ledger; the float
-- utilities, the legacy capacities and the digest of the allocator; the digest and the context check of
-- the safety evidence. Events of a history or a stream are
-- well-shaped records, since the schema check comes first. The other packages (corpora, models,
-- evaluation, domain snapshots, Kafka, assistant, serving, dashboard, front end and control plane) are
-- outside.
pub mod Common
pub mod Rules
pub mod Workflow
pub mod Audit
pub mod Allocation
pub mod Timeline
pub mod Streaming
pub mod Safety
