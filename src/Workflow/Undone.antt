-- ===== src/Workflow/Undone.antt =====
-- workflow/service.py: what a dismissal or a resolution that raises leaves, whatever other threads
-- do while it runs.
use inforsight.Common.{String, ◌≡◌}
use inforsight.Common.Dict
use inforsight.Common.Dict.{Dict, put-put, put-get}
use inforsight.Common.Result.{Result}
use inforsight.Workflow.Capacity.{Capacity}
use inforsight.Workflow.Service.{WorkflowContext, State, Service, put_case}
use inforsight.Workflow.Closing.{Others}

-- The state with the case and the capacity of an earlier one.
abbrev pub put_back : String → WorkflowContext → Capacity → State → State
put_back case_id ctx capacity st = record st {
  cases = Dict.put case_id ctx st.cases;
  capacity = capacity;
}

-- Of what other threads had left before it, the call changed no more than its own case; and over
-- what they left after that, it put back the case and the capacity as they were at its entry.
pub record IsUndone {L : Type 0} (case_id : String) (ctx : WorkflowContext) (others : Others L)
    (s end : Service L) : Type 0 where
  pub seen : Service L
  pub own : WorkflowContext
  pub local : seen.state ≡ put_case case_id own (others.before s).state
  pub undone : end.state ≡ put_back case_id ctx s.state.capacity (others.after seen).state
