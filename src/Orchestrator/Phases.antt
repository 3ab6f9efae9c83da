-- ===== src/Orchestrator/Phases.antt =====
-- src/rooben/orchestrator.py: `run` and `resume` with their phases. The report, the diagnostic's text
-- and the registration of agents are not part of the state.
pub mod Finish
use rooben.Prelude.{
  ℕ, ◌*◌, ◌==◌, Bool, true, false, not, ◌&&◌, String, Option, none, some, List, [], ◌∷◌, ◌++◌, any,
  cond, ltb, if◌then◌else◌, str_eq,
}
use rooben.Dict.{Dict, get, values}
use rooben.Domain.Status.{WorkflowStatus}
use rooben.Domain.Models.{Task, TokenUsage, Workflow, WorkflowState, text_truthy, total}
use rooben.Domain.State.{is_workflow_complete, is_workflow_failed}
use rooben.State.Filesystem.{load_state}
use rooben.Orchestrator.Core.{
  Raised, budget_exceeded, other_error, Reply, returned, failed, llm_usage, workflow_planned,
  workflow_completed, World, Orchestrator, emit,
}
use rooben.Orchestrator.TaskSteps.{Step}
use rooben.Planning.Draft.{SpecView}
use rooben.Planning.Planner.{
  LlmPlanner, Planning, PlanOutcome, planned, planning_failed, planner_raised, PlanWorld, plan,
}
use rooben.Orchestrator.Loop.{save, change_workflow, completed_event, execute_workflow}

-- _emit_planner_usage; the Boolean says whether the cost of the tokens is known.
unfoldable pub emit_planner_usage : LlmPlanner → Bool → Orchestrator → Orchestrator
unfolding emit total
emit_planner_usage p priced o =
    cond (not (total p.last_usage == 0) && priced) (emit (llm_usage none "planner") o) o

-- Workflow(id=…, spec_id=…, status=…), the other fields at their defaults
abbrev pub new_workflow : ℕ → String → String → WorkflowStatus → Workflow
new_workflow now wid spec_id status = record {
  id = wid;
  spec_id = spec_id;
  status = status;
  workstream_ids = [];
  spec_content_hash = "";
  created_at = now;
  completed_at = none;
  total_tasks = 0;
  completed_tasks = 0;
  failed_tasks = 0;
  replan_count = 0;
  linear_project_id = none;
}

-- wf.status = …
unfoldable pub with_status : WorkflowStatus → Workflow → Workflow
with_status status x = record x { status = status }

-- The branch of `_plan_phase` for `PlanningFailed`.
unfoldable pub planning_failed_phase : String → String → ℕ → Orchestrator → Orchestrator
unfolding emit
planning_failed_phase spec_id wid now o =
    let o1 = emit (workflow_completed wid WorkflowStatus.failed 0 0 0) o in
    record o1 {
      state = record {
        workflows = (wid, new_workflow now wid spec_id WorkflowStatus.failed) ∷ [];
        workstreams = [];
        tasks = [];
        task_hashes = [];
      };
    }

-- The branch of `_plan_phase` for a state.
unfoldable pub planned_phase :
    LlmPlanner → Bool → String → WorkflowState → Orchestrator → Orchestrator × Reply Bool
unfolding emit emit_planner_usage save change_workflow with_status get
planned_phase planner priced wid s o =
    let o1 = record o { state = s } in
    elim (get s.workflows wid) [
      | none ↦ (o1, failed "KeyError")
      | some x ↦
          let o2 = save (change_workflow wid (with_status WorkflowStatus.in_progress) o1) in
          (emit (workflow_planned wid) (emit_planner_usage planner priced o2), returned true)
    ]

-- `_plan_phase` behind the call of the planner, with what it returns or raises: of the planner's
-- exceptions it handles `PlanningFailed` alone.
unfoldable pub plan_phase :
    Planning → Bool → String → String → ℕ → Orchestrator → Orchestrator × Reply Bool
unfolding planning_failed_phase planned_phase
plan_phase r priced spec_id wid now o =
    let o1 = record o { events = o.events ++ r.session.events } in
    elim r.outcome [
      | planned s ↦ planned_phase r.planner priced wid s o1
      | planning_failed c j q ↦ (planning_failed_phase spec_id wid now o1, returned false)
      | planner_raised e ↦ (o1, failed e)
    ]

-- The status at the end.
unfoldable pub final_status : WorkflowState → String → WorkflowStatus
unfolding is_workflow_complete is_workflow_failed
final_status s wid =
    if is_workflow_complete s wid && not (is_workflow_failed s wid)
    then WorkflowStatus.completed
    else WorkflowStatus.failed

-- wf.total_tasks > 0 and wf.failed_tasks / wf.total_tasks > 0.4
unfoldable pub high_failure_rate : Workflow → Bool
high_failure_rate x = ltb 0 x.total_tasks && ltb (4 * x.total_tasks) (10 * x.failed_tasks)

-- The handler of `BudgetExceeded`.
unfoldable pub fail_run : String → Orchestrator → Orchestrator
unfolding save change_workflow with_status get
fail_run wid o = elim (get o.state.workflows wid) [
  | none ↦ o
  | some x ↦ save (change_workflow wid (with_status WorkflowStatus.failed) o)
]

module _ (w : World) where
  -- `_finalize_phase`, and whether it sets a diagnostic; `none`: there is no such workflow.
  unfoldable pub finalize_phase : String → Orchestrator → Orchestrator × Option Bool
  unfolding final_status high_failure_rate save change_workflow completed_event get
  finalize_phase wid o = elim (get o.state.workflows wid) [
    | none ↦ (o, none)
    | some x ↦
        let status = final_status o.state wid in
        let mark =
          λ (y : Workflow). record y { status = status; completed_at = some (w.clock o.calls) } in
        (completed_event wid status (save (change_workflow wid mark o)), some (high_failure_rate x))
  ]

  -- What `run` and `resume` do with the end of the loop.
  unfoldable pub finish_run : String → Option Step → Option Step
  unfolding finalize_phase fail_run
  finish_run wid none = none
  finish_run wid (some (o, none)) =
      let (o1, diagnostic) = finalize_phase wid o in
      some (o1, elim diagnostic [ none ↦ some (other_error "KeyError") | some b ↦ none ])
  finish_run wid (some (o, some (budget_exceeded x))) =
      some (fail_run wid o, some (budget_exceeded x))
  finish_run wid (some (o, some (other_error m))) = some (o, some (other_error m))

  -- `run` behind its first phase.
  unfoldable pub after_planning : ℕ → ℕ → String → Orchestrator × Reply Bool → Option Step
  unfolding finish_run
  after_planning fuel depth wid (o, failed e) = some (o, some (other_error e))
  after_planning fuel depth wid (o, returned false) = some (o, none)
  after_planning fuel depth wid (o, returned true) =
      finish_run wid (execute_workflow w fuel depth wid o)

  -- run
  unfoldable pub run :
      PlanWorld → SpecView → LlmPlanner → Bool → ℕ → ℕ → String → Orchestrator → Option Step
  unfolding plan plan_phase after_planning
  run models spec planner priced fuel depth wid o = elim (plan models spec wid planner) [
    | none ↦ none
    | some r ↦
        let o1 = record o { start_time = w.clock o.calls } in
        after_planning fuel depth wid (plan_phase r priced spec.id wid (w.clock o1.calls) o1)
  ]

  -- A task of the workflow whose agent is not registered.
  unfoldable pub lacks_agent : String → Task → Bool
  unfolding text_truthy
  lacks_agent wid t = elim t.assigned_agent_id [
    | none ↦ false
    | some a ↦ str_eq t.workflow_id wid && (text_truthy a && not (w.has_agent a))
  ]

  -- resume
  unfoldable pub resume : ℕ → ℕ → String → Orchestrator → Option Step
  unfolding load_state get values lacks_agent save change_workflow with_status finish_run
  resume fuel depth wid o =
      let o0 = record o { start_time = w.clock o.calls } in
      elim (load_state wid o0.disk) [
        | none ↦ some (o0, some (other_error "ValueError"))
        | some s ↦
            let o1 = record o0 { state = s } in
            elim (get s.workflows wid) [
              | none ↦ some (o1, some (other_error "ValueError"))
              | some x ↦ elim (any (lacks_agent wid) (values s.tasks)) [
                | true ↦ some (o1, some (other_error "ValueError"))
                | false ↦
                    let o2 =
                      save (change_workflow wid (with_status WorkflowStatus.in_progress) o1) in
                    finish_run wid (execute_workflow w fuel depth wid o2)
              ]
            ]
      ]
