-- ===== src/Orchestrator/Loop.antt =====
-- src/rooben/orchestrator.py, `_execute_workflow`.
pub mod Termination
pub mod Counted
use rooben.Prelude.{
  ℕ, zero, suc, ◌-◌, ◌/◌, ◌&&◌, Bool, true, false, not, String, Option, none, some, List, [], ◌∷◌,
  cond, str_eq,
}
use rooben.Dict.{get, put, map_values}
use rooben.Domain.Status.{TaskStatus, WorkflowStatus, is_terminal}
use rooben.Domain.Models.{Task, Workflow, WorkflowState}
use rooben.Domain.State.{get_ready_tasks, is_workflow_complete, is_workflow_stalled}
use rooben.Security.Budget.{BudgetExceeded, check_wall_time}
use rooben.Resilience.CircuitBreaker.{can_proceed}
use rooben.Resilience.Checkpoint.{force_checkpoint, maybe_checkpoint}
use rooben.State.Filesystem.{save_state}
use rooben.Orchestrator.Core.{
  Raised, budget_exceeded, other_error, World, Orchestrator, workflow_completed, emit, next_call,
}
use rooben.Orchestrator.TaskSteps.{Step, no_result}
use rooben.Orchestrator.Gather.{first_budget, gather}

-- `t.workflow_id == workflow_id and not t.is_terminal`
unfoldable pub is_open : String → Task → Bool
unfolding is_terminal
is_open wid t = str_eq t.workflow_id wid && not (is_terminal t.status)

-- The loops over the tasks that are open: the object changes in place, so the write back to its own
-- key adds nothing.
unfoldable pub skip_open : String → Task → Task
unfolding is_open
skip_open wid t = cond (is_open wid t) (record t { status = TaskStatus.skipped }) t

unfoldable pub fail_open : String → Task → Task
unfolding is_open
fail_open wid t =
    cond (is_open wid t)
      (record t {
        status = TaskStatus.failed;
        result = some (record no_result { error = some "Circuit breaker open" });
      })
      t

unfoldable pub map_tasks : (Task → Task) → Orchestrator → Orchestrator
unfolding map_values
map_tasks f o = record o { state = record o.state { tasks = map_values f o.state.tasks } }

-- backend.save_state(self._state)
unfoldable pub save : Orchestrator → Orchestrator
unfolding save_state
save o = record o { disk = save_state o.state o.disk }

-- Some change of a workflow that is there.
unfoldable pub change_workflow : String → (Workflow → Workflow) → Orchestrator → Orchestrator
change_workflow wid f o = elim (get o.state.workflows wid) [
  | none ↦ o
  | some x ↦ record o { state = record o.state { workflows = put o.state.workflows wid (f x) } }
]

-- The event at the end of a workflow, with its counters.
unfoldable pub completed_event : String → WorkflowStatus → Orchestrator → Orchestrator
unfolding emit
completed_event wid status o = elim (get o.state.workflows wid) [
  | none ↦ emit (workflow_completed wid status 0 0 0) o
  | some x ↦ emit (workflow_completed wid status x.completed_tasks x.failed_tasks x.total_tasks) o
]

-- The branch of an open breaker.
unfoldable pub stop_run : String → Orchestrator → Orchestrator
unfolding fail_open map_tasks
stop_run wid o =
    let (m, disk) = force_checkpoint o.state wid o.checkpoints o.disk in
    map_tasks (fail_open wid) (record o { checkpoints = m; disk = disk })

-- The end of a round: the save, and the periodic checkpoint.
unfoldable pub end_round : String → Orchestrator → Orchestrator
unfolding save
end_round wid o =
    let o1 = save o in
    elim (get o1.state.workflows wid) [
      | none ↦ o1
      | some x ↦
          let ((m, disk), _) =
            maybe_checkpoint o1.state wid x.completed_tasks o1.checkpoints o1.disk in
          record o1 { checkpoints = m; disk = disk }
    ]

-- How a pass through the loop goes on.
pub data Pass : Type 0 where
  leave : Orchestrator → Pass
  raise : Raised → Orchestrator → Pass
  again : Orchestrator → Pass

-- With nothing ready: a stalled workflow leaves the loop, any other sleeps.
unfoldable pub wait_or_leave : Option Bool → Orchestrator → Pass
wait_or_leave none o = raise (other_error "RecursionError") o
wait_or_leave (some true) o = leave o
wait_or_leave (some false) o = again o

module _ (w : World) where
  -- _check_wall_time
  unfoldable pub check_time : Orchestrator → Option BudgetExceeded
  check_time o = check_wall_time (w.clock o.calls - o.start_time) o.budget

  -- The branch of a set cancel event.
  unfoldable pub cancel_run : String → Orchestrator → Orchestrator
  unfolding skip_open map_tasks save change_workflow completed_event
  cancel_run wid o =
      let mark = λ (x : Workflow). record x {
        status = WorkflowStatus.cancelled;
        completed_at = some (w.clock o.calls);
      } in
      completed_event wid WorkflowStatus.cancelled
        (save (change_workflow wid mark (map_tasks (skip_open wid) o)))

  -- The round for tasks that are ready.
  unfoldable pub run_round : String → List Task → Orchestrator → Pass
  unfolding gather end_round first_budget
  run_round wid ts o =
      let (o1, es) = gather w ts o in
      elim (first_budget es) [
        | some x ↦ raise (budget_exceeded x) o1
        | none ↦ again (end_round wid o1)
      ]

  -- Behind the breaker.
  unfoldable pub pick_tasks : ℕ → String → Orchestrator → Pass
  unfolding run_round wait_or_leave
  pick_tasks depth wid o = elim (get_ready_tasks o.state wid) [
    | [] ↦ wait_or_leave (is_workflow_stalled depth o.state wid) o
    | t ∷ ts ↦ run_round wid (t ∷ ts) o
  ]

  -- One pass through the body of the `while` loop.
  unfoldable pub pass : ℕ → String → Orchestrator → Pass
  unfolding check_time cancel_run stop_run pick_tasks next_call
  pass depth wid o = elim (check_time o) [
    | some x ↦ raise (budget_exceeded x) o
    | none ↦ elim (w.cancelled o.calls) [
      | true ↦ leave (cancel_run wid o)
      | false ↦
          let (b, go) = can_proceed (w.clock o.calls) o.breaker in
          let o1 = next_call (record o { breaker = b }) in
          elim go [ false ↦ leave (stop_run wid o1) | true ↦ pick_tasks depth wid o1 ]
    ]
  ]

  -- _execute_workflow; `none`: the loop still runs after so many passes.
  unfoldable pub execute_workflow : ℕ → ℕ → String → Orchestrator → Option Step
  unfolding pass
  execute_workflow zero depth wid o = none
  execute_workflow (suc fuel) depth wid o = elim (is_workflow_complete o.state wid) [
    | true ↦ some (o, none)
    | false ↦ elim (pass depth wid o) [
      | leave o1 ↦ some (o1, none)
      | raise e o1 ↦ some (o1, some e)
      | again o1 ↦ execute_workflow fuel depth wid o1
    ]
  ]
