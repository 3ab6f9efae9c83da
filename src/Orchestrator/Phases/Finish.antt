-- ===== src/Orchestrator/Phases/Finish.antt =====
-- How a run ends: the status that `_finalize_phase` leaves, and what becomes of a cancelled one.
use rooben.Prelude.{
  ◌≡◌, refl, true, false, String, some, List, [], ◌∷◌, arith, cond, any, all, keep, is_empty,
  str_eq,
}
use rooben.Dict.{Dict, get, has, values, map_values}
use rooben.Dict.Laws.{get-put_self}
use rooben.Dict.Keyed.{has-get}
use rooben.Domain.Status.{WorkflowStatus, is_terminal, is_failed}
use rooben.Domain.Models.{Task, Workflow}
use rooben.Domain.State.{tasks_of, is_workflow_complete, is_workflow_failed}
use rooben.Orchestrator.Core.{World, Orchestrator}
use rooben.Orchestrator.Loop.{
  is_open, skip_open, map_tasks, save, change_workflow, completed_event, cancel_run,
}
use rooben.Orchestrator.Phases.{final_status, high_failure_rate, finalize_phase}

abbrev mine : String → Dict Task → List Task
mine wid d = keep (λ t. str_eq t.workflow_id wid) (values d)

skip_open-workflow_id : (wid : String) (t : Task) → (skip_open wid t).workflow_id ≡ t.workflow_id
unfolding skip_open
skip_open-workflow_id wid t = ground arith

skip_open-is_terminal :
    (wid : String) (t : Task)
    → str_eq t.workflow_id wid ≡ true
    → is_terminal (skip_open wid t).status ≡ true
unfolding skip_open is_open is_terminal
skip_open-is_terminal wid t here = ground arith

skip_open-is_failed :
    (wid : String) (t : Task) → is_failed (skip_open wid t).status ≡ is_failed t.status
unfolding skip_open is_open is_terminal is_failed
skip_open-is_failed wid t = ground arith

mine-is_empty :
    (wid : String) (d : Dict Task)
    → is_empty (mine wid (map_values (skip_open wid) d)) ≡ is_empty (mine wid d)
unfolding values map_values
mine-is_empty wid [] = refl
mine-is_empty wid ((k, t) ∷ d) = ground (arith, mine-is_empty wid d, skip_open-workflow_id wid t)

mine-is_terminal :
    (wid : String) (d : Dict Task)
    → all (λ t. is_terminal t.status) (mine wid (map_values (skip_open wid) d)) ≡ true
unfolding values map_values
mine-is_terminal wid [] = refl
mine-is_terminal wid ((k, t) ∷ d) =
    ground (arith, mine-is_terminal wid d, skip_open-workflow_id wid t, skip_open-is_terminal wid t)

mine-is_failed :
    (wid : String) (d : Dict Task)
    → any (λ t. is_failed t.status) (mine wid (map_values (skip_open wid) d))
      ≡ any (λ t. is_failed t.status) (mine wid d)
unfolding values map_values
mine-is_failed wid [] = refl
mine-is_failed wid ((k, t) ∷ d) =
    ground (arith, mine-is_failed wid d, skip_open-workflow_id wid t, skip_open-is_failed wid t)

completed_event-state :
    (wid : String) (st : WorkflowStatus) (o : Orchestrator)
    → (completed_event wid st o).state ≡ o.state
unfolding completed_event
completed_event-state wid st o = ground arith

module _ (w : World) where
  pub finalize_phase_lem :
      (wid : String) (o : Orchestrator) (x : Workflow)
      → get o.state.workflows wid ≡ some x
      → (get (finalize_phase w wid o).0.state.workflows wid
          ≡ some (record x {
            status = final_status o.state wid;
            completed_at = some (w.clock o.calls);
          }))
        × ((finalize_phase w wid o).0.state.tasks ≡ o.state.tasks)
        × ((finalize_phase w wid o).1 ≡ some (high_failure_rate x))
  unfolding finalize_phase change_workflow save completed_event
  finalize_phase_lem wid o x e =
      let done = record x {
        status = final_status o.state wid;
        completed_at = some (w.clock o.calls);
      } in
      (ground (arith, get-put_self o.state.workflows wid done), ground arith, ground arith)

  cancel_run_lem :
      (wid : String) (o : Orchestrator) (x : Workflow)
      → get o.state.workflows wid ≡ some x
      → (get (cancel_run w wid o).state.workflows wid
          ≡ some (record x {
            status = WorkflowStatus.cancelled;
            completed_at = some (w.clock o.calls);
          }))
        × ((cancel_run w wid o).state.tasks ≡ map_values (skip_open wid) o.state.tasks)
  unfolding cancel_run map_tasks change_workflow save completed_event
  cancel_run_lem wid o x e =
      let done = record x {
        status = WorkflowStatus.cancelled;
        completed_at = some (w.clock o.calls);
      } in
      (ground (arith, get-put_self o.state.workflows wid done), ground arith)

  cancelled-final_status :
      (wid : String) (o : Orchestrator) (x : Workflow)
      → get o.state.workflows wid ≡ some x
      → is_empty (tasks_of o.state wid) ≡ false
      → final_status (cancel_run w wid o).state wid
        ≡ cond (is_workflow_failed o.state wid) WorkflowStatus.failed WorkflowStatus.completed
  unfolding final_status is_workflow_complete is_workflow_failed tasks_of
  cancelled-final_status wid o x e inhabited =
      let left = cancel_run_lem wid o x e in
      let there : has (cancel_run w wid o).state.workflows wid ≡ true =
        has-get (cancel_run w wid o).state.workflows wid left.0 in
      let same : is_empty (mine wid (map_values (skip_open wid) o.state.tasks)) ≡ false =
        rw (mine-is_empty, inhabited) in
      rw (there, left.1, same, mine-is_terminal, mine-is_failed) (ground arith)

  -- When a workflow that has tasks is cancelled, the phase after the loop overwrites the status
  -- CANCELLED: the workflow ends as FAILED if one of its tasks had failed, and as COMPLETED if none had.
  pub finalize_phase-cancel_run :
      (wid : String) (o : Orchestrator) (x : Workflow)
      → get o.state.workflows wid ≡ some x
      → is_empty (tasks_of o.state wid) ≡ false
      → (y : Workflow) × (get (finalize_phase w wid (cancel_run w wid o)).0.state.workflows wid
          ≡ some y)
        × (y.status
            ≡ cond (is_workflow_failed o.state wid) WorkflowStatus.failed WorkflowStatus.completed)
  finalize_phase-cancel_run wid o x e inhabited =
      let left = cancel_run_lem wid o x e in
      let o1 = cancel_run w wid o in
      let x1 = record x {
        status = WorkflowStatus.cancelled;
        completed_at = some (w.clock o.calls);
      } in
      (
        record x1 { status = final_status o1.state wid; completed_at = some (w.clock o1.calls) },
        (finalize_phase_lem wid o1 x1 left.0).0,
        cancelled-final_status wid o x e inhabited,
      )
