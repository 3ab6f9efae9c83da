-- ===== src/Orchestrator/Updates.antt =====
-- src/rooben/orchestrator.py, "State helpers": the writes of a task, of its workstream's status and
-- of the workflow's counters.
pub mod Frame
pub mod Workstreams
use rooben.Prelude.{
  ℕ, ◌+◌, Bool, true, false, not, ◌&&◌, ◌||◌, String, Option, none, some, List, [], ◌∷◌, any, all,
  cond, is_empty, if◌then◌else◌,
}
use rooben.Dict.{Dict, get, put}
use rooben.Domain.Status.{
  TaskStatus, WorkstreamStatus, is_passed, is_failed, is_cancelled, is_in_progress, is_verifying,
  is_terminal, same_workstream_status,
}
use rooben.Domain.Models.{Task, Workstream, Workflow, WorkflowState, text_truthy}
use rooben.State.Filesystem
use rooben.State.Filesystem.{save_state, update_workflow}
use rooben.Orchestrator.Core.{Orchestrator}

-- [self._state.tasks[tid] for tid in ws.task_ids if tid in self._state.tasks], as statuses
unfoldable pub member_statuses : Dict Task → List String → List TaskStatus
unfolding get
member_statuses tasks [] = []
member_statuses tasks (tid ∷ tids) = elim (get tasks tid) [
  | none ↦ member_statuses tasks tids
  | some t ↦ t.status ∷ member_statuses tasks tids
]

-- The `if` chain of _derive_workstream_status, on the set of the members' statuses.
unfoldable pub derived_status : List TaskStatus → WorkstreamStatus
unfolding is_terminal is_failed is_cancelled is_passed is_in_progress is_verifying
derived_status ss =
    if all is_terminal ss
    then (if any is_failed ss
        then WorkstreamStatus.failed
        else if any is_cancelled ss && not (any is_passed ss)
        then WorkstreamStatus.cancelled
        else WorkstreamStatus.completed)
    else if any is_in_progress ss || any is_verifying ss
    then WorkstreamStatus.in_progress
    else WorkstreamStatus.pending

-- `if ws.status != new_status`: the write, and the save of the whole state.
write_status : Workstream → WorkstreamStatus → String → Orchestrator → Orchestrator
unfolding same_workstream_status put save_state
write_status ws new wsid o = cond (same_workstream_status ws.status new) o (
    let s = record o.state {
      workstreams = put o.state.workstreams wsid (record ws { status = new });
    } in
    record o { state = s; disk = save_state s o.disk })

-- The part for a workstream that is there.
derive_for : Workstream → String → Orchestrator → Orchestrator
unfolding member_statuses derived_status write_status
derive_for ws wsid o =
    let ss = member_statuses o.state.tasks ws.task_ids in
    cond (is_empty ss) o (write_status ws (derived_status ss) wsid o)

-- _derive_workstream_status
unfoldable pub derive_workstream_status : Task → Orchestrator → Orchestrator
unfolding text_truthy get derive_for
derive_workstream_status t o =
    cond (text_truthy t.workstream_id)
      (elim (get o.state.workstreams t.workstream_id) [
        | none ↦ o
        | some ws ↦ derive_for ws t.workstream_id o
      ])
      o

-- `task` is the object that the dictionary holds: a change of it shows in the state at once.
unfoldable pub write_task : Task → Orchestrator → Orchestrator
unfolding put
write_task t o = record o { state = record o.state { tasks = put o.state.tasks t.id t } }

-- _update_task
unfoldable pub update_task : Task → Orchestrator → Orchestrator
unfolding write_task derive_workstream_status Filesystem.update_task
update_task t o =
    let o' = write_task t o in
    derive_workstream_status t (record o' { disk = Filesystem.update_task t o'.disk })

-- One counter more.
unfoldable pub count_task : Bool → Workflow → Workflow
count_task true w = record w { failed_tasks = w.failed_tasks + 1 }
count_task false w = record w { completed_tasks = w.completed_tasks + 1 }

-- _update_workflow_counters
unfoldable pub update_workflow_counters : Task → Bool → Orchestrator → Orchestrator
unfolding get put count_task update_workflow
update_workflow_counters t failed o = elim (get o.state.workflows t.workflow_id) [
  | none ↦ o
  | some w ↦
      let w' = count_task failed w in
      record o {
        state = record o.state { workflows = put o.state.workflows t.workflow_id w' };
        disk = update_workflow w' o.disk;
      }
]
