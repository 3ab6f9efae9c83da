-- ===== src/Resilience/Checkpoint.antt =====
-- src/rooben/resilience/checkpoint.py, over the filesystem backend. A negative interval is the
-- interval 0: both never checkpoint.
pub mod Rollback
use rooben.Prelude.{
  ℕ, ◌%◌, ◌==◌, Bool, true, false, not, ◌&&◌, ◌||◌, String, Option, none, some, List, [], ◌∷◌, ◌++◌,
  str_eq, cond,
}
use rooben.Dict.{Dict, get, put, map_values}
use rooben.Domain.Status.{TaskStatus, is_terminal}
use rooben.Domain.Models.{Task, WorkflowState}
use rooben.State.Filesystem.{Disk, dump, save_state}

pub record CheckpointManager : Type 0 where
  pub interval : ℕ
  pub checkpoints : Dict (List WorkflowState)

-- self._checkpoints.get(workflow_id, [])
unfoldable pub snapshots : CheckpointManager → String → List WorkflowState
unfolding get
snapshots m wid = elim (get m.checkpoints wid) [ none ↦ [] | some ss ↦ ss ]

-- CheckpointManager._save_checkpoint: a copy by way of a dump, and the state to the backend.
unfoldable pub save_checkpoint :
    WorkflowState → String → CheckpointManager → Disk → CheckpointManager × Disk
unfolding snapshots put dump save_state
save_checkpoint s wid m disk = (
  record m { checkpoints = put m.checkpoints wid (snapshots m wid ++ dump s ∷ []) },
  save_state s disk,
)

-- CheckpointManager.maybe_checkpoint
unfoldable pub maybe_checkpoint :
    WorkflowState → String → ℕ → CheckpointManager → Disk → (CheckpointManager × Disk) × Bool
unfolding save_checkpoint
maybe_checkpoint s wid completed m disk =
    cond (m.interval == 0 || completed == 0) ((m, disk), false)
      (cond (not (completed % m.interval == 0)) ((m, disk), false)
        (save_checkpoint s wid m disk, true))

-- CheckpointManager.force_checkpoint
unfoldable pub force_checkpoint :
    WorkflowState → String → CheckpointManager → Disk → CheckpointManager × Disk
unfolding save_checkpoint
force_checkpoint s wid m disk = save_checkpoint s wid m disk

-- One task of the loop in `rollback`.
unfoldable pub reset_task : String → Task → Task
unfolding is_terminal
reset_task wid t =
    cond (str_eq t.workflow_id wid && not (is_terminal t.status))
      (record t { status = TaskStatus.pending }) t

unfoldable pub last : List WorkflowState → Option WorkflowState
last [] = none
last (s ∷ []) = some s
last (s ∷ (s' ∷ ss)) = last (s' ∷ ss)

replace_last : List WorkflowState → WorkflowState → List WorkflowState
replace_last [] s = []
replace_last (x ∷ []) s = s ∷ []
replace_last (x ∷ (y ∷ ss)) s = x ∷ replace_last (y ∷ ss) s

unfoldable pub reset_tasks : String → WorkflowState → WorkflowState
unfolding reset_task map_values
reset_tasks wid s = record s { tasks = map_values (reset_task wid) s.tasks }

-- CheckpointManager.rollback. The snapshot is changed in place and handed out, so the manager keeps
-- the changed one.
unfoldable pub rollback : String → CheckpointManager → CheckpointManager × Option WorkflowState
unfolding snapshots last replace_last reset_tasks put
rollback wid m = elim (last (snapshots m wid)) [
  | none ↦ (m, none)
  | some s ↦ (
    record m {
      checkpoints = put m.checkpoints wid (replace_last (snapshots m wid) (reset_tasks wid s));
    },
    some (reset_tasks wid s),
  )
]
