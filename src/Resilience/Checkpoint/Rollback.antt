-- ===== src/Resilience/Checkpoint/Rollback.antt =====
-- What a rollback gives back, and when a checkpoint is made.
use rooben.Prelude.{
  ℕ, ◌%◌, ◌≡◌, ◌≢◌, ◌⊎◌, ◌↔◌, Option, none, false, refl, ap, true, String, some, List, [], ◌∷◌,
  ◌++◌, arith, str_eq, eq_refl, cond, ◌<◌, eq_iff, Option-cases, Bool-cases, inl, inr,
}
use rooben.Dict.{Dict, get, put, map_values}
use rooben.Dict.Laws.{get-put, get-map_values}
use rooben.Domain.Status.{TaskStatus, is_terminal}
use rooben.Domain.Models.{Task, WorkflowState}
use rooben.State.Filesystem.{Disk, dump, dump_task}
use rooben.Resilience.Checkpoint.{
  CheckpointManager, snapshots, maybe_checkpoint, force_checkpoint, reset_task, last, replace_last,
  reset_tasks, rollback,
}

last-snoc : (ss : List WorkflowState) (s : WorkflowState) → last (ss ++ s ∷ []) ≡ some s
unfolding last
last-snoc [] s = refl
last-snoc (x ∷ []) s = refl
last-snoc (x ∷ (y ∷ ss)) s = last-snoc (y ∷ ss) s

replace_last-snoc :
    (ss : List WorkflowState) (s s' : WorkflowState)
    → replace_last (ss ++ s ∷ []) s' ≡ ss ++ s' ∷ []
unfolding replace_last
replace_last-snoc [] s s' = refl
replace_last-snoc (x ∷ []) s s' = refl
replace_last-snoc (x ∷ (y ∷ ss)) s s' = ap (λ l. x ∷ l) (replace_last-snoc (y ∷ ss) s s')

snapshots-put :
    (m : CheckpointManager) (wid other : String) (ss : List WorkflowState)
    → snapshots (record m { checkpoints = put m.checkpoints wid ss }) other
      ≡ cond (str_eq wid other) ss (snapshots m other)
unfolding snapshots
snapshots-put m wid other ss = elim (Bool-cases (str_eq wid other)) [
  | inl same ↦ rw (get-put, same, snapshots)
  | inr diff ↦ rw (get-put, diff, snapshots)
]

reset_task_idem : (wid : String) (t : Task) → reset_task wid (reset_task wid t) ≡ reset_task wid t
unfolding reset_task
reset_task_idem wid t = ground arith

map_values_idem {ℓ} :
    {V : Type ℓ} (f : V → V) (same : (v : V) → f (f v) ≡ f v) (d : Dict V)
    → map_values f (map_values f d) ≡ map_values f d
unfolding map_values
map_values_idem f same [] = refl
map_values_idem f same ((k, v) ∷ d) = cc (same v, map_values_idem f same d)

reset_tasks_idem :
    (wid : String) (s : WorkflowState) → reset_tasks wid (reset_tasks wid s) ≡ reset_tasks wid s
unfolding reset_tasks
reset_tasks_idem wid s = rw (map_values_idem (reset_task wid) (reset_task_idem wid) s.tasks)

last-replace_last :
    (ss : List WorkflowState) (s : WorkflowState) {old : WorkflowState}
    → last ss ≡ some old
    → last (replace_last ss s) ≡ some s
unfolding last replace_last
last-replace_last [] s h = cc
last-replace_last (x ∷ []) s h = refl
last-replace_last (x ∷ (y ∷ [])) s h = refl
last-replace_last (x ∷ (y ∷ (z ∷ ss))) s {old} h = last-replace_last (y ∷ (z ∷ ss)) s {old = old} h

-- A second rollback gives the same state as the first.
rollback_twice :
    (wid : String) (m : CheckpointManager)
    → (rollback wid (rollback wid m).0).1 ≡ (rollback wid m).1
unfolding rollback
rollback_twice wid m = elim (Option-cases (last (snapshots m wid))) [
  | inl empty ↦ rw (empty, rollback) (rw (empty, rollback))
  | inr (s, e) ↦
      rw (e, rollback)
        (rw (snapshots-put, eq_refl, rollback)
          (rw (last-replace_last (snapshots m wid) (reset_tasks wid s) e, rollback)
            (ap some (reset_tasks_idem wid s))))
]

-- A task that a rollback gives back, against the task at the checkpoint.
abbrev pub IsRolledBack : String → Option Task → Option Task → Type 0
IsRolledBack wid none after = after ≡ none
IsRolledBack wid (some t) after =
    (t' : Task) × (after ≡ some t')
    × (t.workflow_id ≡ wid → is_terminal t.status ≡ false → t'.status ≡ TaskStatus.pending)
    × ((t.workflow_id ≢ wid) ⊎ (is_terminal t.status ≡ true) → t'.status ≡ t.status)
    × (t' ≡ record (dump_task t) { status = t'.status })

reset_task-IsRolledBack :
    (wid : String) (t : Task) → IsRolledBack wid (some t) (some (reset_task wid (dump_task t)))
unfolding reset_task dump_task
reset_task-IsRolledBack wid t = (
  reset_task wid (dump_task t),
  refl,
  λ own unended. ground (arith, eq_iff t.workflow_id wid),
  λ h. elim h [ inl foreign ↦ ground (arith, eq_iff t.workflow_id wid) | inr over ↦ ground arith ],
  ground arith,
)

reset_tasks-IsRolledBack :
    (wid : String) (s : WorkflowState) (k : String)
    → IsRolledBack wid (get s.tasks k) (get (reset_tasks wid (dump s)).tasks k)
unfolding reset_tasks dump
reset_tasks-IsRolledBack wid s k = elim (Option-cases (get s.tasks k)) [
  | inl absent ↦ rw (get-map_values, get-map_values, absent) refl
  | inr (t, e) ↦ rw (get-map_values, get-map_values, e) (reset_task-IsRolledBack wid t)
]

-- A rollback right after a checkpoint returns the state that was saved, as a dump shows it, with the
-- same task ids, and in it only the status of tasks can differ: a task of the workflow that had not
-- ended is pending, and an ended task, or one of another workflow, keeps its status.
pub rollback-force_checkpoint :
    (s : WorkflowState) (wid : String) (m : CheckpointManager) (disk : Disk)
    → (s' : WorkflowState) × ((rollback wid (force_checkpoint s wid m disk).0).1 ≡ some s')
      × ((k : String) → IsRolledBack wid (get s.tasks k) (get s'.tasks k))
      × (s' ≡ record (dump s) { tasks = s'.tasks })
unfolding rollback force_checkpoint reset_tasks
rollback-force_checkpoint s wid m disk = (
  reset_tasks wid (dump s),
  rw (snapshots-put, eq_refl, rollback) (rw (last-snoc, rollback)),
  reset_tasks-IsRolledBack wid s,
  refl,
)

-- A checkpoint is made exactly at the positive multiples of a positive interval.
maybe_checkpoint_iff :
    (s : WorkflowState) (wid : String) (completed : ℕ) (m : CheckpointManager) (disk : Disk)
    → ((maybe_checkpoint s wid completed m disk).1 ≡ true)
      ↔ ((0 < m.interval) × (0 < completed) × (completed % m.interval ≡ 0))
unfolding maybe_checkpoint
maybe_checkpoint_iff s wid completed m disk = ((λ h. ground arith), (λ h. ground arith))
