-- ===== src/State/Filesystem/Laws.antt =====
-- What a later load sees of the writes.
use mathlib.Core.Option
use rooben.Prelude.{String, ◌≡◌, refl, true, some, List, [], ◌∷◌, arith, str_eq, cond, any}
use rooben.Dict.{Dict, get, has, put, keys}
use rooben.Dict.Laws.{get-put, get-map_values}
use rooben.Domain.Models.{Task, WorkflowState}
use rooben.State.Filesystem.{Disk, dump_task, dump, write_each, save_state, load_state, update_task}

get-write_each :
    (wids : List String) (s : WorkflowState) (disk : Disk) (wid : String)
    → get (write_each wids s disk) wid ≡ cond (any (λ w. str_eq w wid) wids) (some s) (get disk wid)
unfolding write_each
get-write_each [] s disk wid = refl
get-write_each (w ∷ ws) s disk wid =
    ground (arith, get-write_each ws s (put disk w s) wid, get-put disk w wid s)

any-keys {ℓ} : {V : Type ℓ} (d : Dict V) (k : String) → any (λ w. str_eq w k) (keys d) ≡ has d k
unfolding keys has
any-keys [] k = refl
any-keys ((i, v) ∷ d) k = ground (arith, any-keys d k)

-- A load returns the last state that was saved under one of its workflows, as a dump shows it; the
-- files of other workflows keep what they held.
pub load_state-save_state :
    (s : WorkflowState) (disk : Disk) (wid : String)
    → load_state wid (save_state s disk)
      ≡ cond (has s.workflows wid) (some (dump s)) (load_state wid disk)
unfolding load_state save_state
load_state-save_state s disk wid = rw (get-write_each, any-keys s.workflows wid)

dump_task_idem : (t : Task) → dump_task (dump_task t) ≡ dump_task t
unfolding dump_task
dump_task_idem t = refl

-- What `update_task` leaves in the file of the task's workflow.
load_state-update_task :
    (t : Task) (disk : Disk) {s : WorkflowState}
    → load_state t.workflow_id disk ≡ some s
    → has s.workflows t.workflow_id ≡ true
    → load_state t.workflow_id (update_task t disk)
      ≡ some (dump (record s { tasks = put s.tasks t.id t }))
unfolding update_task
load_state-update_task t disk {s} e there = rw (e, update_task) (rw (load_state-save_state, there))

-- The stored state after an update shows the new task under its id, and the other tasks as before.
pub task_of-update_task :
    (t : Task) (disk : Disk) (k : String) {s : WorkflowState}
    → load_state t.workflow_id disk ≡ some s
    → has s.workflows t.workflow_id ≡ true
    → (s' : WorkflowState) × (load_state t.workflow_id (update_task t disk) ≡ some s')
      × (get s'.tasks k ≡ Option.map dump_task (cond (str_eq t.id k) (some t) (get s.tasks k)))
unfolding dump
task_of-update_task t disk k {s} e there = (
  dump (record s { tasks = put s.tasks t.id t }),
  load_state-update_task t disk e there,
  rw (get-map_values, get-put),
)
