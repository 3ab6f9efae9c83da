-- ===== src/State/Filesystem.antt =====
-- src/rooben/state/filesystem.py. The disk is a dictionary from a workflow's id to what its
-- `state.json` holds; the write to a temporary file and its rename are one step. JSON keeps every
-- field of the model but `enriched_prompt`, which is excluded from dumps.
pub mod Laws
use rooben.Prelude.{String, Option, none, some, List, [], ◌∷◌}
use rooben.Dict.{Dict, get, put, keys, map_values}
use rooben.Domain.Models.{Task, Workflow, WorkflowState}

abbrev pub Disk : Type 0
Disk = Dict WorkflowState

-- What a dump of the task keeps.
unfoldable pub dump_task : Task → Task
dump_task t = record t { enriched_prompt = none }

-- WorkflowState.model_validate(state.model_dump())
unfoldable pub dump : WorkflowState → WorkflowState
unfolding map_values dump_task
dump s = record s { tasks = map_values dump_task s.tasks }

write_each : List String → WorkflowState → Disk → Disk
unfolding put
write_each [] s disk = disk
write_each (wid ∷ wids) s disk = write_each wids s (put disk wid s)

-- FilesystemBackend.save_state: one copy of the whole state for each of its workflows.
unfoldable pub save_state : WorkflowState → Disk → Disk
unfolding keys write_each dump
save_state s disk = write_each (keys s.workflows) (dump s) disk

-- FilesystemBackend.load_state
unfoldable pub load_state : String → Disk → Option WorkflowState
unfolding get
load_state wid disk = get disk wid

-- FilesystemBackend.update_task
unfoldable pub update_task : Task → Disk → Disk
unfolding load_state save_state put
update_task t disk = elim (load_state t.workflow_id disk) [
  | none ↦ disk
  | some s ↦ save_state (record s { tasks = put s.tasks t.id t }) disk
]

-- FilesystemBackend.update_workflow
unfoldable pub update_workflow : Workflow → Disk → Disk
unfolding load_state save_state put
update_workflow w disk = elim (load_state w.id disk) [
  | none ↦ disk
  | some s ↦ save_state (record s { workflows = put s.workflows w.id w }) disk
]
