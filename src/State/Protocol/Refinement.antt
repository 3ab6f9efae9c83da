-- ===== src/State/Protocol/Refinement.antt =====
-- src/rooben/state/filesystem.py implements src/rooben/state/protocol.py.
use rooben.Prelude.{String, ◌≡◌, refl, inl, inr, List, Option-cases}
use rooben.State.Filesystem.{Disk, save_state, load_state, update_task, update_workflow}
use rooben.State.Filesystem.Laws.{load_state-save_state}
use rooben.State.Protocol.{
  StateBackend, Write, saved, task_updated, workflow_updated, promise, restore, store, promise_all,
  write, write_all, IsLawful, load-write_all,
}

-- FilesystemBackend
abbrev pub filesystem : StateBackend Disk
filesystem = record {
  save_state = save_state;
  load_state = load_state;
  update_task = update_task;
  update_workflow = update_workflow;
}

write-promise :
    (w : Write) (d : Disk) (wid : String)
    → load_state wid (write filesystem w d) ≡ promise w (λ k. load_state k d) wid
unfolding promise restore store write update_task update_workflow
write-promise (saved s) d wid = load_state-save_state s d wid
write-promise (task_updated t) d wid = elim (Option-cases (load_state t.workflow_id d)) [
  | inl absent ↦ rw (write, update_task, promise, restore, absent) refl
  | inr (s, there) ↦
      rw (write, update_task, promise, restore, there) (load_state-save_state _ d wid)
]
write-promise (workflow_updated x) d wid = elim (Option-cases (load_state x.id d)) [
  | inl absent ↦ rw (write, update_workflow, promise, restore, absent) refl
  | inr (s, there) ↦
      rw (write, update_workflow, promise, restore, there) (load_state-save_state _ d wid)
]

filesystem-IsLawful : IsLawful filesystem
filesystem-IsLawful = record { keeps = write-promise }

-- Whatever states were saved and tasks and workflows updated, one after the other, a load of the
-- filesystem backend gives what the abstract store gives that the same calls have changed.
pub filesystem-refines :
    (ws : List Write) (disk : Disk) (wid : String)
    → load_state wid (write_all filesystem ws disk) ≡ promise_all ws (λ k. load_state k disk) wid
filesystem-refines ws disk wid = load-write_all filesystem filesystem-IsLawful ws disk wid
