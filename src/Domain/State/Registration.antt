-- ===== src/Domain/State/Registration.antt =====
-- The deduplication that `register_task` of src/rooben/domain.py does.
use rooben.Prelude.{String, ◌≡◌, refl, none, eq_refl, Bool-cases, inl, inr}
use rooben.Dict.{has}
use rooben.Dict.Keyed.{has-put}
use rooben.Domain.Models.{Task, WorkflowState}
use rooben.Domain.State.{register_task}

module _ (content_hash : Task → String) where
  -- Once a task was offered, any task with the same hash is refused and leaves the state as it is.
  register_task_twice :
      (s : WorkflowState) (t u : Task)
      → content_hash u ≡ content_hash t
      → register_task content_hash (register_task content_hash s t).0 u
        ≡ ((register_task content_hash s t).0, none)
  unfolding register_task
  register_task_twice s t u same = elim (Bool-cases (has s.task_hashes (content_hash t))) [
    | inl known ↦ rw (known, same) (rw known refl)
    | inr unknown ↦ rw (unknown, same) (rw (has-put, eq_refl))
  ]
