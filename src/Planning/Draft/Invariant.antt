-- ===== src/Planning/Draft/Invariant.antt =====
-- What the second pass of `_build_state` keeps true.
use rooben.Prelude.{
  suc, ◌≤◌, ◌≡◌, refl, String, true, some, [], ◌∷◌, length, arith, inl, inr, All, All-at,
  All-of_each, ◌≢◌, ◌⊎◌,
}
use rooben.Dict.{Dict, get, has, put, values}
use rooben.Dict.Keyed.{IsKeyed, has-put}
use rooben.Domain.Status.{is_pending}
use rooben.Domain.Models.{Task, Workstream, Workflow, WorkflowState}
use rooben.Domain.State.Stalled.{task_id}
use rooben.Orchestrator.Core.{Reply, returned, failed}
use rooben.Planning.Draft.{Drafting}

-- A task of the workflow that waits to be started.
abbrev pub IsNew : String → Task → Type 0
IsNew wid t = (t.workflow_id ≡ wid) × (is_pending t.status ≡ true)

-- The workstream names tasks of the dictionary alone.
abbrev pub IsListed : Dict Task → Workstream → Type 0
IsListed tasks ws = All (λ k. has tasks k ≡ true) ws.task_ids

-- What the second pass keeps true.
pub record IsDraft (wid : String) (b : Drafting) : Type 0 where
  pub keyed : IsKeyed task_id b.state.tasks
  pub fresh : All (IsNew wid) (values b.state.tasks)
  pub counted : length (values b.state.tasks) ≤ b.workflow.total_tasks
  pub listed : All (IsListed b.state.tasks) (values b.state.workstreams)
  pub current : IsListed b.state.tasks b.workstream
  pub unstarted : (b.workflow.completed_tasks ≡ 0) × (b.workflow.failed_tasks ≡ 0)

-- A planned state: its tasks stand under their ids, belong to the workflow and are pending; the
-- workstreams name tasks of the state; the workflow is there, counts at least as many tasks, and has
-- counted no end of a task.
pub record IsFresh (wid : String) (s : WorkflowState) : Type 0 where
  pub keyed : IsKeyed task_id s.tasks
  pub fresh : All (IsNew wid) (values s.tasks)
  pub listed : All (IsListed s.tasks) (values s.workstreams)
  pub workflow : Workflow
  pub there : get s.workflows wid ≡ some workflow
  pub counted : length (values s.tasks) ≤ workflow.total_tasks
  pub unstarted : (workflow.completed_tasks ≡ 0) × (workflow.failed_tasks ≡ 0)

pub length-values-put :
    {V : Type 0} (d : Dict V) (k : String) (v : V)
    → length (values (put d k v)) ≤ suc (length (values d))
unfolding values put
length-values-put [] k v = omega arith
length-values-put ((i, w) ∷ d) k v = ground (arith, length-values-put d k v)

pub IsListed-put :
    (d : Dict Task) (k : String) (t : Task) (ws : Workstream)
    → IsListed d ws
    → IsListed (put d k t) ws
IsListed-put d k t ws h =
    All-of_each (λ j. has (put d k t) j ≡ true) ws.task_ids
      (λ j m. ground (arith, has-put d k j t, All-at (λ i. has d i ≡ true) ws.task_ids h m))

pub Reply-cases :
    {A : Type 0} (r : Reply A) → ((e : String) × (r ≡ failed e)) ⊎ ((a : A) × (r ≡ returned a))
Reply-cases (failed e) = inl (e, refl)
Reply-cases (returned a) = inr (a, refl)

pub failed-ne_returned : {A : Type 0} (e : String) (a : A) → failed e ≢ returned a
failed-ne_returned e a h = cc

pub returned-inj : {A : Type 0} (a b : A) → returned a ≡ returned b → a ≡ b
returned-inj a b h = cc
