-- ===== src/Orchestrator/Updates/Frame.antt =====
-- What the writes leave alone.
use rooben.Prelude.{◌≡◌, arith}
use rooben.Dict.{put}
use rooben.Domain.Models.{Task}
use rooben.State.Filesystem
use rooben.Orchestrator.Core.{Orchestrator}
use rooben.Orchestrator.Updates.{derive_workstream_status, write_task, update_task}

-- Two orchestrators that differ in workstreams, disk and events at most.
pub record Agrees (o o' : Orchestrator) : Type 0 where
  pub same_tasks : o'.state.tasks ≡ o.state.tasks
  pub same_workflows : o'.state.workflows ≡ o.state.workflows
  pub same_budget : o'.budget ≡ o.budget
  pub same_breaker : o'.breaker ≡ o.breaker
  pub same_calls : o'.calls ≡ o.calls

derive_workstream_status-Agrees :
    (t : Task) (o : Orchestrator) → Agrees o (derive_workstream_status t o)
unfolding derive_workstream_status
derive_workstream_status-Agrees t o = ground arith

-- What `_update_task` writes: the task under its id, and nothing of the counters and limits.
pub record Writes (t : Task) (o o' : Orchestrator) : Type 0 where
  pub new_tasks : o'.state.tasks ≡ put o.state.tasks t.id t
  pub same_workflows : o'.state.workflows ≡ o.state.workflows
  pub same_budget : o'.budget ≡ o.budget
  pub same_breaker : o'.breaker ≡ o.breaker
  pub same_calls : o'.calls ≡ o.calls

pub update_task-Writes : (t : Task) (o : Orchestrator) → Writes t o (update_task t o)
unfolding update_task
update_task-Writes t o =
    let o' = write_task t o in
    let a =
      derive_workstream_status-Agrees t (record o' { disk = Filesystem.update_task t o'.disk }) in
    record {
      new_tasks = a.same_tasks;
      same_workflows = a.same_workflows;
      same_budget = a.same_budget;
      same_breaker = a.same_breaker;
      same_calls = a.same_calls;
    }
