-- ===== src/Orchestrator/Execution/Effects.antt =====
-- What one turn of a coroutine may do: the step relation that `advance` implements.
use rooben.Prelude.{
  ℕ, ◌+◌, ◌≤◌, ◌<◌, ◌≡◌, ◌⊎◌, refl, ◌∙◌, String, Bool, true, false, Option, none, some, arith,
}
use rooben.Dict.{Dict, get, put}
use rooben.Dict.Laws.{put-put}
use rooben.Domain.Status.{TaskStatus, is_pending}
use rooben.Domain.Models.{Task, TaskResult, Workflow}
use rooben.Orchestrator.Core.{Raised, Orchestrator}
use rooben.Orchestrator.Updates.{count_task}
use rooben.Orchestrator.Execution.{Coroutine, queued, waiting, executing, verifying, ended}

-- The fields that no step of a task changes.
pub record IsSameTask (t t' : Task) : Type 0 where
  pub same_id : t'.id ≡ t.id
  pub same_workflow : t'.workflow_id ≡ t.workflow_id
  pub same_workstream : t'.workstream_id ≡ t.workstream_id
  pub same_deps : t'.depends_on ≡ t.depends_on
  pub same_limit : t'.max_retries ≡ t.max_retries
  pub same_agent : t'.assigned_agent_id ≡ t.assigned_agent_id

-- The workflows with one task more in a counter of the workflow `wid`.
abbrev pub counted : Bool → String → Dict Workflow → Dict Workflow
counted lost wid ws = elim (get ws wid) [ none ↦ ws | some x ↦ put ws wid (count_task lost x) ]

-- The turns that a coroutine has left at most.
unfoldable pub turns_left : Coroutine → ℕ
turns_left (queued t) = 4
turns_left (waiting a t) = 3
turns_left (executing a t) = 2
turns_left (verifying t r) = 1
turns_left (ended id e) = 0

-- The id of the coroutine's task.
unfoldable pub task_of : Coroutine → String
task_of (queued t) = t.id
task_of (waiting a t) = t.id
task_of (executing a t) = t.id
task_of (verifying t r) = t.id
task_of (ended id e) = id

-- The task as the dictionary holds it.
abbrev pub Holds : Task → Orchestrator → Type 0
Holds t o = get o.state.tasks t.id ≡ some t

-- What the coroutine knows of its task is what the state holds, and the status fits the wait.
abbrev pub Tracks : Coroutine → Orchestrator → Type 0
Tracks (queued t) o = Holds t o × (is_pending t.status ≡ true)
Tracks (waiting a t) o = Holds t o × (is_pending t.status ≡ true)
Tracks (executing a t) o = Holds t o × (t.status ≡ TaskStatus.in_progress)
Tracks (verifying t r) o = Holds t o × (t.status ≡ TaskStatus.verifying)
Tracks (ended id e) o = Unit

-- The effects of a turn with `turns` left: `t` becomes `t'`, the workflows `ws` become `ws'`, and the
-- coroutine goes on as `c'`.
pub data Effect (turns : ℕ) (c' : Coroutine) (t t' : Task) (ws ws' : Dict Workflow) : Type 0 where
  refuse :
      turns ≡ 4
      → c' ≡ ended t.id none
      → t'.status ≡ TaskStatus.failed
      → t'.attempt ≡ t.attempt
      → ws' ≡ ws
      → Effect turns c' t t' ws ws'
  admit :
      (agent : String)
      → turns ≡ 4
      → c' ≡ waiting agent t'
      → t'.status ≡ t.status
      → t'.attempt ≡ t.attempt
      → ws' ≡ ws
      → Effect turns c' t t' ws ws'
  start :
      (agent : String)
      → turns ≡ 3
      → c' ≡ executing agent t'
      → t'.status ≡ TaskStatus.in_progress
      → t'.attempt ≡ t.attempt + 1
      → ws' ≡ ws
      → Effect turns c' t t' ws ws'
  verify :
      (r : TaskResult)
      → turns ≡ 2
      → c' ≡ verifying t' r
      → t'.status ≡ TaskStatus.verifying
      → t'.attempt ≡ t.attempt
      → ws' ≡ ws
      → Effect turns c' t t' ws ws'
  retry :
      (turns ≡ 1) ⊎ (turns ≡ 2)
      → c' ≡ ended t.id none
      → t'.status ≡ TaskStatus.pending
      → t.attempt < t.max_retries
      → t'.attempt ≡ t.attempt
      → ws' ≡ ws
      → Effect turns c' t t' ws ws'
  give_up :
      (turns ≡ 1) ⊎ (turns ≡ 2)
      → c' ≡ ended t.id none
      → t'.status ≡ TaskStatus.failed
      → t.max_retries ≤ t.attempt
      → t'.attempt ≡ t.attempt
      → ws' ≡ counted true t.workflow_id ws
      → Effect turns c' t t' ws ws'
  pass :
      (e : Option Raised)
      → turns ≡ 1
      → c' ≡ ended t.id e
      → t'.status ≡ TaskStatus.passed
      → t'.attempt ≡ t.attempt
      → ws' ≡ counted false t.workflow_id ws
      → Effect turns c' t t' ws ws'
  break_off :
      (e : Raised)
      → (turns ≡ 1) ⊎ (turns ≡ 2)
      → c' ≡ ended t.id (some e)
      → (t'.status ≡ TaskStatus.in_progress) ⊎ (t'.status ≡ TaskStatus.verifying)
      → t'.attempt ≡ t.attempt
      → ws' ≡ ws
      → Effect turns c' t t' ws ws'

-- A turn that wrote `t'` in the place of `t`, with one of the effects, and nothing else of the tasks.
pub record Moves (turns : ℕ) (t t' : Task) (o : Orchestrator) (move : Orchestrator × Coroutine)
    : Type 0 where
  pub same : IsSameTask t t'
  pub new_tasks : move.0.state.tasks ≡ put o.state.tasks t.id t'
  pub effect : Effect turns move.1 t t' o.state.workflows move.0.state.workflows

pub IsSameTask-refl : (t : Task) → IsSameTask t t
IsSameTask-refl t = record {
  same_id = refl;
  same_workflow = refl;
  same_workstream = refl;
  same_deps = refl;
  same_limit = refl;
  same_agent = refl;
}

IsSameTask-trans : {a b c : Task} → IsSameTask a b → IsSameTask b c → IsSameTask a c
IsSameTask-trans x y = record {
  same_id = y.same_id ∙ x.same_id;
  same_workflow = y.same_workflow ∙ x.same_workflow;
  same_workstream = y.same_workstream ∙ x.same_workstream;
  same_deps = y.same_deps ∙ x.same_deps;
  same_limit = y.same_limit ∙ x.same_limit;
  same_agent = y.same_agent ∙ x.same_agent;
}

-- The effect on the task as it was before a write that kept its attempt, in a turn after the start.
Effect-same :
    {turns : ℕ} {c' : Coroutine} {t u t' : Task} {ws ws' : Dict Workflow}
    → turns < 3
    → IsSameTask t u
    → u.attempt ≡ t.attempt
    → Effect turns c' u t' ws ws'
    → Effect turns c' t t' ws ws'
Effect-same early same att (refuse p c s a w) = absurd (omega arith)
Effect-same early same att (admit g p c s a w) = absurd (omega arith)
Effect-same early same att (start g p c s a w) = absurd (omega arith)
Effect-same early same att (verify r p c s a w) = verify r p c s (a ∙ att) w
Effect-same early same att (retry p c s lt a w) =
    retry p (rw same.same_id at c) s (omega (arith, same.same_limit)) (a ∙ att) w
Effect-same early same att (give_up p c s le a w) =
    give_up p (rw same.same_id at c) s (omega (arith, same.same_limit)) (a ∙ att)
      (rw same.same_workflow at w)
Effect-same early same att (pass e p c s a w) =
    pass e p (rw same.same_id at c) s (a ∙ att) (rw same.same_workflow at w)
Effect-same early same att (break_off e p c s a w) =
    break_off e p (rw same.same_id at c) s (a ∙ att) w

-- A turn that goes on with `u`, behind a write in the place of `t`.
pub Moves-after :
    (turns : ℕ) (t u x : Task) (o o1 : Orchestrator) {t' : Task} {move : Orchestrator × Coroutine}
    → turns < 3
    → IsSameTask t u
    → u.attempt ≡ t.attempt
    → o1.state.tasks ≡ put o.state.tasks t.id x
    → o1.state.workflows ≡ o.state.workflows
    → Moves turns u t' o1 move
    → Moves turns t t' o move
Moves-after turns t u x o o1 {t'} early same att tasks ws moves = record {
  same = IsSameTask-trans same moves.same;
  new_tasks = moves.new_tasks ∙ rw (same.same_id, tasks) (put-put o.state.tasks t.id x t');
  effect = Effect-same early same att (rw ws at moves.effect);
}

-- A turn behind steps that write neither tasks nor workflows.
pub Moves-shift :
    (turns : ℕ) (o o1 : Orchestrator) {t t' : Task} {move : Orchestrator × Coroutine}
    → o1.state ≡ o.state
    → Moves turns t t' o1 move
    → Moves turns t t' o move
Moves-shift turns o o1 e moves = record {
  same = moves.same;
  new_tasks = rw e at moves.new_tasks;
  effect = rw e at moves.effect;
}
