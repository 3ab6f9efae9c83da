-- ===== src/Examples/Execution.antt =====
-- The theorems on the execution loop, at the sample workflow.
use rooben.Prelude.{
  ◌<◌, ◌≤◌, ◌+◌, ◌≡◌, refl, Bool, true, false, some, [], ◌∷◌, arith, cond, Memᴰ, mem-cons_cases,
  inl, inr, ◌⊎◌, str_eq, eq_iff, All, subst, Bool-cases,
}
use rooben.Dict.{get, has, values}
use rooben.Domain.Status.{TaskStatus, WorkflowStatus, is_pending, is_passed, is_failed}
use rooben.Domain.Models.{Task, Workflow}
use rooben.Domain.State.{
  get_ready_tasks, is_workflow_stalled, is_workflow_failed, is_workflow_complete, tasks_of,
  pending_tasks,
}
use rooben.Domain.State.Blocked.{Verdict, IsRanked}
use rooben.Domain.State.Stalled.{IsSound, IsStalled, is_workflow_stalled-decides}
use rooben.Domain.State.Progress.{IsQuiet, stalled_of_none_ready, ready_of_stalled}
use rooben.Orchestrator.TaskSteps.{Step}
use rooben.Orchestrator.Updates.{update_task}
use rooben.Orchestrator.Execution.{queued, advance}
use rooben.Orchestrator.Execution.Raises.{IsAnswering, IsBudget}
use rooben.Orchestrator.Execution.Effects.{Moves}
use rooben.Orchestrator.Execution.Moves.{advance-Advances}
use rooben.Orchestrator.Loop.{cancel_run, execute_workflow}
use rooben.Orchestrator.Gather.{gather, first_budget}
use rooben.Orchestrator.Gather.Weight.{weight, starts_left}
use rooben.Orchestrator.Gather.Ready.{IsReady, AreWaiting, weight-gather, gather-IsReady}
use rooben.Orchestrator.Loop.Termination.{execute_workflow-terminates}
use rooben.Orchestrator.Gather.Counted.{IsCounted}
use rooben.Orchestrator.Loop.Counted.{execute_workflow-IsCounted}
use rooben.Orchestrator.Phases.{finalize_phase}
use rooben.Orchestrator.Phases.Finish.{finalize_phase-cancel_run}
use rooben.Samples.{task, workflow, state_with, orchestrator, world, rank}

sample-IsRanked : (status : TaskStatus) → IsRanked rank (state_with status).tasks
unfolding get
sample-IsRanked status id t e = elim (Bool-cases (str_eq "a" id)) [
  | inl first ↦
      let same : task "a" [] status ≡ t = ground arith in
      subst (λ (u : Task). All (λ d. rank d < rank id) u.depends_on) same tt
  | inr other ↦ elim (Bool-cases (str_eq "b" id)) [
    | inl second ↦
        let same : task "b" ("a" ∷ []) TaskStatus.pending ≡ t = ground arith in
        let at_b : "b" ≡ id = (eq_iff "b" id).0 second in
        subst (λ (u : Task). All (λ d. rank d < rank id) u.depends_on) same
          (subst (λ i. All (λ d. rank d < rank i) ("a" ∷ [])) at_b (omega arith, tt))
    | inr neither ↦ absurd (ground arith)
  ]
]

sample-IsSound : (status : TaskStatus) → IsSound (state_with status) rank 2
unfolding values has
sample-IsSound status = record {
  keyed = (refl, refl, (refl, refl, tt));
  ranked = sample-IsRanked status;
  fuelled = λ t m. elim (mem-cons_cases m) [
    | inl first ↦ rw first (omega arith)
    | inr rest ↦ elim (mem-cons_cases rest) [
      | inl second ↦ rw second (omega arith)
      | inr more ↦ elim more [ ]
    ]
  ];
}

is_workflow_stalled-decides_example :
    (b : Bool) × (is_workflow_stalled 2 (state_with TaskStatus.failed) "wf" ≡ some b)
    × Verdict b (IsStalled (state_with TaskStatus.failed) "wf")
is_workflow_stalled-decides_example =
    is_workflow_stalled-decides (state_with TaskStatus.failed) "wf" rank 2
      (sample-IsSound TaskStatus.failed)

sample-IsQuiet :
    (status : TaskStatus)
    → (is_pending status ≡ true) ⊎ (is_passed status ≡ true) ⊎ (is_failed status ≡ true)
    → (t : Task) → Memᴰ t (values (state_with status).tasks)
    → IsQuiet "wf" t
unfolding values is_pending
sample-IsQuiet status settled t m = elim (mem-cons_cases m) [
  | inl first ↦ rw first (record { own = refl; settled = settled })
  | inr rest ↦ elim (mem-cons_cases rest) [
    | inl second ↦ rw second (record { own = refl; settled = inl refl })
    | inr more ↦ elim more [ ]
  ]
]

-- "a" has failed, so that "b" is neither ready nor over.
stalled_of_none_ready_example :
    is_workflow_stalled 2 (state_with TaskStatus.failed) "wf" ≡ some true
unfolding is_workflow_complete get_ready_tasks values is_failed
stalled_of_none_ready_example =
    stalled_of_none_ready (state_with TaskStatus.failed) "wf" rank 2
      (sample-IsSound TaskStatus.failed) (sample-IsQuiet TaskStatus.failed (inr (inr refl))) refl
      refl (λ e. cc) refl

sample-IsReady : IsReady "wf" rank 2 (orchestrator TaskStatus.pending)
unfolding values has is_pending
sample-IsReady = record {
  sound = sample-IsSound TaskStatus.pending;
  quiet = sample-IsQuiet TaskStatus.pending (inl refl);
  there = refl;
  some_task = λ e. cc;
}

sample-IsAnswering : (ok : Bool) → IsAnswering (world ok)
sample-IsAnswering ok = record { agents = λ n a t. (_, refl); verifiers = λ n t r. (_, refl) }

-- A verifier that always rejects: three starts for "a", and "b" is never started.
execute_workflow-terminates_example :
    (step : Step) × (execute_workflow (world false) 7 2 "wf" (orchestrator TaskStatus.pending)
      ≡ some step)
    × IsBudget step.1
unfolding weight starts_left values is_pending
execute_workflow-terminates_example =
    execute_workflow-terminates "wf" rank 2 (world false) (sample-IsAnswering false) 7
      (orchestrator TaskStatus.pending) sample-IsReady (omega arith)

-- The queued coroutine of "a" gets to an agent: its task is in the dictionary.
advance-Advances_example :
    (t' : Task) × Moves 4 (task "a" [] TaskStatus.pending) t' (orchestrator TaskStatus.pending) (
      advance
        (world true)
        (queued (task "a" [] TaskStatus.pending))
        (orchestrator TaskStatus.pending))
unfolding get is_pending
advance-Advances_example =
    advance-Advances (world true) (queued (task "a" [] TaskStatus.pending))
      (orchestrator TaskStatus.pending) (refl, refl)

-- A round of "a" alone, with a verifier that rejects it.
sample-AreWaiting :
    AreWaiting (task "a" [] TaskStatus.pending ∷ []) (orchestrator TaskStatus.pending)
unfolding get is_pending
sample-AreWaiting t m = elim (mem-cons_cases m) [
  | inl first ↦ rw first (refl, refl)
  | inr more ↦ elim more [ ]
]

weight-gather_example :
    weight
        (gather
          (world false)
          (task "a" [] TaskStatus.pending ∷ [])
          (orchestrator TaskStatus.pending)).0
      + 1
    ≤ weight (orchestrator TaskStatus.pending)
weight-gather_example =
    weight-gather (world false) "wf" rank 2 (task "a" [] TaskStatus.pending ∷ [])
      (orchestrator TaskStatus.pending) sample-IsReady ((λ u m. elim m [ ]), tt) sample-AreWaiting

gather-IsReady_example :
    IsReady "wf" rank 2
      (gather
        (world false)
        (task "a" [] TaskStatus.pending ∷ [])
        (orchestrator TaskStatus.pending)).0
unfolding gather first_budget get advance rooben.Orchestrator.Execution.start_task
    rooben.Orchestrator.TaskSteps.begin_task update_task rooben.Orchestrator.Execution.finish_task
    rooben.Orchestrator.TaskSteps.track_tokens rooben.Security.Budget.record_tokens
    rooben.Orchestrator.Execution.settle_task rooben.Orchestrator.TaskSteps.error_of
    rooben.Orchestrator.Execution.verify_task rooben.Orchestrator.Execution.track_cost
    rooben.Orchestrator.Execution.judge_task
gather-IsReady_example =
    gather-IsReady (world false) "wf" rank 2 (task "a" [] TaskStatus.pending ∷ [])
      (orchestrator TaskStatus.pending) sample-IsReady ((λ u m. elim m [ ]), tt) sample-AreWaiting
      (sample-IsAnswering false) refl

-- A run that was cancelled before any task failed ends as COMPLETED.
finalize_phase-cancel_run_example :
    (y : Workflow) × (get
        (finalize_phase
          (world true)
          "wf"
          (cancel_run (world true) "wf" (orchestrator TaskStatus.passed))).0.state.workflows
        "wf"
      ≡ some y)
    × (y.status
        ≡ cond
            (is_workflow_failed (state_with TaskStatus.passed) "wf")
            WorkflowStatus.failed
            WorkflowStatus.completed)
unfolding get tasks_of
finalize_phase-cancel_run_example =
    finalize_phase-cancel_run (world true) "wf" (orchestrator TaskStatus.passed) workflow refl refl

-- Neither counter of the sample workflow has counted anything, and "a" is pending.
sample-IsCounted : IsCounted "wf" (orchestrator TaskStatus.pending)
unfolding get values is_passed is_failed
sample-IsCounted = record {
  workflow = workflow;
  found = refl;
  passes = refl;
  failures = omega arith;
}

execute_workflow-IsCounted_example :
    (step : Step) × (execute_workflow (world false) 7 2 "wf" (orchestrator TaskStatus.pending)
      ≡ some step)
    × IsCounted "wf" step.0
unfolding weight starts_left values is_pending
execute_workflow-IsCounted_example =
    execute_workflow-IsCounted "wf" (world false) rank 2 7 (orchestrator TaskStatus.pending)
      (sample-IsAnswering false) sample-IsReady sample-IsCounted (omega arith)

-- "a" has failed: "b" is blocked, and nothing is ready.
ready_of_stalled_example : get_ready_tasks (state_with TaskStatus.failed) "wf" ≡ []
unfolding is_workflow_stalled pending_tasks is_failed
ready_of_stalled_example =
    ready_of_stalled (state_with TaskStatus.failed) "wf" rank 2 (sample-IsSound TaskStatus.failed)
      (λ e. cc) refl
