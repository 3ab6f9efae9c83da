-- ===== src/Planning/Planner/Run.antt =====
-- src/rooben/orchestrator.py, `run`, from the call of the planner to its end.
use rooben.Prelude.{
  ℕ, suc, ◌≡◌, refl, ◌∙◌, ap, subst, true, Bool, String, Option, none, some, arith, All-at, ◌++◌,
  [], eq_refl,
}
use rooben.Dict.{get, values}
use rooben.Dict.Keyed.{has-get}
use rooben.Domain.Status.{WorkflowStatus}
use rooben.Domain.Models.{Workflow, WorkflowState}
use rooben.Planning.Checker.Plan.{check-IsReady}
use rooben.Planning.Draft.{SpecView}
use rooben.Planning.Draft.Invariant.{IsNew}
use rooben.Planning.Planner.{
  PlanWorld, PlanQuality, PlanOutcome, planned, planning_failed, planner_raised, LlmPlanner,
  Planning, plan,
}
use rooben.Planning.Planner.Outcome.{IsAccepted}
use rooben.Planning.Planner.Ends.{plan-IsAccepted, plan-ends}
use rooben.Orchestrator.Core.{
  World, Orchestrator, Reply, returned, Raised, budget_exceeded, other_error,
}
use rooben.Orchestrator.TaskSteps.{Step}
use rooben.Orchestrator.Loop.{execute_workflow}
use rooben.Orchestrator.Loop.Counted.{execute_workflow-IsCounted}
use rooben.Orchestrator.Gather.Ready.{IsReady}
use rooben.Orchestrator.Gather.Weight.{weight}
use rooben.Orchestrator.Loop.Termination.{execute_workflow-terminates}
use rooben.Orchestrator.Gather.Counted.{IsCounted}
use rooben.Orchestrator.Execution.Raises.{IsAnswering, IsBudget}
use rooben.Orchestrator.Phases.{
  planned_phase, planning_failed_phase, plan_phase, after_planning, run, finalize_phase,
  new_workflow, fail_run, finish_run,
}
use rooben.Orchestrator.Phases.Finish.{finalize_phase_lem}
use rooben.Planning.Planner.Phase.{
  planned_phase_lem, planned_phase-IsCounted, fail_run_lem, plan_phase-planned, plan_phase-failed,
  plan_phase-raised,
}

-- How a run ends: with a planned state it has counted its tasks and raises the budget's exception at
-- most; if planning failed, it returns a state with the failed workflow alone; any other exception of
-- the planner is raised.
abbrev pub IsRunEnd : String → PlanOutcome → Step → Type 0
IsRunEnd wid (planned s) step = IsBudget step.1 × IsCounted wid step.0
IsRunEnd wid (planning_failed c j q) step =
    (step.1 ≡ none)
    × (step.0.state.tasks ≡ [])
    × (x : Workflow) × (get step.0.state.workflows wid ≡ some x)
    × (x.status ≡ WorkflowStatus.failed)
IsRunEnd wid (planner_raised e) step = step.1 ≡ some (other_error e)

module _ (w : World) (wid : String) where
  finish_run-IsCounted :
      (o : Orchestrator) (e : Option Raised)
      → IsBudget e
      → IsCounted wid o
      → (step : Step) × (finish_run w wid (some (o, e)) ≡ some step)
        × (IsBudget step.1 × IsCounted wid step.0)
  unfolding finish_run
  finish_run-IsCounted o none b h =
      let (found, tasks, diagnosed) = finalize_phase_lem w wid o h.workflow h.found in
      (
        ((finalize_phase w wid o).0, none),
        rw (finish_run, diagnosed) refl,
        (
          (λ m c. cc),
          record {
            workflow = _;
            found = found;
            passes = rw tasks h.passes;
            failures = rw tasks h.failures;
          },
        ),
      )
  finish_run-IsCounted o (some (budget_exceeded x)) b h =
      let (found, tasks) = fail_run_lem wid o h.workflow h.found in
      (
        (fail_run wid o, some (budget_exceeded x)),
        refl,
        (
          (λ m c. cc),
          record {
            workflow = _;
            found = found;
            passes = rw tasks h.passes;
            failures = rw tasks h.failures;
          },
        ),
      )
  finish_run-IsCounted o (some (other_error m)) b h = absurd (b m refl)

  loop-finishes :
      (fuel depth : ℕ) (o : Orchestrator) (step final : Step)
      → execute_workflow w fuel depth wid o ≡ some step
      → finish_run w wid (some step) ≡ some final
      → after_planning w fuel depth wid (o, returned true) ≡ some final
  unfolding after_planning
  loop-finishes fuel depth o step final returns finishes = ap (finish_run w wid) returns ∙ finishes

  -- The run from a state that is ready.
  phase-runs :
      (x : Orchestrator × Reply Bool) (o : Orchestrator)
      → IsAnswering w
      → x ≡ (o, returned true)
      → (rank : String → ℕ) × (depth : ℕ) × IsReady wid rank depth o
      → IsCounted wid o
      → (fuel : ℕ) × (depth : ℕ) × (step : Step) × (after_planning w fuel depth wid x ≡ some step)
        × (IsBudget step.1 × IsCounted wid step.0)
  phase-runs x o answers phase (rank, depth, ready) counted =
      let fuel = suc (weight o) in
      let (step, returns, kept) =
        execute_workflow-IsCounted wid w rank depth fuel o answers ready counted (omega arith) in
      let (step', returns', budget) =
        execute_workflow-terminates wid rank depth w answers fuel o ready (omega arith) in
      let same : step' ≡ step = cc (returns, returns') in
      let (final, finishes, ended) =
        finish_run-IsCounted step.0 step.1 (subst (λ y. IsBudget y.1) same budget) kept in
      (
        fuel,
        depth,
        final,
        ap (after_planning w fuel depth wid) phase
            ∙ loop-finishes fuel depth o step final returns finishes,
        ended,
      )

  module _ (models : PlanWorld) (spec : SpecView) (planner : LlmPlanner) (priced : Bool) where
    -- The run behind a plan that was accepted.
    accepted-IsRunEnd :
        (r : Planning) (s : WorkflowState) (q : PlanQuality) (now : ℕ) (o : Orchestrator)
        → IsAnswering w
        → IsAccepted models spec wid s q
        → r.outcome ≡ planned s
        → (fuel : ℕ) × (depth : ℕ) × (step : Step) × (after_planning w fuel depth wid
              (plan_phase r priced spec.id wid now o)
            ≡ some step)
          × IsRunEnd wid (planned s) step
    accepted-IsRunEnd r s q now o answers h outcome =
        let o1 = record o { events = o.events ++ r.session.events } in
        let o2 = (planned_phase r.planner priced wid s o1).0 in
        let f = h.fresh in
        let (goes_on, tasks, there) =
          planned_phase_lem r.planner priced wid s f.workflow o1 f.there in
        phase-runs (plan_phase r priced spec.id wid now o) o2 answers
          (plan_phase-planned r priced spec.id wid now s o outcome ∙ ap (λ b. (o2, b)) goes_on)
          (check-IsReady models.heuristics spec.agents s wid f.keyed
            (λ t m. (All-at (IsNew wid) (values s.tasks) f.fresh m).0) o2 q.checker tasks
            (λ t m. (All-at (IsNew wid) (values s.tasks) f.fresh m).1)
            (has-get o2.state.workflows wid there) h.checked h.valid)
          (planned_phase-IsCounted r.planner priced wid s o1 f)

    planned-IsRunEnd :
        (r : Planning) (x : PlanOutcome) (now : ℕ) (o : Orchestrator)
        → IsAnswering w
        → plan models spec wid planner ≡ some r
        → r.outcome ≡ x
        → (fuel : ℕ) × (depth : ℕ) × (step : Step) × (after_planning w fuel depth wid
              (plan_phase r priced spec.id wid now o)
            ≡ some step)
          × IsRunEnd wid x step
    unfolding after_planning planning_failed_phase get
    planned-IsRunEnd r (planned s) now o answers e outcome =
        let (q, kept, h) = plan-IsAccepted models spec wid planner r s e outcome in
        accepted-IsRunEnd r s q now o answers h outcome
    planned-IsRunEnd r (planning_failed c j q) now o answers e outcome =
        let o1 = record o { events = o.events ++ r.session.events } in
        (
          0,
          0,
          (planning_failed_phase spec.id wid (now) o1, none),
          ap (after_planning w 0 0 wid)
              (plan_phase-failed r priced spec.id wid now c j q o outcome),
          (
            refl,
            refl,
            new_workflow (now) wid spec.id WorkflowStatus.failed,
            ground (arith, eq_refl wid),
            refl,
          ),
        )
    planned-IsRunEnd r (planner_raised x) now o answers e outcome =
        let o1 = record o { events = o.events ++ r.session.events } in
        (
          0,
          0,
          (o1, some (other_error x)),
          ap (after_planning w 0 0 wid) (plan_phase-raised r priced spec.id wid now x o outcome),
          refl,
        )

    -- Whatever the models answer to the planner, in a world in which agents and verifiers answer, the
    -- planner ends and `run` ends, for some fuel and depth. If the planner returned a state, the
    -- workflow has counted each passed task once and no more failures than there are failed tasks, and
    -- no exception but the budget's is raised; if it raised `PlanningFailed`, `run` returns a state
    -- without tasks in which the workflow is FAILED; any other exception of the planner leaves `run`.
    pub run-IsRunEnd :
        (o : Orchestrator)
        → IsAnswering w
        → (r : Planning) × (plan models spec wid planner ≡ some r)
          × (fuel : ℕ) × (depth : ℕ) × (step : Step) × (run w models spec planner priced fuel depth
                wid o
              ≡ some step)
          × IsRunEnd wid r.outcome step
    unfolding run
    run-IsRunEnd o answers =
        let (r, e, plans, calls) = plan-ends models spec wid planner in
        let (fuel, depth, step, runs, end) =
          planned-IsRunEnd r r.outcome (w.clock o.calls) (record o { start_time = w.clock o.calls })
            answers e refl in
        (r, e, fuel, depth, step, rw (run, e) runs, end)
