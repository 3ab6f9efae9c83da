-- ===== src/Planning/Planner/Phase.antt =====
-- The planning phase of `run` of src/rooben/orchestrator.py, for each outcome of the planner.
use rooben.Prelude.{
  ℕ, ◌≡◌, refl, ◌∙◌, sym, true, false, Bool, String, Option, some, arith, All, List, ◌++◌, [], ◌∷◌,
  count,
}
use rooben.Dict.{get, values}
use rooben.Dict.Laws.{get-put_self}
use rooben.Domain.Status.{WorkflowStatus, is_passed, is_pending}
use rooben.Domain.Models.{Task, Workflow, WorkflowState}
use rooben.Planning.Draft.Invariant.{IsFresh, IsNew}
use rooben.Planning.Planner.{
  PlanQuality, planned, planning_failed, planner_raised, LlmPlanner, Planning,
}
use rooben.Orchestrator.Core.{Orchestrator, returned, failed}
use rooben.Orchestrator.Loop.{save, change_workflow}
use rooben.Orchestrator.Gather.Counted.{IsCounted}
use rooben.Orchestrator.Phases.{
  planned_phase, planning_failed_phase, plan_phase, with_status, emit_planner_usage, fail_run,
}

none_passed :
    (wid : String) (ts : List Task) → All (IsNew wid) ts → count (λ t. is_passed t.status) ts ≡ 0
unfolding is_passed is_pending
none_passed wid [] h = refl
none_passed wid (t ∷ ts) (new, h) = ground (arith, none_passed wid ts h)

-- The state behind the planning phase.
pub planned_phase_lem :
    (p : LlmPlanner) (priced : Bool) (wid : String) (s : WorkflowState) (x : Workflow)
    (o : Orchestrator)
    → get s.workflows wid ≡ some x
    → ((planned_phase p priced wid s o).1 ≡ returned true)
      × ((planned_phase p priced wid s o).0.state.tasks ≡ s.tasks)
      × (get (planned_phase p priced wid s o).0.state.workflows wid
          ≡ some (record x { status = WorkflowStatus.in_progress }))
unfolding planned_phase change_workflow save emit_planner_usage with_status
planned_phase_lem p priced wid s x o e =
    let y = record x { status = WorkflowStatus.in_progress } in
    (ground arith, ground arith, ground (arith, get-put_self s.workflows wid y))

pub planned_phase-IsCounted :
    (p : LlmPlanner) (priced : Bool) (wid : String) (s : WorkflowState) (o : Orchestrator)
    → IsFresh wid s
    → IsCounted wid (planned_phase p priced wid s o).0
planned_phase-IsCounted p priced wid s o h =
    let (e, tasks, there) = planned_phase_lem p priced wid s h.workflow o h.there in
    record {
      workflow = record h.workflow { status = WorkflowStatus.in_progress };
      found = there;
      passes = rw tasks (h.unstarted.0 ∙ sym (none_passed wid (values s.tasks) h.fresh));
      failures = omega (arith, h.unstarted.1);
    }

-- The state that the handler of `BudgetExceeded` leaves.
pub fail_run_lem :
    (wid : String) (o : Orchestrator) (x : Workflow)
    → get o.state.workflows wid ≡ some x
    → (get (fail_run wid o).state.workflows wid
        ≡ some (record x { status = WorkflowStatus.failed }))
      × ((fail_run wid o).state.tasks ≡ o.state.tasks)
unfolding fail_run change_workflow save with_status
fail_run_lem wid o x e =
    let y = record x { status = WorkflowStatus.failed } in
    (ground (arith, get-put_self o.state.workflows wid y), ground arith)

module _ (r : Planning) (priced : Bool) (spec_id wid : String) (now : ℕ) where
  pub plan_phase-planned :
      (s : WorkflowState) (o : Orchestrator)
      → r.outcome ≡ planned s
      → plan_phase r priced spec_id wid now o
        ≡ planned_phase r.planner priced wid s (record o { events = o.events ++ r.session.events })
  unfolding plan_phase
  plan_phase-planned s o e = rw (plan_phase, e) refl

  pub plan_phase-failed :
      (c : ℕ) (j : Option ℕ) (q : PlanQuality) (o : Orchestrator)
      → r.outcome ≡ planning_failed c j q
      → plan_phase r priced spec_id wid now o ≡ (
        planning_failed_phase spec_id wid now (record o { events = o.events ++ r.session.events }),
        returned false,
      )
  unfolding plan_phase
  plan_phase-failed c j q o e = rw (plan_phase, e) refl

  pub plan_phase-raised :
      (x : String) (o : Orchestrator)
      → r.outcome ≡ planner_raised x
      → plan_phase r priced spec_id wid now o
        ≡ (record o { events = o.events ++ r.session.events }, failed x)
  unfolding plan_phase
  plan_phase-raised x o e = rw (plan_phase, e) refl
