-- ===== src/Orchestrator/Loop/Counted.antt =====
-- The counters of a workflow at the end of its loop.
use rooben.Prelude.{
  ℕ, zero, suc, ◌≤◌, ◌<◌, ◌≡◌, refl, sym, ◌∙◌, subst, Bool, true, false, Option, none, some, String,
  List, [], ◌∷◌, arith, count, inl, inr, Bool-cases, Option-cases, List-cases,
}
use rooben.Dict.{Dict, values, map_values}
use rooben.Dict.Laws.{get-put_self}
use rooben.Domain.Status.{WorkflowStatus, is_passed, is_failed, is_terminal}
use rooben.Domain.Models.{Task}
use rooben.Domain.State.{get_ready_tasks, is_workflow_complete, is_workflow_stalled}
use rooben.Domain.State.Stalled.{task_id}
use rooben.Dict.Keyed.{IsDistinct}
use rooben.Resilience.CircuitBreaker.{can_proceed}
use rooben.Orchestrator.Core.{World, Orchestrator, next_call}
use rooben.Orchestrator.TaskSteps.{Step}
use rooben.Orchestrator.Execution.Raises.{IsAnswering}
use rooben.Orchestrator.Gather.{first_budget, gather}
use rooben.Orchestrator.Gather.Weight.{weight}
use rooben.Orchestrator.Gather.Ready.{IsReady, AreWaiting}
use rooben.Orchestrator.Gather.Counted.{IsCounted, gather-IsCounted}
use rooben.Orchestrator.Loop.{
  Pass, leave, raise, again, is_open, skip_open, fail_open, map_tasks, save, change_workflow,
  completed_event, cancel_run, stop_run, run_round, end_round, wait_or_leave, pick_tasks,
  check_time, pass, execute_workflow,
}
use rooben.Orchestrator.Loop.Termination.{
  IsReady-state, end_round-state, Pass-cases, ready-IsDistinct, ready-AreWaiting, Advances,
  pass-Advances, execute_workflow-terminates,
}

count-map_values :
    (p : Task → Bool) (f : Task → Task)
    → ((t : Task) → p (f t) ≡ p t)
    → (d : Dict Task) → count p (values (map_values f d)) ≡ count p (values d)
unfolding values map_values
count-map_values p f same [] = refl
count-map_values p f same ((k, t) ∷ d) = rw (same t, count-map_values p f same d) refl

count-le-map_values :
    (p : Task → Bool) (f : Task → Task)
    → ((t : Task) → p t ≡ true → p (f t) ≡ true)
    → (d : Dict Task) → count p (values d) ≤ count p (values (map_values f d))
unfolding values map_values
count-le-map_values p f more [] = omega arith
count-le-map_values p f more ((k, t) ∷ d) = ground (arith, more t, count-le-map_values p f more d)

module _ (wid : String) where
  skip_open-is_passed : (t : Task) → is_passed (skip_open wid t).status ≡ is_passed t.status
  unfolding skip_open is_open is_passed is_terminal
  skip_open-is_passed t = ground arith

  fail_open-is_passed : (t : Task) → is_passed (fail_open wid t).status ≡ is_passed t.status
  unfolding fail_open is_open is_passed is_terminal
  fail_open-is_passed t = ground arith

  skip_open-is_failed : (t : Task) → is_failed (skip_open wid t).status ≡ is_failed t.status
  unfolding skip_open is_open is_failed is_terminal
  skip_open-is_failed t = ground arith

  fail_open-is_failed :
      (t : Task) → is_failed t.status ≡ true → is_failed (fail_open wid t).status ≡ true
  unfolding fail_open is_open is_failed is_terminal
  fail_open-is_failed t h = ground arith

  module _ (w : World) where
    cancel_run-IsCounted : (o : Orchestrator) → IsCounted wid o → IsCounted wid (cancel_run w wid o)
    unfolding cancel_run map_tasks change_workflow save completed_event
    cancel_run-IsCounted o h =
        let done = record h.workflow {
          status = WorkflowStatus.cancelled;
          completed_at = some (w.clock o.calls);
        } in
        let found = h.found in
        let tasks : (cancel_run w wid o).state.tasks ≡ map_values (skip_open wid) o.state.tasks =
          ground arith in
        record {
          workflow = done;
          found = ground (arith, get-put_self o.state.workflows wid done);
          passes =
              h.passes
              ∙ rw
                  (
                    tasks,
                    count-map_values (λ (t : Task). is_passed t.status) (skip_open wid)
                        skip_open-is_passed o.state.tasks,
                  )
                  refl;
          failures =
              rw
                (
                  tasks,
                  count-map_values (λ (t : Task). is_failed t.status) (skip_open wid)
                      skip_open-is_failed o.state.tasks,
                )
                h.failures;
        }

    stop_run-IsCounted : (o : Orchestrator) → IsCounted wid o → IsCounted wid (stop_run wid o)
    unfolding stop_run map_tasks
    stop_run-IsCounted o h = record {
      workflow = h.workflow;
      found = h.found;
      passes =
          h.passes
          ∙ sym (
              count-map_values (λ (t : Task). is_passed t.status) (fail_open wid)
                fail_open-is_passed o.state.tasks);
      failures = omega (
        arith,
        h.failures,
        count-le-map_values (λ (t : Task). is_failed t.status) (fail_open wid) fail_open-is_failed
            o.state.tasks,
      );
    }

    abbrev EndsCounted : Pass → Type 0
    EndsCounted (leave o) = IsCounted wid o
    EndsCounted (raise e o) = IsCounted wid o
    EndsCounted (again o) = IsCounted wid o

    wait_or_leave-EndsCounted :
        (b : Option Bool) (o : Orchestrator) → IsCounted wid o → EndsCounted (wait_or_leave b o)
    unfolding wait_or_leave
    wait_or_leave-EndsCounted none o h = h
    wait_or_leave-EndsCounted (some true) o h = h
    wait_or_leave-EndsCounted (some false) o h = h

    end_round-IsCounted : (o : Orchestrator) → IsCounted wid o → IsCounted wid (end_round wid o)
    end_round-IsCounted o h = rw (end_round-state wid o) h

    module _ (rank : String → ℕ) (depth : ℕ) where
      run_round-EndsCounted :
          (o : Orchestrator) (t : Task) (ts : List Task)
          → IsReady wid rank depth o
          → get_ready_tasks o.state wid ≡ t ∷ ts
          → IsCounted wid o
          → EndsCounted (run_round w wid (t ∷ ts) o)
      unfolding run_round
      run_round-EndsCounted o t ts r e h =
          let distinct : IsDistinct task_id (t ∷ ts) =
            rw e at (ready-IsDistinct wid rank depth o r) in
          let waits : AreWaiting (t ∷ ts) o =
            subst (λ l. AreWaiting l o) e (ready-AreWaiting wid rank depth o r) in
          let after = gather-IsCounted w wid rank depth (t ∷ ts) o r distinct waits h in
          elim (Option-cases (first_budget (gather w (t ∷ ts) o).1)) [
            | inl silent ↦
                rw (silent, run_round) (end_round-IsCounted (gather w (t ∷ ts) o).0 after)
            | inr (x, over) ↦ rw (over, run_round) after
          ]

      pass-EndsCounted :
          (o : Orchestrator)
          → IsReady wid rank depth o
          → IsCounted wid o
          → EndsCounted (pass w depth wid o)
      unfolding pass next_call pick_tasks
      pass-EndsCounted o r h =
          let b = (can_proceed (w.clock o.calls) o.breaker).0 in
          let o1 = next_call (record o { breaker = b }) in
          elim (Option-cases (check_time w o)) [
            | inr (x, over) ↦ rw (over, pass) h
            | inl in_time ↦ elim (Bool-cases (w.cancelled o.calls)) [
              | inl cancelled ↦ rw (in_time, cancelled, pass) (cancel_run-IsCounted o h)
              | inr runs ↦ elim (Bool-cases (can_proceed (w.clock o.calls) o.breaker).1) [
                | inr shut ↦ rw (in_time, runs, shut, pass) (stop_run-IsCounted o1 h)
                | inl lets ↦ elim (List-cases (get_ready_tasks o.state wid)) [
                  | inl none_ready ↦
                      rw (in_time, runs, lets, pass, pick_tasks, none_ready)
                        (wait_or_leave-EndsCounted (is_workflow_stalled depth o.state wid) o1 h)
                  | inr (t, ts, e) ↦
                      rw (in_time, runs, lets, pass, pick_tasks, e)
                        (run_round-EndsCounted o1 t ts (IsReady-state wid rank depth o o1 refl r) e
                          h)
                ]
              ]
            ]
          ]

      abbrev StepCounted : Option Step → Type 0
      StepCounted none = Unit
      StepCounted (some step) = IsCounted wid step.0

      execute_workflow-StepCounted :
          (fuel : ℕ) (o : Orchestrator)
          → IsAnswering w
          → IsReady wid rank depth o
          → IsCounted wid o
          → StepCounted (execute_workflow w fuel depth wid o)
      unfolding execute_workflow
      execute_workflow-StepCounted zero o answers r h = tt
      execute_workflow-StepCounted (suc fuel) o answers r h =
          elim (Bool-cases (is_workflow_complete o.state wid)) [
            | inl complete ↦ rw (complete, execute_workflow) h
            | inr going ↦
                let further = pass-Advances wid rank depth w answers o r going in
                let kept = pass-EndsCounted o r h in
                elim (Pass-cases (pass w depth wid o)) [
                  | inl (o1, e) ↦
                      let last : EndsCounted (leave o1) = rw e at kept in
                      rw (going, e, execute_workflow) last
                  | inr (inl (x, o1, e)) ↦
                      let last : EndsCounted (raise x o1) = rw e at kept in
                      rw (going, e, execute_workflow) last
                  | inr (inr (o1, e)) ↦
                      let more : Advances wid rank depth w answers o (again o1) = rw e at further in
                      let next : EndsCounted (again o1) = rw e at kept in
                      rw (going, e, execute_workflow)
                        (execute_workflow-StepCounted fuel o1 answers more.0 next)
                ]
          ]

      -- From a well-formed state in which no task is under way and the counters fit the tasks, in a
      -- world in which agents and verifiers answer, with enough fuel: the loop returns, however it
      -- ends, with a workflow that has counted each passed task once and no more failures than there
      -- are failed tasks.
      pub execute_workflow-IsCounted :
          (fuel : ℕ) (o : Orchestrator)
          → IsAnswering w
          → IsReady wid rank depth o
          → IsCounted wid o
          → weight o < fuel
          → (step : Step) × (execute_workflow w fuel depth wid o ≡ some step) × IsCounted wid step.0
      execute_workflow-IsCounted fuel o answers r h enough =
          let (step, returns, budget) =
            execute_workflow-terminates wid rank depth w answers fuel o r enough in
          let counted : StepCounted (some step) =
            rw returns at (execute_workflow-StepCounted fuel o answers r h) in
          (step, returns, counted)
