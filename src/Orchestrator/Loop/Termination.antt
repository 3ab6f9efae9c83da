-- ===== src/Orchestrator/Loop/Termination.antt =====
-- The `while` loop of `_execute_workflow` ends.
use rooben.Prelude.{
  ℕ, zero, suc, ◌<◌, ◌≡◌, refl, subst, inl, inr, ◌⊎◌, false, none, some, String, List, ◌∷◌, arith,
  Bool-cases, Option-cases, List-cases, str_eq, ◌&&◌,
}
use rooben.Dict.{values}
use rooben.Dict.Keyed.{get-mem, IsDistinct, values-IsDistinct, keep-IsDistinct}
use rooben.Domain.Status.{is_pending}
use rooben.Domain.Models.{Task}
use rooben.Domain.State.{get_ready_tasks, tasks_of, deps_satisfied, is_workflow_complete}
use rooben.Domain.State.Stalled.{task_id, mem_pending}
use rooben.Domain.State.Progress.{mem_ready, stalled_of_none_ready}
use rooben.Resilience.CircuitBreaker.{can_proceed}
use rooben.Orchestrator.Core.{Raised, World, Orchestrator, next_call}
use rooben.Orchestrator.TaskSteps.{Step}
use rooben.Orchestrator.Execution.Raises.{IsAnswering, IsBudget}
use rooben.Orchestrator.Loop.{
  Pass, leave, raise, again, end_round, run_round, pick_tasks, check_time, pass, execute_workflow,
}
use rooben.Orchestrator.Gather.{first_budget, gather}
use rooben.Orchestrator.Gather.Weight.{weight}
use rooben.Orchestrator.Gather.Ready.{IsReady, AreWaiting, weight-gather, gather-IsReady}

pub end_round-state : (wid : String) (o : Orchestrator) → (end_round wid o).state ≡ o.state
unfolding end_round
end_round-state wid o = ground arith

pub Pass-cases :
    (p : Pass)
    → ((o : Orchestrator) × (p ≡ leave o))
      ⊎ (((e : Raised) × (o : Orchestrator) × (p ≡ raise e o))
          ⊎ ((o : Orchestrator) × (p ≡ again o)))
Pass-cases (leave o) = inl (o, refl)
Pass-cases (raise e o) = inr (inl (e, o, refl))
Pass-cases (again o) = inr (inr (o, refl))

module _ (wid : String) (rank : String → ℕ) (depth : ℕ) where
  -- The invariant is about the state alone.
  pub IsReady-state :
      (o o' : Orchestrator)
      → o'.state ≡ o.state
      → IsReady wid rank depth o
      → IsReady wid rank depth o'
  IsReady-state o o' e r = record {
    sound = rw e r.sound;
    quiet = rw e r.quiet;
    there = rw e r.there;
    some_task = rw e r.some_task;
  }

  weight-state : (o o' : Orchestrator) → o'.state ≡ o.state → weight o' ≡ weight o
  unfolding weight
  weight-state o o' e = rw e

  pub ready-IsDistinct :
      (o : Orchestrator)
      → IsReady wid rank depth o
      → IsDistinct task_id (get_ready_tasks o.state wid)
  unfolding get_ready_tasks tasks_of
  ready-IsDistinct o r =
      keep-IsDistinct task_id (λ t. is_pending t.status && deps_satisfied o.state.tasks t)
        (tasks_of o.state wid)
        (keep-IsDistinct task_id (λ t. str_eq t.workflow_id wid) (values o.state.tasks)
          (values-IsDistinct task_id o.state.tasks r.sound.keyed))

  pub ready-AreWaiting :
      (o : Orchestrator) → IsReady wid rank depth o → AreWaiting (get_ready_tasks o.state wid) o
  ready-AreWaiting o r t m =
      let (waiting, free) = mem_ready o.state wid m in
      let (listed, p) = mem_pending o.state wid waiting in
      (get-mem task_id o.state.tasks r.sound.keyed listed, p)

  module _ (w : World) (answers : IsAnswering w) where
    -- A pass that goes on keeps the invariant and uses up a start; one that ends raises nothing but the
    -- budget's exception.
    abbrev pub Advances : Orchestrator → Pass → Type 0
    Advances o (leave o') = Unit
    Advances o (raise e o') = IsBudget (some e)
    Advances o (again o') = IsReady wid rank depth o' × (weight o' < weight o)

    run_round-Advances :
        (o : Orchestrator) (t : Task) (ts : List Task)
        → IsReady wid rank depth o
        → get_ready_tasks o.state wid ≡ t ∷ ts
        → Advances o (run_round w wid (t ∷ ts) o)
    unfolding run_round
    run_round-Advances o t ts r e =
        let distinct : IsDistinct task_id (t ∷ ts) = rw e at (ready-IsDistinct o r) in
        let waits : AreWaiting (t ∷ ts) o = subst (λ l. AreWaiting l o) e (ready-AreWaiting o r) in
        let o1 = (gather w (t ∷ ts) o).0 in
        elim (Option-cases (first_budget (gather w (t ∷ ts) o).1)) [
          | inl silent ↦
              rw (silent, run_round)
                (
                  IsReady-state o1 (end_round wid o1) (end_round-state wid o1)
                      (gather-IsReady w wid rank depth (t ∷ ts) o r distinct waits answers silent),
                  omega (
                    arith,
                    weight-state o1 (end_round wid o1) (end_round-state wid o1),
                    weight-gather w wid rank depth (t ∷ ts) o r distinct waits,
                  ),
                )
          | inr (x, over) ↦ rw (over, run_round) (λ m h. cc)
        ]

    pick_tasks-Advances :
        (o : Orchestrator)
        → IsReady wid rank depth o
        → is_workflow_complete o.state wid ≡ false
        → Advances o (pick_tasks w depth wid o)
    unfolding pick_tasks
    pick_tasks-Advances o r going = elim (List-cases (get_ready_tasks o.state wid)) [
      | inl none_ready ↦
          let stalled =
            stalled_of_none_ready o.state wid rank depth r.sound r.quiet going r.there r.some_task
              none_ready in
          rw (none_ready, stalled, pick_tasks) tt
      | inr (t, ts, e) ↦ rw (e, pick_tasks) (run_round-Advances o t ts r e)
    ]

    Advances-state :
        (o o' : Orchestrator) (p : Pass) → o'.state ≡ o.state → Advances o' p → Advances o p
    Advances-state o o' (leave x) e h = tt
    Advances-state o o' (raise x y) e h = h
    Advances-state o o' (again x) e (ready, lighter) = (ready, omega (arith, weight-state o o' e))

    pub pass-Advances :
        (o : Orchestrator)
        → IsReady wid rank depth o
        → is_workflow_complete o.state wid ≡ false
        → Advances o (pass w depth wid o)
    unfolding pass next_call
    pass-Advances o r going =
        let b = (can_proceed (w.clock o.calls) o.breaker).0 in
        let o1 = next_call (record o { breaker = b }) in
        elim (Option-cases (check_time w o)) [
          | inr (x, over) ↦ rw (over, pass) (λ m h. cc)
          | inl in_time ↦ elim (Bool-cases (w.cancelled o.calls)) [
            | inl cancelled ↦ rw (in_time, cancelled, pass) tt
            | inr runs ↦ elim (Bool-cases (can_proceed (w.clock o.calls) o.breaker).1) [
              | inr shut ↦ rw (in_time, runs, shut, pass) tt
              | inl lets ↦
                  rw (in_time, runs, lets, pass)
                    (Advances-state o o1 (pick_tasks w depth wid o1) refl
                      (pick_tasks-Advances o1 (IsReady-state o o1 refl r) going))
            ]
          ]
        ]

    -- From a well-formed state, in a world in which agents and verifiers answer, the loop returns on
    -- any fuel above the number of starts that the tasks have left, in whatever order the coroutines
    -- of a round take turns, and it raises nothing but the budget's exception.
    pub execute_workflow-terminates :
        (fuel : ℕ) (o : Orchestrator)
        → IsReady wid rank depth o
        → weight o < fuel
        → (step : Step) × (execute_workflow w fuel depth wid o ≡ some step) × IsBudget step.1
    unfolding execute_workflow
    execute_workflow-terminates zero o r enough = absurd (omega arith)
    execute_workflow-terminates (suc fuel) o r enough =
        elim (Bool-cases (is_workflow_complete o.state wid)) [
          | inl complete ↦ ((o, none), rw (complete, execute_workflow) refl, λ m h. cc)
          | inr going ↦
              let further = pass-Advances o r going in
              elim (Pass-cases (pass w depth wid o)) [
                | inl (o1, e) ↦ ((o1, none), rw (going, e, execute_workflow) refl, λ m h. cc)
                | inr (inl (x, o1, e)) ↦
                    ((o1, some x), rw (going, e, execute_workflow) refl, rw e at further)
                | inr (inr (o1, e)) ↦
                    let more : Advances o (again o1) = rw e at further in
                    let (step, run, budget) =
                      execute_workflow-terminates fuel o1 more.0 (omega (arith, more.1)) in
                    (step, rw (going, e, execute_workflow) run, budget)
              ]
        ]
