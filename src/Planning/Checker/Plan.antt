-- ===== src/Planning/Checker/Plan.antt =====
-- What the checker's verdict means for the plan, and for the orchestrator that runs it.
use rooben.Prelude.{
  is_empty-append, ℕ, suc, ◌+◌, ◌-◌, ◌*◌, length, ◌<◌, ◌≡◌, ◌↔◌, refl, ◌∙◌, subst, ◌&&◌, String,
  true, false, Option, none, some, List, [], ◌∷◌, ◌++◌, map, all, is_empty, str_eq, eq_refl, Memᴰ,
  mem-keep, arith, inl, inr, All, All-at, Bool-cases,
}
use rooben.Dict.{has, values}
use rooben.Dict.Laws.{mem-get}
use rooben.Dict.Keyed.{IsKeyed, get-key}
use rooben.Domain.Status.{is_pending}
use rooben.Domain.Models.{Task, WorkflowState}
use rooben.Domain.State.{tasks_of}
use rooben.Domain.State.Stalled.{task_id, IsSound}
use rooben.Spec.Models.{AgentSpec}
use rooben.Planning.Cycles.Acyclic.{IsAbove, Answer, detect_cycle-Answer}
use rooben.Planning.Checker.{
  no_tasks, CheckResult, unassigned_issues, agent_issues, dependency_issues, cycle_issues,
  Heuristics, structural_issues, agents_by_id, check_task_complexity, check,
}
use rooben.Orchestrator.Core.{World, Orchestrator}
use rooben.Orchestrator.TaskSteps.{Step}
use rooben.Orchestrator.Execution.Raises.{IsAnswering, IsBudget}
use rooben.Orchestrator.Gather.Weight.{weight}
use rooben.Orchestrator.Gather.Ready.{IsReady}
use rooben.Orchestrator.Loop.{execute_workflow}
use rooben.Orchestrator.Loop.Termination.{execute_workflow-terminates}
use rooben.Planning.Checker.Issues.{
  has_known_agent, has_known_deps, agents-is_empty, is_empty-dependency_issues,
}

-- A rank that shows the plan to have no cycle, with a bound.
abbrev IsAcyclic : List Task → Type 0
IsAcyclic ts = (rank : String → ℕ) × (depth : ℕ) × IsAbove rank ts × ((k : String) → rank k < depth)

cycle_iff :
    (ts : List Task) (c : Option (List String))
    → Answer ts c
    → (is_empty (cycle_issues c) ≡ true) ↔ IsAcyclic ts
unfolding cycle_issues
cycle_iff ts none a = ((λ e. a), (λ h. refl))
cycle_iff ts (some []) a = absurd (cc (a.1))
cycle_iff ts (some (x ∷ xs)) a = ((λ e. absurd (cc)), (λ h. absurd (a.0 h.0 h.2)))

-- What a valid plan is.
pub record IsPlan (agent_ids : List String) (ts : List Task) : Type 0 where
  pub some_task : is_empty ts ≡ false
  pub agents_known : all (has_known_agent agent_ids) ts ≡ true
  pub deps_known : all (has_known_deps (map (λ (t : Task). t.id) ts)) ts ≡ true
  pub acyclic : IsAcyclic ts

is_empty-structural_issues :
    (agent_ids : List String) (ts : List Task) (c : Option (List String))
    → is_empty (structural_issues agent_ids ts c) ≡ (
        all (has_known_agent agent_ids) ts
        && (all (has_known_deps (map (λ (t : Task). t.id) ts)) ts && is_empty (cycle_issues c)))
unfolding structural_issues
is_empty-structural_issues agent_ids ts c =
    let deps = dependency_issues (map (λ (t : Task). t.id) ts) ts in
    rw
      (
        is_empty-append (unassigned_issues ts)
            (agent_issues agent_ids ts ++ (deps ++ cycle_issues c)),
        is_empty-append (agent_issues agent_ids ts) (deps ++ cycle_issues c),
        is_empty-append deps (cycle_issues c),
        is_empty-dependency_issues (map (λ (t : Task). t.id) ts) ts,
      )
      (ground (arith, agents-is_empty agent_ids ts))

structural_iff :
    (agent_ids : List String) (ts : List Task) (c : Option (List String))
    → Answer ts c
    → is_empty ts ≡ false
    → (is_empty (structural_issues agent_ids ts c) ≡ true) ↔ IsPlan agent_ids ts
structural_iff agent_ids ts c a inhabited =
    let parts = is_empty-structural_issues agent_ids ts c in
    let cycle = cycle_iff ts c a in
    (
      (λ e. record {
        some_task = inhabited;
        agents_known = ground (arith, parts);
        deps_known = ground (arith, parts);
        acyclic = cycle.0 (ground (arith, parts));
      }),
      (λ plan. parts ∙ rw (plan.agents_known, plan.deps_known, cycle.1 plan.acyclic) refl),
    )

-- Soundness is about the tasks alone.
IsSound-tasks :
    (s s' : WorkflowState) (rank : String → ℕ) (depth : ℕ)
    → s'.tasks ≡ s.tasks
    → IsSound s rank depth
    → IsSound s' rank depth
IsSound-tasks s s' rank depth same h = record {
  keyed = rw same h.keyed;
  ranked = rw same h.ranked;
  fuelled = rw same h.fuelled;
}

module _ (h : Heuristics) (agents : List AgentSpec) (s : WorkflowState) (wid : String) where
  abbrev agent_ids : List String
  agent_ids = map (λ (a : AgentSpec). a.id) agents

  -- For any state and any heuristics, `check` returns, and it calls the plan valid exactly if the plan
  -- has a task, every task has an agent of the specification and depends on tasks of the plan alone,
  -- and the dependencies have no cycle.
  pub check-valid_iff :
      (r : CheckResult) × (check h s agents wid ≡ some r)
      × ((r.valid ≡ true) ↔ IsPlan agent_ids (tasks_of s wid))
  unfolding check
  check-valid_iff = elim (Bool-cases (is_empty (tasks_of s wid))) [
    | inl empty ↦ (
      record { valid = false; score = 20; issues = no_tasks ∷ [] },
      rw (check, empty) refl,
      (
        (λ e. let none_valid : false ≡ true = e in absurd (cc)),
        (λ plan. let some_task = plan.some_task in absurd (cc)),
      ),
    )
    | inr inhabited ↦
        let (c, e, a) = detect_cycle-Answer (tasks_of s wid) in
        let structural = structural_issues agent_ids (tasks_of s wid) c in
        let complexity = check_task_complexity h (tasks_of s wid) (agents_by_id agents []) in
        (
          record {
            valid = is_empty structural;
            score = 20 - (length structural * 5 + length complexity * 2);
            issues = structural ++ complexity;
          },
          rw (check, inhabited, e) refl,
          structural_iff agent_ids (tasks_of s wid) c a inhabited,
        )
  ]

  module _ (keyed : IsKeyed task_id s.tasks)
      (own : (t : Task) → Memᴰ t (values s.tasks) → t.workflow_id ≡ wid) where
    -- The plan of a state that has no other workflow's tasks is sound for the orchestrator.
    IsPlan-IsSound :
        IsPlan agent_ids (tasks_of s wid) → (rank : String → ℕ) × (depth : ℕ) × IsSound s rank depth
    unfolding tasks_of
    IsPlan-IsSound plan =
        let (rank, depth, above, bounded) = plan.acyclic in
        (
          rank,
          depth,
          record {
            keyed = keyed;
            ranked = λ id t e.
                let m = mem-get s.tasks id e in
                let listed =
                  mem-keep (λ (u : Task). str_eq u.workflow_id wid) (values s.tasks) m
                    (rw (own t m, eq_refl wid) refl) in
                subst (λ k. All (λ d. rank d < rank k) t.depends_on)
                  (get-key task_id s.tasks id keyed e)
                  (All-at (λ (u : Task). All (λ d. rank d < rank u.id) u.depends_on) _ above
                    listed);
            fuelled = λ t m. bounded t.id;
          },
        )

    -- A plan that the checker calls valid makes the orchestrator ready to run it.
    pub check-IsReady :
        (o : Orchestrator) (r : CheckResult)
        → o.state.tasks ≡ s.tasks
        → ((t : Task) → Memᴰ t (values s.tasks) → is_pending t.status ≡ true)
        → has o.state.workflows wid ≡ true
        → check h s agents wid ≡ some r
        → r.valid ≡ true
        → (rank : String → ℕ) × (depth : ℕ) × IsReady wid rank depth o
    unfolding tasks_of
    check-IsReady o r same pending there checked valid =
        let (r', checked', iff) = check-valid_iff in
        let plan = iff.0 (ground (arith, checked, checked', valid)) in
        let (rank, depth, sound) = IsPlan-IsSound plan in
        (
          rank,
          depth,
          record {
            sound = IsSound-tasks s o.state rank depth same sound;
            quiet = rw same (λ t m. record { own = own t m; settled = inl (pending t m) });
            there = there;
            some_task = rw same (λ e.
                let emptied : is_empty (tasks_of s wid) ≡ true = rw e refl in
                let some_task : is_empty (tasks_of s wid) ≡ false = plan.some_task in
                cc (emptied, some_task));
          },
        )

    -- A plan that the checker calls valid, in a state with this workflow's tasks alone, under their
    -- ids and all pending, runs to an end: in a world in which agents and verifiers answer, the loop
    -- returns, given enough fuel and depth, and raises nothing but the budget's exception.
    pub check-execute_workflow :
        (w : World) (o : Orchestrator) (r : CheckResult)
        → o.state.tasks ≡ s.tasks
        → IsAnswering w
        → ((t : Task) → Memᴰ t (values s.tasks) → is_pending t.status ≡ true)
        → has o.state.workflows wid ≡ true
        → check h s agents wid ≡ some r
        → r.valid ≡ true
        → (fuel : ℕ) × (depth : ℕ) × (step : Step) × (execute_workflow w fuel depth wid o
            ≡ some step)
          × IsBudget step.1
    check-execute_workflow w o r same answers pending there checked valid =
        let (rank, depth, ready) = check-IsReady o r same pending there checked valid in
        let (step, returns, budget) =
          execute_workflow-terminates wid rank depth w answers (suc (weight o)) o ready
            (omega arith) in
        (suc (weight o), depth, step, returns, budget)
