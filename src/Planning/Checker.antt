-- ===== src/Planning/Checker.antt =====
-- src/rooben/planning/checker.py: `check`. The text of an issue is its kind with the values in
-- it, but for the list of verbs;
-- the regular expressions and the estimate of agents/heuristics.py are parameters.
pub mod Plan
pub mod Issues
use Prim.Native.String.{String}
use rooben.Prelude.{
  text_length, ℕ, suc, ◌+◌, ◌*◌, ◌-◌, ◌/◌, ◌==◌, ◌&&◌, Bool, true, false, not, Option, none, some,
  List, [], ◌∷◌, ◌++◌, length, map, keep, any, cond, ltb, leb, str_eq, is_empty,
}
use rooben.Dict.{Dict, get, put}
use rooben.Domain.Models.{Task, WorkflowState, text_truthy, truthy}
use rooben.Domain.State.{tasks_of}
use rooben.Spec.Models.{AgentSpec}
use rooben.Planning.Cycles.{detect_cycle}

pub data Issue : Type 0 where
  no_tasks : Issue
  no_agent : String → String → Issue
  unknown_agent : String → String → Issue
  unknown_dependency : String → String → Issue
  dependency_cycle : List String → Issue
  long_description : String → String → ℕ → Issue
  many_criteria : String → String → ℕ → Issue
  many_verbs : String → String → ℕ → Issue
  many_deliverables : String → String → ℕ → Issue
  infeasible_output : String → String → ℕ → String → ℕ → ℕ → Issue

-- The score in twentieths.
pub record CheckResult : Type 0 where
  pub valid : Bool
  pub score : ℕ
  pub issues : List Issue

-- x in xs
unfoldable pub contains : List String → String → Bool
contains xs x = any (λ y. str_eq y x) xs

-- len(set(xs))
unfoldable pub distinct : List String → ℕ
unfolding contains
distinct [] = 0
distinct (x ∷ xs) = cond (contains xs x) (distinct xs) (suc (distinct xs))

-- Check 1.
unfoldable pub unassigned_issues : List Task → List Issue
unfolding truthy
unassigned_issues [] = []
unassigned_issues (t ∷ ts) =
    cond (truthy t.assigned_agent_id) (unassigned_issues ts)
      (no_agent t.title t.id ∷ unassigned_issues ts)

-- Check 2.
unfoldable pub agent_issues : List String → List Task → List Issue
unfolding text_truthy contains
agent_issues agent_ids [] = []
agent_issues agent_ids (t ∷ ts) = elim t.assigned_agent_id [
  | none ↦ agent_issues agent_ids ts
  | some a ↦
      cond (text_truthy a && not (contains agent_ids a))
        (unknown_agent t.title a ∷ agent_issues agent_ids ts) (agent_issues agent_ids ts)
]

-- Check 3.
unfoldable pub dependency_issues : List String → List Task → List Issue
unfolding contains
dependency_issues task_ids [] = []
dependency_issues task_ids (t ∷ ts) =
    map (λ d. unknown_dependency t.title d) (keep (λ d. not (contains task_ids d)) t.depends_on)
    ++ dependency_issues task_ids ts

-- Check 4.
unfoldable pub cycle_issues : Option (List String) → List Issue
cycle_issues none = []
cycle_issues (some []) = []
cycle_issues (some (x ∷ xs)) = dependency_cycle (x ∷ xs) ∷ []

-- Checks 1 to 4, for the result of `_detect_cycle`.
unfoldable pub structural_issues : List String → List Task → Option (List String) → List Issue
unfolding unassigned_issues agent_issues dependency_issues cycle_issues
structural_issues agent_ids tasks cycle =
    unassigned_issues tasks
    ++ (agent_issues agent_ids tasks
        ++ (dependency_issues (map (λ (t : Task). t.id) tasks) tasks ++ cycle_issues cycle))

-- {a.id: a for a in spec.agents}
unfoldable pub agents_by_id : List AgentSpec → Dict AgentSpec → Dict AgentSpec
unfolding put
agents_by_id [] d = d
agents_by_id (a ∷ agents) d = agents_by_id agents (put d a.id a)

-- agent.budget.max_tokens if agent.budget and agent.budget.max_tokens else 16384
unfoldable pub agent_max_tokens : AgentSpec → ℕ
agent_max_tokens a = elim a.budget [
  | none ↦ 16384
  | some b ↦ elim b.max_tokens [ none ↦ 16384 | some n ↦ cond (n == 0) 16384 n ]
]

-- One warning, if the condition holds.
unfoldable pub issue_if : Bool → Issue → List Issue
issue_if b i = cond b (i ∷ []) []

-- The texts that the regular expressions find, and the estimate of the requested output.
pub record Heuristics : Type 0 where
  pub action_verbs : String → List String
  pub deliverable_refs : String → List String
  pub estimate_requested_output_chars : String → ℕ
  pub chars_per_page : ℕ

module _ (h : Heuristics) where
  -- Check 6e.
  unfoldable pub output_issues : Dict AgentSpec → Task → List Issue
  unfolding get agent_max_tokens issue_if
  output_issues agents t = elim t.assigned_agent_id [
    | none ↦ []
    | some id ↦ elim (get agents id) [
      | none ↦ []
      | some a ↦
          let max_output_chars = agent_max_tokens a * 4 in
          let estimated_output = h.estimate_requested_output_chars t.description in
          issue_if (ltb max_output_chars estimated_output) (
            infeasible_output t.title t.id (estimated_output / h.chars_per_page) a.id
              (max_output_chars / h.chars_per_page) (agent_max_tokens a))
    ]
  ]

  -- _check_task_complexity
  unfoldable pub check_task_complexity : List Task → Dict AgentSpec → List Issue
  unfolding text_length distinct issue_if output_issues
  check_task_complexity [] agents = []
  check_task_complexity (t ∷ ts) agents =
      let estimated_tokens = text_length t.description / 4 in
      let criteria_count = length t.acceptance_criteria_ids in
      let verbs = distinct (h.action_verbs t.description) in
      let refs = distinct (h.deliverable_refs t.description) in
      issue_if (ltb 500 estimated_tokens) (long_description t.title t.id estimated_tokens)
      ++ (issue_if (ltb 3 criteria_count) (many_criteria t.title t.id criteria_count)
          ++ (issue_if (leb 3 verbs) (many_verbs t.title t.id verbs)
              ++ (issue_if (ltb 2 refs) (many_deliverables t.title t.id refs)
                  ++ (output_issues agents t ++ check_task_complexity ts agents))))

  -- check; `none`: the search for a cycle ran out of fuel.
  unfoldable pub check : WorkflowState → List AgentSpec → String → Option CheckResult
  unfolding tasks_of detect_cycle structural_issues agents_by_id check_task_complexity
  check state agents wid =
      let tasks = tasks_of state wid in
      elim (is_empty tasks) [
        | true ↦ some (record { valid = false; score = 20; issues = no_tasks ∷ [] })
        | false ↦ elim (detect_cycle tasks) [
          | none ↦ none
          | some cycle ↦
              let structural =
                structural_issues (map (λ (a : AgentSpec). a.id) agents) tasks cycle in
              let complexity = check_task_complexity tasks (agents_by_id agents []) in
              some (record {
                valid = is_empty structural;
                score = 20 - (length structural * 5 + length complexity * 2);
                issues = structural ++ complexity;
              })
        ]
      ]
