-- ===== src/Examples/Planning.antt =====
-- The theorems on the plan checker, at the sample workflow and at a cycle of two tasks.
use rooben.Prelude.{
  ℕ, ◌≡◌, ◌↔◌, refl, String, true, Option, none, some, List, [], ◌∷◌, inl, inr, mem-cons_cases,
}
use rooben.Dict.{has, values}
use rooben.Domain.Status.{TaskStatus, is_pending}
use rooben.Domain.Models.{Task}
use rooben.Domain.State.{tasks_of}
use rooben.Spec.Models.{AgentSpec, AgentTransport}
use rooben.Planning.Cycles.{detect_cycle}
use rooben.Planning.Cycles.Acyclic.{Answer, detect_cycle-Answer}
use rooben.Planning.Checker.{CheckResult, Heuristics, check}
use rooben.Planning.Checker.Plan.{IsPlan, check-valid_iff, check-execute_workflow}
use rooben.Orchestrator.TaskSteps.{Step}
use rooben.Orchestrator.Execution.Raises.{IsBudget}
use rooben.Orchestrator.Loop.{execute_workflow}
use rooben.Samples.{task, state_with, orchestrator, world}

-- "a" and "b" wait for each other.
abbrev ring : List Task
ring = task "a" ("b" ∷ []) TaskStatus.pending ∷ task "b" ("a" ∷ []) TaskStatus.pending ∷ []

detect_cycle-ring : detect_cycle ring ≡ some (some ("title" ∷ "title" ∷ "title" ∷ []))
unfolding detect_cycle
detect_cycle-ring = refl

detect_cycle-Answer_example :
    (c : Option (List String)) × (detect_cycle ring ≡ some c) × Answer ring c
detect_cycle-Answer_example = detect_cycle-Answer ring

abbrev pub heuristics : Heuristics
heuristics = record {
  action_verbs = λ s. [];
  deliverable_refs = λ s. [];
  estimate_requested_output_chars = λ s. 0;
  chars_per_page = 3000;
}

abbrev pub agent : AgentSpec
agent = record {
  id = "agent";
  name = "agent";
  transport = AgentTransport.llm;
  description = "";
  endpoint = "";
  capabilities = [];
  max_concurrency = 1;
  max_turns = 40;
  max_context_tokens = 200_000;
  budget = none;
  mcp_servers = [];
  integrations = [];
  model = none;
}

check-valid_iff_example :
    (r : CheckResult) × (check heuristics (state_with TaskStatus.pending) (agent ∷ []) "wf"
      ≡ some r)
    × ((r.valid ≡ true) ↔ IsPlan ("agent" ∷ []) (tasks_of (state_with TaskStatus.pending) "wf"))
check-valid_iff_example =
    check-valid_iff heuristics (agent ∷ []) (state_with TaskStatus.pending) "wf"

check-execute_workflow_example :
    (fuel : ℕ) × (depth : ℕ) × (step : Step) × (execute_workflow
        (world true)
        fuel
        depth
        "wf"
        (orchestrator TaskStatus.pending)
      ≡ some step)
    × IsBudget step.1
unfolding check values has is_pending
check-execute_workflow_example =
    check-execute_workflow heuristics (agent ∷ []) (state_with TaskStatus.pending) "wf"
      (refl, refl, (refl, refl, tt))
      (λ t m. elim (mem-cons_cases m) [
        | inl first ↦ rw first refl
        | inr rest ↦ elim (mem-cons_cases rest) [
          | inl second ↦ rw second refl
          | inr more ↦ elim more [ ]
        ]
      ])
      (world true) (orchestrator TaskStatus.pending)
      (record { valid = true; score = 20; issues = [] }) refl
      (record { agents = λ n a t. (_, refl); verifiers = λ n t r. (_, refl) })
      (λ t m. elim (mem-cons_cases m) [
        | inl first ↦ rw first refl
        | inr rest ↦ elim (mem-cons_cases rest) [
          | inl second ↦ rw second refl
          | inr more ↦ elim more [ ]
        ]
      ])
      refl refl refl
