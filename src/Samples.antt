-- ===== src/Samples.antt =====
-- A small workflow with its orchestrator: the task "b" waits for the task "a".
use rooben.Prelude.{ℕ, ◌*◌, Bool, true, false, String, none, some, List, [], ◌∷◌, cond, str_eq}
use rooben.Domain.Status.{TaskStatus, WorkstreamStatus, WorkflowStatus}
use rooben.Domain.Models.{Task, Workstream, Workflow, WorkflowState}
use rooben.Security.Budget.{BudgetTracker}
use rooben.Resilience.CircuitBreaker.{new_breaker}
use rooben.Verification.Verifier.{VerificationResult}
use rooben.Orchestrator.Core.{returned, World, Orchestrator}
use rooben.Orchestrator.TaskSteps.{no_result}

abbrev pub task : String → List String → TaskStatus → Task
task id deps status = record {
  id = id;
  workstream_id = "ws";
  workflow_id = "wf";
  title = "title";
  description = "description";
  structured_prompt = none;
  status = status;
  assigned_agent_id = some "agent";
  depends_on = deps;
  acceptance_criteria_ids = [];
  verification_strategy = "llm_judge";
  skeleton_tests = [];
  result = none;
  attempt = 0;
  max_retries = 3;
  created_at = 0;
  started_at = none;
  completed_at = none;
  attempt_feedback = [];
  linear_issue_id = none;
  enriched_prompt = none;
}

abbrev pub workflow : Workflow
workflow = record {
  id = "wf";
  spec_id = "spec";
  status = WorkflowStatus.in_progress;
  workstream_ids = "ws" ∷ [];
  spec_content_hash = "";
  created_at = 0;
  completed_at = none;
  total_tasks = 2;
  completed_tasks = 0;
  failed_tasks = 0;
  replan_count = 0;
  linear_project_id = none;
}

abbrev pub workstream : Workstream
workstream = record {
  id = "ws";
  workflow_id = "wf";
  name = "name";
  description = "";
  status = WorkstreamStatus.pending;
  task_ids = "a" ∷ "b" ∷ [];
  created_at = 0;
}

-- The state with "a" in this status, and "b" pending.
abbrev pub state_with : TaskStatus → WorkflowState
state_with status = record {
  workflows = ("wf", workflow) ∷ [];
  workstreams = ("ws", workstream) ∷ [];
  tasks = ("a", task "a" [] status) ∷ ("b", task "b" ("a" ∷ []) TaskStatus.pending) ∷ [];
  task_hashes = [];
}

abbrev pub budget : BudgetTracker
budget = record {
  max_total_tokens = some 100;
  max_total_tasks = none;
  max_wall_seconds = some 0;
  max_concurrent_agents = 2;
  max_cost_usd = none;
  tokens_used = 0;
  tasks_completed = 0;
  total_cost_usd = 0;
  agent_tokens = [];
  task_tokens = [];
}

abbrev pub orchestrator : TaskStatus → Orchestrator
orchestrator status = record {
  state = state_with status;
  budget = budget;
  breaker = new_breaker 5 3 60_000;
  checkpoints = record { interval = 5; checkpoints = [] };
  disk = [];
  start_time = 0;
  calls = 0;
  events = [];
}

abbrev pub verdict : Bool → VerificationResult
verdict ok = record {
  passed = ok;
  score = 900;
  feedback = "";
  failed_tests = [];
  suggested_improvements = [];
  test_results = [];
  verification_tokens = 0;
  token_usage = none;
  model = "";
  provider = "";
}

-- Agents that answer with a text and seven tokens, and a verifier that says `ok`.
abbrev pub world : Bool → World
world ok = record {
  clock = λ n. n * 1000;
  pick = λ n. n;
  cancelled = λ n. false;
  has_agent = λ a. true;
  execute = λ n a t. returned (record no_result { output = "done"; token_usage = 7 });
  verify = λ n t r. returned (verdict ok);
  sanitize = λ s. s;
  build_context = λ s t. "context";
  cost_of = λ a u. none;
  error_hash = λ s. s;
}

-- "a" below "b".
abbrev pub rank : String → ℕ
rank id = cond (str_eq id "b") 1 0
