-- ===== src/Orchestrator/Core.antt =====
-- src/rooben/orchestrator.py: what an `Orchestrator` holds, and what it calls. A coroutine gives up
-- control where it waits for an agent or a verifier; backend writes and event callbacks complete
-- within the step that makes them, as those of the filesystem backend do.
use rooben.Prelude.{ℕ, suc, Bool, String, Option, List, [], ◌∷◌, ◌++◌}
use rooben.Domain.Models.{Task, TaskResult, TokenUsage, WorkflowState}
use rooben.Domain.Status.{WorkflowStatus}
use rooben.Security.Budget.{BudgetTracker, BudgetExceeded}
use rooben.Resilience.CircuitBreaker.{CircuitBreaker}
use rooben.Resilience.Checkpoint.{CheckpointManager}
use rooben.State.Filesystem.{Disk}
use rooben.Verification.Verifier.{VerificationResult}

-- An exception that leaves a coroutine: the one that the loop passes on, and any other.
pub data Raised : Type 0 where
  budget_exceeded : BudgetExceeded → Raised
  other_error : String → Raised

-- What a call of an agent or of a verifier gives.
pub data Reply (A : Type 0) : Type 0 where
  returned : A → Reply A
  failed : String → Reply A

-- The calls of the event callback, with the part of the payload that the state decides.
pub data Event : Type 0 where
  task_started : String → ℕ → Event
  task_progress : String → String → ℕ → Event
  verification_failed : String → ℕ → Event
  task_passed : String → ℕ → Event
  task_failed : String → String → Event
  llm_usage : Option String → String → Event
  workflow_planned : String → Event
  planning_started : String → ℕ → Event
  planning_generating : String → ℕ → Bool → Event
  planning_checking : String → ℕ → Event
  planning_judging : String → ℕ → ℕ → Event
  iteration_complete : String → ℕ → String → ℕ → Event
  workflow_completed : String → WorkflowStatus → ℕ → ℕ → ℕ → Event

-- What the orchestrator does not implement. The first argument of a call is its number.
pub record World : Type 1 where
  -- the clock, in milliseconds
  pub clock : ℕ → ℕ
  -- the choices of the event loop among the coroutines of a round
  pub pick : ℕ → ℕ
  -- the cancel event
  pub cancelled : ℕ → Bool
  -- AgentRegistry.get: is there such an agent
  pub has_agent : String → Bool
  -- agent.execute(task)
  pub execute : ℕ → String → Task → Reply TaskResult
  -- verifier.verify(task, result)
  pub verify : ℕ → Task → TaskResult → Reply VerificationResult
  -- OutputSanitizer.sanitize
  pub sanitize : String → String
  -- ContextBuilder.build, with the codebase index
  pub build_context : WorkflowState → Task → String
  -- CostRegistry.calculate_cost for the agent's model; none: it raised
  pub cost_of : String → TokenUsage → Option ℕ
  -- the hash of an error message
  pub error_hash : String → String

pub record Orchestrator : Type 0 where
  pub state : WorkflowState
  pub budget : BudgetTracker
  pub breaker : CircuitBreaker
  pub checkpoints : CheckpointManager
  pub disk : Disk
  pub start_time : ℕ
  -- the calls made so far
  pub calls : ℕ
  pub events : List Event

-- _emit_event
unfoldable pub emit : Event → Orchestrator → Orchestrator
emit e o = record o { events = o.events ++ e ∷ [] }

-- One more call has been made.
unfoldable pub next_call : Orchestrator → Orchestrator
next_call o = record o { calls = suc o.calls }
