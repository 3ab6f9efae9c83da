-- ===== src/Orchestrator/TaskSteps.antt =====
-- src/rooben/orchestrator.py: the parts of `_execute_task` that call nothing outside the program.
use Prim.Native.String.{String}
use rooben.Prelude.{
  ℕ, zero, suc, ◌+◌, ◌==◌, false, Option, none, some, [], ◌∷◌, ◌++◌, cond, if◌then◌else◌,
}
use rooben.Domain.Status.{TaskStatus}
use rooben.Domain.Models.{Task, TaskResult, VerificationFeedback, text_truthy, total}
use rooben.Security.Budget.{record_tokens, record_llm_usage}
use rooben.Verification.Verifier.{VerificationResult}
use rooben.Orchestrator.Core.{
  Raised, budget_exceeded, task_started, task_progress, llm_usage, Orchestrator, emit,
}
use rooben.Orchestrator.Updates.{write_task, update_task}

-- A segment gives the new state and the exception that it raised, if any.
abbrev pub Step : Type 0
Step = Orchestrator × Option Raised

-- text[:n]
unfoldable pub clip : ℕ → String → String
clip zero s = String.[]
clip (suc n) String.[] = String.[]
clip (suc n) (String.◌∷◌ c s) = String.◌∷◌ c (clip n s)

-- Before the agent is called.
unfoldable pub started : ℕ → Task → Task
started now t = record t {
  status = TaskStatus.in_progress;
  started_at = some now;
  attempt = t.attempt + 1;
}

unfoldable pub begin_task : Task → Orchestrator → Orchestrator
unfolding emit
begin_task t o = emit (task_started t.id t.attempt) (update_task t o)

-- The prompt is built after the task is in progress, and shows in the state.
unfoldable pub ready_prompt : Task → Orchestrator → Orchestrator
unfolding emit write_task
ready_prompt t o = emit (task_progress t.id "executing" t.attempt) (write_task t o)

-- `if result.token_usage > 0:` the tokens are recorded, and may exceed the budget.
unfoldable pub track_tokens : Task → TaskResult → Orchestrator → Step
track_tokens t r o =
    cond (r.token_usage == 0) (o, none)
      (let (b, e) = record_tokens r.token_usage t.assigned_agent_id o.budget in
        (record o { budget = b }, elim e [ none ↦ none | some x ↦ some (budget_exceeded x) ]))

-- A detailed usage whose cost is known. An exception of `record_llm_usage` is caught here by
-- `except Exception`, so that it ends neither the task nor the run, and no event is emitted.
unfoldable pub charge_usage : Task → ℕ → Orchestrator → Orchestrator
unfolding emit
charge_usage t cost o =
    let (b, e) = record_llm_usage cost o.budget in
    elim e [
      | some x ↦ record o { budget = b }
      | none ↦ emit (llm_usage (some t.id) "agent") (record o { budget = b })
    ]

-- One more attempt with this feedback.
unfoldable pub add_feedback : VerificationFeedback → Task → Task
add_feedback fb t = record t { attempt_feedback = t.attempt_feedback ++ fb ∷ [] }

-- The task goes back to the queue, or ends as failed.
unfoldable pub retried : Task → Task
retried t = record t { status = TaskStatus.pending }

unfoldable pub gave_up : ℕ → Task → Task
gave_up now t = record t { status = TaskStatus.failed; completed_at = some now }

unfoldable pub error_feedback : Task → String → VerificationFeedback
error_feedback t message = record {
  attempt = t.attempt;
  verifier_type = "agent_error";
  passed = false;
  score = 0;
  feedback = message;
  suggested_improvements = [];
  test_results = [];
}

unfoldable pub feedback_of : Task → VerificationResult → VerificationFeedback
feedback_of t v = record {
  attempt = t.attempt;
  verifier_type = t.verification_strategy;
  passed = v.passed;
  score = v.score;
  feedback = v.feedback;
  suggested_improvements = v.suggested_improvements;
  test_results = v.test_results;
}

unfoldable pub passed_task : ℕ → Task → Task
passed_task now t = record t { status = TaskStatus.passed; completed_at = some now }

-- _emit_verifier_usage
unfoldable pub emit_verifier_usage : Task → VerificationResult → Orchestrator → Orchestrator
unfolding emit total
emit_verifier_usage t v o = elim v.token_usage [
  | none ↦ o
  | some u ↦ cond (total u == 0) o (emit (llm_usage (some t.id) "verifier") o)
]

unfoldable pub verifying_task : TaskResult → Task → Task
verifying_task r t = record t { status = TaskStatus.verifying; result = some r }

-- The error of a result, where it counts as one: `if result.error:`.
unfoldable pub error_of : TaskResult → Option String
unfolding text_truthy
error_of r = elim r.error [ none ↦ none | some m ↦ if text_truthy m then some m else none ]

abbrev pub no_result : TaskResult
no_result = record {
  output = "";
  artifacts = [];
  file_manifest = [];
  generated_tests = [];
  error = none;
  token_usage = 0;
  token_usage_detailed = none;
  wall_seconds = 0;
  learnings = [];
}

-- The first two branches of _dispatch_task: neither a counter nor the breaker hears of it.
unfoldable pub refuse_task : Task → String → Orchestrator → Orchestrator
refuse_task t message o =
    update_task
      (record t {
        status = TaskStatus.failed;
        result = some (record no_result { error = some message });
      })
      o
