-- ===== src/Orchestrator/Execution.antt =====
-- src/rooben/orchestrator.py, `_execute_task` and `_dispatch_task`, in the segments between two
-- waits, so that the coroutines of a round can take turns. The semaphores and the rate limiter decide
-- how long a coroutine waits for its start, which is left to the schedule; what is logged is left out.
pub mod Effects
pub mod Endings
pub mod Moves
pub mod Raises
use Prim.Native.String.{String}
use rooben.Prelude.{
  ℕ, zero, suc, ◌+◌, ◌==◌, Bool, true, false, Option, none, some, List, [], ◌∷◌, ◌++◌, ltb, cond,
  str_append, if◌then◌else◌,
}
use rooben.Dict.{Dict, map_values}
use rooben.Domain.Status.{TaskStatus}
use rooben.Domain.Models.{
  Task, TaskResult, TokenUsage, VerificationFeedback, text_truthy, truthy, total,
}
use rooben.Security.Budget.{
  BudgetTracker, BudgetExceeded, record_tokens, record_llm_usage, record_task_completion,
}
use rooben.Resilience.CircuitBreaker.{record_success, record_failure}
use rooben.Verification.Verifier.{VerificationResult}
use rooben.Orchestrator.Core.{
  Raised, budget_exceeded, other_error, Reply, returned, failed, Event, task_started, task_progress,
  verification_failed, task_passed, task_failed, llm_usage, World, Orchestrator, emit, next_call,
}
use rooben.Orchestrator.Updates.{write_task, update_task, update_workflow_counters}
use rooben.Orchestrator.TaskSteps.{
  Step, clip, started, begin_task, ready_prompt, track_tokens, charge_usage, add_feedback, retried,
  gave_up, error_feedback, feedback_of, passed_task, emit_verifier_usage, verifying_task, error_of,
  no_result, refuse_task,
}

-- A coroutine of `_dispatch_task`, by what it waits for: its first turn, a slot of the agent, the
-- agent's answer, the verifier's answer. One that is over keeps its task's id and what it raised.
pub data Coroutine : Type 0 where
  queued : Task → Coroutine
  waiting : String → Task → Coroutine
  executing : String → Task → Coroutine
  verifying : Task → TaskResult → Coroutine
  ended : String → Option Raised → Coroutine

-- What a coroutine does before it waits again.
abbrev Move : Type 0
Move = Orchestrator × Coroutine

module _ (w : World) where
  unfoldable pub prompt_task : Task → Orchestrator → Task
  prompt_task t o = record t { enriched_prompt = some (w.build_context o.state t) }

  -- The output and each artifact are sanitized.
  unfoldable pub sanitized : TaskResult → TaskResult
  unfolding map_values
  sanitized r = record r {
    output = w.sanitize r.output;
    artifacts = map_values w.sanitize r.artifacts;
  }

  unfoldable pub track_cost : Task → TaskResult → Orchestrator → Orchestrator
  track_cost t r o = elim r.token_usage_detailed [
    | none ↦ o
    | some u ↦ elim t.assigned_agent_id [
      | none ↦ o
      | some agent ↦ elim (w.cost_of agent u) [ none ↦ o | some cost ↦ charge_usage t cost o ]
    ]
  ]

  -- The end of a task that failed for good: status, counter, breaker, event.
  unfoldable pub fail_task : Task → String → Orchestrator → Orchestrator
  unfolding gave_up emit
  fail_task t message o =
      let t' = gave_up (w.clock o.calls) t in
      let o' = update_workflow_counters t' true (update_task t' o) in
      emit (task_failed t.id message)
        (record o' { breaker = record_failure w.error_hash (w.clock o'.calls) message o'.breaker })

  -- `if result.error:`
  unfoldable pub agent_failed : Task → TaskResult → String → Orchestrator → Orchestrator
  unfolding add_feedback error_feedback retried write_task emit
  agent_failed t r message o =
      let t' = add_feedback (error_feedback t message) t in
      let o' = emit (verification_failed t.id t.attempt) (write_task t' o) in
      let t'' = record t' { result = some r } in
      if ltb t.attempt t.max_retries then update_task (retried t'') o' else fail_task t'' message o'

  -- `if verification.passed:`. The completion may exceed the budget, after all that was written.
  unfoldable pub verification_passed : Task → VerificationResult → Orchestrator → Step
  unfolding add_feedback feedback_of passed_task emit
  verification_passed t v o =
      let t' = passed_task (w.clock o.calls) (add_feedback (feedback_of t v) t) in
      let o' = update_workflow_counters t' false (update_task t' o) in
      let (b, e) = record_task_completion o'.budget in
      let o'' = record o' { breaker = record_success o'.breaker; budget = b } in
      elim e [
        | some x ↦ (o'', some (budget_exceeded x))
        | none ↦ (emit (task_passed t.id v.score) o'', none)
      ]

  -- The `else` of it.
  unfoldable pub verification_rejected : Task → VerificationResult → Orchestrator → Orchestrator
  unfolding add_feedback feedback_of retried write_task emit clip
  verification_rejected t v o =
      let t' = add_feedback (feedback_of t v) t in
      let o' = emit (verification_failed t.id t.attempt) (write_task t' o) in
      if ltb t.attempt t.max_retries
      then emit (task_progress t.id "retrying" t.attempt) (update_task (retried t') o')
      else fail_task t' (clip 200 v.feedback) o'

  -- After the verifier has answered.
  unfoldable pub judge_task : Task → Reply VerificationResult → Orchestrator → Move
  judge_task t (failed message) o = (o, ended t.id (some (other_error message)))
  judge_task t (returned v) o =
      let o' = emit_verifier_usage t v o in
      if v.passed
      then (let (o'', e) = verification_passed t v o' in (o'', ended t.id e))
      else (verification_rejected t v o', ended t.id none)

  -- From the agent's answer to the call of the verifier.
  unfoldable pub verify_task : Task → TaskResult → Orchestrator → Move
  unfolding verifying_task emit
  verify_task t r o =
      let t' = verifying_task r t in
      (emit (task_progress t.id "verifying" t.attempt) (update_task t' o), verifying t' r)

  -- With the tokens within the budget.
  unfoldable pub settle_task : Task → TaskResult → Orchestrator → Move
  settle_task t r o =
      let o' = track_cost t r o in
      elim (error_of r) [
        | some message ↦ (agent_failed t r message o', ended t.id none)
        | none ↦ verify_task t r o'
      ]

  -- After the agent has answered.
  unfoldable pub finish_task : Task → Reply TaskResult → Orchestrator → Move
  unfolding sanitized
  finish_task t (failed message) o = (o, ended t.id (some (other_error message)))
  finish_task t (returned r) o =
      let r' = sanitized r in
      let (o', e) = track_tokens t r' o in
      elim e [ some x ↦ (o', ended t.id (some x)) | none ↦ settle_task t r' o' ]

  -- _execute_task, up to the call of the agent.
  unfoldable pub start_task : String → Task → Orchestrator → Move
  unfolding started prompt_task ready_prompt
  start_task agent t o =
      let t1 = started (w.clock o.calls) t in
      let o1 = begin_task t1 o in
      let t2 = prompt_task t1 o1 in (ready_prompt t2 o1, executing agent t2)

  -- _dispatch_task, up to the wait for a slot, on the id of the assigned agent.
  unfoldable pub dispatch_to : Option String → Task → Orchestrator → Move
  unfolding text_truthy
  dispatch_to none t o = (refuse_task t "No agent assigned" o, ended t.id none)
  dispatch_to (some agent) t o =
      if text_truthy agent
      then (if w.has_agent agent then (o, waiting agent t) else (
        refuse_task t (str_append "Agent " (str_append agent " not found in registry")) o,
        ended t.id none,
      ))
      else (refuse_task t "No agent assigned" o, ended t.id none)

  -- One turn of a coroutine.
  unfoldable pub advance : Coroutine → Orchestrator → Move
  unfolding dispatch_to
  advance (queued t) o = dispatch_to t.assigned_agent_id t o
  advance (waiting agent t) o = start_task agent t o
  advance (executing agent t) o = finish_task t (w.execute o.calls agent t) o
  advance (verifying t r) o = judge_task t (w.verify o.calls t r) o
  advance (ended id e) o = (o, ended id e)
