-- ===== src/Orchestrator/Execution/Raises.antt =====
-- What a turn raises where agents and verifiers answer: only the budget's exception.
use rooben.Prelude.{
  ℕ, ◌≡◌, ◌≢◌, ◌∙◌, inl, inr, Option, none, some, String, arith, Bool-cases, Option-cases,
}
use rooben.Domain.Models.{Task, TaskResult, text_truthy}
use rooben.Verification.Verifier.{VerificationResult}
use rooben.Orchestrator.Core.{Raised, other_error, returned, World, Orchestrator}
use rooben.Orchestrator.TaskSteps.{track_tokens, emit_verifier_usage, error_of}
use rooben.Orchestrator.Execution.{
  Coroutine, queued, waiting, executing, verifying, ended, sanitized, verification_passed,
  judge_task, verify_task, settle_task, finish_task, start_task, dispatch_to, advance,
}

-- Agents and verifiers answer every call.
pub record IsAnswering (w : World) : Type 0 where
  pub agents : (n : ℕ) (a : String) (t : Task) → (r : TaskResult) × (w.execute n a t ≡ returned r)
  pub verifiers :
      (n : ℕ) (t : Task) (r : TaskResult) → (v : VerificationResult) × (w.verify n t r ≡ returned v)

abbrev pub IsBudget : Option Raised → Type 0
IsBudget e = (m : String) → e ≢ some (other_error m)

-- A coroutine that is over raised nothing but the budget's exception.
abbrev pub IsBudgetOnly : Coroutine → Type 0
IsBudgetOnly (ended id e) = IsBudget e
IsBudgetOnly (queued t) = Unit
IsBudgetOnly (waiting a t) = Unit
IsBudgetOnly (executing a t) = Unit
IsBudgetOnly (verifying t r) = Unit

track_tokens-IsBudget :
    (t : Task) (r : TaskResult) (o : Orchestrator) → IsBudget (track_tokens t r o).1
unfolding track_tokens
track_tokens-IsBudget t r o m h = ground arith

module _ (w : World) where
  verification_passed-IsBudget :
      (t : Task) (v : VerificationResult) (o : Orchestrator)
      → IsBudget (verification_passed w t v o).1
  unfolding verification_passed
  verification_passed-IsBudget t v o m h = ground arith

  judge_task-IsBudgetOnly :
      (t : Task) (v : VerificationResult) (o : Orchestrator)
      → IsBudgetOnly (judge_task w t (returned v) o).1
  unfolding judge_task
  judge_task-IsBudgetOnly t v o = elim (Bool-cases v.passed) [
    | inl yes_ ↦ simp yes_ (verification_passed-IsBudget t v (emit_verifier_usage t v o))
    | inr no_ ↦ simp no_ (λ m h. cc)
  ]

  settle_task-IsBudgetOnly :
      (t : Task) (r : TaskResult) (o : Orchestrator) → IsBudgetOnly (settle_task w t r o).1
  unfolding settle_task verify_task
  settle_task-IsBudgetOnly t r o = elim (Option-cases (error_of r)) [
    | inl fine ↦ rw (fine, settle_task) tt
    | inr (x, bad) ↦ rw (bad, settle_task) (λ m h. cc)
  ]

  finish_task-IsBudgetOnly :
      (t : Task) (r : TaskResult) (o : Orchestrator)
      → IsBudgetOnly (finish_task w t (returned r) o).1
  unfolding finish_task
  finish_task-IsBudgetOnly t r o =
      let r1 = sanitized w r in
      elim (Option-cases (track_tokens t r1 o).1) [
        | inl within ↦
            rw (within, finish_task) (settle_task-IsBudgetOnly t r1 (track_tokens t r1 o).0)
        | inr (e, over) ↦ rw (over, finish_task) (λ m h. track_tokens-IsBudget t r1 o m (over ∙ h))
      ]

  dispatch_to-IsBudgetOnly :
      (a : Option String) (t : Task) (o : Orchestrator) → IsBudgetOnly (dispatch_to w a t o).1
  unfolding dispatch_to
  dispatch_to-IsBudgetOnly none t o = λ m h. cc
  dispatch_to-IsBudgetOnly (some agent) t o = elim (Bool-cases (text_truthy agent)) [
    | inr empty ↦ rw empty (λ m h. cc)
    | inl named ↦ elim (Bool-cases (w.has_agent agent)) [
      | inl there ↦ rw (named, there) tt
      | inr absent ↦ rw (named, absent) (λ m h. cc)
    ]
  ]

  pub advance-IsBudgetOnly :
      (c : Coroutine) (o : Orchestrator)
      → IsAnswering w
      → IsBudgetOnly c
      → IsBudgetOnly (advance w c o).1
  unfolding advance start_task
  advance-IsBudgetOnly (queued t) o answers h = dispatch_to-IsBudgetOnly t.assigned_agent_id t o
  advance-IsBudgetOnly (waiting a t) o answers h = tt
  advance-IsBudgetOnly (executing a t) o answers h =
      let (r, e) = answers.agents o.calls a t in rw e (finish_task-IsBudgetOnly t r o)
  advance-IsBudgetOnly (verifying t r) o answers h =
      let (v, e) = answers.verifiers o.calls t r in rw e (judge_task-IsBudgetOnly t v o)
  advance-IsBudgetOnly (ended id e) o answers h = h
