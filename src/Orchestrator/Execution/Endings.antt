-- ===== src/Orchestrator/Execution/Endings.antt =====
-- The ends of a task: requeued, given up, passed, or broken off by an exception.
use rooben.Prelude.{
  ℕ, ◌≤◌, ◌<◌, ◌≡◌, ◌⊎◌, inl, inr, refl, ◌∙◌, sym, ap, String, Bool, true, false, none, some, arith,
  ltb, ltb→lt, Bool-cases,
}
use rooben.Dict.Laws.{put_self}
use rooben.Domain.Status.{TaskStatus}
use rooben.Domain.Models.{Task, TaskResult, WorkflowState}
use rooben.Verification.Verifier.{VerificationResult}
use rooben.Orchestrator.Core.{
  Raised, other_error, Reply, returned, failed, verification_failed, task_progress, World,
  Orchestrator, emit,
}
use rooben.Orchestrator.Updates.{write_task, update_task, update_workflow_counters}
use rooben.Orchestrator.Updates.Frame.{update_task-Writes}
use rooben.Orchestrator.TaskSteps.{
  clip, track_tokens, charge_usage, add_feedback, retried, gave_up, error_feedback, feedback_of,
  passed_task, emit_verifier_usage,
}
use rooben.Orchestrator.Execution.{
  ended, track_cost, fail_task, agent_failed, verification_passed, verification_rejected,
  judge_task,
}
use rooben.Orchestrator.Execution.Effects.{
  IsSameTask-refl, counted, Holds, retry, give_up, pass, break_off, Moves, Moves-after, Moves-shift,
}

update_workflow_counters-workflows :
    (t : Task) (b : Bool) (o : Orchestrator)
    → (update_workflow_counters t b o).state.workflows ≡ counted b t.workflow_id o.state.workflows
unfolding update_workflow_counters
update_workflow_counters-workflows t b o = ground arith

update_workflow_counters-tasks :
    (t : Task) (b : Bool) (o : Orchestrator)
    → (update_workflow_counters t b o).state.tasks ≡ o.state.tasks
unfolding update_workflow_counters
update_workflow_counters-tasks t b o = ground arith

emit_verifier_usage-state :
    (t : Task) (v : VerificationResult) (o : Orchestrator)
    → (emit_verifier_usage t v o).state ≡ o.state
unfolding emit_verifier_usage
emit_verifier_usage-state t v o = ground arith

pub track_tokens-state :
    (t : Task) (r : TaskResult) (o : Orchestrator) → (track_tokens t r o).0.state ≡ o.state
unfolding track_tokens
track_tokens-state t r o = ground arith

pub break_off-Moves :
    (turns : ℕ) (t : Task) (o : Orchestrator) (e : Raised)
    → (turns ≡ 1) ⊎ (turns ≡ 2)
    → (t.status ≡ TaskStatus.in_progress) ⊎ (t.status ≡ TaskStatus.verifying)
    → Holds t o
    → Moves turns t t o (o, ended t.id (some e))
break_off-Moves turns t o e late busy held = record {
  same = IsSameTask-refl t;
  new_tasks = sym (put_self o.state.tasks t.id t held);
  effect = break_off e late refl busy refl refl;
}

-- Back to the queue: what both kinds of failure do while a start is left.
requeue-Moves :
    (turns : ℕ) (t : Task) (o o' : Orchestrator)
    → (turns ≡ 1) ⊎ (turns ≡ 2)
    → t.attempt < t.max_retries
    → o'.state ≡ (update_task (retried t) o).state
    → Moves turns t (retried t) o (o', ended t.id none)
unfolding retried
requeue-Moves turns t o o' late lt e =
    let wr = update_task-Writes (retried t) o in
    record {
      same = ground arith;
      new_tasks = ap (λ (s : WorkflowState). s.tasks) e ∙ wr.new_tasks;
      effect =
          retry late refl refl lt refl
            (ap (λ (s : WorkflowState). s.workflows) e ∙ wr.same_workflows);
    }

module _ (w : World) where
  pub track_cost-state :
      (t : Task) (r : TaskResult) (o : Orchestrator) → (track_cost w t r o).state ≡ o.state
  unfolding track_cost charge_usage
  track_cost-state t r o = ground arith

  fail_task-Moves :
      (turns : ℕ) (t : Task) (m : String) (o : Orchestrator)
      → (turns ≡ 1) ⊎ (turns ≡ 2)
      → t.max_retries ≤ t.attempt
      → Moves turns t (gave_up (w.clock o.calls) t) o (fail_task w t m o, ended t.id none)
  unfolding fail_task
  fail_task-Moves turns t m o late spent =
      let t' = gave_up (w.clock o.calls) t in
      let wr = update_task-Writes t' o in
      record {
        same = ground arith;
        new_tasks = update_workflow_counters-tasks t' true (update_task t' o) ∙ wr.new_tasks;
        effect = give_up late refl refl spent refl (
            update_workflow_counters-workflows t' true (update_task t' o)
            ∙ ap (counted true t.workflow_id) wr.same_workflows);
      }

  pub agent_failed-Moves :
      (t : Task) (r : TaskResult) (m : String) (o : Orchestrator)
      → (t' : Task) × Moves 2 t t' o (agent_failed w t r m o, ended t.id none)
  unfolding agent_failed
  agent_failed-Moves t r m o =
      let t1 = add_feedback (error_feedback t m) t in
      let o1 = emit (verification_failed t.id t.attempt) (write_task t1 o) in
      let t2 : Task = record t1 { result = some r } in
      elim (Bool-cases (ltb t.attempt t.max_retries)) [
        | inl again ↦ (
          retried t2,
          rw again (
              Moves-after 2 t t2 t1 o o1 (omega arith) (ground arith) refl refl refl (
                requeue-Moves 2 t2 o1 (update_task (retried t2) o1) (inr refl)
                  (ltb→lt t.attempt t.max_retries again) refl)),
        )
        | inr spent ↦ (
          gave_up (w.clock o.calls) t2,
          rw spent (
              Moves-after 2 t t2 t1 o o1 (omega arith) (ground arith) refl refl refl
                (fail_task-Moves 2 t2 m o1 (inr refl) (ground arith))),
        )
      ]

  verification_rejected-Moves :
      (t : Task) (v : VerificationResult) (o : Orchestrator)
      → (t' : Task) × Moves 1 t t' o (verification_rejected w t v o, ended t.id none)
  unfolding verification_rejected
  verification_rejected-Moves t v o =
      let t1 = add_feedback (feedback_of t v) t in
      let o1 = emit (verification_failed t.id t.attempt) (write_task t1 o) in
      elim (Bool-cases (ltb t.attempt t.max_retries)) [
        | inl again ↦ (
          retried t1,
          rw again (
              Moves-after 1 t t1 t1 o o1 (omega arith) (ground arith) refl refl refl (
                requeue-Moves 1 t1 o1
                  (emit (task_progress t.id "retrying" t.attempt) (update_task (retried t1) o1))
                  (inl refl) (ltb→lt t.attempt t.max_retries again) refl)),
        )
        | inr spent ↦ (
          gave_up (w.clock o.calls) t1,
          rw spent (
              Moves-after 1 t t1 t1 o o1 (omega arith) (ground arith) refl refl refl
                (fail_task-Moves 1 t1 (clip 200 v.feedback) o1 (inl refl) (ground arith))),
        )
      ]

  verification_passed-state :
      (t : Task) (v : VerificationResult) (o : Orchestrator)
      → let t' = passed_task (w.clock o.calls) (add_feedback (feedback_of t v) t) in
        (verification_passed w t v o).0.state
        ≡ (update_workflow_counters t' false (update_task t' o)).state
  unfolding verification_passed
  verification_passed-state t v o = ground arith

  verification_passed-Moves :
      (t : Task) (v : VerificationResult) (o : Orchestrator)
      → (t' : Task) × Moves 1 t t' o
          ((verification_passed w t v o).0, ended t.id (verification_passed w t v o).1)
  unfolding add_feedback feedback_of passed_task
  verification_passed-Moves t v o =
      let t' = passed_task (w.clock o.calls) (add_feedback (feedback_of t v) t) in
      let wr = update_task-Writes t' o in
      let o' = update_workflow_counters t' false (update_task t' o) in
      let at_end = verification_passed-state t v o in
      (
        t',
        record {
          same = ground arith;
          new_tasks =
              ap (λ (s : WorkflowState). s.tasks) at_end
              ∙ update_workflow_counters-tasks t' false (update_task t' o)
              ∙ wr.new_tasks;
          effect = pass (verification_passed w t v o).1 refl refl refl refl (
              ap (λ (s : WorkflowState). s.workflows) at_end
              ∙ update_workflow_counters-workflows t' false (update_task t' o)
              ∙ ap (counted false t.workflow_id) wr.same_workflows);
        },
      )

  pub judge_task-Moves :
      (t : Task) (r : Reply VerificationResult) (o : Orchestrator)
      → t.status ≡ TaskStatus.verifying
      → Holds t o
      → (t' : Task) × Moves 1 t t' o (judge_task w t r o)
  unfolding judge_task
  judge_task-Moves t (failed m) o busy held =
      (t, break_off-Moves 1 t o (other_error m) (inl refl) (inr busy) held)
  judge_task-Moves t (returned v) o busy held =
      let o1 = emit_verifier_usage t v o in
      let same = emit_verifier_usage-state t v o in
      elim (Bool-cases v.passed) [
        | inl yes_ ↦
            let (t', moves) = verification_passed-Moves t v o1 in
            (t', simp yes_ (Moves-shift 1 o o1 same moves))
        | inr no_ ↦
            let (t', moves) = verification_rejected-Moves t v o1 in
            (t', simp no_ (Moves-shift 1 o o1 same moves))
      ]
