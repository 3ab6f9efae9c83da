-- ===== src/Orchestrator/Execution/Moves.antt =====
-- `advance` does what the relation `Effect` allows, in every world.
use rooben.Prelude.{
  ◌≡◌, inl, inr, refl, sym, String, Option, none, some, arith, Bool-cases, Option-cases,
}
use rooben.Dict.Laws.{put-put, put_self}
use rooben.Domain.Status.{TaskStatus}
use rooben.Domain.Models.{Task, TaskResult, text_truthy}
use rooben.Orchestrator.Core.{other_error, Reply, returned, failed, World, Orchestrator}
use rooben.Orchestrator.Updates.Frame.{update_task-Writes}
use rooben.Orchestrator.TaskSteps.{
  started, begin_task, track_tokens, verifying_task, error_of, refuse_task, no_result,
}
use rooben.Orchestrator.Execution.{
  Coroutine, queued, waiting, executing, verifying, ended, prompt_task, sanitized, track_cost,
  verify_task, settle_task, finish_task, start_task, dispatch_to, advance,
}
use rooben.Orchestrator.Execution.Effects.{
  IsSameTask-refl, Holds, Tracks, refuse, admit, start, verify, Moves, Moves-shift,
}
use rooben.Orchestrator.Execution.Endings.{
  track_tokens-state, break_off-Moves, track_cost-state, agent_failed-Moves, judge_task-Moves,
}

module _ (w : World) where
  verify_task-Moves :
      (t : Task) (r : TaskResult) (o : Orchestrator)
      → Moves 2 t (verifying_task r t) o (verify_task w t r o)
  unfolding verify_task
  verify_task-Moves t r o =
      let wr = update_task-Writes (verifying_task r t) o in
      record {
        same = ground arith;
        new_tasks = wr.new_tasks;
        effect = verify r refl refl refl refl wr.same_workflows;
      }

  settle_task-Moves :
      (t : Task) (r : TaskResult) (o : Orchestrator)
      → (t' : Task) × Moves 2 t t' o (settle_task w t r o)
  unfolding settle_task
  settle_task-Moves t r o =
      let o1 = track_cost w t r o in
      let same = track_cost-state w t r o in
      elim (Option-cases (error_of r)) [
        | inl fine ↦ (
          verifying_task r t,
          rw (fine, settle_task) (Moves-shift 2 o o1 same (verify_task-Moves t r o1)),
        )
        | inr (m, bad) ↦
            let (t', moves) = agent_failed-Moves w t r m o1 in
            (t', rw (bad, settle_task) (Moves-shift 2 o o1 same moves))
      ]

  finish_task-Moves :
      (t : Task) (r : Reply TaskResult) (o : Orchestrator)
      → t.status ≡ TaskStatus.in_progress
      → Holds t o
      → (t' : Task) × Moves 2 t t' o (finish_task w t r o)
  unfolding finish_task
  finish_task-Moves t (failed m) o busy held =
      (t, break_off-Moves 2 t o (other_error m) (inr refl) (inl busy) held)
  finish_task-Moves t (returned r) o busy held =
      let r1 = sanitized w r in
      let o1 = (track_tokens t r1 o).0 in
      let same = track_tokens-state t r1 o in
      elim (Option-cases (track_tokens t r1 o).1) [
        | inl within ↦
            let (t', moves) = settle_task-Moves t r1 o1 in
            (t', rw (within, finish_task) (Moves-shift 2 o o1 same moves))
        | inr (e, over) ↦ (
          t,
          rw (over, finish_task)
              (Moves-shift 2 o o1 same
                (break_off-Moves 2 t o1 e (inr refl) (inl busy) (rw same held))),
        )
      ]

  start_task-Moves :
      (agent : String) (t : Task) (o : Orchestrator)
      → (t' : Task) × Moves 3 t t' o (start_task w agent t o)
  unfolding start_task begin_task
  start_task-Moves agent t o =
      let t1 = started (w.clock o.calls) t in
      let o1 = begin_task t1 o in
      let wr = update_task-Writes t1 o in
      let t2 = prompt_task w t1 o1 in
      (
        t2,
        record {
          same = ground arith;
          new_tasks = rw wr.new_tasks (put-put o.state.tasks t.id t1 t2);
          effect = start agent refl refl refl refl wr.same_workflows;
        },
      )

  refuse_task-Moves :
      (t : Task) (m : String) (o : Orchestrator)
      → (t' : Task) × Moves 4 t t' o (refuse_task t m o, ended t.id none)
  unfolding refuse_task
  refuse_task-Moves t m o =
      let t' : Task = record t {
        status = TaskStatus.failed;
        result = some (record no_result { error = some m });
      } in
      let wr = update_task-Writes t' o in
      (
        t',
        record {
          same = ground arith;
          new_tasks = wr.new_tasks;
          effect = refuse refl refl refl refl wr.same_workflows;
        },
      )

  dispatch_to-Moves :
      (a : Option String) (t : Task) (o : Orchestrator)
      → Holds t o
      → (t' : Task) × Moves 4 t t' o (dispatch_to w a t o)
  unfolding dispatch_to
  dispatch_to-Moves none t o held = refuse_task-Moves t "No agent assigned" o
  dispatch_to-Moves (some agent) t o held = elim (Bool-cases (text_truthy agent)) [
    | inr empty ↦ rw empty (refuse_task-Moves t "No agent assigned" o)
    | inl named ↦ elim (Bool-cases (w.has_agent agent)) [
      | inl there ↦
          rw (named, there)
            (
              t,
              record {
                same = IsSameTask-refl t;
                new_tasks = sym (put_self o.state.tasks t.id t held);
                effect = admit agent refl refl refl refl refl;
              },
            )
      | inr absent ↦ rw (named, absent) (refuse_task-Moves t _ o)
    ]
  ]

  -- The task that a coroutine is about, and the effect of its turn.
  abbrev pub Advances : Coroutine → Orchestrator → Type 0
  Advances (queued t) o = (t' : Task) × Moves 4 t t' o (advance w (queued t) o)
  Advances (waiting a t) o = (t' : Task) × Moves 3 t t' o (advance w (waiting a t) o)
  Advances (executing a t) o = (t' : Task) × Moves 2 t t' o (advance w (executing a t) o)
  Advances (verifying t r) o = (t' : Task) × Moves 1 t t' o (advance w (verifying t r) o)
  Advances (ended id e) o = advance w (ended id e) o ≡ (o, ended id e)

  -- However agents and verifiers answer: a turn of a coroutine that tracks its task changes no task
  -- but its own, and of that neither the id, the workflow, the dependencies nor the retry limit; and
  -- it has one of the effects of `Effect`. So the attempt counts one up at the start alone, the task
  -- goes back to the queue only below its retry limit and fails for good only at it, and the counter
  -- of failures or of completions moves exactly when the task gives up or passes. A coroutine that is
  -- over changes nothing.
  pub advance-Advances : (c : Coroutine) (o : Orchestrator) → Tracks c o → Advances c o
  unfolding advance
  advance-Advances (queued t) o tracks = dispatch_to-Moves t.assigned_agent_id t o tracks.0
  advance-Advances (waiting a t) o tracks = start_task-Moves a t o
  advance-Advances (executing a t) o tracks =
      finish_task-Moves t (w.execute o.calls a t) o tracks.1 tracks.0
  advance-Advances (verifying t r) o tracks =
      judge_task-Moves w t (w.verify o.calls t r) o tracks.1 tracks.0
  advance-Advances (ended id e) o tracks = refl
