-- ===== src/Orchestrator/Gather/Counted.antt =====
-- The counters of a workflow against its tasks: every turn of a round keeps them in step.
use rooben.Prelude.{
  ℕ, ◌+◌, ◌*◌, ◌≤◌, ◌≡◌, refl, ap, ◌∙◌, String, true, false, some, List, ◌∷◌, ◌++◌, arith, count,
  length, map, inl, inr, cond, Bool, not, Bool-cases,
}
use rooben.Dict.{Dict, get, put, values}
use rooben.Dict.Laws.{count-put, get-put_self, mem-get}
use rooben.Dict.Keyed.{IsDistinct}
use rooben.Domain.Status.{is_pending, is_passed, is_failed, is_in_progress, is_verifying}
use rooben.Domain.Models.{Task, Workflow}
use rooben.Domain.State.Stalled.{task_id}
use rooben.Orchestrator.Core.{World, Orchestrator, next_call}
use rooben.Orchestrator.Updates.{count_task}
use rooben.Orchestrator.Execution.{Coroutine, queued, advance}
use rooben.Orchestrator.Execution.Effects.{
  counted, turns_left, Effect, refuse, admit, start, verify, retry, give_up, pass, break_off,
}
use rooben.Orchestrator.Gather.{is_live, gather}
use rooben.Orchestrator.Gather.Schedule.{mem-split_self, run_coroutines_inv}
use rooben.Orchestrator.Gather.Weight.{weight, Fits, is_busy}
use rooben.Orchestrator.Gather.Round.{advance-IsTurnOn}
use rooben.Orchestrator.Gather.Rounds.{InRound, InRound-next_call, advance-InRound}
use rooben.Orchestrator.Gather.Ready.{IsReady, AreWaiting, start-AmidRound}

abbrev one_if : Bool → ℕ
one_if b = cond b 1 0

abbrev passed_count : Dict Task → ℕ
passed_count tasks = count (λ (t : Task). is_passed t.status) (values tasks)

abbrev failed_count : Dict Task → ℕ
failed_count tasks = count (λ (t : Task). is_failed t.status) (values tasks)

-- The workflow has counted each passed task once, and no more failures than there are failed tasks.
pub record AreCounted (wid : String) (tasks : Dict Task) (ws : Dict Workflow) : Type 0 where
  pub workflow : Workflow
  pub found : get ws wid ≡ some workflow
  pub passes : workflow.completed_tasks ≡ passed_count tasks
  pub failures : workflow.failed_tasks ≤ failed_count tasks

abbrev pub IsCounted : String → Orchestrator → Type 0
IsCounted wid o = AreCounted wid o.state.tasks o.state.workflows

next_call-IsCounted :
    (wid : String) (o : Orchestrator) → IsCounted wid o → IsCounted wid (next_call o)
unfolding next_call
next_call-IsCounted wid o h = h

module _ (wid : String) (turns : ℕ) (c' : Coroutine) (t t' : Task) (tasks : Dict Task)
    (ws ws' : Dict Workflow) (held : get tasks t.id ≡ some t) (own : t.workflow_id ≡ wid)
    (fits : Fits turns t) where
  open_task : (is_passed t.status ≡ false) × (is_failed t.status ≡ false)
  unfolding is_passed is_failed is_pending is_busy is_in_progress is_verifying
  open_task = elim fits [
    | inl (early, p) ↦ (ground arith, ground arith)
    | inr (late, b) ↦ (ground arith, ground arith)
  ]

  passed-put : passed_count (put tasks t.id t') ≡ passed_count tasks + one_if (is_passed t'.status)
  passed-put =
      let moved = count-put (λ (u : Task). is_passed u.status) tasks t.id {old = t} t' held in
      let was_open = open_task.0 in let settled = rw was_open at moved in omega (arith, settled)

  failed-put : failed_count (put tasks t.id t') ≡ failed_count tasks + one_if (is_failed t'.status)
  failed-put =
      let moved = count-put (λ (u : Task). is_failed u.status) tasks t.id {old = t} t' held in
      let was_open = open_task.1 in let settled = rw was_open at moved in omega (arith, settled)

  -- An effect that passes no task and leaves the workflows alone.
  still-AreCounted :
      is_passed t'.status ≡ false
      → ws' ≡ ws
      → AreCounted wid tasks ws
      → AreCounted wid (put tasks t.id t') ws'
  still-AreCounted no_ same h =
      let stays : one_if (is_passed t'.status) ≡ 0 = rw no_ refl in
      record {
        workflow = h.workflow;
        found = rw same h.found;
        passes = omega (arith, h.passes, passed-put, stays);
        failures = omega (arith, h.failures, failed-put);
      }

  -- An effect that counts the task.
  counted-AreCounted :
      (lost : Bool)
      → one_if (is_passed t'.status) ≡ one_if (not lost)
      → one_if (is_failed t'.status) ≡ one_if lost
      → ws' ≡ counted lost t.workflow_id ws
      → AreCounted wid tasks ws
      → AreCounted wid (put tasks t.id t') ws'
  unfolding count_task
  counted-AreCounted lost passes fails same h =
      let moved : ws' ≡ put ws wid (count_task lost h.workflow) =
        same ∙ rw (counted, own, h.found) (ap (λ k. put ws k (count_task lost h.workflow)) own) in
      record {
        workflow = count_task lost h.workflow;
        found = rw moved (get-put_self ws wid (count_task lost h.workflow));
        passes = elim (Bool-cases lost) [
          | inl yes_ ↦
              let n : one_if (not lost) ≡ 0 = rw yes_ refl in
              rw yes_ (omega (arith, h.passes, passed-put, passes, n))
          | inr no_ ↦
              let n : one_if (not lost) ≡ 1 = rw no_ refl in
              rw no_ (omega (arith, h.passes, passed-put, passes, n))
        ];
        failures = elim (Bool-cases lost) [
          | inl yes_ ↦
              let n : one_if lost ≡ 1 = rw yes_ refl in
              rw yes_ (omega (arith, h.failures, failed-put, fails, n))
          | inr no_ ↦ rw no_ (omega (arith, h.failures, failed-put))
        ];
      }

  Effect-AreCounted :
      Effect turns c' t t' ws ws' → AreCounted wid tasks ws → AreCounted wid (put tasks t.id t') ws'
  unfolding is_passed is_failed is_pending
  Effect-AreCounted (refuse p c s a w) h = still-AreCounted (rw s refl) w h
  Effect-AreCounted (admit g p c s a w) h = still-AreCounted (rw s open_task.0) w h
  Effect-AreCounted (start g p c s a w) h = still-AreCounted (rw s refl) w h
  Effect-AreCounted (verify r p c s a w) h = still-AreCounted (rw s refl) w h
  Effect-AreCounted (retry p c s lt a w) h = still-AreCounted (rw s refl) w h
  Effect-AreCounted (give_up p c s le a w) h = counted-AreCounted true (rw s refl) (rw s refl) w h
  Effect-AreCounted (pass e p c s a w) h = counted-AreCounted false (rw s refl) (rw s refl) w h
  Effect-AreCounted (break_off e p c (inl s) a w) h = still-AreCounted (rw s refl) w h
  Effect-AreCounted (break_off e p c (inr s) a w) h = still-AreCounted (rw s refl) w h

module _ (w : World) (wid : String) (rank : String → ℕ) (depth bound held : ℕ) where
  abbrev AmidCounted : List Coroutine → Orchestrator → Type 0
  AmidCounted cs o = InRound wid rank depth bound held cs o × IsCounted wid o

  advance-AmidCounted :
      (pre : List Coroutine) (c : Coroutine) (post : List Coroutine) (o : Orchestrator)
      → is_live c ≡ true
      → AmidCounted (pre ++ c ∷ post) o
      → AmidCounted (pre ++ (advance w c (next_call o)).1 ∷ post) (advance w c (next_call o)).0
  advance-AmidCounted pre c post o live (r, h) =
      let r' = InRound-next_call w wid rank depth bound held (pre ++ c ∷ post) o r in
      let turn =
        advance-IsTurnOn w c (next_call o) live (r'.tracked c (mem-split_self pre c post)) in
      let own = r'.own turn.t (mem-get (next_call o).state.tasks turn.t.id turn.held) in
      (
        advance-InRound w wid rank depth bound held pre c post o live r,
        rw turn.moves.new_tasks (
            Effect-AreCounted wid (turns_left c) (advance w c (next_call o)).1 turn.t turn.t'
              (next_call o).state.tasks (next_call o).state.workflows
              (advance w c (next_call o)).0.state.workflows turn.held own turn.fits
              turn.moves.effect (next_call-IsCounted wid o h)),
      )

-- A round on distinct pending tasks, from a state that is ready, keeps the counters of the workflow in
-- step with its tasks, however agents and verifiers answer and in whatever order.
pub gather-IsCounted :
    (w : World) (wid : String) (rank : String → ℕ) (depth : ℕ) (ts : List Task) (o : Orchestrator)
    → IsReady wid rank depth o
    → IsDistinct task_id ts
    → AreWaiting ts o
    → IsCounted wid o
    → IsCounted wid (gather w ts o).0
unfolding gather
gather-IsCounted w wid rank depth ts o r distinct waits h =
    (run_coroutines_inv w (AmidCounted w wid rank depth (weight o) (length ts))
      (advance-AmidCounted w wid rank depth (weight o) (length ts)) (4 * length ts) (map queued ts)
      o ((start-AmidRound w wid rank depth ts o r distinct waits).0, h)).1
