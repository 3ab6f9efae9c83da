-- ===== src/Orchestrator/Gather/Weight.antt =====
-- The starts that the tasks have left: each start of a task uses one up, and no turn adds one.
use rooben.Prelude.{
  ℕ, suc, ◌+◌, ◌-◌, ◌≤◌, ◌<◌, ◌≡◌, ◌⊎◌, ◌||◌, Bool, true, arith, cond, sum_of, ltb,
}
use rooben.Dict.{Dict, values}
use rooben.Dict.Laws.{sum_of-put}
use rooben.Domain.Status.{TaskStatus, is_pending, is_in_progress, is_verifying}
use rooben.Domain.Models.{Task, Workflow}
use rooben.Orchestrator.Core.{Orchestrator}
use rooben.Orchestrator.Execution.{Coroutine}
use rooben.Orchestrator.Execution.Effects.{
  IsSameTask, turns_left, Holds, Effect, refuse, admit, start, verify, retry, give_up, pass,
  break_off, Moves,
}

-- An agent or a verifier has the task.
unfoldable pub is_busy : TaskStatus → Bool
unfolding is_in_progress is_verifying
is_busy st = is_in_progress st || is_verifying st

-- The starts that a task has left; its attempt counts the one that is under way.
unfoldable pub starts_left : Task → ℕ
unfolding is_pending is_busy
starts_left t =
    cond (is_pending t.status) (suc (t.max_retries - suc t.attempt))
      (cond (is_busy t.status) (t.max_retries - t.attempt) 0)

-- The starts that all tasks have left.
unfoldable pub weight : Orchestrator → ℕ
unfolding starts_left values
weight o = sum_of starts_left (values o.state.tasks)

-- A coroutine before its start holds one of them.
unfoldable pub held_start : ℕ → ℕ
held_start turns = cond (ltb 2 turns) 1 0

-- The status that a task has while its coroutine waits.
abbrev pub Fits : ℕ → Task → Type 0
Fits turns t =
    ((turns ≡ 4) ⊎ (turns ≡ 3)) × (is_pending t.status ≡ true)
    ⊎ ((turns ≡ 2) ⊎ (turns ≡ 1)) × (is_busy t.status ≡ true)

Effect-starts_left :
    (turns : ℕ) (c' : Coroutine) (t t' : Task) {ws ws' : Dict Workflow}
    → Fits turns t
    → IsSameTask t t'
    → Effect turns c' t t' ws ws'
    → starts_left t' + held_start turns ≤ starts_left t + held_start (turns_left c')
unfolding starts_left held_start turns_left
Effect-starts_left turns c' t t' fits same (refuse p c s a w) =
    let limit = same.same_limit in rw c (ground arith)
Effect-starts_left turns c' t t' fits same (admit g p c s a w) =
    let limit = same.same_limit in rw c (ground arith)
Effect-starts_left turns c' t t' fits same (start g p c s a w) =
    let limit = same.same_limit in rw c (ground arith)
Effect-starts_left turns c' t t' fits same (verify r p c s a w) =
    let limit = same.same_limit in rw c (ground arith)
Effect-starts_left turns c' t t' fits same (retry p c s lt a w) =
    let limit = same.same_limit in rw c (ground arith)
Effect-starts_left turns c' t t' fits same (give_up p c s le a w) =
    let limit = same.same_limit in rw c (ground arith)
Effect-starts_left turns c' t t' fits same (pass e p c s a w) =
    let limit = same.same_limit in rw c (ground arith)
Effect-starts_left turns c' t t' fits same (break_off e p c s a w) =
    let limit = same.same_limit in rw c (ground arith)

-- No turn adds to the starts that are left, and the turn that starts a task uses up one of them.
pub Moves-weight :
    (turns : ℕ) (t t' : Task) (o : Orchestrator) (move : Orchestrator × Coroutine)
    → Fits turns t
    → Holds t o
    → Moves turns t t' o move
    → weight move.0 + held_start turns ≤ weight o + held_start (turns_left move.1)
unfolding weight
Moves-weight turns t t' o move fits held moves = rw moves.new_tasks (
    omega (
      arith,
      sum_of-put starts_left o.state.tasks t.id t' held,
      Effect-starts_left turns move.1 t t' fits moves.same moves.effect,
    ))

-- A turn is one of the turns that the coroutine has left.
pub Effect-turns_left :
    (turns : ℕ) (c' : Coroutine) (t t' : Task) {ws ws' : Dict Workflow}
    → Effect turns c' t t' ws ws'
    → turns_left c' < turns
unfolding turns_left
Effect-turns_left turns c' t t' (refuse p c s a w) = rw c (omega arith)
Effect-turns_left turns c' t t' (admit g p c s a w) = rw c (omega arith)
Effect-turns_left turns c' t t' (start g p c s a w) = rw c (omega arith)
Effect-turns_left turns c' t t' (verify r p c s a w) = rw c (omega arith)
Effect-turns_left turns c' t t' (retry p c s lt a w) = rw c (omega arith)
Effect-turns_left turns c' t t' (give_up p c s le a w) = rw c (omega arith)
Effect-turns_left turns c' t t' (pass e p c s a w) = rw c (omega arith)
Effect-turns_left turns c' t t' (break_off e p c s a w) = rw c (omega arith)
