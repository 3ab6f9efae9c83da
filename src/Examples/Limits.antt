-- ===== src/Examples/Limits.antt =====
-- The theorems on budgets, limits, retries and storage at concrete inputs.
use rooben.Prelude.{
  String, ℕ, zero, suc, ◌+◌, ◌*◌, ◌≤◌, ◌<◌, ◌≡◌, ◌≢◌, ◌↔◌, ◌⊎◌, refl, false, none, some, List, [],
  ◌∷◌, ◌++◌, arith, cond, Memᴰ, inr, str_eq,
}
use mathlib.Core.Option
use rooben.Dict.{get, has, values}
use rooben.Domain.Status.{TaskStatus}
use rooben.Domain.Models.{WorkflowState}
use rooben.Security.Budget.{sum}
use rooben.Security.Budget.Limits.{
  Call, use_tokens, complete_task, perform_all, IsWithinLimits, HasGrownAlike,
  perform_all-within_iff,
}
use rooben.Security.RateLimiter.{RateLimiter, stamps, prune, try_acquire, acquire}
use rooben.Security.RateLimiter.Window.{
  in_window, grants, grants-le_max, stamps-put, try_acquire-max,
}
use rooben.Security.RateLimiter.Waiting.{Holds, acquire_within}
use rooben.Resilience.CircuitBreaker.{
  BreakerState, CircuitBreaker, new_breaker, record_failure, count_of,
}
use rooben.Resilience.CircuitBreaker.Transitions.{record_failure-open_iff}
use rooben.Resilience.CircuitBreaker.History
use rooben.Resilience.CircuitBreaker.History.{
  failure, success, clear, streak, occurrences, perform_all-history,
}
use rooben.Resilience.Checkpoint.{CheckpointManager, force_checkpoint, rollback}
use rooben.Resilience.Checkpoint.Rollback.{IsRolledBack, rollback-force_checkpoint}
use rooben.Resilience.ApiLimiter.{new_limiter, begin_enter, locked, end_enter}
use rooben.Resilience.ApiLimiter.Bound.{Calls, Step, Reachable, Reachable-within}
use rooben.Resilience.ApiRetry.{Reply, returned, raised, retry_with_backoff}
use rooben.Resilience.ApiRetry.Attempts.{IsRun, retry_with_backoff-IsRun}
use rooben.State.Filesystem.{Disk, dump, dump_task, load_state, update_task}
use rooben.State.Filesystem.Laws.{task_of-update_task}
use rooben.Samples.{task, state_with, budget}

-- Sixty tokens, a completed task, and sixty tokens more, of a limit of one hundred.
abbrev calls : List Call
calls = use_tokens 60 (some "agent") ∷ complete_task ∷ use_tokens 60 (some "agent") ∷ []

perform_all-within_iff_example :
    HasGrownAlike budget (perform_all calls budget).0
    × (((perform_all calls budget).1 ≡ none) ↔ IsWithinLimits (perform_all calls budget).0)
unfolding sum
perform_all-within_iff_example =
    perform_all-within_iff calls budget
      (record { tokens_within = inr (omega arith); tasks_within = tt; cost_within = tt })

abbrev limiter : RateLimiter
limiter = record { max_per_minute = 2; timestamps = ("agent", 0 ∷ 500 ∷ []) ∷ [] }

grants-le_max_example :
    in_window 61_000 (
      grants "agent"
        ((0, "agent") ∷ (10, "other") ∷ (20, "agent") ∷ (30, "agent") ∷ (61_000, "agent") ∷ [])
        (record { max_per_minute = 2; timestamps = [] }))
    ≤ 2
grants-le_max_example =
    grants-le_max "agent" 2 0
      ((0, "agent") ∷ (10, "other") ∷ (20, "agent") ∷ (30, "agent") ∷ (61_000, "agent") ∷ [])
      (omega arith, (omega arith, (omega arith, (omega arith, (omega arith, tt))))) 61_000

-- Another agent comes to a round of its own between any two.
abbrev other_agent : ℕ → RateLimiter → RateLimiter
other_agent n r = (try_acquire (n * 1000 + 700) "other" r).0

other_agent-stamps : (n : ℕ) (r : RateLimiter) → stamps (other_agent n r) "agent" ≡ stamps r "agent"
unfolding try_acquire
other_agent-stamps n r = ground (
  arith,
  stamps-put r "other" "agent" (prune (n * 1000 + 700) (stamps r "other") ++ (n * 1000 + 700) ∷ []),
  stamps-put r "other" "agent" (prune (n * 1000 + 700) (stamps r "other")),
)

acquire_within_example :
    (r' : RateLimiter) × (m : ℕ) × (acquire 61 (λ n. n * 1000 + 500) other_agent 0 "agent" limiter
      ≡ some (r', m))
    × (m ≤ 0 + 60)
    × Holds r' "agent" (m * 1000 + 500)
unfolding stamps get
acquire_within_example =
    acquire_within (λ n. n * 1000 + 500) other_agent (λ k. omega arith) "agent"
      (λ n r. (other_agent-stamps n r, try_acquire-max (n * 1000 + 700) "other" r)) 500 60 0 limiter
      (omega arith) (omega arith, (omega arith, tt)) (omega arith)

-- A breaker that opened at second ten, for a minute.
abbrev breaker : CircuitBreaker
breaker = record (new_breaker 5 3 60_000) { state = BreakerState.open_; opened_at = 10_000 }

record_failure-open_iff_example :
    ((record_failure (λ s. s) 0 "boom" (new_breaker 5 3 60_000)).state ≡ BreakerState.open_) ↔ (
      (BreakerState.closed ≡ BreakerState.open_)
      ⊎ (BreakerState.closed ≡ BreakerState.half_open)
      ⊎ (5 ≤ 0 + 1)
      ⊎ (3 ≤ count_of [] "boom" + 1)
      ⊎ ((n : ℕ) × Memᴰ n (values []) × (3 ≤ n)))
record_failure-open_iff_example =
    record_failure-open_iff (λ s. s) 0 "boom" (new_breaker 5 3 60_000) (omega arith)

abbrev history : List History.Call
history = failure 0 "boom" ∷ clear ∷ success ∷ failure 5 "boom" ∷ failure 9 "bang" ∷ []

perform_all-history_example :
    let b = History.perform_all (λ s. s) history (new_breaker 2 3 60_000) in
    (count_of b.error_hashes "boom" ≡ occurrences (λ s. s) "boom" 0 history)
    × (b.consecutive_failures ≡ streak 0 history)
    × ((b.state ≢ BreakerState.closed) ⊎ (streak 0 history < 2))
perform_all-history_example = perform_all-history (λ s. s) 2 3 60_000 history "boom" (omega arith)

abbrev manager : CheckpointManager
manager = record { interval = 5; checkpoints = ("wf", state_with TaskStatus.in_progress ∷ []) ∷ [] }

rollback-force_checkpoint_example :
    (s' : WorkflowState) × ((rollback "wf"
        (force_checkpoint (state_with TaskStatus.in_progress) "wf" manager []).0).1
      ≡ some s')
    × ((k : String)
        → IsRolledBack "wf" (get (state_with TaskStatus.in_progress).tasks k) (get s'.tasks k))
    × (s' ≡ record (dump (state_with TaskStatus.in_progress)) { tasks = s'.tasks })
rollback-force_checkpoint_example =
    rollback-force_checkpoint (state_with TaskStatus.in_progress) "wf" manager []

-- A service that is overloaded twice, and then answers.
abbrev service : ℕ → Reply ℕ
service zero =
    raised (record {
      type_name = "OverloadedError";
      status_code = some 529;
      is_connection_error = false;
    })
service (suc zero) =
    raised (record { type_name = "ReadTimeout"; status_code = none; is_connection_error = false })
service (suc (suc n)) = returned 7

retry_with_backoff-IsRun_example :
    IsRun service (λ n d. d) 1000 60_000 3 0 (retry_with_backoff service (λ n d. d) 1000 60_000 3)
retry_with_backoff-IsRun_example =
    retry_with_backoff-IsRun service (λ n d. d) 1000 60_000 3 (λ n d. omega arith)

abbrev disk : Disk
disk = ("wf", state_with TaskStatus.pending) ∷ []

task_of-update_task_example :
    (s' : WorkflowState) × (load_state "wf" (update_task (task "a" [] TaskStatus.passed) disk)
      ≡ some s')
    × (get s'.tasks "b"
        ≡ Option.map dump_task (
            cond
              (str_eq "a" "b")
              (some (task "a" [] TaskStatus.passed))
              (get (state_with TaskStatus.pending).tasks "b")))
unfolding load_state get has
task_of-update_task_example =
    task_of-update_task (task "a" [] TaskStatus.passed) disk "b" {s = state_with TaskStatus.pending}
      refl refl

-- One slot: a call is inside, and another one was cancelled while it waited.
abbrev limiter_calls : Calls
limiter_calls = record {
  limiter = end_enter (begin_enter (begin_enter (new_limiter 1)));
  queued = 0;
  inside = 1;
  cancelled = 1;
}

limiter_calls-Reachable : Reachable 1 limiter_calls
unfolding new_limiter begin_enter locked end_enter
limiter_calls-Reachable =
    Reachable.later
      (Reachable.later (Reachable.later (Reachable.later Reachable.start Step.enters) Step.enters)
        (Step.is_let_in 1 refl refl))
      (Step.is_cancelled 0 refl)

Reachable-within_example : (1 ≤ 1) × (limiter_calls.limiter.waiting ≡ 0 + 1)
Reachable-within_example = Reachable-within 1 limiter_calls limiter_calls-Reachable
