-- ===== src/Orchestrator/Gather.antt =====
-- src/rooben/orchestrator.py, `_execute_workflow`: the round of `asyncio.gather`. Its coroutines take
-- turns in an order that the event loop chooses; `return_exceptions` collects what they raise.
pub mod Schedule
pub mod Weight
pub mod Round
pub mod Rounds
pub mod Ready
pub mod Counted
use rooben.Prelude.{
  ℕ, zero, suc, ◌*◌, ◌%◌, Bool, true, false, Option, none, some, List, [], ◌∷◌, cond, count, length,
  map,
}
use rooben.Domain.Models.{Task}
use rooben.Security.Budget.{BudgetExceeded}
use rooben.Orchestrator.Core.{Raised, budget_exceeded, other_error, World, Orchestrator, next_call}
use rooben.Orchestrator.Execution.{Coroutine, queued, waiting, executing, verifying, ended, advance}

-- The first budget exception among the results; the others are dropped.
unfoldable pub first_budget : List Raised → Option BudgetExceeded
first_budget [] = none
first_budget (budget_exceeded x ∷ es) = some x
first_budget (other_error m ∷ es) = first_budget es

-- Is the coroutine not over?
unfoldable pub is_live : Coroutine → Bool
is_live (ended id e) = false
is_live (queued t) = true
is_live (waiting a t) = true
is_live (executing a t) = true
is_live (verifying t r) = true

-- What the coroutines raised, in the order of the list.
unfoldable pub results : List Coroutine → List Raised
results [] = []
results (ended id (some e) ∷ cs) = e ∷ results cs
results (ended id none ∷ cs) = results cs
results (queued t ∷ cs) = results cs
results (waiting a t ∷ cs) = results cs
results (executing a t ∷ cs) = results cs
results (verifying t r ∷ cs) = results cs

module _ (w : World) where
  -- A turn of the coroutine that has `k` live ones before it.
  unfoldable pub advance_nth : ℕ → List Coroutine → Orchestrator → Orchestrator × List Coroutine
  unfolding is_live
  advance_nth k [] o = (o, [])
  advance_nth k (c ∷ cs) o = elim (is_live c) [
    | false ↦ let (o1, cs1) = advance_nth k cs o in (o1, c ∷ cs1)
    | true ↦ elim k [
      | zero ↦ let (o1, c1) = advance w c o in (o1, c1 ∷ cs)
      | suc j ↦ let (o1, cs1) = advance_nth j cs o in (o1, c ∷ cs1)
    ]
  ]

  -- So many turns at most, each of a live coroutine that the event loop chooses.
  unfoldable pub run_coroutines : ℕ → List Coroutine → Orchestrator → Orchestrator × List Coroutine
  unfolding advance_nth next_call
  run_coroutines zero cs o = (o, cs)
  run_coroutines (suc turns) cs o = elim (count is_live cs) [
    | zero ↦ (o, cs)
    | suc n ↦
        let (o1, cs1) = advance_nth (w.pick o.calls % suc n) cs (next_call o) in
        run_coroutines turns cs1 o1
  ]

  -- asyncio.gather(*coros, return_exceptions=True): no coroutine has more than four turns.
  unfoldable pub gather : List Task → Orchestrator → Orchestrator × List Raised
  unfolding run_coroutines results
  gather ts o = let (o1, cs) = run_coroutines (4 * length ts) (map queued ts) o in (o1, results cs)
