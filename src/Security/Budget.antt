-- ===== src/Security/Budget.antt =====
-- src/rooben/security/budget.py. The lock is never held across a wait, so a method is one step.
-- Costs are exact: millionths of a dollar, which is what the cost registry rounds to.
pub mod Limits
use rooben.Prelude.{
  ℕ, ◌+◌, ◌*◌, ◌/◌, ◌==◌, Bool, true, false, not, ◌&&◌, String, Option, none, some, List, [], ◌∷◌,
  ◌++◌, ltb, cond, if◌then◌else◌,
}
use rooben.Dict.{Dict, get, put}
use rooben.Domain.Models.{truthy}

pub data Resource : Type 0 where
  tokens tasks wall_seconds cost_usd : Resource

-- BudgetExceeded
pub record BudgetExceeded : Type 0 where
  pub resource : Resource
  pub limit : ℕ
  pub current : ℕ

pub record BudgetTracker : Type 0 where
  pub max_total_tokens : Option ℕ
  pub max_total_tasks : Option ℕ
  pub max_wall_seconds : Option ℕ
  pub max_concurrent_agents : ℕ
  pub max_cost_usd : Option ℕ
  pub tokens_used : ℕ
  pub tasks_completed : ℕ
  pub total_cost_usd : ℕ
  pub agent_tokens : Dict ℕ
  pub task_tokens : List ℕ

-- `limit and current > limit`: no limit, and the limit 0, are both false.
unfoldable pub exceeds : Option ℕ → ℕ → Bool
exceeds none current = false
exceeds (some limit) current = not (limit == 0) && ltb limit current

-- The exception, if the test holds.
unfoldable pub check_limit : Resource → Option ℕ → ℕ → Option BudgetExceeded
unfolding exceeds
check_limit r none current = none
check_limit r (some limit) current =
    if exceeds (some limit) current
    then some (record { resource = r; limit = limit; current = current })
    else none

-- self._agent_tokens.get(agent_id, 0)
unfoldable pub tokens_of : Dict ℕ → String → ℕ
unfolding get
tokens_of d agent = elim (get d agent) [ none ↦ 0 | some n ↦ n ]

charge_agent : Option String → ℕ → Dict ℕ → Dict ℕ
unfolding truthy put tokens_of
charge_agent none n d = d
charge_agent (some agent) n d = cond (truthy (some agent)) (put d agent (tokens_of d agent + n)) d

-- BudgetTracker.record_tokens: the counters are written before the test, so they keep what was used
-- when the exception is raised.
unfoldable pub record_tokens :
    ℕ → Option String → BudgetTracker → BudgetTracker × Option BudgetExceeded
unfolding charge_agent check_limit
record_tokens n agent b = (
  record b {
    tokens_used = b.tokens_used + n;
    task_tokens = b.task_tokens ++ n ∷ [];
    agent_tokens = charge_agent agent n b.agent_tokens;
  },
  check_limit tokens b.max_total_tokens (b.tokens_used + n),
)

-- BudgetTracker.record_task_completion
unfoldable pub record_task_completion : BudgetTracker → BudgetTracker × Option BudgetExceeded
unfolding check_limit
record_task_completion b = (
  record b { tasks_completed = b.tasks_completed + 1 },
  check_limit tasks b.max_total_tasks (b.tasks_completed + 1),
)

-- BudgetTracker.check_wall_time, on the elapsed milliseconds: the limit is in whole seconds, and the
-- exception tells the elapsed time as an int.
unfoldable pub check_wall_time : ℕ → BudgetTracker → Option BudgetExceeded
check_wall_time elapsed b = elim b.max_wall_seconds [
  | none ↦ none
  | some limit ↦
      if not (limit == 0) && ltb (limit * 1000) elapsed
      then some (record { resource = wall_seconds; limit = limit; current = elapsed / 1000 })
      else none
]

-- BudgetTracker.record_llm_usage, up to the callbacks: they are called if no exception is raised.
unfoldable pub record_llm_usage : ℕ → BudgetTracker → BudgetTracker × Option BudgetExceeded
unfolding check_limit
record_llm_usage cost b = (
  record b { total_cost_usd = b.total_cost_usd + cost },
  check_limit cost_usd b.max_cost_usd (b.total_cost_usd + cost),
)

unfoldable pub sum : List ℕ → ℕ
sum [] = 0
sum (n ∷ ns) = n + sum ns
