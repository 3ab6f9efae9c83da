-- ===== src/Security/Budget/Limits.antt =====
-- What the budget tracker guarantees over a whole run of calls.
use rooben.Prelude.{
  ℕ, zero, suc, ◌+◌, ◌≤◌, ◌≡◌, refl, String, Option, none, some, List, [], ◌∷◌, ◌++◌, arith, ◌⊎◌,
  inl, inr, str_eq, eq_iff, Bool-cases, Option-cases, ◌↔◌, ◌≢◌, if◌then◌else◌,
}
use rooben.Dict.{Dict, put}
use rooben.Dict.Laws.{get-put}
use rooben.Domain.Models.{text_truthy}
use rooben.Security.Budget.{
  Resource, tokens, BudgetExceeded, BudgetTracker, check_limit, tokens_of, record_tokens,
  record_task_completion, record_llm_usage, sum,
}

-- The calls that change the tracker.
pub data Call : Type 0 where
  use_tokens : ℕ → Option String → Call
  complete_task : Call
  use_llm : ℕ → Call

unfoldable pub perform : Call → BudgetTracker → BudgetTracker × Option BudgetExceeded
unfolding record_tokens record_task_completion record_llm_usage
perform (use_tokens n agent) b = record_tokens n agent b
perform complete_task b = record_task_completion b
perform (use_llm cost) b = record_llm_usage cost b

-- A run ends with the first exception.
unfoldable pub perform_all : List Call → BudgetTracker → BudgetTracker × Option BudgetExceeded
unfolding perform
perform_all [] b = (b, none)
perform_all (c ∷ cs) b =
    let (b', raised) = perform c b in
    elim raised [ some e ↦ (b', some e) | none ↦ perform_all cs b' ]

-- The limit bounds the use, where there is a limit.
abbrev IsWithin : Option ℕ → ℕ → Type 0
IsWithin none current = Unit
IsWithin (some limit) current = (limit ≡ 0) ⊎ (current ≤ limit)

pub record IsWithinLimits (b : BudgetTracker) : Type 0 where
  pub tokens_within : IsWithin b.max_total_tokens b.tokens_used
  pub tasks_within : IsWithin b.max_total_tasks b.tasks_completed
  pub cost_within : IsWithin b.max_cost_usd b.total_cost_usd

check_limit-IsWithin :
    (r : Resource) (limit : Option ℕ) (n : ℕ) → check_limit r limit n ≡ none → IsWithin limit n
unfolding check_limit
check_limit-IsWithin r none n h = tt
check_limit-IsWithin r (some zero) n h = inl refl
check_limit-IsWithin r (some (suc l)) n h = inr (ground arith)

perform-IsWithinLimits :
    (c : Call) (b : BudgetTracker)
    → IsWithinLimits b
    → (perform c b).1 ≡ none
    → IsWithinLimits (perform c b).0
unfolding perform
perform-IsWithinLimits (use_tokens n agent) b w h = record {
  tokens_within = check_limit-IsWithin tokens b.max_total_tokens (b.tokens_used + n) h;
  tasks_within = w.tasks_within;
  cost_within = w.cost_within;
}
perform-IsWithinLimits complete_task b w h = record {
  tokens_within = w.tokens_within;
  tasks_within = check_limit-IsWithin Resource.tasks b.max_total_tasks (b.tasks_completed + 1) h;
  cost_within = w.cost_within;
}
perform-IsWithinLimits (use_llm cost) b w h = record {
  tokens_within = w.tokens_within;
  tasks_within = w.tasks_within;
  cost_within = check_limit-IsWithin Resource.cost_usd b.max_cost_usd (b.total_cost_usd + cost) h;
}

check_limit_beyond :
    (r : Resource) (limit : Option ℕ) (n : ℕ) {e : BudgetExceeded}
    → check_limit r limit n ≡ some e
    → ¬ IsWithin limit n
unfolding check_limit
check_limit_beyond r none n h = λ w. cc
check_limit_beyond r (some zero) n h = λ w. ground arith
check_limit_beyond r (some (suc l)) n h =
    λ w. elim w [ inl z ↦ absurd (omega arith) | inr le ↦ absurd (ground arith) ]

perform-beyond :
    (c : Call) (b : BudgetTracker) {e : BudgetExceeded}
    → (perform c b).1 ≡ some e
    → ¬ IsWithinLimits (perform c b).0
unfolding perform
perform-beyond (use_tokens n agent) b h =
    λ w. check_limit_beyond tokens b.max_total_tokens (b.tokens_used + n) h w.tokens_within
perform-beyond complete_task b h = λ w.
    check_limit_beyond Resource.tasks b.max_total_tasks (b.tasks_completed + 1) h w.tasks_within
perform-beyond (use_llm cost) b h = λ w.
    check_limit_beyond Resource.cost_usd b.max_cost_usd (b.total_cost_usd + cost) h w.cost_within

-- The total of one tracker has grown as much as the sum of its recorded counts.
abbrev pub HasGrownAlike : BudgetTracker → BudgetTracker → Type 0
HasGrownAlike b b' = b'.tokens_used + sum b.task_tokens ≡ b.tokens_used + sum b'.task_tokens

sum-append : (xs ys : List ℕ) → sum (xs ++ ys) ≡ sum xs + sum ys
unfolding sum
sum-append [] ys = omega arith
sum-append (x ∷ xs) ys = omega (arith, sum-append xs ys)

perform-HasGrownAlike : (c : Call) (b : BudgetTracker) → HasGrownAlike b (perform c b).0
unfolding perform sum
perform-HasGrownAlike (use_tokens n agent) b = omega (arith, sum-append b.task_tokens (n ∷ []))
perform-HasGrownAlike complete_task b = refl
perform-HasGrownAlike (use_llm cost) b = refl

-- From a tracker within its limits, a run of calls raises nothing exactly if it ends within all three
-- limits; and by any run, raising or not, the token total grows exactly as much as the sum of the
-- recorded counts.
pub perform_all-within_iff :
    (cs : List Call) (b : BudgetTracker)
    → IsWithinLimits b
    → HasGrownAlike b (perform_all cs b).0
      × (((perform_all cs b).1 ≡ none) ↔ IsWithinLimits (perform_all cs b).0)
unfolding perform_all
perform_all-within_iff [] b w = (refl, ((λ _. w), (λ _. refl)))
perform_all-within_iff (c ∷ cs) b w = elim (Option-cases (perform c b).1) [
  | inl quiet ↦
      let (alike, iff) =
        perform_all-within_iff cs (perform c b).0 (perform-IsWithinLimits c b w quiet) in
      rw (quiet, perform_all) (omega (arith, alike, perform-HasGrownAlike c b), iff)
  | inr (e, raised) ↦
      rw (raised, perform_all)
        (perform-HasGrownAlike c b, ((λ h. cc), (λ w'. absurd (perform-beyond c b raised w'))))
]

tokens_of-put :
    (d : Dict ℕ) (k j : String) (n : ℕ)
    → tokens_of (put d k n) j ≡ (if str_eq k j then n else tokens_of d j)
unfolding tokens_of
tokens_of-put d k j n = elim (Bool-cases (str_eq k j)) [
  | inl same ↦ rw (get-put, same, tokens_of)
  | inr other ↦ rw (get-put, other, tokens_of)
]

-- What `record_tokens` adds to an agent's account is the count, and no other account changes. An
-- empty agent id is charged to nobody.
tokens_of-record_tokens :
    (n : ℕ) (agent other : String) (b : BudgetTracker)
    → agent ≢ ""
    → tokens_of (record_tokens n (some agent) b).0.agent_tokens other
      ≡ tokens_of b.agent_tokens other + (if str_eq agent other then n else 0)
unfolding record_tokens text_truthy
tokens_of-record_tokens n agent other b named =
    let charged = tokens_of-put b.agent_tokens agent other (tokens_of b.agent_tokens agent + n) in
    ground (arith, eq_iff agent "", eq_iff agent other, charged)
