-- ===== src/Domain/State.antt =====
-- src/rooben/domain.py: the queries of `WorkflowState`, and `register_task`.
pub mod Blocked
pub mod Stalled
pub mod Progress
pub mod Registration
use rooben.Prelude.{
  ℕ, zero, suc, Bool, true, false, not, ◌&&◌, String, Option, none, some, List, [], ◌∷◌, str_eq,
  cond, any, all, keep, is_empty,
}
use rooben.Dict.{Dict, get, has, put, values}
use rooben.Domain.Status.{is_pending, is_passed, is_failed, is_terminal}
use rooben.Domain.Models.{Task, WorkflowState}

-- [t for t in self.tasks.values() if t.workflow_id == workflow_id]
unfoldable pub tasks_of : WorkflowState → String → List Task
unfolding values
tasks_of s wid = keep (λ t. str_eq t.workflow_id wid) (values s.tasks)

-- One dependency of `get_ready_tasks`: a key that is not in the dictionary does not count.
unfoldable pub dep_satisfied : Dict Task → String → Bool
unfolding get is_passed
dep_satisfied tasks dep = elim (get tasks dep) [ none ↦ true | some t ↦ is_passed t.status ]

unfoldable pub deps_satisfied : Dict Task → Task → Bool
unfolding dep_satisfied
deps_satisfied tasks t = all (dep_satisfied tasks) t.depends_on

-- WorkflowState.get_ready_tasks
unfoldable pub get_ready_tasks : WorkflowState → String → List Task
unfolding tasks_of is_pending deps_satisfied
get_ready_tasks s wid = keep (λ t. is_pending t.status && deps_satisfied s.tasks t) (tasks_of s wid)

-- WorkflowState.is_workflow_complete
unfoldable pub is_workflow_complete : WorkflowState → String → Bool
unfolding tasks_of has is_terminal
is_workflow_complete s wid =
    has s.workflows wid
    && (not (is_empty (tasks_of s wid)) && all (λ t. is_terminal t.status) (tasks_of s wid))

-- WorkflowState.is_workflow_failed
unfoldable pub is_workflow_failed : WorkflowState → String → Bool
unfolding tasks_of is_failed
is_workflow_failed s wid = any (λ t. is_failed t.status) (tasks_of s wid)

-- The pending tasks of a workflow (`is_workflow_stalled`).
unfoldable pub pending_tasks : WorkflowState → String → List Task
unfolding tasks_of is_pending
pending_tasks s wid = keep (λ t. is_pending t.status) (tasks_of s wid)

-- The answer of `_is_blocked` and the memo that it leaves. `none`: the recursion did not end within
-- the fuel, as Python's does not within its recursion limit.
abbrev pub Search : Type 0
Search = Option (Bool × Dict Bool)

-- any(_is_blocked(dep_id) for dep_id in depends_on): stops at the first hit, and hands the memo on.
unfoldable pub any_blocked : (String → Dict Bool → Search) → List String → Dict Bool → Search
any_blocked rec [] cache = some (false, cache)
any_blocked rec (dep ∷ deps) cache = elim (rec dep cache) [
  | none ↦ none
  | some (b, cache') ↦ elim b [ true ↦ some (true, cache') | false ↦ any_blocked rec deps cache' ]
]

remember : String → Search → Search
unfolding put
remember id none = none
remember id (some (b, cache)) = some (b, put cache id b)

-- The body of `_is_blocked` behind the memo, for a task that is there.
blocked_task : (String → Dict Bool → Search) → Task → String → Dict Bool → Search
unfolding is_failed is_passed any_blocked remember
blocked_task rec t id cache = cond (is_failed t.status) (remember id (some (true, cache))) (
    cond (is_passed t.status) (remember id (some (false, cache)))
      (remember id (any_blocked rec t.depends_on cache)))

-- WorkflowState.is_workflow_stalled, the inner function `_is_blocked`.
unfoldable pub is_blocked : ℕ → Dict Task → String → Dict Bool → Search
unfolding get blocked_task
is_blocked zero tasks id cache = none
is_blocked (suc fuel) tasks id cache = elim (get cache id) [
  | some b ↦ some (b, cache)
  | none ↦ elim (get tasks id) [
    | none ↦ some (false, cache)
    | some t ↦ blocked_task (is_blocked fuel tasks) t id cache
  ]
]

-- The loop over the pending tasks: an early `return False`, or `True` at the end.
unfoldable pub all_stuck : ℕ → Dict Task → List Task → Dict Bool → Option Bool
unfolding is_blocked
all_stuck fuel tasks [] cache = some true
all_stuck fuel tasks (t ∷ ts) cache = elim (is_empty t.depends_on) [
  | true ↦ some false
  | false ↦ elim (is_blocked fuel tasks t.id cache) [
    | none ↦ none
    | some (b, cache') ↦ elim b [ true ↦ all_stuck fuel tasks ts cache' | false ↦ some false ]
  ]
]

-- WorkflowState.is_workflow_stalled
unfoldable pub is_workflow_stalled : ℕ → WorkflowState → String → Option Bool
unfolding pending_tasks is_workflow_complete all_stuck
is_workflow_stalled fuel s wid = elim (pending_tasks s wid) [
  | [] ↦ some (is_workflow_complete s wid)
  | t ∷ ts ↦ all_stuck fuel s.tasks (t ∷ ts) []
]

-- WorkflowState.register_task. SHA-256 is not part of the program: the hash of a task is a
-- parameter. `none` in the second place: the task is a duplicate.
module _ (content_hash : Task → String) where
  unfoldable pub register_task : WorkflowState → Task → WorkflowState × Option Task
  unfolding has put
  register_task s t =
      cond (has s.task_hashes (content_hash t)) (s, none)
        (
          record s {
            task_hashes = put s.task_hashes (content_hash t) t.id;
            tasks = put s.tasks t.id t;
          },
          some t,
        )
