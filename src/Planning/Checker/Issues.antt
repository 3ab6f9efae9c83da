-- ===== src/Planning/Checker/Issues.antt =====
-- When each of the structural checks finds no issue.
use rooben.Prelude.{
  is_empty-append, ◌≡◌, refl, ◌&&◌, not, String, Bool, false, none, some, List, [], ◌∷◌, map, keep,
  all, is_empty, arith,
}
use rooben.Domain.Models.{Task, text_truthy, truthy}
use rooben.Planning.Checker.{
  Issue, unknown_dependency, contains, unassigned_issues, agent_issues, dependency_issues,
}

-- The task has an agent, and the specification lists it.
unfoldable pub has_known_agent : List String → Task → Bool
unfolding text_truthy contains
has_known_agent agent_ids t = elim t.assigned_agent_id [
  | none ↦ false
  | some a ↦ text_truthy a && contains agent_ids a
]

-- Each dependency is a task of the plan.
unfoldable pub has_known_deps : List String → Task → Bool
unfolding contains
has_known_deps task_ids t = all (contains task_ids) t.depends_on

pub agents-is_empty :
    (ids : List String) (ts : List Task)
    → (is_empty (unassigned_issues ts) && is_empty (agent_issues ids ts))
      ≡ all (has_known_agent ids) ts
unfolding unassigned_issues agent_issues has_known_agent truthy
agents-is_empty ids [] = refl
agents-is_empty ids (t ∷ ts) = ground (arith, agents-is_empty ids ts)

is_empty-unknown_deps :
    (f : String → Issue) (ids deps : List String)
    → is_empty (map f (keep (λ d. not (contains ids d)) deps)) ≡ all (contains ids) deps
is_empty-unknown_deps f ids [] = refl
is_empty-unknown_deps f ids (d ∷ deps) = ground (arith, is_empty-unknown_deps f ids deps)

pub is_empty-dependency_issues :
    (ids : List String) (ts : List Task)
    → is_empty (dependency_issues ids ts) ≡ all (has_known_deps ids) ts
unfolding dependency_issues has_known_deps
is_empty-dependency_issues ids [] = refl
is_empty-dependency_issues ids (t ∷ ts) =
    rw
      (
        is_empty-append
            (map (λ d. unknown_dependency t.title d)
              (keep (λ d. not (contains ids d)) t.depends_on))
            (dependency_issues ids ts),
        is_empty-unknown_deps (λ d. unknown_dependency t.title d) ids t.depends_on,
        is_empty-dependency_issues ids ts,
      )
      refl
