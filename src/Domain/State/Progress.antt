-- ===== src/Domain/State/Progress.antt =====
-- The execution loop asks `get_ready_tasks` and then `is_workflow_stalled`: between two rounds one of
-- the two says how to go on.
use rooben.Prelude.{
  ℕ, zero, suc, ◌<◌, String, ◌≡◌, refl, subst, ◌≢◌, Bool, true, false, some, [], Memᴰ, arith,
  str_eq, eq_iff, All, all, is_empty, Bool-cases, List-cases, inl, inr, ◌&&◌, ◌⊎◌, All-at,
  All-of_each, mem-keep, mem_of_mem-keep, keep-eq-nil, all_fails, all_of_each, all-false_at,
}
use rooben.Dict.{has, values}
use rooben.Dict.Keyed.{get-key, get-mem}
use rooben.Dict.Laws.{mem-get}
use rooben.Domain.Status.{TaskStatus, is_pending, is_failed, is_passed, is_terminal}
use rooben.Domain.Models.{Task, WorkflowState}
use rooben.Domain.State.{
  tasks_of, dep_satisfied, deps_satisfied, get_ready_tasks, is_workflow_complete, pending_tasks,
  is_workflow_stalled,
}
use rooben.Domain.State.Blocked.{Blocked, Verdict, by_failure, by_dependency}
use rooben.Domain.State.Stalled.{
  task_id, IsSound, IsStalled, mem_tasks_of, mem_pending, Blocked-dep, not-mem_of_empty,
  Blocked-not_satisfied, not_satisfied, is_workflow_stalled-decides,
}

-- Between two rounds no task is under way.
pub record IsQuiet (wid : String) (t : Task) : Type 0 where
  pub own : t.workflow_id ≡ wid
  pub settled :
      (is_pending t.status ≡ true) ⊎ (is_passed t.status ≡ true) ⊎ (is_failed t.status ≡ true)

pending-not_passed : (st : TaskStatus) → is_pending st ≡ true → is_passed st ≡ false
unfolding is_pending is_passed
pending-not_passed st h = ground arith

ended_of :
    (st : TaskStatus)
    → (is_pending st ≡ true) ⊎ (is_passed st ≡ true) ⊎ (is_failed st ≡ true)
    → is_pending st ≡ false
    → is_terminal st ≡ true
unfolding is_terminal is_passed is_failed
ended_of st h not_pending = ground arith

pub mem_ready :
    (s : WorkflowState) (wid : String) {t : Task}
    → Memᴰ t (get_ready_tasks s wid)
    → Memᴰ t (pending_tasks s wid) × (deps_satisfied s.tasks t ≡ true)
unfolding get_ready_tasks pending_tasks
mem_ready s wid {t} m =
    let (kept, p) =
      mem_of_mem-keep (λ (u : Task). is_pending u.status && deps_satisfied s.tasks u)
        (tasks_of s wid) m in
    (
      mem-keep (λ (u : Task). is_pending u.status) (tasks_of s wid) kept (ground arith),
      ground arith,
    )

module _ (s : WorkflowState) (wid : String) (rank : String → ℕ) (fuel : ℕ)
    (sound : IsSound s rank fuel) where
  -- On a sound state with a pending task: while the workflow counts as stalled, no task is ready, so
  -- that leaving the loop skips no work.
  pub ready_of_stalled :
      pending_tasks s wid ≢ []
      → is_workflow_stalled fuel s wid ≡ some true
      → get_ready_tasks s wid ≡ []
  unfolding deps_satisfied
  ready_of_stalled some_pending stalled = go (is_workflow_stalled-decides s wid rank fuel sound)
    where
      none_ready :
          All (λ t. Blocked s.tasks t.id) (pending_tasks s wid)
          → (t : Task) → ¬ Memᴰ t (get_ready_tasks s wid)
      none_ready stuck t m =
          let (waiting, free) = mem_ready s wid m in
          let (listed, p) = mem_pending s wid waiting in
          let (dep, needed, blocked) =
            Blocked-dep s.tasks t (get-mem task_id s.tasks sound.keyed listed) p
              (All-at (λ u. Blocked s.tasks u.id) (pending_tasks s wid) stuck waiting) in
          let fails : deps_satisfied s.tasks t ≡ false =
            all-false_at (dep_satisfied s.tasks) t.depends_on needed
              (Blocked-not_satisfied s.tasks dep blocked) in
          cc

      go :
          (b : Bool) × (is_workflow_stalled fuel s wid ≡ some b) × Verdict b (IsStalled s wid)
          → get_ready_tasks s wid ≡ []
      go (false, e, v) = cc
      go (true, e, inl (no_pending, _)) = absurd (some_pending no_pending)
      go (true, e, inr (_, stuck)) = elim (List-cases (get_ready_tasks s wid)) [
        | inl empty ↦ empty
        | inr (t, ts, e') ↦ absurd (none_ready stuck t (rw e' (Memᴰ.head refl)))
      ]

  module _ (quiet : (t : Task) → Memᴰ t (values s.tasks) → IsQuiet wid t)
      (none_ready : get_ready_tasks s wid ≡ []) where
    not_ready :
        (t : Task)
        → Memᴰ t (values s.tasks)
        → is_pending t.status ≡ true
        → deps_satisfied s.tasks t ≡ false
    unfolding get_ready_tasks tasks_of
    not_ready t m p =
        let mine : str_eq t.workflow_id wid ≡ true = (eq_iff t.workflow_id wid).1 (quiet t m).own in
        let listed = mem-keep (λ (u : Task). str_eq u.workflow_id wid) (values s.tasks) m mine in
        let no =
          keep-eq-nil (λ (u : Task). is_pending u.status && deps_satisfied s.tasks u)
            (tasks_of s wid) none_ready listed in
        ground arith

    Blocked-below :
        (n : ℕ) (t : Task)
        → rank t.id < n
        → Memᴰ t (values s.tasks)
        → is_pending t.status ≡ true
        → Blocked s.tasks t.id
    unfolding deps_satisfied
    Blocked-below zero t lt m p = absurd (omega arith)
    Blocked-below (suc n) t lt m p =
        let (dep, listed, unsatisfied) =
          all_fails (dep_satisfied s.tasks) t.depends_on (not_ready t m p) in
        let (u, at_dep, waits) = not_satisfied s.tasks dep unsatisfied in
        let u_listed = mem-get s.tasks dep at_dep in
        let named = get-key task_id s.tasks dep sound.keyed at_dep in
        let at_id = get-mem task_id s.tasks sound.keyed m in
        let lower =
          All-at (λ d. rank d < rank t.id) t.depends_on (sound.ranked t.id t at_id) listed in
        let not_passed : is_passed t.status ≡ false = pending-not_passed t.status p in
        by_dependency t dep at_id not_passed listed (elim (quiet u u_listed).settled [
          | inl u_waits ↦
              subst (Blocked s.tasks) named
                (Blocked-below n u (rw named (omega arith)) u_listed u_waits)
          | inr (inl passed) ↦ absurd (cc)
          | inr (inr failed) ↦ by_failure u at_dep failed
        ])

    complete_of_none_pending :
        (x : Task)
        → Memᴰ x (values s.tasks)
        → has s.workflows wid ≡ true
        → pending_tasks s wid ≡ []
        → is_workflow_complete s wid ≡ true
    unfolding is_workflow_complete pending_tasks tasks_of
    complete_of_none_pending x m there none_pending =
        let mine : str_eq x.workflow_id wid ≡ true = (eq_iff x.workflow_id wid).1 (quiet x m).own in
        let listed = mem-keep (λ (u : Task). str_eq u.workflow_id wid) (values s.tasks) m mine in
        let all_ended : all (λ (t : Task). is_terminal t.status) (tasks_of s wid) ≡ true =
          all_of_each (λ (t : Task). is_terminal t.status) (tasks_of s wid)
            (λ u u_in. ended_of u.status (quiet u (mem_tasks_of s wid u_in).0).settled (
              keep-eq-nil (λ (t : Task). is_pending t.status) (tasks_of s wid) none_pending
                u_in)) in
        elim (Bool-cases (is_empty (tasks_of s wid))) [
          | inl empty ↦ absurd (not-mem_of_empty (tasks_of s wid) empty listed)
          | inr some_task ↦ rw (there, some_task, all_ended)
        ]

  -- On a sound state of this one workflow, with some task: with no task under way, none ready and the
  -- workflow not complete, it is stalled, so that the loop has no reason to sleep.
  pub stalled_of_none_ready :
      ((t : Task) → Memᴰ t (values s.tasks) → IsQuiet wid t)
      → is_workflow_complete s wid ≡ false
      → has s.workflows wid ≡ true
      → values s.tasks ≢ []
      → get_ready_tasks s wid ≡ []
      → is_workflow_stalled fuel s wid ≡ some true
  stalled_of_none_ready quiet open_ there some_task none_ready =
      elim (List-cases (values s.tasks)) [
        | inl empty ↦ absurd (some_task empty)
        | inr (x, xs, e) ↦
            go x (rw e (Memᴰ.head refl)) (is_workflow_stalled-decides s wid rank fuel sound)
      ]
    where
      stalled : (x : Task) → Memᴰ x (values s.tasks) → IsStalled s wid
      stalled x m = elim (List-cases (pending_tasks s wid)) [
        | inl none_pending ↦
            absurd
              (let done = complete_of_none_pending quiet none_ready x m there none_pending in cc)
        | inr (t, ts, e) ↦ inr (
          (λ e'. cc),
          All-of_each (λ u. Blocked s.tasks u.id) (pending_tasks s wid)
              λ u m'.
                let (listed, p) = mem_pending s wid m' in
                Blocked-below quiet none_ready (suc (rank u.id)) u (omega arith) listed p,
        )
      ]

      go :
          (x : Task)
          → Memᴰ x (values s.tasks)
          → (b : Bool) × (is_workflow_stalled fuel s wid ≡ some b) × Verdict b (IsStalled s wid)
          → is_workflow_stalled fuel s wid ≡ some true
      go x m (true, e, v) = e
      go x m (false, e, v) = absurd (v (stalled x m))
