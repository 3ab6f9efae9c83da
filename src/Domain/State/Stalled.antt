-- ===== src/Domain/State/Stalled.antt =====
-- The execution loop asks `get_ready_tasks` and then `is_workflow_stalled`: between two rounds one of
-- the two always says how to go on.
use rooben.Prelude.{
  ℕ, ◌<◌, String, ◌≡◌, refl, subst, ◌≢◌, Bool, true, false, some, List, [], ◌∷◌, Memᴰ, arith,
  str_eq, All, is_empty, Bool-cases, Option-cases, List-cases, inl, inr, ◌⊎◌, mem_of_mem-keep,
}
use rooben.Dict.{Dict, get, values}
use rooben.Dict.Keyed.{IsKeyed, get-mem}
use rooben.Domain.Status.{is_pending, is_failed, is_passed}
use rooben.Domain.Models.{Task, WorkflowState}
use rooben.Domain.State.{
  tasks_of, dep_satisfied, is_workflow_complete, pending_tasks, is_blocked, all_stuck,
  is_workflow_stalled,
}
use rooben.Domain.State.Blocked.{
  Blocked, IsRanked, Verdict, IsCacheRight, Decides, is_blocked-decides, by_failure, by_dependency,
}

abbrev pub task_id : Task → String
task_id t = t.id

-- What the loop relies on: tasks under their own ids, dependencies without a cycle, and fuel above
-- every rank.
pub record IsSound (s : WorkflowState) (rank : String → ℕ) (fuel : ℕ) : Type 0 where
  pub keyed : IsKeyed task_id s.tasks
  pub ranked : IsRanked rank s.tasks
  pub fuelled : (t : Task) → Memᴰ t (values s.tasks) → rank t.id < fuel

-- A dependency that is blocked has not passed.
pub Blocked-not_satisfied :
    (tasks : Dict Task) (id : String) → Blocked tasks id → dep_satisfied tasks id ≡ false
unfolding dep_satisfied is_failed is_passed
Blocked-not_satisfied tasks id (by_failure t e f) = ground arith
Blocked-not_satisfied tasks id (by_dependency t dep e p m b) = ground arith

pub not_satisfied :
    (tasks : Dict Task) (id : String)
    → dep_satisfied tasks id ≡ false
    → (t : Task) × (get tasks id ≡ some t) × (is_passed t.status ≡ false)
unfolding dep_satisfied
not_satisfied tasks id h = elim (Option-cases (get tasks id)) [
  | inl absent ↦ absurd (let e' : true ≡ false = rw (absent, dep_satisfied) at h in cc)
  | inr (t, e) ↦ (t, e, rw (e, dep_satisfied) at h)
]

pub not-mem_of_empty {ℓ} : {A : Type ℓ} {a : A} (xs : List A) → is_empty xs ≡ true → ¬ Memᴰ a xs
not-mem_of_empty [] h m = elim m [ ]
not-mem_of_empty (x ∷ xs) h m = cc

-- A pending task is blocked by one of its dependencies.
pub Blocked-dep :
    (tasks : Dict Task) (t : Task)
    → get tasks t.id ≡ some t
    → is_pending t.status ≡ true
    → Blocked tasks t.id
    → (dep : String) × Memᴰ dep t.depends_on × Blocked tasks dep
unfolding is_pending is_failed
Blocked-dep tasks t e p (by_failure u e' f) = let same : u ≡ t = cc in absurd (ground arith)
Blocked-dep tasks t e p (by_dependency u dep e' _ m b) =
    let same : u ≡ t = cc in (dep, subst (λ (w : Task). Memᴰ dep w.depends_on) same m, b)

-- A pending task with no dependencies can run.
pending-free :
    (tasks : Dict Task) (t : Task)
    → get tasks t.id ≡ some t
    → is_pending t.status ≡ true
    → is_empty t.depends_on ≡ true
    → ¬ Blocked tasks t.id
pending-free tasks t e p empty b = not-mem_of_empty t.depends_on empty (Blocked-dep tasks t e p b).1

module _ (s : WorkflowState) (wid : String) where
  pub mem_tasks_of :
      {t : Task}
      → Memᴰ t (tasks_of s wid)
      → Memᴰ t (values s.tasks) × (str_eq t.workflow_id wid ≡ true)
  unfolding tasks_of
  mem_tasks_of m = mem_of_mem-keep (λ (t : Task). str_eq t.workflow_id wid) (values s.tasks) m

  pub mem_pending :
      {t : Task}
      → Memᴰ t (pending_tasks s wid)
      → Memᴰ t (values s.tasks) × (is_pending t.status ≡ true)
  unfolding pending_tasks
  mem_pending m =
      let (kept, p) = mem_of_mem-keep (λ (t : Task). is_pending t.status) (tasks_of s wid) m in
      ((mem_tasks_of kept).0, p)

  -- The specification of `is_workflow_stalled`.
  abbrev pub IsStalled : Type 0
  IsStalled =
      (pending_tasks s wid ≡ []) × (is_workflow_complete s wid ≡ true)
      ⊎ (pending_tasks s wid ≢ []) × All (λ t. Blocked s.tasks t.id) (pending_tasks s wid)

module _ (s : WorkflowState) (wid : String) (rank : String → ℕ) (fuel : ℕ)
    (sound : IsSound s rank fuel) where
  all_stuck-decides :
      (ts : List Task) (cache : Dict Bool)
      → ((t : Task) → Memᴰ t ts → Memᴰ t (values s.tasks) × (is_pending t.status ≡ true))
      → IsCacheRight s.tasks cache
      → (b : Bool) × (all_stuck fuel s.tasks ts cache ≡ some b)
        × Verdict b (All (λ t. Blocked s.tasks t.id) ts)
  unfolding all_stuck
  all_stuck-decides [] cache h right = (true, refl, tt)
  all_stuck-decides (t ∷ ts) cache h right =
      let (listed, waits) = h t (Memᴰ.head refl) in
      let at_id = get-mem task_id s.tasks sound.keyed listed in
      elim (Bool-cases (is_empty t.depends_on)) [
        | inl free ↦ (
          false,
          rw (free, all_stuck),
          (λ all_blocked. pending-free s.tasks t at_id waits free all_blocked.0),
        )
        | inr deps ↦
            go deps
              (is_blocked-decides s.tasks rank sound.ranked fuel t.id cache (sound.fuelled t listed)
                right)
              (λ c. all_stuck-decides ts c (λ u m. h u (Memᴰ.tail m)))
      ]
    where
      go :
          is_empty t.depends_on ≡ false
          → Decides s.tasks (is_blocked fuel s.tasks t.id cache) (Blocked s.tasks t.id)
          → ((c : Dict Bool)
              → IsCacheRight s.tasks c
              → (b : Bool) × (all_stuck fuel s.tasks ts c ≡ some b)
                × Verdict b (All (λ t. Blocked s.tasks t.id) ts))
          → (b : Bool) × (all_stuck fuel s.tasks (t ∷ ts) cache ≡ some b)
            × Verdict b (All (λ t. Blocked s.tasks t.id) (t ∷ ts))
      go deps (false, c, e, v, r) ih =
          (false, rw (deps, e, all_stuck), (λ all_blocked. v all_blocked.0))
      go deps (true, c, e, v, r) ih = after (ih c r)
        where
          after :
              (b : Bool) × (all_stuck fuel s.tasks ts c ≡ some b)
                × Verdict b (All (λ t. Blocked s.tasks t.id) ts)
              → (b : Bool) × (all_stuck fuel s.tasks (t ∷ ts) cache ≡ some b)
                × Verdict b (All (λ t. Blocked s.tasks t.id) (t ∷ ts))
          after (true, e', v') = (true, rw (deps, e, all_stuck) e', (v, v'))
          after (false, e', v') =
              (false, rw (deps, e, all_stuck) e', (λ all_blocked. v' all_blocked.1))

  -- On a sound state the call returns, and it returns `True` exactly if nothing is pending and the workflow is
  -- complete, or if every pending task is blocked by a failure.
  pub is_workflow_stalled-decides :
      (b : Bool) × (is_workflow_stalled fuel s wid ≡ some b) × Verdict b (IsStalled s wid)
  unfolding is_workflow_stalled
  is_workflow_stalled-decides = elim (List-cases (pending_tasks s wid)) [
    | inl empty ↦ elim (Bool-cases (is_workflow_complete s wid)) [
      | inl done ↦ (true, rw (empty, done, is_workflow_stalled), inl (empty, done))
      | inr open_ ↦ (
        false,
        rw (empty, open_, is_workflow_stalled),
        (λ st. elim st [ inl both ↦ cc both.1 | inr both ↦ both.0 empty ]),
      )
    ]
    | inr (t, ts, e) ↦
        let (b, r, v) =
          all_stuck-decides (pending_tasks s wid) [] (λ u m. mem_pending s wid m) (λ id b h. cc) in
        (b, rw (e, is_workflow_stalled) (rw e at r), of_verdict b t ts e v)
  ]
    where
      of_verdict :
          (b : Bool) (t : Task) (ts : List Task)
          → pending_tasks s wid ≡ t ∷ ts
          → Verdict b (All (λ t. Blocked s.tasks t.id) (pending_tasks s wid))
          → Verdict b (IsStalled s wid)
      of_verdict true t ts e v = inr ((λ e'. cc), v)
      of_verdict false t ts e v = λ st. elim st [ inl both ↦ cc both.0 | inr both ↦ v both.1 ]
