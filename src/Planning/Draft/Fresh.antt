-- ===== src/Planning/Draft/Fresh.antt =====
-- What a state that `_build_state` gives has.
use rooben.Prelude.{
  get_or, ℕ, suc, ◌≡◌, refl, subst, String, true, List, [], ◌∷◌, arith, eq_refl, inl, inr, All-at,
  All-of_each, All-append, Bool-cases, Option-cases, ap, sym, ◌++◌, str_append,
}
use rooben.Dict.{Dict, has, put, values}
use rooben.Dict.Laws.{All-put, get-put_self}
use rooben.Dict.Keyed.{put-IsKeyed, has-put}
use rooben.Domain.Status.{is_pending}
use rooben.Domain.Models.{Task, WorkflowState}
use rooben.Domain.State.{register_task}
use rooben.Domain.State.Stalled.{task_id}
use rooben.Orchestrator.Core.{returned, failed}
use rooben.Planning.Draft.{
  TaskData, WorkstreamData, PlanData, Sources, SpecView, scoped_id, suffix_of, plan_agent, Drafting,
  new_task, register_draft, draft_task, draft_tasks, new_workstream, close_workstream,
  draft_workstream, draft_workstreams, begin_draft, close_draft, remap_workstreams, build_state,
}
use rooben.Planning.Draft.Invariant.{
  IsDraft, IsNew, IsListed, IsFresh, IsListed-put, length-values-put, Reply-cases,
  failed-ne_returned, returned-inj,
}

module _ (src : Sources) (spec : SpecView) (wid : String) where
  -- The branch of `register_draft` in which the task is new.
  abbrev enter : Task → Drafting → Drafting
  enter t b = record {
    state = record b.state {
      task_hashes = put b.state.task_hashes (src.content_hash t) t.id;
      tasks = put b.state.tasks t.id t;
    };
    workstream = record b.workstream { task_ids = b.workstream.task_ids ++ t.id ∷ [] };
    workflow = record b.workflow { total_tasks = suc b.workflow.total_tasks };
    drawn = suc b.drawn;
  }

  enter-IsDraft : (t : Task) (b : Drafting) → IsNew wid t → IsDraft wid b → IsDraft wid (enter t b)
  enter-IsDraft t b new h = record {
    keyed = put-IsKeyed task_id b.state.tasks t.id t refl h.keyed;
    fresh = All-put (IsNew wid) b.state.tasks t.id t h.fresh new;
    counted = omega (arith, h.counted, length-values-put b.state.tasks t.id t);
    listed = All-of_each (IsListed (put b.state.tasks t.id t)) (values b.state.workstreams) (λ ws m.
        IsListed-put b.state.tasks t.id t ws
          (All-at (IsListed b.state.tasks) (values b.state.workstreams) h.listed m));
    current =
        All-append (λ k. has (put b.state.tasks t.id t) k ≡ true) b.workstream.task_ids (t.id ∷ [])
          (IsListed-put b.state.tasks t.id t b.workstream h.current)
          (rw (has-put b.state.tasks t.id t.id t, eq_refl t.id) refl, tt);
    unstarted = h.unstarted;
  }

  register_draft-IsDraft :
      (t : Task) (b : Drafting)
      → IsNew wid t
      → IsDraft wid b
      → IsDraft wid (register_draft src spec wid t b)
  unfolding register_draft register_task
  register_draft-IsDraft t b new h =
      elim (Bool-cases (has b.state.task_hashes (src.content_hash t))) [
        | inl known ↦
            let same : register_draft src spec wid t b ≡ record b { drawn = suc b.drawn } =
              ground arith in
            subst (IsDraft wid) (sym same) (record {
              keyed = h.keyed;
              fresh = h.fresh;
              counted = h.counted;
              listed = h.listed;
              current = h.current;
              unstarted = h.unstarted;
            })
        | inr unknown ↦
            let same : register_draft src spec wid t b ≡ enter t b = ground arith in
            subst (IsDraft wid) (sym same) (enter-IsDraft t b new h)
      ]

  draft_task-IsDraft :
      (remap : Dict String) (d : TaskData) (b b' : Drafting)
      → IsDraft wid b
      → draft_task src spec wid remap d b ≡ returned b'
      → IsDraft wid b'
  unfolding draft_task new_task is_pending
  draft_task-IsDraft remap d b b' h e =
      elim (Reply-cases (plan_agent spec.agents d.assigned_agent_id)) [
        | inl (x, bad) ↦
            let stopped : failed x ≡ returned b' = rw (draft_task, bad) at e in absurd (cc)
        | inr (agent, ok) ↦ elim (Option-cases d.title) [
          | inl missing ↦
              let stopped : failed "KeyError" ≡ returned b' = rw (draft_task, ok, missing) at e in
              absurd (cc)
          | inr (title, present) ↦
              let t = new_task src spec wid remap b.workstream.id d agent title b.drawn in
              let done : returned (register_draft src spec wid t b) ≡ returned b' =
                rw (draft_task, ok, present) at e in
              let same : register_draft src spec wid t b ≡ b' = cc in
              subst (IsDraft wid) same (register_draft-IsDraft t b (refl, refl) h)
        ]
      ]

  draft_tasks-IsDraft :
      (remap : Dict String) (ds : List TaskData) (b b' : Drafting)
      → IsDraft wid b
      → draft_tasks src spec wid remap ds b ≡ returned b'
      → IsDraft wid b'
  unfolding draft_tasks
  draft_tasks-IsDraft remap [] b b' h e = let same : b ≡ b' = cc in subst (IsDraft wid) same h
  draft_tasks-IsDraft remap (d ∷ ds) b b' h e =
      elim (Reply-cases (draft_task src spec wid remap d b)) [
        | inl (x, bad) ↦
            let stopped : failed x ≡ returned b' = rw (draft_tasks, bad) at e in absurd (cc)
        | inr (b1, ok) ↦
            draft_tasks-IsDraft remap ds b1 b' (draft_task-IsDraft remap d b b1 h ok)
              (rw (draft_tasks, ok) at e)
      ]

  close_workstream-IsDraft :
      (b : Drafting) → IsDraft wid b → IsDraft wid (close_workstream src spec wid b)
  unfolding close_workstream
  close_workstream-IsDraft b h = record {
    keyed = h.keyed;
    fresh = h.fresh;
    counted = h.counted;
    listed =
        All-put (IsListed b.state.tasks) b.state.workstreams b.workstream.id b.workstream h.listed
          h.current;
    current = h.current;
    unstarted = h.unstarted;
  }

  draft_workstream-IsDraft :
      (remap : Dict String) (d : WorkstreamData) (b b' : Drafting)
      → IsDraft wid b
      → draft_workstream src spec wid remap d b ≡ returned b'
      → IsDraft wid b'
  unfolding draft_workstream new_workstream
  draft_workstream-IsDraft remap d b b' h e = elim (Option-cases d.name) [
    | inl missing ↦
        let stopped : failed "KeyError" ≡ returned b' = rw (draft_workstream, missing) at e in
        absurd (cc)
    | inr (name, present) ↦
        let raw = get_or d.id (str_append "ws-" (src.hex8 b.drawn)) in
        let ws = new_workstream src spec wid (scoped_id (suffix_of wid) raw) d name b.drawn in
        let begun = record b { workstream = ws; drawn = suc b.drawn } in
        elim (Reply-cases (draft_tasks src spec wid remap (get_or d.tasks []) begun)) [
          | inl (x, bad) ↦
              let stopped : failed x ≡ returned b' = rw (draft_workstream, present, bad) at e in
              absurd (cc)
          | inr (b1, ok) ↦
              let done : returned (close_workstream src spec wid b1) ≡ returned b' =
                rw (draft_workstream, present, ok) at e in
              let same : close_workstream src spec wid b1 ≡ b' = cc in
              let start : IsDraft wid begun = record {
                keyed = h.keyed;
                fresh = h.fresh;
                counted = h.counted;
                listed = h.listed;
                current = tt;
                unstarted = h.unstarted;
              } in
              subst (IsDraft wid) same (
                close_workstream-IsDraft b1
                  (draft_tasks-IsDraft remap (get_or d.tasks []) begun b1 start ok))
        ]
  ]

  draft_workstreams-IsDraft :
      (remap : Dict String) (ds : List WorkstreamData) (b b' : Drafting)
      → IsDraft wid b
      → draft_workstreams src spec wid remap ds b ≡ returned b'
      → IsDraft wid b'
  unfolding draft_workstreams
  draft_workstreams-IsDraft remap [] b b' h e = let same : b ≡ b' = cc in subst (IsDraft wid) same h
  draft_workstreams-IsDraft remap (d ∷ ds) b b' h e =
      elim (Reply-cases (draft_workstream src spec wid remap d b)) [
        | inl (x, bad) ↦
            let stopped : failed x ≡ returned b' = rw (draft_workstreams, bad) at e in absurd (cc)
        | inr (b1, ok) ↦
            draft_workstreams-IsDraft remap ds b1 b' (draft_workstream-IsDraft remap d b b1 h ok)
              (rw (draft_workstreams, ok) at e)
      ]

  -- Whatever the plan says, if `_build_state` returns a state, then the state is a planned one: its
  -- tasks stand under their ids, belong to the workflow and are pending, its workstreams name tasks of
  -- the state alone, and the workflow is there, counts at least as many tasks as there are, and has counted
  -- no end of a task.
  pub build_state-IsFresh :
      (plan : PlanData) (n m : ℕ) (s : WorkflowState)
      → build_state src spec wid plan n ≡ returned (s, m)
      → IsFresh wid s
  unfolding build_state begin_draft close_draft values
  build_state-IsFresh plan n m s e =
      let workstreams = get_or plan.workstreams [] in
      let (remap, k) = remap_workstreams src spec wid workstreams ([], n) in
      elim (Reply-cases
        (draft_workstreams src spec wid remap workstreams (begin_draft src spec wid k))) [
          | inl (x, bad) ↦
              let stopped : failed x ≡ returned (s, m) = rw (build_state, bad) at e in
              absurd (failed-ne_returned x (s, m) stopped)
          | inr (b, ok) ↦
              let done : returned (close_draft src spec wid b) ≡ returned (s, m) =
                rw (build_state, ok) at e in
              let same : (close_draft src spec wid b).0 ≡ s =
                ap (λ r. r.0) (returned-inj (close_draft src spec wid b) (s, m) done) in
              let start : IsDraft wid (begin_draft src spec wid k) = record {
                keyed = tt;
                fresh = tt;
                counted = omega arith;
                listed = tt;
                current = tt;
                unstarted = (refl, refl);
              } in
              let h = draft_workstreams-IsDraft remap workstreams _ b start ok in
              subst (IsFresh wid) same (record {
                keyed = h.keyed;
                fresh = h.fresh;
                listed = h.listed;
                workflow = b.workflow;
                there = get-put_self b.state.workflows wid b.workflow;
                counted = h.counted;
                unstarted = h.unstarted;
              })
        ]
