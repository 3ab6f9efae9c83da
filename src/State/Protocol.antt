-- ===== src/State/Protocol.antt =====
-- src/rooben/state/protocol.py: the interface of a backend, and what it promises.
pub mod Refinement
use rooben.Prelude.{
  ℕ, Bool, String, ◌≡◌, refl, Option, none, some, Option-cases, inl, inr, List, [], ◌∷◌, cond, ap,
  ◌∙◌,
}
use rooben.Dict.{has, put}
use rooben.Domain.Models.{Task, Workflow, WorkflowState}
use rooben.State.Filesystem.{dump}

-- StateBackend, on what it stores; `initialize` and `close` do not change it.
pub record StateBackend (D : Type 0) : Type 0 where
  pub save_state : WorkflowState → D → D
  pub load_state : String → D → Option WorkflowState
  pub update_task : Task → D → D
  pub update_workflow : Workflow → D → D

-- A call that writes.
pub data Write : Type 0 where
  saved : WorkflowState → Write
  task_updated : Task → Write
  workflow_updated : Workflow → Write

-- The abstract store: for each workflow the state that a load gives.
abbrev Store : Type 0
Store = String → Option WorkflowState

-- A state is stored for each of its workflows, as a dump shows it.
unfoldable pub store : WorkflowState → Store → Store
unfolding has dump
store s loads wid = cond (has s.workflows wid) (some (dump s)) (loads wid)

-- The state for the workflow, if there is one, is changed and stored.
unfoldable pub restore : String → (WorkflowState → WorkflowState) → Store → Store
unfolding store
restore wid change loads k = elim (loads wid) [ none ↦ loads k | some s ↦ store (change s) loads k ]

-- What a write promises.
unfoldable pub promise : Write → Store → Store
unfolding store restore put
promise (saved s) loads = store s loads
promise (task_updated t) loads =
    restore t.workflow_id (λ s. record s { tasks = put s.tasks t.id t }) loads
promise (workflow_updated x) loads =
    restore x.id (λ s. record s { workflows = put s.workflows x.id x }) loads

unfoldable pub promise_all : List Write → Store → Store
unfolding promise
promise_all [] loads = loads
promise_all (w ∷ ws) loads = promise_all ws (promise w loads)

module _ {D : Type 0} (b : StateBackend D) where
  unfoldable pub write : Write → D → D
  write (saved s) d = b.save_state s d
  write (task_updated t) d = b.update_task t d
  write (workflow_updated x) d = b.update_workflow x d

  unfoldable pub write_all : List Write → D → D
  unfolding write
  write_all [] d = d
  write_all (w ∷ ws) d = write_all ws (write w d)

  -- Each write keeps its promise.
  pub record IsLawful : Type 0 where
    pub keeps :
        (w : Write) (d : D) (wid : String)
        → b.load_state wid (write w d) ≡ promise w (λ k. b.load_state k d) wid

store-ext :
    (s : WorkflowState) (l l' : Store) (same : (k : String) → l k ≡ l' k) (wid : String)
    → store s l wid ≡ store s l' wid
unfolding store
store-ext s l l' same wid = rw (same wid) refl

restore-ext :
    (id : String) (change : WorkflowState → WorkflowState) (l l' : Store)
    (same : (k : String) → l k ≡ l' k) (wid : String)
    → restore id change l wid ≡ restore id change l' wid
unfolding restore
restore-ext id change l l' same wid = elim (Option-cases (l' id)) [
  | inl absent ↦
      let absent' : l id ≡ none = same id ∙ absent in rw (restore, absent, absent') (same wid)
  | inr (s, there) ↦
      let there' : l id ≡ some s = same id ∙ there in
      rw (restore, there, there') (store-ext (change s) l l' same wid)
]

-- A promise is about what loads give.
promise-ext :
    (w : Write) (l l' : Store) (same : (k : String) → l k ≡ l' k) (wid : String)
    → promise w l wid ≡ promise w l' wid
unfolding promise
promise-ext (saved s) l l' same wid = store-ext s l l' same wid
promise-ext (task_updated t) l l' same wid = restore-ext t.workflow_id _ l l' same wid
promise-ext (workflow_updated x) l l' same wid = restore-ext x.id _ l l' same wid

promise_all-ext :
    (ws : List Write) (l l' : Store) (same : (k : String) → l k ≡ l' k) (wid : String)
    → promise_all ws l wid ≡ promise_all ws l' wid
unfolding promise_all
promise_all-ext [] l l' same wid = same wid
promise_all-ext (w ∷ ws) l l' same wid =
    promise_all-ext ws (promise w l) (promise w l') (promise-ext w l l' same) wid

module _ {D : Type 0} (b : StateBackend D) (lawful : IsLawful b) where
  -- A sequence of writes is seen by later loads as the promises say.
  pub load-write_all :
      (ws : List Write) (d : D) (wid : String)
      → b.load_state wid (write_all b ws d) ≡ promise_all ws (λ k. b.load_state k d) wid
  unfolding write_all promise_all
  load-write_all [] d wid = refl
  load-write_all (w ∷ ws) d wid =
      load-write_all ws (write b w d) wid
      ∙ promise_all-ext ws (λ k. b.load_state k (write b w d)) (promise w (λ k. b.load_state k d))
          (lawful.keeps w d) wid
