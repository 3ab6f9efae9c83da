-- ===== src/Orchestrator/Gather/Round.antt =====
-- What every turn of a round keeps: tasks under their ids, dependencies without a cycle, and no task
-- under way but for the coroutines of the round.
use rooben.Prelude.{
  ℕ, ◌≡◌, ◌⊎◌, inl, inr, refl, Bool, true, false, none, some, String, List, arith, Memᴰ,
  Option-cases,
}
use rooben.Dict.{Dict, get, has}
use rooben.Dict.Keyed.{has-put}
use rooben.Domain.Status.{is_pending, is_passed, is_failed, is_in_progress, is_verifying}
use rooben.Domain.Models.{Task, Workflow}
use rooben.Orchestrator.Core.{World, Orchestrator}
use rooben.Orchestrator.Execution.{Coroutine, queued, waiting, executing, verifying, ended, advance}
use rooben.Orchestrator.Execution.Effects.{
  IsSameTask, counted, turns_left, task_of, Holds, Tracks, Effect, refuse, admit, start, verify,
  retry, give_up, pass, break_off, Moves,
}
use rooben.Orchestrator.Execution.Moves.{advance-Advances}
use rooben.Orchestrator.Gather.{is_live}
use rooben.Orchestrator.Gather.Weight.{is_busy, Fits}

abbrev pub IsSettled : Task → Type 0
IsSettled t =
    (is_pending t.status ≡ true) ⊎ (is_passed t.status ≡ true) ⊎ (is_failed t.status ≡ true)

-- An agent or a verifier has the coroutine's task, or had it when an exception ended the coroutine.
unfoldable pub is_under_way : Coroutine → Bool
is_under_way (queued t) = false
is_under_way (waiting a t) = false
is_under_way (executing a t) = true
is_under_way (verifying t r) = true
is_under_way (ended id none) = false
is_under_way (ended id (some e)) = true

abbrev pub IsUnderWay : String → List Coroutine → Type 0
IsUnderWay id cs = (c : Coroutine) × Memᴰ c cs × (task_of c ≡ id) × (is_under_way c ≡ true)

-- A turn of a live coroutine on its task `t`.
pub record IsTurnOn (c : Coroutine) (o : Orchestrator) (move : Orchestrator × Coroutine)
    : Type 0 where
  pub t : Task
  pub t' : Task
  pub moves : Moves (turns_left c) t t' o move
  pub fits : Fits (turns_left c) t
  pub held : Holds t o
  pub named : task_of c ≡ t.id

pub advance-IsTurnOn :
    (w : World) (c : Coroutine) (o : Orchestrator)
    → is_live c ≡ true
    → Tracks c o
    → IsTurnOn c o (advance w c o)
unfolding turns_left task_of is_live is_busy is_in_progress is_verifying
advance-IsTurnOn w (queued t) o live tracks =
    let (t', moves) = advance-Advances w (queued t) o tracks in
    record {
      t = t;
      t' = t';
      moves = moves;
      fits = inl (inl refl, tracks.1);
      held = tracks.0;
      named = refl;
    }
advance-IsTurnOn w (waiting a t) o live tracks =
    let (t', moves) = advance-Advances w (waiting a t) o tracks in
    record {
      t = t;
      t' = t';
      moves = moves;
      fits = inl (inr refl, tracks.1);
      held = tracks.0;
      named = refl;
    }
advance-IsTurnOn w (executing a t) o live tracks =
    let (t', moves) = advance-Advances w (executing a t) o tracks in
    record {
      t = t;
      t' = t';
      moves = moves;
      fits = inr (inl refl, rw tracks.1);
      held = tracks.0;
      named = refl;
    }
advance-IsTurnOn w (verifying t r) o live tracks =
    let (t', moves) = advance-Advances w (verifying t r) o tracks in
    record {
      t = t;
      t' = t';
      moves = moves;
      fits = inr (inr refl, rw tracks.1);
      held = tracks.0;
      named = refl;
    }
advance-IsTurnOn w (ended id e) o live tracks = absurd (cc)

module _ (turns : ℕ) (c' : Coroutine) (t t' : Task) (ws ws' : Dict Workflow) where
  pub Effect-task_of : IsSameTask t t' → Effect turns c' t t' ws ws' → task_of c' ≡ t.id
  unfolding task_of
  Effect-task_of same (refuse p c s a w) = rw c
  Effect-task_of same (admit g p c s a w) = rw c same.same_id
  Effect-task_of same (start g p c s a w) = rw c same.same_id
  Effect-task_of same (verify r p c s a w) = rw c same.same_id
  Effect-task_of same (retry p c s lt a w) = rw c
  Effect-task_of same (give_up p c s le a w) = rw c
  Effect-task_of same (pass e p c s a w) = rw c
  Effect-task_of same (break_off e p c s a w) = rw c

  pub Effect-Tracks :
      (o : Orchestrator) → Fits turns t → Holds t' o → Effect turns c' t t' ws ws' → Tracks c' o
  Effect-Tracks o fits held (refuse p c s a w) = rw c tt
  Effect-Tracks o fits held (admit g p c s a w) = elim fits [
    | inl (early, pending) ↦ rw c (held, rw s pending)
    | inr (late, busy) ↦ absurd (omega arith)
  ]
  Effect-Tracks o fits held (start g p c s a w) = rw c (held, s)
  Effect-Tracks o fits held (verify r p c s a w) = rw c (held, s)
  Effect-Tracks o fits held (retry p c s lt a w) = rw c tt
  Effect-Tracks o fits held (give_up p c s le a w) = rw c tt
  Effect-Tracks o fits held (pass e p c s a w) = rw c tt
  Effect-Tracks o fits held (break_off e p c s a w) = rw c tt

  pub Effect-IsSettled :
      Fits turns t → Effect turns c' t t' ws ws' → IsSettled t' ⊎ (is_under_way c' ≡ true)
  unfolding is_under_way is_pending is_passed is_failed
  Effect-IsSettled fits (refuse p c s a w) = inl (inr (inr (rw s)))
  Effect-IsSettled fits (admit g p c s a w) = elim fits [
    | inl (early, pending) ↦ inl (inl (rw s pending))
    | inr (late, busy) ↦ absurd (omega arith)
  ]
  Effect-IsSettled fits (start g p c s a w) = inr (rw c)
  Effect-IsSettled fits (verify r p c s a w) = inr (rw c)
  Effect-IsSettled fits (retry p c s lt a w) = inl (inl (rw s))
  Effect-IsSettled fits (give_up p c s le a w) = inl (inr (inr (rw s)))
  Effect-IsSettled fits (pass e p c s a w) = inl (inr (inl (rw s)))
  Effect-IsSettled fits (break_off e p c s a w) = inr (rw c)

  has-counted : (b : Bool) (wid k : String) → has ws k ≡ true → has (counted b wid ws) k ≡ true
  has-counted b wid k h = elim (Option-cases (get ws wid)) [
    | inl absent ↦ rw (absent, counted) h
    | inr (x, e) ↦ rw (e, counted) (rw has-put (ground arith))
  ]

  pub Effect-has : (k : String) → Effect turns c' t t' ws ws' → has ws k ≡ true → has ws' k ≡ true
  Effect-has k (refuse p c s a w) h = rw w h
  Effect-has k (admit g p c s a w) h = rw w h
  Effect-has k (start g p c s a w) h = rw w h
  Effect-has k (verify r p c s a w) h = rw w h
  Effect-has k (retry p c s lt a w) h = rw w h
  Effect-has k (give_up p c s le a w) h = rw w (has-counted true t.workflow_id k h)
  Effect-has k (pass e p c s a w) h = rw w (has-counted false t.workflow_id k h)
  Effect-has k (break_off e p c s a w) h = rw w h
