-- ===== src/Orchestrator/Gather/Rounds.antt =====
-- A round from its start to its end: a turn keeps `InRound`, whatever the order of the turns.
use rooben.Prelude.{
  ℕ, ◌+◌, ◌≤◌, ◌<◌, ◌≡◌, ◌≢◌, ◌⊎◌, inl, inr, sym, ◌∙◌, subst, true, some, String, List, [], ◌∷◌,
  ◌++◌, arith, sum_of, Memᴰ, Bool-cases, str_eq, eq_iff, All,
}
use rooben.Dict.{get, has, put, values}
use rooben.Dict.Laws.{get-put, get-put_self, mem-get, mem-put, put-ne_nil}
use rooben.Dict.Keyed.{put-IsKeyed, get-mem, IsDistinct}
use rooben.Domain.Models.{Task}
use rooben.Domain.State.Blocked.{IsRanked}
use rooben.Domain.State.Stalled.{task_id, IsSound}
use rooben.Orchestrator.Core.{World, Orchestrator, next_call}
use rooben.Orchestrator.Execution.{Coroutine, queued, waiting, executing, verifying, ended, advance}
use rooben.Orchestrator.Execution.Effects.{turns_left, task_of, Holds, Tracks}
use rooben.Orchestrator.Gather.{is_live}
use rooben.Orchestrator.Gather.Schedule.{
  mem-split, mem-split_self, mem-split_other, sum_of-split, IsDistinct-split, split-IsDistinct,
}
use rooben.Orchestrator.Gather.Weight.{weight, held_start, Moves-weight}
use rooben.Orchestrator.Gather.Round.{
  IsSettled, IsUnderWay, IsTurnOn, advance-IsTurnOn, Effect-task_of, Effect-Tracks,
  Effect-IsSettled, Effect-has,
}

-- Another task's write leaves a coroutine on the track of its own.
Tracks-put :
    (d : Coroutine) (k : String) (t' : Task) (o o' : Orchestrator)
    → o'.state.tasks ≡ put o.state.tasks k t'
    → k ≢ task_of d
    → Tracks d o
    → Tracks d o'
unfolding task_of
Tracks-put (queued u) k t' o o' e other h =
    (rw e (ground (arith, get-put o.state.tasks k u.id t', eq_iff k u.id)), h.1)
Tracks-put (waiting a u) k t' o o' e other h =
    (rw e (ground (arith, get-put o.state.tasks k u.id t', eq_iff k u.id)), h.1)
Tracks-put (executing a u) k t' o o' e other h =
    (rw e (ground (arith, get-put o.state.tasks k u.id t', eq_iff k u.id)), h.1)
Tracks-put (verifying u r) k t' o o' e other h =
    (rw e (ground (arith, get-put o.state.tasks k u.id t', eq_iff k u.id)), h.1)
Tracks-put (ended id x) k t' o o' e other h = tt

Tracks-next_call : (c : Coroutine) (o : Orchestrator) → Tracks c o → Tracks c (next_call o)
unfolding next_call
Tracks-next_call (queued t) o h = h
Tracks-next_call (waiting a t) o h = h
Tracks-next_call (executing a t) o h = h
Tracks-next_call (verifying t r) o h = h
Tracks-next_call (ended id e) o h = tt

-- The starts that the coroutines of a round still hold.
unfoldable pub held_starts : List Coroutine → ℕ
unfolding held_start turns_left
held_starts cs = sum_of (λ c. held_start (turns_left c)) cs

-- What holds from turn to turn, in a round that began with `held` starts of `bound`.
pub record InRound (wid : String) (rank : String → ℕ) (depth bound held : ℕ) (cs : List Coroutine)
    (o : Orchestrator) : Type 0 where
  pub sound : IsSound o.state rank depth
  pub own : (u : Task) → Memᴰ u (values o.state.tasks) → u.workflow_id ≡ wid
  pub settled : (u : Task) → Memᴰ u (values o.state.tasks) → IsSettled u ⊎ IsUnderWay u.id cs
  pub there : has o.state.workflows wid ≡ true
  pub some_task : values o.state.tasks ≢ []
  pub tracked : (c : Coroutine) → Memᴰ c cs → Tracks c o
  pub separate : IsDistinct task_of cs
  pub light : weight o + held ≤ bound + held_starts cs

module _ (w : World) (wid : String) (rank : String → ℕ) (depth bound held : ℕ) where
  module _ (pre post : List Coroutine) (c : Coroutine) (o : Orchestrator)
      (r : InRound wid rank depth bound held (pre ++ c ∷ post) o)
      (turn : IsTurnOn c o (advance w c o)) where
    turn-get :
        (k : String)
        → get (advance w c o).0.state.tasks k ≡ get (put o.state.tasks turn.t.id turn.t') k
    turn-get k = rw turn.moves.new_tasks

    turn-IsRanked : IsRanked rank (advance w c o).0.state.tasks
    turn-IsRanked k u e = elim (Bool-cases (str_eq turn.t.id k)) [
      | inl same ↦
          let new : turn.t' ≡ u = cc (get-put o.state.tasks turn.t.id k turn.t', turn-get k) in
          let at_k : turn.t.id ≡ k = (eq_iff turn.t.id k).0 same in
          subst (λ (x : Task). All (λ d'. rank d' < rank k) x.depends_on) new
            (rw turn.moves.same.same_deps (
              subst (λ j. All (λ d'. rank d' < rank j) turn.t.depends_on) at_k
                (r.sound.ranked turn.t.id turn.t turn.held)))
      | inr other ↦ r.sound.ranked k u (cc (get-put o.state.tasks turn.t.id k turn.t', turn-get k))
    ]

    turn-IsSound : IsSound (advance w c o).0.state rank depth
    turn-IsSound = record {
      keyed = rw turn.moves.new_tasks (
          put-IsKeyed task_id o.state.tasks turn.t.id turn.t' turn.moves.same.same_id
            r.sound.keyed);
      ranked = turn-IsRanked;
      fuelled = λ u m.
          elim (mem-put o.state.tasks turn.t.id turn.t' (rw turn.moves.new_tasks at m)) [
            | inl new ↦
                rw (new, turn.moves.same.same_id)
                  (r.sound.fuelled turn.t (mem-get o.state.tasks turn.t.id turn.held))
            | inr old ↦ r.sound.fuelled u old
          ];
    }

    turn-Holds : Holds turn.t' (advance w c o).0
    turn-Holds =
        let same = turn.moves.same.same_id in
        cc (turn-get turn.t'.id, get-put_self o.state.tasks turn.t.id turn.t', same)

    turn-tracked :
        (d : Coroutine) → Memᴰ d (pre ++ (advance w c o).1 ∷ post) → Tracks d (advance w c o).0
    turn-tracked d m = elim (mem-split pre post m) [
      | inl new ↦ rw new (
          Effect-Tracks (turns_left c) (advance w c o).1 turn.t turn.t' o.state.workflows
            (advance w c o).0.state.workflows (advance w c o).0 turn.fits turn-Holds
            turn.moves.effect)
      | inr old ↦
          let apart = IsDistinct-split task_of pre post r.separate old in
          Tracks-put d turn.t.id turn.t' o (advance w c o).0 turn.moves.new_tasks
            (λ same. apart (turn.named ∙ same)) (r.tracked d (mem-split_other pre c post old))
    ]

    turn-IsSettled_other :
        (u : Task)
        → turn.t.id ≢ u.id
        → IsSettled u ⊎ IsUnderWay u.id (pre ++ c ∷ post)
        → IsSettled u ⊎ IsUnderWay u.id (pre ++ (advance w c o).1 ∷ post)
    turn-IsSettled_other u other h = elim h [
      | inl settled ↦ inl settled
      | inr (d, m, name, on) ↦ elim (mem-split pre post m) [
        | inl same ↦ absurd (other (sym turn.named ∙ rw same at name))
        | inr there ↦ inr (d, mem-split_other pre (advance w c o).1 post there, name, on)
      ]
    ]

    turn-IsSettled :
        (u : Task)
        → Memᴰ u (values (advance w c o).0.state.tasks)
        → IsSettled u ⊎ IsUnderWay u.id (pre ++ (advance w c o).1 ∷ post)
    turn-IsSettled u m =
        let found = get-mem task_id (advance w c o).0.state.tasks turn-IsSound.keyed m in
        elim (Bool-cases (str_eq turn.t.id u.id)) [
          | inl same ↦
              let new : turn.t' ≡ u =
                cc (get-put o.state.tasks turn.t.id u.id turn.t', turn-get u.id) in
              let c' = (advance w c o).1 in
              elim (Effect-IsSettled (turns_left c) c' turn.t turn.t' o.state.workflows
                (advance w c o).0.state.workflows turn.fits turn.moves.effect) [
                  | inl settled ↦ inl (subst (λ x. IsSettled x) new settled)
                  | inr on ↦ inr (
                    c',
                    mem-split_self pre c' post,
                    Effect-task_of (turns_left c) c' turn.t turn.t' o.state.workflows
                          (advance w c o).0.state.workflows turn.moves.same turn.moves.effect
                        ∙ (eq_iff turn.t.id u.id).0 same,
                    on,
                  )
                ]
          | inr other ↦
              let apart : turn.t.id ≢ u.id = ground (arith, eq_iff turn.t.id u.id) in
              let old : get o.state.tasks u.id ≡ some u =
                cc (get-put o.state.tasks turn.t.id u.id turn.t', turn-get u.id) in
              turn-IsSettled_other u apart (r.settled u (mem-get o.state.tasks u.id old))
        ]

    turn-own : (u : Task) → Memᴰ u (values (advance w c o).0.state.tasks) → u.workflow_id ≡ wid
    turn-own u m = elim (mem-put o.state.tasks turn.t.id turn.t' (rw turn.moves.new_tasks at m)) [
      | inl new ↦
          rw new (
            turn.moves.same.same_workflow
            ∙ r.own turn.t (mem-get o.state.tasks turn.t.id turn.held))
      | inr old ↦ r.own u old
    ]

    turn-light :
        weight (advance w c o).0 + held ≤ bound + held_starts (pre ++ (advance w c o).1 ∷ post)
    unfolding held_starts
    turn-light = omega (
      arith,
      r.light,
      sum_of-split (λ d. held_start (turns_left d)) pre c post,
      sum_of-split (λ d. held_start (turns_left d)) pre (advance w c o).1 post,
      Moves-weight (turns_left c) turn.t turn.t' o (advance w c o) turn.fits turn.held turn.moves,
    )

    turn-InRound :
        InRound wid rank depth bound held (pre ++ (advance w c o).1 ∷ post) (advance w c o).0
    turn-InRound = record {
      sound = turn-IsSound;
      own = turn-own;
      settled = turn-IsSettled;
      there =
          Effect-has (turns_left c) (advance w c o).1 turn.t turn.t' o.state.workflows
            (advance w c o).0.state.workflows wid turn.moves.effect r.there;
      some_task = rw turn.moves.new_tasks (put-ne_nil o.state.tasks turn.t.id turn.t');
      tracked = turn-tracked;
      separate =
          split-IsDistinct task_of pre post
            (Effect-task_of (turns_left c) (advance w c o).1 turn.t turn.t' o.state.workflows
                (advance w c o).0.state.workflows turn.moves.same turn.moves.effect
              ∙ sym turn.named)
            r.separate;
      light = turn-light;
    }

  -- A round does not look at the number of calls.
  pub InRound-next_call :
      (cs : List Coroutine) (o : Orchestrator)
      → InRound wid rank depth bound held cs o
      → InRound wid rank depth bound held cs (next_call o)
  unfolding next_call weight
  InRound-next_call cs o r = record {
    sound = r.sound;
    own = r.own;
    settled = r.settled;
    there = r.there;
    some_task = r.some_task;
    tracked = λ c m. Tracks-next_call c o (r.tracked c m);
    separate = r.separate;
    light = r.light;
  }

  pub advance-InRound :
      (pre : List Coroutine) (c : Coroutine) (post : List Coroutine) (o : Orchestrator)
      → is_live c ≡ true
      → InRound wid rank depth bound held (pre ++ c ∷ post) o
      → InRound wid rank depth bound held
          (pre ++ (advance w c (next_call o)).1 ∷ post)
          (advance w c (next_call o)).0
  advance-InRound pre c post o live r =
      let r' = InRound-next_call (pre ++ c ∷ post) o r in
      turn-InRound pre post c (next_call o) r'
        (advance-IsTurnOn w c (next_call o) live (r'.tracked c (mem-split_self pre c post)))
