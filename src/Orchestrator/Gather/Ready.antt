-- ===== src/Orchestrator/Gather/Ready.antt =====
-- A round of ready tasks: what `gather` keeps, and what it uses up. It is about worlds in which
-- agents and verifiers answer, so that only the budget raises.
use rooben.Prelude.{
  ℕ, ◌+◌, ◌*◌, ◌≤◌, ◌<◌, ◌≡◌, ◌≢◌, refl, inl, inr, true, false, none, some, String, List, [], ◌∷◌,
  ◌++◌, arith, Memᴰ, mem-cons_cases, mem-map, length, map, count, sum_of,
}
use rooben.Dict.{get, has, values}
use rooben.Dict.Keyed.{IsDistinct}
use rooben.Domain.Status.{is_pending}
use rooben.Domain.Models.{Task}
use rooben.Domain.State.Stalled.{task_id, IsSound}
use rooben.Domain.State.Progress.{IsQuiet}
use rooben.Orchestrator.Core.{budget_exceeded, other_error, World, Orchestrator, next_call}
use rooben.Orchestrator.Execution.{Coroutine, queued, waiting, executing, verifying, ended, advance}
use rooben.Orchestrator.Execution.Effects.{turns_left, task_of}
use rooben.Orchestrator.Execution.Raises.{IsAnswering, IsBudgetOnly, advance-IsBudgetOnly}
use rooben.Orchestrator.Gather.{is_live, results, first_budget, run_coroutines, gather}
use rooben.Orchestrator.Gather.Schedule.{
  mem-split, mem-split_self, mem-split_other, run_coroutines_inv, run_coroutines-ends,
}
use rooben.Orchestrator.Gather.Weight.{weight, held_start, Effect-turns_left}
use rooben.Orchestrator.Gather.Round.{is_under_way, advance-IsTurnOn}
use rooben.Orchestrator.Gather.Rounds.{InRound, held_starts, InRound-next_call, advance-InRound}

-- What the loop keeps from round to round.
pub record IsReady (wid : String) (rank : String → ℕ) (depth : ℕ) (o : Orchestrator) : Type 0 where
  pub sound : IsSound o.state rank depth
  pub quiet : (t : Task) → Memᴰ t (values o.state.tasks) → IsQuiet wid t
  pub there : has o.state.workflows wid ≡ true
  pub some_task : values o.state.tasks ≢ []

-- The tasks to dispatch are as the dictionary holds them, and pending.
abbrev pub AreWaiting : List Task → Orchestrator → Type 0
AreWaiting ts o =
    (t : Task) → Memᴰ t ts → (get o.state.tasks t.id ≡ some t) × (is_pending t.status ≡ true)

queued-IsDistinct : (ts : List Task) → IsDistinct task_id ts → IsDistinct task_of (map queued ts)
unfolding task_of
queued-IsDistinct [] h = tt
queued-IsDistinct (t ∷ ts) h = (
  (λ c m same. let (u, there, e) = mem-map queued ts m in h.0 u there (rw e at same)),
  queued-IsDistinct ts h.1,
)

held_starts-queued : (ts : List Task) → held_starts (map queued ts) ≡ length ts
unfolding held_starts held_start turns_left
held_starts-queued [] = refl
held_starts-queued (t ∷ ts) = omega (arith, held_starts-queued ts)

turns_left-queued : (ts : List Task) → sum_of turns_left (map queued ts) ≡ 4 * length ts
unfolding turns_left
turns_left-queued [] = refl
turns_left-queued (t ∷ ts) = omega (arith, turns_left-queued ts)

-- With no live coroutine left, and none that raised, no start is held and no task is under way.
over-held_starts : (cs : List Coroutine) → count is_live cs ≡ 0 → held_starts cs ≡ 0
unfolding held_starts held_start turns_left is_live
over-held_starts [] e = refl
over-held_starts (queued t ∷ cs) e = absurd (omega arith)
over-held_starts (waiting a t ∷ cs) e = absurd (omega arith)
over-held_starts (executing a t ∷ cs) e = absurd (omega arith)
over-held_starts (verifying t r ∷ cs) e = absurd (omega arith)
over-held_starts (ended id x ∷ cs) e = omega (arith, over-held_starts cs (omega arith))

quiet-under_way :
    (cs : List Coroutine) (c : Coroutine)
    → count is_live cs ≡ 0
    → ((d : Coroutine) → Memᴰ d cs → IsBudgetOnly d)
    → first_budget (results cs) ≡ none
    → Memᴰ c cs
    → is_under_way c ≡ false
unfolding is_live is_under_way results first_budget
quiet-under_way [] c e only silent m = elim m [ ]
quiet-under_way (queued t ∷ cs) c e only silent m = absurd (omega arith)
quiet-under_way (waiting a t ∷ cs) c e only silent m = absurd (omega arith)
quiet-under_way (executing a t ∷ cs) c e only silent m = absurd (omega arith)
quiet-under_way (verifying t r ∷ cs) c e only silent m = absurd (omega arith)
quiet-under_way (ended id none ∷ cs) c e only silent m = elim (mem-cons_cases m) [
  | inl first ↦ rw first refl
  | inr later ↦ quiet-under_way cs c (omega arith) (λ d n. only d (Memᴰ.tail n)) silent later
]
quiet-under_way (ended id (some (budget_exceeded x)) ∷ cs) c e only silent m = absurd (cc)
quiet-under_way (ended id (some (other_error x)) ∷ cs) c e only silent m =
    absurd (only (ended id (some (other_error x))) (Memᴰ.head refl) x refl)

module _ (w : World) (wid : String) (rank : String → ℕ) (depth : ℕ) where
  -- What every turn keeps, with what has been raised.
  abbrev AmidRound : ℕ → ℕ → List Coroutine → Orchestrator → Type 0
  AmidRound bound held cs o =
      InRound wid rank depth bound held cs o
      × (IsAnswering w → (c : Coroutine) → Memᴰ c cs → IsBudgetOnly c)

  advance-AmidRound :
      (bound held : ℕ) (pre : List Coroutine) (c : Coroutine) (post : List Coroutine)
      (o : Orchestrator)
      → is_live c ≡ true
      → AmidRound bound held (pre ++ c ∷ post) o
      → AmidRound bound held
          (pre ++ (advance w c (next_call o)).1 ∷ post)
          (advance w c (next_call o)).0
  advance-AmidRound bound held pre c post o live (r, only) = (
    advance-InRound w wid rank depth bound held pre c post o live r,
    λ answers d m. elim (mem-split pre post m) [
      | inl new ↦ rw new (
          advance-IsBudgetOnly w c (next_call o) answers
            (only answers c (mem-split_self pre c post)))
      | inr old ↦ only answers d (mem-split_other pre c post old)
    ],
  )

  turns-AmidRound :
      (bound held : ℕ) (c : Coroutine) (pre post : List Coroutine) (o : Orchestrator)
      → is_live c ≡ true
      → AmidRound bound held (pre ++ c ∷ post) o
      → turns_left (advance w c (next_call o)).1 < turns_left c
  turns-AmidRound bound held c pre post o live (r, only) =
      let r' = InRound-next_call w wid rank depth bound held (pre ++ c ∷ post) o r in
      let turn =
        advance-IsTurnOn w c (next_call o) live (r'.tracked c (mem-split_self pre c post)) in
      Effect-turns_left (turns_left c) (advance w c (next_call o)).1 turn.t turn.t'
        turn.moves.effect

  pub start-AmidRound :
      (ts : List Task) (o : Orchestrator)
      → IsReady wid rank depth o
      → IsDistinct task_id ts
      → AreWaiting ts o
      → AmidRound (weight o) (length ts) (map queued ts) o
  start-AmidRound ts o r distinct waits = (
    record {
      sound = r.sound;
      own = λ u m. (r.quiet u m).own;
      settled = λ u m. inl (r.quiet u m).settled;
      there = r.there;
      some_task = r.some_task;
      tracked = λ c m. let (t, there, e) = mem-map queued ts m in rw e (waits t there);
      separate = queued-IsDistinct ts distinct;
      light = omega (arith, held_starts-queued ts);
    },
    λ answers c m. let (t, there, e) = mem-map queued ts m in rw e tt,
  )

  module _ (ts : List Task) (o : Orchestrator) (r : IsReady wid rank depth o)
      (distinct : IsDistinct task_id ts) (waits : AreWaiting ts o) where
    abbrev after : Orchestrator × List Coroutine
    after = run_coroutines w (4 * length ts) (map queued ts) o

    after-AmidRound : AmidRound (weight o) (length ts) after.1 after.0
    after-AmidRound =
        run_coroutines_inv w (AmidRound (weight o) (length ts))
          (advance-AmidRound (weight o) (length ts)) (4 * length ts) (map queued ts) o
          (start-AmidRound ts o r distinct waits)

    after-over : count is_live after.1 ≡ 0
    after-over =
        run_coroutines-ends w (AmidRound (weight o) (length ts))
          (advance-AmidRound (weight o) (length ts)) (turns-AmidRound (weight o) (length ts))
          (4 * length ts) (map queued ts) o (omega (arith, turns_left-queued ts))
          (start-AmidRound ts o r distinct waits)

    -- A round on distinct pending tasks, from a state that is ready, uses up a start at least for each
    -- of its tasks, however agents and verifiers answer and in whatever order the coroutines take turns.
    pub weight-gather : weight (gather w ts o).0 + length ts ≤ weight o
    unfolding gather
    weight-gather = omega (arith, after-AmidRound.0.light, over-held_starts after.1 after-over)

    -- A round on distinct pending tasks, from a state that is ready, where agents and verifiers answer:
    -- if its results hold no budget exception, the state is ready again, in whatever order the
    -- coroutines took turns.
    pub gather-IsReady :
        IsAnswering w
        → first_budget (gather w ts o).1 ≡ none
        → IsReady wid rank depth (gather w ts o).0
    unfolding gather
    gather-IsReady answers silent =
        let (amid, only) = after-AmidRound in
        record {
          sound = amid.sound;
          quiet = λ u m. record {
            own = amid.own u m;
            settled = elim (amid.settled u m) [
              | inl settled ↦ settled
              | inr (c, n, name, on) ↦
                  let off = quiet-under_way after.1 c after-over (only answers) silent n in
                  absurd (cc)
            ];
          };
          there = amid.there;
          some_task = amid.some_task;
        }
