-- ===== src/Orchestrator/Gather/Schedule.antt =====
-- A turn is a turn of one live coroutine of the list, and a round of enough turns ends them all.
use rooben.Prelude.{
  ℕ, zero, suc, ◌+◌, ◌%◌, ◌≤◌, ◌<◌, ◌≡◌, ◌≢◌, ◌⊎◌, inl, inr, refl, ap, sym, subst, ◌∙◌, String,
  true, false, List, [], ◌∷◌, ◌++◌, arith, count, sum_of, Memᴰ, mem-cons_cases, Bool-cases,
}
use rooben.Dict.Keyed.{IsDistinct}
use rooben.Orchestrator.Core.{World, Orchestrator, next_call}
use rooben.Orchestrator.Execution.{Coroutine, queued, waiting, executing, verifying, ended, advance}
use rooben.Orchestrator.Execution.Effects.{turns_left}
use rooben.Orchestrator.Gather.{is_live, advance_nth, run_coroutines}

module _ {ℓ} {A : Type ℓ} where
  pub mem-split :
      (pre post : List A) {a c : A} → Memᴰ a (pre ++ c ∷ post) → (a ≡ c) ⊎ Memᴰ a (pre ++ post)
  mem-split [] post m = mem-cons_cases m
  mem-split (p ∷ pre) post m = elim (mem-cons_cases m) [
    | inl first ↦ inr (Memᴰ.head first)
    | inr later ↦ elim (mem-split pre post later) [
      | inl same ↦ inl same
      | inr other ↦ inr (Memᴰ.tail other)
    ]
  ]

  pub mem-split_self : (pre : List A) (c : A) (post : List A) → Memᴰ c (pre ++ c ∷ post)
  mem-split_self [] c post = Memᴰ.head refl
  mem-split_self (p ∷ pre) c post = Memᴰ.tail (mem-split_self pre c post)

  pub mem-split_other :
      (pre : List A) (c : A) (post : List A) {a : A}
      → Memᴰ a (pre ++ post)
      → Memᴰ a (pre ++ c ∷ post)
  mem-split_other [] c post m = Memᴰ.tail m
  mem-split_other (p ∷ pre) c post m = elim (mem-cons_cases m) [
    | inl first ↦ Memᴰ.head first
    | inr later ↦ Memᴰ.tail (mem-split_other pre c post later)
  ]

  pub sum_of-split :
      (f : A → ℕ) (pre : List A) (c : A) (post : List A)
      → sum_of f (pre ++ c ∷ post) ≡ f c + sum_of f (pre ++ post)
  sum_of-split f [] c post = refl
  sum_of-split f (p ∷ pre) c post = omega (arith, sum_of-split f pre c post)

module _ {ℓ} {A : Type ℓ} (id : A → String) where
  pub IsDistinct-split :
      (pre post : List A) {c u : A}
      → IsDistinct id (pre ++ c ∷ post)
      → Memᴰ u (pre ++ post)
      → id c ≢ id u
  IsDistinct-split [] post {u = u} h m same = h.0 u m same
  IsDistinct-split (p ∷ pre) post {c} h m same = elim (mem-cons_cases m) [
    | inl first ↦ h.0 c (mem-split_self pre c post) (cc (ap id first))
    | inr later ↦ IsDistinct-split pre post h.1 later same
  ]

  pub split-IsDistinct :
      (pre post : List A) {c d : A}
      → id d ≡ id c
      → IsDistinct id (pre ++ c ∷ post)
      → IsDistinct id (pre ++ d ∷ post)
  split-IsDistinct [] post e h = ((λ u m same. h.0 u m (sym e ∙ same)), h.1)
  split-IsDistinct (p ∷ pre) post {c} e h = (
    (λ u m same. elim (mem-split pre post m) [
      | inl new ↦ h.0 c (mem-split_self pre c post) (same ∙ ap id new ∙ e)
      | inr old ↦ h.0 u (mem-split_other pre c post old) same
    ]),
    split-IsDistinct pre post e h.1,
  )

count-cases : (n : ℕ) → (n ≡ 0) ⊎ ((m : ℕ) × (n ≡ suc m))
count-cases zero = inl refl
count-cases (suc m) = inr (m, refl)

live_turns : (c : Coroutine) → turns_left c ≡ 0 → is_live c ≡ false
unfolding turns_left is_live
live_turns (queued t) e = absurd (omega arith)
live_turns (waiting a t) e = absurd (omega arith)
live_turns (executing a t) e = absurd (omega arith)
live_turns (verifying t r) e = absurd (omega arith)
live_turns (ended id x) e = refl

live_of_turns : (cs : List Coroutine) → sum_of turns_left cs ≡ 0 → count is_live cs ≡ 0
live_of_turns [] e = refl
live_of_turns (c ∷ cs) e =
    ground (arith, live_turns c (omega arith), live_of_turns cs (omega arith))

-- A turn of the coroutine `c`, which stands behind `pre` and before `post`.
pub record IsTurn (w : World) (cs : List Coroutine) (o : Orchestrator)
    (result : Orchestrator × List Coroutine) : Type 0 where
  pub pre : List Coroutine
  pub c : Coroutine
  pub post : List Coroutine
  pub live : is_live c ≡ true
  pub before : cs ≡ pre ++ c ∷ post
  pub after : result ≡ ((advance w c o).0, pre ++ (advance w c o).1 ∷ post)

module _ (w : World) where
  IsTurn-cons :
      (c : Coroutine) (cs : List Coroutine) (o : Orchestrator)
      (result : Orchestrator × List Coroutine)
      → IsTurn w cs o result
      → IsTurn w (c ∷ cs) o (result.0, c ∷ result.1)
  IsTurn-cons c cs o result turn = record {
    pre = c ∷ turn.pre;
    c = turn.c;
    post = turn.post;
    live = turn.live;
    before = ap (λ l. c ∷ l) turn.before;
    after = ap (λ (r : Orchestrator × List Coroutine). (r.0, c ∷ r.1)) turn.after;
  }

  advance_nth-IsTurn :
      (k : ℕ) (cs : List Coroutine) (o : Orchestrator)
      → k < count is_live cs
      → IsTurn w cs o (advance_nth w k cs o)
  unfolding advance_nth
  advance_nth-IsTurn k [] o lt = absurd (omega arith)
  advance_nth-IsTurn zero (c ∷ cs) o lt = elim (Bool-cases (is_live c)) [
    | inl on ↦
        rw (on, advance_nth)
          (record { pre = []; c = c; post = cs; live = on; before = refl; after = refl })
    | inr over ↦
        rw (over, advance_nth)
          (IsTurn-cons c cs o (advance_nth w zero cs o) (
            advance_nth-IsTurn zero cs o (let lt' : zero < count is_live cs = ground arith in lt')))
  ]
  advance_nth-IsTurn (suc k) (c ∷ cs) o lt = elim (Bool-cases (is_live c)) [
    | inl on ↦
        rw (on, advance_nth)
          (IsTurn-cons c cs o (advance_nth w k cs o) (advance_nth-IsTurn k cs o (ground arith)))
    | inr over ↦
        rw (over, advance_nth)
          (IsTurn-cons c cs o (advance_nth w (suc k) cs o)
            (advance_nth-IsTurn (suc k) cs o (ground arith)))
  ]

  module _ {κ} (P : List Coroutine → Orchestrator → Type κ)
      (step : (pre : List Coroutine) (c : Coroutine) (post : List Coroutine) (o : Orchestrator)
        → is_live c ≡ true
        → P (pre ++ c ∷ post) o
        → P (pre ++ (advance w c (next_call o)).1 ∷ post) (advance w c (next_call o)).0) where
    turn-keeps :
        (cs : List Coroutine) (o : Orchestrator) (result : Orchestrator × List Coroutine)
        → IsTurn w cs (next_call o) result
        → P cs o
        → P result.1 result.0
    turn-keeps cs o result turn p =
        let here : P (turn.pre ++ turn.c ∷ turn.post) o = subst (λ l. P l o) turn.before p in
        subst (λ (r : Orchestrator × List Coroutine). P r.1 r.0) (sym turn.after)
          (step turn.pre turn.c turn.post o turn.live here)

    -- What every turn keeps, a round keeps, whatever the order of the turns.
    pub run_coroutines_inv :
        (turns : ℕ) (cs : List Coroutine) (o : Orchestrator)
        → P cs o
        → P (run_coroutines w turns cs o).1 (run_coroutines w turns cs o).0
    unfolding run_coroutines
    run_coroutines_inv zero cs o p = p
    run_coroutines_inv (suc turns) cs o p = elim (count-cases (count is_live cs)) [
      | inl none_left ↦ rw (none_left, run_coroutines) p
      | inr (n, some_left) ↦
          let turn =
            advance_nth-IsTurn (w.pick o.calls % suc n) cs (next_call o)
              (rw some_left (omega arith)) in
          rw (some_left, run_coroutines)
            (run_coroutines_inv turns _ _
              (turn-keeps cs o (advance_nth w (w.pick o.calls % suc n) cs (next_call o)) turn p))
    ]

    module _
        (less : (c : Coroutine) (pre post : List Coroutine) (o : Orchestrator)
          → is_live c ≡ true
          → P (pre ++ c ∷ post) o
          → turns_left (advance w c (next_call o)).1 < turns_left c) where
      turn-shortens :
          (cs : List Coroutine) (o : Orchestrator) (result : Orchestrator × List Coroutine)
          → IsTurn w cs (next_call o) result
          → P cs o
          → sum_of turns_left result.1 < sum_of turns_left cs
      turn-shortens cs o result turn p =
          let here : P (turn.pre ++ turn.c ∷ turn.post) o = subst (λ l. P l o) turn.before p in
          let c' = (advance w turn.c (next_call o)).1 in
          let shorter = less turn.c turn.pre turn.post o turn.live here in
          let now : result.1 ≡ turn.pre ++ c' ∷ turn.post =
            ap (λ (r : Orchestrator × List Coroutine). r.1) turn.after in
          rw (turn.before, now)
            (omega (
              arith,
              sum_of-split turns_left turn.pre turn.c turn.post,
              sum_of-split turns_left turn.pre c' turn.post,
              shorter,
            ))

      -- With a turn for each that the coroutines have left, they are all over at the end.
      pub run_coroutines-ends :
          (turns : ℕ) (cs : List Coroutine) (o : Orchestrator)
          → sum_of turns_left cs ≤ turns
          → P cs o
          → count is_live (run_coroutines w turns cs o).1 ≡ 0
      unfolding run_coroutines
      run_coroutines-ends zero cs o le p = live_of_turns cs (omega arith)
      run_coroutines-ends (suc turns) cs o le p = elim (count-cases (count is_live cs)) [
        | inl none_left ↦ rw (none_left, run_coroutines) none_left
        | inr (n, some_left) ↦
            let k = w.pick o.calls % suc n in
            let turn = advance_nth-IsTurn k cs (next_call o) (rw some_left (omega arith)) in
            let result = advance_nth w k cs (next_call o) in
            rw (some_left, run_coroutines)
              (run_coroutines-ends turns result.1 result.0
                (omega (arith, turn-shortens cs o result turn p)) (turn-keeps cs o result turn p))
      ]
