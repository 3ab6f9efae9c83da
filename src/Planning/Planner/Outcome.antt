-- ===== src/Planning/Planner/Outcome.antt =====
-- What a call of `plan` of src/rooben/planning/llm_planner.py comes to.
use rooben.Prelude.{
  ℕ, suc, ◌+◌, ◌≤◌, ◌≡◌, refl, ◌∙◌, ◌⊎◌, inl, inr, Bool, true, false, Bool-cases, String, Option,
  some, [], ◌∷◌, count, count-append, arith, length, ltb,
}
use rooben.Domain.Models.{WorkflowState}
use rooben.Planning.Checker.{CheckResult, check}
use rooben.Planning.Checker.Plan.{check-valid_iff}
use rooben.Planning.Draft.{SpecView, build_state}
use rooben.Planning.Draft.Fresh.{build_state-IsFresh}
use rooben.Planning.Draft.Invariant.{IsFresh, Reply-cases, failed-ne_returned}
use rooben.Planning.Judge.{
  GenerationResult, invalid_json, misshaped, parsed, PlanJudgeResult, judge,
}
use rooben.Planning.Planner.{
  PlanWorld, PlanQuality, Session, Turn, accept, retry, stop, judge_plan, check_plan, read_plan,
  iteration, say, add_usage, with_checker_feedback,
}
use rooben.Orchestrator.Core.{
  Event, planning_generating, planning_judging, planning_checking, iteration_complete, returned,
  failed,
}

unfoldable is_generating : Event → Bool
is_generating (planning_generating wid i again) = true
is_generating _ = false

-- The plans that were asked for.
unfoldable pub generations : Session → ℕ
unfolding is_generating
generations s = count is_generating s.events

-- The checker or the judge refused the plan.
abbrev pub IsRefused : CheckResult → Option PlanJudgeResult → Type 0
IsRefused checked judged =
    (checked.valid ≡ false) ⊎ ((r : PlanJudgeResult) × (judged ≡ some r) × (r.approved ≡ false))

module _ (w : PlanWorld) (spec : SpecView) (wid : String) where
  -- The state is a planned one that the checker calls valid, and the judge, asked about this very
  -- workflow of this very state, approves it; the verdicts are these answers.
  pub record IsAccepted (s : WorkflowState) (q : PlanQuality) : Type 0 where
    pub fresh : IsFresh wid s
    pub checked : check w.heuristics s spec.agents wid ≡ some q.checker
    pub valid : q.checker.valid ≡ true
    pub verdict : PlanJudgeResult
    pub judged : q.judge ≡ some verdict
    pub call : ℕ
    pub answered : judge (w.judge_generate call) w.parse_judgement s wid ≡ returned verdict
    pub approved : verdict.approved ≡ true

  generations-say :
      (s : Session) (e : Event) → is_generating e ≡ false → generations (say e s) ≡ generations s
  unfolding generations say
  generations-say s e other = ground (arith, count-append is_generating s.events (e ∷ []))

  quiet2 :
      (s : Session) (e e' : Event)
      → is_generating e ≡ false
      → is_generating e' ≡ false
      → generations (say e' (say e s)) ≡ generations s
  quiet2 s e e' h h' = generations-say (say e s) e' h' ∙ generations-say s e h

  -- What an iteration that begins with `s` comes to.
  abbrev pub IsTurn : Session → Turn → Type 0
  IsTurn s (accept state r last s') =
      IsAccepted state (record { checker = last.check; judge = s'.judge_result })
      × (s'.calls ≤ 2 + s.calls)
      × (generations s' ≡ suc (generations s))
  IsTurn s (retry last s') =
      IsRefused last.check s'.judge_result
      × (s'.calls ≤ 2 + s.calls)
      × (generations s' ≡ suc (generations s))
  IsTurn s (stop e s') = (s'.calls ≤ 2 + s.calls) × (generations s' ≡ suc (generations s))

  -- The part behind the call for a plan.
  abbrev IsRest : Session → Turn → Type 0
  IsRest s (accept state r last s') =
      IsAccepted state (record { checker = last.check; judge = s'.judge_result })
      × (s'.calls ≤ 1 + s.calls)
      × (generations s' ≡ generations s)
  IsRest s (retry last s') =
      IsRefused last.check s'.judge_result
      × (s'.calls ≤ 1 + s.calls)
      × (generations s' ≡ generations s)
  IsRest s (stop e s') = (s'.calls ≤ 1 + s.calls) × (generations s' ≡ generations s)

  IsRest-of_same :
      (s1 s : Session) (t : Turn)
      → s1.calls ≡ s.calls
      → generations s1 ≡ generations s
      → IsRest s1 t
      → IsRest s t
  IsRest-of_same s1 s (accept state r last s') c g (h, calls, rest) =
      (h, omega (arith, c, calls), omega (arith, g, rest))
  IsRest-of_same s1 s (retry last s') c g (h, calls, rest) =
      (h, omega (arith, c, calls), omega (arith, g, rest))
  IsRest-of_same s1 s (stop e s') c g (calls, rest) =
      (omega (arith, c, calls), omega (arith, g, rest))

  read_plan-IsFresh :
      (text : String) (n m : ℕ) (s : WorkflowState)
      → read_plan w spec wid text n ≡ returned (s, m)
      → IsFresh wid s
  unfolding read_plan
  read_plan-IsFresh text n m s e =
      elim (w.parse_plan text)
          as (λ p.
            (elim p [
              | invalid_json ↦ failed "ValueError"
              | misshaped x ↦ failed x
              | parsed d ↦ build_state w.sources spec wid d n
            ])
              ≡ returned (s, m)
            → IsFresh wid s) [
              | invalid_json ↦ λ h. absurd (failed-ne_returned "ValueError" (s, m) h)
              | misshaped x ↦ λ h. absurd (failed-ne_returned x (s, m) h)
              | parsed d ↦ λ h. build_state-IsFresh w.sources spec wid d n m s h
            ]
        e

  judge_plan-IsRest :
      (i : ℕ) (g : GenerationResult) (state : WorkflowState) (checked : CheckResult) (s : Session)
      → IsFresh wid state
      → check w.heuristics state spec.agents wid ≡ some checked
      → checked.valid ≡ true
      → IsRest s (judge_plan w spec wid i g state checked s)
  unfolding judge_plan say generations is_generating
  judge_plan-IsRest i g state checked s fresh e valid =
      let quiet = generations-say s in
      elim (Reply-cases (judge (w.judge_generate s.calls) w.parse_judgement state wid)) [
        | inl (x, bad) ↦
            rw (judge_plan, bad) (ground arith, quiet (planning_judging wid i checked.score) refl)
        | inr (r, ok) ↦ elim (Bool-cases r.approved) [
          | inl approves ↦
              rw (judge_plan, ok, approves)
                (
                  record {
                    fresh = fresh;
                    checked = e;
                    valid = valid;
                    verdict = r;
                    judged = refl;
                    call = s.calls;
                    answered = ok;
                    approved = approves;
                  },
                  ground arith,
                  quiet (planning_judging wid i checked.score) refl,
                )
          | inr rejects ↦
              rw (judge_plan, ok, rejects)
                (
                  inr (r, refl, rejects),
                  ground arith,
                  quiet2 s (planning_judging wid i checked.score)
                      (iteration_complete wid i "judge_rejected" (length r.issues)) refl refl,
                )
        ]
      ]

  check_plan-IsRest :
      (i : ℕ) (g : GenerationResult) (state : WorkflowState) (s : Session)
      → IsFresh wid state
      → (t : Turn) × (check_plan w spec wid i g state s ≡ some t) × IsRest s t
  unfolding check_plan say generations
  check_plan-IsRest i g state s fresh =
      let (checked, e, iff) = check-valid_iff w.heuristics spec.agents state wid in
      elim (Bool-cases checked.valid) [
        | inl valid ↦
            let s1 = say (planning_checking wid i) s in
            let t = judge_plan w spec wid i g state checked s1 in
            (
              t,
              rw (check_plan, e, valid) refl,
              IsRest-of_same s1 s t refl (generations-say s (planning_checking wid i) refl)
                  (judge_plan-IsRest i g state checked s1 fresh e valid),
            )
        | inr invalid ↦
            let done = iteration_complete wid i "checker_failed" (length checked.issues) in
            let s2 = say done (say (planning_checking wid i) s) in
            (
              retry (record { gen_result = g; check = checked })
                  (record s2 { prompt = with_checker_feedback s2.prompt checked.issues }),
              rw (check_plan, e, invalid) refl,
              (inl invalid, ground arith, quiet2 s (planning_checking wid i) done refl refl),
            )
      ]

  IsTurn-of_rest :
      (s1 s : Session) (t : Turn)
      → s1.calls ≡ suc s.calls
      → generations s1 ≡ suc (generations s)
      → IsRest s1 t
      → IsTurn s t
  IsTurn-of_rest s1 s (accept state r last s') c g (h, calls, rest) =
      (h, omega (arith, c, calls), omega (arith, g, rest))
  IsTurn-of_rest s1 s (retry last s') c g (h, calls, rest) =
      (h, omega (arith, c, calls), omega (arith, g, rest))
  IsTurn-of_rest s1 s (stop e s') c g (calls, rest) =
      (omega (arith, c, calls), omega (arith, g, rest))

  pub iteration-IsTurn :
      (i : ℕ) (s : Session) → (t : Turn) × (iteration w spec wid i s ≡ some t) × IsTurn s t
  unfolding iteration say generations is_generating
  iteration-IsTurn i s =
      let s1 = say (planning_generating wid i (ltb 1 i)) s in
      let one : generations s1 ≡ suc (generations s) =
        ground
          (arith, count-append is_generating s.events (planning_generating wid i (ltb 1 i) ∷ [])) in
      let s2 = record s1 { calls = suc s1.calls } in
      elim (Reply-cases (w.generate s1.calls s1.prompt)) [
        | inl (x, bad) ↦ (stop x s2, rw (iteration, bad) refl, (omega arith, one))
        | inr (g, ok) ↦
            let s3 = record s2 { accumulated_usage = add_usage s2.accumulated_usage g.usage } in
            elim (Reply-cases (read_plan w spec wid g.text s3.drawn)) [
              | inl (x, bad) ↦ (stop x s3, rw (iteration, ok, bad) refl, (omega arith, one))
              | inr ((state, n), read) ↦
                  let s4 = record s3 { drawn = n } in
                  let fresh = read_plan-IsFresh g.text s3.drawn n state read in
                  let (t, e, h) = check_plan-IsRest i g state s4 fresh in
                  (t, rw (iteration, ok, read) e, IsTurn-of_rest s4 s t refl one h)
            ]
      ]
