-- ===== src/Planning/Planner/Ends.antt =====
-- How a call of `plan` of src/rooben/planning/llm_planner.py ends.
use rooben.Prelude.{
  ℕ, zero, suc, ◌+◌, ◌*◌, ◌≤◌, ◌≡◌, refl, subst, String, Option, none, some, arith,
}
use rooben.Domain.Models.{WorkflowState}
use rooben.Planning.Draft.{SpecView}
use rooben.Planning.Planner.{
  PlanWorld, PlanQuality, PlanOutcome, planned, planning_failed, planner_raised, LlmPlanner,
  Session, Last, accept, retry, stop, Planning, note_end, iteration, exhausted, iterations,
  new_session, plan,
}
use rooben.Planning.Planner.Outcome.{generations, IsRefused, IsAccepted, IsTurn, iteration-IsTurn}

-- What is known of the iteration before.
abbrev IsRefusedBefore : Option Last → Session → Type 0
IsRefusedBefore none s = Unit
IsRefusedBefore (some last) s = IsRefused last.check s.judge_result

module _ (w : PlanWorld) (spec : SpecView) (wid : String) where
  -- The outcome, for `left` iterations from `s` on.
  abbrev IsOutcome : ℕ → Session → PlanOutcome → Planning → Type 0
  IsOutcome left s (planned state) r =
      (q : PlanQuality) × (r.planner.last_plan_quality ≡ some q) × IsAccepted w spec wid state q
  IsOutcome left s (planning_failed c j q) r =
      IsRefused q.checker q.judge × (generations r.session ≡ generations s + left)
  IsOutcome left s (planner_raised e) r = Unit

  record IsEnd (left : ℕ) (s : Session) (r : Planning) : Type 0 where
    outcome : IsOutcome left s r.outcome r
    calls : r.session.calls ≤ 2 * left + s.calls
    plans : generations r.session ≤ left + generations s

  exhausted-IsEnd :
      (last : Option Last) (p : LlmPlanner) (s : Session)
      → IsRefusedBefore last s
      → IsEnd 0 s (exhausted w spec wid last p s)
  unfolding exhausted
  exhausted-IsEnd none p s h = record { outcome = tt; calls = omega arith; plans = omega arith }
  exhausted-IsEnd (some last) p s h = record {
    outcome = (h, omega arith);
    calls = omega arith;
    plans = omega arith;
  }

  later-IsOutcome :
      (left : ℕ) (s s' : Session) (o : PlanOutcome) (r : Planning)
      → generations s' ≡ suc (generations s)
      → IsOutcome left s' o r
      → IsOutcome (suc left) s o r
  later-IsOutcome left s s' (planned state) r g h = h
  later-IsOutcome left s s' (planning_failed c j q) r g (h, e) = (h, omega (arith, g, e))
  later-IsOutcome left s s' (planner_raised e) r g h = tt

  later-IsEnd :
      (left : ℕ) (s s' : Session) (r : Planning)
      → s'.calls ≤ 2 + s.calls
      → generations s' ≡ suc (generations s)
      → IsEnd left s' r
      → IsEnd (suc left) s r
  later-IsEnd left s s' r c g h = record {
    outcome = later-IsOutcome left s s' r.outcome r g h.outcome;
    calls = omega (arith, h.calls, c);
    plans = omega (arith, h.plans, g);
  }

  iterations-IsEnd :
      (left i : ℕ) (last : Option Last) (p : LlmPlanner) (s : Session)
      → IsRefusedBefore last s
      → (r : Planning) × (iterations w spec wid left i last p s ≡ some r) × IsEnd left s r
  unfolding iterations note_end
  iterations-IsEnd zero i last p s h =
      (exhausted w spec wid last p s, refl, exhausted-IsEnd last p s h)
  iterations-IsEnd (suc left) i last p s h =
      let (turn, e, t) = iteration-IsTurn w spec wid i s in
      elim turn
          as (λ x.
            iteration w spec wid i s ≡ some x
            → IsTurn w spec wid s x
            → (r : Planning) × (iterations w spec wid (suc left) i last p s ≡ some r)
              × IsEnd (suc left) s r) [
                | accept state a last' s' ↦ λ e' (good, calls, plans). (
                  record { outcome = planned state; planner = note_end last' s' p; session = s' },
                  rw (iterations, e') refl,
                  record {
                    outcome =
                        (record { checker = last'.check; judge = s'.judge_result }, refl, good);
                    calls = omega (arith, calls);
                    plans = omega (arith, plans);
                  },
                )
                | retry last' s' ↦ λ e' (refused, calls, plans).
                    let (r, rest, h') = iterations-IsEnd left (suc i) (some last') p s' refused in
                    (r, rw (iterations, e') rest, later-IsEnd left s s' r calls plans h')
                | stop x s' ↦ λ e' (calls, plans). (
                  record { outcome = planner_raised x; planner = p; session = s' },
                  rw (iterations, e') refl,
                  record {
                    outcome = tt;
                    calls = omega (arith, calls);
                    plans = omega (arith, plans);
                  },
                )
              ]
        e t

  plan-IsEnd :
      (p : LlmPlanner)
      → (r : Planning) × (plan w spec wid p ≡ some r)
        × IsEnd p.max_checker_iterations (new_session w spec wid p.max_checker_iterations) r
  unfolding plan
  plan-IsEnd p =
      iterations-IsEnd p.max_checker_iterations 1 none p
        (new_session w spec wid p.max_checker_iterations) tt

  -- The end that a given result has.
  result-IsEnd :
      (p : LlmPlanner) (r : Planning)
      → plan w spec wid p ≡ some r
      → IsEnd p.max_checker_iterations (new_session w spec wid p.max_checker_iterations) r
  result-IsEnd p r e =
      let (r', e', h) = plan-IsEnd p in
      let same : r' ≡ r = cc (e, e') in
      subst (IsEnd p.max_checker_iterations (new_session w spec wid p.max_checker_iterations)) same
        h

  -- Whatever the models answer, `plan` ends: it asks for at most `max_checker_iterations` plans and
  -- calls the models at most twice as often.
  pub plan-ends :
      (p : LlmPlanner)
      → (r : Planning) × (plan w spec wid p ≡ some r)
        × (generations r.session ≤ p.max_checker_iterations)
        × (r.session.calls ≤ 2 * p.max_checker_iterations)
  unfolding new_session generations
  plan-ends p =
      let (r, e, h) = plan-IsEnd p in (r, e, ground (arith, h.plans), ground (arith, h.calls))

  -- A state that `plan` returns is a planned one of this workflow. The checker's answer on that state is
  -- valid, the judge's answer on that state and workflow approves, and `last_plan_quality` holds these
  -- two answers.
  pub plan-IsAccepted :
      (p : LlmPlanner) (r : Planning) (s : WorkflowState)
      → plan w spec wid p ≡ some r
      → r.outcome ≡ planned s
      → (q : PlanQuality) × (r.planner.last_plan_quality ≡ some q) × IsAccepted w spec wid s q
  plan-IsAccepted p r s e o =
      let h = result-IsEnd p r e in
      subst
        (λ x.
          IsOutcome p.max_checker_iterations (new_session w spec wid p.max_checker_iterations) x r)
        o h.outcome

  -- If `plan` raises `PlanningFailed`, it has asked for `max_checker_iterations` plans, and its last
  -- verdicts refuse: the checker's is invalid, or the judge's is no approval.
  pub plan-IsRefused :
      (p : LlmPlanner) (r : Planning) (c : ℕ) (j : Option ℕ) (q : PlanQuality)
      → plan w spec wid p ≡ some r
      → r.outcome ≡ planning_failed c j q
      → (generations r.session ≡ p.max_checker_iterations) × IsRefused q.checker q.judge
  unfolding new_session generations
  plan-IsRefused p r c j q e o =
      let h = result-IsEnd p r e in
      let (refused, plans) =
        subst
          (λ x.
            IsOutcome p.max_checker_iterations (new_session w spec wid p.max_checker_iterations) x
              r)
          o h.outcome in
      (ground (arith, plans), refused)
