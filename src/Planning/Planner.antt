-- ===== src/Planning/Planner.antt =====
-- src/rooben/planning/llm_planner.py: `LLMPlanner.plan`. A prompt is the one for the specification with
-- the issues that the retries append; the model's answers and their parsing are parameters.
pub mod Outcome
pub mod Ends
pub mod Phase
pub mod Run
use rooben.Prelude.{
  ℕ, zero, suc, ◌+◌, Bool, true, false, cond, ltb, length, is_empty, String, Option, none, some,
  List, [], ◌∷◌, ◌++◌,
}
use mathlib.Core.Option
use rooben.Domain.Models.{Task, TokenUsage, WorkflowState}
use rooben.Domain.State.{tasks_of}
use rooben.Planning.Checker.{Issue, CheckResult, Heuristics, check}
use rooben.Planning.Draft.{PlanData, Sources, SpecView, build_state}
use rooben.Planning.Judge.{
  GenerationResult, Parsed, invalid_json, misshaped, parsed, JudgeData, PlanIssue, PlanJudgeResult,
  no_usage, judge,
}
use rooben.Orchestrator.Core.{
  Reply, returned, failed, Event, planning_started, planning_generating, planning_checking,
  planning_judging, iteration_complete,
}

pub data Prompt : Type 0 where
  for_specification : Prompt
  with_checker_feedback : Prompt → List Issue → Prompt
  with_judge_feedback : Prompt → List PlanIssue → Prompt

-- What the planner calls; the number is that of the call.
pub record PlanWorld : Type 0 where
  pub generate : ℕ → Prompt → Reply GenerationResult
  pub judge_generate : ℕ → List Task → Reply GenerationResult
  pub parse_plan : String → Parsed PlanData
  pub parse_judgement : String → Parsed JudgeData
  pub heuristics : Heuristics
  pub sources : Sources

-- last_plan_quality
pub record PlanQuality : Type 0 where
  pub checker : CheckResult
  pub judge : Option PlanJudgeResult

-- The attributes that a call of `plan` leaves.
pub record LlmPlanner : Type 0 where
  pub max_checker_iterations : ℕ
  pub last_usage : TokenUsage
  pub last_model : String
  pub last_provider : String
  pub last_checker_score : Option ℕ
  pub last_judge_score : Option ℕ
  pub last_plan_quality : Option PlanQuality

-- How `plan` ends: with a state, with `PlanningFailed`, or with another exception.
pub data PlanOutcome : Type 0 where
  planned : WorkflowState → PlanOutcome
  planning_failed : ℕ → Option ℕ → PlanQuality → PlanOutcome
  planner_raised : String → PlanOutcome

-- The local variables of the loop, with the calls made, the random draws and the events.
pub record Session : Type 0 where
  pub prompt : Prompt
  pub accumulated_usage : TokenUsage
  pub judge_result : Option PlanJudgeResult
  pub calls : ℕ
  pub drawn : ℕ
  pub events : List Event

-- The variables of the last iteration that are read behind the loop.
pub record Last : Type 0 where
  pub gen_result : GenerationResult
  pub check : CheckResult

-- How an iteration ends.
pub data Turn : Type 0 where
  accept : WorkflowState → PlanJudgeResult → Last → Session → Turn
  retry : Last → Session → Turn
  stop : String → Session → Turn

pub record Planning : Type 0 where
  pub outcome : PlanOutcome
  pub planner : LlmPlanner
  pub session : Session

-- TokenUsage.__add__
unfoldable pub add_usage : TokenUsage → TokenUsage → TokenUsage
add_usage u v = record {
  input_tokens = u.input_tokens + v.input_tokens;
  output_tokens = u.output_tokens + v.output_tokens;
  cache_read_tokens = u.cache_read_tokens + v.cache_read_tokens;
  cache_creation_tokens = u.cache_creation_tokens + v.cache_creation_tokens;
}

-- _emit
unfoldable pub say : Event → Session → Session
say e s = record s { events = s.events ++ e ∷ [] }

-- The attributes that both ends of the loop set.
unfoldable pub note_end : Last → Session → LlmPlanner → LlmPlanner
note_end last s p = record p {
  last_usage = s.accumulated_usage;
  last_model = last.gen_result.model;
  last_provider = last.gen_result.provider;
  last_checker_score = some last.check.score;
  last_judge_score = Option.map (λ (r : PlanJudgeResult). r.score) s.judge_result;
  last_plan_quality = some (record { checker = last.check; judge = s.judge_result });
}

module _ (w : PlanWorld) (spec : SpecView) (wid : String) where
  -- The iteration behind the structural checks; `generated` is the answer, `i` the iteration's number.
  unfoldable pub judge_plan : ℕ → GenerationResult → WorkflowState → CheckResult → Session → Turn
  unfolding say judge tasks_of add_usage
  judge_plan i generated state checked s =
      let s1 = say (planning_judging wid i checked.score) s in
      let asked = record s1 {
        calls = cond (is_empty (tasks_of state wid)) s1.calls (suc s1.calls);
      } in
      elim (judge (w.judge_generate s1.calls) w.parse_judgement state wid) [
        | failed e ↦ stop e asked
        | returned r ↦
            let last : Last = record { gen_result = generated; check = checked } in
            let s2 = record asked {
              accumulated_usage = add_usage asked.accumulated_usage r.usage;
              judge_result = some r;
            } in
            elim r.approved [
              | true ↦ accept state r last s2
              | false ↦
                  let s3 = say (iteration_complete wid i "judge_rejected" (length r.issues)) s2 in
                  retry last (record s3 { prompt = with_judge_feedback s3.prompt r.issues })
            ]
      ]

  -- The iteration behind `_build_state`; `none`: the search for a cycle ran out of fuel.
  unfoldable pub check_plan : ℕ → GenerationResult → WorkflowState → Session → Option Turn
  unfolding say check judge_plan
  check_plan i generated state s =
      let s1 = say (planning_checking wid i) s in
      elim (check w.heuristics state spec.agents wid) [
        | none ↦ none
        | some checked ↦ elim checked.valid [
          | true ↦ some (judge_plan i generated state checked s1)
          | false ↦
              let s2 = say (iteration_complete wid i "checker_failed" (length checked.issues)) s1 in
              some (
                retry (record { gen_result = generated; check = checked })
                  (record s2 { prompt = with_checker_feedback s2.prompt checked.issues }))
        ]
      ]

  -- `_parse_response` and `_build_state`.
  unfoldable pub read_plan : String → ℕ → Reply (WorkflowState × ℕ)
  unfolding build_state
  read_plan text n = elim (w.parse_plan text) [
    | invalid_json ↦ failed "ValueError"
    | misshaped e ↦ failed e
    | parsed d ↦ build_state w.sources spec wid d n
  ]

  -- One iteration.
  unfoldable pub iteration : ℕ → Session → Option Turn
  unfolding say add_usage read_plan check_plan
  iteration i s =
      let s1 = say (planning_generating wid i (ltb 1 i)) s in
      let s2 = record s1 { calls = suc s1.calls } in
      elim (w.generate s1.calls s1.prompt) [
        | failed e ↦ some (stop e s2)
        | returned generated ↦
            let s3 = record s2 {
              accumulated_usage = add_usage s2.accumulated_usage generated.usage;
            } in
            elim (read_plan generated.text s3.drawn) [
              | failed e ↦ some (stop e s3)
              | returned (state, n) ↦ check_plan i generated state (record s3 { drawn = n })
            ]
      ]

  -- What stands behind the loop. Without an iteration the name `gen_result` is unbound.
  unfoldable pub exhausted : Option Last → LlmPlanner → Session → Planning
  unfolding note_end
  exhausted none p s = record {
    outcome = planner_raised "UnboundLocalError";
    planner = record p { last_usage = s.accumulated_usage };
    session = s;
  }
  exhausted (some last) p s = record {
    outcome =
        planning_failed last.check.score
          (Option.map (λ (r : PlanJudgeResult). r.score) s.judge_result)
          (record { checker = last.check; judge = s.judge_result });
    planner = note_end last s p;
    session = s;
  }

  -- The loop, with the iterations that are left, and the number of the next one.
  unfoldable pub iterations : ℕ → ℕ → Option Last → LlmPlanner → Session → Option Planning
  unfolding iteration exhausted note_end
  iterations zero i last p s = some (exhausted last p s)
  iterations (suc left) i last p s = elim (iteration i s) [
    | none ↦ none
    | some turn ↦ elim turn [
      | accept state r last' s' ↦
          some (record { outcome = planned state; planner = note_end last' s' p; session = s' })
      | retry last' s' ↦ iterations left (suc i) (some last') p s'
      | stop e s' ↦ some (record { outcome = planner_raised e; planner = p; session = s' })
    ]
  ]

  unfoldable pub new_session : ℕ → Session
  new_session max = record {
    prompt = for_specification;
    accumulated_usage = no_usage;
    judge_result = none;
    calls = 0;
    drawn = 0;
    events = planning_started wid max ∷ [];
  }

  -- plan
  unfoldable pub plan : LlmPlanner → Option Planning
  unfolding iterations new_session
  plan p = iterations p.max_checker_iterations 1 none p (new_session p.max_checker_iterations)
