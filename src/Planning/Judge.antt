-- ===== src/Planning/Judge.antt =====
-- src/rooben/planning/plan_judge.py: `PlanJudge.judge`. What the provider and the JSON parser give are
-- arguments; a score is in thousandths.
use rooben.Prelude.{
  get_or, ℕ, ◌==◌, Bool, true, cond, leb, String, str_eq, Option, List, [], ◌∷◌, map, count,
}
use rooben.Domain.Models.{Task, TokenUsage, WorkflowState}
use rooben.Domain.State.{tasks_of}
use rooben.Orchestrator.Core.{Reply, returned, failed}

-- GenerationResult of planning/provider.py, without the flag `truncated`.
pub record GenerationResult : Type 0 where
  pub text : String
  pub usage : TokenUsage
  pub model : String
  pub provider : String

-- What the reading of a model's answer gives: no JSON, JSON of another shape than the prompt asks for,
-- on which the code raises, or the data.
pub data Parsed (A : Type 0) : Type 0 where
  invalid_json : Parsed A
  misshaped : String → Parsed A
  parsed : A → Parsed A

pub data ℤ : Type 0 where
  pos : ℕ → ℤ
  negsuc : ℕ → ℤ

pub record IssueData : Type 0 where
  pub task_id : Option String
  pub severity : Option String
  pub reason : Option String
  pub suggestion : Option String

pub record JudgeData : Type 0 where
  pub score : Option ℤ
  pub approved : Option Bool
  pub issues : Option (List IssueData)

pub record PlanIssue : Type 0 where
  pub task_id : String
  pub severity : String
  pub reason : String
  pub suggestion : String

pub record PlanJudgeResult : Type 0 where
  pub approved : Bool
  pub score : ℕ
  pub issues : List PlanIssue
  pub usage : TokenUsage

-- TokenUsage()
abbrev pub no_usage : TokenUsage
no_usage = record {
  input_tokens = 0;
  output_tokens = 0;
  cache_read_tokens = 0;
  cache_creation_tokens = 0;
}

-- max(0.0, min(1.0, score))
unfoldable pub clamp : ℤ → ℕ
clamp (ℤ.pos n) = cond (leb n 1000) n 1000
clamp (ℤ.negsuc n) = 0

-- i.severity == "high"
unfoldable pub is_high : PlanIssue → Bool
is_high i = str_eq i.severity "high"

unfoldable pub plan_issue : IssueData → PlanIssue
unfolding get_or
plan_issue d = record {
  task_id = get_or d.task_id "unknown";
  severity = get_or d.severity "medium";
  reason = get_or d.reason "";
  suggestion = get_or d.suggestion "";
}

-- The result for the data that the model gave.
unfoldable pub judged : TokenUsage → JudgeData → PlanJudgeResult
unfolding get_or plan_issue is_high clamp
judged usage d =
    let issues = map plan_issue (get_or d.issues []) in
    let approved = get_or d.approved (count is_high issues == 0) in
    record {
      approved = approved;
      score = clamp (get_or d.score (cond approved (ℤ.pos 1000) (ℤ.pos 0)));
      issues = issues;
      usage = usage;
    }

-- `judge`, and whether it calls the provider. A state without tasks, and an answer that is no JSON, are
-- approved.
module _ (generate : List Task → Reply GenerationResult) (parse : String → Parsed JudgeData) where
  unfoldable pub judge_reply : Reply GenerationResult → Reply PlanJudgeResult
  unfolding judged
  judge_reply (failed e) = failed e
  judge_reply (returned g) = elim (parse g.text) [
    | invalid_json ↦
        returned (record { approved = true; score = 1000; issues = []; usage = g.usage })
    | misshaped e ↦ failed e
    | parsed d ↦ returned (judged g.usage d)
  ]

  unfoldable pub judge : WorkflowState → String → Reply PlanJudgeResult
  unfolding tasks_of judge_reply
  judge state wid = elim (tasks_of state wid) [
    | [] ↦ returned (record { approved = true; score = 1000; issues = []; usage = no_usage })
    | t ∷ ts ↦ judge_reply (generate (t ∷ ts))
  ]
