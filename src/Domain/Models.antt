-- ===== src/Domain/Models.antt =====
-- src/rooben/domain.py: the records of the runtime state. Scores are thousandths, times are
-- milliseconds of the clock that the caller reads; a text is a `String`.
use rooben.Prelude.{ℕ, ◌+◌, Bool, false, String, Option, none, some, List, str_eq, not}
use rooben.Dict.{Dict}
use rooben.Domain.Status.{TaskStatus, WorkstreamStatus, WorkflowStatus}

pub record TokenUsage : Type 0 where
  pub input_tokens : ℕ
  pub output_tokens : ℕ
  pub cache_read_tokens : ℕ
  pub cache_creation_tokens : ℕ

-- TokenUsage.total
unfoldable pub total : TokenUsage → ℕ
total u = u.input_tokens + u.output_tokens

pub record TestCaseResult : Type 0 where
  pub name : String
  pub passed : Bool
  pub error_message : String

pub record VerificationFeedback : Type 0 where
  pub attempt : ℕ
  pub verifier_type : String
  pub passed : Bool
  pub score : ℕ
  pub feedback : String
  pub suggested_improvements : List String
  pub test_results : List TestCaseResult

pub record GeneratedTest : Type 0 where
  pub filename : String
  pub content : String
  pub test_type : String
  pub framework : String

pub record ArtifactManifestEntry : Type 0 where
  pub path : String
  pub size_bytes : ℕ
  pub file_type : String

pub record TaskResult : Type 0 where
  pub output : String
  pub artifacts : Dict String
  pub file_manifest : List ArtifactManifestEntry
  pub generated_tests : List GeneratedTest
  pub error : Option String
  pub token_usage : ℕ
  pub token_usage_detailed : Option TokenUsage
  pub wall_seconds : ℕ
  pub learnings : List String

pub record StructuredTaskPrompt : Type 0 where
  pub objective : String
  pub files : List String
  pub action : String
  pub verify : String
  pub done : String

pub record Task : Type 0 where
  pub id : String
  pub workstream_id : String
  pub workflow_id : String
  pub title : String
  pub description : String
  pub structured_prompt : Option StructuredTaskPrompt
  pub status : TaskStatus
  pub assigned_agent_id : Option String
  pub depends_on : List String
  pub acceptance_criteria_ids : List String
  pub verification_strategy : String
  pub skeleton_tests : List String
  pub result : Option TaskResult
  pub attempt : ℕ
  pub max_retries : ℕ
  pub created_at : ℕ
  pub started_at : Option ℕ
  pub completed_at : Option ℕ
  pub attempt_feedback : List VerificationFeedback
  pub linear_issue_id : Option String
  pub enriched_prompt : Option String

pub record Workstream : Type 0 where
  pub id : String
  pub workflow_id : String
  pub name : String
  pub description : String
  pub status : WorkstreamStatus
  pub task_ids : List String
  pub created_at : ℕ

pub record Workflow : Type 0 where
  pub id : String
  pub spec_id : String
  pub status : WorkflowStatus
  pub workstream_ids : List String
  pub spec_content_hash : String
  pub created_at : ℕ
  pub completed_at : Option ℕ
  pub total_tasks : ℕ
  pub completed_tasks : ℕ
  pub failed_tasks : ℕ
  pub replan_count : ℕ
  pub linear_project_id : Option String

pub record WorkflowState : Type 0 where
  pub workflows : Dict Workflow
  pub workstreams : Dict Workstream
  pub tasks : Dict Task
  pub task_hashes : Dict String

-- A text in a condition: the empty one is false.
unfoldable pub text_truthy : String → Bool
text_truthy s = not (str_eq s "")

-- `str | None` in a condition.
unfoldable pub truthy : Option String → Bool
unfolding text_truthy
truthy none = false
truthy (some s) = text_truthy s
