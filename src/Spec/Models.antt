-- ===== src/Spec/Models.antt =====
-- src/rooben/spec/models.py: a specification with its parts, but for the data sources (`input_sources`)
-- and the declared system capabilities of agents. Fractions are in thousandths.
use rooben.Prelude.{ℕ, Bool, String, Option, List}
use rooben.Dict.{Dict}

pub data McpTransportType : Type 0 where
  stdio : McpTransportType
  sse : McpTransportType

pub record McpServerConfig : Type 0 where
  pub name : String
  pub transport_type : McpTransportType
  pub command : Option String
  pub args : List String
  pub env : Dict String
  pub url : Option String
  pub headers : Dict String

pub data AgentTransport : Type 0 where
  llm : AgentTransport
  subprocess : AgentTransport
  http : AgentTransport
  mcp : AgentTransport

pub record AgentBudget : Type 0 where
  pub max_tokens : Option ℕ
  pub max_tasks : Option ℕ
  pub max_wall_seconds : Option ℕ
  pub max_retries_per_task : ℕ

pub record AgentSpec : Type 0 where
  pub id : String
  pub name : String
  pub transport : AgentTransport
  pub description : String
  pub endpoint : String
  pub capabilities : List String
  pub max_concurrency : ℕ
  pub max_turns : ℕ
  pub max_context_tokens : ℕ
  pub budget : Option AgentBudget
  pub mcp_servers : List McpServerConfig
  pub integrations : List String
  pub model : Option String

pub data Priority : Type 0 where
  critical high medium low : Priority

pub data DeliverableType : Type 0 where
  code document dataset design workflow application api infrastructure other : DeliverableType

pub data TestType : Type 0 where
  unit integration e2e performance security accessibility manual : TestType

pub data ConstraintCategory : Type 0 where
  budget time technology security compliance performance compatibility other : ConstraintCategory

pub record AcceptanceCriterion : Type 0 where
  pub id : String
  pub description : String
  pub verification : String
  pub priority : Priority

pub record TestRequirement : Type 0 where
  pub id : String
  pub description : String
  pub test_type : TestType
  pub target_deliverable : Option String
  pub skeleton : Option String

pub record Constraint : Type 0 where
  pub id : String
  pub category : ConstraintCategory
  pub description : String
  pub hard : Bool

pub record Deliverable : Type 0 where
  pub id : String
  pub name : String
  pub deliverable_type : DeliverableType
  pub description : String
  pub output_path : Option String
  pub acceptance_criteria_ids : List String

pub record WorkflowHint : Type 0 where
  pub name : String
  pub description : String
  pub suggested_agent_id : Option String
  pub depends_on : List String

pub record GlobalBudget : Type 0 where
  pub max_total_tokens : Option ℕ
  pub max_total_tasks : Option ℕ
  pub max_wall_seconds : Option ℕ
  pub max_concurrent_agents : ℕ

pub record SuccessCriteria : Type 0 where
  pub acceptance_criteria : List AcceptanceCriterion
  pub test_requirements : List TestRequirement
  pub completion_threshold : ℕ

pub record Specification : Type 0 where
  pub id : String
  pub version : String
  pub created_at : ℕ
  pub title : String
  pub goal : String
  pub context : String
  pub rationale : String
  pub deliverables : List Deliverable
  pub success_criteria : SuccessCriteria
  pub constraints : List Constraint
  pub agents : List AgentSpec
  pub workflow_hints : List WorkflowHint
  pub notes : String
  pub global_budget : Option GlobalBudget
  pub workspace_dir : Option String
