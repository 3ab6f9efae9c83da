-- ===== src/Examples/Spec.antt =====
-- The theorem on specifications, at one whose agent and deliverable have the same id.
use rooben.Prelude.{◌≡◌, refl, String, none, [], ◌∷◌}
use rooben.Spec.Models.{DeliverableType, Priority, AgentTransport, AgentSpec, Specification}
use rooben.Spec.Validator.{agent, deliverable, duplicate_id, no_valid_endpoint, validate}

-- An HTTP agent.
abbrev http_agent : String → AgentSpec
http_agent url = record {
  id = "x";
  name = "x";
  transport = AgentTransport.http;
  description = "";
  endpoint = url;
  capabilities = [];
  max_concurrency = 1;
  max_turns = 40;
  max_context_tokens = 200_000;
  budget = none;
  mcp_servers = [];
  integrations = [];
  model = none;
}

abbrev spec : Specification
spec = record {
  id = "spec";
  version = "1.0.0";
  created_at = 0;
  title = "title";
  goal = "goal";
  context = "";
  rationale = "";
  deliverables =
      record {
        id = "x";
        name = "x";
        deliverable_type = DeliverableType.code;
        description = "";
        output_path = none;
        acceptance_criteria_ids = "ac" ∷ [];
      }
      ∷ [];
  success_criteria = record {
    acceptance_criteria =
        record { id = "ac"; description = ""; verification = "llm_judge"; priority = Priority.high }
        ∷ [];
    test_requirements = [];
    completion_threshold = 1000;
  };
  constraints = [];
  agents = http_agent "ftp://host" ∷ [];
  workflow_hints = [];
  notes = "";
  global_budget = none;
  workspace_dir = none;
}

validate-errors :
    (validate spec).errors ≡ no_valid_endpoint "x" ∷ duplicate_id "x" deliverable agent ∷ []
unfolding validate
validate-errors = refl
