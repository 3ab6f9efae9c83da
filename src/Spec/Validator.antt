-- ===== src/Spec/Validator.antt =====
-- src/rooben/spec/validator.py. The text of an error or a warning is its kind with the values in it.
pub mod Valid
use rooben.Prelude.{
  ℕ, ◌==◌, Bool, true, false, not, ◌&&◌, ◌||◌, cond, ltb, String, Option, none, some, List, [], ◌∷◌,
  ◌++◌, map, is_empty, starts_with,
}
use rooben.Dict.{Dict, get, put}
use rooben.Domain.Models.{text_truthy}
use rooben.Planning.Checker.{contains}
use rooben.Spec.Models.{
  AgentTransport, AgentSpec, AcceptanceCriterion, Deliverable, WorkflowHint, GlobalBudget,
  Specification,
}

-- The kinds of object that have an id.
pub data IdType : Type 0 where
  deliverable : IdType
  acceptance_criterion : IdType
  agent : IdType

pub data SpecError : Type 0 where
  no_valid_endpoint : String → SpecError
  no_endpoint : String → SpecError
  no_mcp_servers : String → SpecError
  unknown_criterion : String → String → SpecError
  no_deliverables : SpecError
  no_agents : SpecError
  duplicate_id : String → IdType → IdType → SpecError

pub data SpecWarning : Type 0 where
  unknown_hint_agent : String → String → SpecWarning
  no_acceptance_criteria : SpecWarning
  large_token_budget : ℕ → SpecWarning
  large_task_budget : ℕ → SpecWarning

pub record ValidationResult : Type 0 where
  pub errors : List SpecError
  pub warnings : List SpecWarning

-- ValidationResult.is_valid
unfoldable pub is_valid : ValidationResult → Bool
is_valid r = is_empty r.errors

-- An entry, if the condition holds.
unfoldable pub entry_if {ℓ} : {A : Type ℓ} → Bool → A → List A
entry_if b x = cond b (x ∷ []) []

-- agent.endpoint and agent.endpoint.startswith(("http://", "https://"))
unfoldable pub has_url : AgentSpec → Bool
unfolding text_truthy starts_with
has_url a =
    text_truthy a.endpoint
    && (starts_with a.endpoint "http://" || starts_with a.endpoint "https://")

unfoldable pub transport_errors : AgentSpec → List SpecError
unfolding entry_if has_url text_truthy
transport_errors a = elim a.transport [
  | AgentTransport.llm ↦ []
  | AgentTransport.subprocess ↦ entry_if (not (text_truthy a.endpoint)) (no_endpoint a.id)
  | AgentTransport.http ↦ entry_if (not (has_url a)) (no_valid_endpoint a.id)
  | AgentTransport.mcp ↦ entry_if (is_empty a.mcp_servers) (no_mcp_servers a.id)
]

-- _check_transport_config
unfoldable pub check_transport_config : List AgentSpec → List SpecError
unfolding transport_errors
check_transport_config [] = []
check_transport_config (a ∷ agents) = transport_errors a ++ check_transport_config agents

-- The references of one deliverable.
unfoldable pub reference_errors : List String → String → List String → List SpecError
unfolding entry_if contains
reference_errors ac_ids id [] = []
reference_errors ac_ids id (ac_id ∷ ids) =
    entry_if (not (contains ac_ids ac_id)) (unknown_criterion id ac_id)
    ++ reference_errors ac_ids id ids

-- _check_acceptance_criteria_refs
unfoldable pub check_acceptance_criteria_refs : List String → List Deliverable → List SpecError
unfolding reference_errors
check_acceptance_criteria_refs ac_ids [] = []
check_acceptance_criteria_refs ac_ids (d ∷ ds) =
    reference_errors ac_ids d.id d.acceptance_criteria_ids
    ++ check_acceptance_criteria_refs ac_ids ds

-- _check_agent_refs_in_hints
unfoldable pub check_agent_refs_in_hints : List String → List WorkflowHint → List SpecWarning
unfolding entry_if contains text_truthy
check_agent_refs_in_hints agent_ids [] = []
check_agent_refs_in_hints agent_ids (h ∷ hints) =
    let rest = check_agent_refs_in_hints agent_ids hints in
    elim h.suggested_agent_id [
      | none ↦ rest
      | some a ↦
          entry_if (text_truthy a && not (contains agent_ids a)) (unknown_hint_agent h.name a)
          ++ rest
    ]

-- The ids with what they name, in the order of the check.
unfoldable pub all_ids : Specification → List (String × IdType)
all_ids spec =
    map (λ (d : Deliverable). (d.id, deliverable)) spec.deliverables
    ++ (map (λ (c : AcceptanceCriterion). (c.id, acceptance_criterion))
          spec.success_criteria.acceptance_criteria
        ++ map (λ (a : AgentSpec). (a.id, agent)) spec.agents)

-- The loop of `_check_duplicate_ids`.
unfoldable pub duplicate_errors : Dict IdType → List (String × IdType) → List SpecError
unfolding get put
duplicate_errors seen [] = []
duplicate_errors seen ((id, type) ∷ ids) = elim (get seen id) [
  | some first ↦ duplicate_id id first type ∷ duplicate_errors seen ids
  | none ↦ duplicate_errors (put seen id type) ids
]

-- b.max and b.max > limit
unfoldable pub large_budget : Option ℕ → ℕ → (ℕ → SpecWarning) → List SpecWarning
unfolding entry_if
large_budget none limit warning = []
large_budget (some n) limit warning = entry_if (not (n == 0) && ltb limit n) (warning n)

-- _check_budget_sanity
unfoldable pub check_budget_sanity : Option GlobalBudget → List SpecWarning
unfolding large_budget
check_budget_sanity none = []
check_budget_sanity (some b) =
    large_budget b.max_total_tokens 100_000_000 large_token_budget
    ++ large_budget b.max_total_tasks 1000 large_task_budget

unfoldable pub criteria_ids : Specification → List String
criteria_ids spec =
    map (λ (c : AcceptanceCriterion). c.id) spec.success_criteria.acceptance_criteria

unfoldable pub agent_ids : Specification → List String
agent_ids spec = map (λ (a : AgentSpec). a.id) spec.agents

-- _check_minimum_content
unfoldable pub check_minimum_content : Specification → ValidationResult
unfolding entry_if
check_minimum_content spec = record {
  errors =
      entry_if (is_empty spec.deliverables) no_deliverables
      ++ entry_if (is_empty spec.agents) no_agents;
  warnings = entry_if (is_empty spec.success_criteria.acceptance_criteria) no_acceptance_criteria;
}

-- validate
unfoldable pub validate : Specification → ValidationResult
unfolding check_transport_config check_acceptance_criteria_refs check_agent_refs_in_hints
    check_minimum_content duplicate_errors check_budget_sanity criteria_ids agent_ids all_ids
validate spec = record {
  errors =
      check_transport_config spec.agents
      ++ (check_acceptance_criteria_refs (criteria_ids spec) spec.deliverables
          ++ ((check_minimum_content spec).errors ++ duplicate_errors [] (all_ids spec)));
  warnings =
      check_agent_refs_in_hints (agent_ids spec) spec.workflow_hints
      ++ ((check_minimum_content spec).warnings ++ check_budget_sanity spec.global_budget);
}
