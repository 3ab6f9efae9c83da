-- ===== src/Spec/Validator/Valid.antt =====
-- What a valid specification is.
use rooben.Prelude.{Bool, true, not, ◌&&◌, String, List, [], ◌∷◌, all, is_empty}
use rooben.Dict.{Dict, has}
use rooben.Domain.Models.{text_truthy}
use rooben.Planning.Checker.{contains}
use rooben.Spec.Models.{AgentTransport, AgentSpec}
use rooben.Spec.Validator.{IdType, has_url}

-- The agent has what its transport needs.
unfoldable pub is_reachable : AgentSpec → Bool
unfolding has_url text_truthy
is_reachable a = elim a.transport [
  | AgentTransport.llm ↦ true
  | AgentTransport.subprocess ↦ text_truthy a.endpoint
  | AgentTransport.http ↦ has_url a
  | AgentTransport.mcp ↦ not (is_empty a.mcp_servers)
]

-- No text stands twice in the list.
unfoldable pub all_distinct : List String → Bool
unfolding contains
all_distinct [] = true
all_distinct (x ∷ xs) = not (contains xs x) && all_distinct xs

-- The ids are new to the dictionary.
abbrev are_new : Dict IdType → List String → Bool
are_new seen ids = all (λ id. not (has seen id)) ids
