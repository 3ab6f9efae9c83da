-- ===== src/Planning/Draft/Data.antt =====
-- src/rooben/planning/llm_planner.py: the data of a plan, in the format of `SYSTEM_PROMPT`, and what the
-- conversion makes of its ids and agents.
use Prim.Native.Char.{code}
use Prim.Native.String.{String}
use rooben.Prelude.{
  prefix, ℕ, ◌==◌, ◌&&◌, not, cond, Option, none, some, List, [], ◌∷◌, map, str_append,
}
use rooben.Domain.Models.{Task, text_truthy}
use rooben.Spec.Models.{AgentSpec}
use rooben.Planning.Checker.{contains}
use rooben.Orchestrator.Core.{Reply, returned, failed}

pub record TaskData : Type 0 where
  pub id : Option String
  pub assigned_agent_id : Option String
  pub depends_on : Option (List String)
  pub title : Option String
  pub description : Option String
  pub acceptance_criteria_ids : Option (List String)
  pub verification_strategy : Option String
  pub skeleton_tests : Option (List String)

pub record WorkstreamData : Type 0 where
  pub id : Option String
  pub name : Option String
  pub description : Option String
  pub tasks : Option (List TaskData)

pub record PlanData : Type 0 where
  pub workstreams : Option (List WorkstreamData)

-- What the planner draws from its surroundings; the argument of `hex8` and `clock` counts the draws.
pub record Sources : Type 0 where
  -- uuid.uuid4().hex[:8]
  pub hex8 : ℕ → String
  -- datetime.utcnow()
  pub clock : ℕ → ℕ
  -- Task.content_hash
  pub content_hash : Task → String

-- What `_build_state` reads of the specification.
pub record SpecView : Type 0 where
  pub id : String
  pub content_hash : String
  pub agents : List AgentSpec

-- The part of the second text behind its last "-"; the first text if it has none.
unfoldable pub behind_last : String → String → String
behind_last found String.[] = found
behind_last found (String.◌∷◌ c s) = cond (code c == b'-') (behind_last s s) (behind_last found s)

-- workflow_id.split("-")[-1][:6]
unfoldable pub suffix_of : String → String
unfolding prefix behind_last
suffix_of wid = prefix 6 (behind_last wid wid)

-- f"{raw_id}-{wf_suffix}"
unfoldable pub scoped_id : String → String → String
scoped_id suffix raw = str_append raw (str_append "-" suffix)

-- The agent of a task: one that the specification lacks is replaced by the first one.
unfoldable pub plan_agent : List AgentSpec → Option String → Reply (Option String)
unfolding text_truthy contains
plan_agent agents none = returned none
plan_agent [] (some a) = cond (text_truthy a) (failed "IndexError") (returned (some a))
plan_agent (first ∷ agents) (some a) =
    cond (text_truthy a && not (contains (map (λ (x : AgentSpec). x.id) (first ∷ agents)) a))
      (returned (some first.id)) (returned (some a))
