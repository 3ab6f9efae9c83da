-- ===== src/Examples/Planner.antt =====
-- The theorems on the planner, with models that answer with a plan of two tasks.
use rooben.Prelude.{
  ℕ, ◌*◌, ◌≤◌, ◌≡◌, refl, String, Bool, true, false, Option, none, some, List, [], ◌∷◌, map,
}
use rooben.Dict.{values}
use rooben.Domain.Models.{Task, WorkflowState}
use rooben.Domain.Status.{TaskStatus}
use rooben.Planning.Draft.{TaskData, PlanData, SpecView, suffix_of}
use rooben.Planning.Judge.{parsed, ℤ, no_usage}
use rooben.Planning.Planner.{
  PlanWorld, PlanQuality, planned, planning_failed, planner_raised, LlmPlanner, Planning,
  for_specification, plan,
}
use rooben.Planning.Planner.Outcome.{generations, IsAccepted, IsRefused}
use rooben.Planning.Planner.Ends.{plan-ends, plan-IsAccepted, plan-IsRefused}
use rooben.Planning.Planner.Run.{IsRunEnd, run-IsRunEnd}
use rooben.Orchestrator.Core.{returned}
use rooben.Orchestrator.TaskSteps.{Step}
use rooben.Orchestrator.Phases.{run}
use rooben.Examples.Planning.{heuristics, agent}
use rooben.Samples.{orchestrator, world}

suffix_of-example : suffix_of "wf-233026f5" ≡ "233026"
unfolding suffix_of
suffix_of-example = refl

abbrev task_data : String → List String → Option String → TaskData
task_data id deps agent_id = record {
  id = some id;
  assigned_agent_id = agent_id;
  depends_on = some deps;
  title = some id;
  description = none;
  acceptance_criteria_ids = none;
  verification_strategy = none;
  skeleton_tests = none;
}

-- The second task is given to an agent that the specification lacks, if any.
abbrev plan_data : Option String → PlanData
plan_data agent_id = record {
  workstreams = some (
      record {
        id = some "ws";
        name = some "ws";
        description = none;
        tasks = some (task_data "a" [] (some "agent") ∷ task_data "b" ("a" ∷ []) agent_id ∷ []);
      }
      ∷ []);
}

abbrev spec : SpecView
spec = record { id = "spec"; content_hash = "hash"; agents = agent ∷ [] }

-- Models that answer every call; the judge says `approved`.
abbrev models : Option String → Bool → PlanWorld
models agent_id approved = record {
  generate =
      λ n p. returned (record { text = "plan"; usage = no_usage; model = "m"; provider = "p" });
  judge_generate =
      λ n ts. returned (record { text = "verdict"; usage = no_usage; model = "m"; provider = "p" });
  parse_plan = λ text. parsed (plan_data agent_id);
  parse_judgement = λ text.
      parsed (record { score = some (ℤ.negsuc 4); approved = some approved; issues = none });
  heuristics = heuristics;
  sources = record { hex8 = λ n. "00000000"; clock = λ n. n; content_hash = λ t. t.title };
}

abbrev planner : LlmPlanner
planner = record {
  max_checker_iterations = 3;
  last_usage = no_usage;
  last_model = "";
  last_provider = "";
  last_checker_score = none;
  last_judge_score = none;
  last_plan_quality = none;
}

plan-ends_example :
    (r : Planning) × (plan (models none true) spec "wf-1" planner ≡ some r)
    × (generations r.session ≤ 3)
    × (r.session.calls ≤ 2 * 3)
plan-ends_example = plan-ends (models none true) spec "wf-1" planner

run-IsRunEnd_example :
    (r : Planning) × (plan (models (some "other") true) spec "wf-1" planner ≡ some r)
    × (fuel : ℕ) × (depth : ℕ) × (step : Step) × (run
          (world true)
          (models (some "other") true)
          spec
          planner
          true
          fuel
          depth
          "wf-1"
          (orchestrator TaskStatus.pending)
        ≡ some step)
    × IsRunEnd "wf-1" r.outcome step
run-IsRunEnd_example =
    run-IsRunEnd (world true) "wf-1" (models (some "other") true) spec planner true
      (orchestrator TaskStatus.pending)
      (record { agents = λ n a t. (_, refl); verifiers = λ n t r. (_, refl) })

-- The planning with these models.
abbrev planning : Option String → Bool → Planning
planning agent_id approved = elim (plan (models agent_id approved) spec "wf-1" planner) [
  | none ↦ record {
    outcome = planner_raised "";
    planner = planner;
    session = record {
      prompt = for_specification;
      accumulated_usage = no_usage;
      judge_result = none;
      calls = 0;
      drawn = 0;
      events = [];
    };
  }
  | some r ↦ r
]

-- The state that a planning returns.
abbrev state_of : Planning → WorkflowState
state_of r = elim r.outcome [
  | planned s ↦ s
  | planning_failed c j q ↦ record {
    workflows = [];
    workstreams = [];
    tasks = [];
    task_hashes = [];
  }
  | planner_raised e ↦ record { workflows = []; workstreams = []; tasks = []; task_hashes = [] }
]

-- The agent that the specification lacks is replaced.
planned-agents :
    map (λ (t : Task). t.assigned_agent_id) (values (state_of (planning (some "other") true)).tasks)
    ≡ some "agent" ∷ some "agent" ∷ []
unfolding plan values
planned-agents = refl

plan-IsAccepted_example :
    (q : PlanQuality) × ((planning (some "other") true).planner.last_plan_quality ≡ some q)
    × IsAccepted
        (models (some "other") true)
        spec
        "wf-1"
        (state_of (planning (some "other") true))
        q
unfolding plan
plan-IsAccepted_example =
    plan-IsAccepted (models (some "other") true) spec "wf-1" planner (planning (some "other") true)
      (state_of (planning (some "other") true)) refl refl

-- A judge that rejects every plan.
plan-IsRefused_example :
    (generations (planning (some "agent") false).session ≡ 3)
    × IsRefused
        (record { valid = true; score = 20; issues = [] })
        (some (record { approved = false; score = 0; issues = []; usage = no_usage }))
unfolding plan
plan-IsRefused_example =
    plan-IsRefused (models (some "agent") false) spec "wf-1" planner (planning (some "agent") false)
      20 (some 0)
      (record {
        checker = record { valid = true; score = 20; issues = [] };
        judge = some (record { approved = false; score = 0; issues = []; usage = no_usage });
      })
      refl refl
