-- ===== src/Planning/Draft.antt =====
-- src/rooben/planning/llm_planner.py: `_build_state`, from the data of a plan to a workflow state. The
-- data is that of the format of `SYSTEM_PROMPT`, in which any key may be missing. The random hexadecimal
-- texts of `uuid`, the clock and the hashes are parameters.
mod Data
pub mod Fresh
pub mod Invariant
use Prim.Native.Char.{code}
use Prim.Native.String.{String}
use rooben.Prelude.{
  get_or, prefix, ℕ, zero, suc, ◌==◌, ◌&&◌, not, cond, Option, none, some, List, [], ◌∷◌, ◌++◌, map,
  str_append,
}
use rooben.Dict.{Dict, get, put}
use rooben.Domain.Status.{TaskStatus, WorkstreamStatus, WorkflowStatus}
use rooben.Domain.Models.{Task, Workstream, Workflow, WorkflowState, text_truthy}
use rooben.Domain.State.{register_task}
use rooben.Spec.Models.{AgentSpec}
use rooben.Planning.Checker.{contains}
use rooben.Orchestrator.Core.{Reply, returned, failed}
unfoldable pub use Data.*

-- What the second pass changes: the state, the current workstream, the workflow, and the draws.
pub record Drafting : Type 0 where
  pub state : WorkflowState
  pub workstream : Workstream
  pub workflow : Workflow
  pub drawn : ℕ

module _ (src : Sources) (spec : SpecView) (wid : String) where
  -- The first pass over the tasks of a workstream.
  unfoldable pub remap_tasks : List TaskData → Dict String × ℕ → Dict String × ℕ
  unfolding get_or scoped_id suffix_of put
  remap_tasks [] r = r
  remap_tasks (d ∷ ds) (remap, n) =
      let raw = get_or d.id (str_append "task-" (src.hex8 n)) in
      remap_tasks ds (put remap raw (scoped_id (suffix_of wid) raw), suc n)

  -- The first pass.
  unfoldable pub remap_workstreams : List WorkstreamData → Dict String × ℕ → Dict String × ℕ
  unfolding remap_tasks get_or
  remap_workstreams [] r = r
  remap_workstreams (d ∷ ds) r = remap_workstreams ds (remap_tasks (get_or d.tasks []) r)

  -- Task(…) with the fields that the plan leaves at their defaults
  unfoldable pub new_task : Dict String → String → TaskData → Option String → String → ℕ → Task
  unfolding get_or get
  new_task remap ws_id d agent title n =
      let raw = get_or d.id (str_append "task-" (src.hex8 n)) in
      record {
        id = get_or (get remap raw) raw;
        workstream_id = ws_id;
        workflow_id = wid;
        title = title;
        description = get_or d.description "";
        structured_prompt = none;
        status = TaskStatus.pending;
        assigned_agent_id = agent;
        depends_on = map (λ dep. get_or (get remap dep) dep) (get_or d.depends_on []);
        acceptance_criteria_ids = get_or d.acceptance_criteria_ids [];
        verification_strategy = get_or d.verification_strategy "llm_judge";
        skeleton_tests = get_or d.skeleton_tests [];
        result = none;
        attempt = 0;
        max_retries = 3;
        created_at = src.clock n;
        started_at = none;
        completed_at = none;
        attempt_feedback = [];
        linear_issue_id = none;
        enriched_prompt = none;
      }

  -- `register_task`, and what is counted if it registers.
  unfoldable pub register_draft : Task → Drafting → Drafting
  unfolding register_task
  register_draft t b =
      let (s, registered) = register_task src.content_hash b.state t in
      elim registered [
        | none ↦ record b { state = s; drawn = suc b.drawn }
        | some u ↦ record b {
          state = s;
          workstream = record b.workstream { task_ids = b.workstream.task_ids ++ t.id ∷ [] };
          workflow = record b.workflow { total_tasks = suc b.workflow.total_tasks };
          drawn = suc b.drawn;
        }
      ]

  -- One task of the second pass.
  unfoldable pub draft_task : Dict String → TaskData → Drafting → Reply Drafting
  unfolding plan_agent new_task register_draft
  draft_task remap d b = elim (plan_agent spec.agents d.assigned_agent_id) [
    | failed e ↦ failed e
    | returned agent ↦ elim d.title [
      | none ↦ failed "KeyError"
      | some title ↦
          returned (register_draft (new_task remap b.workstream.id d agent title b.drawn) b)
    ]
  ]

  unfoldable pub draft_tasks : Dict String → List TaskData → Drafting → Reply Drafting
  unfolding draft_task
  draft_tasks remap [] b = returned b
  draft_tasks remap (d ∷ ds) b = elim (draft_task remap d b) [
    | failed e ↦ failed e
    | returned b' ↦ draft_tasks remap ds b'
  ]

  -- Workstream(…)
  unfoldable pub new_workstream : String → WorkstreamData → String → ℕ → Workstream
  unfolding get_or
  new_workstream id d name n = record {
    id = id;
    workflow_id = wid;
    name = name;
    description = get_or d.description "";
    status = WorkstreamStatus.pending;
    task_ids = [];
    created_at = src.clock n;
  }

  -- The end of the body for a workstream.
  unfoldable pub close_workstream : Drafting → Drafting
  unfolding put
  close_workstream b = record b {
    state = record b.state { workstreams = put b.state.workstreams b.workstream.id b.workstream };
    workflow = record b.workflow {
      workstream_ids = b.workflow.workstream_ids ++ b.workstream.id ∷ [];
    };
  }

  -- One workstream of the second pass.
  unfoldable pub draft_workstream : Dict String → WorkstreamData → Drafting → Reply Drafting
  unfolding get_or scoped_id suffix_of new_workstream draft_tasks close_workstream
  draft_workstream remap d b = elim d.name [
    | none ↦ failed "KeyError"
    | some name ↦
        let raw = get_or d.id (str_append "ws-" (src.hex8 b.drawn)) in
        let ws = new_workstream (scoped_id (suffix_of wid) raw) d name b.drawn in
        let begun = record b { workstream = ws; drawn = suc b.drawn } in
        elim (draft_tasks remap (get_or d.tasks []) begun) [
          | failed e ↦ failed e
          | returned b' ↦ returned (close_workstream b')
        ]
  ]

  unfoldable pub draft_workstreams : Dict String → List WorkstreamData → Drafting → Reply Drafting
  unfolding draft_workstream
  draft_workstreams remap [] b = returned b
  draft_workstreams remap (d ∷ ds) b = elim (draft_workstream remap d b) [
    | failed e ↦ failed e
    | returned b' ↦ draft_workstreams remap ds b'
  ]

  -- The empty state with the workflow that the tasks are counted in.
  unfoldable pub begin_draft : ℕ → Drafting
  begin_draft n = record {
    state = record { workflows = []; workstreams = []; tasks = []; task_hashes = [] };
    workstream = record {
      id = "";
      workflow_id = wid;
      name = "";
      description = "";
      status = WorkstreamStatus.pending;
      task_ids = [];
      created_at = 0;
    };
    workflow = record {
      id = wid;
      spec_id = spec.id;
      status = WorkflowStatus.planning;
      workstream_ids = [];
      spec_content_hash = spec.content_hash;
      created_at = src.clock n;
      completed_at = none;
      total_tasks = 0;
      completed_tasks = 0;
      failed_tasks = 0;
      replan_count = 0;
      linear_project_id = none;
    };
    drawn = n;
  }

  -- state.workflows[workflow_id] = workflow
  unfoldable pub close_draft : Drafting → WorkflowState × ℕ
  unfolding put
  close_draft b = (record b.state { workflows = put b.state.workflows wid b.workflow }, b.drawn)

  -- `_build_state`, from this count of draws on; with the count that it leaves.
  unfoldable pub build_state : PlanData → ℕ → Reply (WorkflowState × ℕ)
  unfolding get_or remap_workstreams begin_draft draft_workstreams close_draft
  build_state plan n =
      let workstreams = get_or plan.workstreams [] in
      let (remap, m) = remap_workstreams workstreams ([], n) in
      elim (draft_workstreams remap workstreams (begin_draft m)) [
        | failed e ↦ failed e
        | returned b ↦ returned (close_draft b)
      ]
