-- ===== src/Context/Sections.antt =====
-- src/rooben/context/builder.py: `ContextBuilder._collect_sections`. The texts of numbers, and the files
-- under the directory "input" of a workspace, are parameters.
mod Parts
use rooben.Prelude.{
  ℕ, suc, ◌/◌, String, Bool, true, false, not, cond, leb, Option, none, some, List, [], ◌∷◌, ◌++◌,
  map, keep, take, is_empty, text_length, prefix, join, concat,
}
use rooben.Dict.{Dict, get}
use rooben.Domain.Models.{
  Task, TaskResult, StructuredTaskPrompt, VerificationFeedback, TestCaseResult,
  ArtifactManifestEntry, WorkflowState, text_truthy,
}
unfoldable pub use Parts.*

module _ (w : Surroundings) where
  -- 2. The input files
  unfoldable pub input_section : Option String → List Section
  unfolding directory input_parts section_if join
  input_section workspace_dir = elim (directory workspace_dir) [
    | none ↦ []
    | some dir ↦
        let parts = input_parts (take 5 (w.input_files dir)) in
        section_if (not (is_empty parts)) 3 "input_sources"
          (join "\n" ("\n## Pre-loaded Input Data" ∷ parts))
  ]

  unfoldable pub test_parts : ℕ → List String → List String
  unfolding concat
  test_parts i [] = []
  test_parts i (skel ∷ tests) =
      concat ("\n### Test " ∷ w.show i ∷ "\n```python\n" ∷ skel ∷ "\n```" ∷ [])
      ∷ test_parts (suc i) tests

  -- 3. The skeleton tests
  unfoldable pub tests_section : List String → List Section
  unfolding test_parts section_if join
  tests_section tests =
      section_if (not (is_empty tests)) 4 "skeleton_tests"
        (join "\n" ("\n## Skeleton Tests (you MUST implement these)" ∷ test_parts 1 tests))

  unfoldable pub failed_test_part : TestCaseResult → String
  unfolding concat text_truthy
  failed_test_part tr =
      concat
        ("- " ∷ tr.name ∷ cond (text_truthy tr.error_message) (": " ∷ tr.error_message ∷ []) [])

  unfoldable pub feedback_parts : List VerificationFeedback → List String
  unfolding concat bullets failed_test_part
  feedback_parts [] = []
  feedback_parts (fb ∷ fbs) =
      let failures = keep (λ (tr : TestCaseResult). not tr.passed) fb.test_results in
      concat ("\n### Attempt " ∷ w.show fb.attempt ∷ [])
        ∷ concat ("**Score**: " ∷ w.show_score fb.score ∷ [])
        ∷ concat ("**Feedback**: " ∷ fb.feedback ∷ [])
        ∷ cond (is_empty fb.suggested_improvements) []
            ("**Suggested improvements**:" ∷ bullets fb.suggested_improvements)
      ++ (cond (is_empty failures) [] ("**Failed tests**:" ∷ map failed_test_part failures)
          ++ feedback_parts fbs)

  -- 4. The feedback of prior attempts
  unfoldable pub feedback_section : List VerificationFeedback → List Section
  unfolding feedback_parts section_if join concat
  feedback_section fbs = section_if (not (is_empty fbs)) 5 "attempt_feedback" (
      join "\n" (
        "\n## Prior Attempt Feedback"
        ∷ concat (
            "The following feedback is from previous failed attempts. "
            ∷ "Use it to improve your output." ∷ [])
        ∷ feedback_parts fbs))

  unfoldable pub manifest_text : List ArtifactManifestEntry → String
  unfolding concat
  manifest_text [] = ""
  manifest_text (e ∷ es) = concat (
      "\n\n**Files produced (in shared workspace):**\n"
        ∷ map
            (λ (x : ArtifactManifestEntry).
              concat ("- `" ∷ x.path ∷ "` (" ∷ w.show x.size_bytes ∷ " bytes)\n" ∷ []))
            (take 50 (e ∷ es))
      ++ "\nUse filesystem tools to read any files you need." ∷ [])

  -- The part for a dependency with its result.
  unfoldable pub dependency_part : String → Task → TaskResult → String
  unfolding concat prefix manifest_text
  dependency_part dep_id t r = concat (
      "### "
      ∷ t.title
      ∷ " (task "
      ∷ dep_id
      ∷ ")\n"
      ∷ prefix 2000 r.output
      ∷ manifest_text r.file_manifest
      ∷ [])

  unfoldable pub dependency_parts : Dict Task → List String → List String
  unfolding get text_truthy dependency_part
  dependency_parts tasks [] = []
  dependency_parts tasks (dep_id ∷ deps) =
      let rest = dependency_parts tasks deps in
      elim (get tasks dep_id) [
        | none ↦ rest
        | some t ↦ elim t.result [
          | none ↦ rest
          | some r ↦ cond (text_truthy r.output) (dependency_part dep_id t r ∷ rest) rest
        ]
      ]

  -- 5. The outputs of dependencies
  unfoldable pub dependencies_section : Option WorkflowState → List String → List Section
  unfolding dependency_parts section_if concat join
  dependencies_section none deps = []
  dependencies_section (some state) deps =
      let parts = dependency_parts state.tasks deps in
      section_if (not (is_empty parts)) 6 "dependency_outputs"
        (concat ("\n## Outputs from Dependency Tasks\n" ∷ join "\n" parts ∷ []))

  -- 6. The codebase
  unfoldable pub codebase_section : Option String → List Section
  unfolding section_if text_truthy concat
  codebase_section none = []
  codebase_section (some codebase) =
      section_if (text_truthy codebase) 7 "codebase_context"
        (concat ("\n## Relevant Codebase Files\n" ∷ codebase ∷ []))

  -- The sections that are not required.
  unfoldable pub optional_sections :
      Task
      → Option WorkflowState
      → Option String
      → Option String
      → Option (Dict String)
      → List Section
  unfolding input_section criteria_section tests_section feedback_section dependencies_section
      codebase_section
  optional_sections t state codebase workspace_dir criteria_map =
      input_section workspace_dir
      ++ (criteria_section criteria_map t.acceptance_criteria_ids
          ++ (tests_section t.skeleton_tests
              ++ (feedback_section t.attempt_feedback
                  ++ (dependencies_section state t.depends_on ++ codebase_section codebase))))

  -- _collect_sections
  unfoldable pub collect_sections :
      Task
      → Option WorkflowState
      → Option String
      → Option String
      → Option (Dict String)
      → List Section
  unfolding description_section optional_sections
  collect_sections t state codebase workspace_dir criteria_map =
      description_section t workspace_dir
      ∷ optional_sections t state codebase workspace_dir criteria_map
