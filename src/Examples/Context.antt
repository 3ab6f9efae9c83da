-- ===== src/Examples/Context.antt =====
-- The theorem on prompts, at a task whose feedback is cut.
use rooben.Prelude.{◌≡◌, refl, none, some, [], ◌∷◌, map}
use rooben.Domain.Status.{TaskStatus}
use rooben.Domain.Models.{Task}
use rooben.Context.Sections.{
  Section, Surroundings, description_section, optional_sections, collect_sections,
}
use rooben.Context.Builder.{ContextConfig, token_budget, sort_sections, chosen, build}
use rooben.Context.Builder.Budget.{tokens, IsPrompt, build-within_budget}
use rooben.Samples.{task}

abbrev surroundings : Surroundings
surroundings = record {
  show = λ n. "1";
  show_score = λ n. "0.50";
  input_files = λ dir. ("a", some "data") ∷ ("b", none) ∷ [];
}

-- A budget of forty tokens.
abbrev config : ContextConfig
config = record { max_context_tokens = 80; budget_fraction = 500; chars_per_token = 4000 }

abbrev criteria_task : Task
criteria_task = record (task "a" [] TaskStatus.pending) {
  acceptance_criteria_ids = "first" ∷ "second" ∷ [];
  skeleton_tests =
      "assert the_result_of_a_long_computation() == the_value_that_was_expected_of_it" ∷ [];
}

-- The input file of the directory stands behind the criteria.
sorted-labels :
    map
      (λ (s : Section). s.label)
      (sort_sections (collect_sections surroundings criteria_task none none (some "dir") none))
    ≡ "task_description" ∷ "acceptance_criteria" ∷ "input_sources" ∷ "skeleton_tests" ∷ []
unfolding sort_sections collect_sections
sorted-labels = refl

-- The tests are cut, and the prompt takes three tokens more than the budget.
chosen-tokens :
    tokens (
      chosen config 40
        (sort_sections (collect_sections surroundings criteria_task none none none none)))
    ≡ 43
unfolding chosen sort_sections collect_sections
chosen-tokens = refl

build-within_budget_example :
    IsPrompt
      (token_budget config)
      (description_section criteria_task none)
      (optional_sections surroundings criteria_task none none none none)
      (build config surroundings criteria_task none none none none)
build-within_budget_example =
    build-within_budget surroundings criteria_task none none none none config refl
