-- ===== src/Context/Sections/Parts.antt =====
-- src/rooben/context/builder.py: the description of a task, and the parts of the other sections that need
-- nothing outside the program.
use rooben.Prelude.{
  get_or, ℕ, ◌/◌, String, Bool, true, false, not, cond, leb, Option, none, some, List, [], ◌∷◌,
  ◌++◌, map, is_empty, text_length, prefix, join, concat,
}
use rooben.Dict.{Dict, get}
use rooben.Domain.Models.{Task, StructuredTaskPrompt, text_truthy}

-- _Section
pub record Section : Type 0 where
  pub priority : ℕ
  pub label : String
  pub content : String
  pub required : Bool

-- What is formatted or read outside the program.
pub record Surroundings : Type 0 where
  -- f"{n}"
  pub show : ℕ → String
  -- f"{score:.2f}"
  pub show_score : ℕ → String
  -- sorted((Path(workspace_dir) / "input").glob("*.json")), each with its text if it can be read
  pub input_files : String → List (String × Option String)

-- _Section.estimated_tokens
unfoldable pub estimated_tokens : Section → ℕ
unfolding text_length
estimated_tokens s = let n = text_length s.content / 4 in cond (leb n 1) 1 n

-- One section, if the condition holds.
unfoldable pub section_if : Bool → ℕ → String → String → List Section
section_if b priority label content =
    cond b (record { priority = priority; label = label; content = content; required = false } ∷ [])
      []

-- A part of a text, if the condition holds.
unfoldable pub part_if : Bool → String → List String
part_if b s = cond b (s ∷ []) []

unfoldable pub bullets : List String → List String
unfolding concat
bullets ss = map (λ s. concat ("- " ∷ s ∷ [])) ss

-- The parts for a structured prompt.
unfoldable pub structured_parts : Option StructuredTaskPrompt → List String
unfolding part_if bullets text_truthy concat join
structured_parts none = []
structured_parts (some sp) =
    part_if (text_truthy sp.objective) (concat ("\n## Objective\n" ∷ sp.objective ∷ []))
    ++ (part_if (not (is_empty sp.files)) (
          concat (
            "\n## File Scope\n"
            ∷ "WARNING: Only modify these files.\n"
            ∷ join "\n" (bullets sp.files)
            ∷ []))
        ++ (part_if (text_truthy sp.action) (concat ("\n## Action\n" ∷ sp.action ∷ []))
            ++ (part_if (text_truthy sp.verify) (concat ("\n## Verification\n" ∷ sp.verify ∷ []))
                ++ part_if (text_truthy sp.done)
                    (concat ("\n## Definition of Done\n" ∷ sp.done ∷ [])))))

-- `workspace_dir` if it is true in a condition.
unfoldable pub directory : Option String → Option String
unfolding text_truthy
directory none = none
directory (some dir) = cond (text_truthy dir) (some dir) none

unfoldable pub workspace_parts : Option String → List String
unfolding directory concat
workspace_parts workspace_dir = elim (directory workspace_dir) [
  | none ↦ []
  | some dir ↦
      concat (
        "\n## Workspace\n" ∷ "Your workspace directory is: " ∷ dir ∷ "\n"
        ∷ "Run all shell commands prefixed with: cd " ∷ dir ∷ " && <command>\n"
        ∷ "All file paths must be absolute within this directory." ∷ [])
      ∷ []
]

-- 1. The description
unfoldable pub description_section : Task → Option String → Section
unfolding structured_parts workspace_parts concat join
description_section t workspace_dir = record {
  priority = 1;
  label = "task_description";
  content = join "\n" (
      concat ("# Task: " ∷ t.title ∷ [])
        ∷ concat ("\n## Description\n" ∷ t.description ∷ [])
        ∷ structured_parts t.structured_prompt
      ++ workspace_parts workspace_dir);
  required = true;
}

-- The readable files of the first five.
unfoldable pub input_parts : List (String × Option String) → List String
unfolding prefix concat
input_parts [] = []
input_parts ((stem, none) ∷ files) = input_parts files
input_parts ((stem, some content) ∷ files) =
    concat ("\n### " ∷ stem ∷ "\n```\n" ∷ prefix 10_000 content ∷ "\n```" ∷ []) ∷ input_parts files

-- 3. The acceptance criteria
unfoldable pub criteria_section : Option (Dict String) → List String → List Section
unfolding section_if join concat get get_or
criteria_section criteria_map ids =
    let known = get_or criteria_map [] in
    let line : String → String = λ id.
      concat ("- **" ∷ id ∷ "**: " ∷ get_or (get known id) "(description not available)" ∷ []) in
    section_if (not (is_empty ids)) 2 "acceptance_criteria" (
      cond (is_empty known) (concat ("\n## Acceptance Criteria IDs\n" ∷ join ", " ids ∷ []))
        (concat ("\n## Acceptance Criteria\n" ∷ join "\n" (map line ids) ∷ [])))
