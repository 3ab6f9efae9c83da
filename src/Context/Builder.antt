-- ===== src/Context/Builder.antt =====
-- src/rooben/context/builder.py: `ContextBuilder.build` and its budget. The two factors of the
-- configuration are in thousandths.
pub mod Budget
pub mod Order
use rooben.Prelude.{
  ℕ, suc, ◌+◌, ◌-◌, ◌*◌, ◌/◌, String, Bool, true, false, cond, ltb, leb, Option, List, [], ◌∷◌, map,
  sum_of, prefix, join, str_append,
}
use rooben.Dict.{Dict}
use rooben.Domain.Models.{Task, WorkflowState}
use rooben.Context.Sections.{Section, Surroundings, estimated_tokens, collect_sections}

pub record ContextConfig : Type 0 where
  pub max_context_tokens : ℕ
  pub budget_fraction : ℕ
  pub chars_per_token : ℕ

-- ContextConfig.token_budget
unfoldable pub token_budget : ContextConfig → ℕ
token_budget c = c.max_context_tokens * c.budget_fraction / 1000

-- sections.sort(key=lambda s: s.priority): the sort is stable.
unfoldable pub insert_section : Section → List Section → List Section
insert_section s [] = s ∷ []
insert_section s (t ∷ ts) = cond (leb s.priority t.priority) (s ∷ t ∷ ts) (t ∷ insert_section s ts)

unfoldable pub sort_sections : List Section → List Section
unfolding insert_section
sort_sections [] = []
sort_sections (s ∷ ss) = insert_section s (sort_sections ss)

-- The section cut to a number of characters.
unfoldable pub truncated : ℕ → Section → Section
unfolding prefix
truncated char_budget s = record s {
  content = str_append (prefix char_budget s.content) "\n\n[truncated]";
  required = false;
}

module _ (config : ContextConfig) where
  -- The loop over the sections, with the tokens that are used.
  unfoldable pub fit : ℕ → ℕ → List Section → List Section
  unfolding estimated_tokens truncated
  fit budget used [] = []
  fit budget used (s ∷ ss) =
      let remaining = budget - used in
      let char_budget = remaining * config.chars_per_token / 1000 in
      let cut = truncated char_budget s in
      elim s.required [
        | true ↦ s ∷ fit budget (used + estimated_tokens s) ss
        | false ↦ elim (leb budget used) [
          | true ↦ fit budget used ss
          | false ↦ elim (leb (estimated_tokens s) remaining) [
            | true ↦ s ∷ fit budget (used + estimated_tokens s) ss
            | false ↦ elim (ltb 50 char_budget) [
              | true ↦ cut ∷ fit budget (used + estimated_tokens cut) ss
              | false ↦ fit budget used ss
            ]
          ]
        ]
      ]

  -- The sections of the prompt.
  unfoldable pub chosen : ℕ → List Section → List Section
  unfolding fit estimated_tokens
  chosen budget sections =
      cond (leb (sum_of estimated_tokens sections) budget) sections (fit budget 0 sections)

  -- _assemble_within_budget
  unfoldable pub assemble_within_budget : List Section → ℕ → String
  unfolding chosen join
  assemble_within_budget sections budget =
      join "\n" (map (λ (s : Section). s.content) (chosen budget sections))

  -- build
  unfoldable pub build :
      Surroundings
      → Task
      → Option WorkflowState
      → Option String
      → Option String
      → Option (Dict String)
      → String
  unfolding collect_sections sort_sections token_budget assemble_within_budget
  build w t state codebase workspace_dir criteria_map =
      assemble_within_budget
        (sort_sections (collect_sections w t state codebase workspace_dir criteria_map))
        (token_budget config)
