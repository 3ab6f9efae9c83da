-- ===== src/Context/Builder/Budget.antt =====
-- The budget of a prompt.
use rooben.Prelude.{
  ℕ, ◌+◌, ◌-◌, ◌*◌, ◌/◌, ◌≤◌, ◌≡◌, refl, ap, ◌∙◌, ◌⊎◌, inl, inr, String, Bool, true, false, cond,
  ltb, leb, Option, none, some, Option-cases, List, [], ◌∷◌, ◌++◌, map, keep, sum_of, text_length,
  text_length-prefix, text_length-append, prefix, join, arith, All, All-append, Bool-cases,
}
use rooben.Dict.{Dict}
use rooben.Domain.Models.{Task, WorkflowState}
use rooben.Context.Sections.{
  Section, Surroundings, estimated_tokens, section_if, criteria_section, input_section,
  tests_section, feedback_section, dependencies_section, codebase_section, directory,
  description_section, optional_sections, collect_sections,
}
use rooben.Context.Builder.Order.{
  IsSorted, has_priority, IsKept, sort_sections-All, sort_sections-IsSorted, keep-sort_sections,
  fit-IsKept, IsKept-same,
}
use rooben.Context.Builder.{
  ContextConfig, token_budget, insert_section, sort_sections, truncated, fit, chosen,
  assemble_within_budget, build,
}

abbrev pub tokens : List Section → ℕ
tokens ss = sum_of estimated_tokens ss

-- The text that a prompt is to be, for its budget, the description and the other sections as collected.
pub record IsPrompt (budget : ℕ) (d : Section) (optional : List Section) (text : String)
    : Type 0 where
  pub others : List Section
  pub rest : List Section
  pub sorted : IsSorted others
  pub stable : (k : ℕ) → keep (has_priority k) others ≡ keep (has_priority k) optional
  pub kept : IsKept others rest
  pub joined : text ≡ join "\n" (map (λ (s : Section). s.content) (d ∷ rest))
  pub bound : (tokens (d ∷ rest) ≤ budget + 3) ⊎ (tokens (d ∷ rest) ≤ estimated_tokens d)
  pub uncut : tokens (d ∷ others) ≤ budget → rest ≡ others

-- A section that may be cut, behind the description.
abbrev IsOptional : Section → Type 0
IsOptional s = (s.required ≡ false) × (1 ≤ s.priority)

-- A section of four characters for each token that is left is at most three tokens too long.
estimated_tokens-truncated :
    (n : ℕ) (s : Section) → 1 ≤ n → estimated_tokens (truncated (n * 4000 / 1000) s) ≤ n + 3
unfolding estimated_tokens truncated text_length
estimated_tokens-truncated n s some_left =
    let cut = prefix (n * 4000 / 1000) s.content in
    ground (
      arith,
      text_length-append cut "\n\n[truncated]",
      text_length-prefix (n * 4000 / 1000) s.content,
    )

module _ (config : ContextConfig) (default : config.chars_per_token ≡ 4000) where
  fit-within :
      (budget used m : ℕ) (ss : List Section)
      → All IsOptional ss
      → budget + 3 ≤ m
      → used ≤ m
      → used + tokens (fit config budget used ss) ≤ m
  unfolding fit
  fit-within budget used m [] h room start = omega arith
  fit-within budget used m (s ∷ ss) ((free, low), h) room start =
      elim (Bool-cases (leb budget used)) [
        | inl full ↦ rw (fit, free, full) (fit-within budget used m ss h room start)
        | inr left ↦ elim (Bool-cases (leb (estimated_tokens s) (budget - used))) [
          | inl fits ↦
              rw (fit, free, left, fits)
                (omega
                  (arith, fit-within budget (used + estimated_tokens s) m ss h room (ground arith)))
          | inr large ↦
              elim (Bool-cases (ltb 50 ((budget - used) * config.chars_per_token / 1000))) [
                | inl worth ↦
                    let cut = truncated ((budget - used) * config.chars_per_token / 1000) s in
                    let bound : estimated_tokens cut ≤ (budget - used) + 3 =
                      rw default (estimated_tokens-truncated (budget - used) s (ground arith)) in
                    let below : used + estimated_tokens cut ≤ m = ground (arith, bound) in
                    rw (fit, free, left, large, worth)
                      (omega
                        (arith, fit-within budget (used + estimated_tokens cut) m ss h room below))
                | inr small ↦
                    rw (fit, free, left, large, small) (fit-within budget used m ss h room start)
              ]
        ]
      ]

  -- Behind a required section.
  fit-required :
      (budget : ℕ) (d : Section) (ss : List Section)
      → d.required ≡ true
      → All IsOptional ss
      → let rest = fit config budget (0 + estimated_tokens d) ss in
        (fit config budget 0 (d ∷ ss) ≡ d ∷ rest)
        × ((tokens (d ∷ rest) ≤ budget + 3) ⊎ (tokens (d ∷ rest) ≤ estimated_tokens d))
  unfolding fit
  fit-required budget d ss required h =
      let e = estimated_tokens d in
      (
        ground arith,
        elim (Bool-cases (leb e (budget + 3))) [
          | inl small ↦ inl (
              omega
                (arith, fit-within budget (0 + e) (budget + 3) ss h (omega arith) (ground arith)))
          | inr large ↦
              inr (omega (arith, fit-within budget (0 + e) e ss h (ground arith) (omega arith)))
        ],
      )

assemble-chosen :
    (config : ContextConfig) (budget : ℕ) (ss ss' rest : List Section)
    → ss ≡ ss'
    → chosen config budget ss' ≡ rest
    → assemble_within_budget config ss budget ≡ join "\n" (map (λ (s : Section). s.content) rest)
unfolding assemble_within_budget
assemble-chosen config budget ss ss' rest e h =
    ap (λ x. join "\n" (map (λ (s : Section). s.content) x)) (ap (chosen config budget) e ∙ h)

chosen-cases :
    (config : ContextConfig) (budget : ℕ) (ss : List Section)
    → chosen config budget ss ≡ cond (leb (tokens ss) budget) ss (fit config budget 0 ss)
unfolding chosen
chosen-cases config budget ss = refl

-- A section of priority 1 stays in front.
insert_section-first :
    (d : Section) (ss : List Section)
    → d.priority ≡ 1
    → All IsOptional ss
    → insert_section d ss ≡ d ∷ ss
unfolding insert_section
insert_section-first d [] e h = refl
insert_section-first d (s ∷ ss) e h =
    let low : leb d.priority s.priority ≡ true = ground (arith, h.0.1) in
    rw (insert_section, low) refl

section_if-IsOptional :
    (b : Bool) (priority : ℕ) (label content : String)
    → 1 ≤ priority
    → All IsOptional (section_if b priority label content)
unfolding section_if
section_if-IsOptional true priority label content h = ((refl, h), tt)
section_if-IsOptional false priority label content h = tt

module _ (w : Surroundings) where
  input_section-IsOptional : (dir : Option String) → All IsOptional (input_section w dir)
  unfolding input_section
  input_section-IsOptional dir = elim (Option-cases (directory dir)) [
    | inl absent ↦ rw (input_section, absent) tt
    | inr (x, there) ↦ rw (input_section, there) (section_if-IsOptional _ 3 _ _ (omega arith))
  ]

  dependencies_section-IsOptional :
      (state : Option WorkflowState) (deps : List String)
      → All IsOptional (dependencies_section w state deps)
  unfolding dependencies_section
  dependencies_section-IsOptional none deps = tt
  dependencies_section-IsOptional (some state) deps = section_if-IsOptional _ 6 _ _ (omega arith)

  codebase_section-IsOptional : (c : Option String) → All IsOptional (codebase_section w c)
  unfolding codebase_section
  codebase_section-IsOptional none = tt
  codebase_section-IsOptional (some c) = section_if-IsOptional _ 7 _ _ (omega arith)

  module _ (t : Task) (state : Option WorkflowState) (codebase dir : Option String)
      (criteria_map : Option (Dict String)) where
    optional_sections-IsOptional :
        All IsOptional (optional_sections w t state codebase dir criteria_map)
    unfolding optional_sections criteria_section tests_section feedback_section
    optional_sections-IsOptional =
        let criteria = criteria_section criteria_map t.acceptance_criteria_ids in
        let tests = tests_section w t.skeleton_tests in
        let feedback = feedback_section w t.attempt_feedback in
        let deps = dependencies_section w state t.depends_on in
        let code = codebase_section w codebase in
        let c : All IsOptional criteria = section_if-IsOptional _ 2 _ _ (omega arith) in
        let s : All IsOptional tests = section_if-IsOptional _ 4 _ _ (omega arith) in
        let f : All IsOptional feedback = section_if-IsOptional _ 5 _ _ (omega arith) in
        let last =
          All-append IsOptional deps code (dependencies_section-IsOptional state t.depends_on)
            (codebase_section-IsOptional codebase) in
        let upper = All-append IsOptional feedback (deps ++ code) f last in
        let middle = All-append IsOptional tests (feedback ++ (deps ++ code)) s upper in
        All-append IsOptional (input_section w dir)
          (criteria ++ (tests ++ (feedback ++ (deps ++ code)))) (input_section-IsOptional dir)
          (All-append IsOptional criteria (tests ++ (feedback ++ (deps ++ code))) c middle)

    -- At four characters for each token: the prompt joins the whole description and, behind it, sections
    -- that come, each whole, cut to a beginning or left out, from all other sections in the order of
    -- their priority, those of one priority as they were collected. They take, with the description, at
    -- most three tokens more than the budget, or no more than the description alone. If all sections fit
    -- the budget, none is cut or left out.
    pub build-within_budget :
        (config : ContextConfig)
        → config.chars_per_token ≡ 4000
        → IsPrompt
            (token_budget config)
            (description_section t dir)
            (optional_sections w t state codebase dir criteria_map)
            (build config w t state codebase dir criteria_map)
    unfolding build collect_sections sort_sections
    build-within_budget config default =
        let d = description_section t dir in
        let optional = optional_sections w t state codebase dir criteria_map in
        let others = sort_sections optional in
        let free = sort_sections-All IsOptional optional optional_sections-IsOptional in
        let first = insert_section-first d others refl free in
        let budget = token_budget config in
        let sorted = sort_sections-IsSorted optional in
        let stable = (λ (k : ℕ). keep-sort_sections k optional) in
        elim (Bool-cases (leb (tokens (d ∷ others)) budget)) [
          | inl fits ↦ record {
            others = others;
            rest = others;
            sorted = sorted;
            stable = stable;
            kept = IsKept-same others;
            joined =
                assemble-chosen config budget (insert_section d others) (d ∷ others) (d ∷ others)
                  first (chosen-cases config budget (d ∷ others) ∙ rw fits refl);
            bound = inl (ground arith);
            uncut = λ h. refl;
          }
          | inr over ↦
              let (cut, bound) = fit-required config default budget d others refl free in
              record {
                others = others;
                rest = fit config budget (0 + estimated_tokens d) others;
                sorted = sorted;
                stable = stable;
                kept = fit-IsKept config budget (0 + estimated_tokens d) others;
                joined =
                    assemble-chosen config budget (insert_section d others) (d ∷ others)
                      (d ∷ fit config budget (0 + estimated_tokens d) others) first
                      (chosen-cases config budget (d ∷ others) ∙ (rw over cut));
                bound = bound;
                uncut = λ h. absurd (ground arith);
              }
        ]
