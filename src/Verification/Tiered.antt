-- ===== src/Verification/Tiered.antt =====
-- src/rooben/verification/tiered.py.
use rooben.Prelude.{ℕ, Bool, ◌||◌, cond, ltb, any, length, occurs, String, List, [], ◌∷◌}
use rooben.Domain.Models.{Task}
use rooben.Verification.Chained.{Verifier}
use rooben.Verification.Heuristic.{Texts, task_text, heuristic_verify}
use rooben.Orchestrator.Core.{returned}

abbrev complex_keywords : List String
complex_keywords =
    "analyze" ∷ "evaluate" ∷ "compare" ∷ "synthesize" ∷ "review" ∷ "assess" ∷ "critique" ∷ "design"
    ∷ "architect" ∷ "optimize" ∷ "recommend" ∷ "investigate" ∷ "debug" ∷ "refactor" ∷ []

module _ (x : Texts) where
  -- _is_complex
  unfoldable pub is_complex : Task → Bool
  unfolding task_text occurs
  is_complex t =
      ltb 1 (length t.acceptance_criteria_ids)
      || any (λ k. occurs k (task_text x t)) complex_keywords

  -- TieredVerifier.verify, with the verifier that stands for the LLM judge.
  unfoldable pub tiered_verify : ℕ → Verifier → Verifier
  unfolding is_complex heuristic_verify
  tiered_verify min_length llm_judge t r =
      let h = heuristic_verify x min_length t r in
      cond (is_complex t) (llm_judge t r) (cond h.passed (returned h) (llm_judge t r))
