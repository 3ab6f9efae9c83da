-- ===== src/Verification/Heuristic.antt =====
-- src/rooben/verification/heuristic.py. Scores are in thousandths; the case mapping and the white space
-- of Unicode are parameters.
pub mod Signals
use rooben.Prelude.{
  ℕ, ◌-◌, ◌+◌, String, Bool, true, false, not, ◌&&◌, cond, ltb, leb, any, is_empty, Option, none,
  some, List, [], ◌∷◌, ◌++◌, map, text_length, prefix, join, concat, occurs, str_append,
}
use rooben.Domain.Models.{Task, TaskResult, text_truthy, truthy}
use rooben.Verification.Verifier.{VerificationResult}

-- Python's methods on texts that depend on Unicode, and the text of a number.
pub record Texts : Type 0 where
  pub lower : String → String
  pub strip : String → String
  pub show : ℕ → String

-- A result with the other fields at their defaults.
unfoldable pub new_result : Bool → ℕ → String → List String → VerificationResult
new_result passed score feedback improvements = record {
  passed = passed;
  score = score;
  feedback = feedback;
  failed_tests = [];
  suggested_improvements = improvements;
  test_results = [];
  verification_tokens = 0;
  token_usage = none;
  model = "";
  provider = "";
}

abbrev pub error_indicators : List String
error_indicators =
    "Traceback (most recent call last)" ∷ "Error:" ∷ "FAILED" ∷ "Exception:" ∷ "panic:" ∷ []

abbrev artifact_keywords : List String
artifact_keywords = "create" ∷ "write" ∷ "generate" ∷ "build" ∷ "produce" ∷ []

-- The first indicator in the output.
unfoldable pub first_indicator : List String → String → Option String
unfolding occurs
first_indicator [] output = none
first_indicator (i ∷ is) output =
    let later = first_indicator is output in cond (occurs i output) (some i) later

-- An issue with what it costs.
abbrev pub Deduction : Type 0
Deduction = List String × ℕ

unfoldable pub deduct : Bool → String → ℕ → Deduction
deduct b issue cost = cond b (issue ∷ [], cost) ([], 0)

module _ (x : Texts) where
  -- title + " " + description, in lower case
  unfoldable pub task_text : Task → String
  unfolding concat
  task_text t = x.lower (concat (t.title ∷ " " ∷ t.description ∷ []))

  -- Check 3
  unfoldable pub length_issue : ℕ → String → Deduction
  unfolding deduct text_length concat
  length_issue min_length output =
      deduct (ltb (text_length output) min_length)
        (concat ("Output is very short (" ∷ x.show (text_length output) ∷ " chars)." ∷ [])) 300

  -- Check 4
  unfoldable pub indicator_issue : String → Deduction
  unfolding first_indicator concat
  indicator_issue output = elim (first_indicator error_indicators output) [
    | none ↦ ([], 0)
    | some i ↦ (concat ("Output contains error indicator: \"" ∷ i ∷ "\"" ∷ []) ∷ [], 200)
  ]

  unfoldable pub expects_artifacts : Task → Bool
  unfolding task_text occurs
  expects_artifacts t = any (λ k. occurs k (task_text t)) artifact_keywords

  -- Check 5
  unfoldable pub artifact_issue : Task → TaskResult → Deduction
  unfolding expects_artifacts deduct
  artifact_issue t r =
      deduct (expects_artifacts t && is_empty r.artifacts)
        "Task likely expected file artifacts but none were produced." 200

  -- The result for the issues of checks 3 to 5 and their costs.
  unfoldable pub graded : List String → ℕ → VerificationResult
  unfolding new_result join
  graded issues cost =
      let score = 1000 - cost in
      new_result (leb 500 score && is_empty issues) score
        (cond (is_empty issues) "Heuristic checks passed." (join "; " issues))
        (map (λ i. str_append "Fix: " i) issues)

  -- The checks behind the early returns.
  unfoldable pub check_signals : ℕ → Task → TaskResult → String → VerificationResult
  unfolding length_issue indicator_issue artifact_issue graded
  check_signals min_length t r output =
      let a = length_issue min_length output in
      let b = indicator_issue output in
      let c = artifact_issue t r in graded (a.0 ++ (b.0 ++ c.0)) (a.1 + (b.1 + c.1))

  -- HeuristicVerifier.verify
  unfoldable pub heuristic_verify : ℕ → Task → TaskResult → VerificationResult
  unfolding text_truthy truthy new_result prefix concat check_signals
  heuristic_verify min_length t r =
      let output = x.strip r.output in
      cond (text_truthy output)
        (elim r.error [
          | none ↦ check_signals min_length t r output
          | some e ↦
              cond (text_truthy e)
                (new_result false 100 (concat ("Task produced an error: " ∷ prefix 500 e ∷ []))
                  ("Fix the error before retrying." ∷ []))
                (check_signals min_length t r output)
        ])
        (new_result false 0 "No output was produced."
          ("Ensure the agent produces output for this task." ∷ []))
