-- ===== src/Verification/Chained.antt =====
-- src/rooben/verification/verifier.py: ChainedVerifier. Scores are in thousandths.
pub mod Merged
use rooben.Prelude.{
  ℕ, ◌+◌, Bool, true, false, String, Option, none, some, List, [], ◌∷◌, ◌++◌, cond, ltb, str_append,
  if◌then◌else◌,
}
use rooben.Domain.Models.{Task, TaskResult, TestCaseResult, text_truthy}
use rooben.Verification.Verifier.{VerificationResult}
use rooben.Orchestrator.Core.{Reply, returned, failed}

-- `verify` of a verifier.
abbrev pub Verifier : Type 0
Verifier = Task → TaskResult → Reply VerificationResult

-- The local variables of the loop.
pub record Merge : Type 0 where
  pub all_feedback : List String
  pub all_failed_tests : List String
  pub all_improvements : List String
  pub all_test_results : List TestCaseResult
  pub total_tokens : ℕ
  pub min_score : ℕ

abbrev pub no_results : Merge
no_results = record {
  all_feedback = [];
  all_failed_tests = [];
  all_improvements = [];
  all_test_results = [];
  total_tokens = 0;
  min_score = 1000;
}

-- "\n---\n".join(texts)
unfoldable pub join_feedback : List String → String
join_feedback [] = ""
join_feedback (s ∷ []) = s
join_feedback (s ∷ t ∷ ts) = str_append s (str_append "\n---\n" (join_feedback (t ∷ ts)))

-- The part of the loop's body before its test.
unfoldable pub merge : VerificationResult → Merge → Merge
unfolding text_truthy
merge r m = record {
  all_feedback =
      if text_truthy r.feedback then (m.all_feedback ++ r.feedback ∷ []) else m.all_feedback;
  all_failed_tests = m.all_failed_tests ++ r.failed_tests;
  all_improvements = m.all_improvements ++ r.suggested_improvements;
  all_test_results = m.all_test_results ++ r.test_results;
  total_tokens = m.total_tokens + r.verification_tokens;
  min_score = if ltb r.score m.min_score then r.score else m.min_score;
}

-- The result for what has been merged, with the other fields at their defaults.
unfoldable pub merged_result : Bool → Merge → VerificationResult
unfolding join_feedback
merged_result ok m = record {
  passed = ok;
  score = m.min_score;
  feedback = join_feedback m.all_feedback;
  failed_tests = m.all_failed_tests;
  suggested_improvements = m.all_improvements;
  test_results = m.all_test_results;
  verification_tokens = m.total_tokens;
  token_usage = none;
  model = "";
  provider = "";
}

module _ (task : Task) (result : TaskResult) where
  -- The loop over the verifiers that are left.
  unfoldable pub verify_each : List Verifier → Merge → Reply VerificationResult
  unfolding merge merged_result
  verify_each [] m = returned (merged_result true m)
  verify_each (verifier ∷ vs) m = elim (verifier task result) [
    | failed message ↦ failed message
    | returned r ↦ elim r.passed [
      | false ↦ returned (merged_result false (merge r m))
      | true ↦ verify_each vs (merge r m)
    ]
  ]

  -- ChainedVerifier.verify
  unfoldable pub verify_chain : List Verifier → Reply VerificationResult
  unfolding verify_each
  verify_chain vs = verify_each vs no_results
