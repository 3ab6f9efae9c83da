-- ===== src/Verification/Verifier.antt =====
-- src/rooben/verification/verifier.py: the result model.
use rooben.Prelude.{ℕ, Bool, String, Option, List}
use rooben.Domain.Models.{TestCaseResult, TokenUsage}

pub record VerificationResult : Type 0 where
  pub passed : Bool
  pub score : ℕ
  pub feedback : String
  pub failed_tests : List String
  pub suggested_improvements : List String
  pub test_results : List TestCaseResult
  pub verification_tokens : ℕ
  pub token_usage : Option TokenUsage
  pub model : String
  pub provider : String
