-- ===== src/Verification/Chained/Merged.antt =====
-- What a chain of verifiers answers, against the answers of its verifiers.
use rooben.Prelude.{
  ◌+◌, ◌≤◌, ◌≡◌, ◌↔◌, refl, ap, sym, ◌∙◌, true, false, String, List, [], ◌∷◌, ◌++◌, all, sum_of,
  cond, arith, Bool-cases, inl, inr, Memᴰ, mem-cons_cases, append-nil, append_assoc,
}
use rooben.Domain.Models.{Task, TaskResult}
use rooben.Verification.Verifier.{VerificationResult}
use rooben.Verification.Chained.{
  Verifier, Merge, no_results, merge, merged_result, verify_each, verify_chain,
}
use rooben.Orchestrator.Core.{returned}

-- The verifiers answer, one after the other, with these results.
abbrev IsAnswered : Task → TaskResult → List Verifier → List VerificationResult → Type 0
IsAnswered t x [] [] = Unit
IsAnswered t x (v ∷ vs) (r ∷ rs) = (v t x ≡ returned r) × IsAnswered t x vs rs
IsAnswered t x [] (r ∷ rs) = true ≡ false
IsAnswered t x (v ∷ vs) [] = true ≡ false

-- The results up to the first that did not pass.
unfoldable pub up_to_failure : List VerificationResult → List VerificationResult
up_to_failure [] = []
up_to_failure (r ∷ rs) = r ∷ cond r.passed (up_to_failure rs) []

unfoldable pub joined_failures : List VerificationResult → List String
joined_failures [] = []
joined_failures (r ∷ rs) = r.failed_tests ++ joined_failures rs

-- `v` sums up the results `rs` behind what `m` holds.
pub record IsSummary (m : Merge) (rs : List VerificationResult) (v : VerificationResult)
    : Type 0 where
  pub passed_iff : (v.passed ≡ true) ↔ (all (λ (r : VerificationResult). r.passed) rs ≡ true)
  pub tokens :
      v.verification_tokens
      ≡ m.total_tokens
        + sum_of (λ (r : VerificationResult). r.verification_tokens) (up_to_failure rs)
  pub lowest : (r : VerificationResult) → Memᴰ r (up_to_failure rs) → v.score ≤ r.score
  pub bounded : v.score ≤ m.min_score
  pub failures : v.failed_tests ≡ m.all_failed_tests ++ joined_failures (up_to_failure rs)

merge-score : (r : VerificationResult) (m : Merge) → (merge r m).min_score ≤ r.score
unfolding merge
merge-score r m = ground arith

merge-score_old : (r : VerificationResult) (m : Merge) → (merge r m).min_score ≤ m.min_score
unfolding merge
merge-score_old r m = ground arith

module _ (t : Task) (x : TaskResult) where
  failed-IsSummary :
      (r : VerificationResult) (rs : List VerificationResult) (m : Merge)
      → r.passed ≡ false
      → IsSummary m (r ∷ rs) (merged_result false (merge r m))
  unfolding merged_result merge up_to_failure joined_failures
  failed-IsSummary r rs m no_ = record {
    passed_iff = ((λ e. cc), (λ e. rw no_ at e));
    tokens = rw no_ (omega arith);
    lowest = λ u i. elim (mem-cons_cases i) [
      | inl first ↦ rw first (merge-score r m)
      | inr later ↦ let nothing : Memᴰ u [] = rw no_ at later in elim nothing [ ]
    ];
    bounded = merge-score_old r m;
    failures = rw no_ (ap (λ l. m.all_failed_tests ++ l) (sym (append-nil r.failed_tests)));
  }

  passed-IsSummary :
      (r : VerificationResult) (rs : List VerificationResult) (m : Merge) (v : VerificationResult)
      → r.passed ≡ true
      → IsSummary (merge r m) rs v
      → IsSummary m (r ∷ rs) v
  unfolding merge up_to_failure joined_failures
  passed-IsSummary r rs m v yes_ s = record {
    passed_iff = rw yes_ s.passed_iff;
    tokens = rw yes_ (omega (arith, s.tokens));
    lowest = λ u i. elim (mem-cons_cases i) [
      | inl first ↦ rw first (omega (arith, s.bounded, merge-score r m))
      | inr later ↦ s.lowest u (let kept : Memᴰ u (up_to_failure rs) = rw yes_ at later in kept)
    ];
    bounded = omega (arith, s.bounded, merge-score_old r m);
    failures = rw yes_ (s.failures ∙ append_assoc m.all_failed_tests r.failed_tests _);
  }

  verify_each-IsSummary :
      (vs : List Verifier) (rs : List VerificationResult) (m : Merge)
      → IsAnswered t x vs rs
      → (v : VerificationResult) × (verify_each t x vs m ≡ returned v) × IsSummary m rs v
  unfolding verify_each merged_result up_to_failure joined_failures
  verify_each-IsSummary [] [] m h = (
    merged_result true m,
    refl,
    record {
      passed_iff = ((λ e. refl), (λ e. refl));
      tokens = omega arith;
      lowest = λ u i. elim i [ ];
      bounded = omega arith;
      failures = sym (append-nil m.all_failed_tests);
    },
  )
  verify_each-IsSummary [] (r ∷ rs) m h = absurd (cc)
  verify_each-IsSummary (verifier ∷ vs) [] m h = absurd (cc)
  verify_each-IsSummary (verifier ∷ vs) (r ∷ rs) m (e, later) = elim (Bool-cases r.passed) [
    | inr no_ ↦ (
      merged_result false (merge r m),
      rw (e, verify_each, no_) refl,
      failed-IsSummary r rs m no_,
    )
    | inl yes_ ↦
        let (v, returns, s) = verify_each-IsSummary vs rs (merge r m) later in
        (v, rw (e, verify_each, yes_) returns, passed-IsSummary r rs m v yes_ s)
  ]

  -- A chain whose verifiers would answer with these results: it passes exactly if all of them pass;
  -- only the verifiers up to the first failure count; the tokens are the sum of theirs, the failed
  -- tests are theirs in order, and the score is at most each of theirs.
  pub verify_chain-IsSummary :
      (vs : List Verifier) (rs : List VerificationResult)
      → IsAnswered t x vs rs
      → (v : VerificationResult) × (verify_chain t x vs ≡ returned v) × IsSummary no_results rs v
  unfolding verify_chain
  verify_chain-IsSummary vs rs h = verify_each-IsSummary vs rs no_results h
