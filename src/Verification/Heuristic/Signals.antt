-- ===== src/Verification/Heuristic/Signals.antt =====
-- What an output must be to pass the heuristic checks.
use rooben.Prelude.{
  is_empty-append, ℕ, ◌+◌, ◌≤◌, ◌≡◌, refl, String, Bool, true, false, not, ◌&&◌, any, leb, ltb,
  is_empty, none, some, List, [], ◌∷◌, ◌++◌, text_length, occurs, arith, Bool-cases, Option-cases,
  inl, inr, ◌⊎◌,
}
use rooben.Domain.Models.{Task, TaskResult, text_truthy, truthy}
use rooben.Verification.Verifier.{VerificationResult}
use rooben.Verification.Heuristic.{
  Texts, new_result, error_indicators, first_indicator, Deduction, deduct, length_issue,
  indicator_issue, expects_artifacts, artifact_issue, graded, check_signals, heuristic_verify,
}

first_indicator-cases :
    (is : List String) (output : String)
    → ((first_indicator is output ≡ none) × (any (λ i. occurs i output) is ≡ false))
      ⊎ ((i : String) × (first_indicator is output ≡ some i)
          × (any (λ j. occurs j output) is ≡ true))
unfolding first_indicator
first_indicator-cases [] output = inl (refl, refl)
first_indicator-cases (i ∷ is) output = elim (Bool-cases (occurs i output)) [
  | inl here ↦ inr (i, rw (first_indicator, here) refl, ground arith)
  | inr absent ↦ elim (first_indicator-cases is output) [
    | inl (e, none_in) ↦ inl (rw (first_indicator, absent) e, ground arith)
    | inr (j, e, some_in) ↦ inr (j, rw (first_indicator, absent) e, ground arith)
  ]
]

module _ (x : Texts) where
  -- The output is long enough, has no sign of an error, and comes with artifacts if the task asks for
  -- some.
  unfoldable pub has_good_signals : ℕ → Task → TaskResult → String → Bool
  unfolding text_length occurs expects_artifacts
  has_good_signals min_length t r output =
      leb min_length (text_length output)
      && (not (any (λ i. occurs i output) error_indicators)
          && not (expects_artifacts x t && is_empty r.artifacts))

  -- There is an output, no error is reported, and the signals are good.
  unfoldable pub is_plausible : ℕ → Task → TaskResult → Bool
  unfolding text_truthy truthy has_good_signals
  is_plausible min_length t r =
      text_truthy (x.strip r.output)
      && (not (truthy r.error) && has_good_signals min_length t r (x.strip r.output))

  -- A result passes with the full score, or fails with at most four fifths of it.
  abbrev pub IsGraded : Bool → VerificationResult → Type 0
  IsGraded true v = (v.passed ≡ true) × (v.score ≡ 1000)
  IsGraded false v = (v.passed ≡ false) × (v.score ≤ 800)

  -- A deduction for a check that is good, or for one that is not.
  abbrev Weighs : Bool → Deduction → Type 0
  Weighs true d = (d.0 ≡ []) × (d.1 ≡ 0)
  Weighs false d = (is_empty d.0 ≡ false) × (200 ≤ d.1)

  Weighs-append :
      (p q : Bool) (a b : Deduction)
      → Weighs p a
      → Weighs q b
      → Weighs (p && q) (a.0 ++ b.0, a.1 + b.1)
  Weighs-append true true a b h k = (rw (h.0, k.0) refl, omega (arith, h.1, k.1))
  Weighs-append true false a b h k = (rw (h.0) k.0, omega (arith, k.1))
  Weighs-append false q a b h k = (rw (is_empty-append a.0 b.0, h.0) refl, omega (arith, h.1))

  graded-IsGraded : (p : Bool) (d : Deduction) → Weighs p d → IsGraded p (graded x d.0 d.1)
  unfolding graded new_result
  graded-IsGraded true d h = rw (h.0, h.1) (refl, refl)
  graded-IsGraded false d h = (ground (arith, h.0), omega (arith, h.1))

  deduct-Weighs :
      (b : Bool) (issue : String) (cost : ℕ) → 200 ≤ cost → Weighs (not b) (deduct b issue cost)
  unfolding deduct
  deduct-Weighs true issue cost h = (refl, h)
  deduct-Weighs false issue cost h = (refl, refl)

  indicator_issue-Weighs :
      (output : String)
      → Weighs (not (any (λ i. occurs i output) error_indicators)) (indicator_issue x output)
  unfolding indicator_issue
  indicator_issue-Weighs output = elim (first_indicator-cases error_indicators output) [
    | inl (e, none_in) ↦ rw (indicator_issue, e, none_in) (refl, refl)
    | inr (i, e, some_in) ↦ rw (indicator_issue, e, some_in) (refl, omega arith)
  ]

  length_issue-Weighs :
      (min_length : ℕ) (output : String)
      → Weighs (leb min_length (text_length output)) (length_issue x min_length output)
  unfolding length_issue
  length_issue-Weighs min_length output =
      let same : leb min_length (text_length output) ≡ not (ltb (text_length output) min_length) =
        ground arith in
      rw same (deduct-Weighs (ltb (text_length output) min_length) _ 300 (omega arith))

  check_signals-IsGraded :
      (min_length : ℕ) (t : Task) (r : TaskResult) (output : String)
      → IsGraded (has_good_signals min_length t r output) (check_signals x min_length t r output)
  unfolding check_signals has_good_signals artifact_issue
  check_signals-IsGraded min_length t r output =
      let b = indicator_issue x output in
      let c = artifact_issue x t r in
      let missing = expects_artifacts x t && is_empty r.artifacts in
      let c_weighs : Weighs (not missing) c = deduct-Weighs missing _ 200 (omega arith) in
      graded-IsGraded (has_good_signals min_length t r output) _ (
        Weighs-append (leb min_length (text_length output)) _ (length_issue x min_length output)
          (b.0 ++ c.0, b.1 + c.1) (length_issue-Weighs min_length output)
          (Weighs-append _ (not missing) b c (indicator_issue-Weighs output) c_weighs))

  -- The heuristic verifier passes a result, with the full score, exactly if there is an output, no
  -- error is reported, the output is long enough and shows no sign of an error, and artifacts are there
  -- if the task asks for some; any other result fails with a score of at most four fifths.
  pub heuristic_verify-IsGraded :
      (min_length : ℕ) (t : Task) (r : TaskResult)
      → IsGraded (is_plausible min_length t r) (heuristic_verify x min_length t r)
  unfolding heuristic_verify is_plausible new_result truthy
  heuristic_verify-IsGraded min_length t r = elim (Bool-cases (text_truthy (x.strip r.output))) [
    | inr blank ↦ rw (heuristic_verify, is_plausible, blank) (refl, omega arith)
    | inl some_output ↦ elim (Option-cases r.error) [
      | inl fine ↦
          rw (heuristic_verify, is_plausible, some_output, fine)
            (check_signals-IsGraded min_length t r (x.strip r.output))
      | inr (e, there) ↦ elim (Bool-cases (text_truthy e)) [
        | inl bad ↦ rw (heuristic_verify, is_plausible, some_output, there, bad) (refl, omega arith)
        | inr void ↦
            rw (heuristic_verify, is_plausible, some_output, there, void)
              (check_signals-IsGraded min_length t r (x.strip r.output))
      ]
    ]
  ]
