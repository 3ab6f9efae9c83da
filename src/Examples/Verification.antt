-- ===== src/Examples/Verification.antt =====
-- The theorems on verifiers and on the pool of connections, at small inputs.
use rooben.Prelude.{◌+◌, ◌==◌, ◌≡◌, refl, true, false, String, some, List, [], ◌∷◌}
use rooben.Dict.{values}
use rooben.Domain.Status.{TaskStatus}
use rooben.Verification.Verifier.{VerificationResult}
use rooben.Verification.Chained.{Verifier, no_results, verify_chain}
use rooben.Verification.Chained.Merged.{IsSummary, verify_chain-IsSummary}
use rooben.Verification.Heuristic.{Texts, heuristic_verify}
use rooben.Verification.Heuristic.Signals.{IsGraded, is_plausible, heuristic_verify-IsGraded}
use rooben.Orchestrator.Core.{returned}
use rooben.Orchestrator.TaskSteps.{no_result}
use rooben.Agents.Pool.{ConnectionPool, Servers, checkin}
use rooben.Agents.Pool.Balance.{accounted, unit_of, checkin-accounted}
use rooben.Agents.Pool.Bounds.{
  check_out, check_in, shut_down, IsBounded, perform_all, perform_all-IsBounded,
}
use rooben.Samples.{task, verdict}

-- The second of three verifiers rejects.
abbrev verifiers : List Verifier
verifiers =
    (λ t x. returned (verdict true))
    ∷ (λ t x. returned (verdict false))
    ∷ (λ t x. returned (verdict true))
    ∷ []

verify_chain-IsSummary_example :
    (v : VerificationResult) × (verify_chain (task "a" [] TaskStatus.verifying) no_result verifiers
      ≡ returned v)
    × IsSummary no_results (verdict true ∷ verdict false ∷ verdict true ∷ []) v
verify_chain-IsSummary_example =
    verify_chain-IsSummary (task "a" [] TaskStatus.verifying) no_result verifiers
      (verdict true ∷ verdict false ∷ verdict true ∷ []) (refl, (refl, (refl, tt)))

-- Servers with one kind of configuration; the client 7 has lost its servers.
abbrev servers : Servers String
servers = record {
  clock = λ n. n;
  has_dead_servers = λ n c. c == 7;
  create = λ n configs. n + 100;
  connect = λ n client. returned [];
  close_error = λ n client. some "OSError";
  config_key = λ configs. "key";
}

-- A pool of two clients at most.
abbrev pool : ConnectionPool
pool = record { pools = []; max_idle = 2; closed = []; looks = 0 }

-- The pool after a checkin of the client 3.
abbrev stocked : ConnectionPool
stocked = (checkin servers ("config" ∷ []) 3 [] pool).0

checkin-accounted_example :
    accounted 7 (checkin servers ("config" ∷ []) 7 [] pool).0 ≡ accounted 7 pool + unit_of 7 7
checkin-accounted_example = checkin-accounted servers ("config" ∷ []) 7 [] pool 7 refl

perform_all-IsBounded_example : IsBounded 2 (
    perform_all servers 2
      (check_in ("config" ∷ []) 1 []
        ∷ check_in ("config" ∷ []) 2 []
        ∷ check_in ("config" ∷ []) 3 []
        ∷ check_out ("config" ∷ [])
        ∷ shut_down
        ∷ [])
      pool)
unfolding values
perform_all-IsBounded_example =
    perform_all-IsBounded servers 2
      (check_in ("config" ∷ []) 1 []
        ∷ check_in ("config" ∷ []) 2 []
        ∷ check_in ("config" ∷ []) 3 []
        ∷ check_out ("config" ∷ [])
        ∷ shut_down
        ∷ [])
      pool (tt, refl)

-- Texts that are in lower case and without white space around.
abbrev texts : Texts
texts = record { lower = λ s. s; strip = λ s. s; show = λ n. "4" }

-- "done" is shorter than twenty characters.
heuristic_verify-short :
    (heuristic_verify texts 20
      (task "a" [] TaskStatus.pending)
      (record no_result { output = "done" })).feedback
    ≡ "Output is very short (4 chars)."
unfolding heuristic_verify
heuristic_verify-short = refl

heuristic_verify-IsGraded_example :
    IsGraded texts
      (is_plausible texts 3 (task "a" [] TaskStatus.pending) (record no_result { output = "done" }))
      (heuristic_verify texts 3
        (task "a" [] TaskStatus.pending)
        (record no_result { output = "done" }))
heuristic_verify-IsGraded_example =
    heuristic_verify-IsGraded texts 3 (task "a" [] TaskStatus.pending)
      (record no_result { output = "done" })
