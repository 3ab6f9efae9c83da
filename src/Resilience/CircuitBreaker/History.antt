-- ===== src/Resilience/CircuitBreaker/History.antt =====
-- The breaker's counters against the history of its calls.
use rooben.Prelude.{
  ℕ, ◌+◌, ◌<◌, ◌≡◌, refl, String, List, [], ◌∷◌, arith, str_eq, eq_iff, Bool-cases, inl, inr,
  if◌then◌else◌, ◌≢◌, ◌⊎◌,
}
use rooben.Dict.{Dict, get, put}
use rooben.Dict.Laws.{get-put}
use rooben.Resilience.CircuitBreaker.{
  BreakerState, CircuitBreaker, new_breaker, read_state, can_proceed, record_success,
  record_failure, count_of, reset,
}

-- A call of the breaker, with the time and the message where it takes them.
pub data Call : Type 0 where
  probe : ℕ → Call
  success : Call
  failure : ℕ → String → Call
  clear : Call

-- The failures at the end of the history since the last success or reset, after `n` before it.
unfoldable pub streak : ℕ → List Call → ℕ
streak n [] = n
streak n (probe now ∷ cs) = streak n cs
streak n (success ∷ cs) = streak 0 cs
streak n (clear ∷ cs) = streak 0 cs
streak n (failure now msg ∷ cs) = streak (n + 1) cs

error_hashes-read_state :
    (now : ℕ) (b : CircuitBreaker) → (read_state now b).error_hashes ≡ b.error_hashes
unfolding read_state
error_hashes-read_state now b = ground arith

is_closed : (s : BreakerState) → (s ≡ BreakerState.closed) ⊎ (s ≢ BreakerState.closed)
is_closed BreakerState.closed = inl refl
is_closed BreakerState.open_ = inr (λ e. cc)
is_closed BreakerState.half_open = inr (λ e. cc)

module _ (hash : String → String) where
  unfoldable pub perform : Call → CircuitBreaker → CircuitBreaker
  unfolding can_proceed record_success record_failure reset
  perform (probe now) b = (can_proceed now b).0
  perform success b = record_success b
  perform (failure now msg) b = record_failure hash now msg b
  perform clear b = reset b

  unfoldable pub perform_all : List Call → CircuitBreaker → CircuitBreaker
  unfolding perform
  perform_all [] b = b
  perform_all (c ∷ cs) b = perform_all cs (perform c b)

  -- How often the history has failures with a hash since its last reset, after `n` before it.
  unfoldable pub occurrences : String → ℕ → List Call → ℕ
  occurrences h n [] = n
  occurrences h n (probe now ∷ cs) = occurrences h n cs
  occurrences h n (success ∷ cs) = occurrences h n cs
  occurrences h n (failure now msg ∷ cs) =
      occurrences h (n + (if str_eq (hash msg) h then 1 else 0)) cs
  occurrences h n (clear ∷ cs) = occurrences h 0 cs

  count_of-put :
      (d : Dict ℕ) (k h : String) (n : ℕ)
      → count_of (put d k n) h ≡ (if str_eq k h then n else count_of d h)
  unfolding count_of
  count_of-put d k h n = elim (Bool-cases (str_eq k h)) [
    | inl same ↦ rw (get-put, same, count_of)
    | inr other ↦ rw (get-put, other, count_of)
  ]

  count_of-failure :
      (now : ℕ) (msg h : String) (b : CircuitBreaker)
      → count_of (record_failure hash now msg b).error_hashes h
        ≡ count_of b.error_hashes h + (if str_eq (hash msg) h then 1 else 0)
  unfolding record_failure
  count_of-failure now msg h b = ground (
    arith,
    eq_iff (hash msg) h,
    count_of-put b.error_hashes (hash msg) h (count_of b.error_hashes (hash msg) + 1),
  )

  -- What holds of the breaker after any history that began with `b`.
  record Reflects (b : CircuitBreaker) (cs : List Call) (b' : CircuitBreaker) : Type 0 where
    in_a_row : b'.consecutive_failures ≡ streak b.consecutive_failures cs
    counted :
        (h : String) → count_of b'.error_hashes h ≡ occurrences h (count_of b.error_hashes h) cs
    limit : b'.max_failures ≡ b.max_failures

  perform_all-Reflects : (cs : List Call) (b : CircuitBreaker) → Reflects b cs (perform_all cs b)
  unfolding perform_all streak occurrences reset count_of get
  perform_all-Reflects [] b = record { in_a_row = refl; counted = λ h. refl; limit = refl }
  perform_all-Reflects (probe now ∷ cs) b =
      let r = perform_all-Reflects cs (perform (probe now) b) in
      record {
        in_a_row = ground arith;
        counted = λ h. rw (error_hashes-read_state now b) at (r.counted h);
        limit = ground arith;
      }
  perform_all-Reflects (success ∷ cs) b =
      let r = perform_all-Reflects cs (perform success b) in
      record { in_a_row = r.in_a_row; counted = r.counted; limit = r.limit }
  perform_all-Reflects (failure now msg ∷ cs) b =
      let r = perform_all-Reflects cs (perform (failure now msg) b) in
      record {
        in_a_row = ground arith;
        counted = λ h. rw (count_of-failure now msg h b) at (r.counted h);
        limit = ground arith;
      }
  perform_all-Reflects (clear ∷ cs) b =
      let r = perform_all-Reflects cs (perform clear b) in
      record { in_a_row = r.in_a_row; counted = r.counted; limit = r.limit }

  -- A closed breaker has fewer failures in a row than its limit.
  abbrev IsCalm : CircuitBreaker → Type 0
  IsCalm b =
      (0 < b.max_failures)
      × (b.state ≡ BreakerState.closed → b.consecutive_failures < b.max_failures)

  perform-IsCalm : (c : Call) (b : CircuitBreaker) → IsCalm b → IsCalm (perform c b)
  unfolding perform
  perform-IsCalm (probe now) b h = (ground arith, λ e. ground arith)
  perform-IsCalm success b h = (ground arith, λ e. ground arith)
  perform-IsCalm (failure now msg) b h = (ground arith, λ e. ground arith)
  perform-IsCalm clear b h = (h.0, λ e. h.0)

  perform_all-IsCalm : (cs : List Call) (b : CircuitBreaker) → IsCalm b → IsCalm (perform_all cs b)
  unfolding perform_all
  perform_all-IsCalm [] b h = h
  perform_all-IsCalm (c ∷ cs) b h = perform_all-IsCalm cs (perform c b) (perform-IsCalm c b h)

  -- After any calls of a new breaker with a positive limit on failures in a row, resets among them: its
  -- count of a hash is the number of failures with that hash since the last reset, its count in a row is
  -- the number of failures since the last success or reset, and while the breaker is closed that number
  -- is below the limit.
  pub perform_all-history :
      (max_failures max_identical cooldown : ℕ) (cs : List Call) (h : String)
      → 0 < max_failures
      → let b = perform_all cs (new_breaker max_failures max_identical cooldown) in
        (count_of b.error_hashes h ≡ occurrences h 0 cs)
        × (b.consecutive_failures ≡ streak 0 cs)
        × ((b.state ≢ BreakerState.closed) ⊎ (streak 0 cs < max_failures))
  unfolding count_of
  perform_all-history m i c cs h pos =
      let start = new_breaker m i c in
      let r = perform_all-Reflects cs start in
      let calm = perform_all-IsCalm cs start (pos, λ e. pos) in
      (
        r.counted h,
        r.in_a_row,
        elim (is_closed (perform_all cs start).state) [
          | inl shut ↦ inr (omega (arith, calm.1 shut, r.in_a_row, r.limit))
          | inr other ↦ inl other
        ],
      )
