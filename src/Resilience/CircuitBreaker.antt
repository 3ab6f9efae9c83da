-- ===== src/Resilience/CircuitBreaker.antt =====
-- src/rooben/resilience/circuit_breaker.py. `now` is what `time.monotonic()` returns, in
-- milliseconds; the hash of an error message is a parameter.
pub mod History
pub mod Transitions
use rooben.Prelude.{
  ℕ, ◌+◌, Bool, true, false, String, Option, none, some, List, [], ◌∷◌, leb, cond, if◌then◌else◌,
}
use rooben.Dict.{Dict, get, put, values}

pub data BreakerState : Type 0 where
  closed open_ half_open : BreakerState

pub record CircuitBreaker : Type 0 where
  pub max_failures : ℕ
  pub max_identical : ℕ
  pub cooldown : ℕ
  pub consecutive_failures : ℕ
  pub error_hashes : Dict ℕ
  pub state : BreakerState
  pub opened_at : ℕ

-- CircuitBreaker.__init__
abbrev pub new_breaker : ℕ → ℕ → ℕ → CircuitBreaker
new_breaker max_failures max_identical cooldown = record {
  max_failures = max_failures;
  max_identical = max_identical;
  cooldown = cooldown;
  consecutive_failures = 0;
  error_hashes = [];
  state = BreakerState.closed;
  opened_at = 0;
}

-- _cooldown_elapsed: now - opened_at >= cooldown
unfoldable pub cooldown_elapsed : ℕ → CircuitBreaker → Bool
cooldown_elapsed now b = leb (b.opened_at + b.cooldown) now

-- The property `state`, which moves an open breaker on when it is read.
unfoldable pub read_state : ℕ → CircuitBreaker → CircuitBreaker
unfolding cooldown_elapsed
read_state now b = elim b.state [
  | BreakerState.open_ ↦
      if cooldown_elapsed now b then record b { state = BreakerState.half_open } else b
  | _ ↦ b
]

lets_through : BreakerState → Bool
lets_through BreakerState.closed = true
lets_through BreakerState.half_open = true
lets_through BreakerState.open_ = false

-- CircuitBreaker.can_proceed
unfoldable pub can_proceed : ℕ → CircuitBreaker → CircuitBreaker × Bool
unfolding read_state lets_through
can_proceed now b = (read_state now b, lets_through (read_state now b).state)

-- CircuitBreaker.record_success
unfoldable pub record_success : CircuitBreaker → CircuitBreaker
record_success b = record b { consecutive_failures = 0; state = BreakerState.closed }

-- CircuitBreaker._trip
unfoldable pub trip : ℕ → CircuitBreaker → CircuitBreaker
trip now b = record b { state = BreakerState.open_; opened_at = now }

-- self._error_hashes[h]: a Counter has 0 for a key that is not there.
unfoldable pub count_of : Dict ℕ → String → ℕ
unfolding get
count_of d h = elim (get d h) [ none ↦ 0 | some n ↦ n ]

-- `most_common(1)[0][1]` of a Counter that is not empty: its highest count.
unfoldable pub highest : List ℕ → ℕ
highest [] = 0
highest (n ∷ ns) = if leb (highest ns) n then n else highest ns

module _ (hash : String → String) where
  -- The counting at the head of `record_failure`.
  unfoldable pub count_failure : String → CircuitBreaker → CircuitBreaker
  unfolding put count_of
  count_failure msg b = record b {
    consecutive_failures = b.consecutive_failures + 1;
    error_hashes = put b.error_hashes (hash msg) (count_of b.error_hashes (hash msg) + 1);
  }

  -- The tests behind it, for a breaker that is not half open.
  trips : CircuitBreaker → Bool
  unfolding highest values
  trips b =
      if leb b.max_failures b.consecutive_failures
      then true
      else leb b.max_identical (highest (values b.error_hashes))

  -- CircuitBreaker.record_failure
  unfoldable pub record_failure : ℕ → String → CircuitBreaker → CircuitBreaker
  unfolding count_failure trip trips
  record_failure now msg b =
      let b' = count_failure msg b in
      elim b.state [
        | BreakerState.half_open ↦ trip now b'
        | _ ↦ if trips b' then trip now b' else b'
      ]

-- CircuitBreaker.reset
unfoldable pub reset : CircuitBreaker → CircuitBreaker
reset b = record b {
  consecutive_failures = 0;
  error_hashes = [];
  state = BreakerState.closed;
  opened_at = 0;
}
