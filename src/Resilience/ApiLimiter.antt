-- ===== src/Resilience/ApiLimiter.antt =====
-- src/rooben/resilience/api_retry.py: `APIConcurrencyLimiter`. The semaphore of asyncio is its counter:
-- `acquire` waits while it is zero and then lowers it, and `release` raises it.
pub mod Bound
use rooben.Prelude.{ℕ, suc, ◌-◌, ◌==◌, Bool}

pub record ApiConcurrencyLimiter : Type 0 where
  pub semaphore : ℕ
  pub max_concurrent : ℕ
  pub waiting : ℕ

-- APIConcurrencyLimiter(max_concurrent)
unfoldable pub new_limiter : ℕ → ApiConcurrencyLimiter
new_limiter n = record { semaphore = n; max_concurrent = n; waiting = 0 }

-- __aenter__ up to the wait for the semaphore
unfoldable pub begin_enter : ApiConcurrencyLimiter → ApiConcurrencyLimiter
begin_enter l = record l { waiting = suc l.waiting }

-- self._semaphore.locked()
unfoldable pub locked : ApiConcurrencyLimiter → Bool
locked l = l.semaphore == 0

-- The rest of __aenter__, once the semaphore is acquired
unfoldable pub end_enter : ApiConcurrencyLimiter → ApiConcurrencyLimiter
end_enter l = record l { semaphore = l.semaphore - 1; waiting = l.waiting - 1 }

-- __aexit__
unfoldable pub exit : ApiConcurrencyLimiter → ApiConcurrencyLimiter
exit l = record l { semaphore = suc l.semaphore }
