-- ===== src/Security/RateLimiter.antt =====
-- src/rooben/security/rate_limiter.py. Times are milliseconds of the monotonic clock. The waiting
-- loop reads the clock once a round: `clock n` is what the n-th read returns.
pub mod Window
pub mod Waiting
use rooben.Prelude.{
  ℕ, zero, suc, ◌+◌, Bool, true, false, String, Option, none, some, List, [], ◌∷◌, ◌++◌, ltb, keep,
  length, cond,
}
use rooben.Dict.{Dict, get, put, remove}
use rooben.Domain.Models.{truthy}

pub record RateLimiter : Type 0 where
  pub max_per_minute : ℕ
  pub timestamps : Dict (List ℕ)

-- The length of the window.
abbrev pub window : ℕ
window = 60_000

-- self._timestamps[agent_id], a defaultdict
unfoldable pub stamps : RateLimiter → String → List ℕ
unfolding get
stamps r agent = elim (get r.timestamps agent) [ none ↦ [] | some ts ↦ ts ]

-- [ts for ts in … if ts > now - 60.0]
unfoldable pub prune : ℕ → List ℕ → List ℕ
prune now ts = keep (λ t. ltb now (t + window)) ts

-- One round of `acquire` under the lock: it prunes, and takes a slot if one is free.
unfoldable pub try_acquire : ℕ → String → RateLimiter → RateLimiter × Bool
unfolding stamps prune put
try_acquire now agent r =
    let live = prune now (stamps r agent) in
    cond (ltb (length live) r.max_per_minute)
      (record r { timestamps = put r.timestamps agent (live ++ now ∷ []) }, true)
      (record r { timestamps = put r.timestamps agent live }, false)

-- RateLimiter.acquire: `none` while it still waits after so many rounds; else the number of the round
-- in which it got its slot. The lock is free while it sleeps: `others n` is what all other tasks do to
-- the limiter between round `n` and the next one.
unfoldable pub acquire :
    ℕ
    → (ℕ → ℕ)
    → (ℕ → RateLimiter → RateLimiter)
    → ℕ
    → String
    → RateLimiter
    → Option (RateLimiter × ℕ)
unfolding try_acquire
acquire zero clock others n agent r = none
acquire (suc rounds) clock others n agent r =
    let (r', got) = try_acquire (clock n) agent r in
    elim got [
      | true ↦ some (r', n)
      | false ↦ acquire rounds clock others (n + 1) agent (others n r')
    ]

-- RateLimiter.reset
abbrev reset : Option String → RateLimiter → RateLimiter
unfolding truthy remove
reset none r = record r { timestamps = [] }
reset (some agent) r =
    cond (truthy (some agent)) (record r { timestamps = remove r.timestamps agent })
      (record r { timestamps = [] })
