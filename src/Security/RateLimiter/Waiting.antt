-- ===== src/Security/RateLimiter/Waiting.antt =====
-- The waiting loop of `acquire`, in src/rooben/security/rate_limiter.py: a second passes between two
-- rounds, and a minute empties the window, if no other task fills it again.
use rooben.Prelude.{
  ℕ, zero, suc, ◌+◌, ◌*◌, ◌≤◌, ◌<◌, ◌≡◌, refl, true, false, String, some, List, [], ◌∷◌, ◌++◌, ◌∙◌,
  arith, ltb, length, eq_refl, Bool-cases, inl, inr,
}
use rooben.Security.RateLimiter.{RateLimiter, window, stamps, prune, try_acquire, acquire}
use rooben.Security.RateLimiter.Window.{AreBefore, stamps-put, try_acquire-max, prune-AreBefore}

-- The slot is written behind the stamps that are still live.
abbrev pub Holds : RateLimiter → String → ℕ → Type 0
Holds r a t = (ts : List ℕ) × (stamps r a ≡ ts ++ t ∷ [])

prune-old : (now b : ℕ) (ts : List ℕ) → b + window ≤ now → AreBefore b ts → prune now ts ≡ []
unfolding prune
prune-old now b [] le h = refl
prune-old now b (t ∷ ts) le h = ground (arith, prune-old now b ts le h.1)

try_acquire-granted :
    (t : ℕ) (a : String) (r : RateLimiter)
    → ltb (length (prune t (stamps r a))) r.max_per_minute ≡ true
    → ((try_acquire t a r).1 ≡ true) × Holds (try_acquire t a r).0 a t
unfolding try_acquire
try_acquire-granted t a r room = rw room (refl, (prune t (stamps r a), rw (stamps-put, eq_refl)))

try_acquire-denied :
    (t : ℕ) (a : String) (r : RateLimiter)
    → ltb (length (prune t (stamps r a))) r.max_per_minute ≡ false
    → ((try_acquire t a r).1 ≡ false) × (stamps (try_acquire t a r).0 a ≡ prune t (stamps r a))
unfolding try_acquire
try_acquire-denied t a r full = rw full (refl, rw (stamps-put, eq_refl))

module _ (clock : ℕ → ℕ) (others : ℕ → RateLimiter → RateLimiter) where
  acquire-granted :
      (rounds n : ℕ) (a : String) (r : RateLimiter)
      → (try_acquire (clock n) a r).1 ≡ true
      → acquire (suc rounds) clock others n a r ≡ some ((try_acquire (clock n) a r).0, n)
  unfolding acquire
  acquire-granted rounds n a r got = rw (got, acquire)

  acquire-denied :
      (rounds n : ℕ) (a : String) (r : RateLimiter)
      → (try_acquire (clock n) a r).1 ≡ false
      → acquire (suc rounds) clock others n a r
        ≡ acquire rounds clock others (n + 1) a (others n (try_acquire (clock n) a r).0)
  unfolding acquire
  acquire-denied rounds n a r lost = rw (lost, acquire)

-- Between two rounds the other tasks leave the agent's stamps and the limit as they are; the stamps of
-- other agents may change.
abbrev AreApart : String → (ℕ → RateLimiter → RateLimiter) → Type 0
AreApart a others =
    (n : ℕ) (r : RateLimiter)
    → (stamps (others n r) a ≡ stamps r a) × ((others n r).max_per_minute ≡ r.max_per_minute)

module _ (clock : ℕ → ℕ) (others : ℕ → RateLimiter → RateLimiter)
    (tick : (k : ℕ) → clock k + 1000 ≤ clock (k + 1)) (a : String) (apart : AreApart a others)
    (b : ℕ) where
  abbrev Gets : ℕ → ℕ → RateLimiter → Type 0
  Gets rounds n r =
      (r' : RateLimiter) × (m : ℕ) × (acquire (suc rounds) clock others n a r ≡ some (r', m))
      × (m ≤ n + rounds)
      × Holds r' a (clock m)

  -- With a slot to give, a clock that passes a second between two rounds, and no other task that takes
  -- or frees slots of the same agent between the rounds: `acquire` returns once the last of the agent's
  -- stamps is a minute old, and leaves its own stamp last.
  pub acquire_within :
      (rounds n : ℕ) (r : RateLimiter)
      → 0 < r.max_per_minute
      → AreBefore b (stamps r a)
      → b + window ≤ clock n + 1000 * rounds
      → Gets rounds n r
  acquire_within zero n r pos before enough =
      let empty = prune-old (clock n) b (stamps r a) (omega arith) before in
      let got = try_acquire-granted (clock n) a r (rw empty (ground arith)) in
      (
        (try_acquire (clock n) a r).0,
        n,
        acquire-granted clock others zero n a r got.0,
        omega arith,
        got.1,
      )
  acquire_within (suc rounds) n r pos before enough =
      elim (Bool-cases (ltb (length (prune (clock n) (stamps r a))) r.max_per_minute)) [
        | inl room ↦
            let got = try_acquire-granted (clock n) a r room in
            (
              (try_acquire (clock n) a r).0,
              n,
              acquire-granted clock others (suc rounds) n a r got.0,
              omega arith,
              got.1,
            )
        | inr full ↦
            let lost = try_acquire-denied (clock n) a r full in
            let denied = (try_acquire (clock n) a r).0 in
            let r' = others n denied in
            let (same, limit) = apart n denied in
            let kept : AreBefore b (stamps r' a) =
              rw same (rw lost.1 (prune-AreBefore (clock n) b (stamps r a) before)) in
            let pos' : 0 < r'.max_per_minute = rw limit (rw (try_acquire-max (clock n) a r) pos) in
            let (r'', m, e, le, h) =
              acquire_within rounds (n + 1) r' pos' kept (omega (arith, tick n)) in
            (r'', m, acquire-denied clock others (suc rounds) n a r lost.0 ∙ e, omega arith, h)
      ]
