-- ===== src/Resilience/ApiLimiter/Bound.antt =====
-- The calls that share a limiter, and their bound.
use rooben.Prelude.{ℕ, suc, ◌+◌, ◌≤◌, ◌≡◌, false, arith}
use rooben.Resilience.ApiLimiter.{
  ApiConcurrencyLimiter, new_limiter, begin_enter, locked, end_enter, exit,
}

-- The limiter, with the calls that wait for the semaphore, those between `__aenter__` and `__aexit__`,
-- and those that were cancelled while they waited.
pub record Calls : Type 0 where
  pub limiter : ApiConcurrencyLimiter
  pub queued : ℕ
  pub inside : ℕ
  pub cancelled : ℕ

-- One call enters, is let in, leaves, or is cancelled while it waits.
pub data Step (c : Calls) : Calls → Type 0 where
  enters : Step c (record c { limiter = begin_enter c.limiter; queued = suc c.queued })
  is_let_in :
      (rest : ℕ)
      → c.queued ≡ suc rest
      → locked c.limiter ≡ false
      → Step c (record c { limiter = end_enter c.limiter; queued = rest; inside = suc c.inside })
  leaves :
      (rest : ℕ)
      → c.inside ≡ suc rest
      → Step c (record c { limiter = exit c.limiter; inside = rest })
  is_cancelled :
      (rest : ℕ)
      → c.queued ≡ suc rest
      → Step c (record c { queued = rest; cancelled = suc c.cancelled })

-- What the calls come to in any order of steps.
pub data Reachable (max : ℕ) : Calls → Type 0 where
  start :
      Reachable max (record { limiter = new_limiter max; queued = 0; inside = 0; cancelled = 0 })
  later : {c d : Calls} → Reachable max c → Step c d → Reachable max d

record IsBalanced (max : ℕ) (c : Calls) : Type 0 where
  slots : c.inside + c.limiter.semaphore ≡ max
  waits : c.limiter.waiting ≡ c.queued + c.cancelled

Step-IsBalanced : (max : ℕ) {c d : Calls} → Step c d → IsBalanced max c → IsBalanced max d
unfolding begin_enter locked end_enter exit
Step-IsBalanced max enters h = record { slots = h.slots; waits = omega (arith, h.waits) }
Step-IsBalanced max (is_let_in rest q unlocked) h = record {
  slots = ground (arith, h.slots);
  waits = omega (arith, h.waits, q);
}
Step-IsBalanced max (leaves rest i) h = record {
  slots = omega (arith, h.slots, i);
  waits = h.waits;
}
Step-IsBalanced max (is_cancelled rest q) h = record {
  slots = h.slots;
  waits = omega (arith, h.waits, q);
}

Reachable-IsBalanced : (max : ℕ) {c : Calls} → Reachable max c → IsBalanced max c
unfolding new_limiter
Reachable-IsBalanced max start = record { slots = omega arith; waits = omega arith }
Reachable-IsBalanced max (later r step) = Step-IsBalanced max step (Reachable-IsBalanced max r)

-- However calls enter, are let in, leave and are cancelled, no more than `max_concurrent` calls are
-- inside at a time, and `waiting` counts the calls that wait together with all that were cancelled while
-- they waited.
pub Reachable-within :
    (max : ℕ) (c : Calls)
    → Reachable max c
    → (c.inside ≤ max) × (c.limiter.waiting ≡ c.queued + c.cancelled)
Reachable-within max c r = let h = Reachable-IsBalanced max r in (omega (arith, h.slots), h.waits)
