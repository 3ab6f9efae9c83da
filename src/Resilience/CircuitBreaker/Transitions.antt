-- ===== src/Resilience/CircuitBreaker/Transitions.antt =====
-- When the breaker opens, and when it lets a dispatch through.
use rooben.Prelude.{
  ℕ, ◌+◌, ◌≤◌, ◌<◌, ◌≡◌, ◌↔◌, ◌⊎◌, inl, inr, refl, false, String, List, [], ◌∷◌, arith, leb, str_eq,
  Bool-cases, Memᴰ, mem-cons_cases,
}
use rooben.Dict.{Dict, get, put, values}
use rooben.Dict.Laws.{mem-put}
use rooben.Resilience.CircuitBreaker.{
  BreakerState, CircuitBreaker, can_proceed, record_failure, count_failure, highest, count_of,
}

-- A dispatch is held back exactly while the breaker is open and the cooldown has not passed; the
-- counters stay as they are.
can_proceed-false_iff :
    (now : ℕ) (b : CircuitBreaker)
    → ((can_proceed now b).1 ≡ false)
      ↔ ((b.state ≡ BreakerState.open_) × (now < b.opened_at + b.cooldown))
unfolding can_proceed
can_proceed-false_iff now b = ((λ h. ground arith), (λ h. ground arith))

-- The highest count reaches a limit exactly if some count does.
le-highest_iff : (k : ℕ) (ns : List ℕ) → 0 < k → (k ≤ highest ns) ↔ ((n : ℕ) × Memᴰ n ns × (k ≤ n))
unfolding highest
le-highest_iff k [] pos = ((λ h. absurd (omega arith)), (λ (n, m, le). elim m [ ]))
le-highest_iff k (n ∷ ns) pos = let ih = le-highest_iff k ns pos in (to ih, from ih)
  where
    to :
        (k ≤ highest ns) ↔ ((x : ℕ) × Memᴰ x ns × (k ≤ x))
        → k ≤ highest (n ∷ ns)
        → (x : ℕ) × Memᴰ x (n ∷ ns) × (k ≤ x)
    to ih h = elim (Bool-cases (leb (highest ns) n)) [
      | inl first ↦ (n, Memᴰ.head refl, rw first at h)
      | inr later ↦ let (x, m, le) = ih.0 (rw later at h) in (x, Memᴰ.tail m, le)
    ]

    from :
        (k ≤ highest ns) ↔ ((x : ℕ) × Memᴰ x ns × (k ≤ x))
        → (x : ℕ) × Memᴰ x (n ∷ ns) × (k ≤ x)
        → k ≤ highest (n ∷ ns)
    from ih (x, m, le) = elim (mem-cons_cases m) [
      | inl here ↦ ground arith
      | inr later ↦ let below = ih.1 (x, later, le) in ground arith
    ]

record_failure-tripped :
    (hash : String → String) (now : ℕ) (msg : String) (b : CircuitBreaker)
    → ((record_failure hash now msg b).state ≡ BreakerState.open_) ↔ (
        (b.state ≡ BreakerState.open_)
        ⊎ (b.state ≡ BreakerState.half_open)
        ⊎ (b.max_failures ≤ b.consecutive_failures + 1)
        ⊎ (b.max_identical ≤ highest (values (count_failure hash msg b).error_hashes)))
unfolding record_failure
record_failure-tripped hash now msg b = ((λ h. ground arith), (λ h. ground arith))

mem-put_new : (d : Dict ℕ) (k : String) (v : ℕ) → Memᴰ v (values (put d k v))
unfolding values put
mem-put_new [] k v = Memᴰ.head refl
mem-put_new ((j, u) ∷ d) k v = elim (Bool-cases (str_eq j k)) [
  | inl same ↦ rw (put, same, values) (Memᴰ.head refl)
  | inr other ↦ rw (put, other, values) (Memᴰ.tail (mem-put_new d k v))
]

-- A value stays, unless it is the one that is replaced.
mem-put_old :
    (d : Dict ℕ) (k : String) (v : ℕ) {n : ℕ}
    → Memᴰ n (values d)
    → Memᴰ n (values (put d k v)) ⊎ (count_of d k ≡ n)
unfolding values put count_of get
mem-put_old [] k v m = elim m [ ]
mem-put_old ((j, u) ∷ d) k v {n} m = elim (Bool-cases (str_eq j k)) [
  | inl same ↦ elim (mem-cons_cases m) [
    | inl here ↦ inr (ground arith)
    | inr later ↦ inl (rw (put, same, values) (Memᴰ.tail later))
  ]
  | inr other ↦ elim (mem-cons_cases m) [
    | inl here ↦ inl (rw (put, other, values) (Memᴰ.head here))
    | inr later ↦ elim (mem-put_old d k v {n = n} later) [
      | inl kept ↦ inl (rw (put, other, values) (Memᴰ.tail kept))
      | inr replaced ↦ inr (rw (count_of, get, other) replaced)
    ]
  ]
]

-- The counts reach a limit after one of them was raised.
le-count_iff :
    (d : Dict ℕ) (k : String) (limit : ℕ)
    → ((n : ℕ) × Memᴰ n (values (put d k (count_of d k + 1))) × (limit ≤ n))
      ↔ ((limit ≤ count_of d k + 1) ⊎ ((n : ℕ) × Memᴰ n (values d) × (limit ≤ n)))
le-count_iff d k limit = (
  (λ (n, m, le). elim (mem-put d k (count_of d k + 1) m) [
    | inl new ↦ inl (omega (arith, new, le))
    | inr old ↦ inr (n, old, le)
  ]),
  (λ h. elim h [
    | inl le ↦ (count_of d k + 1, mem-put_new d k (count_of d k + 1), le)
    | inr (n, m, le) ↦ elim (mem-put_old d k (count_of d k + 1) m) [
      | inl kept ↦ (n, kept, le)
      | inr replaced ↦
          (count_of d k + 1, mem-put_new d k (count_of d k + 1), omega (arith, replaced, le))
    ]
  ]),
)

-- With a positive limit on identical errors: a failure leaves the breaker open exactly if it was open
-- or half open, or the failures in a row, this one included, have reached their limit, or the count of
-- this error, this one included, has reached the other limit, or the count of some error had reached
-- that limit before.
pub record_failure-open_iff :
    (hash : String → String) (now : ℕ) (msg : String) (b : CircuitBreaker)
    → 0 < b.max_identical
    → ((record_failure hash now msg b).state ≡ BreakerState.open_) ↔ (
        (b.state ≡ BreakerState.open_)
        ⊎ (b.state ≡ BreakerState.half_open)
        ⊎ (b.max_failures ≤ b.consecutive_failures + 1)
        ⊎ (b.max_identical ≤ count_of b.error_hashes (hash msg) + 1)
        ⊎ ((n : ℕ) × Memᴰ n (values b.error_hashes) × (b.max_identical ≤ n)))
unfolding count_failure
record_failure-open_iff hash now msg b pos =
    let tripped = record_failure-tripped hash now msg b in
    let counted = le-count_iff b.error_hashes (hash msg) b.max_identical in
    let top = le-highest_iff b.max_identical (values (count_failure hash msg b).error_hashes) pos in
    (
      (λ h. elim (tripped.0 h) [
        | inl a ↦ inl a
        | inr (inl a) ↦ inr (inl a)
        | inr (inr (inl a)) ↦ inr (inr (inl a))
        | inr (inr (inr a)) ↦ inr (inr (inr (counted.0 (top.0 a))))
      ]),
      (λ h. elim h [
        | inl a ↦ tripped.1 (inl a)
        | inr (inl a) ↦ tripped.1 (inr (inl a))
        | inr (inr (inl a)) ↦ tripped.1 (inr (inr (inl a)))
        | inr (inr (inr a)) ↦ tripped.1 (inr (inr (inr (top.1 (counted.1 a)))))
      ]),
    )
