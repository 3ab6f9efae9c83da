-- ===== src/Resilience/ApiRetry/Attempts.antt =====
-- How a retried call ends, for every behaviour of the remote side.
use rooben.Prelude.{
  ℕ, zero, suc, ◌+◌, ◌≤◌, ◌<◌, ◌≡◌, refl, ap, subst, ◌∙◌, sym, ◌⊎◌, inl, inr, Bool, true, false,
  arith, length, All, Bool-cases,
}
use rooben.Resilience.ApiRetry.{
  Exception, Reply, returned, raised, Outcome, is_transient_error, delay_of, after_sleep,
  retry_from, retry_with_backoff,
}

Reply-cases {ℓ} :
    {A : Type ℓ} (r : Reply A) → ((a : A) × (r ≡ returned a)) ⊎ ((e : Exception) × (r ≡ raised e))
Reply-cases (returned a) = inl (a, refl)
Reply-cases (raised e) = inr (e, refl)

module _ {ℓ} {A : Type ℓ} (call : ℕ → Reply A) (jitter : ℕ → ℕ → ℕ) (base max : ℕ) where
  abbrev FailsFor : (Bool → Type 0) → ℕ → Type ℓ
  FailsFor P k = (e : Exception) × (call k ≡ raised e) × P (is_transient_error e)

  -- The calls from `attempt` on, with at most `left` retries.
  pub record IsRun (left attempt : ℕ) (o : Outcome A) : Type ℓ where
    pub within : length o.sleeps ≤ left
    pub reply_lem : o.reply ≡ call (attempt + length o.sleeps)
    pub retried : (k : ℕ) → k < length o.sleeps → FailsFor (λ b. b ≡ true) (attempt + k)
    pub stopped :
        ((a : A) × (o.reply ≡ returned a))
        ⊎ FailsFor (λ b. b ≡ false) (attempt + length o.sleeps)
        ⊎ (length o.sleeps ≡ left)
    pub capped : All (λ t. t ≤ max) o.sleeps

  delay_of-le : (attempt : ℕ) → delay_of base max attempt ≤ max
  unfolding delay_of
  delay_of-le attempt = ground arith

  at_start : (r : Reply A) (attempt : ℕ) → call attempt ≡ r → r ≡ call (attempt + 0)
  at_start r attempt e = sym e ∙ ap call (omega arith)

  again :
      (left attempt t : ℕ) (o : Outcome A) (x : Exception)
      → call attempt ≡ raised x
      → is_transient_error x ≡ true
      → t ≤ max
      → IsRun left (attempt + 1) o
      → IsRun (suc left) attempt (after_sleep t o)
  unfolding after_sleep
  again left attempt t o x e transient le run =
      let shift : attempt + 1 + length o.sleeps ≡ attempt + suc (length o.sleeps) = omega arith in
      record {
        within = omega (arith, run.within);
        reply_lem = run.reply_lem ∙ ap call shift;
        retried = retried;
        stopped = elim run.stopped [
          | inl done ↦ inl done
          | inr (inl fatal) ↦ inr (inl (subst (FailsFor (λ b. b ≡ false)) shift fatal))
          | inr (inr spent) ↦ inr (inr (ap suc spent))
        ];
        capped = (le, run.capped);
      }
    where
      retried : (k : ℕ) → k < suc (length o.sleeps) → FailsFor (λ b. b ≡ true) (attempt + k)
      retried zero lt = (x, ap call (omega arith) ∙ e, transient)
      retried (suc k) lt =
          let next : attempt + 1 + k ≡ attempt + suc k = omega arith in
          subst (FailsFor (λ b. b ≡ true)) next (run.retried k (omega arith))

  module _ (jitter-le : (n d : ℕ) → jitter n d ≤ d) where
    retry_from-IsRun :
        (left attempt : ℕ) → IsRun left attempt (retry_from call jitter base max left attempt)
    unfolding retry_from
    retry_from-IsRun zero attempt = record {
      within = omega arith;
      reply_lem = ap call (omega arith);
      retried = λ k lt. absurd (omega arith);
      stopped = inr (inr refl);
      capped = tt;
    }
    retry_from-IsRun (suc left) attempt = elim (Reply-cases (call attempt)) [
      | inl (a, e) ↦
          rw (e, retry_from)
            (record {
              within = omega arith;
              reply_lem = at_start (returned a) attempt e;
              retried = λ k lt. absurd (omega arith);
              stopped = inl (a, refl);
              capped = tt;
            })
      | inr (x, e) ↦ elim (Bool-cases (is_transient_error x)) [
        | inl transient ↦
            rw (e, transient, retry_from)
              (again left attempt (jitter attempt (delay_of base max attempt))
                (retry_from call jitter base max left (attempt + 1)) x e transient
                (omega (arith, jitter-le attempt (delay_of base max attempt), delay_of-le attempt))
                (retry_from-IsRun left (attempt + 1)))
        | inr permanent ↦
            rw (e, permanent, retry_from)
              (record {
                within = omega arith;
                reply_lem = at_start (raised x) attempt e;
                retried = λ k lt. absurd (omega arith);
                stopped = inr (inl (x, sym (at_start (raised x) attempt e), permanent));
                capped = tt;
              })
      ]
    ]

  -- However the remote side behaves: there are at most `max_retries` sleeps, none longer than
  -- `max_delay`, and one more call than sleeps; each call before the last failed with a transient
  -- error; the answer of the last call is the outcome, and it is the last because it returned, or
  -- failed with a permanent error, or had no retry left.
  pub retry_with_backoff-IsRun :
      (max_retries : ℕ)
      → ((n d : ℕ) → jitter n d ≤ d)
      → IsRun max_retries 0 (retry_with_backoff call jitter base max max_retries)
  unfolding retry_with_backoff
  retry_with_backoff-IsRun max_retries le = retry_from-IsRun le max_retries 0
