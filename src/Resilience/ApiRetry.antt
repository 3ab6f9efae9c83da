-- ===== src/Resilience/ApiRetry.antt =====
-- src/rooben/resilience/api_retry.py. An exception is what the classification reads of it: the name
-- of its class, its status code, and whether it is a connection or timeout error of Python's own.
-- The remote calls and the jitter are parameters; times are milliseconds.
pub mod Attempts
use rooben.Prelude.{
  ℕ, zero, suc, ◌+◌, ◌*◌, ◌^◌, ◌-◌, ◌==◌, Bool, true, false, ◌||◌, String, Option, none, some, List,
  [], ◌∷◌, ◌++◌, str_eq, leb, cond, any, if◌then◌else◌,
}

pub record Exception : Type 0 where
  pub type_name : String
  pub status_code : Option ℕ
  pub is_connection_error : Bool

permanent_types : List String
permanent_types =
    "AuthenticationError" ∷ "BadRequestError" ∷ "NotFoundError" ∷ "PermissionDeniedError"
    ∷ "InvalidRequestError" ∷ []

transient_types : List String
transient_types =
    "OverloadedError" ∷ "InternalServerError" ∷ "APIStatusError" ∷ "APIConnectionError"
    ∷ "APITimeoutError" ∷ []

httpx_transient : List String
httpx_transient = "ReadTimeout" ∷ "ConnectTimeout" ∷ "ConnectError" ∷ "ReadError" ∷ []

transient_status : ℕ → Bool
transient_status code = code == 429 || (code == 500 || (code == 503 || code == 529))

-- is_transient_error
unfoldable pub is_transient_error : Exception → Bool
unfolding permanent_types transient_types httpx_transient transient_status
is_transient_error e =
    if any (λ n. str_eq e.type_name n) permanent_types
    then false
    else if any (λ n. str_eq e.type_name n) transient_types
    then (elim e.status_code [ none ↦ true | some code ↦ transient_status code ])
    else if any (λ n. str_eq e.type_name n) httpx_transient
    then true
    else e.is_connection_error

-- What one call of `coro_factory` gives.
pub data Reply {ℓ} (A : Type ℓ) : Type ℓ where
  returned : A → Reply A
  raised : Exception → Reply A

-- What `retry_with_backoff` gives: how it ends, and the sleeps before.
pub record Outcome {ℓ} (A : Type ℓ) : Type ℓ where
  pub reply : Reply A
  pub sleeps : List ℕ

-- min(base_delay * (2 ** attempt), max_delay)
unfoldable pub delay_of : ℕ → ℕ → ℕ → ℕ
delay_of base max attempt = if leb (base * 2 ^ attempt) max then base * 2 ^ attempt else max

-- A sleep before what follows.
unfoldable pub after_sleep {ℓ} : {A : Type ℓ} → ℕ → Outcome A → Outcome A
after_sleep t o = record o { sleeps = t ∷ o.sleeps }

module _ {ℓ} {A : Type ℓ} (call : ℕ → Reply A) (jitter : ℕ → ℕ → ℕ) (base max : ℕ) where
  -- The `for` loop with `left` rounds after this one: the round `attempt` is the last of
  -- `range(max_retries + 1)` exactly if none is left, which is the test `attempt >= max_retries`.
  unfoldable pub retry_from : ℕ → ℕ → Outcome A
  unfolding is_transient_error delay_of after_sleep
  retry_from zero attempt = record { reply = call attempt; sleeps = [] }
  retry_from (suc left) attempt = elim (call attempt) [
    | returned a ↦ record { reply = returned a; sleeps = [] }
    | raised e ↦ elim (is_transient_error e) [
      | false ↦ record { reply = raised e; sleeps = [] }
      | true ↦
          after_sleep (jitter attempt (delay_of base max attempt)) (retry_from left (attempt + 1))
    ]
  ]

  -- retry_with_backoff
  unfoldable pub retry_with_backoff : ℕ → Outcome A
  unfolding retry_from
  retry_with_backoff max_retries = retry_from max_retries 0
