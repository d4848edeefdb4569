-- ===== src/Resilience.antt =====
-- `ResilientHttpClient` of src/network/resilience.py: limits, transport, retries, circuit breaker and the
-- translation of what is raised. pybreaker and tenacity are parameters.
pub mod Limits
pub mod Outcomes
pub mod Endings
pub mod Created
use finpipe.Base.{
  ℕ, suc, ◌<◌, ◌≡◌, Bool, true, false, ◌||◌, Option, none, some, List, [], ◌∷◌, leb, ◌==◌,
  if◌then◌else◌, String, concat, Dict,
}
use finpipe.Errors.{
  Exn, rate_limit_exceeded, provider_down, http_status_error, network_error, circuit_breaker_error,
  runtime_error, Result, ok, raise,
}
use finpipe.Float.{Float}
use finpipe.Text.{Unicode}
use finpipe.Limiter.Adaptive.{Limiter, init, acquire, record_success, record_429}
use finpipe.Resilience.Limits.{
  RateLimitConfig, Minute, Transport, httpx, curl_cffi, closed, transport_for, minute_limits,
  acquire_minute, format_http_status_error,
}

-- `retry_if_exception_type((httpx.HTTPStatusError, httpx.NetworkError, CurlHTTPError))`
abbrev pub is_retryable : Exn → Bool
is_retryable (http_status_error s m) = true
is_retryable (network_error m) = true
is_retryable _ = false

-- tenacity's `AsyncRetrying` with `stop_after_attempt(max_retries)` and `retry_if_exception_type`: whether it
-- makes another attempt after attempt `n`, counted from 1, has raised. The waits between the attempts are not
-- modelled.
pub record Retries (retryable : Exn → Bool) (max_retries : ℕ) : Type 0 where
  pub again : ℕ → Exn → Bool
  pub again_retryable : (n : ℕ) (e : Exn) → again n e ≡ true → retryable e ≡ true
  pub again_before_stop : (n : ℕ) (e : Exn) → again n e ≡ true → n < max_retries

abbrev pub Retrying : ℕ → Type 0
Retrying max_retries = Retries is_retryable max_retries

-- what the loop over the attempts does with what an attempt came to
abbrev pub retry_if :
    {A C : Type 0}
    → (Exn → Bool)
    → (C → Option (Result A × C))
    → Option (Result A × C)
    → Option (Result A × C)
retry_if again more none = none
retry_if again more (some (ok response, c)) = some (ok response, c)
retry_if again more (some (raise e, c)) =
    let rest = more c in if again e then rest else some (raise e, c)

-- pybreaker's `CircuitBreaker`: a new one by its threshold and its recovery time, whether it rejects a call,
-- its state after an attempt that returned and after one that raised, and whether that opens it, so that it
-- raises its own error in place of the attempt's. A new one is closed.
pub record Breaker (B F : Type 0) : Type 0 where
  pub create : ℕ → F → B
  pub rejects : B → Bool
  pub succeed : B → B
  pub fail : B → B
  pub trips : B → Bool
  pub created_closed : (threshold : ℕ) (recovery : F) → rejects (create threshold recovery) ≡ false

-- A breaker that is told of a call when the function returns. What it protects is an async def, which
-- returns a coroutine, so it counts a success whatever the coroutine comes to when it is awaited.
pub record CountsCalls {B F : Type 0} (br : Breaker B F) : Type 0 where
  pub fail_succeed : (b : B) → br.fail b ≡ br.succeed b
  pub never_trips : (b : B) → br.trips b ≡ false

pub record Response : Type 0 where
  pub status_code : ℕ
  pub text : String

-- What the environment gives to one attempt: the clock's reading when it acquires, the readings in the
-- rounds of the limiter per minute, and the response or what the transport raised.
pub record Attempt (F : Type 0) : Type 0 where
  pub now : F
  pub clock : List F
  pub answer : Result Response

pub record Client (B F : Type 0) : Type 0 where
  pub breaker : B
  pub limiter : Limiter F
  pub minute : Minute F
  pub transport : Transport

-- The `except` clauses of `request`. An exception for a status carries the text of its response.
unfoldable pub translate : Unicode → String → Exn → Exn
translate u url (circuit_breaker_error m) =
    provider_down (concat "Circuit breaker tripped for " url)
translate u url (http_status_error (some status) text) =
    if status == 429
    then rate_limit_exceeded "Rate limit exhausted and max retries reached"
    else provider_down (format_http_status_error u (some status) text)
translate u url (http_status_error none text) = provider_down (format_http_status_error u none text)
translate u url (network_error m) = provider_down "Provider network error"
translate u url e = e

abbrev pub translated : Unicode → String → Result Response → Result Response
translated u url (ok response) = ok response
translated u url (raise e) = raise (translate u url e)

-- `_transport_request`, where the open transport would come to `answer`
unfoldable pub transport_request : Transport → String → Result Response → Result Response
transport_request httpx namespace answer = answer
transport_request curl_cffi namespace answer = answer
transport_request closed namespace answer =
    raise (runtime_error (concat "HTTP client (" (concat namespace ") is closed")))

module _ {F : Type 0} ⦃fl : Float F⦄ where
  -- the part of `_make_request` behind the response: `raise_for_status` and the feedback to the limiter
  unfoldable pub judge : Response → Limiter F → Result Response × Limiter F
  judge response l =
      if response.status_code == 429
      then (raise (http_status_error (some response.status_code) response.text), record_429 l)
      else (if leb 400 response.status_code
          then (raise (http_status_error (some response.status_code) response.text), l)
          else (ok response, record_success l))

  abbrev pub respond : Result Response → Limiter F → Result Response × Limiter F
  respond (ok response) l = judge response l
  respond (raise e) l = (raise e, l)

  module _ {B : Type 0} where
    abbrev pub with_limiter :
        Client B F → Minute F → Result Response × Limiter F → Result Response × Client B F
    with_limiter c m (r, l) = (r, record c { limiter = l; minute = m })

    -- `_make_request`. It gives `none` while the limiter per minute has not granted.
    unfoldable pub make_request :
        Option ℕ → Attempt F → Client B F → Option (Result Response × Client B F)
    unfolding judge
    make_request token_estimate a c = elim (acquire_minute token_estimate a.clock c.minute) [
      | none ↦ none
      | some m ↦ some (
          with_limiter c m (
            respond (transport_request c.transport c.limiter.namespace a.answer)
              (acquire a.now c.limiter).0))
    ]

    -- `close`. What the library of a session raises when it is closed is ignored.
    unfoldable pub close : Client B F → Client B F
    close c = record c { transport = closed }

    abbrev pub translated_answer :
        Unicode
        → String
        → Option (Result Response × Client B F)
        → Option (Result Response × Client B F)
    translated_answer u url none = none
    translated_answer u url (some (r, c)) = some (translated u url r, c)

  module _ {B : Type 0} (br : Breaker B F) where
    -- `create_resilient_http_client`, on the rates in the database at `rate_limit_db_path`
    unfoldable pub create_client : String → RateLimitConfig F → String → Dict F → F → Client B F
    create_client namespace config transport rates now = record {
      breaker =
          br.create config.circuit_breaker_failure_threshold
            config.circuit_breaker_recovery_timeout_sec;
      limiter = init namespace config.max_requests_per_second rates now;
      minute = minute_limits config now;
      transport = transport_for transport;
    }

    abbrev pub after : Result Response × Client B F → Result Response × Client B F
    after (ok response, c) = (ok response, record c { breaker = br.succeed c.breaker })
    after (raise e, c) = (
      raise (if br.trips c.breaker then circuit_breaker_error "failure threshold reached" else e),
      record c { breaker = br.fail c.breaker },
    )

    abbrev pub after_call :
        Option (Result Response × Client B F) → Option (Result Response × Client B F)
    after_call none = none
    after_call (some o) = some (after o)

    -- `circuit_protected()`, where the breaker makes of the attempt what its record says: see `CountsCalls` for
    -- one that is told of the call of the async def only
    unfoldable pub protected :
        Option ℕ → Attempt F → Client B F → Option (Result Response × Client B F)
    protected token_estimate a c =
        if br.rejects c.breaker
        then some (raise (circuit_breaker_error "circuit breaker still open"), c)
        else after_call (make_request token_estimate a c)

    -- The loop over the attempts, from attempt `n`: it returns, or raises what the last attempt raised.
    -- It gives `none` where the environment has no further answer, or a limiter does not grant.
    unfoldable pub attempts :
        {max_retries : ℕ}
        → Retrying max_retries
        → Option ℕ
        → ℕ
        → List (Attempt F)
        → Client B F
        → Option (Result Response × Client B F)
    attempts retrying token_estimate n [] c = none
    attempts retrying token_estimate n (a ∷ rest) c =
        retry_if (retrying.again n) (attempts retrying token_estimate (suc n) rest)
          (protected token_estimate a c)

    unfoldable pub request :
        Unicode
        → {max_retries : ℕ} → Retrying max_retries
        → String
        → Option ℕ
        → List (Attempt F)
        → Client B F
        → Option (Result Response × Client B F)
    request u retrying url token_estimate answers c =
        translated_answer u url (attempts retrying token_estimate 1 answers c)
