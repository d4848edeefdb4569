-- ===== src/Resilience/Created.antt =====
-- The requests of a client as `create_resilient_http_client` of src/network/resilience.py makes it.
use finpipe.Base.{
  ℕ, suc, ◌≤◌, ◌≡◌, refl, ◌∙◌, ap, true, false, Option, none, some, List, [], ◌∷◌, length, String,
  Dict,
}
use finpipe.Base
use finpipe.Errors.{Result}
use finpipe.Float.{Float, less}
use finpipe.Text.{Unicode}
use finpipe.Limiter.Tuning.{IsTuned, init-IsTuned}
use finpipe.Limiter.Buckets.{RpmTpm, new_limiter}
use finpipe.Limiter.Starvation.{acquire_llm_starves}
use finpipe.Resilience.Limits.{
  RateLimitConfig, Minute, unlimited, tokens, tokens_asked, with_tokens, minute_limits, limit_of,
  requests_limit, acquire_minute,
}
use finpipe.Resilience.{
  Retrying, Breaker, Response, Attempt, Client, make_request, protected, attempts, request,
  create_client,
}
use finpipe.Resilience.Outcomes.{Delivered}
use finpipe.Resilience.Endings.{Granting, request_delivers}

module _ {F : Type 0} ⦃fl : Float F⦄ where
  minute_limits-none :
      (config : RateLimitConfig F) (now : F)
      → config.max_requests_per_minute ≡ none
      → config.max_tokens_per_minute ≡ none
      → minute_limits config now ≡ unlimited
  unfolding minute_limits
  minute_limits-none config now rpm tpm =
      ap (λ t. limit_of config.max_requests_per_minute t now) tpm
      ∙ ap (λ r. requests_limit r now) rpm

  minute_limits-tokens :
      (config : RateLimitConfig F) (now : F) (tpm : ℕ)
      → config.max_tokens_per_minute ≡ some tpm
      → minute_limits config now ≡ tokens (new_limiter config.max_requests_per_minute tpm now)
  unfolding minute_limits
  minute_limits-tokens config now tpm h = ap (λ t. limit_of config.max_requests_per_minute t now) h

  unlimited-Granting :
      (token_estimate : Option ℕ) (answers : List (Attempt F)) (m : Minute F)
      → m ≡ unlimited
      → Granting token_estimate answers m
  unfolding acquire_minute
  unlimited-Granting token_estimate [] m h = tt
  unlimited-Granting token_estimate (a ∷ rest) m h =
      let later = unlimited-Granting token_estimate rest m h in
      (later, (m, ap (acquire_minute token_estimate a.clock) h ∙ ap some (Base.sym h), later))

  minute_starves :
      (token_estimate : Option ℕ) (clock : List F) (l : RpmTpm F)
      → less l.tok_capacity (fl.lit (Base.max 1 (tokens_asked token_estimate)) 0) ≡ true
      → acquire_minute token_estimate clock (tokens l) ≡ none
  unfolding acquire_minute
  minute_starves token_estimate clock l h =
      ap with_tokens (acquire_llm_starves (tokens_asked token_estimate) clock l h)

  module _ {B : Type 0} (br : Breaker B F) where
    -- A new client without limits per minute, whatever its other settings and the stored rates are: a
    -- request ends within `max_retries` attempts (or one, where that is zero), with a status below 400 or an
    -- exception that is neither of httpx nor of pybreaker, and leaves a tuned limiter.
    created_delivers :
        (u : Unicode) (namespace : String) (config : RateLimitConfig F) (transport : String)
        (rates : Dict F) (now : F) (retrying : Retrying config.max_retries) (url : String)
        (token_estimate : Option ℕ) (a : Attempt F) (rest : List (Attempt F))
        → config.max_requests_per_minute ≡ none
        → config.max_tokens_per_minute ≡ none
        → config.max_retries ≤ suc (length rest)
        → (o : Result Response × Client B F) × (request br u retrying url token_estimate
              (a ∷ rest)
              (create_client br namespace config transport rates now)
            ≡ some o)
          × Delivered o.0
          × IsTuned o.1.limiter
    unfolding create_client
    created_delivers u namespace config transport rates now retrying url token_estimate a rest rpm
          tpm h =
        request_delivers br u retrying url token_estimate a rest
          (create_client br namespace config transport rates now)
          (init-IsTuned namespace config.max_requests_per_second rates now)
          (unlimited-Granting token_estimate (a ∷ rest) (minute_limits config now)
            (minute_limits-none config now rpm tpm))
          h

    starved :
        (u : Unicode) {max_retries : ℕ} (retrying : Retrying max_retries) (url : String)
        (token_estimate : Option ℕ) (answers : List (Attempt F)) (c : Client B F)
        → br.rejects c.breaker ≡ false
        → ((clock : List F) → acquire_minute token_estimate clock c.minute ≡ none)
        → request br u retrying url token_estimate answers c ≡ none
    unfolding request attempts protected make_request
    starved u retrying url token_estimate [] c shut never = refl
    starved u retrying url token_estimate (a ∷ rest) c shut never =
        rw (shut, protected) (rw (never a.clock, make_request) refl)

    -- A new client with a limit of tokens per minute that is below the estimate for a request: the request
    -- comes to no end, whatever the clock reads in however many rounds.
    pub created_starves :
        (u : Unicode) (namespace : String) (config : RateLimitConfig F) (transport : String)
        (rates : Dict F) (now : F) (retrying : Retrying config.max_retries) (url : String)
        (token_estimate : Option ℕ) (answers : List (Attempt F)) (tpm : ℕ)
        → config.max_tokens_per_minute ≡ some tpm
        → less (fl.lit tpm 0) (fl.lit (Base.max 1 (tokens_asked token_estimate)) 0) ≡ true
        → request br u retrying url token_estimate answers
            (create_client br namespace config transport rates now)
          ≡ none
    unfolding create_client new_limiter
    created_starves u namespace config transport rates now retrying url token_estimate answers tpm h
          k =
        starved u retrying url token_estimate answers
          (create_client br namespace config transport rates now)
          (br.created_closed config.circuit_breaker_failure_threshold
            config.circuit_breaker_recovery_timeout_sec)
          (λ clock.
            ap (acquire_minute token_estimate clock) (minute_limits-tokens config now tpm h)
            ∙ minute_starves token_estimate clock
                (new_limiter config.max_requests_per_minute tpm now) k)
