-- ===== src/Yahoo/Guarded.antt =====
-- `_execute_with_resilience` of src/providers/yahoo.py: one acquisition of the limiter, then attempts behind the
-- circuit breaker.
use finpipe.Base.{ℕ, suc, Bool, true, Option, none, some, List, [], ◌∷◌, if◌then◌else◌}
use finpipe.Errors.{Exn, provider_down, circuit_breaker_error, Result, ok, raise}
use finpipe.Float.{Float}
use finpipe.Limiter.Adaptive.{Limiter, acquire, record_success}
use finpipe.Resilience.{Retries, Breaker, retry_if}

-- `retry_if_exception_type(Exception)`
abbrev pub is_any : Exn → Bool
is_any e = true

pub record Guard (B F : Type 0) : Type 0 where
  pub breaker : B
  pub limiter : Limiter F

abbrev pub translate : Exn → Exn
translate (circuit_breaker_error m) = provider_down "Yahoo Finance Circuit breaker tripped"
translate e = e

module _ {A B F : Type 0} ⦃fl : Float F⦄ where
  abbrev pub translated : Option (Result A × Guard B F) → Option (Result A × Guard B F)
  translated none = none
  translated (some (ok a, g)) = some (ok a, g)
  translated (some (raise e, g)) = some (raise (translate e), g)

  -- `_run`, where the function called comes to `answer`
  unfoldable pub run : Result A → Guard B F → Result A × Guard B F
  run (ok a) g = (ok a, record g { limiter = record_success g.limiter })
  run (raise e) g = (raise e, g)

  module _ (br : Breaker B F) where
    abbrev pub after : Result A × Guard B F → Result A × Guard B F
    after (ok a, g) = (ok a, record g { breaker = br.succeed g.breaker })
    after (raise e, g) = (
      raise (if br.trips g.breaker then circuit_breaker_error "failure threshold reached" else e),
      record g { breaker = br.fail g.breaker },
    )

    -- `circuit_protected()`, where the breaker makes of the attempt what its record says; `_run` is an async def,
    -- for which see `CountsCalls` in Resilience.antt
    unfoldable pub protected : Result A → Guard B F → Result A × Guard B F
    unfolding run
    protected answer g =
        if br.rejects g.breaker
        then (raise (circuit_breaker_error "circuit breaker still open"), g)
        else after (run answer g)

    -- The loop over the attempts, from attempt `n`, whose calls come to `answers`.
    unfoldable pub attempts :
        {max_retries : ℕ}
        → Retries is_any max_retries
        → ℕ
        → List (Result A)
        → Guard B F
        → Option (Result A × Guard B F)
    unfolding protected
    attempts retrying n [] g = none
    attempts retrying n (answer ∷ rest) g =
        retry_if (retrying.again n) (attempts retrying (suc n) rest) (some (protected answer g))

    unfoldable pub execute_with_resilience :
        {max_retries : ℕ}
        → Retries is_any max_retries
        → F
        → List (Result A)
        → Guard B F
        → Option (Result A × Guard B F)
    unfolding attempts
    execute_with_resilience retrying now answers g =
        translated (attempts retrying 1 answers (record g { limiter = (acquire now g.limiter).0 }))
