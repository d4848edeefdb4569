-- ===== src/Yahoo/Cached.antt =====
-- What the methods of src/providers/yahoo.py share that go through the cache.
use finpipe.Base.{ℕ, Option, none, some, List, String}
use finpipe.Errors.{Result, ok, raise, ◌>>=◌}
use finpipe.Float.{Float}
use finpipe.Cache.Backend.{Backend}
use finpipe.Resilience.{Retries, Breaker}
use finpipe.Yahoo.Guarded.{is_any, Guard, execute_with_resilience}

pub record State (S B F : Type 0) : Type 0 where
  pub cache : S
  pub guard : Guard B F

module _ {S B F : Type 0} where
  -- a call behind the limiter and the breaker, on the state
  abbrev pub with_cache :
      {A : Type 0} → S → Option (Result A × Guard B F) → Option (Result A × State S B F)
  with_cache s none = none
  with_cache s (some (r, g)) = some (r, record { cache = s; guard = g })

  -- one call after the other
  abbrev pub and_then :
      {A C : Type 0}
      → (A → State S B F → Option (Result C × State S B F))
      → Option (Result A × State S B F)
      → Option (Result C × State S B F)
  and_then next none = none
  and_then next (some (raise e, s)) = some (raise e, s)
  and_then next (some (ok a, s)) = next a s

  module _ ⦃fl : Float F⦄ (br : Breaker B F) {max_retries : ℕ}
      (retrying : Retries is_any max_retries) where
    unfoldable pub execute :
        {A : Type 0} → F → List (Result A) → State S B F → Option (Result A × State S B F)
    unfolding execute_with_resilience
    execute now answers s =
        with_cache s.cache (execute_with_resilience br retrying now answers s.guard)

module _ {S V B F : Type 0} where
  -- `cached = self._cache.get(key)`, and what follows a hit and a miss
  abbrev pub hit_or :
      {A : Type 0}
      → (V → Result A)
      → (State S B F → Option (Result A × State S B F))
      → Guard B F
      → Option V × S
      → Option (Result A × State S B F)
  hit_or load fetched g (some cached, s) = some (load cached, record { cache = s; guard = g })
  hit_or load fetched g (none, s) = fetched (record { cache = s; guard = g })

module _ {S V B F : Type 0} ⦃fl : Float F⦄ (b : Backend S V F) where
  -- What was fetched becomes a value, which is put into the cache if `dump` gives something for it.
  abbrev pub keep :
      {A : Type 0}
      → F
      → String
      → ℕ
      → (A → Option V)
      → State S B F
      → Result A
      → Result A × State S B F
  keep now key ttl dump s (raise e) = (raise e, s)
  keep now key ttl dump s (ok a) = elim (dump a) [
    | none ↦ (ok a, s)
    | some v ↦ (ok a, record s { cache = b.set now key v (fl.lit ttl 0) s.cache })
  ]

  abbrev pub kept :
      {A C : Type 0}
      → F
      → String
      → ℕ
      → (C → Option V)
      → (A → Result C)
      → Option (Result A × State S B F)
      → Option (Result C × State S B F)
  kept now key ttl dump read none = none
  kept now key ttl dump read (some (r, s)) = some (keep now key ttl dump s (r >>= read))
