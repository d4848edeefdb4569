-- ===== src/Fetch.antt =====
-- How the adapters fetch: a call of a method as an action on the cache, with what it returns or raises. One
-- call reads the clock once. What a request comes to is the response's content or what was raised.
pub mod Through
use finpipe.Base.{ℕ, Option, none, some, String}
use finpipe.Errors.{Exn, Result, ok, raise}
use finpipe.Float.{Float}
use finpipe.Cache.Backend.{Backend}

abbrev pub Action : Type 0 → Type 0 → Type 0
Action S A = S → Result A × S

module _ {S V F A : Type 0} ⦃fl : Float F⦄ (b : Backend S V F) where
  -- What follows a miss: the handler's answer to a failure, or the value, which is put into the cache.
  abbrev pub store : F → String → ℕ → (A → V) → (Exn → Result A) → Result A × S → Result A × S
  store now key ttl encode handler (ok a, s) = (ok a, b.set now key (encode a) (fl.lit ttl 0) s)
  store now key ttl encode handler (raise e, s) = (handler e, s)

  abbrev pub hit_or :
      F
      → String
      → ℕ
      → (V → Result A)
      → (A → V)
      → (Exn → Result A)
      → Action S A
      → Option V × S
      → Result A × S
  hit_or now key ttl decode encode handler fetched (some cached, s) = (decode cached, s)
  hit_or now key ttl decode encode handler fetched (none, s) =
      store now key ttl encode handler (fetched s)

  -- The body that the methods share: `cached = self._cache.get(key)`; where that is not None its decoding is
  -- returned, else the value is fetched and set.
  unfoldable pub through_cache :
      F → String → ℕ → (V → Result A) → (A → V) → (Exn → Result A) → Action S A → Action S A
  through_cache now key ttl decode encode handler fetched s =
      hit_or now key ttl decode encode handler fetched (b.get now key s)
