-- ===== src/Fetch/Through.antt =====
-- What a method that goes through the cache does on a hit, a failure and a success.
use finpipe.Base.{ℕ, ◌≡◌, refl, ap, ◌∙◌, false, Option, none, some, String, arith}
use finpipe.Errors.{Exn, Result, ok, raise}
use finpipe.Float.{Float, less}
use finpipe.Cache.Backend.{Backend}
use finpipe.Fetch.{Action, hit_or, through_cache}

module _ {S V F A : Type 0} ⦃fl : Float F⦄ (b : Backend S V F) (key : String) (ttl : ℕ)
    (decode : V → Result A) (encode : A → V) (handler : Exn → Result A) where
  -- what is in the cache is answered, and nothing is fetched
  through_cache_hit :
      (now : F) (fetched : Action S A) (s : S) (v : V)
      → (b.get now key s).0 ≡ some v
      → (through_cache b now key ttl decode encode handler fetched s).0 ≡ decode v
  unfolding through_cache
  through_cache_hit now fetched s v h = hit (b.get now key s) h
    where
      hit :
          (o : Option V × S)
          → o.0 ≡ some v
          → (hit_or b now key ttl decode encode handler fetched o).0 ≡ decode v
      hit (none, s') h = absurd (ground arith)
      hit (some w, s') h = ground arith

  -- a failure is not put into the cache
  pub through_cache_failed :
      (now : F) (e : Exn) (fetched : Action S A) (s s' : S)
      → (b.get now key s).0 ≡ none
      → fetched (b.get now key s).1 ≡ (raise e, s')
      → through_cache b now key ttl decode encode handler fetched s ≡ (handler e, s')
  unfolding through_cache
  through_cache_failed now e fetched s s' h f = missed (b.get now key s) h f
    where
      missed :
          (o : Option V × S)
          → o.0 ≡ none
          → fetched o.1 ≡ (raise e, s')
          → hit_or b now key ttl decode encode handler fetched o ≡ (handler e, s')
      missed (none, t) h f = rw f refl
      missed (some w, t) h f = absurd (ground arith)

  pub through_cache_fetched :
      (now : F) (a : A) (fetched : Action S A) (s s' : S)
      → (b.get now key s).0 ≡ none
      → fetched (b.get now key s).1 ≡ (ok a, s')
      → through_cache b now key ttl decode encode handler fetched s
        ≡ (ok a, b.set now key (encode a) (fl.lit ttl 0) s')
  unfolding through_cache
  through_cache_fetched now a fetched s s' h f = missed (b.get now key s) h f
    where
      missed :
          (o : Option V × S)
          → o.0 ≡ none
          → fetched o.1 ≡ (ok a, s')
          → hit_or b now key ttl decode encode handler fetched o
            ≡ (ok a, b.set now key (encode a) (fl.lit ttl 0) s')
      missed (none, t) h f = rw f refl
      missed (some w, t) h f = absurd (ground arith)

  -- What was fetched is answered again until it expires, whatever a request would come to by then.
  pub through_cache_again :
      (now later : F) (a : A) (fetched again : Action S A) (s s' : S)
      → (b.get now key s).0 ≡ none
      → fetched (b.get now key s).1 ≡ (ok a, s')
      → less (fl.add now (fl.lit ttl 0)) later ≡ false
      → (through_cache b later key ttl decode encode handler again
          (through_cache b now key ttl decode encode handler fetched s).1).0
        ≡ decode (encode a)
  through_cache_again now later a fetched again s s' h f fresh =
      ap (λ (o : Result A × S). (through_cache b later key ttl decode encode handler again o.1).0)
        (through_cache_fetched now a fetched s s' h f)
      ∙ through_cache_hit later again _ (encode a)
          (b.get-set now later (fl.lit ttl 0) key (encode a) s' ∙ rw fresh refl)
