-- ===== src/Schwab/Misses.antt =====
-- The operations of src/providers/schwab.py on a miss: they meet `_get`, which makes no request.
use finpipe.Base.{arith, ℕ, ◌≡◌, refl, ap, Option, none, some, String}
use finpipe.Errors.{Exn, Result, ok, raise, attribute_error, provider_down, ◌>>=◌}
use finpipe.Float.{Float}
use finpipe.Json.{Json, null, Fields}
use finpipe.Cache.Backend.{Backend}
use finpipe.Fetch.{Action, through_cache}
use finpipe.Fetch.Through.{through_cache_failed}
use finpipe.Options.{Python, read_date, Query}
use finpipe.Schwab.{
  invoke, Web, Tokens, token_data, granted, token_or, get_access_token, with_token, get_endpoint,
}
use finpipe.Schwab.Replies.{Ttls, Values, read_price, symbols_param, read_metadata, read_chain}
use finpipe.Schwab.Operations.{
  chain_key, spot_key, metadata_key, read_with, priced, price_or, get_live_spot_price,
  fetch_metadata, get_metadata, fetch_chain, get_options_chain, fetch_options_contracts,
  fetch_options_snapshot, chain_params,
}

module _ {S V F : Type 0} ⦃fl : Float F⦄ (b : Backend S V F) (t : Tokens V F) (web : Web) where
  -- what `_get` raises, of what the cache holds as the token
  abbrev pub refused_with : Option String → Exn
  refused_with none = provider_down "Schwab OAuth failed"
  refused_with (some token) = attribute_error "'ResilientHttpClient' object has no attribute 'get'"

  abbrev pub refused : Option V → Exn
  refused none = provider_down "Schwab OAuth failed"
  refused (some v) = refused_with (t.load_token v)

  -- What `_get` comes to from a state of the cache: AttributeError where it holds a token, and else
  -- FinpipeProviderDownError, and nothing is set.
  abbrev pub Unreached : {A : Type 0} → F → S → Result A × S → Type 0
  Unreached now s o =
      (o.0 ≡ raise (refused (b.get now "schwab_access_token" s).0))
      × (o.1 ≡ (b.get now "schwab_access_token" s).1)

  get_endpoint-raises :
      (endpoint : String) (params : Fields) (now : F) (s : S)
      → Unreached now s (get_endpoint b t web endpoint params now s)
  unfolding get_endpoint get_access_token token_data invoke
  get_endpoint-raises endpoint params now s = either (b.get now "schwab_access_token" s)
    where
      either :
          (o : Option V × S)
          → ((with_token b t web endpoint params (token_or b t web now o)).0 ≡ raise (refused o.0))
            × ((with_token b t web endpoint params (token_or b t web now o)).1 ≡ o.1)
      either (none, s') = (refl, refl)
      either (some v, s') = loaded (t.load_token v)
        where
          loaded :
              (token : Option String)
              → ((with_token b t web endpoint params (elim token [
                | some x ↦ (ok x, s')
                | none ↦ granted b t web now s' (token_data b t web)
              ])).0
                  ≡ raise (refused_with token))
                × ((with_token b t web endpoint params (elim token [
                  | some x ↦ (ok x, s')
                  | none ↦ granted b t web now s' (token_data b t web)
                ])).1
                    ≡ s')
          loaded none = (refl, refl)
          loaded (some x) = (refl, refl)

  read_with-Unreached :
      {A C : Type 0} (f : A → Result C) (now : F) (s : S) (o : Result A × S)
      → Unreached now s o
      → Unreached now s (read_with f o)
  read_with-Unreached f now s (r, s') (e, k) = (ap (λ x. x >>= f) e, k)

  through_cache-raises :
      {A : Type 0} (key : String) (ttl : ℕ) (load : V → Result A) (dump : A → V) (now : F)
      (fetched : Action S A) (s : S) (e : Exn)
      → (b.get now key s).0 ≡ none
      → (fetched (b.get now key s).1).0 ≡ raise e
      → through_cache b now key ttl load dump raise fetched s
        ≡ (raise e, (fetched (b.get now key s).1).1)
  through_cache-raises key ttl load dump now fetched s e miss h =
      through_cache_failed b key ttl load dump raise now e fetched s (fetched (b.get now key s).1).1
        miss (ap (λ r. (r, (fetched (b.get now key s).1).1)) h)

  through_cache-Unreached :
      {A : Type 0} (key : String) (ttl : ℕ) (load : V → Result A) (dump : A → V) (now : F)
      (fetched : Action S A) (s : S)
      → (b.get now key s).0 ≡ none
      → Unreached now (b.get now key s).1 (fetched (b.get now key s).1)
      → Unreached now (b.get now key s).1 (through_cache b now key ttl load dump raise fetched s)
  through_cache-Unreached key ttl load dump now fetched s miss (e, k) =
      rw (through_cache-raises key ttl load dump now fetched s _ miss e) (refl, k)

  module _ (vs : Values V F) (py : Python F) (ttls : Ttls) where
    priced-Unreached :
        (key : String) (now : F) (s : S) (o : Result Json × S)
        → Unreached now s o
        → Unreached now s (priced b t web vs py ttls now key o)
    priced-Unreached key now s (ok null, s') u = u
    priced-Unreached key now s (ok price, s') (e, k) = absurd (ground arith)
    priced-Unreached key now s (raise x, s') u = u

    spot-Unreached :
        (symbol : String) (now : F) (s : S)
        → (b.get now (spot_key symbol) s).0 ≡ none
        → Unreached now
            (b.get now (spot_key symbol) s).1
            (get_live_spot_price b t web vs py ttls symbol now s)
    unfolding get_live_spot_price
    spot-Unreached symbol now s miss = missed (b.get now (spot_key symbol) s) miss
      where
        missed :
            (o : Option V × S)
            → o.0 ≡ none
            → Unreached now o.1 (price_or b t web vs py ttls symbol now o)
        missed (none, s') h =
            priced-Unreached (spot_key symbol) now s'
              (read_with (read_price symbol)
                (get_endpoint b t web "quotes" (symbols_param symbol) now s'))
              (read_with-Unreached (read_price symbol) now s'
                (get_endpoint b t web "quotes" (symbols_param symbol) now s')
                (get_endpoint-raises "quotes" (symbols_param symbol) now s'))
        missed (some v, s') h = absurd (ground arith)

    metadata-Unreached :
        (symbol : String) (now : F) (s : S)
        → (b.get now (metadata_key symbol) s).0 ≡ none
        → Unreached now
            (b.get now (metadata_key symbol) s).1
            (get_metadata b t web vs py ttls symbol now s)
    unfolding get_metadata
    metadata-Unreached symbol now s miss =
        through_cache-Unreached (metadata_key symbol) ttls.metadata_sec vs.load_metadata
          vs.dump_metadata now (fetch_metadata b t web vs py ttls symbol now) s miss
          (read_with-Unreached (read_metadata vs.validate_metadata symbol) now _ _ (
            get_endpoint-raises "quotes" (symbols_param symbol) now
              (b.get now (metadata_key symbol) s).1))

    chain-Unreached :
        (symbol : String) (expiration_date : Option String) (now : F) (s : S)
        → (b.get now (chain_key symbol expiration_date) s).0 ≡ none
        → Unreached now
            (b.get now (chain_key symbol expiration_date) s).1
            (get_options_chain b t web vs py ttls symbol expiration_date now s)
    unfolding get_options_chain
    chain-Unreached symbol expiration_date now s miss =
        through_cache-Unreached (chain_key symbol expiration_date) ttls.options_chain_sec
          vs.load_chain vs.dump_chain now
          (fetch_chain b t web vs py ttls symbol expiration_date now) s miss
          (read_with-Unreached (read_chain py symbol expiration_date) now _ _ (
            get_endpoint-raises "chains" (chain_params symbol expiration_date) now
              (b.get now (chain_key symbol expiration_date) s).1))

    -- No request of the adapter is ever made. Whatever the services would answer, a price, metadata, a chain,
    -- its contracts and its snapshot that the cache does not answer raise AttributeError where a token is in the
    -- cache, and else FinpipeProviderDownError, and nothing is put into the cache.
    pub operations_raise :
        (symbol : String) (asked expiration_date : Option String) (q : Query F) (now : F) (s : S)
        → (b.get now (spot_key symbol) s).0 ≡ none
        → (b.get now (metadata_key symbol) s).0 ≡ none
        → (b.get now (chain_key symbol none) s).0 ≡ none
        → (b.get now (chain_key symbol expiration_date) s).0 ≡ none
        → read_date py asked ≡ ok expiration_date
        → Unreached now
            (b.get now (spot_key symbol) s).1
            (get_live_spot_price b t web vs py ttls symbol now s)
          × Unreached now
              (b.get now (metadata_key symbol) s).1
              (get_metadata b t web vs py ttls symbol now s)
          × Unreached now
              (b.get now (chain_key symbol expiration_date) s).1
              (get_options_chain b t web vs py ttls symbol expiration_date now s)
          × Unreached now
              (b.get now (chain_key symbol none) s).1
              (fetch_options_contracts b t web vs py ttls symbol now s)
          × Unreached now
              (b.get now (chain_key symbol expiration_date) s).1
              (fetch_options_snapshot b t web vs py ttls symbol asked q now s)
    unfolding fetch_options_contracts fetch_options_snapshot
    operations_raise symbol asked expiration_date q now s spot metadata first chain dated = (
      spot-Unreached symbol now s spot,
      metadata-Unreached symbol now s metadata,
      chain-Unreached symbol expiration_date now s chain,
      read_with-Unreached _ now _ _ (chain-Unreached symbol none now s first),
      rw dated (read_with-Unreached _ now _ _ (chain-Unreached symbol expiration_date now s chain)),
    )
