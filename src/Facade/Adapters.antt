-- ===== src/Facade/Adapters.antt =====
-- `AdapterRegistry` of src/catalog/adapter_registry.py and `close` of src/client.py. An adapter is what its
-- lifecycle sees: its cache backend, by its number in the cache manager, and its HTTP clients.
use finpipe.Base.{
  ℕ, ◌==◌, Bool, true, false, Option, none, some, List, [], ◌∷◌, String, str_eq, Dict, lookup,
  insert, any, concat, if◌then◌else◌,
}
use finpipe.Errors.{Result, Done, ok, raise, attribute_error, key_error}
use finpipe.Cache.Manager.{CacheConfig, Manager, shutdown}

-- A `ResilientHttpClient` has an httpx client or a session of curl_cffi until it is closed.
pub record HttpClient : Type 0 where
  pub is_open : Bool

abbrev pub opened : HttpClient
opened = record { is_open = true }

-- `await client.<name>()`: of the class's methods, `close` is the one that takes no arguments.
unfoldable pub call_client : String → HttpClient → Result HttpClient
call_client name c =
    if str_eq name "close"
    then ok (record { is_open = false })
    else raise (
        attribute_error
          (concat "'ResilientHttpClient' object has no attribute '" (concat name "'")))

pub record Adapter : Type 0 where
  pub cache : Option ℕ
  pub clients : List HttpClient

-- The clients up to the first that raises.
unfoldable pub call_clients : String → List HttpClient → Done × List HttpClient
unfolding call_client
call_clients name [] = (ok tt, [])
call_clients name (c ∷ cs) = elim (call_client name c) [
  | raise e ↦ (raise e, c ∷ cs)
  | ok c' ↦ let rest = call_clients name cs in (rest.0, c' ∷ rest.1)
]

-- the method that an adapter's `close` calls on its clients
abbrev pub closing_method : String → String
closing_method key = if str_eq key "schwab" then "aclose" else "close"

abbrev pub with_clients : Adapter → Done × List HttpClient → Done × Adapter
with_clients a (r, cs) = (r, record a { clients = cs })

-- `close` of the adapter of a key, which is not TradingView's
unfoldable pub close_adapter : String → Adapter → Done × Adapter
unfolding call_clients
close_adapter key a = with_clients a (call_clients (closing_method key) a.clients)

abbrev pub stored : String → Dict Adapter → Done × Adapter → Done × Dict Adapter
stored key d (r, a) = (r, insert key a d)

-- the body of the loop over the keys
unfoldable pub close_key : String → Dict Adapter → Done × Dict Adapter
unfolding close_adapter
close_key key d = elim (lookup key d) [
  | none ↦ (ok tt, d)
  | some a ↦ stored key d (close_adapter key a)
]

abbrev pub and_then : {S : Type 0} → Done × S → (S → Done × S) → Done × S
and_then (raise e, s) next = (raise e, s)
and_then (ok x, s) next = next s

unfoldable pub close_keys : List String → Dict Adapter → Done × Dict Adapter
unfolding close_key
close_keys [] d = (ok tt, d)
close_keys (key ∷ keys) d = and_then (close_key key d) (close_keys keys)

abbrev pub closed_keys : List String
closed_keys =
    "alpha_vantage" ∷ "massive" ∷ "fred" ∷ "screener" ∷ "sentiment" ∷ "groq" ∷ "gemini" ∷ "nvidia"
    ∷ "schwab" ∷ []

-- The caches of adapters, each closed once: the numbers closed, the last first, before and after.
unfoldable pub close_caches : Dict Adapter → List ℕ → List ℕ → List ℕ
close_caches [] mine closed = closed
close_caches ((key, a) ∷ d) mine closed = elim a.cache [
  | none ↦ close_caches d mine closed
  | some n ↦
      if any (λ m. m == n) mine
      then close_caches d mine closed
      else close_caches d (n ∷ mine) (n ∷ closed)
]

-- `TradingViewAdapter.close` closes the screener, which it shares.
unfoldable pub close_tradingview : Dict Adapter → Done × Dict Adapter
unfolding close_key
close_tradingview d = elim (lookup "tradingview" d) [
  | none ↦ (ok tt, d)
  | some a ↦ close_key "screener" d
]

pub record Client : Type 0 where
  pub cache : CacheConfig
  pub adapters : Dict Adapter
  pub manager : Manager

abbrev pub with_adapters : Client → Done × Dict Adapter → Done × Client
with_adapters f (r, d) = (r, record f { adapters = d })

-- `AdapterRegistry.close`
unfoldable pub close_registry : Client → Done × Client
unfolding close_caches close_keys close_tradingview
close_registry f =
    let m =
      if f.cache.singleton
      then f.manager
      else record f.manager { closed = close_caches f.adapters [] f.manager.closed } in
    with_adapters (record f { manager = m })
      (and_then (close_keys closed_keys f.adapters) close_tradingview)

-- `Client.close`
unfoldable pub close_client : Client → Done × Client
unfolding close_registry
close_client f =
    and_then (close_registry f)
      (λ g. (ok tt, if g.cache.singleton then record g { manager = shutdown g.manager } else g))

-- `AdapterRegistry.get`
unfoldable pub get_adapter : Dict Adapter → String → Result Adapter
get_adapter d name = elim (lookup name d) [
  | none ↦ raise (key_error (concat "Unknown adapter key: " name))
  | some a ↦ ok a
]

-- `{key: self._adapters[key] for key in keys}` of `equity_adapters` and `options_adapters`
unfoldable pub chosen : List String → Dict Adapter → Result (Dict Adapter)
chosen [] d = ok []
chosen (key ∷ keys) d = elim (lookup key d) [
  | none ↦ raise (key_error key)
  | some a ↦ elim (chosen keys d) [ raise e ↦ raise e | ok rest ↦ ok ((key, a) ∷ rest) ]
]
