-- ===== src/Facade/Built.antt =====
-- What is built is not closed: the construction of a client and its `close` (src/client.py,
-- src/catalog/adapter_registry.py).
use finpipe.Base.{
  ℕ, ◌≡◌, refl, ◌∙◌, true, false, not, none, some, List, [], ◌∷◌, String, str_eq, Dict, lookup,
  contains, all, arith,
}
use finpipe.Errors.{Result, Done, ok, raise}
use finpipe.Cache.Manager.{CacheConfig, Opened, Manager, resolve_cache_backend}
use finpipe.Facade.Adapters.{opened, Adapter, Client, close_client}
use finpipe.Facade.Build.{
  ProviderConfigs, Plan, open_clients, adapter_on, construct, entered, next_one, construct_all,
  first_plans, last_plans, schwab_plan, with_screener, build, client_on, create_client,
}
use finpipe.Facade.Loops.{no_aclose, closed_at}
use finpipe.Facade.Closing.{first_keys, close_client-raises}

-- the last adapter of what a construction gives
module _ (new_backend : Opened) (cache : CacheConfig) where
  entered-ok :
      (key : String) (a : Adapter) (r : Result (Dict Adapter) × Manager) (d : Dict Adapter)
      (m : Manager)
      → entered key a r ≡ (ok d, m)
      → (rest : Dict Adapter) × (r ≡ (ok rest, m)) × (d ≡ (key, a) ∷ rest)
  entered-ok key a (ok rest, m') d m h = (rest, ground arith, ground arith)
  entered-ok key a (raise e, m') d m h = absurd (ground arith)

  next_one-ok :
      (key : String) (r : Result Adapter × Manager)
      (next : Manager → Result (Dict Adapter) × Manager) (d : Dict Adapter) (m : Manager)
      → next_one key r next ≡ (ok d, m)
      → (a : Adapter) × (m1 : Manager) × (rest : Dict Adapter) × (r ≡ (ok a, m1))
        × (next m1 ≡ (ok rest, m))
        × (d ≡ (key, a) ∷ rest)
  next_one-ok key (ok a, m1) next d m h =
      let (rest, e, shape) = entered-ok key a (next m1) d m h in (a, m1, rest, refl, e, shape)
  next_one-ok key (raise e, m1) next d m h = absurd (ground arith)

  -- The adapters that a list of constructors adds, none of which is Schwab's, leave Schwab's where it is.
  construct_all-schwab :
      (plans : List Plan) (next : Manager → Result (Dict Adapter) × Manager) (m m' : Manager)
      (d : Dict Adapter)
      → all (λ p. not (str_eq p.name "schwab")) plans ≡ true
      → construct_all new_backend cache plans next m ≡ (ok d, m')
      → (m1 : Manager) × (rest : Dict Adapter) × (next m1 ≡ (ok rest, m'))
        × (lookup "schwab" d ≡ lookup "schwab" rest)
  unfolding construct_all
  construct_all-schwab [] next m m' d others h = (m, d, h, refl)
  construct_all-schwab (p ∷ plans) next m m' d others h =
      let (a, m1, rest, e, e', shape) =
        next_one-ok p.name (construct new_backend cache p m)
          (construct_all new_backend cache plans next) d m' h in
      let (m2, rest', e2, same) = construct_all-schwab plans next m1 m' rest (ground arith) e' in
      let other : str_eq p.name "schwab" ≡ false = ground arith in
      (m2, rest', e2, rw shape (rw other same))

  adapter_on-clients :
      (n : ℕ) (r : Result ℕ × Manager) (a : Adapter) (m : Manager)
      → adapter_on n r ≡ (ok a, m)
      → a.clients ≡ open_clients n
  adapter_on-clients n (ok backend, m') a m h = ground arith
  adapter_on-clients n (raise e, m') a m h = absurd (ground arith)

  construct-clients :
      (p : Plan) (m m' : Manager) (a : Adapter)
      → construct new_backend cache p m ≡ (ok a, m')
      → a.clients ≡ open_clients p.sources
  unfolding construct
  construct-clients p m m' a h = clients p.configured h
    where
      clients :
          (r : Done)
          → (elim r [
            | raise e ↦ (raise e, m)
            | ok done ↦ adapter_on p.sources (resolve_cache_backend new_backend cache m)
          ])
            ≡ (ok a, m')
          → a.clients ≡ open_clients p.sources
      clients (ok done) h =
          adapter_on-clients p.sources (resolve_cache_backend new_backend cache m) a m' h
      clients (raise e) h = absurd (ground arith)

  schwab_found :
      (c : ProviderConfigs) (m m' : Manager) (d : Dict Adapter)
      → construct_all new_backend cache (schwab_plan c ∷ []) (λ m2. (ok [], m2)) m ≡ (ok d, m')
      → (a : Adapter) × (lookup "schwab" d ≡ some a) × (a.clients ≡ opened ∷ [])
  unfolding construct_all schwab_plan
  schwab_found c m m' d h =
      let (a, m1, rest, e, e', shape) =
        next_one-ok "schwab" (construct new_backend cache (schwab_plan c) m) (λ m2. (ok [], m2)) d
          m' h in
      (a, rw shape refl, construct-clients (schwab_plan c) m m1 a e)

  build-schwab :
      (c : ProviderConfigs) (m m' : Manager) (d : Dict Adapter)
      → build new_backend cache c m ≡ (ok d, m')
      → (a : Adapter) × (lookup "schwab" d ≡ some a) × (a.clients ≡ opened ∷ [])
  unfolding build first_plans last_plans
  build-schwab c m m' d h =
      behind
        (construct new_backend cache (record { name = "screener"; configured = ok tt; sources = 4 })
          m)
        h
    where
      behind :
          (r : Result Adapter × Manager)
          → with_screener new_backend cache c r ≡ (ok d, m')
          → (a : Adapter) × (lookup "schwab" d ≡ some a) × (a.clients ≡ opened ∷ [])
      behind (raise e, m1) h = absurd (ground arith)
      behind (ok screener, m1) h =
          let last = construct_all new_backend cache (schwab_plan c ∷ []) (λ m2. (ok [], m2)) in
          let tradingview : Adapter = record { cache = none; clients = [] } in
          let (m2, d2, e2, same2) =
            construct_all-schwab (first_plans c)
              (λ m3. entered "screener" screener (
                entered "tradingview" tradingview
                  (construct_all new_backend cache (last_plans c) last m3)))
              m1 m' d refl h in
          let (d3, e3, shape3) = entered-ok "screener" screener _ d2 m' e2 in
          let (d4, e4, shape4) = entered-ok "tradingview" tradingview _ d3 m' e3 in
          let (m5, d5, e5, same5) = construct_all-schwab (last_plans c) last m2 m' d4 refl e4 in
          let (a, found, clients) = schwab_found c m5 m' d5 e5 in
          (a, same2 ∙ rw shape3 (rw shape4 (same5 ∙ found)), clients)

  -- Whatever the configuration, a client that could be built cannot be closed: `close` raises
  -- AttributeError at Schwab's adapter, and does not shut the shared caches down. The adapters that it
  -- gets to before Schwab's are closed.
  pub create_client-close :
      (c : ProviderConfigs) (m m' : Manager) (f : Client)
      → create_client new_backend cache c m ≡ (ok f, m')
      → ((close_client f).0 ≡ raise no_aclose)
        × (f.cache.singleton ≡ true → (close_client f).1.manager ≡ f.manager)
        × ((j : String)
            → contains j first_keys ≡ true
            → closed_at j (close_client f).1.adapters ≡ true)
  unfolding create_client
  create_client-close c m m' f h = built (build new_backend cache c m) refl h
    where
      built :
          (r : Result (Dict Adapter) × Manager)
          → build new_backend cache c m ≡ r
          → client_on cache r ≡ (ok f, m')
          → ((close_client f).0 ≡ raise no_aclose)
            × (f.cache.singleton ≡ true → (close_client f).1.manager ≡ f.manager)
            × ((j : String)
                → contains j first_keys ≡ true
                → closed_at j (close_client f).1.adapters ≡ true)
      built (raise e, m1) b h = absurd (ground arith)
      built (ok d, m1) b h =
          let (a, found, clients) = build-schwab c m m1 d b in
          let same : d ≡ f.adapters = ground arith in
          close_client-raises f a opened [] (rw (← same) found) clients
