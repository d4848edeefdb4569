-- ===== src/Facade/Build.antt =====
-- The construction of the adapters: `AdapterRegistry._build` of src/catalog/adapter_registry.py, with the
-- constructors of the adapters as far as their lifecycle goes.
use finpipe.Base.{ℕ, zero, suc, none, some, List, [], ◌∷◌, String, Dict}
use finpipe.Errors.{Result, Done, ok, raise}
use finpipe.Cache.Manager.{CacheConfig, Opened, Manager, resolve_cache_backend}
use finpipe.Config.Required.{
  KeyConfig, MassiveConfig, SchwabConfig, fred_configured, alpha_vantage_configured,
  groq_configured, gemini_configured, nvidia_configured, massive_configured, schwab_configured,
}
use finpipe.Facade.Adapters.{HttpClient, opened, Adapter, Client}

pub record ProviderConfigs : Type 0 where
  pub alpha_vantage : KeyConfig
  pub massive : MassiveConfig
  pub fred : KeyConfig
  pub groq : KeyConfig
  pub gemini : KeyConfig
  pub nvidia : KeyConfig
  pub schwab : SchwabConfig

-- A constructor: what `ensure_configured` comes to, and how many HTTP clients it creates.
pub record Plan : Type 0 where
  pub name : String
  pub configured : Done
  pub sources : ℕ

abbrev pub open_clients : ℕ → List HttpClient
open_clients zero = []
open_clients (suc n) = opened ∷ open_clients n

abbrev pub adapter_on : ℕ → Result ℕ × Manager → Result Adapter × Manager
adapter_on n (raise e, m) = (raise e, m)
adapter_on n (ok backend, m) = (ok (record { cache = some backend; clients = open_clients n }), m)

-- `new_backend` is what becomes of a new SQLite cache.
unfoldable pub construct : Opened → CacheConfig → Plan → Manager → Result Adapter × Manager
construct new_backend cache plan m = elim plan.configured [
  | raise e ↦ (raise e, m)
  | ok done ↦ adapter_on plan.sources (resolve_cache_backend new_backend cache m)
]

abbrev pub entered :
    String → Adapter → Result (Dict Adapter) × Manager → Result (Dict Adapter) × Manager
entered key a (raise e, m) = (raise e, m)
entered key a (ok d, m) = (ok ((key, a) ∷ d), m)

abbrev pub next_one :
    String
    → Result Adapter × Manager
    → (Manager → Result (Dict Adapter) × Manager)
    → Result (Dict Adapter) × Manager
next_one key (raise e, m) next = (raise e, m)
next_one key (ok a, m) next = entered key a (next m)

unfoldable pub construct_all :
    Opened
    → CacheConfig
    → List Plan
    → (Manager → Result (Dict Adapter) × Manager)
    → Manager
    → Result (Dict Adapter) × Manager
unfolding construct
construct_all new_backend cache [] next m = next m
construct_all new_backend cache (plan ∷ plans) next m =
    next_one plan.name (construct new_backend cache plan m)
      (construct_all new_backend cache plans next)

-- the adapters before and after the screener and TradingView's, in the dict's order, and the last one
unfoldable pub first_plans : ProviderConfigs → List Plan
unfolding alpha_vantage_configured massive_configured fred_configured
first_plans c =
    record { name = "yahoo"; configured = ok tt; sources = 0 }
    ∷ record {
      name = "alpha_vantage";
      configured = alpha_vantage_configured c.alpha_vantage;
      sources = 1;
    }
    ∷ record { name = "massive"; configured = massive_configured c.massive; sources = 1 }
    ∷ record { name = "fred"; configured = fred_configured c.fred; sources = 1 }
    ∷ []

unfoldable pub last_plans : ProviderConfigs → List Plan
unfolding groq_configured gemini_configured nvidia_configured
last_plans c =
    record { name = "sentiment"; configured = ok tt; sources = 3 }
    ∷ record { name = "groq"; configured = groq_configured c.groq; sources = 1 }
    ∷ record { name = "gemini"; configured = gemini_configured c.gemini; sources = 1 }
    ∷ record { name = "nvidia"; configured = nvidia_configured c.nvidia; sources = 1 }
    ∷ []

unfoldable pub schwab_plan : ProviderConfigs → Plan
unfolding schwab_configured
schwab_plan c = record { name = "schwab"; configured = schwab_configured c.schwab; sources = 1 }

abbrev pub with_screener :
    Opened
    → CacheConfig
    → ProviderConfigs
    → Result Adapter × Manager
    → Result (Dict Adapter) × Manager
with_screener new_backend cache c (raise e, m) = (raise e, m)
with_screener new_backend cache c (ok screener, m) =
    construct_all new_backend cache (first_plans c)
      (λ m1. entered "screener" screener (
        entered "tradingview" (record { cache = none; clients = [] })
          (construct_all new_backend cache (last_plans c)
            (construct_all new_backend cache (schwab_plan c ∷ []) (λ m2. (ok [], m2))) m1)))
      m

-- `_build`: the screener first
unfoldable pub build :
    Opened → CacheConfig → ProviderConfigs → Manager → Result (Dict Adapter) × Manager
unfolding construct construct_all first_plans last_plans schwab_plan
build new_backend cache c m =
    with_screener new_backend cache c (
      construct new_backend cache (record { name = "screener"; configured = ok tt; sources = 4 }) m)

abbrev pub client_on : CacheConfig → Result (Dict Adapter) × Manager → Result Client × Manager
client_on cache (raise e, m) = (raise e, m)
client_on cache (ok adapters, m) =
    (ok (record { cache = cache; adapters = adapters; manager = m }), m)

-- `Client(config)`
unfoldable pub create_client :
    Opened → CacheConfig → ProviderConfigs → Manager → Result Client × Manager
unfolding build
create_client new_backend cache c m = client_on cache (build new_backend cache c m)
