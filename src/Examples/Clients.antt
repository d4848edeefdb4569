-- ===== src/Examples/Clients.antt =====
-- Runs of the facade (src/client.py, src/catalog/adapter_registry.py, src/providers/schwab.py).
use finpipe.Base.{ℕ, ◌≡◌, refl, true, false, ◌&&◌, none, some, [], ◌∷◌, String, Dict, contains}
use finpipe.Errors.{ok, raise, provider_down}
use finpipe.Float.{Float}
use finpipe.Json.{null}
use finpipe.Cache.Backend.{Backend}
use finpipe.Cache.Memory.{memory_backend, memory_get}
use finpipe.Cache.Manager.{
  CacheConfig, memory, usable, Manager, resolve_cache_backend, get_shared, add_shared, create,
  create_cache_backend, identity,
}
use finpipe.Config.Required.{
  KeyConfig, fred_configured, alpha_vantage_configured, groq_configured, gemini_configured,
  nvidia_configured, massive_configured, schwab_configured,
}
use finpipe.Facade.Adapters.{Client, Adapter, close_client}
use finpipe.Facade.Build.{
  ProviderConfigs, create_client, build, construct, construct_all, open_clients, first_plans,
  last_plans, schwab_plan,
}
use finpipe.Facade.Loops.{no_aclose, closed_at}
use finpipe.Facade.Closing.{first_keys}
use finpipe.Facade.Built.{create_client-close}
use finpipe.Facade.Configured.{is_ok, has_key, has_massive, has_schwab, create_client-ok}
use finpipe.Options.{Query}
use finpipe.Schwab.{Web, Tokens}
use finpipe.Schwab.Replies.{Ttls, Values}
use finpipe.Schwab.Operations.{
  chain_key, spot_key, metadata_key, get_live_spot_price, get_metadata, get_options_chain,
  fetch_options_contracts, fetch_options_snapshot,
}
use finpipe.Schwab.Misses.{Unreached, operations_raise}
use finpipe.Examples.Markets.{python}
use finpipe.Examples.Milli.{milli}
use finpipe.Examples.Setup.{unbounded}

instance thousandths : Float ℕ
thousandths = milli

abbrev off : KeyConfig
off = record { enabled = false; api_key = none }

-- FRED has a key, and all other providers that want keys are disabled.
abbrev providers : ProviderConfigs
providers = record {
  alpha_vantage = off;
  massive = record {
    enabled = false;
    api_key = none;
    access_key_id = none;
    secret_access_key = none;
    s3_endpoint = none;
    s3_bucket = none;
  };
  fred = record { enabled = true; api_key = some "k" };
  groq = off;
  gemini = off;
  nvidia = off;
  schwab = record { enabled = false; app_key = none; app_secret = none; refresh_token = none };
}

abbrev cache : CacheConfig
cache = record {
  cache_type = "memory";
  sqlite_path = none;
  sqlite_db_path = "";
  namespace = "finpipe";
  singleton = true;
  maxsize = 100;
}

abbrev no_backends : Manager
no_backends = record { instances = []; created = []; closed = [] }

abbrev one_backend : Manager
one_backend = record {
  instances = (identity cache, 0) ∷ [];
  created = memory 100 ∷ [];
  closed = [];
}

abbrev on_cache : ℕ → Adapter
on_cache n = record { cache = some 0; clients = open_clients n }

abbrev client : Client
client = record {
  cache = cache;
  adapters =
      ("yahoo", on_cache 0)
      ∷ ("alpha_vantage", on_cache 1)
      ∷ ("massive", on_cache 1)
      ∷ ("fred", on_cache 1)
      ∷ ("screener", on_cache 4)
      ∷ ("tradingview", record { cache = none; clients = [] })
      ∷ ("sentiment", on_cache 3)
      ∷ ("groq", on_cache 1)
      ∷ ("gemini", on_cache 1)
      ∷ ("nvidia", on_cache 1)
      ∷ ("schwab", on_cache 1)
      ∷ [];
  manager = one_backend;
}

create_client-close_example :
    ((close_client client).0 ≡ raise no_aclose)
    × (client.cache.singleton ≡ true → (close_client client).1.manager ≡ client.manager)
    × ((j : String)
        → contains j first_keys ≡ true
        → closed_at j (close_client client).1.adapters ≡ true)
unfolding create_client build construct construct_all first_plans last_plans schwab_plan
    resolve_cache_backend get_shared add_shared create create_cache_backend identity fred_configured
    alpha_vantage_configured groq_configured gemini_configured nvidia_configured massive_configured
    schwab_configured
create_client-close_example =
    create_client-close usable cache providers no_backends one_backend client refl

create_client-ok_example : is_ok (create_client usable cache providers no_backends).0 ≡ (
    has_key providers.alpha_vantage
    && has_massive providers.massive
    && has_key providers.fred
    && has_key providers.groq
    && has_key providers.gemini
    && has_key providers.nvidia
    && has_schwab providers.schwab)
create_client-ok_example = create_client-ok cache providers no_backends

-- services that would answer, and a cache with no token
abbrev web : Web
web = record {
  token = ok (record { status = 200; body = ok null });
  endpoint = λ name params token. ok (record { status = 200; body = ok null });
}

abbrev tokens : Tokens String ℕ
tokens = record {
  load_token = λ v. some v;
  dump_token = λ v. "token";
  print = λ v. "token";
  lifetime = λ v. ok 1740;
}

abbrev backend : Backend (Dict (String × ℕ)) String ℕ
backend = memory_backend unbounded

abbrev values : Values String ℕ
values = record {
  load_price = λ v. ok null;
  dump_price = λ v. "";
  validate_metadata = ok;
  load_metadata = λ v. raise (provider_down "");
  dump_metadata = λ m. "";
  load_chain = λ v. raise (provider_down "");
  dump_chain = λ c. "";
  milliseconds = λ d. null;
}

abbrev seconds : Ttls
seconds = record { live_spot_price_sec = 60; metadata_sec = 60; options_chain_sec = 60 }

abbrev first_ten : Query ℕ
first_ten = record {
  contract_type = none;
  strike_price_gte = none;
  strike_price_lte = none;
  limit = 10;
}

operations_raise_example :
    Unreached backend tokens web 0
      (backend.get 0 (spot_key "SPY") []).1
      (get_live_spot_price backend tokens web values python seconds "SPY" 0 [])
    × Unreached backend tokens web 0
        (backend.get 0 (metadata_key "SPY") []).1
        (get_metadata backend tokens web values python seconds "SPY" 0 [])
    × Unreached backend tokens web 0
        (backend.get 0 (chain_key "SPY" (some "2026-01-16")) []).1
        (get_options_chain backend tokens web values python seconds "SPY" (some "2026-01-16") 0 [])
    × Unreached backend tokens web 0
        (backend.get 0 (chain_key "SPY" none) []).1
        (fetch_options_contracts backend tokens web values python seconds "SPY" 0 [])
    × Unreached backend tokens web 0 (backend.get 0 (chain_key "SPY" (some "2026-01-16")) []).1 (
        fetch_options_snapshot backend tokens web values python seconds "SPY"
          (some "2026-01-16")
          first_ten
          0
          [])
unfolding memory_get
operations_raise_example =
    operations_raise backend tokens web values python seconds "SPY" (some "2026-01-16")
      (some "2026-01-16") first_ten 0 [] refl refl refl refl refl
