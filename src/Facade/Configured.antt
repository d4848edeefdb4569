-- ===== src/Facade/Configured.antt =====
-- When a client can be built (src/client.py, src/catalog/adapter_registry.py, src/core/config.py).
use finpipe.Base.{
  ap, ℕ, ◌≡◌, refl, ◌∙◌, Bool, true, false, not, ◌&&◌, ◌||◌, Option, none, some, List, [], ◌∷◌,
  String, Dict, all, arith,
}
use finpipe.Errors.{Result, Done, ok, raise}
use finpipe.Cache.Manager.{CacheConfig, Manager, usable, resolve_cache_backend}
use finpipe.Cache.Opening.{resolve_cache_backend-usable}
use finpipe.Llm.Compress.{is_missing}
use finpipe.Config.Required.{
  KeyConfig, MassiveConfig, SchwabConfig, ensure_key, missing_massive, fred_configured,
  alpha_vantage_configured, groq_configured, gemini_configured, nvidia_configured,
  massive_configured, schwab_configured,
}
use finpipe.Facade.Adapters.{Adapter}
use finpipe.Facade.Build.{
  ProviderConfigs, Plan, adapter_on, construct, entered, next_one, construct_all, first_plans,
  last_plans, schwab_plan, with_screener, build, client_on, create_client,
}

abbrev pub is_ok {ℓ} : {A : Type ℓ} → Result A → Bool
is_ok (ok a) = true
is_ok (raise e) = false

abbrev pub has_key : KeyConfig → Bool
has_key c = not c.enabled || not (is_missing c.api_key)

abbrev pub is_given : Option String → Bool
is_given none = false
is_given (some v) = true

-- Massive's values may be empty texts.
abbrev pub has_massive : MassiveConfig → Bool
has_massive c =
    not c.enabled
    || (is_given c.api_key
        && is_given c.access_key_id
        && is_given c.secret_access_key
        && is_given c.s3_endpoint
        && is_given c.s3_bucket)

abbrev pub has_schwab : SchwabConfig → Bool
has_schwab c =
    not c.enabled
    || (not (is_missing c.app_key)
        && not (is_missing c.app_secret)
        && not (is_missing c.refresh_token))

ensure_key-ok : (env_name : String) (c : KeyConfig) → is_ok (ensure_key env_name c) ≡ has_key c
ensure_key-ok env_name c = ground arith

massive-ok : (c : MassiveConfig) → is_ok (massive_configured c) ≡ has_massive c
unfolding massive_configured missing_massive
massive-ok c = ground arith

schwab-ok : (c : SchwabConfig) → is_ok (schwab_configured c) ≡ has_schwab c
unfolding schwab_configured
schwab-ok c = ground arith

-- A backend that is usable is always found.
resolved :
    (cache : CacheConfig) (m : Manager) → is_ok (resolve_cache_backend usable cache m).0 ≡ true
resolved cache m = ap is_ok (resolve_cache_backend-usable cache m).1

regroup :
    (x1 x2 x3 x4 x5 x6 x7 : Bool)
    → ((x1 && (x2 && (x3 && true))) && ((x4 && (x5 && (x6 && true))) && ((x7 && true) && true)))
      ≡ (x1 && x2 && x3 && x4 && x5 && x6 && x7)
regroup x1 x2 x3 x4 x5 x6 x7 = ground arith

module _ (cache : CacheConfig) where
  adapter_on-ok : (n : ℕ) (r : Result ℕ × Manager) → is_ok (adapter_on n r).0 ≡ is_ok r.0
  adapter_on-ok n (ok x, m) = refl
  adapter_on-ok n (raise e, m) = refl

  construct-ok :
      (p : Plan) (m : Manager) → is_ok (construct usable cache p m).0 ≡ is_ok p.configured
  unfolding construct
  construct-ok p m = tested p.configured
    where
      tested :
          (r : Done)
          → is_ok
              (elim r as (λ x. Result Adapter × Manager) [
                | raise e ↦ (raise e, m)
                | ok done ↦ adapter_on p.sources (resolve_cache_backend usable cache m)
              ]).0
            ≡ is_ok r
      tested (ok done) =
          adapter_on-ok p.sources (resolve_cache_backend usable cache m) ∙ resolved cache m
      tested (raise e) = refl

  entered-is_ok :
      (key : String) (a : Adapter) (r : Result (Dict Adapter) × Manager)
      → is_ok (entered key a r).0 ≡ is_ok r.0
  entered-is_ok key a (ok d, m) = refl
  entered-is_ok key a (raise e, m) = refl

  next_one-is_ok :
      (key : String) (r : Result Adapter × Manager)
      (next : Manager → Result (Dict Adapter) × Manager) (v : Bool)
      → ((m : Manager) → is_ok (next m).0 ≡ v)
      → is_ok (next_one key r next).0 ≡ (is_ok r.0 && v)
  next_one-is_ok key (ok a, m) next v h = entered-is_ok key a (next m) ∙ h m
  next_one-is_ok key (raise e, m) next v h = refl

  construct_all-ok :
      (plans : List Plan) (next : Manager → Result (Dict Adapter) × Manager) (v : Bool)
      (m : Manager)
      → ((m1 : Manager) → is_ok (next m1).0 ≡ v)
      → is_ok (construct_all usable cache plans next m).0
        ≡ (all (λ p. is_ok p.configured) plans && v)
  unfolding construct_all
  construct_all-ok [] next v m h = h m
  construct_all-ok (p ∷ plans) next v m h =
      let rest = all (λ p. is_ok p.configured) plans && v in
      let here =
        next_one-is_ok p.name (construct usable cache p m) (construct_all usable cache plans next)
          rest (λ m1. construct_all-ok plans next v m1 h) in
      here ∙ ground (arith, construct-ok p m)

  with_screener-ok :
      (c : ProviderConfigs) (r : Result Adapter × Manager)
      → is_ok r.0 ≡ true
      → is_ok (with_screener usable cache c r).0 ≡ (
          all (λ p. is_ok p.configured) (first_plans c)
          && (all (λ p. is_ok p.configured) (last_plans c)
              && ((is_ok (schwab_plan c).configured && true) && true)))
  unfolding construct_all
  with_screener-ok c (raise e, m) h = absurd (ground arith)
  with_screener-ok c (ok screener, m) h = construct_all-ok (first_plans c) _ _ m (λ m1.
      entered-is_ok "screener" screener _
      ∙ entered-is_ok "tradingview" (record { cache = none; clients = [] }) _
      ∙ construct_all-ok (last_plans c) _ _ m1
          (λ m2. construct_all-ok (schwab_plan c ∷ []) (λ m3. (ok [], m3)) true m2 (λ m3. refl)))

  client_on-ok : (r : Result (Dict Adapter) × Manager) → is_ok (client_on cache r).0 ≡ is_ok r.0
  client_on-ok (ok d, m) = refl
  client_on-ok (raise e, m) = refl

  -- With a cache that can be opened and passes its self-test, a client can be built exactly when each of the seven providers
  -- that want keys is disabled or has them all: it is not enough that the ones that are used do.
  pub create_client-ok :
      (c : ProviderConfigs) (m : Manager)
      → is_ok (create_client usable cache c m).0 ≡ (
          has_key c.alpha_vantage
          && has_massive c.massive
          && has_key c.fred
          && has_key c.groq
          && has_key c.gemini
          && has_key c.nvidia
          && has_schwab c.schwab)
  unfolding create_client build first_plans last_plans schwab_plan alpha_vantage_configured
      fred_configured groq_configured gemini_configured nvidia_configured
  create_client-ok c m =
      let screener : Plan = record { name = "screener"; configured = ok tt; sources = 4 } in
      client_on-ok (build usable cache c m)
      ∙ with_screener-ok c (construct usable cache screener m) (construct-ok screener m)
      ∙ rw
          (
            ensure_key-ok "ALPHA_VANTAGE_API_KEY" c.alpha_vantage,
            massive-ok c.massive,
            ensure_key-ok "FRED_API_KEY" c.fred,
            ensure_key-ok "GROQ_API_KEY" c.groq,
            ensure_key-ok "GEMINI_API_KEY" c.gemini,
            ensure_key-ok "NVIDIA_API_KEY" c.nvidia,
            schwab-ok c.schwab,
          )
          (regroup (has_key c.alpha_vantage) (has_massive c.massive) (has_key c.fred)
            (has_key c.groq) (has_key c.gemini) (has_key c.nvidia) (has_schwab c.schwab))
