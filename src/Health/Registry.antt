-- ===== src/Health/Registry.antt =====
-- src/health/registry.py, over the toggles of a `FinpipeConfig` (src/core/config.py).
use finpipe.Base.{
  Bool, false, not, ◌&&◌, none, some, List, [], ◌∷◌, ◌++◌, String, str_eq, Dict, lookup, contains,
  strip_prefix, if◌then◌else◌,
}

-- The `enabled` flags of the sources of `SentimentSourcesConfig` and `ScreenerSourcesConfig`.
pub record IntelSources : Type 0 where
  pub google_news : Bool
  pub stocktwits : Bool
  pub reddit : Bool

pub record ScreenerSources : Type 0 where
  pub yahoo_trending : Bool
  pub yahoo_predefined : Bool
  pub finviz : Bool
  pub tradingview : Bool

-- The `enabled` flags of `ProviderGroupConfig`.
pub record Providers : Type 0 where
  pub yahoo : Bool
  pub alpha_vantage : Bool
  pub massive : Bool
  pub fred : Bool
  pub groq : Bool
  pub gemini : Bool
  pub nvidia : Bool
  pub sentiment : Bool
  pub intel_sources : IntelSources
  pub screener : Bool
  pub screener_sources : ScreenerSources

-- `HealthConfig`: a probe's value is the `enabled` of its `HealthProbeConfig`.
pub record HealthConfig : Type 0 where
  pub enabled : Bool
  pub probe_symbol : String
  pub probes : Dict Bool

pub record Config : Type 0 where
  pub providers : Providers
  pub health : HealthConfig
  pub compression_enabled : Bool

abbrev pub default_probe_keys : List String
default_probe_keys =
    "equity.yahoo" ∷ "equity.alpha_vantage" ∷ "options.massive" ∷ "options.yahoo" ∷ "macro.fred"
    ∷ "intel.google_news" ∷ "intel.stocktwits" ∷ "intel.reddit" ∷ "screener.yahoo_trending"
    ∷ "screener.yahoo_predefined" ∷ "screener.finviz" ∷ "screener.tradingview" ∷ "llm.groq"
    ∷ "llm.gemini" ∷ "llm.nvidia" ∷ "compression.huggingface" ∷ []

-- `_PROBE_ENABLED`, with `getattr(providers, name).enabled` for the name.
abbrev pub probe_enabled : Dict (Providers → Bool)
probe_enabled =
    ("equity.yahoo", λ p. p.yahoo)
    ∷ ("options.yahoo", λ p. p.yahoo)
    ∷ ("equity.alpha_vantage", λ p. p.alpha_vantage)
    ∷ ("options.massive", λ p. p.massive)
    ∷ ("macro.fred", λ p. p.fred)
    ∷ ("llm.groq", λ p. p.groq)
    ∷ ("llm.gemini", λ p. p.gemini)
    ∷ ("llm.nvidia", λ p. p.nvidia)
    ∷ []

-- `_INTEL_SOURCES` and `_SCREENER_SOURCES`, with `getattr(sources, source).enabled`.
abbrev pub intel_sources : Dict (IntelSources → Bool)
intel_sources =
    ("google_news", λ s. s.google_news)
    ∷ ("stocktwits", λ s. s.stocktwits)
    ∷ ("reddit", λ s. s.reddit)
    ∷ []

abbrev pub screener_sources : Dict (ScreenerSources → Bool)
screener_sources =
    ("yahoo_trending", λ s. s.yahoo_trending)
    ∷ ("yahoo_predefined", λ s. s.yahoo_predefined)
    ∷ ("finviz", λ s. s.finviz)
    ∷ ("tradingview", λ s. s.tradingview)
    ∷ []

-- the branch of `intel.` keys, on the source's name
unfoldable pub is_intel_enabled : Providers → String → Bool
is_intel_enabled providers source = elim (lookup source intel_sources) [
  | none ↦ false
  | some enabled ↦ providers.sentiment && enabled providers.intel_sources
]

-- the branch of `screener.` keys
unfoldable pub is_screener_enabled : Providers → String → Bool
is_screener_enabled providers source = elim (lookup source screener_sources) [
  | none ↦ false
  | some enabled ↦ if not providers.screener then false else enabled providers.screener_sources
]

unfoldable pub is_screener_key_enabled : Providers → String → Bool
unfolding is_screener_enabled
is_screener_key_enabled providers probe_key = elim (strip_prefix "screener." probe_key) [
  | none ↦ false
  | some source ↦ is_screener_enabled providers source
]

unfoldable pub is_source_enabled : Providers → String → Bool
unfolding is_intel_enabled is_screener_key_enabled
is_source_enabled providers probe_key = elim (strip_prefix "intel." probe_key) [
  | none ↦ is_screener_key_enabled providers probe_key
  | some source ↦ is_intel_enabled providers source
]

-- `is_probe_provider_enabled` and `_is_provider_enabled`
unfoldable pub is_probe_provider_enabled : Config → String → Bool
unfolding is_source_enabled
is_probe_provider_enabled config probe_key =
    if str_eq probe_key "compression.huggingface"
    then config.compression_enabled
    else elim (lookup probe_key probe_enabled) [
      | none ↦ is_source_enabled config.providers probe_key
      | some enabled ↦ enabled config.providers
    ]

-- `key in health.probes and not health.probes[key].enabled`
abbrev pub is_switched_off : HealthConfig → String → Bool
is_switched_off health key = elim (lookup key health.probes) [
  | none ↦ false
  | some enabled ↦ not enabled
]

-- the loop over DEFAULT_PROBE_KEYS
unfoldable pub default_keys : Config → List String → List String
default_keys config [] = []
default_keys config (key ∷ keys) =
    let rest = default_keys config keys in
    if is_switched_off config.health key
    then rest
    else (if is_probe_provider_enabled config key then key ∷ rest else rest)

-- the loop over `health.probes.items()`
unfoldable pub custom_keys : Config → List String → Dict Bool → List String
custom_keys config defaults [] = []
custom_keys config defaults ((key, enabled) ∷ probes) =
    let rest = custom_keys config defaults probes in
    if not (contains key defaults) && enabled && is_probe_provider_enabled config key
    then key ∷ rest
    else rest

-- The function over the tuple of default keys that it reads.
unfoldable pub resolve_keys : Config → List String → List String
resolve_keys config defaults =
    if not config.health.enabled
    then []
    else default_keys config defaults ++ custom_keys config defaults config.health.probes

unfoldable pub resolve_probe_keys : Config → List String
resolve_probe_keys config = resolve_keys config default_probe_keys
