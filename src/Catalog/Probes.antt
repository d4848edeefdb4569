-- ===== src/Catalog/Probes.antt =====
-- PROBE_CATALOG of src/catalog/registry.py.
use finpipe.Base.{none, some, List, [], ◌∷◌, ◌++◌, String, Dict, lookup}
use finpipe.Errors.{key_error, Result, ok, raise, ◌>>=◌}
use finpipe.Catalog.Entries.{llm, ProviderCatalogEntry, HealthProbeCatalogEntry}
use finpipe.Catalog.Providers.{provider_catalog}

-- `_PROBE_ACTIONS`
abbrev pub probe_actions : Dict String
probe_actions =
    ("equity.yahoo", "Fetch metadata for health.probe_symbol (default AAPL)")
    ∷ ("equity.alpha_vantage", "Fetch metadata for probe_symbol via Alpha Vantage")
    ∷ ("options.massive", "Fetch one-row options snapshot for probe_symbol")
    ∷ ("options.yahoo", "Fetch one-row Yahoo options snapshot for probe_symbol")
    ∷ ("macro.fred", "Fetch 7-day DGS10 series from FRED")
    ∷ ("intel.google_news", "Fetch one news headline for probe_symbol")
    ∷ ("intel.stocktwits", "Fetch one StockTwits post for probe_symbol")
    ∷ ("intel.reddit", "Fetch one Reddit post for reddit_probe_symbol (default TSLA)")
    ∷ ("screener.yahoo_trending", "Call Yahoo trending screener")
    ∷ ("screener.yahoo_predefined", "Call Yahoo day_gainers predefined screener (limit 5)")
    ∷ ("screener.finviz", "Call Finviz ta_topgainers filter")
    ∷ ("screener.tradingview", "Call TradingView scanner with limit=1")
    ∷ ("llm.groq", "Minimal chat completion via generate_response()")
    ∷ ("llm.gemini", "Minimal chat completion via generate_response()")
    ∷ ("llm.nvidia", "Minimal chat completion via generate_response()")
    ∷ []

unfoldable pub probe_entry : ProviderCatalogEntry → String → String → HealthProbeCatalogEntry
probe_entry provider key action = record {
  key = key;
  capability = provider.capability;
  provider_id = provider.provider_id;
  label = provider.label;
  description = provider.description;
  returns = provider.returns;
  probe_action = action;
  settings_path = provider.settings_path;
}

-- The comprehension over the providers: `_PROBE_ACTIONS[key]` raises on a key that it lacks.
unfoldable pub probe_entries : List ProviderCatalogEntry → Result (List HealthProbeCatalogEntry)
probe_entries [] = ok []
probe_entries (provider ∷ providers) = do
  rest ← probe_entries providers
  elim provider.health_probe_key [
    | none ↦ ok rest
    | some key ↦ elim (lookup key probe_actions) [
      | none ↦ raise (key_error key)
      | some action ↦ ok (probe_entry provider key action ∷ rest)
    ]
  ]

abbrev pub compression_entry : HealthProbeCatalogEntry
compression_entry = record {
  key = "compression.huggingface";
  capability = llm;
  provider_id = "huggingface";
  label = "HuggingFace Compression Endpoint";
  description = "Text compression service hosted on HuggingFace for prompt summarization.";
  returns = "str (compressed text)";
  probe_action = "Send test payload to the compression endpoint";
  settings_path = "llm_prompt.compression";
}

unfoldable pub probe_catalog : Result (List HealthProbeCatalogEntry)
probe_catalog = do entries ← probe_entries provider_catalog; ok (entries ++ compression_entry ∷ [])
