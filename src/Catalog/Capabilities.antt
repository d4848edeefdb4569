-- ===== src/Catalog/Capabilities.antt =====
-- The tables of src/catalog/registry.py: what each capability is served by.
use finpipe.Base.{none, some, List, [], ◌∷◌}
use finpipe.Catalog.Entries.{equity, options, macro, intel, screener, llm, CapabilityCatalogEntry}

abbrev pub capability_catalog : List CapabilityCatalogEntry
capability_catalog =
    record {
      capability = equity;
      label = "Equity market data";
      description = "Historical OHLCV, spot prices, company metadata, and financial statements.";
      client_facade = "client.catalog.capability(\"equity\")";
      protocols = "IHistoricalPriceProvider" ∷ "IMetadataProvider" ∷ [];
      primary_routing_key = some "equity_primary";
      fallback_routing_key = some "equity_fallback";
    }
    ∷ record {
      capability = options;
      label = "Options market data";
      description = "Options chains and snapshot quotes.";
      client_facade = "client.catalog.capability(\"options\")";
      protocols = "IOptionsProvider" ∷ [];
      primary_routing_key = some "options_primary";
      fallback_routing_key = some "options_fallback";
    }
    ∷ record {
      capability = macro;
      label = "Macroeconomic series";
      description = "Federal Reserve and other macro time series.";
      client_facade = "client.catalog.capability(\"macro\")";
      protocols = "IMacroProvider" ∷ [];
      primary_routing_key = none;
      fallback_routing_key = none;
    }
    ∷ record {
      capability = intel;
      label = "Market intelligence";
      description = "News headlines, social posts, and sentiment scores.";
      client_facade = "client.catalog.capability(\"intel\")";
      protocols = "IMarketIntelProvider" ∷ [];
      primary_routing_key = none;
      fallback_routing_key = none;
    }
    ∷ record {
      capability = screener;
      label = "Equity screeners";
      description = "Trending, predefined, fundamental, and technical screeners.";
      client_facade = "client.catalog.capability(\"screener\")";
      protocols = "IScreenerProvider" ∷ [];
      primary_routing_key = none;
      fallback_routing_key = none;
    }
    ∷ record {
      capability = llm;
      label = "Large language models";
      description = "Text generation via Groq, Gemini, and NVIDIA NIM.";
      client_facade = "client.catalog.capability(\"llm\")";
      protocols = "ILLMProvider" ∷ [];
      primary_routing_key = some "llm_primary";
      fallback_routing_key = some "llm_fallback";
    }
    ∷ []
