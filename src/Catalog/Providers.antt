-- ===== src/Catalog/Providers.antt =====
-- PROVIDER_CATALOG of src/catalog/registry.py.
use finpipe.Base.{some, List, [], ◌∷◌}
use finpipe.Catalog.Entries.{equity, options, macro, intel, screener, llm, ProviderCatalogEntry}

abbrev pub provider_catalog : List ProviderCatalogEntry
provider_catalog =
    record {
      provider_id = "yahoo";
      capability = equity;
      label = "Yahoo Finance (equity)";
      description =
          "Historical OHLCV, spot price, company metadata, and financial statements via yfinance.";
      returns = "TickerMetadata, DataFrame (OHLCV), float spot price, dict financials";
      settings_path = "providers.yahoo";
      api_surface = "catalog.capability(\"equity\").* (routing equity_primary/fallback)";
      adapter_key = "yahoo";
      health_probe_key = some "equity.yahoo";
    }
    ∷ record {
      provider_id = "yahoo";
      capability = options;
      label = "Yahoo Finance (options)";
      description = "Options chain and snapshot data via yfinance.";
      returns = "OptionChain, DataFrame options snapshot";
      settings_path = "providers.yahoo";
      api_surface = "catalog.capability(\"options\").* / equity.get_options_chain";
      adapter_key = "yahoo";
      health_probe_key = some "options.yahoo";
    }
    ∷ record {
      provider_id = "alpha_vantage";
      capability = equity;
      label = "Alpha Vantage";
      description = "REST fallback for daily bars and company overview.";
      returns = "TickerMetadata, DataFrame (OHLCV), float spot price";
      settings_path = "providers.alpha_vantage";
      api_surface = "client.catalog.capability(\"equity\").* (routing.equity_fallback)";
      adapter_key = "alpha_vantage";
      health_probe_key = some "equity.alpha_vantage";
    }
    ∷ record {
      provider_id = "massive";
      capability = options;
      label = "Massive";
      description = "Primary options chain, snapshots, historical aggs, and S3 flatfiles.";
      returns = "OptionChain, DataFrame snapshot, list contract dicts";
      settings_path = "providers.massive";
      api_surface = "client.catalog.capability(\"options\").*";
      adapter_key = "massive";
      health_probe_key = some "options.massive";
    }
    ∷ record {
      provider_id = "fred";
      capability = macro;
      label = "FRED";
      description = "Federal Reserve economic time series (e.g. DGS10 risk-free rate).";
      returns = "DataFrame macro series";
      settings_path = "providers.fred";
      api_surface = "catalog.capability(\"macro\").provider(\"fred\").get_macro_series / macro.*";
      adapter_key = "fred";
      health_probe_key = some "macro.fred";
    }
    ∷ record {
      provider_id = "google_news";
      capability = intel;
      label = "Google News RSS";
      description = "Ticker or market news headlines from Google News RSS.";
      returns = "list[NewsArticle]";
      settings_path = "providers.sentiment.sources.google_news";
      api_surface = "client.catalog.capability(\"intel\").get_news";
      adapter_key = "sentiment";
      health_probe_key = some "intel.google_news";
    }
    ∷ record {
      provider_id = "stocktwits";
      capability = intel;
      label = "StockTwits";
      description = "Social microblog messages and sentiment for a symbol.";
      returns = "list[SocialPost] (kind=microblog)";
      settings_path = "providers.sentiment.sources.stocktwits";
      api_surface = "client.catalog.capability(\"intel\").get_social_posts(kind=microblog)";
      adapter_key = "sentiment";
      health_probe_key = some "intel.stocktwits";
    }
    ∷ record {
      provider_id = "reddit";
      capability = intel;
      label = "Reddit";
      description = "Forum posts from finance subreddits for a symbol.";
      returns = "list[SocialPost] (kind=forum)";
      settings_path = "providers.sentiment.sources.reddit";
      api_surface = "client.catalog.capability(\"intel\").get_social_posts(kind=forum)";
      adapter_key = "sentiment";
      health_probe_key = some "intel.reddit";
    }
    ∷ record {
      provider_id = "yahoo_trending";
      capability = screener;
      label = "Yahoo trending";
      description = "Currently trending US equity tickers from Yahoo Finance HTTP screener.";
      returns = "list[str] ticker symbols";
      settings_path = "providers.screener.sources.yahoo_trending";
      api_surface = "client.catalog.capability(\"screener\").get_trending";
      adapter_key = "screener";
      health_probe_key = some "screener.yahoo_trending";
    }
    ∷ record {
      provider_id = "yahoo_predefined";
      capability = screener;
      label = "Yahoo predefined screeners";
      description = "Saved Yahoo screeners (day gainers/losers, most actives).";
      returns = "list[str] ticker symbols";
      settings_path = "providers.screener.sources.yahoo_predefined";
      api_surface = "client.catalog.capability(\"screener\").get_predefined";
      adapter_key = "screener";
      health_probe_key = some "screener.yahoo_predefined";
    }
    ∷ record {
      provider_id = "finviz";
      capability = screener;
      label = "Finviz screener";
      description = "Fundamental/technical Finviz screener filter lists.";
      returns = "list[str] ticker symbols";
      settings_path = "providers.screener.sources.finviz";
      api_surface = "client.catalog.capability(\"screener\").get_fundamental";
      adapter_key = "screener";
      health_probe_key = some "screener.finviz";
    }
    ∷ record {
      provider_id = "tradingview";
      capability = screener;
      label = "TradingView scanner";
      description = "TradingView America scanner POST with custom criteria.";
      returns = "list[str] ticker symbols";
      settings_path = "providers.screener.sources.tradingview";
      api_surface = "client.catalog.capability(\"screener\").run_tradingview";
      adapter_key = "tradingview";
      health_probe_key = some "screener.tradingview";
    }
    ∷ record {
      provider_id = "groq";
      capability = llm;
      label = "Groq";
      description = "Groq chat completions API.";
      returns = "LLMResponse text; describe() includes remote model ids";
      settings_path = "providers.groq";
      api_surface = "catalog.capability(\"llm\").provider(\"groq\").generate_response / describe()";
      adapter_key = "groq";
      health_probe_key = some "llm.groq";
    }
    ∷ record {
      provider_id = "gemini";
      capability = llm;
      label = "Gemini";
      description = "Google Gemini generateContent API.";
      returns = "LLMResponse text; describe() includes remote model ids";
      settings_path = "providers.gemini";
      api_surface =
          "catalog.capability(\"llm\").provider(\"gemini\").generate_response / describe()";
      adapter_key = "gemini";
      health_probe_key = some "llm.gemini";
    }
    ∷ record {
      provider_id = "nvidia";
      capability = llm;
      label = "NVIDIA NIM";
      description = "NVIDIA build.nvidia.com chat completions API (OpenAI-compatible).";
      returns = "LLMResponse text; describe() includes remote model ids";
      settings_path = "providers.nvidia";
      api_surface =
          "catalog.capability(\"llm\").provider(\"nvidia\").generate_response / describe()";
      adapter_key = "nvidia";
      health_probe_key = some "llm.nvidia";
    }
    ∷ []
