-- ===== src/Config/Ttl.antt =====
-- The lifetimes of cached values, `resolve_source_fetch_ttl` and `resolve_screener_tradingview_source` of
-- src/core/config.py.
use finpipe.Base.{ℕ, Bool, Option, none, some, String, str_eq, if◌then◌else◌}
use finpipe.Errors.{Result, ok, raise, attribute_error}
use finpipe.Json.{Fields, end, field, set}

-- What a source's configuration has in common for screeners and intel; the limits and the transport are dumps.
pub record SourceConfig : Type 0 where
  pub enabled : Bool
  pub fetch_sec : Option ℕ
  pub default_limit : Option ℕ
  pub rate_limits : Fields
  pub http : Fields

pub record ScreenerConfig : Type 0 where
  pub enabled : Bool
  pub run_sec : ℕ
  pub yahoo_trending : SourceConfig
  pub yahoo_predefined : SourceConfig
  pub finviz : SourceConfig
  pub tradingview : SourceConfig

-- the legacy `TradingViewConfig`
pub record TradingViewConfig : Type 0 where
  pub screener_sec : ℕ
  pub rate_limits : Fields
  pub http : Fields

pub record SentimentConfig : Type 0 where
  pub news_sec : ℕ
  pub sentiment_score_sec : ℕ
  pub google_news : SourceConfig
  pub stocktwits : SourceConfig
  pub reddit : SourceConfig

-- `getattr(self.sources, source_name)`
abbrev pub screener_source : ScreenerConfig → String → Option SourceConfig
screener_source c name =
    if str_eq name "yahoo_trending"
    then some c.yahoo_trending
    else (if str_eq name "yahoo_predefined"
        then some c.yahoo_predefined
        else (if str_eq name "finviz"
            then some c.finviz
            else (if str_eq name "tradingview" then some c.tradingview else none)))

abbrev pub sentiment_source : SentimentConfig → String → Option SourceConfig
sentiment_source c name =
    if str_eq name "google_news"
    then some c.google_news
    else (if str_eq name "stocktwits"
        then some c.stocktwits
        else (if str_eq name "reddit" then some c.reddit else none))

abbrev pub sec_or : Option ℕ → ℕ → ℕ
sec_or none default = default
sec_or (some sec) default = sec

-- `SentimentConfig.resolve_source_fetch_ttl`
unfoldable pub sentiment_ttl : SentimentConfig → String → Result ℕ
sentiment_ttl c name = elim (sentiment_source c name) [
  | none ↦ raise (attribute_error name)
  | some source ↦ ok (
      sec_or source.fetch_sec
        (if str_eq name "google_news" then c.news_sec else c.sentiment_score_sec))
]

-- `ScreenerConfig.resolve_source_fetch_ttl`, with the legacy lifetimes where they are given
unfoldable pub screener_ttl : ScreenerConfig → Option ℕ → String → Result ℕ
screener_ttl c legacy name = elim (screener_source c name) [
  | none ↦ raise (attribute_error name)
  | some source ↦ ok (
      sec_or source.fetch_sec
        (if str_eq name "tradingview" then sec_or legacy c.run_sec else c.run_sec))
]

-- `{**base, **other}`
unfoldable pub spread : Fields → Fields → Fields
spread base end = base
spread base (field key value other) = spread (set key value base) other

unfoldable pub resolve_screener_tradingview_source :
    ScreenerConfig → TradingViewConfig → SourceConfig
unfolding spread
resolve_screener_tradingview_source screener legacy = record {
  enabled = screener.tradingview.enabled;
  fetch_sec = some (sec_or screener.tradingview.fetch_sec legacy.screener_sec);
  default_limit = screener.tradingview.default_limit;
  rate_limits = spread legacy.rate_limits screener.tradingview.rate_limits;
  http = spread legacy.http screener.tradingview.http;
}
