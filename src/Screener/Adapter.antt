-- ===== src/Screener/Adapter.antt =====
-- `ScreenerAdapter` of src/providers/screener.py, and `TradingViewAdapter` of src/providers/tradingview.py,
-- which passes its calls on. `web` is what a request of the resilient client comes to: the JSON of its
-- response, or the text for Finviz.
use finpipe.Base.{
  ℕ, Bool, false, ◌&&◌, Option, none, some, List, String, str_eq, concat, if◌then◌else◌,
}
use finpipe.Errors.{Exn, Result, ok, raise, provider_down, value_error, key_error, ◌>>=◌}
use finpipe.Float.{Float}
use finpipe.Json.{Json, num, str, arr, obj, Items, nil, cons, Fields, end, field, get}
use finpipe.Json.Access.{items_of, or_json}
use finpipe.Cache.Backend.{Backend}
use finpipe.Config.Ttl.{
  SourceConfig, ScreenerConfig, TradingViewConfig, screener_source, sec_or,
  resolve_screener_tradingview_source,
}
use finpipe.Fetch.{Action, through_cache}
use finpipe.Settings.Dump.{strings}
use finpipe.Text.{Unicode, show}
use finpipe.Screener.Parsers.{
  parse_yahoo_trending_symbols, parse_yahoo_quote_payload, parse_finviz_screener_tickers,
  parse_tradingview_scan_symbols, sorted_set,
}

-- A request of the adapter: a GET, or the POST of a payload.
pub data Request : Type 0 where
  get_url : String → Request
  post : String → Json → Request

pub record Web : Type 0 where
  pub json : Request → Result Json
  pub page : Request → Result String

pub record Screener : Type 0 where
  pub config : ScreenerConfig
  pub legacy : TradingViewConfig

-- `_source_configs().get(source_name)`
unfoldable pub source_config : Screener → String → Option SourceConfig
source_config a name =
    if str_eq name "tradingview"
    then some (resolve_screener_tradingview_source a.config a.legacy)
    else screener_source a.config name

-- Whether `_client_for` gives a client.
unfoldable pub has_client : Screener → String → Bool
has_client a name =
    a.config.enabled && elim (source_config a name) [ none ↦ false | some source ↦ source.enabled ]

unfoldable pub source_cache_key : String → String → String
source_cache_key name suffix = concat "screener_src_" (concat name (concat "_" suffix))

-- `_fetch_ttl` for the adapter's own source names
unfoldable pub fetch_ttl : Screener → String → ℕ
fetch_ttl a name = elim (screener_source a.config name) [
  | none ↦ 0
  | some source ↦
      sec_or source.fetch_sec
        (if str_eq name "tradingview" then a.legacy.screener_sec else a.config.run_sec)
]

abbrev pub as_items : List String → Result Items
as_items symbols = ok (strings symbols)

-- the handlers: an empty list, or FinpipeProviderDownError
abbrev pub nothing : Exn → Result Items
nothing e = ok nil

abbrev pub tradingview_down : Exn → Result Items
tradingview_down e = raise (provider_down "Failed to fetch data from TradingView screener")

abbrev pub predefined_url : String → ℕ → String
predefined_url scr_id limit =
    concat "https://query1.finance.yahoo.com/v1/finance/screener/predefined/saved" (
      concat "?formatted=false&lang=en-US&region=US&scrIds="
        (concat scr_id (concat "&count=" (show limit))))

abbrev pub default_sort : Json
default_sort = obj (field "sortBy" (str "volume") (field "sortOrder" (str "desc") end))

abbrev pub whole : ℕ → Json
whole n = num (record { negative = false; digits = n; scale = 0 })

unfoldable pub scan_payload : Fields → Json
scan_payload criteria = obj (
    field "filter" (or_json (arr nil) (get "filter" criteria)) (
      field "options" (obj (field "lang" (str "en") end)) (
        field "markets" (or_json (arr (cons (str "america") nil)) (get "markets" criteria)) (
          field "symbols"
            (obj
              (field "query" (obj (field "types" (arr nil) end)) (field "tickers" (arr nil) end)))
            (field "columns" (arr (cons (str "name") nil)) (
              field "sort" (or_json default_sort (get "sort" criteria)) (
                field "range"
                  (arr (cons (whole 0) (cons (or_json (whole 150) (get "limit" criteria)) nil)))
                  end)))))))

-- The keyword arguments of `run`. The criteria are those under `criteria`, or else all the arguments.
pub record Params : Type 0 where
  pub scr_id : Option String
  pub limit : Option ℕ
  pub filter_key : Option String
  pub criteria : Fields

module _ {S F : Type 0} ⦃fl : Float F⦄ (b : Backend S Json F) (u : Unicode) (web : Web)
    (a : Screener) where
  -- What the four methods have in common.
  unfoldable pub screen : String → String → (Exn → Result Items) → Result Items → F → Action S Items
  unfolding through_cache has_client source_cache_key fetch_ttl
  screen name suffix handler fetched now s =
      if has_client a name
      then through_cache b now (source_cache_key name suffix) (fetch_ttl a name) items_of arr
          handler (λ t. (fetched, t)) s
      else (ok nil, s)

  unfoldable pub get_trending : F → Action S Items
  unfolding screen
  get_trending now =
      screen "yahoo_trending" "trending" nothing
        (web.json (get_url "https://query1.finance.yahoo.com/v1/finance/trending/US")
          >>= (λ data_. parse_yahoo_trending_symbols u data_ >>= as_items))
        now

  unfoldable pub get_predefined : String → Option ℕ → F → Action S Items
  unfolding screen
  get_predefined scr_id limit now =
      let resolved_limit = sec_or limit (sec_or a.config.yahoo_predefined.default_limit 50) in
      screen "yahoo_predefined" (concat scr_id (concat "_" (show resolved_limit))) nothing
        (web.json (get_url (predefined_url scr_id resolved_limit)) >>= (λ data_.
          parse_yahoo_quote_payload data_ >>= (λ symbols. as_items (sorted_set symbols))))
        now

  unfoldable pub get_fundamental : String → F → Action S Items
  unfolding screen
  get_fundamental filter_key now =
      screen "finviz" filter_key nothing
        (web.page (get_url (concat "https://finviz.com/screener.ashx?v=111&s=" filter_key))
          >>= (λ html. as_items (sorted_set (parse_finviz_screener_tickers html))))
        now

  -- `repr` is `str(sorted(criteria.items()))`
  unfoldable pub run_tradingview : (Fields → String) → Fields → F → Action S Items
  unfolding screen scan_payload
  run_tradingview repr criteria now =
      screen "tradingview" (repr criteria) tradingview_down
        (web.json (post "https://scanner.tradingview.com/america/scan" (scan_payload criteria))
          >>= parse_tradingview_scan_symbols)
        now

  unfoldable pub run : (Fields → String) → String → Params → F → Action S Items
  unfolding get_trending get_predefined get_fundamental run_tradingview
  run repr source params now s =
      if str_eq source "yahoo_trending"
      then get_trending now s
      else (if str_eq source "yahoo_predefined"
          then elim params.scr_id [
            | none ↦ (raise (key_error "scr_id"), s)
            | some scr_id ↦ get_predefined scr_id params.limit now s
          ]
          else (if str_eq source "finviz"
              then elim params.filter_key [
                | none ↦ (raise (key_error "filter_key"), s)
                | some filter_key ↦ get_fundamental filter_key now s
              ]
              else (if str_eq source "tradingview"
                  then run_tradingview repr params.criteria now s
                  else (raise (value_error (concat "Unknown screener source: " source)), s))))
