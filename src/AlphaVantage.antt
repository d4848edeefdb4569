-- ===== src/AlphaVantage.antt =====
-- The quotes and metadata of src/providers/alpha_vantage.py. `query` is what a request of a function for a
-- symbol comes to: the JSON of its response.
use finpipe.Base.{
  ℕ, ◌≡◌, refl, Bool, true, false, ◌&&◌, ◌||◌, Option, none, some, String, str_eq, concat,
  if◌then◌else◌,
}
use finpipe.Errors.{
  Exn, Result, Done, ok, raise, rate_limit_exceeded, data_not_found, attribute_error, type_error,
  value_error, ◌>>=◌,
}
use finpipe.Float.{Float}
use finpipe.Json.{Json, null, num, str, arr, obj, Items, nil, cons, Fields, end, get, truthy}
use finpipe.Json.Access.{get_or}
use finpipe.Cache.Backend.{Backend}
use finpipe.Fetch.{Action, through_cache}
use finpipe.Fetch.Through.{through_cache_failed}
use finpipe.Text.{Unicode, is_within}

pub record Ttls : Type 0 where
  pub live_spot_price_sec : ℕ
  pub metadata_sec : ℕ

-- The metadata before pydantic checks it: the fields that are texts or None, and the capital.
pub record TickerMetadata (F : Type 0) : Type 0 where
  pub symbol : Json
  pub name : Json
  pub sector : Json
  pub industry : Json
  pub market_cap : Option F
  pub exchange : Json
  pub currency : Json
  pub description : Json

-- Python's `float(v)`, pydantic's check of the metadata, and what the cache holds for them.
pub record Values (V F : Type 0) : Type 0 where
  pub read_float : Json → Result F
  pub validate : TickerMetadata F → Result (TickerMetadata F)
  pub load_price : V → F
  pub dump_price : F → V
  pub load_metadata : V → Result (TickerMetadata F)
  pub dump_metadata : TickerMetadata F → V

abbrev pub limit_error : Exn
limit_error = rate_limit_exceeded "Alpha Vantage rate limit exceeded"

-- `"rate limit" in s.lower() or "frequency" in s.lower()`
unfoldable pub is_notice : Unicode → String → Bool
unfolding is_within
is_notice u s = is_within "rate limit" (u.lower s) || is_within "frequency" (u.lower s)

abbrev pub check_info : Unicode → Json → Done
check_info u (str info) = if is_notice u info then raise limit_error else ok tt
check_info u v = raise (attribute_error "no attribute 'lower'")

-- `_check_rate_limit`
unfoldable pub check_rate_limit : Unicode → Json → Done
unfolding is_within is_notice
check_rate_limit u (obj fields) = get_or "Information" (str "") (obj fields) >>= check_info u
check_rate_limit u (str s) =
    if is_within "Information" s && is_notice u s then raise limit_error else ok tt
check_rate_limit u v = ok tt

-- `key in data`, for a `data` that is not empty
abbrev pub is_item : String → Items → Bool
is_item key nil = false
is_item key (cons (str s) vs) = str_eq s key || is_item key vs
is_item key (cons v vs) = is_item key vs

unfoldable pub holds : String → Json → Result Bool
unfolding is_within
holds key (obj fields) = ok (elim (get key fields) [ none ↦ false | some v ↦ true ])
holds key (arr vs) = ok (is_item key vs)
holds key (str s) = ok (is_within key s)
holds key v = raise (type_error "argument is not iterable")

-- `data and key in data`
abbrev pub has_field : String → Json → Result Bool
has_field key v = if truthy v then holds key v else ok false

abbrev pub no_number : Json
no_number = num (record { negative = false; digits = 0; scale = 0 })

module _ {S V F : Type 0} ⦃fl : Float F⦄ (b : Backend S V F) (vs : Values V F) (u : Unicode)
    (ttls : Ttls) (query : String → String → Result Json) where
  -- The part of `get_live_spot_price` behind the cache: a price, or none.
  unfoldable pub read_price : Json → Result (Option F)
  unfolding check_rate_limit
  read_price body = do
    checked ← check_rate_limit u body
    quote ← get_or "Global Quote" (obj end) body
    price_str ← get_or "05. price" null quote
    if truthy price_str then (vs.read_float price_str >>= (λ price. ok (some price))) else ok none

  abbrev pub priced : F → String → S → Result (Option F) → Result (Option F) × S
  priced now key s (ok (some price)) =
      (ok (some price), b.set now key (vs.dump_price price) (fl.lit ttls.live_spot_price_sec 0) s)
  priced now key s r = (r, s)

  abbrev pub price_or : F → String → Result (Option F) → Option V × S → Result (Option F) × S
  price_or now key r (some cached, s) = (ok (some (vs.load_price cached)), s)
  price_or now key r (none, s) = priced now key s r

  unfoldable pub get_live_spot_price : String → F → Action S (Option F)
  unfolding read_price
  get_live_spot_price symbol now s =
      price_or now (concat "av_spot_" symbol) (query "GLOBAL_QUOTE" symbol >>= read_price)
        (b.get now (concat "av_spot_" symbol) s)

  -- `float(v)`, where a ValueError gives None
  abbrev pub capital : Result F → Result (Option F)
  capital (ok x) = ok (some x)
  capital (raise (value_error m)) = ok none
  capital (raise e) = raise e

  unfoldable pub company : String → Json → Result (TickerMetadata F)
  company symbol body = do
    cap ← get_or "MarketCapitalization" no_number body
    market_cap ← capital (vs.read_float cap)
    symbol_field ← get_or "Symbol" (str symbol) body
    name ← get_or "Name" null body
    sector ← get_or "Sector" null body
    industry ← get_or "Industry" null body
    exchange ← get_or "Exchange" null body
    currency ← get_or "Currency" null body
    description ← get_or "Description" null body
    vs.validate (record {
      symbol = symbol_field;
      name = name;
      sector = sector;
      industry = industry;
      market_cap = market_cap;
      exchange = exchange;
      currency = currency;
      description = description;
    })

  unfoldable pub fund : String → Json → Result (TickerMetadata F)
  fund symbol body = do
    cap ← get_or "net_assets" no_number body
    market_cap ← capital (vs.read_float cap)
    symbol_field ← get_or "symbol" (str symbol) body
    name ← get_or "name" null body
    exchange ← get_or "exchange" (str "Unknown") body
    description ← get_or "description" null body
    vs.validate (record {
      symbol = symbol_field;
      name = name;
      sector = str "ETF";
      industry = str "ETF";
      market_cap = market_cap;
      exchange = exchange;
      currency = str "USD";
      description = description;
    })

  unfoldable pub read_fund : String → Json → Result (TickerMetadata F)
  unfolding check_rate_limit holds fund
  read_fund symbol body = do
    checked ← check_rate_limit u body
    known ← has_field "symbol" body
    if known
        then fund symbol body
        else raise (
            data_not_found (
              concat "Alpha Vantage metadata not found for "
                (concat symbol " (tried OVERVIEW and ETF_PROFILE)")))

  unfoldable pub read_metadata : String → Json → Result (TickerMetadata F)
  unfolding check_rate_limit holds company read_fund
  read_metadata symbol body = do
    checked ← check_rate_limit u body
    known ← has_field "Symbol" body
    if known then company symbol body else (query "ETF_PROFILE" symbol >>= read_fund symbol)

  unfoldable pub get_metadata : String → F → Action S (TickerMetadata F)
  unfolding through_cache read_metadata
  get_metadata symbol now =
      through_cache b now (concat "av_meta_" symbol) ttls.metadata_sec vs.load_metadata
        vs.dump_metadata raise (λ s. (query "OVERVIEW" symbol >>= read_metadata symbol, s))

  checked_notice :
      (fields : Fields) (info : String)
      → get "Information" fields ≡ some (str info)
      → is_notice u info ≡ true
      → check_rate_limit u (obj fields) ≡ raise limit_error
  unfolding check_rate_limit
  checked_notice fields info h n = rw h (rw n refl)

  -- An overview that tells of a rate limit makes `get_metadata` raise FinpipeRateLimitExceededError on a miss, and
  -- is not put into the cache.
  get_metadata-limited :
      (symbol : String) (now : F) (s : S) (fields : Fields) (info : String)
      → (b.get now (concat "av_meta_" symbol) s).0 ≡ none
      → query "OVERVIEW" symbol ≡ ok (obj fields)
      → get "Information" fields ≡ some (str info)
      → is_notice u info ≡ true
      → get_metadata symbol now s ≡ (raise limit_error, (b.get now (concat "av_meta_" symbol) s).1)
  unfolding get_metadata read_metadata
  get_metadata-limited symbol now s fields info miss answer h n =
      through_cache_failed b (concat "av_meta_" symbol) ttls.metadata_sec vs.load_metadata
        vs.dump_metadata raise now limit_error _ s (b.get now (concat "av_meta_" symbol) s).1 miss
        (rw (answer, checked_notice fields info h n) refl)
