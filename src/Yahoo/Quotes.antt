-- ===== src/Yahoo/Quotes.antt =====
-- The prices, the metadata and the financial statements of src/providers/yahoo.py, which go through the cache.
-- One call reads the clock once.
use finpipe.Base.{ℕ, ◌≡◌, Option, none, some, List, String, concat}
use finpipe.Errors.{Result, ok}
use finpipe.Float.{Float}
use finpipe.Json.{Json, null, Fields, end, get, field, obj}
use finpipe.Json.Access.{or_json}
use finpipe.Cache.Backend.{Backend}
use finpipe.Resilience.{Retries, Breaker}
use finpipe.Yahoo.Guarded.{is_any}
use finpipe.Yahoo.Cached.{State, and_then, execute, hit_or, kept}

pub record Ttls : Type 0 where
  pub live_spot_price_sec : ℕ
  pub metadata_sec : ℕ
  pub financial_statements_sec : ℕ

-- `TickerMetadata`, before pydantic checks it: a missing value is null
pub record TickerMetadata : Type 0 where
  pub symbol : String
  pub short_name : Json
  pub long_name : Json
  pub sector : Json
  pub industry : Json
  pub market_cap : Json
  pub exchange : Json
  pub currency : Json
  pub website : Json
  pub description : Json

-- What the cache holds for a value and how it is read back, and pydantic's check of the metadata. A price that
-- was put there is read back as it was. `T` is a table of pandas, of which the cache holds a dict.
pub record Values (V T : Type 0) : Type 0 where
  pub load_price : V → Json
  pub dump_price : Json → V
  pub validate : TickerMetadata → Result TickerMetadata
  pub load_metadata : V → Result TickerMetadata
  pub dump_metadata : TickerMetadata → V
  pub to_dict : T → Json
  pub load_statements : V → Json
  pub dump_statements : Json → V
  pub load-dump_price : (price : Json) → load_price (dump_price price) ≡ price

abbrev pub item : String → Fields → Json
item key info = or_json null (get key info)

abbrev pub spot_key : String → String
spot_key symbol = concat "yf_spot_" symbol

abbrev pub last_price : Fields → Result Json
last_price info = ok (item "lastPrice" info)

module _ {V T : Type 0} (vs : Values V T) where
  abbrev pub dump_known : Json → Option V
  dump_known null = none
  dump_known price = some (vs.dump_price price)

  abbrev pub load_spot : V → Result Json
  load_spot v = ok (vs.load_price v)

module _ {S V T B F : Type 0} ⦃fl : Float F⦄ (b : Backend S V F) (vs : Values V T) (ttls : Ttls)
    (br : Breaker B F) {max_retries : ℕ} (retrying : Retries is_any max_retries) where
  abbrev pub fetch_spot :
      String → F → List (Result Fields) → State S B F → Option (Result Json × State S B F)
  fetch_spot symbol now answers s =
      kept b now (spot_key symbol) ttls.live_spot_price_sec (dump_known vs) last_price
        (execute br retrying now answers s)

  -- `answers` is what `ticker.fast_info` comes to in the attempts
  unfoldable pub get_live_spot_price :
      String → F → List (Result Fields) → State S B F → Option (Result Json × State S B F)
  unfolding execute
  get_live_spot_price symbol now answers s =
      hit_or (load_spot vs) (fetch_spot symbol now answers) s.guard
        (b.get now (spot_key symbol) s.cache)

  unfoldable pub metadata_of : String → Fields → Result TickerMetadata
  metadata_of symbol info = vs.validate (record {
    symbol = symbol;
    short_name = item "shortName" info;
    long_name = item "longName" info;
    sector = item "sector" info;
    industry = item "industry" info;
    market_cap = item "marketCap" info;
    exchange = item "exchange" info;
    currency = item "currency" info;
    website = item "website" info;
    description = item "longBusinessSummary" info;
  })

  unfoldable pub get_metadata :
      String → F → List (Result Fields) → State S B F → Option (Result TickerMetadata × State S B F)
  unfolding execute metadata_of
  get_metadata symbol now answers s =
      hit_or vs.load_metadata
        (λ s'.
          kept b now (concat "yf_meta_" symbol) ttls.metadata_sec (λ m. some (vs.dump_metadata m))
            (metadata_of symbol) (execute br retrying now answers s'))
        s.guard (b.get now (concat "yf_meta_" symbol) s.cache)

  abbrev pub statements : T → T → T → Json
  statements balance_sheet income_stmt cash_flow = obj (
      field "balance_sheet" (vs.to_dict balance_sheet) (
        field "income_statement" (vs.to_dict income_stmt)
          (field "cash_flow" (vs.to_dict cash_flow) end)))

  -- the three requests, each at its reading of the clock and with its answers
  unfoldable pub fetch_statements :
      F × List (Result T)
      → F × List (Result T)
      → F × List (Result T)
      → State S B F
      → Option (Result Json × State S B F)
  unfolding execute
  fetch_statements balance income cash s =
      and_then
        (λ balance_sheet s1.
          and_then
            (λ income_stmt s2.
              and_then
                (λ cash_flow s3. some (ok (statements balance_sheet income_stmt cash_flow), s3))
                (execute br retrying cash.0 cash.1 s2))
            (execute br retrying income.0 income.1 s1))
        (execute br retrying balance.0 balance.1 s)

  unfoldable pub get_financial_statements :
      String
      → F
      → F × List (Result T)
      → F × List (Result T)
      → F × List (Result T)
      → State S B F
      → Option (Result Json × State S B F)
  unfolding fetch_statements
  get_financial_statements symbol now balance income cash s =
      hit_or (λ v. ok (vs.load_statements v))
        (λ s'.
          kept b now (concat "yf_fin_" symbol) ttls.financial_statements_sec
            (λ r. some (vs.dump_statements r)) (λ r. ok r)
            (fetch_statements balance income cash s'))
        s.guard (b.get now (concat "yf_fin_" symbol) s.cache)
