-- ===== src/Schwab/Replies.antt =====
-- What src/providers/schwab.py sends and how it reads the replies: candles, prices, metadata and chains of
-- options. A date is its text in ISO format.
use finpipe.Base.{
  ℕ, Bool, true, false, not, Option, none, some, List, [], ◌∷◌, ◌++◌, String, str_eq, concat,
  if◌then◌else◌,
}
use finpipe.Errors.{Result, ok, raise, data_not_found, attribute_error, ◌>>=◌}
use finpipe.Json.{
  Json, null, bool, num, str, arr, obj, Items, nil, cons, Fields, end, field, truthy,
}
use finpipe.Json.Access.{get_or, items_of}
use finpipe.Options.{Python, zero_float, zero_int, OptionContract, OptionChain}
use finpipe.Yahoo.Quotes.{TickerMetadata}

pub record Ttls : Type 0 where
  pub live_spot_price_sec : ℕ
  pub metadata_sec : ℕ
  pub options_chain_sec : ℕ

-- What the cache holds for the values and how it is read back, `float(cached)` of a price, the milliseconds
-- of a day by `time.mktime`, and pydantic's check of the metadata.
pub record Values (V F : Type 0) : Type 0 where
  pub load_price : V → Result Json
  pub dump_price : Json → V
  pub validate_metadata : TickerMetadata → Result TickerMetadata
  pub load_metadata : V → Result TickerMetadata
  pub dump_metadata : TickerMetadata → V
  pub load_chain : V → Result (OptionChain F)
  pub dump_chain : OptionChain F → V
  pub milliseconds : String → Json

abbrev pub no_fields : Json
no_fields = obj end

abbrev pub symbols_param : String → Fields
symbols_param symbol = field "symbols" (str symbol) end

-- the parameters of a request for prices
unfoldable pub history_params : (String → Json) → String → String → String → String → Fields
history_params milliseconds symbol start_date end_date interval =
    let monthly = str_eq interval "1mo" in
    field "symbol" (str symbol) (
      field "periodType" (str (if monthly then "month" else "day")) (
        field "frequencyType" (str (if monthly then "monthly" else "daily")) (
          field "frequency" (num (record { negative = false; digits = 1; scale = 0 })) (
            field "startDate" (milliseconds start_date)
              (field "endDate" (milliseconds end_date) end)))))

-- the candles of an answer, if there are any
unfoldable pub read_candles : String → Json → Result Json
read_candles symbol body = do
  candles ← get_or "candles" (arr nil) body
  if truthy candles
      then ok candles
      else raise (data_not_found (concat "No historical prices found for " symbol))

-- `data.get(symbol, {}).get("quote", {}).get("lastPrice")`
unfoldable pub read_price : String → Json → Result Json
read_price symbol body = do
  asset ← get_or symbol no_fields body
  quote ← get_or "quote" no_fields asset
  get_or "lastPrice" null quote

unfoldable pub read_metadata :
    (TickerMetadata → Result TickerMetadata) → String → Json → Result TickerMetadata
read_metadata validate symbol body = do
  asset ← get_or symbol no_fields body
  if not (truthy asset)
      then raise (data_not_found (concat "Schwab metadata not found for " symbol))
      else (do
        ref ← get_or "reference" no_fields asset
        description ← get_or "description" null ref
        exchange_name ← get_or "exchangeName" null ref
        validate (record {
          symbol = symbol;
          short_name = description;
          long_name = description;
          sector = null;
          industry = null;
          market_cap = null;
          exchange = exchange_name;
          currency = null;
          website = null;
          description = null;
        }))

-- `v.items()`
abbrev pub fields_of : Json → Result Fields
fields_of (obj fields) = ok fields
fields_of v = raise (attribute_error "no attribute 'items'")

module _ {F : Type 0} (py : Python F) where
  unfoldable pub parse_contract : Bool → Json → Result (OptionContract F)
  parse_contract in_the_money contract = do
    contract_symbol ← get_or "symbol" (str "") contract
    strike_price ← get_or "strikePrice" zero_float contract
    strike ← py.read_float strike_price
    last ← get_or "last" zero_float contract
    last_price ← py.float_value last
    bid_field ← get_or "bid" zero_float contract
    bid ← py.float_value bid_field
    ask_field ← get_or "ask" zero_float contract
    ask ← py.float_value ask_field
    total_volume ← get_or "totalVolume" zero_int contract
    volume ← py.int_value total_volume
    interest ← get_or "openInterest" zero_int contract
    open_interest ← py.int_value interest
    volatility ← get_or "volatility" zero_float contract
    implied_volatility ← py.float_value volatility
    money ← get_or "inTheMoney" (bool in_the_money) contract
    py.validate (record {
      contract_symbol = contract_symbol;
      strike = strike;
      last_price = last_price;
      bid = bid;
      ask = ask;
      volume = volume;
      open_interest = open_interest;
      implied_volatility = implied_volatility;
      in_the_money = truthy money;
    })

  -- the three loops of `_parse_map`: the contracts of a strike, the strikes of an expiration, the
  -- expirations
  unfoldable pub parse_list :
      Bool → Items → List (OptionContract F) → Result (List (OptionContract F))
  unfolding parse_contract
  parse_list in_the_money nil contracts = ok contracts
  parse_list in_the_money (cons v vs) contracts =
      parse_contract in_the_money v >>= (λ c. parse_list in_the_money vs (contracts ++ c ∷ []))

  unfoldable pub parse_strikes :
      Bool → Fields → List (OptionContract F) → Result (List (OptionContract F))
  unfolding parse_list
  parse_strikes in_the_money end contracts = ok contracts
  parse_strikes in_the_money (field strike contract_list rest) contracts =
      items_of contract_list
      >>= (λ vs. parse_list in_the_money vs contracts >>= parse_strikes in_the_money rest)

  unfoldable pub parse_map :
      Bool → Fields → List (OptionContract F) → Result (List (OptionContract F))
  unfolding parse_strikes
  parse_map in_the_money end contracts = ok contracts
  parse_map in_the_money (field exp_date_key strike_map rest) contracts =
      fields_of strike_map
      >>= (λ strikes. parse_strikes in_the_money strikes contracts >>= parse_map in_the_money rest)

  abbrev pub is_success : Json → Bool
  is_success (str s) = str_eq s "SUCCESS"
  is_success v = false

  abbrev pub date_or : String → Option String → String
  date_or today none = today
  date_or today (some d) = d

  abbrev pub read_side : String → Bool → Json → Result (List (OptionContract F))
  read_side key in_the_money body =
      get_or key no_fields body
      >>= (λ v. fields_of v >>= (λ fields. parse_map in_the_money fields []))

  unfoldable pub read_chain : String → Option String → Json → Result (OptionChain F)
  unfolding parse_map
  read_chain symbol expiration_date body = do
    status ← get_or "status" null body
    if not (is_success status)
        then raise (data_not_found (concat "No option chain found for " symbol))
        else (do
          calls ← read_side "callExpDateMap" true body
          puts ← read_side "putExpDateMap" false body
          ok (record {
            symbol = symbol;
            expiration_date = date_or py.today expiration_date;
            calls = calls;
            puts = puts;
          }))
