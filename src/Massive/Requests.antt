-- ===== src/Massive/Requests.antt =====
-- The other requests of src/providers/massive.py: contracts, one snapshot, prices by day, and the rows of
-- `get_options_snapshot`, of which pandas makes a data frame.
use finpipe.Base.{Option, none, some, String, concat, false}
use finpipe.Errors.{Result, ok, raise, data_not_found, ◌>>=◌}
use finpipe.Json.{Json, null, num, str, obj, Items, nil, cons, Fields, end, field, get}
use finpipe.Json.Access.{get_or, items_of}
use finpipe.Text.{Unicode, strip}
use finpipe.Massive.{as_dict, get_json, results_of, contract_ticker}

abbrev pub api : String → String
api path = concat "https://api.massive.com" path

module _ (u : Unicode) (api_key : Option String) (web : String → Fields → Result Json) where
  abbrev pub ticker_of : String → String
  ticker_of symbol = u.upper (strip u symbol)

  unfoldable pub fetch_options_contracts : String → Result Json
  unfolding get_json
  fetch_options_contracts symbol =
      get_json api_key (
        web (api "/v3/reference/options/contracts") (
          field "underlying_ticker" (str (ticker_of symbol)) (
            field "expired" (str "false")
              (field "limit" (num (record { negative = false; digits = 1000; scale = 0 })) end))))
      >>= results_of

  -- `results if isinstance(results, dict) else {}`
  abbrev pub dict_of : Option Json → Json
  dict_of none = obj end
  dict_of (some v) = obj (as_dict v)

  unfoldable pub fetch_single_option_snapshot : String → String → Result Json
  unfolding get_json contract_ticker
  fetch_single_option_snapshot symbol contract =
      get_json api_key (
        web
          (api (
            concat "/v3/snapshot/options/"
              (concat (ticker_of symbol) (concat "/" (contract_ticker u contract)))))
          end)
      >>= (λ fields. ok (dict_of (get "results" fields)))

  unfoldable pub fetch_historical_aggs : String → String → String → Result Json
  unfolding get_json contract_ticker
  fetch_historical_aggs symbol from_date to_date =
      get_json api_key (
        web
          (api (
            concat "/v2/aggs/ticker/" (
              concat (contract_ticker u symbol)
                (concat "/range/1/day/" (concat from_date (concat "/" to_date))))))
          (field "adjusted" (str "true") end))
      >>= results_of

-- a row of `flat_data`; `number` is `float(v)` as a value
unfoldable pub flat_row : (Json → Result Json) → Json → Result Json
flat_row number r = do
  details ← get_or "details" (obj end) r
  day ← get_or "day" (obj end) r
  quote ← get_or "last_quote" (obj end) r
  ticker ← get_or "ticker" (str "") details
  contract_type ← get_or "contract_type" (str "") details
  strike_price ←
      get_or "strike_price" (num (record { negative = false; digits = 0; scale = 1 })) details
  strike ← number strike_price
  expiration_date ← get_or "expiration_date" (str "") details
  close ← get_or "close" null day
  bid ← get_or "bid" null quote
  ask ← get_or "ask" null quote
  volume ← get_or "volume" null day
  open_interest ← get_or "open_interest" null r
  implied_volatility ← get_or "implied_volatility" null r
  ok (
      obj (
        field "contract_symbol" ticker (
          field "contract_type" contract_type (
            field "strike" strike (
              field "expiration_date" expiration_date (
                field "last_price" close (
                  field "bid" bid (
                    field "ask" ask (
                      field "volume" volume (
                        field "open_interest" open_interest
                          (field "implied_volatility" implied_volatility end)))))))))))

unfoldable pub flat_rows : (Json → Result Json) → Items → Result Items
unfolding flat_row
flat_rows number nil = ok nil
flat_rows number (cons r rs) =
    flat_row number r >>= (λ row. flat_rows number rs >>= (λ rows. ok (cons row rows)))

abbrev pub or_missing : String → Result Json → Result Json
or_missing symbol (ok results) = ok results
or_missing symbol (raise e) =
    raise (data_not_found (concat "Failed to fetch options snapshot from Massive for " symbol))

-- `get_options_snapshot` on a miss, up to the data frame
unfoldable pub snapshot_rows : (Json → Result Json) → String → Result Json → Result Items
unfolding flat_rows
snapshot_rows number symbol response =
    or_missing symbol response >>= (λ results. items_of results >>= flat_rows number)
