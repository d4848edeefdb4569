-- ===== src/Schwab/Operations.antt =====
-- The prices, the metadata and the options of src/providers/schwab.py, behind `_get`. The data frames that
-- pandas makes of candles and contracts are left out.
use finpipe.Base.{Option, none, some, List, String, concat}
use finpipe.Errors.{Result, ok, raise, ◌>>=◌}
use finpipe.Float.{Float}
use finpipe.Json.{Json, null, str, Fields, end, field}
use finpipe.Cache.Backend.{Backend}
use finpipe.Fetch.{Action, through_cache}
use finpipe.Options.{Python, read_date, OptionChain, Query, snapshot_of, contracts_of}
use finpipe.Yahoo.Quotes.{TickerMetadata}
use finpipe.Schwab.{Web, Tokens, get_endpoint}
use finpipe.Schwab.Replies.{
  Ttls, Values, symbols_param, history_params, read_candles, read_price, read_metadata, read_chain,
}

abbrev pub chain_params : String → Option String → Fields
chain_params symbol none = field "symbol" (str symbol) end
chain_params symbol (some d) =
    field "symbol" (str symbol) (field "fromDate" (str d) (field "toDate" (str d) end))

abbrev pub chain_key : String → Option String → String
chain_key symbol none = concat "schwab_chain_" (concat symbol "_None")
chain_key symbol (some d) = concat "schwab_chain_" (concat symbol (concat "_" d))

abbrev pub spot_key : String → String
spot_key symbol = concat "schwab_spot_" symbol

abbrev pub metadata_key : String → String
metadata_key symbol = concat "schwab_meta_" symbol

-- what was answered goes on to a reading of it
abbrev pub read_with : {S A C : Type 0} → (A → Result C) → Result A × S → Result C × S
read_with f (r, s) = (r >>= f, s)

module _ {S V F : Type 0} ⦃fl : Float F⦄ (b : Backend S V F) (t : Tokens V F) (web : Web)
    (vs : Values V F) (py : Python F) (ttls : Ttls) where
  unfoldable pub fetch_candles : String → String → String → String → F → Action S Json
  unfolding get_endpoint read_candles history_params
  fetch_candles symbol start_date end_date interval now s = read_with (read_candles symbol) (
      get_endpoint b t web "pricehistory"
        (history_params vs.milliseconds symbol start_date end_date interval) now s)

  -- a price that is not None is put into the cache
  abbrev pub priced : F → String → Result Json × S → Result Json × S
  priced now key (ok null, s) = (ok null, s)
  priced now key (ok price, s) =
      (ok price, b.set now key (vs.dump_price price) (fl.lit ttls.live_spot_price_sec 0) s)
  priced now key (raise e, s) = (raise e, s)

  abbrev pub price_or : String → F → Option V × S → Result Json × S
  price_or symbol now (some cached, s) = (vs.load_price cached, s)
  price_or symbol now (none, s) =
      priced now (spot_key symbol)
        (read_with (read_price symbol) (get_endpoint b t web "quotes" (symbols_param symbol) now s))

  unfoldable pub get_live_spot_price : String → F → Action S Json
  unfolding get_endpoint read_price
  get_live_spot_price symbol now s = price_or symbol now (b.get now (spot_key symbol) s)

  abbrev pub fetch_metadata : String → F → Action S TickerMetadata
  fetch_metadata symbol now s =
      read_with (read_metadata vs.validate_metadata symbol)
        (get_endpoint b t web "quotes" (symbols_param symbol) now s)

  unfoldable pub get_metadata : String → F → Action S TickerMetadata
  unfolding through_cache get_endpoint read_metadata
  get_metadata symbol now =
      through_cache b now (metadata_key symbol) ttls.metadata_sec vs.load_metadata vs.dump_metadata
        raise (fetch_metadata symbol now)

  abbrev pub fetch_chain : String → Option String → F → Action S (OptionChain F)
  fetch_chain symbol expiration_date now s =
      read_with (read_chain py symbol expiration_date)
        (get_endpoint b t web "chains" (chain_params symbol expiration_date) now s)

  unfoldable pub get_options_chain : String → Option String → F → Action S (OptionChain F)
  unfolding through_cache get_endpoint read_chain
  get_options_chain symbol expiration_date now =
      through_cache b now (chain_key symbol expiration_date) ttls.options_chain_sec vs.load_chain
        vs.dump_chain raise (fetch_chain symbol expiration_date now)

  unfoldable pub fetch_options_contracts : String → F → Action S (List Json)
  unfolding get_options_chain contracts_of
  fetch_options_contracts symbol now s =
      read_with (λ chain. ok (contracts_of py.number chain.expiration_date chain))
        (get_options_chain symbol none now s)

  abbrev pub snapshot_on :
      String → Query F → F → S → Result (Option String) → Result (List Json) × S
  snapshot_on symbol q now s (raise e) = (raise e, s)
  snapshot_on symbol q now s (ok expiration_date) =
      read_with (λ chain. ok (snapshot_of q chain)) (get_options_chain symbol expiration_date now s)

  unfoldable pub fetch_options_snapshot :
      String → Option String → Query F → F → Action S (List Json)
  unfolding get_options_chain snapshot_of
  fetch_options_snapshot symbol expiration_date q now s =
      snapshot_on symbol q now s (read_date py expiration_date)
