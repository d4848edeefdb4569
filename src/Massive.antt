-- ===== src/Massive.antt =====
-- The option chains of src/providers/massive.py: the requests for options, and `get_options_chain`. `web` is
-- what a request with a URL and its parameters, without the key, comes to.
pub mod Requests
use finpipe.Base.{
  ℕ, Bool, false, not, ◌&&◌, Option, none, some, List, [], ◌∷◌, ◌++◌, String, str_eq, concat,
  strip_prefix, if◌then◌else◌,
}
use finpipe.Errors.{Result, ok, raise, data_not_found, attribute_error, ◌>>=◌}
use finpipe.Float.{Float}
use finpipe.Json.{Json, null, num, str, arr, obj, Items, nil, cons, Fields, end, field, set, truthy}
use finpipe.Json.Access.{get_or, items_of}
use finpipe.Cache.Backend.{Backend}
use finpipe.Fetch.{Action, through_cache}
use finpipe.Llm.Compress.{is_missing}
use finpipe.Options.{OptionContract, OptionChain}
use finpipe.Text.{Unicode, strip}

-- the keyword arguments of `fetch_options_snapshot`
pub record Filters : Type 0 where
  pub expiration_date : Option String
  pub contract_type : Option String
  pub strike_price_gte : Option Json
  pub strike_price_lte : Option Json
  pub limit : Json
  pub sort : Option String
  pub order : Option String

-- an expiration date, and the defaults
abbrev pub of_date : Option String → Filters
of_date date = record {
  expiration_date = date;
  contract_type = none;
  strike_price_gte = none;
  strike_price_lte = none;
  limit = num (record { negative = false; digits = 250; scale = 0 });
  sort = none;
  order = none;
}

-- Python's `float(v)`, `==` of two values, `datetime.strptime(v, "%Y-%m-%d")` and today's date, as texts,
-- pydantic's check of a contract, and what the cache holds for a chain.
pub record Values (V F : Type 0) : Type 0 where
  pub read_float : Json → Result F
  pub is_same : Json → Json → Bool
  pub strptime : Json → Result String
  pub today : String
  pub validate : OptionContract F → Result (OptionContract F)
  pub load : V → Result (OptionChain F)
  pub dump : OptionChain F → V

abbrev pub as_dict : Json → Fields
as_dict (obj fields) = fields
as_dict v = end

-- `_get_json`: without a key, or where the answer is no dict, an empty dict
unfoldable pub get_json : Option String → Result Json → Result Fields
get_json api_key response =
    if is_missing api_key then ok end else (response >>= (λ v. ok (as_dict v)))

-- `data.get("results", [])`
abbrev pub results_of : Fields → Result Json
results_of fields = get_or "results" (arr nil) (obj fields)

-- `O:` before a contract's symbol that has it not
unfoldable pub contract_ticker : Unicode → String → String
contract_ticker u contract =
    let ticker = u.upper (strip u contract) in
    elim (strip_prefix "O:" ticker) [ some rest ↦ ticker | none ↦ concat "O:" ticker ]

-- the chain that is read: its sides, and the expiration, null before a row has one
pub record Reading (F : Type 0) : Type 0 where
  pub calls : List (OptionContract F)
  pub puts : List (OptionContract F)
  pub target_exp : Json

abbrev pub lower_of : Unicode → Json → Result String
lower_of u (str s) = ok (u.lower s)
lower_of u v = raise (attribute_error "no attribute 'lower'")

module _ {V F : Type 0} (vs : Values V F) (u : Unicode) where
  unfoldable pub contract_of : Json → Json → Result (OptionContract F)
  contract_of details c = do
    day ← get_or "day" (obj end) c
    quote ← get_or "last_quote" (obj end) c
    ticker ← get_or "ticker" (str "") details
    strike_price ←
        get_or "strike_price" (num (record { negative = false; digits = 0; scale = 0 })) details
    strike ← vs.read_float strike_price
    close ← get_or "close" null day
    bid ← get_or "bid" null quote
    ask ← get_or "ask" null quote
    volume ← get_or "volume" null day
    open_interest ← get_or "open_interest" null c
    implied_volatility ← get_or "implied_volatility" null c
    vs.validate (record {
      contract_symbol = ticker;
      strike = strike;
      last_price = close;
      bid = bid;
      ask = ask;
      volume = volume;
      open_interest = open_interest;
      implied_volatility = implied_volatility;
      in_the_money = false;
    })

  abbrev pub filed : String → OptionContract F → Reading F → Reading F
  filed c_type contract r =
      if str_eq c_type "call"
      then record r { calls = r.calls ++ contract ∷ [] }
      else (if str_eq c_type "put" then record r { puts = r.puts ++ contract ∷ [] } else r)

  -- the body of the loop, behind the reading of a row's type and expiration
  abbrev pub placed : Json → Json → String → Json → Reading F → Result (Reading F)
  placed details c c_type exp_date r =
      let target =
        if not (truthy r.target_exp) && truthy exp_date then exp_date else r.target_exp in
      let r' : Reading F = record r { target_exp = target } in
      if truthy target && not (vs.is_same exp_date target)
      then ok r'
      else (contract_of details c >>= (λ contract. ok (filed c_type contract r')))

  unfoldable pub chain_row : Json → Reading F → Result (Reading F)
  unfolding contract_of
  chain_row c r = do
    details ← get_or "details" (obj end) c
    raw_type ← get_or "contract_type" (str "") details
    c_type ← lower_of u raw_type
    exp_date ← get_or "expiration_date" null details
    placed details c c_type exp_date r

  unfoldable pub chain_rows : Items → Reading F → Result (Reading F)
  unfolding chain_row
  chain_rows nil r = ok r
  chain_rows (cons c cs) r = chain_row c r >>= chain_rows cs

  abbrev pub no_rows : Reading F
  no_rows = record { calls = []; puts = []; target_exp = null }

  abbrev pub chain_on : String → Reading F → Result (OptionChain F)
  chain_on symbol r =
      vs.strptime (if truthy r.target_exp then r.target_exp else str vs.today) >>= (λ expiration.
        ok (record {
          symbol = symbol;
          expiration_date = expiration;
          calls = r.calls;
          puts = r.puts;
        }))

  -- what the request for the snapshot raises
  abbrev pub or_not_found : String → Result Json → Result Json
  or_not_found symbol (ok results) = ok results
  or_not_found symbol (raise e) =
      raise (data_not_found (concat "Failed to fetch options chain from Massive for " symbol))

  -- `get_options_chain` behind the cache
  unfoldable pub read_chain : String → Result Json → Result (OptionChain F)
  unfolding chain_rows
  read_chain symbol response = do
    results ← or_not_found symbol response
    if not (truthy results)
        then raise (data_not_found (concat "No option chain found for " symbol))
        else (items_of results >>= (λ rows. chain_rows rows no_rows >>= chain_on symbol))

  module _ {S : Type 0} ⦃fl : Float F⦄ (b : Backend S V F) (api_key : Option String)
      (web : String → Fields → Result Json) where
    -- `if value: params[key] = value` of a text, and `if value is not None: ...`
    abbrev pub with_text : String → Option String → Fields → Fields
    with_text key none fields = fields
    with_text key (some text) fields = if str_eq text "" then fields else set key (str text) fields

    abbrev pub with_value : String → Option Json → Fields → Fields
    with_value key none fields = fields
    with_value key (some v) fields = set key v fields

    abbrev pub snapshot_params : Filters → Fields
    snapshot_params f =
        let bounded = with_value "strike_price.lte" f.strike_price_lte (
          with_value "strike_price.gte" f.strike_price_gte (
            with_text "contract_type" f.contract_type
              (with_text "expiration_date" f.expiration_date (field "limit" f.limit end)))) in
        with_text "order" f.order (with_text "sort" f.sort bounded)

    unfoldable pub fetch_options_snapshot : String → Filters → Result Json
    unfolding get_json
    fetch_options_snapshot symbol f =
        get_json api_key (
          web (concat "https://api.massive.com/v3/snapshot/options/" (u.upper (strip u symbol)))
            (snapshot_params f))
        >>= results_of

    -- `date` is the expiration as `strftime` and `str` give it
    unfoldable pub get_options_chain : String → Option String → F → ℕ → Action S (OptionChain F)
    unfolding through_cache read_chain fetch_options_snapshot
    get_options_chain symbol date now options_chain_sec =
        through_cache b now
          (concat "massive_chain_"
            (concat symbol (concat "_" (elim date [ none ↦ "None" | some d ↦ d ]))))
          options_chain_sec vs.load vs.dump raise
          (λ s. (read_chain symbol (fetch_options_snapshot symbol (of_date date)), s))
