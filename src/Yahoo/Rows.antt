-- ===== src/Yahoo/Rows.antt =====
-- The tables of options that yfinance gives, and how src/providers/yahoo.py reads them into a chain. A date is
-- its text in ISO format.
use Prim.Native.Char.{code}
use finpipe.Base.{
  Bool, true, false, ◌||◌, Option, none, some, List, [], ◌∷◌, String, ◌==◌, concat, contains, Dict,
  lookup, if◌then◌else◌,
}
use finpipe.Errors.{Result, ok, ◌>>=◌}
use finpipe.Json.{Json, null, str, truthy}
use finpipe.Options.{Python, zero_float, zero_int, OptionContract, OptionChain}

-- `_sanitize_symbol`
unfoldable pub sanitize_symbol : String → String
sanitize_symbol String.[] = ""
sanitize_symbol (String.◌∷◌ c s) =
    if code c == 47 || code c == 46
    then concat "-" (sanitize_symbol s)
    else String.◌∷◌ c (sanitize_symbol s)

-- a cell of a table of pandas: NaN, or a value, where null is None
pub data Cell : Type 0 where
  nan : Cell
  cell : Json → Cell

abbrev pub Row : Type 0
Row = Dict Cell

-- What a ticker of yfinance answers at the time of one attempt: its expirations, and the tables of the calls and
-- of the puts of one.
pub record Ticker : Type 0 where
  pub options : Result (List String)
  pub option_chain : String → Result (List Row × List Row)

-- `_safe_get`
abbrev pub cell_or : Json → Option Cell → Json
cell_or default none = default
cell_or default (some nan) = default
cell_or default (some (cell null)) = default
cell_or default (some (cell v)) = v

unfoldable pub safe_get : Row → String → Json → Json
safe_get row key default = cell_or default (lookup key row)

-- `bool(row.get(key, default))`
abbrev pub cell_truth : Bool → Option Cell → Bool
cell_truth default none = default
cell_truth default (some nan) = true
cell_truth default (some (cell v)) = truthy v

-- `_fetch_chain`: the expiration taken, the one asked for if it is listed and else the first
abbrev pub or_first : Option String → String → String
or_first none first = first
or_first (some expiration_date) first = expiration_date

unfoldable pub target_exp : Option String → String → List String → String
target_exp expiration_date first rest =
    let target = or_first expiration_date first in
    if contains target (first ∷ rest) then target else first

abbrev pub chain_at :
    Ticker → Option String → List String → Result (Option (String × List Row × List Row))
chain_at t expiration_date [] = ok none
chain_at t expiration_date (first ∷ rest) =
    let target = target_exp expiration_date first rest in
    t.option_chain target >>= (λ tables. ok (some (target, tables.0, tables.1)))

unfoldable pub fetch_chain : Option String → Ticker → Result (Option (String × List Row × List Row))
unfolding target_exp
fetch_chain expiration_date t = t.options >>= chain_at t expiration_date

module _ {F : Type 0} (py : Python F) where
  -- `str(row.get(key) or "")`
  abbrev pub cell_text : Option Cell → String
  cell_text none = ""
  cell_text (some nan) = "nan"
  cell_text (some (cell v)) = if truthy v then py.print v else ""

  unfoldable pub parse_contract : Bool → Row → Result (OptionContract F)
  unfolding safe_get
  parse_contract in_the_money row = do
    strike ← py.read_float (safe_get row "strike" zero_float)
    last_price ← py.float_value (safe_get row "lastPrice" zero_float)
    bid ← py.float_value (safe_get row "bid" zero_float)
    ask ← py.float_value (safe_get row "ask" zero_float)
    volume ← py.int_value (safe_get row "volume" zero_int)
    open_interest ← py.int_value (safe_get row "openInterest" zero_int)
    implied_volatility ← py.float_value (safe_get row "impliedVolatility" zero_float)
    py.validate (record {
      contract_symbol = str (cell_text (lookup "contractSymbol" row));
      strike = strike;
      last_price = last_price;
      bid = bid;
      ask = ask;
      volume = volume;
      open_interest = open_interest;
      implied_volatility = implied_volatility;
      in_the_money = cell_truth in_the_money (lookup "inTheMoney" row);
    })

  -- `_parse_contracts`
  unfoldable pub parse_contracts : Bool → List Row → Result (List (OptionContract F))
  unfolding parse_contract
  parse_contracts in_the_money [] = ok []
  parse_contracts in_the_money (row ∷ rows) = do
    contract ← parse_contract in_the_money row
    rest ← parse_contracts in_the_money rows
    ok (contract ∷ rest)

  abbrev pub empty_chain : String → Option String → OptionChain F
  empty_chain symbol expiration_date = record {
    symbol = symbol;
    expiration_date = or_first expiration_date py.today;
    calls = [];
    puts = [];
  }

  -- what `get_options_chain` makes of the tables
  unfoldable pub read_chain :
      String → Option String → Option (String × List Row × List Row) → Result (OptionChain F)
  unfolding parse_contracts
  read_chain symbol expiration_date none = ok (empty_chain symbol expiration_date)
  read_chain symbol expiration_date (some (exp_str, calls, puts)) = do
    exp_dt ← py.strptime exp_str
    call_contracts ← parse_contracts true calls
    put_contracts ← parse_contracts false puts
    ok (record {
      symbol = symbol;
      expiration_date = exp_dt;
      calls = call_contracts;
      puts = put_contracts;
    })
