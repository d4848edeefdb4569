-- ===== src/Examples/Markets.antt =====
-- Runs of the adapter of Yahoo (src/providers/yahoo.py), on thousandths.
use finpipe.Base.{
  ℕ, ◌+◌, ◌≡◌, refl, Any, true, false, none, some, List, [], ◌∷◌, map, take, leb, ltb, arith, Dict,
  Option, ◌*◌,
}
use finpipe.Errors.{Result, ok, raise, network_error}
use finpipe.Float.{Float}
use finpipe.Json.{Json, num, str}
use finpipe.Cache.Backend.{Backend}
use finpipe.Cache.Memory.{memory_backend, memory_get}
use finpipe.Examples.Milli.{milli}
use finpipe.Examples.Setup.{unbounded, ascii}
use finpipe.Limiter.Adaptive.{init, acquire, record_success}
use finpipe.Limiter.Tuning.{init-IsTuned}
use finpipe.Options.{
  Python, OptionContract, OptionChain, Query, sides_of, snapshot_row, snapshot_of, append_sides,
  append_rows, filtered,
}
use finpipe.Options.Contracts.{asked_for}
use finpipe.Resilience.{Retries, Breaker}
use finpipe.Yahoo.Guarded.{is_any, Guard, run, protected, attempts, execute_with_resilience}
use finpipe.Yahoo.Retried.{Answered, Kept, execute_acquires_once}
use finpipe.Yahoo.Rows.{
  cell, sanitize_symbol, Row, Ticker, safe_get, parse_contract, parse_contracts, target_exp,
  fetch_chain, read_chain,
}
use finpipe.Yahoo.Chains.{Meets, get_options_chain, fetch_options_snapshot}
use finpipe.Yahoo.Expiries.{OfTicker, fetch_options_snapshot_ok}
use finpipe.Yahoo.Cached.{State, execute}
use finpipe.Yahoo.History.{Frame, lower_name, Columns, get_historical_prices}
use finpipe.Yahoo.Remembered.{cached_prices_lose_dates}

instance thousandths : Float ℕ
thousandths = milli

-- two attempts, whatever is raised
abbrev twice : Retries is_any 2
twice = record {
  again = λ n e. ltb n 2;
  again_retryable = λ n e h. refl;
  again_before_stop = λ n e h. ground arith;
}

-- a breaker that counts failures, and opens at three
abbrev counting : Breaker ℕ ℕ
counting = record {
  create = λ threshold recovery. 0;
  rejects = λ failures. leb 3 failures;
  succeed = λ failures. 0;
  fail = λ failures. failures + 1;
  trips = λ failures. leb 2 failures;
  created_closed = λ threshold recovery. refl;
}

abbrev start : Guard ℕ ℕ
start = record { breaker = 0; limiter = init "yahoo" 5000 [] 0 }

execute_acquires_once_example :
    (o : Result ℕ × Guard ℕ ℕ) × (execute_with_resilience counting twice 100
        (raise (network_error "429") ∷ ok 7 ∷ [])
        start
      ≡ some o)
    × Answered o.0
    × Kept (acquire 100 start.limiter).0 o.1.limiter
execute_acquires_once_example =
    execute_acquires_once counting twice 100 (raise (network_error "429")) (ok 7 ∷ []) start
      (init-IsTuned "yahoo" 5000 [] 0) (omega arith)

abbrev pub whole : ℕ → Json
whole n = num (record { negative = false; digits = n; scale = 0 })

abbrev pub float_of : Json → Result ℕ
float_of (num d) = ok (d.digits * 1000)
float_of v = ok 0

abbrev pub python : Python ℕ
python = record {
  read_float = float_of;
  number = λ x. whole x;
  float_value = ok;
  int_value = ok;
  print = λ v. "";
  validate = ok;
  strptime = ok;
  fromisoformat = ok;
  today = "2026-01-02";
}

abbrev row : ℕ → Row
row strike = ("strike", cell (whole strike)) ∷ ("contractSymbol", cell (str "")) ∷ []

-- two expirations; the first has two calls and a put
abbrev ticker : Ticker
ticker = record {
  options = ok ("2026-01-16" ∷ "2026-02-20" ∷ []);
  option_chain = λ e. ok (row 90 ∷ row 110 ∷ [], row 100 ∷ []);
}

abbrev meets : Meets ℕ
meets = record { now = 100; tickers = λ symbol. ticker ∷ [] }

abbrev above_95 : Query ℕ
above_95 = record {
  contract_type = none;
  strike_price_gte = some 95000;
  strike_price_lte = none;
  limit = 1;
}

abbrev contract : OptionContract ℕ
contract = record {
  contract_symbol = str "";
  strike = 110000;
  last_price = num (record { negative = false; digits = 0; scale = 1 });
  bid = num (record { negative = false; digits = 0; scale = 1 });
  ask = num (record { negative = false; digits = 0; scale = 1 });
  volume = whole 0;
  open_interest = whole 0;
  implied_volatility = num (record { negative = false; digits = 0; scale = 1 });
  in_the_money = true;
}

abbrev used : Guard ℕ ℕ
used = record { breaker = 0; limiter = record_success (acquire 100 start.limiter).0 }

fetch_options_snapshot_ok_example :
    (chain : OptionChain ℕ) × Any
      (OfTicker python "BRK.B" (some "2027-01-15") chain)
      (meets.tickers (sanitize_symbol "BRK.B"))
    × (snapshot_row "2026-01-16" contract ∷ []
        ≡ map (snapshot_row chain.expiration_date) (take 1 (asked_for above_95 chain)))
unfolding fetch_options_snapshot get_options_chain execute_with_resilience attempts protected run
    fetch_chain read_chain sanitize_symbol target_exp parse_contracts parse_contract safe_get
    snapshot_of append_sides append_rows sides_of filtered thousandths
fetch_options_snapshot_ok_example =
    fetch_options_snapshot_ok counting python twice "BRK.B" (some "2027-01-15") (some "2027-01-15")
      above_95 meets start used (snapshot_row "2026-01-16" contract ∷ []) refl refl

abbrev prices : Dict (List Json)
prices = ("Close", whole 7 ∷ []) ∷ []

abbrev dates : List Json
dates = str "2026-01-02" ∷ []

abbrev dated : Frame
dated = record { dates = some dates; columns = prices }

abbrev columns : Columns (Dict (List Json))
columns = record { load = λ c. c; dump = λ c. c; load-dump = λ c. refl }

abbrev answers : Backend (Dict (Dict (List Json) × ℕ)) (Dict (List Json)) ℕ
answers = memory_backend unbounded

abbrev History : Type 0
History = State (Dict (Dict (List Json) × ℕ)) ℕ ℕ

abbrev fresh : History
fresh = record { cache = []; guard = start }

abbrev history : ℕ → List (Result Frame) → History → Option (Result (Dict (List Json)) × History)
history now frames s =
    get_historical_prices answers columns ascii 60 counting twice "SPY" "2026-01-02" "2026-01-03"
      "1d" now frames s

cached_prices_lose_dates_example :
    (s1 : History) × (s2 : History) × (history 0 (ok dated ∷ []) fresh
      ≡ some (ok (map (lower_name ascii) (("timestamp", dates) ∷ prices)), s1))
    × (history 5000 [] s1 ≡ some (ok (map (lower_name ascii) prices), s2))
    × (s2.guard ≡ s1.guard)
unfolding execute execute_with_resilience attempts protected run thousandths memory_get
cached_prices_lose_dates_example =
    cached_prices_lose_dates answers ascii columns 60 counting twice "SPY" "2026-01-02" "2026-01-03"
      "1d" 0 5000 (ok dated ∷ []) [] fresh
      (record {
        cache = [];
        guard = record { breaker = 0; limiter = record_success (acquire 0 start.limiter).0 };
      })
      dated dates refl refl refl refl refl
