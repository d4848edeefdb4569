-- ===== src/Screener/Parsers.antt =====
-- src/core/screener_parsers.py
use Prim.Native.Char.{code}
use Prim.Native.Nat.{Ordering}
use Prim.Native.String.{compare}
use finpipe.Base.{
  ℕ, zero, suc, ◌+◌, ◌-◌, Bool, true, false, not, ◌&&◌, ◌||◌, Option, none, some, List, [], ◌∷◌,
  ◌++◌, String, str_eq, ◌==◌, leb, if◌then◌else◌, concat, strip_prefix,
}
use finpipe.Errors.{Result, ok, raise, type_error, attribute_error, ◌>>=◌}
use finpipe.Json.{Json, null, str, arr, obj, Items, nil, cons, end, truthy, get}
use finpipe.Json.Access.{get_or, items_of, first_of}
use finpipe.Text.{Unicode, is_empty, all_alpha, text_length}

-- `data.get("finance", {}).get("result", [{}])[0].get("quotes", [])`
unfoldable pub quotes_of : Json → Result Items
quotes_of data_ = do
  finance ← get_or "finance" (obj end) data_
  result ← get_or "result" (arr (cons (obj end) nil)) finance
  first ← first_of result
  quotes ← get_or "quotes" (arr nil) first
  items_of quotes

abbrev pub is_dict : Json → Bool
is_dict (obj fs) = true
is_dict v = false

-- `isinstance(symbol, str) and symbol.isalpha() and 1 <= len(symbol) <= 5`, then `symbol.upper()`
unfoldable pub trending_symbol : Unicode → Json → List String
unfolding text_length
trending_symbol u (str symbol) =
    if all_alpha u symbol && leb 1 (text_length symbol) && leb (text_length symbol) 5
    then u.upper symbol ∷ []
    else []
trending_symbol u v = []

unfoldable pub trending_symbols : Unicode → Items → Result (List String)
trending_symbols u nil = ok []
trending_symbols u (cons quote quotes) = do
  symbol ← get_or "symbol" null quote
  symbols ← trending_symbols u quotes
  ok (trending_symbol u symbol ++ symbols)

unfoldable pub parse_yahoo_trending_symbols : Unicode → Json → Result (List String)
parse_yahoo_trending_symbols u data_ =
    if is_dict data_ then quotes_of data_ >>= trending_symbols u else ok []

-- A set of symbols that is being built, and sorted at the end. A truthy symbol that is no text is unhashable,
-- or does not sort with texts: the case that all symbols are numbers is left out.
unfoldable pub quote_symbols : Items → Result (List String)
quote_symbols nil = ok []
quote_symbols (cons quote quotes) = do
  symbol ← get_or "symbol" null quote
  symbols ← quote_symbols quotes
  if not (truthy symbol) then ok symbols else (elim symbol [
    | str s ↦ ok (s ∷ symbols)
    | _ ↦ raise (type_error "unhashable or unordered symbol")
  ])

unfoldable pub parse_yahoo_quote_payload : Json → Result (List String)
parse_yahoo_quote_payload data_ = if is_dict data_ then quotes_of data_ >>= quote_symbols else ok []

-- `sorted(…)` of a set of texts
unfoldable pub insert_sorted : String → List String → List String
insert_sorted s [] = s ∷ []
insert_sorted s (t ∷ ts) = elim (compare s t) [
  | Ordering.lt ↦ s ∷ t ∷ ts
  | Ordering.eq ↦ t ∷ ts
  | Ordering.gt ↦ t ∷ insert_sorted s ts
]

unfoldable pub sorted_set : List String → List String
sorted_set [] = []
sorted_set (s ∷ ss) = insert_sorted s (sorted_set ss)

-- `ticker_raw.split(":")[-1]`, where the text behind the last colon so far is at hand
unfoldable pub behind_colon : String → String → String
behind_colon last String.[] = last
behind_colon last (String.◌∷◌ c s) =
    behind_colon (if code c == 58 then "" else concat last (String.◌∷◌ c "")) s

-- A truthy ticker that is no text and no container raises at `":" in ticker_raw`. A container is kept as it
-- is, unless it has a colon: it has no `split`.
unfoldable pub has_colon : Items → Bool
has_colon nil = false
has_colon (cons (str s) vs) = str_eq s ":" || has_colon vs
has_colon (cons v vs) = has_colon vs

unfoldable pub scan_symbol : Json → Result Json
scan_symbol (str ticker_raw) = ok (str (behind_colon "" ticker_raw))
scan_symbol (arr vs) =
    if has_colon vs then raise (attribute_error "no attribute 'split'") else ok (arr vs)
scan_symbol (obj fs) = elim (get ":" fs) [
  | none ↦ ok (obj fs)
  | some v ↦ raise (attribute_error "no attribute 'split'")
]
scan_symbol v = raise (type_error "argument is not iterable")

abbrev pub scanned : Json → Result Items
scanned ticker_raw =
    if truthy ticker_raw then (scan_symbol ticker_raw >>= (λ s. ok (cons s nil))) else ok nil

unfoldable pub scan_symbols : Items → Result Items
scan_symbols nil = ok nil
scan_symbols (cons item items) = do
  columns ← get_or "d" (arr (cons null nil)) item
  ticker_raw ← first_of columns
  matches ← scanned ticker_raw
  rest ← scan_symbols items
  ok (elim matches [ nil ↦ rest | cons m ms ↦ cons m rest ])

unfoldable pub parse_tradingview_scan_symbols : Json → Result Items
parse_tradingview_scan_symbols data_ =
    if is_dict data_
    then (do rows ← get_or "data" (arr nil) data_; items ← items_of rows; scan_symbols items)
    else ok nil

-- The greedy `[A-Z]{1,5}` at the head of a text.
unfoldable pub capitals : ℕ → String → String
capitals zero s = ""
capitals (suc n) String.[] = ""
capitals (suc n) (String.◌∷◌ c s) =
    if leb 65 (code c) && leb (code c) 90 then String.◌∷◌ c (capitals n s) else ""

-- The match of _FINVIZ_TICKER_PATTERN at the head of a text: the ticker, and what is left out of the rest.
unfoldable pub ticker_behind : String → String → Option (String × ℕ)
unfolding capitals text_length
ticker_behind prefix s = elim (strip_prefix prefix s) [
  | none ↦ none
  | some rest ↦
      let ticker = capitals 5 rest in
      if is_empty ticker then none else some (ticker, text_length prefix + text_length ticker)
]

unfoldable pub ticker_at : String → Option (String × ℕ)
unfolding ticker_behind
ticker_at s = elim (ticker_behind "quote.ashx?t=" s) [
  | some m ↦ some m
  | none ↦ ticker_behind "stock?t=" s
]

-- `findall`: the matches from left to right, none within another; `skip` characters are within the last one.
unfoldable pub find_tickers : ℕ → String → List String
unfolding ticker_at
find_tickers skip String.[] = []
find_tickers (suc skip) (String.◌∷◌ c s) = find_tickers skip s
find_tickers zero (String.◌∷◌ c s) = elim (ticker_at (String.◌∷◌ c s)) [
  | none ↦ find_tickers zero s
  | some (ticker, size) ↦ ticker ∷ find_tickers (size - 1) s
]

unfoldable pub parse_finviz_screener_tickers : String → List String
parse_finviz_screener_tickers html = find_tickers zero html
