-- ===== src/Yahoo/History.antt =====
-- The historical prices of src/providers/yahoo.py: `get_historical_prices` and `_format_dataframe`. A data frame of
-- pandas is its columns and its index. polars makes of one the same columns.
use finpipe.Base.{
  ℕ, ◌≡◌, Bool, true, false, Option, none, some, List, [], ◌∷◌, map, String, concat, Dict,
  if◌then◌else◌,
}
use finpipe.Errors.{Result, ok, ◌>>=◌}
use finpipe.Float.{Float}
use finpipe.Json.{Json}
use finpipe.Text.{Unicode}
use finpipe.Cache.Backend.{Backend}
use finpipe.Resilience.{Retries, Breaker}
use finpipe.Yahoo.Guarded.{is_any}
use finpipe.Yahoo.Cached.{State, execute, hit_or, kept}

-- The columns by name, and the values of the index where it is one of dates; else it counts the rows.
pub record Frame : Type 0 where
  pub dates : Option (List Json)
  pub columns : Dict (List Json)

-- `df.empty`, for columns of one length
abbrev pub is_empty_frame : Dict (List Json) → Bool
is_empty_frame [] = true
is_empty_frame ((name, []) ∷ columns) = true
is_empty_frame ((name, v ∷ vs) ∷ columns) = false

-- `pd.DataFrame(columns=[...])`
abbrev pub no_prices : Dict (List Json)
no_prices =
    ("timestamp", [])
    ∷ ("open", [])
    ∷ ("high", [])
    ∷ ("low", [])
    ∷ ("close", [])
    ∷ ("volume", [])
    ∷ []

-- `df.reset_index()` with the new column renamed
abbrev pub with_dates : Option (List Json) → Dict (List Json) → Dict (List Json)
with_dates none columns = columns
with_dates (some dates) columns = ("timestamp", dates) ∷ columns

abbrev pub lower_name : Unicode → String × List Json → String × List Json
lower_name u (name, vs) = (u.lower name, vs)

-- `_format_dataframe`, as columns
unfoldable pub format_dataframe : Unicode → Frame → Dict (List Json)
format_dataframe u f =
    map (lower_name u)
      (if is_empty_frame f.columns then no_prices else with_dates f.dates f.columns)

-- what the cache holds for `df.to_dict(orient="list")`, which has the columns only
pub record Columns (V : Type 0) : Type 0 where
  pub load : V → Dict (List Json)
  pub dump : Dict (List Json) → V
  pub load-dump : (columns : Dict (List Json)) → load (dump columns) ≡ columns

-- `pd.DataFrame.from_dict(cached)`
abbrev pub from_dict : Dict (List Json) → Frame
from_dict columns = record { dates = none; columns = columns }

-- `f"yf_hist_{symbol}_{start_date}_{end_date}_{interval}"`
abbrev pub history_key : String → String → String → String → String
history_key symbol start_date end_date interval = concat "yf_hist_" (
    concat symbol
      (concat "_" (concat start_date (concat "_" (concat end_date (concat "_" interval))))))

module _ {S V B F : Type 0} ⦃fl : Float F⦄ (b : Backend S V F) (cs : Columns V) (u : Unicode)
    (historical_prices_sec : ℕ) (br : Breaker B F) {max_retries : ℕ}
    (retrying : Retries is_any max_retries) where
  -- the answer to a hit
  abbrev pub formatted : V → Result (Dict (List Json))
  formatted v = ok (format_dataframe u (from_dict (cs.load v)))

  -- the frame that was fetched is put into the cache, and then formatted
  abbrev pub formatted_frame :
      Option (Result Frame × State S B F) → Option (Result (Dict (List Json)) × State S B F)
  formatted_frame none = none
  formatted_frame (some (r, s)) = some (r >>= (λ f. ok (format_dataframe u f)), s)

  abbrev pub dump_frame : Frame → Option V
  dump_frame f = some (cs.dump f.columns)

  abbrev pub same_frame : Frame → Result Frame
  same_frame f = ok f

  abbrev pub fetch_history :
      F
      → String
      → List (Result Frame)
      → State S B F
      → Option (Result (Dict (List Json)) × State S B F)
  fetch_history now key answers s = formatted_frame (
      kept b now key historical_prices_sec dump_frame same_frame
        (execute br retrying now answers s))

  -- `answers` is what `ticker.history` comes to in the attempts
  unfoldable pub get_historical_prices :
      String
      → String
      → String
      → String
      → F
      → List (Result Frame)
      → State S B F
      → Option (Result (Dict (List Json)) × State S B F)
  unfolding format_dataframe execute
  get_historical_prices symbol start_date end_date interval now answers s =
      let key = history_key symbol start_date end_date interval in
      hit_or formatted (fetch_history now key answers) s.guard (b.get now key s.cache)
