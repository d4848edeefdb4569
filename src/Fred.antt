-- ===== src/Fred.antt =====
-- `get_macro_series` of src/providers/fred.py. A data frame is its columns, which polars keeps. `web` is what a
-- request with parameters, without the key, comes to.
use finpipe.Base.{
  ℕ, ◌≡◌, refl, ap, ◌∙◌, Bool, true, false, not, Option, none, some, List, [], ◌∷◌, map, String,
  str_eq, concat, arith, Dict, if◌then◌else◌,
}
use finpipe.Errors.{Result, ok, raise, data_not_found, ◌>>=◌}
use finpipe.Float.{Float, less}
use finpipe.Json.{Json, str, Items, nil, cons, Fields, end, field}
use finpipe.Json.Access.{get_or, items_of}
use finpipe.Cache.Backend.{Backend}
use finpipe.Fetch.{Action}
use finpipe.AlphaVantage.{holds}
use finpipe.Schwab.{item}

-- an observation that has a value: the date and the value
pub record Observation : Type 0 where
  pub timestamp : Json
  pub value : Json

-- `pd.to_datetime(v)` and `float(v)` as values, and what the cache holds for columns, which are read back as
-- they were
pub record Values (V : Type 0) : Type 0 where
  pub to_datetime : Json → Result Json
  pub number : Json → Result Json
  pub load : V → Dict (List Json)
  pub dump : Dict (List Json) → V
  pub load-dump : (columns : Dict (List Json)) → load (dump columns) ≡ columns

-- `val != "."`
abbrev pub has_value : Json → Bool
has_value (str s) = not (str_eq s ".")
has_value v = true

-- `pd.DataFrame(parsed)`, and the frame without rows that `_format_dataframe` makes of an empty one
abbrev pub columns_of : List Observation → Dict (List Json)
columns_of rows =
    ("timestamp", map (λ (o : Observation). o.timestamp) rows)
    ∷ ("value", map (λ (o : Observation). o.value) rows)
    ∷ []

module _ {V : Type 0} (vs : Values V) where
  unfoldable pub parse_observation : Json → Result Observation
  parse_observation obs = do
    raw_value ← get_or "value" (str ".") obs
    raw_date ← item "date" obs
    timestamp ← vs.to_datetime raw_date
    value ← vs.number raw_value
    ok (record { timestamp = timestamp; value = value })

  abbrev pub with_row : Observation → Result (List Observation) → Result (List Observation)
  with_row o rest = rest >>= (λ rows. ok (o ∷ rows))

  -- the loop over the observations; those without a value are left out
  unfoldable pub parse_observations : Items → Result (List Observation)
  unfolding parse_observation
  parse_observations nil = ok []
  parse_observations (cons obs rest) =
      let rows = parse_observations rest in
      get_or "value" (str ".") obs >>= (λ val.
        if has_value val then (parse_observation obs >>= (λ o. with_row o rows)) else rows)

  unfoldable pub read_series : String → Json → Result (List Observation)
  unfolding parse_observations holds
  read_series series_id body = do
    known ← holds "observations" body
    if not known
        then raise (data_not_found (concat "Failed to fetch FRED series " series_id))
        else (do
          observations ← item "observations" body
          listed ← items_of observations
          parse_observations listed)

abbrev pub series_params : String → String → String → Fields
series_params series_id start_date end_date = field "series_id" (str series_id) (
    field "file_type" (str "json")
      (field "observation_start" (str start_date) (field "observation_end" (str end_date) end)))

abbrev pub series_key : String → String → String → String
series_key series_id start_date end_date =
    concat "fred_" (concat series_id (concat "_" (concat start_date (concat "_" end_date))))

abbrev pub Columns : Type 0
Columns = Dict (List Json)

module _ {S V F : Type 0} ⦃fl : Float F⦄ (b : Backend S V F) (vs : Values V) (macro_series_sec : ℕ)
    (web : Fields → Result Json) where
  -- a frame with rows is put into the cache
  abbrev pub kept : F → String → S → Result (List Observation) → Result Columns × S
  kept now key s (raise e) = (raise e, s)
  kept now key s (ok []) = (ok (columns_of []), s)
  kept now key s (ok (o ∷ rows)) = (
    ok (columns_of (o ∷ rows)),
    b.set now key (vs.dump (columns_of (o ∷ rows))) (fl.lit macro_series_sec 0) s,
  )

  abbrev pub series_or : String → Fields → F → String → Option V × S → Result Columns × S
  series_or series_id params now key (some cached, s) = (ok (vs.load cached), s)
  series_or series_id params now key (none, s) =
      kept now key s (web params >>= read_series vs series_id)

  unfoldable pub get_macro_series : String → String → String → F → Action S Columns
  unfolding read_series
  get_macro_series series_id start_date end_date now s =
      series_or series_id (series_params series_id start_date end_date) now
        (series_key series_id start_date end_date)
        (b.get now (series_key series_id start_date end_date) s)

  series_missed :
      (series_id : String) (params : Fields) (now : F) (key : String) (o : Option V × S)
      → o.0 ≡ none
      → series_or series_id params now key o
        ≡ kept now key o.1 (web params >>= read_series vs series_id)
  series_missed series_id params now key (none, s) h = refl
  series_missed series_id params now key (some v, s) h = absurd (ground arith)

  series_found :
      (series_id : String) (params : Fields) (now : F) (key : String) (o : Option V × S) (v : V)
      → o.0 ≡ some v
      → (series_or series_id params now key o).0 ≡ ok (vs.load v)
  series_found series_id params now key (none, s) v h = absurd (ground arith)
  series_found series_id params now key (some w, s) v h = ground arith

  -- Where a series is not in the cache and has at least one observation with a value, the answer has those
  -- observations in order, and a second call has the same answer until it expires, whatever the service would
  -- answer by then.
  get_macro_series-again :
      (series_id start_date end_date : String) (now later : F) (s : S) (o : Observation)
      (rows : List Observation)
      → (b.get now (series_key series_id start_date end_date) s).0 ≡ none
      → (web (series_params series_id start_date end_date) >>= read_series vs series_id)
        ≡ ok (o ∷ rows)
      → less (fl.add now (fl.lit macro_series_sec 0)) later ≡ false
      → ((get_macro_series series_id start_date end_date now s).0 ≡ ok (columns_of (o ∷ rows)))
        × ((get_macro_series series_id start_date end_date later
              (get_macro_series series_id start_date end_date now s).1).0
            ≡ ok (columns_of (o ∷ rows)))
  unfolding get_macro_series
  get_macro_series-again series_id start_date end_date now later s o rows miss read fresh =
      let key = series_key series_id start_date end_date in
      let params = series_params series_id start_date end_date in
      let columns = columns_of (o ∷ rows) in
      let s' = b.set now key (vs.dump columns) (fl.lit macro_series_sec 0) (b.get now key s).1 in
      let first : series_or series_id params now key (b.get now key s) ≡ (ok columns, s') =
        series_missed series_id params now key (b.get now key s) miss
        ∙ ap (kept now key (b.get now key s).1) read in
      (
        ap (λ (r : Result Columns × S). r.0) first,
        ap
              (λ (r : Result Columns × S).
                (series_or series_id params later key (b.get later key r.1)).0)
              first
            ∙ series_found series_id params later key (b.get later key s') (vs.dump columns) (
                b.get-set now later (fl.lit macro_series_sec 0) key (vs.dump columns)
                  (b.get now key s).1
                ∙ rw fresh refl)
            ∙ ap ok (vs.load-dump columns),
      )
