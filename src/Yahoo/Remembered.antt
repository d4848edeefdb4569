-- ===== src/Yahoo/Remembered.antt =====
-- What a second call of the methods of src/providers/yahoo.py finds in the cache.
use finpipe.Base.{
  ℕ, ◌≡◌, ◌≢◌, refl, ap, ◌∙◌, false, Option, none, some, List, ◌∷◌, map, String, arith,
}
use finpipe.Errors.{Result, ok}
use finpipe.Float.{Float, less}
use finpipe.Json.{Json, null, bool, num, str, arr, obj, Fields}
use finpipe.Text.{Unicode}
use finpipe.Cache.Backend.{Backend}
use finpipe.Resilience.{Retries, Breaker}
use finpipe.Yahoo.Guarded.{is_any, Guard}
use finpipe.Yahoo.Cached.{State, execute, hit_or, keep, kept}
use finpipe.Yahoo.Quotes.{
  Ttls, Values, item, dump_known, load_spot, last_price, fetch_spot, spot_key, get_live_spot_price,
}
use finpipe.Yahoo.History.{
  Frame, is_empty_frame, with_dates, lower_name, format_dataframe, Columns, from_dict, history_key,
  formatted, formatted_frame, dump_frame, same_frame, fetch_history, get_historical_prices,
}

module _ {A S V B F : Type 0} where
  hit_or_miss :
      (load : V → Result A) (fetched : State S B F → Option (Result A × State S B F))
      (g : Guard B F) (o : Option V × S)
      → o.0 ≡ none
      → hit_or load fetched g o ≡ fetched (record { cache = o.1; guard = g })
  hit_or_miss load fetched g (none, s) h = refl
  hit_or_miss load fetched g (some v, s) h = absurd (ground arith)

  hit_or_hit :
      (load : V → Result A) (fetched : State S B F → Option (Result A × State S B F))
      (g : Guard B F) (o : Option V × S) (v : V)
      → o.0 ≡ some v
      → hit_or load fetched g o ≡ some (load v, record { cache = o.1; guard = g })
  hit_or_hit load fetched g (none, s) v h = absurd (ground arith)
  hit_or_hit load fetched g (some w, s) v h = ground arith

module _ {S V B F : Type 0} ⦃fl : Float F⦄ (b : Backend S V F) where
  -- the state after a value was put into the cache
  abbrev pub stored : F → String → V → ℕ → State S B F → State S B F
  stored now key v ttl s = record s { cache = b.set now key v (fl.lit ttl 0) s.cache }

  found :
      (now later : F) (key : String) (v : V) (ttl : ℕ) (s : State S B F)
      → less (fl.add now (fl.lit ttl 0)) later ≡ false
      → (b.get later key (stored now key v ttl s).cache).0 ≡ some v
  found now later key v ttl s h = b.get-set now later (fl.lit ttl 0) key v s.cache ∙ rw h refl

  module _ (u : Unicode) (cs : Columns V) (sec : ℕ) (br : Breaker B F) {max_retries : ℕ}
      (retrying : Retries is_any max_retries) where
    formatted_dates :
        (f : Frame) (dates : List Json)
        → f.dates ≡ some dates
        → is_empty_frame f.columns ≡ false
        → format_dataframe u f ≡ map (lower_name u) (("timestamp", dates) ∷ f.columns)
    unfolding format_dataframe
    formatted_dates f dates dated full =
        rw full (ap (λ d. map (lower_name u) (with_dates d f.columns)) dated)

    formatted_cached :
        (f : Frame)
        → is_empty_frame f.columns ≡ false
        → format_dataframe u (from_dict (cs.load (cs.dump f.columns)))
          ≡ map (lower_name u) f.columns
    unfolding format_dataframe
    formatted_cached f full =
        ap (λ c. format_dataframe u (from_dict c)) (cs.load-dump f.columns) ∙ rw full refl

    first_fetch :
        (now : F) (key : String) (answers : List (Result Frame)) (s s' : State S B F) (f : Frame)
        → execute br retrying now answers s ≡ some (ok f, s')
        → fetch_history b cs u sec br retrying now key answers s
          ≡ some (ok (format_dataframe u f), stored now key (cs.dump f.columns) sec s')
    first_fetch now key answers s s' f fetched =
        ap
          (λ p. formatted_frame b cs u sec br retrying (
            kept b now key sec (dump_frame b cs u sec br retrying)
              (same_frame b cs u sec br retrying) p))
          fetched

    -- Where the prices are not in the cache, and a data frame with rows and an index of dates is fetched: the
    -- answer has the dates as its first column, `timestamp`. But a second call for the same prices, until the
    -- value expires, answers from the cache with the other columns only. It makes no request.
    pub cached_prices_lose_dates :
        (symbol start_date end_date interval : String) (now later : F)
        (answers others : List (Result Frame)) (s s' : State S B F) (f : Frame) (dates : List Json)
        → (b.get now (history_key symbol start_date end_date interval) s.cache).0 ≡ none
        → execute br retrying now answers (record s {
          cache = (b.get now (history_key symbol start_date end_date interval) s.cache).1;
        })
          ≡ some (ok f, s')
        → f.dates ≡ some dates
        → is_empty_frame f.columns ≡ false
        → less (fl.add now (fl.lit sec 0)) later ≡ false
        → (s1 : State S B F) × (s2 : State S B F) × (get_historical_prices b cs u sec br retrying
              symbol start_date end_date interval now answers s
            ≡ some (ok (map (lower_name u) (("timestamp", dates) ∷ f.columns)), s1))
          × (get_historical_prices b cs u sec br retrying symbol start_date end_date interval later
                others s1
              ≡ some (ok (map (lower_name u) f.columns), s2))
          × (s2.guard ≡ s1.guard)
    unfolding get_historical_prices
    cached_prices_lose_dates symbol start_date end_date interval now later answers others s s' f
          dates miss fetched dated full fresh =
        let key = history_key symbol start_date end_date interval in
        let s1 = stored now key (cs.dump f.columns) sec s' in
        let s0 : State S B F = record s { cache = (b.get now key s.cache).1 } in
        (
          s1,
          record { cache = (b.get later key s1.cache).1; guard = s1.guard },
          hit_or_miss (formatted b cs u sec br retrying)
                (fetch_history b cs u sec br retrying now key answers) s.guard
                (b.get now key s.cache) miss
              ∙ first_fetch now key answers s0 s' f fetched
              ∙ ap (λ c. some (ok c, s1)) (formatted_dates f dates dated full),
          hit_or_hit (formatted b cs u sec br retrying)
                (fetch_history b cs u sec br retrying later key others) s1.guard
                (b.get later key s1.cache) (cs.dump f.columns)
                (found now later key (cs.dump f.columns) sec s' fresh)
              ∙ ap
                  (λ c.
                    some (ok c, record { cache = (b.get later key s1.cache).1; guard = s1.guard }))
                  (formatted_cached f full),
          refl,
        )

    known_or_null :
        {T : Type 0} (vs : Values V T) (price : Json)
        → (price ≢ null)
        → dump_known vs price ≡ some (vs.dump_price price)
    known_or_null vs null h = absurd (h refl)
    known_or_null vs (bool x) h = refl
    known_or_null vs (num x) h = refl
    known_or_null vs (str x) h = refl
    known_or_null vs (arr x) h = refl
    known_or_null vs (obj x) h = refl

    kept_price :
        {T : Type 0} (vs : Values V T) (now : F) (key : String) (ttl : ℕ) (price : Json)
        (s : State S B F)
        → (price ≢ null)
        → keep b now key ttl (dump_known vs) s (ok price)
          ≡ (ok price, stored now key (vs.dump_price price) ttl s)
    kept_price vs now key ttl price s h =
        ap
          (λ d. elim d [
            | none ↦ (ok price, s)
            | some v ↦ (ok price, record s { cache = b.set now key v (fl.lit ttl 0) s.cache })
          ])
          (known_or_null vs price h)

    -- Where a price other than None is fetched, a second call for the same symbol answers with it until it
    -- expires, whatever the market would answer by then. It makes no request and leaves the limiter and the
    -- breaker alone.
    remembered_price :
        {T : Type 0} (vs : Values V T) (ttls : Ttls) (symbol : String) (now later : F)
        (answers others : List (Result Fields)) (s s' : State S B F) (info : Fields)
        → (b.get now (spot_key symbol) s.cache).0 ≡ none
        → execute br retrying now answers
            (record s { cache = (b.get now (spot_key symbol) s.cache).1 })
          ≡ some (ok info, s')
        → (item "lastPrice" info ≢ null)
        → less (fl.add now (fl.lit ttls.live_spot_price_sec 0)) later ≡ false
        → (s1 : State S B F) × (s2 : State S B F) × (get_live_spot_price b vs ttls br retrying
              symbol now answers s
            ≡ some (ok (item "lastPrice" info), s1))
          × (get_live_spot_price b vs ttls br retrying symbol later others s1
              ≡ some (ok (item "lastPrice" info), s2))
          × (s2.guard ≡ s1.guard)
    unfolding get_live_spot_price
    remembered_price vs ttls symbol now later answers others s s' info miss fetched known fresh =
        let price = item "lastPrice" info in
        let key = spot_key symbol in
        let ttl = ttls.live_spot_price_sec in
        let s1 = stored now key (vs.dump_price price) ttl s' in
        let s2 : State S B F = record { cache = (b.get later key s1.cache).1; guard = s1.guard } in
        (
          s1,
          s2,
          hit_or_miss (load_spot vs) (fetch_spot b vs ttls br retrying symbol now answers) s.guard
                (b.get now key s.cache) miss
              ∙ ap (kept b now key ttl (dump_known vs) last_price) fetched
              ∙ ap some (kept_price vs now key ttl price s' known),
          hit_or_hit (load_spot vs) (fetch_spot b vs ttls br retrying symbol later others) s1.guard
                (b.get later key s1.cache) (vs.dump_price price)
                (found now later key (vs.dump_price price) ttl s' fresh)
              ∙ ap (λ p. some (ok p, s2)) (vs.load-dump_price price),
          refl,
        )
