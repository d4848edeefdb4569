-- ===== src/Screener/Answers.antt =====
-- What the screener adapter answers and raises (src/providers/screener.py).
use finpipe.Base.{
  ◌≡◌, refl, Bool, true, false, not, Bool-cases, inl, inr, Option, none, some, String, str_eq, ◌||◌,
  if◌then◌else◌, arith,
}
use finpipe.Errors.{Exn, Result, ok, raise, provider_down, value_error, key_error}
use finpipe.Float.{Float, less}
use finpipe.Json.{Json, arr, Items, Fields}
use finpipe.Json.Access.{items_of}
use finpipe.Cache.Backend.{Backend}
use finpipe.Fetch.{through_cache, hit_or}
use finpipe.Fetch.Through.{through_cache_again}
use finpipe.Text.{Unicode}
use finpipe.Screener.Adapter.{
  Web, Screener, has_client, source_cache_key, fetch_ttl, nothing, tradingview_down, screen,
  get_trending, get_predefined, get_fundamental, run_tradingview, Params, run,
}

-- The exceptions that `run` may raise: a failing TradingView scan, a missing argument, an unknown source.
abbrev pub is_expected : String → Params → Exn → Bool
is_expected source params (provider_down m) = str_eq source "tradingview"
is_expected source params (key_error m) =
    if str_eq source "yahoo_predefined"
    then elim params.scr_id [ none ↦ true | some x ↦ false ]
    else (if str_eq source "finviz"
        then elim params.filter_key [ none ↦ true | some x ↦ false ]
        else false)
is_expected source params (value_error m) = not (
    str_eq source "yahoo_trending"
    || str_eq source "yahoo_predefined"
    || str_eq source "finviz"
    || str_eq source "tradingview")
is_expected source params e = false

module _ {S F : Type 0} ⦃fl : Float F⦄ (b : Backend S Json F) (u : Unicode) (web : Web)
    (a : Screener) where
  -- What was screened is answered again until it expires, whatever the services answer by then: for each of
  -- the four methods, which are `screen` with their source, cache key, handler and request.
  screen-again :
      (name suffix : String) (handler : Exn → Result Items) (fetched : Result Items)
      (symbols : Items) (now later : F) (s : S)
      → has_client a name ≡ true
      → (b.get now (source_cache_key name suffix) s).0 ≡ none
      → less (fl.add now (fl.lit (fetch_ttl a name) 0)) later ≡ false
      → (screen b u web a name suffix handler fetched later
          (screen b u web a name suffix handler (ok symbols) now s).1).0
        ≡ ok symbols
  unfolding screen
  screen-again name suffix handler fetched symbols now later s on miss fresh =
      rw (on, screen)
        (through_cache_again b (source_cache_key name suffix) (fetch_ttl a name) items_of arr
          handler now later symbols (λ t. (ok symbols, t)) (λ t. (fetched, t)) s _ miss refl fresh)

  -- The cache holds lists, as the methods put there.
  abbrev pub HoldsLists : F → S → Type 0
  HoldsLists now s =
      (k : String) (v : Json) → (b.get now k s).0 ≡ some v → (vs : Items) × (v ≡ arr vs)

  screen-raised :
      (name suffix : String) (handler : Exn → Result Items) (fetched : Result Items) (now : F)
      (s : S) (e : Exn)
      → HoldsLists now s
      → (screen b u web a name suffix handler fetched now s).0 ≡ raise e
      → (x : Exn) × (handler x ≡ raise e)
  unfolding screen through_cache
  screen-raised name suffix handler fetched now s e lists h =
      elim (Bool-cases (has_client a name)) [
        | inl on ↦
            raised (b.get now (source_cache_key name suffix) s)
              (lists (source_cache_key name suffix)) fetched (rw (on, screen) at h)
        | inr off ↦ absurd (ground arith)
      ]
    where
      raised :
          (o : Option Json × S)
          → ((v : Json) → o.0 ≡ some v → (vs : Items) × (v ≡ arr vs))
          → (fetched : Result Items)
          → (hit_or b now
              (source_cache_key name suffix)
              (fetch_ttl a name)
              items_of
              arr
              handler
              (λ t. (fetched, t))
              o).0
            ≡ raise e
          → (x : Exn) × (handler x ≡ raise e)
      raised (none, s') l (ok symbols) h = absurd (ground arith)
      raised (none, s') l (raise x) h = (x, h)
      raised (some v, s') l fetched h =
          let (vs, is_arr) = l v refl in
          let h' : items_of (arr vs) ≡ raise e = rw is_arr at h in absurd (ground arith)

  quiet :
      (name suffix : String) (fetched : Result Items) (now : F) (s : S) (e : Exn)
      → HoldsLists now s
      → (screen b u web a name suffix nothing fetched now s).0 ≡ raise e
      → ⊥
  quiet name suffix fetched now s e lists h =
      let (x, q) = screen-raised name suffix nothing fetched now s e lists h in
      absurd (ground arith)

  loud :
      (repr : Fields → String) (criteria : Fields) (now : F) (s : S) (e : Exn)
      → HoldsLists now s
      → (run_tradingview b u web a repr criteria now s).0 ≡ raise e
      → e ≡ provider_down "Failed to fetch data from TradingView screener"
  unfolding run_tradingview
  loud repr criteria now s e lists h =
      let (x, q) = screen-raised "tradingview" (repr criteria) tradingview_down _ now s e lists h in
      ground arith

  -- `run` raises nothing but these: FinpipeProviderDownError for a failing TradingView scan, KeyError for an
  -- argument that the source needs and that is missing, ValueError for a source that is none of the four.
  -- All other failures of requests and payloads come out as an answer.
  pub run-raised :
      (repr : Fields → String) (source : String) (params : Params) (now : F) (s : S) (e : Exn)
      → HoldsLists now s
      → (run b u web a repr source params now s).0 ≡ raise e
      → is_expected source params e ≡ true
  unfolding run get_trending get_predefined get_fundamental run_tradingview
  run-raised repr source params now s e lists h =
      elim (Bool-cases (str_eq source "yahoo_trending")) [
        | inl y ↦ absurd (quiet "yahoo_trending" "trending" _ now s e lists (rw (y, run) at h))
        | inr y ↦ elim (Bool-cases (str_eq source "yahoo_predefined")) [
          | inl p ↦ predefined y p params.scr_id refl
          | inr p ↦ elim (Bool-cases (str_eq source "finviz")) [
            | inl f ↦ fundamental y p f params.filter_key refl
            | inr f ↦ elim (Bool-cases (str_eq source "tradingview")) [
              | inl t ↦ rw (loud repr params.criteria now s e lists (rw (y, p, f, t, run) at h)) t
              | inr t ↦ ground arith
            ]
          ]
        ]
      ]
    where
      predefined :
          str_eq source "yahoo_trending" ≡ false
          → str_eq source "yahoo_predefined" ≡ true
          → (o : Option String) → params.scr_id ≡ o
          → is_expected source params e ≡ true
      predefined y p none none_given = ground arith
      predefined y p (some scr_id) given =
          absurd (quiet "yahoo_predefined" _ _ now s e lists (rw (y, p, given, run) at h))

      fundamental :
          str_eq source "yahoo_trending" ≡ false
          → str_eq source "yahoo_predefined" ≡ false
          → str_eq source "finviz" ≡ true
          → (o : Option String) → params.filter_key ≡ o
          → is_expected source params e ≡ true
      fundamental y p f none none_given = ground arith
      fundamental y p f (some filter_key) given =
          absurd (quiet "finviz" filter_key _ now s e lists (rw (y, p, f, given, run) at h))
