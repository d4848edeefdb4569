-- ===== src/Composite/Methods.antt =====
-- The methods of the composite services of src/providers/composite/__init__.py. A method is what its call comes
-- to, so that the arguments, which are passed on as they are given, do not appear.
use finpipe.Base.{
  Option, none, some, List, [], ◌∷◌, String, lookup, contains, concat, if◌then◌else◌,
}
use finpipe.Errors.{Result, raise, attribute_error}
use finpipe.Composite.{Adapter, Service, resolve_first_adapter, routed_call, get_options_chain}

-- the methods of the equity service that are routed
abbrev pub equity_methods : List String
equity_methods =
    "get_metadata" ∷ "get_historical_prices" ∷ "get_live_spot_price" ∷ "get_financial_statements"
    ∷ []

-- the methods of the options service, which are all routed
abbrev pub options_methods : List String
options_methods =
    "fetch_options_contracts" ∷ "fetch_options_snapshot" ∷ "fetch_single_option_snapshot"
    ∷ "fetch_historical_aggs" ∷ "sync_flatfile_from_s3" ∷ "list_s3_files" ∷ "get_options_chain"
    ∷ "get_options_snapshot" ∷ []

abbrev pub macro_methods : List String
macro_methods = "get_macro_series" ∷ []

abbrev pub intel_methods : List String
intel_methods = "get_news" ∷ "get_social_posts" ∷ "get_sentiment_score" ∷ []

abbrev pub screener_methods : List String
screener_methods =
    "run" ∷ "get_trending" ∷ "get_predefined" ∷ "get_fundamental" ∷ "run_tradingview" ∷ []

module _ {A : Type 0} where
  abbrev pub no_method : String → Result A
  no_method method = raise (attribute_error (concat "no attribute '" (concat method "'")))

  -- the call of a method of the equity service, which may have the options service
  unfoldable pub equity_call : Service A → Option (Service A) → String → Result A
  unfolding routed_call get_options_chain
  equity_call equity options method =
      if contains method equity_methods
      then routed_call equity method
      else (if contains method ("get_options_chain" ∷ [])
          then get_options_chain equity options
          else no_method method)

  unfoldable pub options_call : Service A → String → Result A
  unfolding routed_call
  options_call options method =
      if contains method options_methods then routed_call options method else no_method method

  -- `api_key` of the options service: the attribute of the first adapter of the route that there is
  unfoldable pub api_key : (Adapter A → Option String) → Service A → Option String
  unfolding resolve_first_adapter
  api_key key_of options = elim (resolve_first_adapter options.adapters options.route) [
    | none ↦ none
    | some primary ↦ key_of primary
  ]

  -- the call of a method of an adapter
  abbrev pub adapter_call : Adapter A → String → Result A
  adapter_call adapter method = elim (lookup method adapter) [
    | none ↦ no_method method
    | some answer ↦ answer
  ]

  -- The other three services pass the calls of their methods on to one adapter.
  unfoldable pub passed_on : List String → Adapter A → String → Result A
  passed_on methods adapter method =
      if contains method methods then adapter_call adapter method else no_method method

  unfoldable pub macro_call : Adapter A → String → Result A
  unfolding passed_on
  macro_call fred method = passed_on macro_methods fred method

  unfoldable pub intel_call : Adapter A → String → Result A
  unfolding passed_on
  intel_call sentiment method = passed_on intel_methods sentiment method

  unfoldable pub screener_call : Adapter A → String → Result A
  unfolding passed_on
  screener_call screener method = passed_on screener_methods screener method
