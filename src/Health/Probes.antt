-- ===== src/Health/Probes.antt =====
-- src/health/probes.py. A provider is what its endpoints answer: an interface that it does not
-- implement is `none`, and each call is its result or what it raised.
use finpipe.Base.{
  Bool, true, false, Option, none, some, List, [], ◌∷◌, ◌++◌, String, concat, Dict, lookup, join,
  if◌then◌else◌, str_eq,
}
use finpipe.Errors.{
  Exn, rate_limit_exceeded, data_not_found, provider_down, config_error, parse_error, key_error,
  value_error, type_error, attribute_error, runtime_error, not_implemented, http_status_error,
  network_error, circuit_breaker_error, other_error, Result, ok, raise, ◌>>=◌,
}

-- `IMetadataProvider`: whether the metadata has a symbol, and the financial statements.
pub record Metadata : Type 0 where
  pub symbol_missing : Result Bool
  pub financial_statements : Result (Unit {0})

-- `IOptionsProvider`: the chain, and whether the snapshot is empty.
pub record Options : Type 0 where
  pub options_chain : Result (Unit {0})
  pub snapshot_empty : Result Bool

-- `IMarketIntelProvider`
pub record Intel : Type 0 where
  pub no_news : Result Bool
  pub microblog : Result (Unit {0})
  pub forum : Result (Unit {0})
  pub sentiment_score : Result (Unit {0})

-- `IScreenerProvider`: the methods that the probe asks for by `hasattr`, and the abstract one.
pub record Screener : Type 0 where
  pub get_trending : Option (Result (Unit {0}))
  pub get_fundamental : Option (Result (Unit {0}))
  pub run_tradingview : Option (Result (Unit {0}))
  pub run_screener : Result (Unit {0})

-- `historical_empty`, `macro_empty` and `llm_empty` say that the answer is empty.
pub record Provider : Type 0 where
  pub historical_empty : Option (Result Bool)
  pub metadata : Option Metadata
  pub options : Option Options
  pub macro_empty : Option (Result Bool)
  pub intel : Option Intel
  pub screener : Option Screener
  pub llm_empty : Option (Result Bool)

-- `except (FinpipeConfigError, FinpipeProviderDownError, FinpipeRateLimitExceededError): raise`
abbrev pub is_fatal : Exn → Bool
is_fatal (config_error m) = true
is_fatal (provider_down m) = true
is_fatal (rate_limit_exceeded m) = true
is_fatal _ = false

-- `except NotImplementedError: pass`
abbrev pub is_not_implemented : Exn → Bool
is_not_implemented (not_implemented m) = true
is_not_implemented _ = false

-- `str(exc)`
abbrev pub message_of : Exn → String
message_of (rate_limit_exceeded m) = m
message_of (data_not_found m) = m
message_of (provider_down m) = m
message_of (config_error m) = m
message_of (parse_error m) = m
message_of (key_error m) = m
message_of (value_error m) = m
message_of (type_error m) = m
message_of (attribute_error m) = m
message_of (runtime_error m) = m
message_of (not_implemented m) = m
message_of (http_status_error s m) = m
message_of (network_error m) = m
message_of (circuit_breaker_error m) = m
message_of (other_error m) = m

-- One `try` of the runner: the errors so far, with the call's own complaint. A fatal exception goes on
-- up; any other is noted under the call's name.
unfoldable pub note : String → Exn → List String → Result (List String)
note name e errors =
    if is_fatal e
    then raise e
    else ok (errors ++ concat name (concat " failed: " (message_of e)) ∷ [])

-- a call whose answer may be empty
unfoldable pub check_answer : String → String → Result Bool → List String → Result (List String)
unfolding note
check_answer name complaint (ok true) errors = ok (errors ++ complaint ∷ [])
check_answer name complaint (ok false) errors = ok errors
check_answer name complaint (raise e) errors = note name e errors

-- a call whose answer is not looked at
unfoldable pub check_call : String → Result (Unit {0}) → List String → Result (List String)
unfolding note
check_call name (ok _) errors = ok errors
check_call name (raise e) errors = note name e errors

-- a call that the provider need not implement
unfoldable pub check_optional : String → Result (Unit {0}) → List String → Result (List String)
unfolding note
check_optional name (ok _) errors = ok errors
check_optional name (raise e) errors =
    if is_not_implemented e then ok errors else note name e errors

unfoldable pub check_historical : Option (Result Bool) → List String → Result (List String)
check_historical none errors = ok errors
check_historical (some r) errors =
    check_answer "get_historical_prices" "get_historical_prices returned empty" r errors

unfoldable pub check_metadata : Option Metadata → List String → Result (List String)
check_metadata none errors = ok errors
check_metadata (some p) errors = do
  errors' ← check_answer "get_metadata" "get_metadata missing symbol" p.symbol_missing errors
  check_optional "get_financial_statements" p.financial_statements errors'

unfoldable pub check_options : Option Options → List String → Result (List String)
check_options none errors = ok errors
check_options (some p) errors = do
  errors' ← check_call "get_options_chain" p.options_chain errors
  check_answer "get_options_snapshot" "get_options_snapshot returned empty" p.snapshot_empty errors'

unfoldable pub check_macro : Option (Result Bool) → List String → Result (List String)
check_macro none errors = ok errors
check_macro (some r) errors =
    check_answer "get_macro_series" "get_macro_series returned empty" r errors

unfoldable pub check_intel : Option Intel → List String → Result (List String)
check_intel none errors = ok errors
check_intel (some p) errors = do
  errors₁ ← check_answer "get_news" "get_news returned empty" p.no_news errors
  errors₂ ← check_optional "get_social_posts (MICROBLOG)" p.microblog errors₁
  errors₃ ← check_optional "get_social_posts (FORUM)" p.forum errors₂
  check_optional "get_sentiment_score" p.sentiment_score errors₃

-- the chain of `hasattr` tests
abbrev pub first_method : Screener → Result (Unit {0})
first_method p = elim p.get_trending [
  | some r ↦ r
  | none ↦ elim p.get_fundamental [
    | some r ↦ r
    | none ↦ elim p.run_tradingview [ some r ↦ r | none ↦ p.run_screener ]
  ]
]

unfoldable pub check_screener : Option Screener → List String → Result (List String)
check_screener none errors = ok errors
check_screener (some p) errors = check_call "screener execution" (first_method p) errors

unfoldable pub check_llm : Option (Result Bool) → List String → Result (List String)
check_llm none errors = ok errors
check_llm (some r) errors =
    check_answer "LLM generate_response" "generate_response returned empty" r errors

abbrev pub verdict : List String → Option String
verdict [] = none
verdict (e ∷ es) = some (join " | " (e ∷ es))

-- `universal_probe_runner` on a provider that the registry has
unfoldable pub run_checks : Provider → Result (List String)
run_checks p = do
  errors₁ ← check_historical p.historical_empty []
  errors₂ ← check_metadata p.metadata errors₁
  errors₃ ← check_options p.options errors₂
  errors₄ ← check_macro p.macro_empty errors₃
  errors₅ ← check_intel p.intel errors₄
  errors₆ ← check_screener p.screener errors₅
  check_llm p.llm_empty errors₆

unfoldable pub universal_probe_runner : Dict Provider → String → Result (Option String)
universal_probe_runner registry provider_id = elim (lookup provider_id registry) [
  | none ↦ ok (some (concat "Provider " (concat provider_id " not found in registry")))
  | some p ↦ run_checks p >>= λ errors. ok (verdict errors)
]

-- `probe_compression_huggingface`: the configured endpoint, and what the compression returned for it.
unfoldable pub probe_compression : Option String → Result String → Result (Option String)
probe_compression none compressed = ok (some "huggingface compression endpoint_url not configured")
probe_compression (some url) (ok text) =
    if str_eq url ""
    then ok (some "huggingface compression endpoint_url not configured")
    else (if str_eq text "" then ok (some "huggingface compression returned empty") else ok none)
probe_compression (some url) (raise e) =
    if str_eq url ""
    then ok (some "huggingface compression endpoint_url not configured")
    else ok (some (concat "huggingface compression failed: " (message_of e)))

-- The runner that PROBE_RUNNERS has for a key: a provider of the registry, or the compression.
pub data Runner : Type 0 where
  provider : String → Runner
  compression : Runner

abbrev pub probe_runners : Dict Runner
probe_runners =
    ("equity.yahoo", provider "yahoo")
    ∷ ("equity.alpha_vantage", provider "alpha_vantage")
    ∷ ("options.massive", provider "massive")
    ∷ ("options.yahoo", provider "yahoo")
    ∷ ("macro.fred", provider "fred")
    ∷ ("intel.google_news", provider "sentiment")
    ∷ ("intel.stocktwits", provider "sentiment")
    ∷ ("intel.reddit", provider "sentiment")
    ∷ ("screener.yahoo_trending", provider "screener")
    ∷ ("screener.yahoo_predefined", provider "screener")
    ∷ ("screener.finviz", provider "screener")
    ∷ ("screener.tradingview", provider "tradingview")
    ∷ ("llm.groq", provider "groq")
    ∷ ("llm.gemini", provider "gemini")
    ∷ ("llm.nvidia", provider "nvidia")
    ∷ ("compression.huggingface", compression)
    ∷ []
