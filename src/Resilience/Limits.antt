-- ===== src/Resilience/Limits.antt =====
-- What a `ResilientHttpClient` of src/network/resilience.py is made of: the limiters per minute, the
-- transport, and the text of a response in an error.
use Prim.Native.Char.{code}
use finpipe.Base.{
  ℕ, zero, suc, Option, none, some, List, String, ltb, ◌==◌, str_eq, if◌then◌else◌, concat,
}
use finpipe.Float.{Float}
use finpipe.Text.{Unicode, is_empty, text_length, show, strip}
use finpipe.Cache.Manager.{CacheConfig, path_or}
use finpipe.Limiter.Buckets.{
  TokenBucket, new_bucket, acquire_bucket, RpmTpm, new_limiter, acquire_llm, update_actual_tokens,
}

-- `RateLimitConfig`. `backoff_multiplier` only says how long the waits between the attempts are.
pub record RateLimitConfig (F : Type 0) : Type 0 where
  pub max_requests_per_second : F
  pub max_requests_per_minute : Option ℕ
  pub max_tokens_per_minute : Option ℕ
  pub max_retries : ℕ
  pub circuit_breaker_failure_threshold : ℕ
  pub circuit_breaker_recovery_timeout_sec : F

-- `_rpm_limiter` and `_llm_limiter`, of which at most one is made
pub data Minute (F : Type 0) : Type 0 where
  unlimited : Minute F
  requests : TokenBucket F → Minute F
  tokens : RpmTpm F → Minute F

-- `_httpx_client` and `_curl_session`, of which one is there until the client is closed
pub data Transport : Type 0 where
  httpx curl_cffi closed : Transport

abbrev pub transport_for : String → Transport
transport_for transport = if str_eq transport "curl_cffi" then curl_cffi else httpx

-- `max(1, token_estimate) if token_estimate is not None else 1`; `acquire` takes the maximum as well
abbrev pub tokens_asked : Option ℕ → ℕ
tokens_asked none = 1
tokens_asked (some token_estimate) = token_estimate

module _ {F : Type 0} ⦃fl : Float F⦄ where
  abbrev pub requests_limit : Option ℕ → F → Minute F
  requests_limit none now = unlimited
  requests_limit (some rpm) now =
      requests (new_bucket (fl.div (fl.lit rpm 0) (fl.lit 60 0)) (some (fl.lit rpm 0)) now)

  abbrev pub limit_of : Option ℕ → Option ℕ → F → Minute F
  limit_of rpm (some tpm) now = tokens (new_limiter rpm tpm now)
  limit_of rpm none now = requests_limit rpm now

  -- the limiters that `__init__` makes, at a reading of the clock
  unfoldable pub minute_limits : RateLimitConfig F → F → Minute F
  minute_limits config now =
      limit_of config.max_requests_per_minute config.max_tokens_per_minute now

  abbrev pub with_bucket : Option (TokenBucket F) → Option (Minute F)
  with_bucket none = none
  with_bucket (some b) = some (requests b)

  abbrev pub with_tokens : Option (RpmTpm F) → Option (Minute F)
  with_tokens none = none
  with_tokens (some l) = some (tokens l)

  -- The part of `_acquire_limits` behind the adaptive limiter. It gives `none` where the readings of the
  -- clock end before the limiter grants.
  unfoldable pub acquire_minute : Option ℕ → List F → Minute F → Option (Minute F)
  acquire_minute token_estimate clock unlimited = some unlimited
  acquire_minute token_estimate clock (requests b) =
      with_bucket (acquire_bucket (fl.lit 1 0) clock b)
  acquire_minute token_estimate clock (tokens l) =
      with_tokens (acquire_llm (tokens_asked token_estimate) clock l)

  -- `reconcile_token_usage`
  unfoldable pub reconcile_token_usage : ℕ → ℕ → F → Minute F → Minute F
  reconcile_token_usage expected actual now (tokens l) =
      tokens (update_actual_tokens expected actual now l)
  reconcile_token_usage expected actual now m = m

abbrev pub default_rate_limit_db_path : String
default_rate_limit_db_path = ".cache/finpipe/rate_limits.db"

-- `rate_limit_db_path`: the file with the learned rates
unfoldable pub rate_limit_db_path : Option CacheConfig → String
rate_limit_db_path none = default_rate_limit_db_path
rate_limit_db_path (some cache_config) =
    if str_eq cache_config.cache_type "sqlite"
    then path_or cache_config.sqlite_path cache_config.sqlite_db_path
    else default_rate_limit_db_path

-- `s[:n]`
unfoldable pub clip : ℕ → String → String
clip zero s = ""
clip (suc n) String.[] = ""
clip (suc n) (String.◌∷◌ c s) = String.◌∷◌ c (clip n s)

-- `s.replace("\n", " ")`
unfoldable pub in_one_line : String → String
in_one_line String.[] = ""
in_one_line (String.◌∷◌ c s) =
    if code c == 10 then concat " " (in_one_line s) else String.◌∷◌ c (in_one_line s)

module _ (u : Unicode) where
  -- `_http_error_body_snippet` of a response's text
  unfoldable pub http_error_body_snippet : String → String
  http_error_body_snippet text =
      let snippet = in_one_line (strip u text) in
      if is_empty text
      then ""
      else (if ltb 300 (text_length snippet) then concat (clip 300 snippet) "…" else snippet)

  abbrev pub show_status : Option ℕ → String
  show_status none = "None"
  show_status (some status_code) = show status_code

  -- `_format_http_status_error`
  unfoldable pub format_http_status_error : Option ℕ → String → String
  format_http_status_error status_code text =
      let msg = concat "Provider returned error status: " (show_status status_code) in
      let snippet = http_error_body_snippet text in
      if is_empty snippet then msg else concat msg (concat ": " snippet)
