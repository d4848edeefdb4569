-- ===== src/Errors.antt =====
-- src/core/exceptions.py and the built-in exceptions that the program raises or catches, and results
-- that carry one.
use finpipe.Base.{ℕ, Bool, true, false, Option, String}

-- The constructor is the class, the text is `str(exc)`. `http_status_error` stands for
-- httpx.HTTPStatusError and curl_cffi's HTTPError with the response's status code, if it has one,
-- `network_error` for httpx.NetworkError, and `other_error` for every other class, the timeouts and the
-- protocol errors of httpx among them.
pub data Exn : Type 0 where
  rate_limit_exceeded data_not_found provider_down config_error parse_error : String → Exn
  key_error value_error type_error attribute_error runtime_error not_implemented : String → Exn
  http_status_error : Option ℕ → String → Exn
  network_error circuit_breaker_error other_error : String → Exn

-- `isinstance(exc, FinpipeError)`
abbrev pub is_finpipe_error : Exn → Bool
is_finpipe_error (rate_limit_exceeded m) = true
is_finpipe_error (data_not_found m) = true
is_finpipe_error (provider_down m) = true
is_finpipe_error (config_error m) = true
is_finpipe_error (parse_error m) = true
is_finpipe_error _ = false

pub data Result {ℓ} (A : Type ℓ) : Type ℓ where
  ok : A → Result A
  raise : Exn → Result A

infixl 5 ◌>>=◌
abbrev pub ◌>>=◌ {ℓ κ} : {A : Type ℓ} {B : Type κ} → Result A → (A → Result B) → Result B
ok a >>= f = f a
raise e >>= f = raise e

-- what a call comes to that returns None or raises
abbrev pub Done : Type 0
Done = Result (Unit {0})
