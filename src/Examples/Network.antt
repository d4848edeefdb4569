-- ===== src/Examples/Network.antt =====
-- Runs of the limiters (src/network/limiter.py) and of the resilient client (src/network/resilience.py),
-- on thousandths.
use finpipe.Base.{ℕ, ◌+◌, ◌≡◌, refl, true, false, none, some, [], ◌∷◌, leb, ltb, concat, arith}
use finpipe.Errors.{provider_down, Result, ok, raise}
use finpipe.Float.{Float, Le, less, max, min}
use finpipe.Examples.Milli.{milli}
use finpipe.Examples.Setup.{ascii}
use finpipe.Limiter.Limits.{aimd_multiplicative_decrease}
use finpipe.Limiter.Adaptive.{Limiter, init, acquire, record_success, record_429, save_rate}
use finpipe.Limiter.Tuning.{
  IsTuned, Reach, here, next, acquired, succeeded, limited, limiter-IsTuned,
}
use finpipe.Limiter.Rates.{rate_monotone, restart-rate}
use finpipe.Limiter.Buckets.{
  TokenBucket, new_bucket, take_tokens, recover, replenish, acquire_bucket,
  trigger_congestion_backoff, RpmTpm, new_limiter, spend_request,
}
use finpipe.Limiter.Starvation.{Granted, acquire_bucket-Granted, backoff_exceeds_target}
use finpipe.Resilience.Limits.{RateLimitConfig, requests, httpx, closed, acquire_minute}
use finpipe.Resilience.{
  is_retryable, Retrying, Breaker, Response, Attempt, Client, request, close, create_client,
}
use finpipe.Resilience.Outcomes.{Delivered}
use finpipe.Resilience.Endings.{
  Granting, request_delivers, request_rejected, closed_error, request_closed,
}
use finpipe.Resilience.Created.{created_starves}

instance thousandths : Float ℕ
thousandths = milli

abbrev start : Limiter ℕ
start = init "yahoo" 5000 [] 0

abbrev used : Limiter ℕ
used = record_429 (record_success (acquire 100 start).0)

used-Reach : Reach start used
used-Reach = next (next (next here (acquired 100)) succeeded) limited

limiter-IsTuned_example : IsTuned used
limiter-IsTuned_example = limiter-IsTuned "yahoo" 5000 [] 0 used-Reach

start-IsTuned : IsTuned start
start-IsTuned = limiter-IsTuned "yahoo" 5000 [] 0 here

-- a limiter between 0.1 and 5 requests per second, at one
abbrev at_one : Limiter ℕ
at_one = record {
  namespace = "yahoo";
  hard_cap = 5000;
  min_rate = 100;
  rate = 1000;
  learned_max = 2000;
  consecutive_successes = 3;
  tokens = 4000;
  last_refill = 0;
  rates = ("yahoo", 1000) ∷ [];
}

at_one-IsTuned : IsTuned at_one
unfolding thousandths
at_one-IsTuned = record {
  bounds = refl;
  at_least = refl;
  at_most = refl;
  learned_at_least = refl;
  learned_at_most = refl;
  not_overfull = refl;
  saved = refl;
}

rate_monotone_example :
    Le at_one.rate (record_success at_one).rate
    × Le (record_429 at_one).rate at_one.rate
    × ((record_429 at_one).rate
        ≡ max at_one.min_rate (milli.mul at_one.rate aimd_multiplicative_decrease))
    × ((record_429 at_one).consecutive_successes ≡ 0)
unfolding thousandths
rate_monotone_example = rate_monotone at_one at_one-IsTuned refl

restart-rate_example : (init start.namespace 5000 start.rates 7).rate ≡ start.rate
unfolding init save_rate thousandths
restart-rate_example = restart-rate start 5000 7 start-IsTuned refl refl

-- a bucket of two requests per second, with its two tokens
abbrev bucket : TokenBucket ℕ
bucket = new_bucket 2000 none 0

abbrev slow_bucket : TokenBucket ℕ
slow_bucket = new_bucket 50 none 0

abbrev granted_bucket : TokenBucket ℕ
granted_bucket = record bucket { tokens = 1000; last_update = 500 }

acquire_bucket-Granted_example : Granted bucket granted_bucket
unfolding acquire_bucket new_bucket take_tokens recover replenish min thousandths
acquire_bucket-Granted_example =
    acquire_bucket-Granted 1000 (500 ∷ []) bucket granted_bucket refl refl

backoff_exceeds_target_example :
    less slow_bucket.target_max_rate (trigger_congestion_backoff slow_bucket).current_max_rate
    ≡ true
unfolding new_bucket thousandths
backoff_exceeds_target_example = backoff_exceeds_target slow_bucket refl

-- two requests and five tokens per minute
abbrev llm : RpmTpm ℕ
llm = new_limiter (some 2) 5 0

abbrev paid : RpmTpm ℕ
paid = record llm { requests = spend_request llm.requests; tok_tokens = 1000 }

-- at most two attempts, for every exception that may be retried
abbrev twice : Retrying 2
twice = record {
  again = λ n e. elim (ltb n 2) [ true ↦ is_retryable e | false ↦ false ];
  again_retryable = λ n e h. ground arith;
  again_before_stop = λ n e h. ground arith;
}

-- a breaker that counts failures, and opens at three
abbrev counting : Breaker ℕ ℕ
counting = record {
  create = λ threshold recovery. 0;
  rejects = λ failures. leb 3 failures;
  succeed = λ failures. 0;
  fail = λ failures. failures + 1;
  trips = λ failures. leb 2 failures;
  created_closed = λ threshold recovery. refl;
}

abbrev client : Client ℕ ℕ
client = record { breaker = 0; limiter = start; minute = requests bucket; transport = httpx }

abbrev open_client : Client ℕ ℕ
open_client = record client { breaker = 3 }

abbrev throttled : Attempt ℕ
throttled = record {
  now = 100;
  clock = 200 ∷ [];
  answer = ok (record { status_code = 429; text = "slow down" });
}

abbrev answered : Attempt ℕ
answered = record {
  now = 2000;
  clock = 2100 ∷ [];
  answer = ok (record { status_code = 200; text = "{}" });
}

attempts-Granting : Granting none (throttled ∷ answered ∷ []) client.minute
unfolding acquire_minute acquire_bucket new_bucket replenish take_tokens recover min thousandths
attempts-Granting = ((tt, (_, refl, tt)), (_, refl, (tt, (_, refl, tt))))

request_delivers_example :
    (o : Result Response × Client ℕ ℕ) × (request counting ascii twice "https://example.org" none
        (throttled ∷ answered ∷ [])
        client
      ≡ some o)
    × Delivered o.0
    × IsTuned o.1.limiter
request_delivers_example =
    request_delivers counting ascii twice "https://example.org" none throttled (answered ∷ [])
      client start-IsTuned attempts-Granting (omega arith)

request_rejected_example :
    request counting ascii twice "https://example.org" none (throttled ∷ []) open_client
    ≡ some (
      raise (provider_down (concat "Circuit breaker tripped for " "https://example.org")),
      open_client,
    )
request_rejected_example =
    request_rejected counting ascii twice "https://example.org" none throttled [] open_client refl

-- what the bucket is after the grant of a request
abbrev spent_bucket : TokenBucket ℕ
spent_bucket = record bucket { tokens = 1000; last_update = 200 }

-- a breaker that is told of the calls only
abbrev told : Breaker ℕ ℕ
told = record counting { fail = λ failures. 0; trips = λ failures. false }

request_closed_example :
    request told ascii twice "https://example.org" none (throttled ∷ []) (close client)
    ≡ some (
      raise (closed_error "yahoo"),
      record {
        breaker = 0;
        limiter = (acquire 100 start).0;
        minute = requests spent_bucket;
        transport = closed;
      },
    )
unfolding acquire_minute acquire_bucket new_bucket replenish take_tokens recover min thousandths
    init save_rate
request_closed_example =
    request_closed told ascii twice "https://example.org" none throttled [] client
      (requests spent_bucket) (record { fail_succeed = λ b. refl; never_trips = λ b. refl }) refl
      refl

-- five tokens per minute, and three attempts
abbrev few_tokens : RateLimitConfig ℕ
few_tokens = record {
  max_requests_per_second = 5000;
  max_requests_per_minute = some 2;
  max_tokens_per_minute = some 5;
  max_retries = 2;
  circuit_breaker_failure_threshold = 5;
  circuit_breaker_recovery_timeout_sec = 60000;
}

abbrev no_limits : RateLimitConfig ℕ
no_limits = record few_tokens { max_requests_per_minute = none; max_tokens_per_minute = none }

created_starves_example :
    request counting ascii twice "https://example.org"
      (some 6)
      (answered ∷ [])
      (create_client counting "groq" few_tokens "httpx" [] 0)
    ≡ none
unfolding thousandths
created_starves_example =
    created_starves counting ascii "groq" few_tokens "httpx" [] 0 twice "https://example.org"
      (some 6) (answered ∷ []) 5 refl refl
