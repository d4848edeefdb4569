-- ===== src/Limiter/Buckets.antt =====
-- `TokenBucketRateLimiter` and `RpmTpmRateLimiter` of src/network/limiter.py. A call of `acquire` is a
-- loop of rounds, each at a reading of the clock: the readings are a list, and a call that has not
-- returned when they end gives `none`.
use finpipe.Base.{
  ℕ, ◌+◌, ◌-◌, ◌/◌, ◌≡◌, Bool, true, false, ◌&&◌, Option, none, some, List, [], ◌∷◌, leb, ltb, ◌==◌,
  if◌then◌else◌,
}
use finpipe.Base
use finpipe.Float.{Float, min, max, less}

pub record TokenBucket (F : Type 0) : Type 0 where
  pub target_max_rate : F
  pub current_max_rate : F
  pub capacity : F
  pub tokens : F
  pub last_update : F

module _ {F : Type 0} ⦃fl : Float F⦄ where
  abbrev pub or_rate : Option F → F → F
  or_rate none max_rate = max_rate
  or_rate (some capacity) max_rate = capacity

  unfoldable pub new_bucket : F → Option F → F → TokenBucket F
  new_bucket max_rate capacity now = record {
    target_max_rate = max_rate;
    current_max_rate = max_rate;
    capacity = or_rate capacity max_rate;
    tokens = or_rate capacity max_rate;
    last_update = now;
  }

  -- `_replenish`
  unfoldable pub replenish : F → TokenBucket F → TokenBucket F
  replenish now b = record b {
    tokens =
        min b.capacity (fl.add b.tokens (fl.mul (fl.sub now b.last_update) b.current_max_rate));
    last_update = now;
  }

  -- `if self._current_max_rate < self._target_max_rate: …`
  unfoldable pub recover : TokenBucket F → TokenBucket F
  recover b =
      if less b.current_max_rate b.target_max_rate
      then record b {
        current_max_rate = min b.target_max_rate (fl.mul b.current_max_rate (fl.lit 105 2));
      }
      else b

  -- what `acquire` does under the lock once it has replenished: it takes the tokens, or it gives `none`
  unfoldable pub take_tokens : F → TokenBucket F → Option (TokenBucket F)
  take_tokens amount b =
      if fl.leb amount b.tokens
      then some (recover (record b { tokens = fl.sub b.tokens amount }))
      else none

  -- the time that a round which took nothing sleeps
  unfoldable pub sleep_time : F → TokenBucket F → F
  sleep_time amount b = fl.div (fl.sub amount b.tokens) b.current_max_rate

  unfoldable pub acquire_bucket : F → List F → TokenBucket F → Option (TokenBucket F)
  acquire_bucket amount [] b = none
  acquire_bucket amount (now ∷ clock) b =
      let again = acquire_bucket amount clock (replenish now b) in
      elim (take_tokens amount (replenish now b)) [ none ↦ again | some b' ↦ some b' ]

  unfoldable pub trigger_congestion_backoff : TokenBucket F → TokenBucket F
  trigger_congestion_backoff b = record b {
    current_max_rate = max (fl.lit 1 1) (fl.mul b.current_max_rate (fl.lit 5 1));
  }

-- The bucket of requests of `RpmTpmRateLimiter`, where `rpm` is given.
pub record Requests (F : Type 0) : Type 0 where
  pub capacity : F
  pub tokens : F
  pub rate : F

pub record RpmTpm (F : Type 0) : Type 0 where
  pub requests : Option (Requests F)
  pub tok_capacity : F
  pub tok_tokens : F
  pub tok_rate : F
  pub last_refill : F

module _ {F : Type 0} ⦃fl : Float F⦄ where
  abbrev pub request_bucket : Option ℕ → Option (Requests F)
  request_bucket none = none
  request_bucket (some rpm) = some (record {
    capacity = fl.lit rpm 0;
    tokens = fl.lit rpm 0;
    rate = fl.div (fl.lit rpm 0) (fl.lit 60 0);
  })

  unfoldable pub new_limiter : Option ℕ → ℕ → F → RpmTpm F
  new_limiter rpm tpm now = record {
    requests = request_bucket rpm;
    tok_capacity = fl.lit tpm 0;
    tok_tokens = fl.lit tpm 0;
    tok_rate = fl.div (fl.lit tpm 0) (fl.lit 60 0);
    last_refill = now;
  }

  abbrev pub refill_requests : F → Option (Requests F) → Option (Requests F)
  refill_requests elapsed none = none
  refill_requests elapsed (some r) =
      some (record r { tokens = min r.capacity (fl.add r.tokens (fl.mul elapsed r.rate)) })

  -- `_refill`
  unfoldable pub refill : F → RpmTpm F → RpmTpm F
  refill now l =
      let elapsed = fl.sub now l.last_refill in
      record l {
        requests = refill_requests elapsed l.requests;
        tok_tokens = min l.tok_capacity (fl.add l.tok_tokens (fl.mul elapsed l.tok_rate));
        last_refill = now;
      }

  -- `req_ok`
  abbrev pub request_ok : Option (Requests F) → Bool
  request_ok none = true
  request_ok (some r) = fl.leb (fl.lit 1 0) r.tokens

  abbrev pub spend_request : Option (Requests F) → Option (Requests F)
  spend_request none = none
  spend_request (some r) = some (record r { tokens = fl.sub r.tokens (fl.lit 1 0) })

  -- what a round does under the lock once it has refilled: both buckets pay, or neither
  unfoldable pub pay : F → RpmTpm F → Option (RpmTpm F)
  pay amount l =
      if request_ok l.requests && fl.leb amount l.tok_tokens
      then some (record l {
        requests = spend_request l.requests;
        tok_tokens = fl.sub l.tok_tokens amount;
      })
      else none

  unfoldable pub acquire_rounds : F → List F → RpmTpm F → Option (RpmTpm F)
  acquire_rounds amount [] l = none
  acquire_rounds amount (now ∷ clock) l =
      let again = acquire_rounds amount clock (refill now l) in
      elim (pay amount (refill now l)) [ none ↦ again | some l' ↦ some l' ]

  -- `acquire(tokens)`, with `amount = max(1, tokens)`
  unfoldable pub acquire_llm : ℕ → List F → RpmTpm F → Option (RpmTpm F)
  unfolding acquire_rounds
  acquire_llm tokens clock l = acquire_rounds (fl.lit (Base.max 1 tokens) 0) clock l

  -- `tok_tokens + (expected - actual)`
  abbrev pub corrected : F → ℕ → ℕ → F
  corrected tok expected actual =
      if leb actual expected
      then fl.add tok (fl.lit (expected - actual) 0)
      else fl.sub tok (fl.lit (actual - expected) 0)

  unfoldable pub update_actual_tokens : ℕ → ℕ → F → RpmTpm F → RpmTpm F
  update_actual_tokens expected actual now l =
      if actual == expected
      then l
      else (let l' = refill now l in
          record l' { tok_tokens = min l'.tok_capacity (corrected l'.tok_tokens expected actual) })

-- `estimate_llm_token_usage`, on the length of the prompt
unfoldable pub estimate_llm_token_usage : ℕ → ℕ → ℕ
estimate_llm_token_usage prompt_length max_completion_tokens =
    Base.max 1 (prompt_length / 4) + Base.max 1 max_completion_tokens
