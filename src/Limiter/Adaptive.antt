-- ===== src/Limiter/Adaptive.antt =====
-- `AdaptiveRateLimiter` of src/network/limiter.py. A method returns the new state. The SQLite table
-- `api_rate_limits` is a dict from namespaces to rates; its column `last_updated` is never read.
use finpipe.Base.{
  ℕ, ◌+◌, Bool, not, ◌&&◌, ◌||◌, Option, none, some, String, Dict, lookup, insert, leb,
  if◌then◌else◌,
}
use finpipe.Float.{Float, min, max, less}
use finpipe.Limiter.Limits.{
  aimd_min_rate_rps, aimd_additive_increase_rps, aimd_multiplicative_decrease, aimd_burst_capacity,
  aimd_successes_before_increase, initial_rate_for_cap, get_hard_cap_rps,
}

pub record Limiter (F : Type 0) : Type 0 where
  pub namespace : String
  pub hard_cap : F
  pub min_rate : F
  pub rate : F
  pub learned_max : F
  pub consecutive_successes : ℕ
  pub tokens : F
  pub last_refill : F
  -- the table in the database
  pub rates : Dict F

module _ {F : Type 0} ⦃fl : Float F⦄ where
  abbrev pub capacity : F
  capacity = fl.lit aimd_burst_capacity 0

  -- `max(self.min_rate, min(self.hard_cap, rate))`
  unfoldable pub clamp : F → F → F → F
  clamp min_rate hard_cap rate = max min_rate (min hard_cap rate)

  abbrev pub clamp_rate : Limiter F → F → F
  clamp_rate l rate = clamp l.min_rate l.hard_cap rate

  -- `a != b` on floats
  abbrev pub differs : F → F → Bool
  differs a b = not (fl.leb a b && fl.leb b a)

  -- `_load_rate`: the stored rate, or the default
  abbrev pub stored_or : Option F → F → F
  stored_or none default_rate = default_rate
  stored_or (some rate) default_rate = rate

  unfoldable pub save_rate : Limiter F → Limiter F
  save_rate l = record l { rates = insert l.namespace l.rate l.rates }

  -- `__init__` on a database and a reading of the clock
  unfoldable pub init : String → F → Dict F → F → Limiter F
  unfolding save_rate
  init namespace hard_cap_rps rates now =
      let hard_cap = get_hard_cap_rps namespace hard_cap_rps in
      let min_rate = min aimd_min_rate_rps hard_cap in
      let loaded =
        clamp min_rate hard_cap
          (stored_or (lookup namespace rates) (initial_rate_for_cap hard_cap)) in
      let rate = clamp min_rate hard_cap loaded in
      save_rate (record {
        namespace = namespace;
        hard_cap = hard_cap;
        min_rate = min_rate;
        rate = rate;
        learned_max = clamp min_rate hard_cap rate;
        consecutive_successes = 0;
        tokens = capacity;
        last_refill = now;
        rates = rates;
      })

  abbrev pub one : F
  one = fl.lit 1 0

  -- the tokens that `acquire` finds when the clock reads `now`
  unfoldable pub refilled : Limiter F → F → F
  refilled l now = min capacity (fl.add l.tokens (fl.mul (fl.sub now l.last_refill) l.rate))

  -- `(1.0 - self.tokens) / self.rate if self.rate > 0 else 0.0`
  unfoldable pub wait_for : Limiter F → F → F
  wait_for l tokens =
      if less (fl.lit 0 0) l.rate then fl.div (fl.sub one tokens) l.rate else fl.lit 0 0

  -- `acquire` at the reading `now` of the clock: the state, and the time that the caller sleeps
  unfoldable pub acquire : F → Limiter F → Limiter F × F
  acquire now l =
      let tokens = refilled l now in
      if fl.leb one tokens
      then (record l { tokens = fl.sub tokens one; last_refill = now }, fl.lit 0 0)
      else (
        record l { tokens = fl.lit 0 0; last_refill = fl.add now (wait_for l tokens) },
        wait_for l tokens,
      )

  -- the assignment of a new rate, with the write where it differs
  unfoldable pub set_rate : F → Limiter F → Limiter F
  unfolding save_rate
  set_rate new_rate l =
      if differs new_rate l.rate
      then save_rate (record l { rate = new_rate })
      else record l { rate = new_rate }

  -- the test of `record_success`, after the count went up
  abbrev pub may_increase : Limiter F → Bool
  may_increase l =
      less l.rate l.learned_max
      || (leb aimd_successes_before_increase l.consecutive_successes && less l.rate l.hard_cap)

  -- `if self.consecutive_successes >= self.successes_before_increase: self.consecutive_successes = 0`
  abbrev pub reset_count : Limiter F → Limiter F
  reset_count l =
      if leb aimd_successes_before_increase l.consecutive_successes
      then record l { consecutive_successes = 0 }
      else l

  unfoldable pub count_success : Limiter F → Limiter F
  count_success l = record l { consecutive_successes = l.consecutive_successes + 1 }

  unfoldable pub raise_rate : Limiter F → Limiter F
  raise_rate l = set_rate (clamp_rate l (fl.add l.rate aimd_additive_increase_rps)) l

  unfoldable pub record_success : Limiter F → Limiter F
  record_success l =
      let counted = count_success l in
      if may_increase counted then reset_count (raise_rate counted) else counted

  unfoldable pub record_429 : Limiter F → Limiter F
  record_429 l =
      set_rate (clamp_rate l (max l.min_rate (fl.mul l.rate aimd_multiplicative_decrease)))
        (record l { consecutive_successes = 0 })
