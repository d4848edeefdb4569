-- ===== src/Limiter/Rates.antt =====
-- How the adaptive limiter's rate moves, and that it survives a restart (src/network/limiter.py).
use finpipe.Base.{◌≡◌, ap, ◌∙◌, arith}
use finpipe.Float.{
  Float, min, max, Le, le_refl, min-le_right, le-min, le-max_left, le-max_right, max-le,
  three_quarters_le_one, lit_zero,
}
use finpipe.Limiter.Limits.{
  get_hard_cap_rps, aimd_min_rate_rps, aimd_additive_increase_rps, aimd_multiplicative_decrease,
}
use finpipe.Limiter.Adaptive.{
  Limiter, clamp, clamp_rate, save_rate, init, set_rate, count_success, raise_rate, record_success,
  record_429,
}
use finpipe.Limiter.Tuning.{IsTuned, set_rate-rate, clamp_within}

module _ {F : Type 0} ⦃fl : Float F⦄ where
  clamp-le : (lo hi r x : F) → Le lo x → Le r x → Le (clamp lo hi r) x
  unfolding clamp
  clamp-le lo hi r x h k = max-le lo (min hi r) x h (fl.le_trans _ _ _ (min-le_right hi r) k)

  le-clamp : (lo hi r x : F) → Le x hi → Le x r → Le x (clamp lo hi r)
  unfolding clamp
  le-clamp lo hi r x h k = fl.le_trans _ _ _ (le-min x hi r h k) (le-max_right lo (min hi r))

  raise_rate-ge : (l : Limiter F) → Le l.rate l.hard_cap → Le l.rate (raise_rate l).rate
  unfolding raise_rate
  raise_rate-ge l h =
      rw (set_rate-rate (clamp_rate l (fl.add l.rate aimd_additive_increase_rps)) l) (
        le-clamp l.min_rate l.hard_cap _ l.rate h
          (fl.le-add l.rate _ (rw (← lit_zero fl 1) (fl.lit_mono 0 5 1 (omega arith)))))

  pub record_success-ge : (l : Limiter F) → Le l.rate l.hard_cap → Le l.rate (record_success l).rate
  unfolding record_success count_success
  record_success-ge l h = ground (arith, raise_rate-ge (count_success l) h, le_refl l.rate)

  lowered :
      (l : Limiter F)
      → IsTuned l
      → Le (fl.lit 0 0) l.min_rate
      → Le (max l.min_rate (fl.mul l.rate aimd_multiplicative_decrease)) l.rate
  lowered l t positive =
      max-le l.min_rate (fl.mul l.rate aimd_multiplicative_decrease) l.rate t.at_least
        (fl.mul-le l.rate _ (fl.le_trans _ _ _ positive t.at_least) (three_quarters_le_one fl))

  decreased :
      (l : Limiter F)
      → IsTuned l
      → Le (fl.lit 0 0) l.min_rate
      → (record_429 l).rate ≡ max l.min_rate (fl.mul l.rate aimd_multiplicative_decrease)
  unfolding record_429
  decreased l t positive =
      set_rate-rate _ (record l { consecutive_successes = 0 })
      ∙ clamp_within l.min_rate l.hard_cap _ (le-max_left l.min_rate _)
          (fl.le_trans _ _ _ (lowered l t positive) t.at_most)

  count_restarts : (l : Limiter F) → (record_429 l).consecutive_successes ≡ 0
  unfolding record_429 set_rate save_rate
  count_restarts l = ground arith

  -- Additive increase, multiplicative decrease: on a tuned limiter whose minimal rate is not
  -- negative, a success never lowers the rate. A
  -- 429 never raises it, makes it three quarters of what it was (or the minimal rate, where that is
  -- more) and starts the count of successes anew.
  pub rate_monotone :
      (l : Limiter F)
      → IsTuned l
      → Le (fl.lit 0 0) l.min_rate
      → Le l.rate (record_success l).rate
        × Le (record_429 l).rate l.rate
        × ((record_429 l).rate ≡ max l.min_rate (fl.mul l.rate aimd_multiplicative_decrease))
        × ((record_429 l).consecutive_successes ≡ 0)
  rate_monotone l t positive =
      let e = decreased l t positive in
      (record_success-ge l t.at_most, rw e (lowered l t positive), e, count_restarts l)

  -- A limiter that is built anew for the namespace of a tuned one, over its database and with the same
  -- hard cap and minimal rate, starts at the rate that the old one had: what was learned survives a
  -- restart.
  pub restart-rate :
      (l : Limiter F) (hard_cap_rps now : F)
      → IsTuned l
      → l.hard_cap ≡ get_hard_cap_rps l.namespace hard_cap_rps
      → l.min_rate ≡ min aimd_min_rate_rps l.hard_cap
      → (init l.namespace hard_cap_rps l.rates now).rate ≡ l.rate
  unfolding init save_rate
  restart-rate l hard_cap_rps now t hc hm =
      rw (t.saved, ← hc, ← hm)
        (ap (clamp l.min_rate l.hard_cap) (clamp_within _ _ l.rate t.at_least t.at_most)
          ∙ clamp_within _ _ l.rate t.at_least t.at_most)
