-- ===== src/Limiter/Tuning.antt =====
-- The invariant of the adaptive limiter: the rate stays in its bounds and in the database.
use finpipe.Base.{
  ◌≡◌, Bool-cases, inl, inr, some, String, Dict, lookup, insert, lookup-insert, eq_refl, arith,
}
use finpipe.Float.{
  Float, min, Le, le_refl, min-le_left, min-le_right, le-min, le-max_left, le-max_right, max-le,
}
use finpipe.Limiter.Limits.{get_hard_cap_rps, aimd_min_rate_rps}
use finpipe.Limiter.Adaptive.{
  Limiter, capacity, one, clamp, differs, save_rate, init, refilled, acquire, set_rate,
  may_increase, reset_count, count_success, raise_rate, record_success, record_429,
}

module _ {F : Type 0} ⦃fl : Float F⦄ where
  -- The rate and the learned rate are within the bounds, the bucket is not over-full, and the database
  -- has the rate.
  pub record IsTuned (l : Limiter F) : Type 0 where
    pub bounds : Le l.min_rate l.hard_cap
    pub at_least : Le l.min_rate l.rate
    pub at_most : Le l.rate l.hard_cap
    pub learned_at_least : Le l.min_rate l.learned_max
    pub learned_at_most : Le l.learned_max l.hard_cap
    pub not_overfull : Le l.tokens capacity
    pub saved : lookup l.namespace l.rates ≡ some l.rate

  clamp_least : (lo hi r : F) → Le lo (clamp lo hi r)
  unfolding clamp
  clamp_least lo hi r = le-max_left lo (min hi r)

  clamp_most : (lo hi r : F) → Le lo hi → Le (clamp lo hi r) hi
  unfolding clamp
  clamp_most lo hi r h = max-le lo (min hi r) hi h (min-le_left hi r)

  pub clamp_within : (lo hi r : F) → Le lo r → Le r hi → clamp lo hi r ≡ r
  unfolding clamp
  clamp_within lo hi r h k =
      fl.le_antisymm _ _ (max-le lo (min hi r) r h (min-le_right hi r))
        (fl.le_trans _ _ _ (le-min r hi r k (le_refl r)) (le-max_right lo (min hi r)))

  lookup-insert_self : (k : String) (v : F) (d : Dict F) → lookup k (insert k v d) ≡ some v
  lookup-insert_self k v d = simp (lookup-insert, eq_refl)

  refilled-le : (l : Limiter F) (now : F) → Le (refilled l now) capacity
  unfolding refilled
  refilled-le l now =
      min-le_left capacity (fl.add l.tokens (fl.mul (fl.sub now l.last_refill) l.rate))

  -- Whatever the configured cap, the database and the clock, a new limiter is tuned.
  pub init-IsTuned :
      (namespace : String) (hard_cap_rps : F) (rates : Dict F) (now : F)
      → IsTuned (init namespace hard_cap_rps rates now)
  unfolding init save_rate
  init-IsTuned namespace hard_cap_rps rates now =
      let hard_cap = get_hard_cap_rps namespace hard_cap_rps in
      let bounds = min-le_right aimd_min_rate_rps hard_cap in
      record {
        bounds = bounds;
        at_least = clamp_least _ _ _;
        at_most = clamp_most _ _ _ bounds;
        learned_at_least = clamp_least _ _ _;
        learned_at_most = clamp_most _ _ _ bounds;
        not_overfull = fl.lit_mono 10 10 0 (omega arith);
        saved = lookup-insert_self namespace _ rates;
      }

  pub acquire-IsTuned : (now : F) (l : Limiter F) → IsTuned l → IsTuned (acquire now l).0
  unfolding acquire
  acquire-IsTuned now l t = elim (Bool-cases (fl.leb one (refilled l now))) [
    | inl e ↦
        rw (e, acquire)
          (record {
            bounds = t.bounds;
            at_least = t.at_least;
            at_most = t.at_most;
            learned_at_least = t.learned_at_least;
            learned_at_most = t.learned_at_most;
            not_overfull =
                fl.le_trans _ _ _ (fl.sub-le (refilled l now) one (fl.lit_mono 0 1 0 (omega arith)))
                  (refilled-le l now);
            saved = t.saved;
          })
    | inr e ↦
        rw (e, acquire)
          (record {
            bounds = t.bounds;
            at_least = t.at_least;
            at_most = t.at_most;
            learned_at_least = t.learned_at_least;
            learned_at_most = t.learned_at_most;
            not_overfull = fl.lit_mono 0 10 0 (omega arith);
            saved = t.saved;
          })
  ]

  pub set_rate-rate : (r : F) (l : Limiter F) → (set_rate r l).rate ≡ r
  unfolding set_rate save_rate
  set_rate-rate r l = ground arith

  set_rate-IsTuned :
      (r : F) (l : Limiter F)
      → Le l.min_rate r
      → Le r l.hard_cap
      → IsTuned l
      → IsTuned (set_rate r l)
  unfolding set_rate save_rate
  set_rate-IsTuned r l h k t = elim (Bool-cases (differs r l.rate)) [
    | inl e ↦
        rw (e, set_rate)
          (record {
            bounds = t.bounds;
            at_least = h;
            at_most = k;
            learned_at_least = t.learned_at_least;
            learned_at_most = t.learned_at_most;
            not_overfull = t.not_overfull;
            saved = lookup-insert_self l.namespace r l.rates;
          })
    | inr e ↦
        rw (e, set_rate)
          (record {
            bounds = t.bounds;
            at_least = h;
            at_most = k;
            learned_at_least = t.learned_at_least;
            learned_at_most = t.learned_at_most;
            not_overfull = t.not_overfull;
            saved = ground (arith, t.saved, fl.le_antisymm r l.rate);
          })
  ]

  count_success-IsTuned : (l : Limiter F) → IsTuned l → IsTuned (count_success l)
  unfolding count_success
  count_success-IsTuned l t = ground (
    arith, t.bounds, t.at_least, t.at_most, t.learned_at_least, t.learned_at_most, t.not_overfull,
    t.saved,
  )

  reset_count-IsTuned : (l : Limiter F) → IsTuned l → IsTuned (reset_count l)
  reset_count-IsTuned l t = ground (
    arith, t.bounds, t.at_least, t.at_most, t.learned_at_least, t.learned_at_most, t.not_overfull,
    t.saved,
  )

  raise_rate-IsTuned : (l : Limiter F) → IsTuned l → IsTuned (raise_rate l)
  unfolding raise_rate
  raise_rate-IsTuned l t = set_rate-IsTuned _ l (clamp_least _ _ _) (clamp_most _ _ _ t.bounds) t

  pub record_success-IsTuned : (l : Limiter F) → IsTuned l → IsTuned (record_success l)
  unfolding record_success
  record_success-IsTuned l t = elim (Bool-cases (may_increase (count_success l))) [
    | inl e ↦
        rw (e, record_success)
          (reset_count-IsTuned _ (raise_rate-IsTuned _ (count_success-IsTuned l t)))
    | inr e ↦ rw (e, record_success) (count_success-IsTuned l t)
  ]

  pub record_429-IsTuned : (l : Limiter F) → IsTuned l → IsTuned (record_429 l)
  unfolding record_429
  record_429-IsTuned l t =
      set_rate-IsTuned _ (record l { consecutive_successes = 0 }) (clamp_least _ _ _)
        (clamp_most _ _ _ t.bounds)
        (record {
          bounds = t.bounds;
          at_least = t.at_least;
          at_most = t.at_most;
          learned_at_least = t.learned_at_least;
          learned_at_most = t.learned_at_most;
          not_overfull = t.not_overfull;
          saved = t.saved;
        })

  -- What the program does to a limiter: callers acquire at some reading of the clock, and responses are
  -- successes or 429s. Calls are atomic, under the limiter's lock.
  pub data Step (l : Limiter F) : Limiter F → Type 0 where
    acquired : (now : F) → Step l (acquire now l).0
    succeeded : Step l (record_success l)
    limited : Step l (record_429 l)

  pub data Reach (l : Limiter F) : Limiter F → Type 0 where
    here : Reach l l
    next : {m n : Limiter F} → Reach l m → Step m n → Reach l n

  Step-IsTuned : {l m : Limiter F} → Step l m → IsTuned l → IsTuned m
  Step-IsTuned {l} (acquired now) t = acquire-IsTuned now l t
  Step-IsTuned {l} succeeded t = record_success-IsTuned l t
  Step-IsTuned {l} limited t = record_429-IsTuned l t

  Reach-IsTuned : {l m : Limiter F} → IsTuned l → Reach l m → IsTuned m
  Reach-IsTuned t here = t
  Reach-IsTuned t (next r s) = Step-IsTuned s (Reach-IsTuned t r)

  -- From a new limiter, whatever cap is configured and whatever rate the database holds, every limiter
  -- that is reached by acquisitions, successes and 429s has its rate and its learned rate between the
  -- minimal rate and the hard cap, no more tokens than the capacity, and its own rate in the database.
  pub limiter-IsTuned :
      (namespace : String) (hard_cap_rps : F) (rates : Dict F) (now : F) {l : Limiter F}
      → Reach (init namespace hard_cap_rps rates now) l
      → IsTuned l
  limiter-IsTuned namespace hard_cap_rps rates now r =
      Reach-IsTuned (init-IsTuned namespace hard_cap_rps rates now) r
