-- ===== src/Limiter/Starvation.antt =====
-- When the token buckets grant, and when they never do (src/network/limiter.py).
use finpipe.Base.{
  ℕ, ◌↔◌, suc, ◌+◌, ◌*◌, ◌≤◌, ◌<◌, ◌≡◌, refl, ◌⊎◌, inl, inr, Bool, true, false, ◌&&◌, Bool-cases,
  Option, none, some, List, [], ◌∷◌, arith, if◌then◌else◌, leb, ltb, ◌==◌,
}
use finpipe.Base
use finpipe.Float.{Float, max, less, Le, min-le_left, le-max_left}
use finpipe.Limiter.Buckets.{
  TokenBucket, replenish, recover, take_tokens, acquire_bucket, trigger_congestion_backoff, RpmTpm,
  refill, request_ok, spend_request, pay, acquire_rounds, acquire_llm, update_actual_tokens,
  corrected,
}

module _ {F : Type 0} ⦃fl : Float F⦄ where
  replenish-le : (now : F) (b : TokenBucket F) → Le (replenish now b).tokens b.capacity
  unfolding replenish
  replenish-le now b =
      min-le_left b.capacity
        (fl.add b.tokens (fl.mul (fl.sub now b.last_update) b.current_max_rate))

  replenish-capacity : (now : F) (b : TokenBucket F) → (replenish now b).capacity ≡ b.capacity
  unfolding replenish
  replenish-capacity now b = refl

  -- no bucket that is not over-full has more tokens than its capacity
  not_enough :
      (amount held capacity : F)
      → Le held capacity
      → less capacity amount ≡ true
      → fl.leb amount held ≡ false
  not_enough amount held capacity h k = elim (Bool-cases (fl.leb amount held)) [
    | inl e ↦ absurd (ground (arith, fl.le_trans amount held capacity))
    | inr e ↦ e
  ]

  take_tokens_fails :
      (amount : F) (b : TokenBucket F)
      → Le b.tokens b.capacity
      → less b.capacity amount ≡ true
      → take_tokens amount b ≡ none
  unfolding take_tokens
  take_tokens_fails amount b h k = rw (not_enough amount b.tokens b.capacity h k)

  -- A call that wants more tokens than the bucket can hold never returns: no readings of the clock, and
  -- no number of rounds, end its loop.
  acquire_bucket_starves :
      (amount : F) (clock : List F) (b : TokenBucket F)
      → less b.capacity amount ≡ true
      → acquire_bucket amount clock b ≡ none
  unfolding acquire_bucket
  acquire_bucket_starves amount [] b h = refl
  acquire_bucket_starves amount (now ∷ clock) b h = ground (
    arith,
    take_tokens_fails amount (replenish now b),
    replenish-le now b,
    replenish-capacity now b,
    acquire_bucket_starves amount clock (replenish now b),
  )

  -- What a granted call leaves: the capacity, and no fewer than zero tokens and no more than it holds.
  pub record Granted (b b' : TokenBucket F) : Type 0 where
    pub same_capacity : b'.capacity ≡ b.capacity
    pub no_debt : Le (fl.lit 0 0) b'.tokens
    pub not_overfull : Le b'.tokens b.capacity

  take_tokens-Granted :
      (amount : F) (b b' : TokenBucket F)
      → Le (fl.lit 0 0) amount
      → Le b.tokens b.capacity
      → take_tokens amount b ≡ some b'
      → Granted b b'
  unfolding take_tokens recover
  take_tokens-Granted amount b b' pos full h = ground (
    arith,
    fl.sub-nonneg b.tokens amount,
    fl.le_trans (fl.sub b.tokens amount) b.tokens b.capacity (fl.sub-le b.tokens amount pos) full,
  )

  moved : (now : F) (b b' : TokenBucket F) → Granted (replenish now b) b' → Granted b b'
  unfolding replenish
  moved now b b' g = record {
    same_capacity = g.same_capacity;
    no_debt = g.no_debt;
    not_overfull = g.not_overfull;
  }

  -- A call of `acquire` for zero or more tokens that returns, in whatever round, leaves a bucket of the same capacity with at
  -- least zero and at most that many tokens.
  pub acquire_bucket-Granted :
      (amount : F) (clock : List F) (b b' : TokenBucket F)
      → Le (fl.lit 0 0) amount
      → acquire_bucket amount clock b ≡ some b'
      → Granted b b'
  unfolding acquire_bucket
  acquire_bucket-Granted amount [] b b' pos h = absurd (ground arith)
  acquire_bucket-Granted amount (now ∷ clock) b b' pos h =
      elim (Base.Option-cases (take_tokens amount (replenish now b))) [
        | inl e ↦ moved now b b' (
            acquire_bucket-Granted amount clock (replenish now b) b' pos
              (rw (e, acquire_bucket) at h))
        | inr (c, e) ↦
            let same : c ≡ b' = ground arith in
            moved now b b' (
              take_tokens-Granted amount (replenish now b) b' pos
                (rw (replenish-capacity now b) (replenish-le now b)) (rw (← same) e))
      ]

  not_below : (a b c : F) → Le b c → less a b ≡ true → less a c ≡ true
  not_below a b c h k = elim (Bool-cases (fl.leb c a)) [
    | inl e ↦ absurd (ground (arith, fl.le_trans b c a))
    | inr e ↦ rw e
  ]

  -- The congestion backoff halves the rate down to 0.1 requests per second and no further. So it raises
  -- the rate above the target of a limiter whose target is lower than that.
  pub backoff_exceeds_target :
      (b : TokenBucket F)
      → less b.target_max_rate (fl.lit 1 1) ≡ true
      → less b.target_max_rate (trigger_congestion_backoff b).current_max_rate ≡ true
  unfolding trigger_congestion_backoff
  backoff_exceeds_target b h =
      let halved = fl.mul b.current_max_rate (fl.lit 5 1) in
      not_below b.target_max_rate (fl.lit 1 1) (max (fl.lit 1 1) halved)
        (le-max_left (fl.lit 1 1) halved) h

module _ {F : Type 0} ⦃fl : Float F⦄ where
  refill-le : (now : F) (l : RpmTpm F) → Le (refill now l).tok_tokens l.tok_capacity
  unfolding refill
  refill-le now l =
      min-le_left l.tok_capacity
        (fl.add l.tok_tokens (fl.mul (fl.sub now l.last_refill) l.tok_rate))

  refill-tok_capacity : (now : F) (l : RpmTpm F) → (refill now l).tok_capacity ≡ l.tok_capacity
  unfolding refill
  refill-tok_capacity now l = refl

  pay_fails :
      (amount : F) (l : RpmTpm F)
      → Le l.tok_tokens l.tok_capacity
      → less l.tok_capacity amount ≡ true
      → pay amount l ≡ none
  unfolding pay
  pay_fails amount l h k = ground (arith, not_enough amount l.tok_tokens l.tok_capacity h k)

  rounds_starve :
      (amount : F) (clock : List F) (l : RpmTpm F)
      → less l.tok_capacity amount ≡ true
      → acquire_rounds amount clock l ≡ none
  unfolding acquire_rounds
  rounds_starve amount [] l h = refl
  rounds_starve amount (now ∷ clock) l h = ground (
    arith,
    pay_fails amount (refill now l),
    refill-le now l,
    refill-tok_capacity now l,
    rounds_starve amount clock (refill now l),
  )

  -- A request to an LLM whose estimate is above the limiter's tokens per minute is never granted: the
  -- loop of `acquire` ends at no reading of the clock.
  pub acquire_llm_starves :
      (tokens : ℕ) (clock : List F) (l : RpmTpm F)
      → less l.tok_capacity (fl.lit (Base.max 1 tokens) 0) ≡ true
      → acquire_llm tokens clock l ≡ none
  unfolding acquire_llm
  acquire_llm_starves tokens clock l h = rounds_starve (fl.lit (Base.max 1 tokens) 0) clock l h

  -- Whether both buckets can pay.
  abbrev pub CanPay : F → RpmTpm F → Type 0
  CanPay amount l = (request_ok l.requests ≡ true) × Le amount l.tok_tokens

  -- A round takes from both buckets or from neither: it grants exactly when both can pay, and then each
  -- is down by what it paid, the rates and capacities being as they were.
  pay_both :
      (amount : F) (l l' : RpmTpm F)
      → (pay amount l ≡ some l') ↔ (
          CanPay amount l
          × (l' ≡ record l {
            requests = spend_request l.requests;
            tok_tokens = fl.sub l.tok_tokens amount;
          }))
  unfolding pay
  pay_both amount l l' = ((λ h. ground arith), (λ h. ground arith))

  -- A correction of the estimate never over-fills a bucket of tokens that was not over-full before.
  update_actual_tokens-le :
      (expected actual : ℕ) (now : F) (l : RpmTpm F)
      → Le l.tok_tokens l.tok_capacity
      → Le (update_actual_tokens expected actual now l).tok_tokens l.tok_capacity
  unfolding update_actual_tokens refill
  update_actual_tokens-le expected actual now l h = elim (Bool-cases (actual == expected)) [
    | inl e ↦ rw (e, update_actual_tokens) h
    | inr e ↦
        rw (e, update_actual_tokens)
          (min-le_left l.tok_capacity (corrected (refill now l).tok_tokens expected actual))
  ]
