-- ===== src/Resilience/Endings.antt =====
-- When a resilient request ends, and how it is rejected (src/network/resilience.py).
use finpipe.Base.{
  ℕ, suc, ◌+◌, ◌≤◌, ◌≡◌, refl, ◌∙◌, ap, Bool, true, false, Bool-cases, inl, inr, Option, some, List,
  [], ◌∷◌, length, String, concat, arith,
}
use finpipe.Errors.{Exn, provider_down, circuit_breaker_error, runtime_error, Result, ok, raise}
use finpipe.Float.{Float}
use finpipe.Text.{Unicode}
use finpipe.Limiter.Adaptive.{acquire}
use finpipe.Limiter.Tuning.{IsTuned}
use finpipe.Resilience.Limits.{Minute, closed, acquire_minute}
use finpipe.Resilience.{
  is_retryable, Retrying, Breaker, CountsCalls, Response, Attempt, Client, respond,
  transport_request, make_request, with_limiter, close, after, after_call, protected, retry_if,
  attempts, translate, translated, translated_answer, request,
}
use finpipe.Resilience.Outcomes.{Delivered, request-Delivered}

abbrev pub Ends : {O : Type 0} → Option O → Type 0
Ends {O} p = (o : O) × (p ≡ some o)

pub retry_if-Ends :
    {A C : Type 0} (again : Exn → Bool) (more : C → Option (Result A × C)) (o : Result A × C)
    → ((e : Exn) → again e ≡ true → Ends (more o.1))
    → Ends (retry_if again more (some o))
retry_if-Ends again more (ok response, c) h = ((ok response, c), refl)
retry_if-Ends again more (raise e, c) h = elim (Bool-cases (again e)) [
  | inl p ↦ rw p (h e p)
  | inr p ↦ ((raise e, c), rw p refl)
]

not_again :
    {max_retries : ℕ} (retrying : Retrying max_retries) (n : ℕ) (e : Exn)
    → is_retryable e ≡ false
    → retrying.again n e ≡ false
not_again retrying n e h = ground (arith, retrying.again_retryable n e)

-- what a call of a closed client raises
abbrev pub closed_error : String → Exn
closed_error namespace = runtime_error (concat "HTTP client (" (concat namespace ") is closed"))

module _ {F : Type 0} ⦃fl : Float F⦄ where
  -- The readings of the clock are enough for the limiter per minute to grant each attempt, also where the
  -- breaker keeps some of them from asking it.
  abbrev pub Granting : Option ℕ → List (Attempt F) → Minute F → Type 0
  Granting token_estimate [] m = Unit
  Granting token_estimate (a ∷ rest) m =
      Granting token_estimate rest m
      × ((m' : Minute F) × (acquire_minute token_estimate a.clock m ≡ some m')
          × Granting token_estimate rest m')

  module _ {B : Type 0} where
    translated_answer-Ends :
        (u : Unicode) (url : String) (p : Option (Result Response × Client B F))
        → Ends p
        → Ends (translated_answer u url p)
    translated_answer-Ends u url p (o, e) = ((translated u url o.0, o.1), rw e refl)

    with_limiter-minute :
        (c : Client B F) (m : Minute F) (token_estimate : Option ℕ) (a : Attempt F)
        → acquire_minute token_estimate a.clock c.minute ≡ some m
        → (o : Result Response × Client B F) × (make_request token_estimate a c ≡ some o)
          × (o.1.minute ≡ m)
    unfolding make_request
    with_limiter-minute c m token_estimate a h = (
      with_limiter c m (
          respond (transport_request c.transport c.limiter.namespace a.answer)
            (acquire a.now c.limiter).0),
      rw (h, make_request) refl,
      refl,
    )

  module _ {B : Type 0} (br : Breaker B F) where
    after-minute : (o : Result Response × Client B F) → (after br o).1.minute ≡ o.1.minute
    after-minute (ok response, c) = refl
    after-minute (raise e, c) = refl

    protected-Granting :
        (token_estimate : Option ℕ) (a : Attempt F) (rest : List (Attempt F)) (c : Client B F)
        → Granting token_estimate (a ∷ rest) c.minute
        → (o : Result Response × Client B F) × (protected br token_estimate a c ≡ some o)
          × Granting token_estimate rest o.1.minute
    unfolding protected
    protected-Granting token_estimate a rest c (still, (m, h, later)) =
        elim (Bool-cases (br.rejects c.breaker)) [
          | inl e ↦
              ((raise (circuit_breaker_error "circuit breaker still open"), c), rw e refl, still)
          | inr e ↦
              let (o, made, minute) = with_limiter-minute c m token_estimate a h in
              (after br o, rw e (ap (after_call br) made), rw (after-minute o ∙ minute) later)
        ]

    attempts-Ends :
        {max_retries : ℕ} (retrying : Retrying max_retries) (token_estimate : Option ℕ) (n : ℕ)
        (a : Attempt F) (rest : List (Attempt F)) (c : Client B F)
        → Granting token_estimate (a ∷ rest) c.minute
        → max_retries ≤ n + length rest
        → Ends (attempts br retrying token_estimate n (a ∷ rest) c)
    unfolding attempts
    attempts-Ends retrying token_estimate n a [] c g h =
        let (o, e, later) = protected-Granting token_estimate a [] c g in
        (rw e (
          retry_if-Ends (retrying.again n) (attempts br retrying token_estimate (suc n) []) o
            (λ x p. absurd (ground (arith, retrying.again_before_stop n x)))))
    attempts-Ends retrying token_estimate n a (b ∷ rest) c g h =
        let (o, e, later) = protected-Granting token_estimate a (b ∷ rest) c g in
        (rw e (
          retry_if-Ends (retrying.again n) (attempts br retrying token_estimate (suc n) (b ∷ rest))
            o
            (λ x p. attempts-Ends retrying token_estimate (suc n) b rest o.1 later (ground arith))))

    request-Ends :
        (u : Unicode) {max_retries : ℕ} (retrying : Retrying max_retries) (url : String)
        (token_estimate : Option ℕ) (a : Attempt F) (rest : List (Attempt F)) (c : Client B F)
        → Granting token_estimate (a ∷ rest) c.minute
        → max_retries ≤ suc (length rest)
        → Ends (request br u retrying url token_estimate (a ∷ rest) c)
    unfolding request
    request-Ends u retrying url token_estimate a rest c g h =
        translated_answer-Ends u url (attempts br retrying token_estimate 1 (a ∷ rest) c)
          (attempts-Ends retrying token_estimate 1 a rest c g (omega arith))

    -- Where the limiter per minute grants every attempt, a request of a client with a tuned limiter ends
    -- within `max_retries` attempts (or one, where that is zero). It gives a status below 400 or an
    -- exception other than HTTPStatusError and NetworkError of httpx, HTTPError of curl_cffi and
    -- CircuitBreakerError of pybreaker, and it leaves the limiter tuned. Exceptions of other classes, such as
    -- the timeouts of httpx, are not translated.
    pub request_delivers :
        (u : Unicode) {max_retries : ℕ} (retrying : Retrying max_retries) (url : String)
        (token_estimate : Option ℕ) (a : Attempt F) (rest : List (Attempt F)) (c : Client B F)
        → IsTuned c.limiter
        → Granting token_estimate (a ∷ rest) c.minute
        → max_retries ≤ suc (length rest)
        → (o : Result Response × Client B F) × (request br u retrying url token_estimate
              (a ∷ rest)
              c
            ≡ some o)
          × Delivered o.0
          × IsTuned o.1.limiter
    request_delivers u retrying url token_estimate a rest c t g h =
        let (o, e) = request-Ends u retrying url token_estimate a rest c g h in
        let (d, t') = request-Delivered br u retrying url token_estimate (a ∷ rest) c o.1 o.0 t e in
        (o, e, d, t')

    -- While the circuit breaker rejects, a request raises `ProviderDownError` after one attempt, which
    -- reaches neither a limiter nor the transport and leaves the client as it was.
    pub request_rejected :
        (u : Unicode) {max_retries : ℕ} (retrying : Retrying max_retries) (url : String)
        (token_estimate : Option ℕ) (a : Attempt F) (rest : List (Attempt F)) (c : Client B F)
        → br.rejects c.breaker ≡ true
        → request br u retrying url token_estimate (a ∷ rest) c
          ≡ some (raise (provider_down (concat "Circuit breaker tripped for " url)), c)
    unfolding request attempts protected translate
    request_rejected u retrying url token_estimate a rest c h =
        rw (h, protected)
          (rw (not_again retrying 1 (circuit_breaker_error "circuit breaker still open") refl) refl)

    -- Behind a breaker that counts every call of an async def as a success, a request of a closed client,
    -- where the breaker does not reject it and the limiter per minute grants it, raises RuntimeError after one
    -- attempt. The breaker has counted a success, and both limiters are left as the attempt acquired them.
    pub request_closed :
        (u : Unicode) {max_retries : ℕ} (retrying : Retrying max_retries) (url : String)
        (token_estimate : Option ℕ) (a : Attempt F) (rest : List (Attempt F)) (c : Client B F)
        (m : Minute F)
        → CountsCalls br
        → br.rejects c.breaker ≡ false
        → acquire_minute token_estimate a.clock c.minute ≡ some m
        → request br u retrying url token_estimate (a ∷ rest) (close c)
          ≡ some (
            raise (closed_error c.limiter.namespace),
            record c {
              breaker = br.succeed c.breaker;
              limiter = (acquire a.now c.limiter).0;
              minute = m;
              transport = closed;
            },
          )
    unfolding request attempts protected translate close make_request transport_request
    request_closed u retrying url token_estimate a rest c m counts shut granted =
        rw (shut, protected)
          (rw (granted, make_request)
            (rw (counts.never_trips c.breaker) (
              rw (not_again retrying 1 (closed_error c.limiter.namespace) refl)
                (rw (counts.fail_succeed c.breaker) refl))))
