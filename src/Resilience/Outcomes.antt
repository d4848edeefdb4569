-- ===== src/Resilience/Outcomes.antt =====
-- What a resilient request comes to (src/network/resilience.py).
use finpipe.Base.{
  ℕ, suc, ◌<◌, ◌≡◌, refl, Bool, true, false, Bool-cases, inl, inr, Option, none, some, List, [],
  ◌∷◌, leb, ◌==◌, String, arith,
}
use finpipe.Errors.{Exn, http_status_error, network_error, circuit_breaker_error, Result, ok, raise}
use finpipe.Float.{Float}
use finpipe.Text.{Unicode}
use finpipe.Limiter.Adaptive.{Limiter, acquire}
use finpipe.Limiter.Tuning.{IsTuned, acquire-IsTuned, record_success-IsTuned, record_429-IsTuned}
use finpipe.Resilience.Limits.{Minute, acquire_minute}
use finpipe.Resilience.{
  Retrying, Breaker, Response, Attempt, Client, judge, respond, with_limiter, make_request,
  after_call, protected, retry_if, attempts, translate, translated, transport_request,
  translated_answer, request,
}

-- What the `except` clauses of `request` catch: HTTPStatusError, or curl_cffi's HTTPError, NetworkError and
-- CircuitBreakerError.
abbrev pub is_caught : Exn → Bool
is_caught (circuit_breaker_error m) = true
is_caught (http_status_error s m) = true
is_caught (network_error m) = true
is_caught _ = false

translate-not_caught :
    (u : Unicode) (url : String) (e : Exn) → is_caught (translate u url e) ≡ false
unfolding translate
translate-not_caught u url (http_status_error none m) = refl
translate-not_caught u url (http_status_error (some status) m) = elim (Bool-cases (status == 429)) [
  | inl e ↦ rw (e, translate) refl
  | inr e ↦ rw (e, translate) refl
]
translate-not_caught u url e = refl

-- A response that is returned has a status below 400.
abbrev pub IsGood : Result Response → Type 0
IsGood (ok response) = response.status_code < 400
IsGood (raise e) = Unit

-- What a caller of `request` gets: a status below 400, or an exception that is none of these.
abbrev pub Delivered : Result Response → Type 0
Delivered (ok response) = response.status_code < 400
Delivered (raise e) = is_caught e ≡ false

translated-Delivered :
    (u : Unicode) (url : String) (r : Result Response) → IsGood r → Delivered (translated u url r)
translated-Delivered u url (ok response) g = g
translated-Delivered u url (raise e) g = translate-not_caught u url e

module _ {F : Type 0} ⦃fl : Float F⦄ where
  judge-IsTuned : (response : Response) (l : Limiter F) → IsTuned l → IsTuned (judge response l).1
  unfolding judge
  judge-IsTuned response l t = elim (Bool-cases (response.status_code == 429)) [
    | inl e ↦ rw (e, judge) (record_429-IsTuned l t)
    | inr e ↦ elim (Bool-cases (leb 400 response.status_code)) [
      | inl g ↦ rw (e, g, judge) t
      | inr g ↦ rw (e, g, judge) (record_success-IsTuned l t)
    ]
  ]

  respond-IsTuned : (r : Result Response) (l : Limiter F) → IsTuned l → IsTuned (respond r l).1
  respond-IsTuned (ok response) l t = judge-IsTuned response l t
  respond-IsTuned (raise e) l t = t

  judge-IsGood : (response : Response) (l : Limiter F) → IsGood (judge response l).0
  unfolding judge
  judge-IsGood response l = elim (Bool-cases (response.status_code == 429)) [
    | inl e ↦ rw (e, judge) tt
    | inr e ↦ elim (Bool-cases (leb 400 response.status_code)) [
      | inl g ↦ rw (e, g, judge) tt
      | inr g ↦ rw (e, g, judge) (ground arith)
    ]
  ]

  respond-IsGood : (r : Result Response) (l : Limiter F) → IsGood (respond r l).0
  respond-IsGood (ok response) l = judge-IsGood response l
  respond-IsGood (raise e) l = tt

  module _ {B : Type 0} where
    -- What is kept of a call and the client that it leaves, if it ends.
    abbrev pub SoundIfAny : Option (Result Response × Client B F) → Type 0
    SoundIfAny none = Unit
    SoundIfAny (some (r, c)) = IsGood r × IsTuned c.limiter

    with_limiter-SoundIfAny :
        (c : Client B F) (m : Minute F) (o : Result Response × Limiter F)
        → IsGood o.0
        → IsTuned o.1
        → SoundIfAny (some (with_limiter c m o))
    with_limiter-SoundIfAny c m (r, l) g t = (g, t)

    respond-SoundIfAny :
        (c : Client B F) (m : Minute F) (r : Result Response) (l : Limiter F)
        → IsTuned l
        → SoundIfAny (some (with_limiter c m (respond r l)))
    respond-SoundIfAny c m r l t =
        with_limiter-SoundIfAny c m (respond r l) (respond-IsGood r l) (respond-IsTuned r l t)

    make_request-SoundIfAny :
        (token_estimate : Option ℕ) (a : Attempt F) (c : Client B F)
        → IsTuned c.limiter
        → SoundIfAny (make_request token_estimate a c)
    unfolding make_request
    make_request-SoundIfAny token_estimate a c t =
        granted (acquire_minute token_estimate a.clock c.minute)
      where
        granted :
            (m : Option (Minute F))
            → SoundIfAny (elim m [
              | none ↦ none
              | some m ↦ some (
                  with_limiter c m (
                    respond
                      (transport_request c.transport c.limiter.namespace a.answer)
                      (acquire a.now c.limiter).0))
            ])
        granted none = tt
        granted (some m) =
            respond-SoundIfAny c m (transport_request c.transport c.limiter.namespace a.answer)
              (acquire a.now c.limiter).0 (acquire-IsTuned a.now c.limiter t)

    retry_if-SoundIfAny :
        (again : Exn → Bool) (more : Client B F → Option (Result Response × Client B F))
        (o : Option (Result Response × Client B F))
        → SoundIfAny o
        → ((c : Client B F) → IsTuned c.limiter → SoundIfAny (more c))
        → SoundIfAny (retry_if again more o)
    retry_if-SoundIfAny again more none s ih = tt
    retry_if-SoundIfAny again more (some (ok response, c)) s ih = s
    retry_if-SoundIfAny again more (some (raise e, c)) (g, t) ih = elim (Bool-cases (again e)) [
      | inl h ↦ rw h (ih c t)
      | inr h ↦ rw h (tt, t)
    ]

    DeliveredIfAny : Option (Result Response × Client B F) → Type 0
    DeliveredIfAny none = Unit
    DeliveredIfAny (some (r, c)) = Delivered r × IsTuned c.limiter

    translated_answer-DeliveredIfAny :
        (u : Unicode) (url : String) (o : Option (Result Response × Client B F))
        → SoundIfAny o
        → DeliveredIfAny (translated_answer u url o)
    unfolding DeliveredIfAny
    translated_answer-DeliveredIfAny u url none s = tt
    translated_answer-DeliveredIfAny u url (some (r, c)) (g, t) =
        (translated-Delivered u url r g, t)

  module _ {B : Type 0} (br : Breaker B F) where
    after_call-SoundIfAny :
        (o : Option (Result Response × Client B F)) → SoundIfAny o → SoundIfAny (after_call br o)
    after_call-SoundIfAny none s = tt
    after_call-SoundIfAny (some (ok response, c)) s = s
    after_call-SoundIfAny (some (raise e, c)) s = s

    protected-SoundIfAny :
        (token_estimate : Option ℕ) (a : Attempt F) (c : Client B F)
        → IsTuned c.limiter
        → SoundIfAny (protected br token_estimate a c)
    unfolding protected
    protected-SoundIfAny token_estimate a c t = elim (Bool-cases (br.rejects c.breaker)) [
      | inl e ↦ rw (e, protected) (tt, t)
      | inr e ↦
          rw (e, protected) (after_call-SoundIfAny _ (make_request-SoundIfAny token_estimate a c t))
    ]

    attempts-SoundIfAny :
        {max_retries : ℕ} (retrying : Retrying max_retries) (token_estimate : Option ℕ) (n : ℕ)
        (answers : List (Attempt F)) (c : Client B F)
        → IsTuned c.limiter
        → SoundIfAny (attempts br retrying token_estimate n answers c)
    unfolding attempts
    attempts-SoundIfAny retrying token_estimate n [] c t = tt
    attempts-SoundIfAny retrying token_estimate n (a ∷ rest) c t =
        retry_if-SoundIfAny (retrying.again n) _ (protected br token_estimate a c)
          (protected-SoundIfAny token_estimate a c t)
          (λ c' t'. attempts-SoundIfAny retrying token_estimate (suc n) rest c' t')

    -- However the transport answers, and whatever limits per minute the client has, a request that ends
    -- gives a status below 400 or an exception that is none of those caught, and it leaves a tuned limiter
    -- tuned.
    pub request-Delivered :
        (u : Unicode) {max_retries : ℕ} (retrying : Retrying max_retries) (url : String)
        (token_estimate : Option ℕ) (answers : List (Attempt F)) (c c' : Client B F)
        (r : Result Response)
        → IsTuned c.limiter
        → request br u retrying url token_estimate answers c ≡ some (r, c')
        → Delivered r × IsTuned c'.limiter
    unfolding DeliveredIfAny request
    request-Delivered u retrying url token_estimate answers c c' r t h = rw h at (
        translated_answer-DeliveredIfAny u url (attempts br retrying token_estimate 1 answers c)
          (attempts-SoundIfAny retrying token_estimate 1 answers c t))
