-- ===== src/Yahoo/Retried.antt =====
-- What the attempts of `_execute_with_resilience` come to (src/providers/yahoo.py).
use finpipe.Base.{
  ℕ, suc, ◌+◌, ◌≤◌, ◌≡◌, refl, ◌∙◌, Bool, true, false, Bool-cases, ◌⊎◌, inl, inr, Any, Option, none,
  some, List, [], ◌∷◌, length, arith,
}
use finpipe.Errors.{Exn, circuit_breaker_error, Result, ok, raise}
use finpipe.Float.{Float, Le, le_refl}
use finpipe.Limiter.Adaptive.{
  Limiter, acquire, record_success, save_rate, set_rate, count_success, raise_rate,
}
use finpipe.Limiter.Tuning.{IsTuned, acquire-IsTuned, record_success-IsTuned}
use finpipe.Limiter.Rates.{record_success-ge}
use finpipe.Resilience.{Retries, Breaker, retry_if}
use finpipe.Resilience.Endings.{Ends, retry_if-Ends}
use finpipe.Yahoo.Guarded.{
  is_any, Guard, translate, translated, run, after, protected, attempts, execute_with_resilience,
}

abbrev pub is_breaker_error : Exn → Bool
is_breaker_error (circuit_breaker_error m) = true
is_breaker_error e = false

-- what a caller gets is no error of pybreaker
abbrev pub Answered : {A : Type 0} → Result A → Type 0
Answered (ok a) = Unit
Answered (raise e) = is_breaker_error e ≡ false

translate-not_breaker : (e : Exn) → is_breaker_error (translate e) ≡ false
translate-not_breaker (circuit_breaker_error m) = refl
translate-not_breaker e = refl

module _ {F : Type 0} ⦃fl : Float F⦄ where
  -- The second limiter is tuned, has the tokens of the first and a rate that is no lower.
  pub record Kept (l l' : Limiter F) : Type 0 where
    pub tuned : IsTuned l'
    pub no_slower : Le l.rate l'.rate
    pub same_tokens : l'.tokens ≡ l.tokens
    pub same_refill : l'.last_refill ≡ l.last_refill

  Kept-refl : (l : Limiter F) → IsTuned l → Kept l l
  Kept-refl l t = record {
    tuned = t;
    no_slower = le_refl l.rate;
    same_tokens = refl;
    same_refill = refl;
  }

  Kept-trans : (k l m : Limiter F) → Kept k l → Kept l m → Kept k m
  Kept-trans k l m a b = record {
    tuned = b.tuned;
    no_slower = fl.le_trans k.rate l.rate m.rate a.no_slower b.no_slower;
    same_tokens = b.same_tokens ∙ a.same_tokens;
    same_refill = b.same_refill ∙ a.same_refill;
  }

  record_success-tokens :
      (l : Limiter F)
      → ((record_success l).tokens ≡ l.tokens) × ((record_success l).last_refill ≡ l.last_refill)
  unfolding record_success raise_rate set_rate save_rate count_success
  record_success-tokens l = ground arith

  record_success-Kept : (l : Limiter F) → IsTuned l → Kept l (record_success l)
  record_success-Kept l t = record {
    tuned = record_success-IsTuned l t;
    no_slower = record_success-ge l t.at_most;
    same_tokens = (record_success-tokens l).0;
    same_refill = (record_success-tokens l).1;
  }

  module _ {A B : Type 0} (br : Breaker B F) where
    after-limiter : (o : Result A × Guard B F) → (after br o).1.limiter ≡ o.1.limiter
    after-limiter (ok a, g) = refl
    after-limiter (raise e, g) = refl

    protected-Kept :
        (answer : Result A) (g : Guard B F)
        → IsTuned g.limiter
        → Kept g.limiter (protected br answer g).1.limiter
    unfolding protected run
    protected-Kept answer g t = elim (Bool-cases (br.rejects g.breaker)) [
      | inl e ↦ rw (e, protected) (Kept-refl g.limiter t)
      | inr e ↦ rw (e, protected) (rw (after-limiter (run answer g)) (called answer))
    ]
      where
        called : (r : Result A) → Kept g.limiter (run r g).1.limiter
        called (ok a) = record_success-Kept g.limiter t
        called (raise e) = Kept-refl g.limiter t

    -- Where an attempt ends, the limiter is as `Kept` says.
    abbrev KeptIfAny : Limiter F → Option (Result A × Guard B F) → Type 0
    KeptIfAny l none = Unit
    KeptIfAny l (some (r, g)) = Kept l g.limiter

    retry_if-KeptIfAny :
        (again : Exn → Bool) (more : Guard B F → Option (Result A × Guard B F)) (l : Limiter F)
        (o : Result A × Guard B F)
        → Kept l o.1.limiter
        → ((g : Guard B F) → Kept l g.limiter → KeptIfAny l (more g))
        → KeptIfAny l (retry_if again more (some o))
    retry_if-KeptIfAny again more l (ok a, g) k ih = k
    retry_if-KeptIfAny again more l (raise e, g) k ih = elim (Bool-cases (again e)) [
      | inl h ↦ rw h (ih g k)
      | inr h ↦ rw h k
    ]

    attempts-KeptIfAny :
        {max_retries : ℕ} (retrying : Retries is_any max_retries) (l : Limiter F) (n : ℕ)
        (answers : List (Result A)) (g : Guard B F)
        → Kept l g.limiter
        → KeptIfAny l (attempts br retrying n answers g)
    unfolding attempts
    attempts-KeptIfAny retrying l n [] g k = tt
    attempts-KeptIfAny retrying l n (answer ∷ rest) g k =
        retry_if-KeptIfAny (retrying.again n) (attempts br retrying (suc n) rest) l
          (protected br answer g) (Kept-trans l g.limiter _ k (protected-Kept answer g k.tuned))
          (λ g' k'. attempts-KeptIfAny retrying l (suc n) rest g' k')

    attempts-Ends :
        {max_retries : ℕ} (retrying : Retries is_any max_retries) (n : ℕ) (answer : Result A)
        (rest : List (Result A)) (g : Guard B F)
        → max_retries ≤ n + length rest
        → Ends (attempts br retrying n (answer ∷ rest) g)
    unfolding attempts
    attempts-Ends retrying n answer [] g h =
        retry_if-Ends (retrying.again n) (attempts br retrying (suc n) []) (protected br answer g)
          (λ e p. absurd (ground (arith, retrying.again_before_stop n e)))
    attempts-Ends retrying n answer (next ∷ rest) g h =
        retry_if-Ends (retrying.again n) (attempts br retrying (suc n) (next ∷ rest))
          (protected br answer g)
          (λ e p. attempts-Ends retrying (suc n) next rest (protected br answer g).1 (ground arith))

    translated-Answered :
        (l : Limiter F) (p : Option (Result A × Guard B F))
        → Ends p
        → KeptIfAny l p
        → (o : Result A × Guard B F) × (translated p ≡ some o) × Answered o.0 × Kept l o.1.limiter
    translated-Answered l none (o, e) k = absurd (ground arith)
    translated-Answered l (some (ok a, g)) e k = ((ok a, g), refl, tt, k)
    translated-Answered l (some (raise e, g)) h k =
        ((raise (translate e), g), refl, translate-not_breaker e, k)

    -- A call behind a tuned limiter ends within `max_retries` attempts (or one, where that is zero), and
    -- raises no error of pybreaker. The limiter gives one token for all the attempts together: its tokens
    -- and its last refill are those after one acquisition. Its rate is no lower than before, whatever the
    -- attempts raise.
    pub execute_acquires_once :
        {max_retries : ℕ} (retrying : Retries is_any max_retries) (now : F) (answer : Result A)
        (rest : List (Result A)) (g : Guard B F)
        → IsTuned g.limiter
        → max_retries ≤ suc (length rest)
        → (o : Result A × Guard B F) × (execute_with_resilience br retrying now (answer ∷ rest) g
            ≡ some o)
          × Answered o.0
          × Kept (acquire now g.limiter).0 o.1.limiter
    unfolding execute_with_resilience
    execute_acquires_once retrying now answer rest g t h =
        let l = (acquire now g.limiter).0 in
        let g' : Guard B F = record g { limiter = l } in
        translated-Answered l (attempts br retrying 1 (answer ∷ rest) g')
          (attempts-Ends retrying 1 answer rest g' (omega arith))
          (attempts-KeptIfAny retrying l 1 (answer ∷ rest) g'
            (Kept-refl l (acquire-IsTuned now g.limiter t)))

retry_if-ok :
    {A C : Type 0} (again : Exn → Bool) (more : C → Option (Result A × C)) (o : Result A × C)
    (a : A) (c : C)
    → retry_if again more (some o) ≡ some (ok a, c)
    → (o.0 ≡ ok a) ⊎ (more o.1 ≡ some (ok a, c))
retry_if-ok again more (ok b, d) a c h = inl (ground arith)
retry_if-ok again more (raise e, d) a c h = elim (Bool-cases (again e)) [
  | inl p ↦ inr (rw p at h)
  | inr p ↦ absurd (ground arith)
]

module _ {A B F : Type 0} ⦃fl : Float F⦄ where
  translated_ok :
      (p : Option (Result A × Guard B F)) (a : A) (g : Guard B F)
      → translated p ≡ some (ok a, g)
      → p ≡ some (ok a, g)
  translated_ok none a g h = absurd (ground arith)
  translated_ok (some (ok b, d)) a g h = h
  translated_ok (some (raise e, d)) a g h = absurd (ground arith)

  module _ (br : Breaker B F) where
    protected_ok :
        (answer : Result A) (g : Guard B F) (a : A)
        → (protected br answer g).0 ≡ ok a
        → answer ≡ ok a
    unfolding protected run
    protected_ok (ok b) g a h = ground arith
    protected_ok (raise e) g a h = ground arith

    attempts_ok :
        {max_retries : ℕ} (retrying : Retries is_any max_retries) (n : ℕ)
        (answers : List (Result A)) (g g' : Guard B F) (a : A)
        → attempts br retrying n answers g ≡ some (ok a, g')
        → Any (λ r. r ≡ ok a) answers
    unfolding attempts
    attempts_ok retrying n [] g g' a h = absurd (ground arith)
    attempts_ok retrying n (answer ∷ rest) g g' a h =
        elim (retry_if-ok (retrying.again n) (attempts br retrying (suc n) rest)
          (protected br answer g) a g' h) [
            | inl e ↦ inl (protected_ok answer g a e)
            | inr e ↦ inr (attempts_ok retrying (suc n) rest (protected br answer g).1 g' a e)
          ]

    -- What a call returns is what the function called returned in one of the attempts.
    pub execute_ok :
        {max_retries : ℕ} (retrying : Retries is_any max_retries) (now : F)
        (answers : List (Result A)) (g g' : Guard B F) (a : A)
        → execute_with_resilience br retrying now answers g ≡ some (ok a, g')
        → Any (λ r. r ≡ ok a) answers
    unfolding execute_with_resilience
    execute_ok retrying now answers g g' a h =
        let g'' : Guard B F = record g { limiter = (acquire now g.limiter).0 } in
        attempts_ok retrying 1 answers g'' g' a
          (translated_ok (attempts br retrying 1 answers g'') a g' h)
