-- ===== src/Health/Verdict.antt =====
-- When a probe of a provider finds nothing wrong (src/health/probes.py).
use finpipe.Base.{◌≡◌, Bool, true, false, ◌&&◌, Option, none, some, List, ◌∷◌, ◌++◌, String}
use finpipe.Errors.{Exn, Result, ok, raise}
use finpipe.Health.Probes.{Provider, Intel, is_fatal, is_not_implemented, first_method}

-- What a healthy provider answers to each kind of call.
abbrev pub good_answer : Result Bool → Bool
good_answer (ok false) = true
good_answer _ = false

abbrev pub good_call : Result (Unit {0}) → Bool
good_call (ok _) = true
good_call _ = false

abbrev pub good_optional : Result (Unit {0}) → Bool
good_optional (ok _) = true
good_optional (raise e) = is_not_implemented e

abbrev pub good_if_any {ℓ} : {A : Type ℓ} → (A → Bool) → Option A → Bool
good_if_any p none = true
good_if_any p (some a) = p a

abbrev pub good_intel : Intel → Bool
good_intel i =
    good_answer i.no_news
    && (good_optional i.microblog && (good_optional i.forum && good_optional i.sentiment_score))

-- Every call of every interface that the provider implements is answered well.
unfoldable pub is_healthy : Provider → Bool
is_healthy p =
    good_if_any good_answer p.historical_empty
    && (good_if_any (λ m. good_answer m.symbol_missing && good_optional m.financial_statements)
          p.metadata
        && (good_if_any (λ o. good_call o.options_chain && good_answer o.snapshot_empty) p.options
            && (good_if_any good_answer p.macro_empty
                && (good_if_any good_intel p.intel
                    && (good_if_any (λ s. good_call (first_method s)) p.screener
                        && good_if_any good_answer p.llm_empty)))))

-- How a list of errors grows: it stays, or a later error stands behind it, or a fatal exception ends
-- the run.
pub data Grows (good : Bool) (errors : List String) : Result (List String) → Type 0 where
  stays : good ≡ true → Grows good errors (ok errors)
  more : (e : String) (es : List String) → good ≡ false → Grows good errors (ok (errors ++ e ∷ es))
  fatal : (e : Exn) → good ≡ false → is_fatal e ≡ true → Grows good errors (raise e)

-- What a probe comes to, by the health of the provider.
pub data Probed (healthy : Bool) : Result (Option String) → Type 0 where
  connected : healthy ≡ true → Probed healthy (ok none)
  degraded : (message : String) → healthy ≡ false → Probed healthy (ok (some message))
  failed : (e : Exn) → healthy ≡ false → is_fatal e ≡ true → Probed healthy (raise e)
