-- ===== src/Cache/Checks.antt =====
-- The self-test of `SqliteCacheBackend` and `_NoOpCache` of src/network/cache.py. A write is what its statement comes
-- to, which `set` does not pass on.
use finpipe.Base.{
  ℕ, ◌≡◌, refl, ap, arith, Bool, true, false, ◌⊎◌, inl, inr, Option, none, List, [], ◌∷◌, ◌++◌,
  String, concat, take,
}
use finpipe.Errors.{Exn, Done, ok, raise}
use finpipe.Text.{show}
use finpipe.Cache.Manager.{
  CacheConfig, Manager, Opened, unusable, unsafe, usable, is_thread_safe, get_shared,
}
use finpipe.Cache.Opening.{get_shared-Outcome}

-- `SqliteCacheBackend.set`: an exception of the connection, the dump or the statement is logged
unfoldable pub set_logged : Done → Done
set_logged (ok x) = ok x
set_logged (raise exc) = ok tt

-- the keys that a thread of the self-test writes
abbrev pub probe_key : ℕ → String
probe_key i = concat "probe-" (show i)

-- `writer`: it writes until a write raises, and then notes the exception
unfoldable pub writer : List Done → List Exn → List Exn
unfolding set_logged
writer [] errors = errors
writer (statement ∷ rest) errors = elim (set_logged statement) [
  | ok x ↦ writer rest errors
  | raise exc ↦ errors ++ exc ∷ []
]

abbrev pub is_none_left : List Exn → Bool
is_none_left [] = true
is_none_left (exc ∷ errors) = false

-- the threads, each with what its twenty statements come to, in an order in which they note their exceptions
unfoldable pub run_writers : List (List Done) → List Exn → List Exn
unfolding writer
run_writers [] errors = errors
run_writers (statements ∷ threads) errors = run_writers threads (writer (take 20 statements) errors)

unfoldable pub verify_thread_safe : List (List Done) → Bool
unfolding run_writers
verify_thread_safe threads = is_none_left (run_writers threads [])

writer_quiet : (statements : List Done) (errors : List Exn) → writer statements errors ≡ errors
unfolding writer set_logged
writer_quiet [] errors = refl
writer_quiet (ok x ∷ rest) errors = writer_quiet rest errors
writer_quiet (raise exc ∷ rest) errors = writer_quiet rest errors

-- `_NoOpCache`
unfoldable pub no_op_get : {V : Type 0} → String → Option V
no_op_get key = none

unfoldable pub no_op_set : {V S : Type 0} → String → V → S → S
no_op_set key value s = s

run_writers_quiet :
    (threads : List (List Done)) (errors : List Exn) → run_writers threads errors ≡ errors
unfolding run_writers
run_writers_quiet [] errors = refl
run_writers_quiet (statements ∷ threads) errors =
    rw (writer_quiet (take 20 statements) errors) (run_writers_quiet threads errors)

verify_thread_safe_lem : (threads : List (List Done)) → verify_thread_safe threads ≡ true
unfolding verify_thread_safe
verify_thread_safe_lem threads = ap is_none_left (run_writers_quiet threads [])

-- what becomes of a new SQLite backend, whose constructor comes to `built`
abbrev pub opened_as : Done → Bool → Opened
opened_as (raise e) thread_safe = unusable e
opened_as (ok x) true = usable
opened_as (ok x) false = unsafe

unusable-inj : (d : Done) (e : Exn) → opened_as d true ≡ unusable e → d ≡ raise e
unusable-inj (raise x) e h = ground arith
unusable-inj (ok x) e h = absurd (ground arith)

safe_as : (d : Done) → is_thread_safe (opened_as d true) ≡ true
safe_as (raise e) = refl
safe_as (ok x) = refl

-- Whatever the statements of the self-test raise, `get_shared` answers with a backend for every configuration,
-- or raises what the constructor of the SQLite backend raises: the error for a failed self-test is never raised.
pub get_shared-passes :
    (built : Done) (threads : List (List Done)) (config : CacheConfig) (m : Manager)
    → ((n : ℕ) × ((get_shared (opened_as built (verify_thread_safe threads)) config m).0 ≡ ok n))
      ⊎ ((e : Exn) × (built ≡ raise e)
          × ((get_shared (opened_as built (verify_thread_safe threads)) config m).0 ≡ raise e))
get_shared-passes built threads config m =
    rw (verify_thread_safe_lem threads)
      (elim (get_shared-Outcome (opened_as built true) config m (safe_as built)) [
        | inl h ↦ inl h
        | inr (e, u, h) ↦ inr (e, unusable-inj built e u, h)
      ])
