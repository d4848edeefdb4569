-- ===== src/Cache/Opening.antt =====
-- When the cache manager finds a backend (src/network/cache_manager.py).
use finpipe.Base.{
  ℕ, ◌≡◌, refl, ap, Bool, true, false, not, ◌⊎◌, inl, inr, Option, none, some, String, length,
  str_eq, lookup, arith, if◌then◌else◌,
}
use finpipe.Errors.{Exn, Result, ok, raise}
use finpipe.Cache.Manager.{
  CacheConfig, Opened, unusable, unsafe, usable, is_thread_safe, constructed, create_cache_backend,
  Manager, identity, registered, create, tested, add_shared, get_shared, resolve_cache_backend,
}

branches : {A : Type 0} (P : A → Type 0) (b : Bool) (x y : A) → P x → P y → P (if b then x else y)
branches P true x y h k = h
branches P false x y h k = k

-- a value, or what the constructor of the SQLite backend raised
abbrev pub Outcome : {A : Type 0} → Opened → Result A → Type 0
Outcome {A} opened r = ((a : A) × (r ≡ ok a)) ⊎ ((e : Exn) × (opened ≡ unusable e) × (r ≡ raise e))

create_cache_backend-Outcome :
    (opened : Opened) (config : CacheConfig) → Outcome opened (create_cache_backend opened config)
unfolding create_cache_backend
create_cache_backend-Outcome opened config =
    branches (Outcome opened) (str_eq config.cache_type "sqlite") _ _ (opening opened _) (
      branches (Outcome opened) (str_eq config.cache_type "none") _ _ (inl (_, refl))
        (inl (_, refl)))
  where
    opening : (o : Opened) (path : String) → Outcome o (constructed o path)
    opening (unusable e) path = inr (e, refl, refl)
    opening unsafe path = inl (_, refl)
    opening usable path = inl (_, refl)

create-Outcome :
    (opened : Opened) (config : CacheConfig) (m : Manager)
    → Outcome opened (create opened config m).0
unfolding create
create-Outcome opened config m = elim (create_cache_backend-Outcome opened config) [
  | inl (kind, e) ↦ inl (length m.created, ap (λ r. (registered m r).0) e)
  | inr (x, u, e) ↦ inr (x, u, ap (λ r. (registered m r).0) e)
]

tested-Outcome :
    (opened : Opened) (config : CacheConfig) (o : Result ℕ × Manager)
    → is_thread_safe opened ≡ true
    → Outcome opened o.0
    → Outcome opened (tested opened config o).0
tested-Outcome opened config (raise e, m) safe h = h
tested-Outcome opened config (ok n, m) safe h = inl (n, ground arith)

-- Where a backend that is constructed passes its self-test, `get_shared` finds one or raises what the
-- constructor raised.
pub get_shared-Outcome :
    (opened : Opened) (config : CacheConfig) (m : Manager)
    → is_thread_safe opened ≡ true
    → Outcome opened (get_shared opened config m).0
unfolding get_shared add_shared
get_shared-Outcome opened config m safe =
    branches (λ (o : Result ℕ × Manager). Outcome opened o.0) (not config.singleton) _ _
      (create-Outcome opened config m) (looked (lookup (identity config) m.instances))
  where
    looked :
        (o : Option ℕ)
        → Outcome opened
            (elim o as (λ x. Result ℕ × Manager) [
              | none ↦ add_shared opened config m
              | some backend ↦ (ok backend, m)
            ]).0
    looked none =
        tested-Outcome opened config (create opened config m) safe (create-Outcome opened config m)
    looked (some backend) = inl (backend, refl)

resolve_cache_backend-Outcome :
    (opened : Opened) (config : CacheConfig) (m : Manager)
    → is_thread_safe opened ≡ true
    → Outcome opened (resolve_cache_backend opened config m).0
unfolding resolve_cache_backend
resolve_cache_backend-Outcome opened config m safe =
    branches (λ (o : Result ℕ × Manager). Outcome opened o.0) config.singleton _ _
      (get_shared-Outcome opened config m safe) (create-Outcome opened config m)

found : {A : Type 0} (r : Result A) → Outcome usable r → (a : A) × (r ≡ ok a)
found r (inl h) = h
found r (inr (e, u, h)) = absurd (ground arith)

-- A usable backend is always found.
pub resolve_cache_backend-usable :
    (config : CacheConfig) (m : Manager)
    → (n : ℕ) × ((resolve_cache_backend usable config m).0 ≡ ok n)
resolve_cache_backend-usable config m =
    found (resolve_cache_backend usable config m).0
      (resolve_cache_backend-Outcome usable config m refl)
