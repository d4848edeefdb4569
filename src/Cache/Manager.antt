-- ===== src/Cache/Manager.antt =====
-- `CacheManager` of src/network/cache_manager.py and `create_cache_backend` of src/network/cache.py. A
-- backend is an object with an identity: the manager's state has the backends that were created, the
-- newest first, and those that were closed.
use finpipe.Base.{
  ℕ, ◌≡◌, Bool, true, false, not, ◌&&◌, Option, none, some, List, [], ◌∷◌, length, String, str_eq,
  eq_refl, concat, Dict, lookup, insert, lookup-insert, arith, if◌then◌else◌,
}
use finpipe.Errors.{Exn, config_error, Result, ok, raise}

pub record CacheConfig : Type 0 where
  pub cache_type : String
  pub sqlite_path : Option String
  pub sqlite_db_path : String
  pub namespace : String
  pub singleton : Bool
  pub maxsize : ℕ

pub data Kind : Type 0 where
  sqlite : String → Kind
  memory : ℕ → Kind
  no_op : Kind

-- `config.sqlite_path or config.sqlite_db_path`
abbrev pub path_or : Option String → String → String
path_or none sqlite_db_path = sqlite_db_path
path_or (some path) sqlite_db_path = if str_eq path "" then sqlite_db_path else path

-- What becomes of a new SQLite backend: its constructor raises, so that it is never tested, it fails its
-- self-test, or it is usable.
pub data Opened : Type 0 where
  unusable : Exn → Opened
  unsafe usable : Opened

abbrev pub is_thread_safe : Opened → Bool
is_thread_safe unsafe = false
is_thread_safe _ = true

abbrev pub constructed : Opened → String → Result Kind
constructed (unusable e) path = raise e
constructed _ path = ok (sqlite path)

unfoldable pub create_cache_backend : Opened → CacheConfig → Result Kind
create_cache_backend opened config =
    if str_eq config.cache_type "sqlite"
    then constructed opened (path_or config.sqlite_path config.sqlite_db_path)
    else (if str_eq config.cache_type "none" then ok no_op else ok (memory config.maxsize))

-- `_identity`
unfoldable pub identity : CacheConfig → String
identity config = concat config.cache_type (
    concat ":"
      (concat (path_or config.sqlite_path config.sqlite_db_path) (concat ":" config.namespace)))

pub record Manager : Type 0 where
  -- the number of a backend, in the order of creation from 0
  pub instances : Dict ℕ
  pub created : List Kind
  pub closed : List ℕ

abbrev pub registered : Manager → Result Kind → Result ℕ × Manager
registered m (raise e) = (raise e, m)
registered m (ok kind) = (ok (length m.created), record m { created = kind ∷ m.created })

unfoldable pub create : Opened → CacheConfig → Manager → Result ℕ × Manager
create opened config m = registered m (create_cache_backend opened config)

-- The part of `get_shared` behind the construction, where the key has no instance.
abbrev pub tested : Opened → CacheConfig → Result ℕ × Manager → Result ℕ × Manager
tested opened config (raise e, m) = (raise e, m)
tested opened config (ok backend, m) =
    if str_eq config.cache_type "sqlite" && not (is_thread_safe opened)
    then (
      raise (
          config_error
            "SQLite cache failed concurrency self-test; set cache.cache_type=memory for dev or fix permissions/locking"),
      record m { closed = backend ∷ m.closed },
    )
    else (ok backend, record m { instances = insert (identity config) backend m.instances })

unfoldable pub add_shared : Opened → CacheConfig → Manager → Result ℕ × Manager
add_shared opened config m = tested opened config (create opened config m)

unfoldable pub get_shared : Opened → CacheConfig → Manager → Result ℕ × Manager
get_shared opened config m =
    if not config.singleton
    then create opened config m
    else elim (lookup (identity config) m.instances) [
      | none ↦ add_shared opened config m
      | some backend ↦ (ok backend, m)
    ]

-- `backend.close()` on every instance, in order
abbrev pub close_all : Dict ℕ → List ℕ → List ℕ
close_all [] closed = closed
close_all ((key, backend) ∷ instances) closed = close_all instances (backend ∷ closed)

-- `shutdown` and `reset`
unfoldable pub shutdown : Manager → Manager
shutdown m = record m { instances = []; closed = close_all m.instances m.closed }

-- `resolve_cache_backend`
unfoldable pub resolve_cache_backend : Opened → CacheConfig → Manager → Result ℕ × Manager
resolve_cache_backend opened config m =
    if config.singleton then get_shared opened config m else create opened config m

tested-held :
    (opened : Opened) (config : CacheConfig) (o : Result ℕ × Manager) (m' : Manager) (backend : ℕ)
    → tested opened config o ≡ (ok backend, m')
    → lookup (identity config) m'.instances ≡ some backend
tested-held opened config (raise e, m) m' backend h = absurd (ground arith)
tested-held opened config (ok n, m) m' backend h = ground (
  arith,
  lookup-insert (identity config) (identity config) n m.instances,
  eq_refl (identity config),
)

held :
    (opened : Opened) (config : CacheConfig) (m m' : Manager) (backend : ℕ)
    → config.singleton ≡ true
    → get_shared opened config m ≡ (ok backend, m')
    → lookup (identity config) m'.instances ≡ some backend
unfolding get_shared add_shared
held opened config m m' backend s h =
    ground (arith, tested-held opened config (create opened config m) m' backend)

singleton_held :
    (opened : Opened) (config : CacheConfig) (m : Manager) (backend : ℕ)
    → config.singleton ≡ true
    → lookup (identity config) m.instances ≡ some backend
    → get_shared opened config m ≡ (ok backend, m)
unfolding get_shared
singleton_held opened config m backend s h = ground arith

-- Backends are shared: once `get_shared` has answered a singleton configuration, every configuration of
-- the same identity gets that backend, without a new one and without a self-test.
get_shared-shared :
    (opened again : Opened) (config other : CacheConfig) (m m' : Manager) (backend : ℕ)
    → config.singleton ≡ true
    → other.singleton ≡ true
    → identity other ≡ identity config
    → get_shared opened config m ≡ (ok backend, m')
    → get_shared again other m' ≡ (ok backend, m')
unfolding get_shared
get_shared-shared opened again config other m m' backend s s' same h =
    singleton_held again other m' backend s' (rw same (held opened config m m' backend s h))
