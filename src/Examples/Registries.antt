-- ===== src/Examples/Registries.antt =====
-- Runs of the cache manager (src/network/cache_manager.py), the registries of factories
-- (src/core/registry.py) and the concurrency limiter (src/network/concurrency.py).
use finpipe.Base.{ℕ, ◌≡◌, ◌≤◌, true, none, ◌⊎◌, List, [], ◌∷◌, Dict, arith}
use finpipe.Errors.{Exn, Result, Done, ok, raise, other_error}
use finpipe.Cache.Checks.{verify_thread_safe, opened_as, get_shared-passes}
use finpipe.Float.{Float}
use finpipe.Examples.Milli.{milli}
use finpipe.Cache.Manager.{CacheConfig, Manager, memory, get_shared}
use finpipe.Providers.{Registry}
use finpipe.Concurrency.{
  Slots, idle, SlotReach, here, next, acquiring, waking, releasing, acquire_slot, wake,
  release_slot, active_tasks-le,
}

abbrev in_memory : CacheConfig
in_memory = record {
  cache_type = "memory";
  sqlite_path = none;
  sqlite_db_path = "finpipe_cache.db";
  namespace = "default";
  singleton = true;
  maxsize = 1024;
}

-- the same identity, with another size
abbrev smaller : CacheConfig
smaller = record in_memory { maxsize = 16 }

abbrev no_backends : Manager
no_backends = record { instances = []; created = []; closed = [] }

abbrev one_backend : Manager
one_backend = record {
  instances = ("memory:finpipe_cache.db:default", 0) ∷ [];
  created = memory 1024 ∷ [];
  closed = [];
}

abbrev on_disk : CacheConfig
on_disk = record in_memory { cache_type = "sqlite" }

abbrev failing_writes : List (List Done)
failing_writes = (raise (other_error "disk is full") ∷ []) ∷ []

abbrev built : Done
built = ok tt

get_shared-passes_example :
    ((n : ℕ) × ((get_shared
          (opened_as built (verify_thread_safe failing_writes))
          on_disk
          no_backends).0
        ≡ ok n))
    ⊎ ((e : Exn) × (built ≡ raise e)
        × ((get_shared (opened_as built (verify_thread_safe failing_writes)) on_disk no_backends).0
            ≡ raise e))
get_shared-passes_example = get_shared-passes built failing_writes on_disk no_backends

abbrev factory : ℕ → Result ℕ
factory ctx = ok ctx

abbrev with_yahoo : Dict (Registry ℕ ℕ)
with_yahoo =
    ("equity", ("yahoo", factory) ∷ [])
    ∷ ("options", [])
    ∷ ("macro", [])
    ∷ ("intel", [])
    ∷ ("screener", [])
    ∷ ("llm", [])
    ∷ []

-- two tasks acquire under a limit of one, then the first releases and the second is woken
abbrev second_runs : Slots
second_runs = wake 1 (release_slot (acquire_slot 1 (acquire_slot 1 idle)))

second_runs-SlotReach : SlotReach 1 idle second_runs
unfolding acquire_slot release_slot
second_runs-SlotReach =
    next
      (next (next (next here (acquiring 1 (omega arith))) (acquiring 1 (omega arith)))
        (releasing (omega arith)))
      (waking 1 (omega arith) (omega arith))

active_tasks-le_example : second_runs.active_tasks ≤ 1
active_tasks-le_example = active_tasks-le 1 second_runs-SlotReach

instance thousandths : Float ℕ
thousandths = milli
