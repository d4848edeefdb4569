-- ===== src/Cache/Memory.antt =====
-- `InMemoryTTLCache` of src/network/cache.py. cachetools' `LRUCache` is a parameter.
use finpipe.Base.{
  ◌≡◌, false, Bool-cases, inl, inr, Option, none, some, List, String, str_eq, eq_iff, arith,
  if◌then◌else◌,
}
use finpipe.Float.{Float, less}
use finpipe.Cache.Backend.{Backend, Call, latest, after, get-latest}

-- A cache of at least one item that drops the least recently used one. `lookup` reads an item and counts
-- as a use of it; a `store` may drop other items.
pub record Lru (S V : Type 0) : Type 0 where
  pub empty : S
  pub lookup : String → S → Option V × S
  pub store : String → V → S → S
  pub delete : String → S → S
  pub lookup_empty : (k : String) → (lookup k empty).0 ≡ none
  pub lookup_keeps : (k j : String) (s : S) → (lookup j (lookup k s).1).0 ≡ (lookup j s).0
  pub lookup-delete :
      (k j : String) (s : S)
      → (lookup j (delete k s)).0 ≡ (if str_eq k j then none else (lookup j s).0)
  pub lookup-store_self : (k : String) (v : V) (s : S) → (lookup k (store k v s)).0 ≡ some v
  pub lookup-store_other :
      (k j : String) (v w : V) (s : S)
      → str_eq k j ≡ false
      → (lookup j (store k v s)).0 ≡ some w
      → (lookup j s).0 ≡ some w

module _ {S V F : Type 0} ⦃fl : Float F⦄ (lru : Lru S (V × F)) where
  -- the part of `get` behind the lookup
  abbrev pub if_fresh : F → String → Option (V × F) × S → Option V × S
  if_fresh now key (none, s) = (none, s)
  if_fresh now key (some (value, expiry), s) =
      if less expiry now then (none, lru.delete key s) else (some value, s)

  unfoldable pub memory_get : F → String → S → Option V × S
  memory_get now key s = if_fresh now key (lru.lookup key s)

  unfoldable pub memory_set : F → String → V → F → S → S
  memory_set now key value ttl_seconds s = lru.store key (value, fl.add now ttl_seconds) s

  pub memory_get_answer :
      (now : F) (k : String) (s : S) (v : V)
      → (memory_get now k s).0 ≡ some v
      → (expiry : F) × ((lru.lookup k s).0 ≡ some (v, expiry)) × (less expiry now ≡ false)
  unfolding memory_get
  memory_get_answer now k s v h = fresh (lru.lookup k s) h
    where
      fresh :
          (o : Option (V × F) × S)
          → (if_fresh now k o).0 ≡ some v
          → (expiry : F) × (o.0 ≡ some (v, expiry)) × (less expiry now ≡ false)
      fresh (none, s') h = absurd (ground arith)
      fresh (some (w, x), s') h = elim (Bool-cases (less x now)) [
        | inl e ↦ absurd (ground arith)
        | inr e ↦ (x, ground arith, e)
      ]

  pub memory_get_keeps :
      (now : F) (k j : String) (s : S) (e : V × F)
      → (lru.lookup j (memory_get now k s).1).0 ≡ some e
      → (lru.lookup j s).0 ≡ some e
  unfolding memory_get
  memory_get_keeps now k j s e h = rw (← lru.lookup_keeps k j s) (kept (lru.lookup k s) h)
    where
      kept :
          (o : Option (V × F) × S)
          → (lru.lookup j (if_fresh now k o).1).0 ≡ some e
          → (lru.lookup j o.1).0 ≡ some e
      kept (none, s') h = h
      kept (some (w, x), s') h = ground (arith, lru.lookup-delete k j s')

  pub memory_set_keeps :
      (now : F) (k j : String) (v : V) (ttl : F) (s : S) (e : V × F)
      → (lru.lookup j (memory_set now k v ttl s)).0 ≡ some e
      → (if str_eq k j then some (v, fl.add now ttl) else (lru.lookup j s).0) ≡ some e
  unfolding memory_set
  memory_set_keeps now k j v ttl s e h = elim (Bool-cases (str_eq k j)) [
    | inl same ↦
        rw (same, ← lru.lookup-store_self k (v, fl.add now ttl) s) (rw (← (eq_iff k j).0 same) at h)
    | inr other ↦ rw other (lru.lookup-store_other k j (v, fl.add now ttl) e s other h)
  ]

  -- A value that was just set is answered until it expires.
  pub memory_get-set :
      (set_at now ttl : F) (k : String) (v : V) (s : S)
      → (memory_get now k (memory_set set_at k v ttl s)).0
        ≡ (if less (fl.add set_at ttl) now then none else some v)
  unfolding memory_get memory_set
  memory_get-set set_at now ttl k v s =
      looked_up (lru.lookup k (lru.store k (v, fl.add set_at ttl) s))
        (lru.lookup-store_self k (v, fl.add set_at ttl) s)
    where
      looked_up :
          (o : Option (V × F) × S)
          → o.0 ≡ some (v, fl.add set_at ttl)
          → (if_fresh now k o).0 ≡ (if less (fl.add set_at ttl) now then none else some v)
      looked_up (none, s') h = absurd (ground arith)
      looked_up (some (w, x), s') h = ground arith

  abbrev pub memory_backend : Backend S V F
  memory_backend = record {
    empty = lru.empty;
    get = memory_get;
    set = memory_set;
    entry = λ k s. (lru.lookup k s).0;
    entry_empty = lru.lookup_empty;
    get_answer = memory_get_answer;
    get_keeps = memory_get_keeps;
    set_keeps = memory_set_keeps;
    get-set = memory_get-set;
  }

  -- Whatever the cache evicts and however its clock runs: what the in-memory cache answers for a key,
  -- after any calls, is the value that was last set under that key, and it has not expired.
  pub memory_get-latest :
      (calls : List (Call V F)) (now : F) (k : String) (v : V)
      → (memory_get now k (after memory_backend calls)).0 ≡ some v
      → (expiry : F) × (latest k calls ≡ some (v, expiry)) × (less expiry now ≡ false)
  memory_get-latest calls now k v h = get-latest memory_backend calls now k v h
