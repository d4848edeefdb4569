-- ===== src/Cache/Sqlite.antt =====
-- `SqliteCacheBackend` of src/network/cache.py: the table `finpipe_cache`. A write may fail, at `json.dumps` or at
-- the statement; SELECT and DELETE succeed. The JSON text of a value is a parameter.
use finpipe.Base.{
  ◌≡◌, refl, Bool, true, false, Bool-cases, inl, inr, Option, none, some, List, [], ◌∷◌, ◌&&◌,
  String, str_eq, eq_refl, Dict, lookup, insert, erase, lookup-insert, lookup-erase, arith,
  if◌then◌else◌,
}
use finpipe.Errors.{Result, Done, ok, raise}
use finpipe.Float.{Float, less}
use finpipe.Cache.Backend.{Backend}

-- `json.dumps`, which refuses some values, and `json.loads`; `none` where the text is no JSON.
pub record Codec (V : Type 0) : Type 0 where
  pub dumps : V → Result String
  pub loads : String → Option V
  pub loads-dumps : (v : V) (text : String) → dumps v ≡ ok text → loads text ≡ some v

-- A call that the program makes of the cache, with what the statement of a write comes to.
pub data SqliteCall (V F : Type 0) : Type 0 where
  getting : F → String → SqliteCall V F
  setting : F → String → V → F → Done → SqliteCall V F

abbrev pub is_done : {A : Type 0} → Result A → Bool
is_done (ok a) = true
is_done (raise e) = false

module _ {V F : Type 0} ⦃fl : Float F⦄ (codec : Codec V) where
  -- the part of `get` behind the SELECT
  abbrev pub row_value :
      F → String → Dict (String × F) → Option (String × F) → Option V × Dict (String × F)
  row_value now key table none = (none, table)
  row_value now key table (some (text, expiry)) =
      if less expiry now then (none, erase key table) else (codec.loads text, table)

  unfoldable pub sqlite_get : F → String → Dict (String × F) → Option V × Dict (String × F)
  sqlite_get now key table = row_value now key table (lookup key table)

  -- the row of a text that was dumped, where the statement succeeds; what is raised is logged
  abbrev pub written : String → F → Dict (String × F) → Result String → Done → Dict (String × F)
  written key expiry table (raise e) statement = table
  written key expiry table (ok text) (raise e) = table
  written key expiry table (ok text) (ok x) = insert key (text, expiry) table

  unfoldable pub sqlite_set : F → String → V → F → Done → Dict (String × F) → Dict (String × F)
  sqlite_set now key value ttl_seconds statement table =
      written key (fl.add now ttl_seconds) table (codec.dumps value) statement

  abbrev pub decoded : Option (String × F) → Option (V × F)
  decoded none = none
  decoded (some (text, expiry)) = elim (codec.loads text) [
    | none ↦ none
    | some v ↦ some (v, expiry)
  ]

  pub sqlite_get_answer :
      (now : F) (k : String) (table : Dict (String × F)) (v : V)
      → (sqlite_get now k table).0 ≡ some v
      → (expiry : F) × (decoded (lookup k table) ≡ some (v, expiry)) × (less expiry now ≡ false)
  unfolding sqlite_get
  sqlite_get_answer now k table v h = fresh (lookup k table) h
    where
      fresh :
          (o : Option (String × F))
          → (row_value now k table o).0 ≡ some v
          → (expiry : F) × (decoded o ≡ some (v, expiry)) × (less expiry now ≡ false)
      fresh none h = absurd (ground arith)
      fresh (some (text, x)) h = elim (Bool-cases (less x now)) [
        | inl e ↦ absurd (ground arith)
        | inr e ↦ (x, ground arith, e)
      ]

  pub sqlite_get_keeps :
      (now : F) (k j : String) (table : Dict (String × F)) (e : V × F)
      → decoded (lookup j (sqlite_get now k table).1) ≡ some e
      → decoded (lookup j table) ≡ some e
  unfolding sqlite_get
  sqlite_get_keeps now k j table e h = kept (lookup k table) h
    where
      kept :
          (o : Option (String × F))
          → decoded (lookup j (row_value now k table o).1) ≡ some e
          → decoded (lookup j table) ≡ some e
      kept none h = h
      kept (some (text, x)) h = ground (arith, lookup-erase k j table)

  -- the table after some calls, the last call first
  unfoldable pub after_calls : List (SqliteCall V F) → Dict (String × F)
  unfolding sqlite_get sqlite_set
  after_calls [] = []
  after_calls (getting now k ∷ calls) = (sqlite_get now k (after_calls calls)).1
  after_calls (setting now k v ttl statement ∷ calls) =
      sqlite_set now k v ttl statement (after_calls calls)

  -- The value of the last write under a key that JSON can write and whose statement succeeded, and its expiry.
  abbrev pub last_written : String → List (SqliteCall V F) → Option (V × F)
  last_written k [] = none
  last_written k (getting now j ∷ calls) = last_written k calls
  last_written k (setting now j v ttl statement ∷ calls) =
      if str_eq j k && (is_done (codec.dumps v) && is_done statement)
      then some (v, fl.add now ttl)
      else last_written k calls

  sqlite_set_keeps :
      (now : F) (k j : String) (v : V) (ttl : F) (statement : Done) (table : Dict (String × F))
      (e : V × F)
      → decoded (lookup j (sqlite_set now k v ttl statement table)) ≡ some e
      → (if str_eq k j && (is_done (codec.dumps v) && is_done statement)
          then some (v, fl.add now ttl)
          else decoded (lookup j table))
        ≡ some e
  unfolding sqlite_set
  sqlite_set_keeps now k j v ttl statement table e h = kept (codec.dumps v) statement refl h
    where
      kept :
          (d : Result String) (done : Done)
          → codec.dumps v ≡ d
          → decoded (lookup j (written k (fl.add now ttl) table d done)) ≡ some e
          → (if str_eq k j && (is_done d && is_done done)
              then some (v, fl.add now ttl)
              else decoded (lookup j table))
            ≡ some e
      kept (raise x) done c h = elim (Bool-cases (str_eq k j)) [ inl s ↦ rw s h | inr s ↦ rw s h ]
      kept (ok text) (raise x) c h = elim (Bool-cases (str_eq k j)) [
        | inl s ↦ rw s h
        | inr s ↦ rw s h
      ]
      kept (ok text) (ok x) c h =
          ground (arith, lookup-insert k j (text, fl.add now ttl) table, codec.loads-dumps v text c)

  entry_last :
      (calls : List (SqliteCall V F)) (k : String) (e : V × F)
      → decoded (lookup k (after_calls calls)) ≡ some e
      → last_written k calls ≡ some e
  unfolding after_calls
  entry_last [] k e h = absurd (ground arith)
  entry_last (getting now j ∷ calls) k e h =
      entry_last calls k e (sqlite_get_keeps now j k (after_calls calls) e h)
  entry_last (setting now j v ttl statement ∷ calls) k e h =
      let before = entry_last calls k e in
      let here = sqlite_set_keeps now j k v ttl statement (after_calls calls) e h in
      elim (Bool-cases (str_eq j k && (is_done (codec.dumps v) && is_done statement))) [
        | inl s ↦ rw s (rw s at here)
        | inr s ↦ rw s (before (rw s at here))
      ]

  -- What the SQLite cache answers for a key, after any calls, is the value that was last written under that
  -- key, read back from its JSON text, and it has not expired. A set whose value JSON refuses, or whose statement
  -- fails, writes nothing: the value of an older one is still answered.
  pub sqlite_get-latest :
      (calls : List (SqliteCall V F)) (now : F) (k : String) (v : V)
      → (sqlite_get now k (after_calls calls)).0 ≡ some v
      → (expiry : F) × (last_written k calls ≡ some (v, expiry)) × (less expiry now ≡ false)
  sqlite_get-latest calls now k v h =
      let (expiry, held, fresh) = sqlite_get_answer now k (after_calls calls) v h in
      (expiry, entry_last calls k (v, expiry) held, fresh)

  -- A value that was just written is answered until it expires.
  sqlite_get-set :
      (set_at now ttl : F) (k : String) (v : V) (text : String) (table : Dict (String × F))
      → codec.dumps v ≡ ok text
      → (sqlite_get now k (sqlite_set set_at k v ttl (ok tt) table)).0
        ≡ (if less (fl.add set_at ttl) now then none else some v)
  unfolding sqlite_get sqlite_set
  sqlite_get-set set_at now ttl k v text table c = rw c (
      rw (lookup-insert k k (text, fl.add set_at ttl) table, eq_refl)
        (ground (arith, codec.loads-dumps v text c)))

  -- On values that JSON can write, and where every statement succeeds, this is a cache with expiry.
  module _ (writable : (v : V) → (text : String) × (codec.dumps v ≡ ok text)) where
    abbrev sqlite_backend : Backend (Dict (String × F)) V F
    sqlite_backend = record {
      empty = [];
      get = sqlite_get;
      set = λ now k v ttl table. sqlite_set now k v ttl (ok tt) table;
      entry = λ k table. decoded (lookup k table);
      entry_empty = λ k. refl;
      get_answer = sqlite_get_answer;
      get_keeps = sqlite_get_keeps;
      set_keeps = λ now k j v ttl table e h. ground (
        arith,
        lookup-insert k j ((writable v).0, fl.add now ttl) table,
        codec.loads-dumps v (writable v).0 (writable v).1,
        rw (writable v).1 at (sqlite_set_keeps now k j v ttl (ok tt) table e h),
      );
      get-set = λ set_at now ttl k v table.
          sqlite_get-set set_at now ttl k v (writable v).0 table (writable v).1;
    }
