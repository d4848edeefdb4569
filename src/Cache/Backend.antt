-- ===== src/Cache/Backend.antt =====
-- `ICacheBackend` of src/network/cache.py: the two operations at a reading of the clock, what a backend
-- holds under a key, and the laws that make it a cache with expiry.
use finpipe.Base.{
  ◌≡◌, false, Bool-cases, inl, inr, Option, none, some, List, [], ◌∷◌, String, str_eq, arith,
  if◌then◌else◌,
}
use finpipe.Float.{Float, less}

pub record Backend (S V F : Type 0) ⦃fl : Float F⦄ : Type 0 where
  pub empty : S
  pub get : F → String → S → Option V × S
  pub set : F → String → V → F → S → S
  -- the value and its expiry
  pub entry : String → S → Option (V × F)
  pub entry_empty : (k : String) → entry k empty ≡ none
  pub get_answer :
      (now : F) (k : String) (s : S) (v : V)
      → (get now k s).0 ≡ some v
      → (expiry : F) × (entry k s ≡ some (v, expiry)) × (less expiry now ≡ false)
  pub get_keeps :
      (now : F) (k j : String) (s : S) (e : V × F)
      → entry j (get now k s).1 ≡ some e
      → entry j s ≡ some e
  pub set_keeps :
      (now : F) (k j : String) (v : V) (ttl : F) (s : S) (e : V × F)
      → entry j (set now k v ttl s) ≡ some e
      → (if str_eq k j then some (v, fl.add now ttl) else entry j s) ≡ some e
  pub get-set :
      (set_at now ttl : F) (k : String) (v : V) (s : S)
      → (get now k (set set_at k v ttl s)).0
        ≡ (if less (fl.add set_at ttl) now then none else some v)

-- A call that the program makes of a cache.
pub data Call (V F : Type 0) : Type 0 where
  getting : F → String → Call V F
  setting : F → String → V → F → Call V F

module _ {V F : Type 0} ⦃fl : Float F⦄ where
  -- The value that was last set under a key, and its expiry; the last call comes first.
  abbrev pub latest : String → List (Call V F) → Option (V × F)
  latest k [] = none
  latest k (getting now j ∷ calls) = latest k calls
  latest k (setting now j v ttl ∷ calls) =
      if str_eq j k then some (v, fl.add now ttl) else latest k calls

  module _ {S : Type 0} (b : Backend S V F) where
    abbrev pub after : List (Call V F) → S
    after [] = b.empty
    after (getting now j ∷ calls) = (b.get now j (after calls)).1
    after (setting now j v ttl ∷ calls) = b.set now j v ttl (after calls)

    entry-latest :
        (calls : List (Call V F)) (k : String) (e : V × F)
        → b.entry k (after calls) ≡ some e
        → latest k calls ≡ some e
    entry-latest [] k e h = absurd (ground (arith, b.entry_empty k))
    entry-latest (getting now j ∷ calls) k e h =
        entry-latest calls k e (b.get_keeps now j k (after calls) e h)
    entry-latest (setting now j v ttl ∷ calls) k e h = elim (Bool-cases (str_eq j k)) [
      | inl same ↦ rw same (rw same at (b.set_keeps now j k v ttl (after calls) e h))
      | inr other ↦
          rw other
            (entry-latest calls k e (rw other at (b.set_keeps now j k v ttl (after calls) e h)))
    ]

    pub get-latest :
        (calls : List (Call V F)) (now : F) (k : String) (v : V)
        → (b.get now k (after calls)).0 ≡ some v
        → (expiry : F) × (latest k calls ≡ some (v, expiry)) × (less expiry now ≡ false)
    get-latest calls now k v h =
        let (expiry, held, fresh) = b.get_answer now k (after calls) v h in
        (expiry, entry-latest calls k (v, expiry) held, fresh)
