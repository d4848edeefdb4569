-- ===== src/Config/Merge.antt =====
-- `_deep_merge` of src/core/config.py.
use finpipe.Base.{◌⊎◌, ◌≡◌, refl, Option, none, some, String, eq_iff, arith}
use finpipe.Json.{
  Json, null, bool, num, str, arr, obj, Fields, end, field, get, set, IsDict, get-set,
}

-- The loop over `override.items()` writes into a copy of `base`. A dict meets a dict by recursion,
-- and any other value replaces the old one.
unfoldable mutual
  pub deep_merge : Fields → Fields → Fields
  deep_merge base end = base
  deep_merge base (field key value rest) =
      deep_merge (set key (merge_value (get key base) value) base) rest

  pub merge_value : Option Json → Json → Json
  merge_value (some (obj b)) (obj o) = obj (deep_merge b o)
  merge_value (some null) (obj o) = obj o
  merge_value (some (bool x)) (obj o) = obj o
  merge_value (some (num x)) (obj o) = obj o
  merge_value (some (str x)) (obj o) = obj o
  merge_value (some (arr x)) (obj o) = obj o
  merge_value none (obj o) = obj o
  merge_value old null = null
  merge_value old (bool x) = bool x
  merge_value old (num x) = num x
  merge_value old (str x) = str x
  merge_value old (arr x) = arr x

-- What a merged dict holds under one key.
abbrev pub merged : Option Json → Option Json → Option Json
merged old none = old
merged old (some v) = some (merge_value old v)

-- What the merge holds under a key is what it makes of the two values under it.
pub get-deep_merge :
    (k : String) (base override : Fields)
    → IsDict override
    → get k (deep_merge base override) ≡ merged (get k base) (get k override)
unfolding deep_merge
get-deep_merge k base end d = refl
get-deep_merge k base (field j v rest) d = ground (
  arith,
  eq_iff j k,
  get-set j k (merge_value (get j base) v) base,
  get-deep_merge k (set j (merge_value (get j base) v) base) rest d.1,
)

abbrev pub IsNoDict : Option Json → Type 0
IsNoDict (some (obj o)) = ⊥
IsNoDict _ = Unit

-- What is under a key of the merge, of what is under it in the base and in the override: the base's value
-- where the override has none; of two dicts their merge; and else the override's value.
pub data Merged : Option Json → Option Json → Option Json → Type 0 where
  kept : (old : Option Json) → Merged old none old
  nested : (b o : Fields) → Merged (some (obj b)) (some (obj o)) (some (obj (deep_merge b o)))
  replaced :
      (old : Option Json) (v : Json)
      → IsNoDict old ⊎ IsNoDict (some v)
      → Merged old (some v) (some v)
