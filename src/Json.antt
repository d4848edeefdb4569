-- ===== src/Json.antt =====
-- The values that `json.loads` and pydantic's `model_dump(mode="json")` return, which
-- src/core/config.py merges and src/core/settings_dump.py redacts: truth of a value, and reading
-- and writing the fields of an object.
pub mod Access
use finpipe.Base.{
  ℕ, ◌≡◌, refl, Bool, true, false, Option, none, some, String, str_eq, eq_iff, arith, not, ◌==◌,
  if◌then◌else◌,
}

-- A number as it is written: digits / 10 ^ scale, with a sign.
pub record Decimal : Type 0 where
  pub negative : Bool
  pub digits : ℕ
  pub scale : ℕ

mutual
  pub data Json : Type 0 where
    null : Json
    bool : Bool → Json
    num : Decimal → Json
    str : String → Json
    arr : Items → Json
    obj : Fields → Json

  pub data Items : Type 0 where
    nil : Items
    cons : Json → Items → Items

  -- a dict, in insertion order
  pub data Fields : Type 0 where
    end : Fields
    field : String → Json → Fields → Fields

-- `bool(v)`
abbrev pub truthy : Json → Bool
truthy null = false
truthy (bool b) = b
truthy (num d) = not (d.digits == 0)
truthy (str s) = not (str_eq s "")
truthy (arr nil) = false
truthy (arr (cons v vs)) = true
truthy (obj end) = false
truthy (obj (field k v fs)) = true

-- `d.get(k)`
abbrev pub get : String → Fields → Option Json
get k end = none
get k (field j v fs) = if str_eq j k then some v else get k fs

-- `d[k] = v`: an old key keeps its place
abbrev pub set : String → Json → Fields → Fields
set k v end = field k v end
set k v (field j w fs) = if str_eq j k then field j v fs else field j w (set k v fs)

-- `{j: v for j, v in d.items() if j != k}`
abbrev pub without : String → Fields → Fields
without k end = end
without k (field j v fs) = if str_eq j k then without k fs else field j v (without k fs)

-- No key stands twice, as in every Python dict.
abbrev pub IsDict : Fields → Type 0
IsDict end = Unit
IsDict (field k v fs) = (get k fs ≡ none) × IsDict fs

pub get-set :
    (k j : String) (v : Json) (fs : Fields)
    → get j (set k v fs) ≡ (if str_eq k j then some v else get j fs)
get-set k j v end = refl
get-set k j v (field i w fs) = ground (arith, eq_iff k j, eq_iff i k, eq_iff i j, get-set k j v fs)

pub get-without :
    (k j : String) (fs : Fields) → get j (without k fs) ≡ (if str_eq k j then none else get j fs)
get-without k j end = ground arith
get-without k j (field i w fs) =
    ground (arith, eq_iff k j, eq_iff i k, eq_iff i j, get-without k j fs)

pub set-IsDict : (k : String) (v : Json) (fs : Fields) → IsDict fs → IsDict (set k v fs)
set-IsDict k v end d = (refl, tt)
set-IsDict k v (field j w fs) d =
    ground (arith, eq_iff j k, eq_iff k j, get-set k j v fs, set-IsDict k v fs d.1)
