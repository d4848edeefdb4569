-- ===== src/Settings/Secrecy.antt =====
-- What the redaction guarantees, and what it leaves alone.
use finpipe.Base.{
  List, [], ◌∷◌, contains, ◌≡◌, refl, ap, ◌∙◌, ◌⊎◌, inl, inr, Bool, true, false, Bool-cases, Option,
  none, some, ◌&&◌, String, str_eq, eq_iff, arith, if◌then◌else◌,
}
use finpipe.Json.{
  Json, null, bool, num, str, arr, obj, Items, nil, cons, Fields, end, field, truthy, get,
}
use finpipe.Settings.Redact.{
  redact, redact_items, redact_fields, is_secret, redacted, describe, describe_fields,
  describe_items,
}

-- The keys whose values are to be hidden.
abbrev pub hidden_keys : List String
hidden_keys = "access_key_id" ∷ "api_key" ∷ "secret_access_key" ∷ []

abbrev pub is_hidden : String → Bool
is_hidden key = contains key hidden_keys

-- At every depth a field with a hidden key holds a value of which `Hidden` is true.
module _ (Hidden : Json → Type 0) where
  abbrev mutual
    pub Conceals : Json → Type 0
    Conceals null = Unit
    Conceals (bool b) = Unit
    Conceals (num n) = Unit
    Conceals (str s) = Unit
    Conceals (arr vs) = ConcealsItems vs
    Conceals (obj fs) = ConcealsFields fs

    pub ConcealsItems : Items → Type 0
    ConcealsItems nil = Unit
    ConcealsItems (cons v vs) = Conceals v × ConcealsItems vs

    pub ConcealsFields : Fields → Type 0
    ConcealsFields end = Unit
    ConcealsFields (field k v fs) =
        (if is_hidden k then Hidden v else Conceals v) × ConcealsFields fs

-- nothing, or the mark of the settings dump
abbrev pub IsRedacted : Json → Type 0
IsRedacted v = (v ≡ null) ⊎ (v ≡ str redacted)

-- nothing, or the mark of the descriptors
abbrev pub IsMarked : Json → Type 0
IsMarked v = (truthy v ≡ false) ⊎ (v ≡ str "<configured>")

secret_hidden : (k : String) → is_secret k ≡ is_hidden k
secret_hidden k = ground arith

redact_entry :
    (secret : Bool) (v : Json)
    → Conceals IsRedacted (redact v)
    → (if secret
        then IsRedacted (if secret then (if truthy v then str redacted else null) else redact v)
        else Conceals IsRedacted
            (if secret then (if truthy v then str redacted else null) else redact v))
redact_entry true v h = elim (Bool-cases (truthy v)) [ inl e ↦ inr (rw e) | inr e ↦ inl (rw e) ]
redact_entry false v h = h

mutual
  unfolding redact

  redact_value : (v : Json) → Conceals IsRedacted (redact v)
  redact_value null = tt
  redact_value (bool b) = tt
  redact_value (num n) = tt
  redact_value (str s) = tt
  redact_value (arr vs) = redact_values vs
  redact_value (obj fs) = redact_entries fs

  redact_values : (vs : Items) → ConcealsItems IsRedacted (redact_items vs)
  redact_values nil = tt
  redact_values (cons v vs) = (redact_value v, redact_values vs)

  redact_entries : (fs : Fields) → ConcealsFields IsRedacted (redact_fields fs)
  redact_entries end = tt
  redact_entries (field k v fs) =
      (rw (secret_hidden k) (redact_entry (is_hidden k) v (redact_value v)), redact_entries fs)

-- What is described of a value that is false is false: the case of a secret that is not set.
truthy-describe : (v : Json) → truthy (describe v) ≡ truthy v
unfolding describe
truthy-describe null = refl
truthy-describe (bool b) = refl
truthy-describe (num n) = refl
truthy-describe (str s) = refl
truthy-describe (arr nil) = refl
truthy-describe (arr (cons v vs)) = refl
truthy-describe (obj end) = refl
truthy-describe (obj (field k v fs)) = refl

describe_entry :
    (secret : Bool) (v : Json)
    → Conceals IsMarked (describe v)
    → (if secret
        then IsMarked (if secret && truthy v then str "<configured>" else describe v)
        else Conceals IsMarked (if secret && truthy v then str "<configured>" else describe v))
describe_entry true v h = elim (Bool-cases (truthy v)) [
  | inl e ↦ inr (rw e)
  | inr e ↦ inl (rw e (truthy-describe v ∙ e))
]
describe_entry false v h = h

mutual
  unfolding describe

  describe_value : (v : Json) → Conceals IsMarked (describe v)
  describe_value null = tt
  describe_value (bool b) = tt
  describe_value (num n) = tt
  describe_value (str s) = tt
  describe_value (arr vs) = describe_values vs
  describe_value (obj fs) = describe_entries fs

  describe_values : (vs : Items) → ConcealsItems IsMarked (describe_items vs)
  describe_values nil = tt
  describe_values (cons v vs) = (describe_value v, describe_values vs)

  describe_entries : (fs : Fields) → ConcealsFields IsMarked (describe_fields fs)
  describe_entries end = tt
  describe_entries (field k v fs) = (
    rw (secret_hidden k) (describe_entry (is_hidden k) v (describe_value v)),
    describe_entries fs,
  )

mutual
  unfolding redact

  redact_idem : (v : Json) → redact (redact v) ≡ redact v
  redact_idem null = refl
  redact_idem (bool b) = refl
  redact_idem (num n) = refl
  redact_idem (str s) = refl
  redact_idem (arr vs) = ap arr (redact_items_idem vs)
  redact_idem (obj fs) = ap obj (redact_fields_idem fs)

  redact_items_idem : (vs : Items) → redact_items (redact_items vs) ≡ redact_items vs
  redact_items_idem nil = refl
  redact_items_idem (cons v vs) = cc (redact_idem v, redact_items_idem vs)

  redact_fields_idem : (fs : Fields) → redact_fields (redact_fields fs) ≡ redact_fields fs
  redact_fields_idem end = refl
  redact_fields_idem (field k v fs) = ground (arith, redact_idem v, redact_fields_idem fs)

-- a dict with a text under a key that is not hidden
abbrev pub client_secret : String → Json
client_secret s = obj (field "client_secret" (str s) end)

-- Both redactions hide, at every depth of every value, what is under the keys api_key, access_key_id and
-- secret_access_key, and to redact twice is to redact once: the settings dump leaves there nothing or
-- "<redacted>", the descriptors a value that is false or "<configured>". A text under client_secret is left
-- in the clear by both.
pub redact_hides_secrets :
    (v : Json) (s : String)
    → Conceals IsRedacted (redact v)
      × Conceals IsMarked (describe v)
      × (redact (redact v) ≡ redact v)
      × (redact (client_secret s) ≡ client_secret s)
      × (describe (client_secret s) ≡ client_secret s)
unfolding redact describe
redact_hides_secrets v s = (redact_value v, describe_value v, redact_idem v, refl, refl)

-- What the redacted dict holds under a key.
abbrev pub redacted_entry : String → Option Json → Option Json
redacted_entry k none = none
redacted_entry k (some v) =
    some (if is_secret k then (if truthy v then str redacted else null) else redact v)

-- The redaction keeps the keys of a dict; a value under another key than the three secret ones is
-- redacted in its turn, and a text there is kept as it is.
get-redact_fields :
    (k : String) (fs : Fields) → get k (redact_fields fs) ≡ redacted_entry k (get k fs)
unfolding redact
get-redact_fields k end = refl
get-redact_fields k (field j v fs) = elim (Bool-cases (str_eq j k)) [
  | inl e ↦ rw ((eq_iff j k).0 e) (ground (arith, eq_iff k k))
  | inr e ↦ rw e (get-redact_fields k fs)
]
