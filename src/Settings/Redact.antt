-- ===== src/Settings/Redact.antt =====
-- The two redactions of secret fields: `_redact_secrets` of src/core/settings_dump.py and
-- `redact_secrets` of src/providers/descriptor.py.
use finpipe.Base.{Bool, List, [], ◌∷◌, ◌&&◌, String, contains, if◌then◌else◌}
use finpipe.Json.{
  Json, null, bool, num, str, arr, obj, Items, nil, cons, Fields, end, field, truthy,
}

abbrev pub secret_fields : List String
secret_fields = "api_key" ∷ "access_key_id" ∷ "secret_access_key" ∷ []

abbrev pub is_secret : String → Bool
is_secret key = contains key secret_fields

abbrev pub redacted : String
redacted = "<redacted>"

unfoldable mutual
  pub redact : Json → Json
  redact null = null
  redact (bool b) = bool b
  redact (num n) = num n
  redact (str s) = str s
  redact (arr vs) = arr (redact_items vs)
  redact (obj fs) = obj (redact_fields fs)

  pub redact_items : Items → Items
  redact_items nil = nil
  redact_items (cons v vs) = cons (redact v) (redact_items vs)

  pub redact_fields : Fields → Fields
  redact_fields end = end
  redact_fields (field key value fs) =
      field key
        (if is_secret key then (if truthy value then str redacted else null) else redact value)
        (redact_fields fs)

-- `redact_secrets` of the descriptors marks a secret that is set, and goes into one that is not.
unfoldable mutual
  pub describe : Json → Json
  describe null = null
  describe (bool b) = bool b
  describe (num n) = num n
  describe (str s) = str s
  describe (arr vs) = arr (describe_items vs)
  describe (obj fs) = obj (describe_fields fs)

  pub describe_items : Items → Items
  describe_items nil = nil
  describe_items (cons v vs) = cons (describe v) (describe_items vs)

  pub describe_fields : Fields → Fields
  describe_fields end = end
  describe_fields (field key value fs) =
      field key (if is_secret key && truthy value then str "<configured>" else describe value)
        (describe_fields fs)
