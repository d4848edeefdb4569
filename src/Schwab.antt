-- ===== src/Schwab.antt =====
-- The requests of `SchwabAdapter` in src/providers/schwab.py: `_get_access_token` and `_get`. They call methods of
-- their client that `ResilientHttpClient` of src/network/resilience.py does not have.
pub mod Replies
pub mod Operations
pub mod Misses
use finpipe.Base.{
  ℕ, ◌≡◌, refl, false, Option, none, some, String, ◌==◌, leb, concat, if◌then◌else◌, List, [], ◌∷◌,
  contains, ◌⊎◌, inl, inr,
}
use finpipe.Errors.{
  Result, ok, raise, attribute_error, provider_down, data_not_found, key_error, type_error,
  http_status_error, ◌>>=◌,
}
use finpipe.Float.{Float}
use finpipe.Json.{Json, num, obj, Fields, get}
use finpipe.Json.Access.{get_or}
use finpipe.Cache.Backend.{Backend}

-- the public methods of `ResilientHttpClient`
abbrev pub client_methods : List String
client_methods = "close" ∷ "reconcile_token_usage" ∷ "request" ∷ []

-- `await client.<name>(...)`, where a request with these arguments comes to `answer`
unfoldable pub invoke : {A : Type 0} → String → Result A → Result A
invoke name answer =
    if contains name client_methods
    then answer
    else raise (
        attribute_error
          (concat "'ResilientHttpClient' object has no attribute '" (concat name "'")))

-- a response: its status and its JSON
pub record Response : Type 0 where
  pub status : ℕ
  pub body : Result Json

pub record Web : Type 0 where
  pub token : Result Response
  pub endpoint : String → Fields → String → Result Response

-- what the cache and Python make of a token and of its lifetime: a text that is not empty, `str(token)` of a
-- JSON value, and `max(1, expires_in - 60)`
pub record Tokens (V F : Type 0) : Type 0 where
  pub load_token : V → Option String
  pub dump_token : Json → V
  pub print : Json → String
  pub lifetime : Json → Result F

-- `resp.raise_for_status()`, then `resp.json()`
abbrev pub json_of : Response → Result Json
json_of r = if leb 400 r.status then raise (http_status_error (some r.status) "") else r.body

-- `data[key]`
abbrev pub item : String → Json → Result Json
item key (obj fields) = elim (get key fields) [ none ↦ raise (key_error key) | some v ↦ ok v ]
item key v = raise (type_error "object is not subscriptable")

module _ {S V F : Type 0} ⦃fl : Float F⦄ (b : Backend S V F) (t : Tokens V F) (web : Web) where
  -- the body of the `try`: the token and its lifetime
  unfoldable pub token_data : Result (Json × F)
  unfolding invoke
  token_data = do
    resp ← invoke "post" web.token
    body ← json_of resp
    access_token ← item "access_token" body
    expires_in ←
        get_or "expires_in" (num (record { negative = false; digits = 1800; scale = 0 })) body
    seconds ← t.lifetime expires_in
    ok (access_token, seconds)

  abbrev pub granted : F → S → Result (Json × F) → Result String × S
  granted now s (raise e) = (raise (provider_down "Schwab OAuth failed"), s)
  granted now s (ok (access_token, seconds)) = (
    ok (t.print access_token),
    b.set now "schwab_access_token" (t.dump_token access_token) seconds s,
  )

  abbrev pub token_or : F → Option V × S → Result String × S
  token_or now (none, s) = granted now s token_data
  token_or now (some cached, s) = elim (t.load_token cached) [
    | some token ↦ (ok token, s)
    | none ↦ granted now s token_data
  ]

  unfoldable pub get_access_token : F → S → Result String × S
  unfolding token_data
  get_access_token now s = token_or now (b.get now "schwab_access_token" s)

  abbrev pub read_response : String → Response → Result Json
  read_response endpoint resp =
      if resp.status == 404
      then raise (data_not_found (concat "Schwab data not found at " endpoint))
      else json_of resp

  abbrev pub with_token : String → Fields → Result String × S → Result Json × S
  with_token endpoint params (r, s) = (
    r >>= (λ token. invoke "get" (web.endpoint endpoint params token) >>= read_response endpoint),
    s,
  )

  -- `_get`, behind which every operation of the adapter is that the cache does not answer
  unfoldable pub get_endpoint : String → Fields → F → S → Result Json × S
  unfolding get_access_token invoke
  get_endpoint endpoint params now s = with_token endpoint params (get_access_token now s)
