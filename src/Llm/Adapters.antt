-- ===== src/Llm/Adapters.antt =====
-- The three adapters of language models, src/providers/groq.py, nvidia.py and gemini.py: `generate_response` of
-- each, `_remote_models`, and the details of `describe`.
use Prim.Native.Char.{code}
use finpipe.Base.{ℕ, Bool, Option, String, concat, ◌==◌, if◌then◌else◌}
use finpipe.Errors.{Result, ok, raise, attribute_error, ◌>>=◌}
use finpipe.Float.{Float}
use finpipe.Json.{Json, null, bool, str, arr, Items, nil, cons, Fields, end, field, truthy}
use finpipe.Json.Access.{get_or, items_of}
use finpipe.Cache.Backend.{Backend}
use finpipe.Fetch.{Action}
use finpipe.Llm.Compress.{is_missing}
use finpipe.Llm.Payload.{
  Brand, groq, nvidia, gemini, LlmConfig, Options, Preparation, Python, LlmResponse, whole,
}
use finpipe.Llm.Generate.{generate_response}

module _ {S V F : Type 0} ⦃fl : Float F⦄ (reconcile : ℕ → Json → S → S) (py : Python)
    (c : LlmConfig) (b : Backend S V F) (load : V → Result LlmResponse) (dump : LlmResponse → V)
    (p : Preparation) where
  unfoldable pub generate_groq :
      (String → Json → ℕ → Result Json)
      → String
      → Option String
      → Options
      → F
      → Action S LlmResponse
  unfolding generate_response
  generate_groq = generate_response reconcile py groq c b load dump p

  unfoldable pub generate_nvidia :
      (String → Json → ℕ → Result Json)
      → String
      → Option String
      → Options
      → F
      → Action S LlmResponse
  unfolding generate_response
  generate_nvidia = generate_response reconcile py nvidia c b load dump p

  unfoldable pub generate_gemini :
      (String → Json → ℕ → Result Json)
      → String
      → Option String
      → Options
      → F
      → Action S LlmResponse
  unfolding generate_response
  generate_gemini = generate_response reconcile py gemini c b load dump p

-- `name.split("/")[-1]`, with the part that is being read
unfoldable pub last_part : String → String → String
last_part read String.[] = read
last_part read (String.◌∷◌ c s) =
    if code c == 47 then last_part "" s else last_part (concat read (String.◌∷◌ c "")) s

-- what a list of models has for one: the ID, or the last part of the name
abbrev pub short_name : Json → Result Json
short_name (str name) = ok (str (last_part "" name))
short_name v = raise (attribute_error "no attribute 'split'")

abbrev pub model_field : Brand → String
model_field gemini = "name"
model_field brand = "id"

abbrev pub list_field : Brand → String
list_field gemini = "models"
list_field brand = "data"

abbrev pub model_value : Brand → Json → Result Json
model_value gemini v = short_name v
model_value brand v = ok v

abbrev pub with_first : Result Json → Result Items → Result Items
with_first one rest = one >>= (λ v. rest >>= (λ vs. ok (cons v vs)))

-- the comprehension: models without an ID, or a name, are left out
unfoldable pub model_ids : Brand → Items → Result Items
unfolding last_part
model_ids brand nil = ok nil
model_ids brand (cons model models) =
    let rest = model_ids brand models in
    get_or (model_field brand) null model
    >>= (λ v. if truthy v then with_first (model_value brand v) rest else rest)

-- `_remote_models`, where the request for the list comes to `answer`
unfoldable pub remote_models : Brand → Option String → Result Json → Result Items
unfolding model_ids
remote_models brand api_key answer = if is_missing api_key then ok nil else (do
  body ← answer
  models ← get_or (list_field brand) (arr nil) body
  listed ← items_of models
  model_ids brand listed)

-- the key that Groq's adapter adds to the details
abbrev pub dynamic_field : Brand → Bool → Fields → Fields
dynamic_field groq use_dynamic_model rest = field "use_dynamic_model" (bool use_dynamic_model) rest
dynamic_field brand use_dynamic_model rest = rest

-- `details` of `describe`
unfoldable pub describe_details : Brand → LlmConfig → Bool → Items → Fields
describe_details brand c use_dynamic_model models = field "default_model" (str c.model) (
    field "temperature" c.temperature (
      field "max_tokens" (whole c.max_tokens)
        (dynamic_field brand use_dynamic_model (field "models" (arr models) end))))
