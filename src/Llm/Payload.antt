-- ===== src/Llm/Payload.antt =====
-- What `generate_response` of src/providers/groq.py, nvidia.py and gemini.py is given and sends.
use finpipe.Base.{ℕ, false, Option, none, some, String}
use finpipe.Errors.{Exn, Result}
use finpipe.Json.{Json, num, str, arr, obj, nil, cons, Fields, end, field, set}
use finpipe.Config.Ttl.{spread}
use finpipe.Text.{Unicode}
use finpipe.Llm.Compress.{Compression, prepare_llm_prompt}

pub data Brand : Type 0 where
  groq nvidia gemini : Brand

abbrev pub brand_key : Brand → String
brand_key groq = "groq_"
brand_key nvidia = "nvidia_"
brand_key gemini = "gemini_"

abbrev pub brand_name : Brand → String
brand_name groq = "Groq"
brand_name nvidia = "NVIDIA"
brand_name gemini = "Gemini"

pub record LlmConfig : Type 0 where
  pub model : String
  pub temperature : Json
  pub max_tokens : ℕ
  pub generate_response_sec : ℕ

-- The keyword arguments but for the symbol: for Groq and NVIDIA with `extra`, whatever else is passed on, for
-- Gemini those of `generationConfig`.
pub record Options : Type 0 where
  pub temperature : Option Json
  pub max_tokens : Option ℕ
  pub extra : Fields

-- the arguments of `prepare_llm_prompt`: the compression service and the sanitizer
pub record Preparation : Type 0 where
  pub unicode : Unicode
  pub service : String → Result Json
  pub sanitize : String → String
  pub compression : Compression

unfoldable pub prepare_prompt : Preparation → String → String
unfolding prepare_llm_prompt
prepare_prompt p text = prepare_llm_prompt p.unicode p.service p.sanitize p.compression text

-- Python's own: `hash`, `str(exc)`, `+` of two values and pydantic's reading of `int | None`.
pub record Python : Type 0 where
  pub hash : String → String
  pub message : Exn → String
  pub plus : Json → Json → Result Json
  pub count : Json → Result (Option ℕ)

pub record LlmResponse : Type 0 where
  pub model_name : String
  pub prompt_tokens : Option ℕ
  pub completion_tokens : Option ℕ
  pub content : String
  pub raw_response : Json

abbrev pub whole : ℕ → Json
whole n = num (record { negative = false; digits = n; scale = 0 })

abbrev pub or_value {ℓ} : {A : Type ℓ} → A → Option A → A
or_value default none = default
or_value default (some v) = v

abbrev pub text_message : String → Json
text_message prompt = obj (field "role" (str "user") (field "content" (str prompt) end))

unfoldable pub chat_payload : LlmConfig → Options → String → String → Json
unfolding spread
chat_payload c o model_name prompt = obj (
    spread
      (field "model" (str model_name) (
        field "messages" (arr (cons (text_message prompt) nil)) (
          field "temperature" (or_value c.temperature o.temperature)
            (field "max_tokens" (whole (or_value c.max_tokens o.max_tokens)) end))))
      o.extra)

abbrev pub part : String → Json
part prompt = obj (field "parts" (arr (cons (obj (field "text" (str prompt) end)) nil)) end)

-- `generationConfig` has the keys that are given, and then the ones that are not
abbrev pub with_missing {ℓ} : {A : Type ℓ} → String → Json → Option A → Fields → Fields
with_missing key v none fields = set key v fields
with_missing key v (some given) fields = fields

abbrev pub with_given : String → Option Json → Fields → Fields
with_given key none fields = fields
with_given key (some v) fields = set key v fields

abbrev pub some_whole : Option ℕ → Option Json
some_whole none = none
some_whole (some n) = some (whole n)

unfoldable pub gemini_payload : LlmConfig → Options → String → Json
gemini_payload c o prompt =
    let given =
      with_given "temperature" o.temperature
        (with_given "maxOutputTokens" (some_whole o.max_tokens) o.extra) in
    obj (
      field "contents" (arr (cons (part prompt) nil)) (
        field "generationConfig"
          (obj (
            with_missing "maxOutputTokens" (whole c.max_tokens) o.max_tokens
              (with_missing "temperature" c.temperature o.temperature given)))
          end))
