-- ===== src/Llm/Generate.antt =====
-- `generate_response` of src/providers/groq.py, nvidia.py and gemini.py, with `prepare_prompt` of
-- src/providers/llm_base.py. The state holds the cache and what `reconcile_token_usage` changes.
use finpipe.Base.{ℕ, Bool, true, false, not, ◌||◌, Option, String, concat, if◌then◌else◌}
use finpipe.Errors.{Exn, Result, ok, raise, provider_down, rate_limit_exceeded, ◌>>=◌}
use finpipe.Float.{Float}
use finpipe.Json.{Json, null, str, arr, obj, nil, cons, end, truthy}
use finpipe.Json.Access.{get_or, first_of}
use finpipe.Cache.Backend.{Backend}
use finpipe.Fetch.{Action, through_cache}
use finpipe.Limiter.Buckets.{estimate_llm_token_usage}
use finpipe.Text.{text_length}
use finpipe.Llm.Compress.{is_missing}
use finpipe.Llm.Payload.{
  Brand, nvidia, gemini, brand_key, brand_name, LlmConfig, Options, Preparation, prepare_prompt,
  Python, LlmResponse, or_value, chat_payload, gemini_payload,
}

-- What the exceptions of the request and of `response.json()` become.
unfoldable pub failure : Python → Brand → Exn → Exn
failure py nvidia e = provider_down "Failed to communicate with NVIDIA API"
failure py brand (provider_down m) = provider_down m
failure py brand (rate_limit_exceeded m) = rate_limit_exceeded m
failure py brand e = provider_down (
    concat "Failed to communicate with "
      (concat (brand_name brand) (concat " API: " (py.message e))))

abbrev pub answered : Python → Brand → Result Json → Result Json
answered py brand (ok v) = ok v
answered py brand (raise e) = raise (failure py brand e)

-- the names of the parts of an answer
abbrev pub choices_key : Brand → String
choices_key gemini = "candidates"
choices_key brand = "choices"

abbrev pub usage_key : Brand → String
usage_key gemini = "usageMetadata"
usage_key brand = "usage"

abbrev pub total_key : Brand → String
total_key gemini = "totalTokenCount"
total_key brand = "total_tokens"

abbrev pub prompt_key : Brand → String
prompt_key gemini = "promptTokenCount"
prompt_key brand = "prompt_tokens"

abbrev pub completion_key : Brand → String
completion_key gemini = "candidatesTokenCount"
completion_key brand = "completion_tokens"

-- the content of the first choice, or of the first part of the first candidate
unfoldable pub content_of : Brand → Json → Result Json
content_of gemini choices = do
  first ← first_of choices
  content ← get_or "content" (obj end) first
  parts ← get_or "parts" (arr (cons (obj end) nil)) content
  one ← first_of parts
  get_or "text" (str "") one
content_of brand choices = do
  first ← first_of choices
  message ← get_or "message" (obj end) first
  get_or "content" (str "") message

abbrev pub is_null : Json → Bool
is_null null = true
is_null v = false

-- the actual number of tokens, or null
abbrev pub tokens_of : Python → Json → Json → Json → Result Json
tokens_of py total prompt completion =
    if not (is_null total)
    then ok total
    else (if is_null prompt || is_null completion then ok null else py.plus prompt completion)

-- `LLMResponse(...)`, whose content is a text
abbrev pub response_of : Python → String → Json → Json → Json → Json → Result LlmResponse
response_of py model_name prompt completion (str content) raw = py.count prompt >>= (λ p.
    py.count completion >>= (λ c. ok (record {
      model_name = model_name;
      prompt_tokens = p;
      completion_tokens = c;
      content = content;
      raw_response = raw;
    })))
response_of py model_name prompt completion content raw =
    raise (Exn.value_error "validation error for LLMResponse")

-- An answer read up to the reconciliation: the actual tokens, and what the response comes to.
unfoldable pub read_answer : Python → Brand → String → Json → Result (Json × Result LlmResponse)
unfolding content_of
read_answer py brand model_name body = do
  choices ← get_or (choices_key brand) (arr nil) body
  if not (truthy choices)
      then raise (provider_down (concat (brand_name brand) " API returned an empty response"))
      else (content_of brand choices >>= (λ content.
          get_or (usage_key brand) (obj end) body >>= (λ usage.
            get_or (total_key brand) null usage >>= (λ total.
              get_or (prompt_key brand) null usage >>= (λ prompt.
                get_or (completion_key brand) null usage >>= (λ completion.
                  tokens_of py total prompt completion >>= (λ tokens.
                    ok (tokens, response_of py model_name prompt completion content body))))))))

abbrev pub model_or : LlmConfig → Option String → String
model_or c model = if is_missing model then c.model else or_value "" model

unfoldable pub payload_of : Brand → LlmConfig → Options → String → String → Json
unfolding chat_payload gemini_payload
payload_of gemini c o model_name prompt = gemini_payload c o prompt
payload_of brand c o model_name prompt = chat_payload c o model_name prompt

unfoldable pub answer_key : Python → Brand → String → String → String
answer_key py brand model_name prompt =
    concat (brand_key brand) (concat model_name (concat "_" (py.hash prompt)))

module _ {S : Type 0} (reconcile : ℕ → Json → S → S) (py : Python) (brand : Brand)
    (c : LlmConfig) where
  abbrev pub reconciled : ℕ → S → Result (Json × Result LlmResponse) → Result LlmResponse × S
  reconciled estimated s (raise e) = (raise e, s)
  reconciled estimated s (ok (tokens, response)) =
      (response, if is_null tokens then s else reconcile estimated tokens s)

  -- The part behind the cache. `web` is what a request with a payload and a token estimate comes to.
  unfoldable pub ask :
      (String → Json → ℕ → Result Json) → Options → String → String → Action S LlmResponse
  unfolding payload_of failure read_answer
  ask web o model_name prompt s =
      let estimated =
        estimate_llm_token_usage (text_length prompt) (or_value c.max_tokens o.max_tokens) in
      reconciled estimated s (
        answered py brand (web model_name (payload_of brand c o model_name prompt) estimated)
        >>= read_answer py brand model_name)

  module _ {V F : Type 0} ⦃fl : Float F⦄ (b : Backend S V F) (load : V → Result LlmResponse)
      (dump : LlmResponse → V) (p : Preparation) where
    unfoldable pub generate_response :
        (String → Json → ℕ → Result Json)
        → String
        → Option String
        → Options
        → F
        → Action S LlmResponse
    unfolding prepare_prompt through_cache answer_key ask
    generate_response web prompt model o now =
        through_cache b now (answer_key py brand (model_or c model) (prepare_prompt p prompt))
          c.generate_response_sec load dump raise
          (ask web o (model_or c model) (prepare_prompt p prompt))
