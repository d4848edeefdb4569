-- ===== src/Llm/Repeated.antt =====
-- Repeated and failing calls of `generate_response` (src/providers/groq.py, nvidia.py, gemini.py).
use finpipe.Base.{ℕ, ◌≡◌, refl, ◌∙◌, false, none, Option, String}
use finpipe.Errors.{Exn, Result, ok, raise, provider_down, rate_limit_exceeded}
use finpipe.Float.{Float, less}
use finpipe.Json.{Json}
use finpipe.Cache.Backend.{Backend}
use finpipe.Fetch.Through.{through_cache_again, through_cache_failed}
use finpipe.Limiter.Buckets.{estimate_llm_token_usage}
use finpipe.Text.{text_length}
use finpipe.Llm.Payload.{
  Brand, groq, nvidia, gemini, LlmConfig, Options, Preparation, prepare_prompt, Python, LlmResponse,
  or_value,
}
use finpipe.Llm.Generate.{failure, model_or, answer_key, payload_of, ask, generate_response}

-- what a rate limit that is exceeded comes to
abbrev pub limited : Brand → String → Exn
limited nvidia m = provider_down "Failed to communicate with NVIDIA API"
limited groq m = rate_limit_exceeded m
limited gemini m = rate_limit_exceeded m

module _ {S V F : Type 0} ⦃fl : Float F⦄ (b : Backend S V F) (load : V → Result LlmResponse)
    (dump : LlmResponse → V) (reconcile : ℕ → Json → S → S) (py : Python) (brand : Brand)
    (c : LlmConfig) (p : Preparation) where
  -- Two calls with prompts that are prepared to one text, and one model, have one answer until it expires,
  -- whatever temperature, token limit or other options the second call asks for.
  pub generate_response-again :
      (web later_web : String → Json → ℕ → Result Json) (prompt later_prompt : String)
      (model : Option String) (o later_options : Options) (r : LlmResponse) (now later : F)
      (s s' : S)
      → prepare_prompt p later_prompt ≡ prepare_prompt p prompt
      → load (dump r) ≡ ok r
      → (b.get now (answer_key py brand (model_or c model) (prepare_prompt p prompt)) s).0 ≡ none
      → ask reconcile py brand c web o
          (model_or c model)
          (prepare_prompt p prompt)
          (b.get now (answer_key py brand (model_or c model) (prepare_prompt p prompt)) s).1
        ≡ (ok r, s')
      → less (fl.add now (fl.lit c.generate_response_sec 0)) later ≡ false
      → (generate_response reconcile py brand c b load dump p later_web later_prompt model
          later_options later
          (generate_response reconcile py brand c b load dump p web prompt model o now s).1).0
        ≡ ok r
  unfolding generate_response
  generate_response-again web later_web prompt later_prompt model o later_options r now later s s'
        same law miss got fresh =
      let key = answer_key py brand (model_or c model) (prepare_prompt p prompt) in
      rw same (
        through_cache_again b key c.generate_response_sec load dump raise now later r
          (ask reconcile py brand c web o (model_or c model) (prepare_prompt p prompt))
          (ask reconcile py brand c later_web later_options (model_or c model)
            (prepare_prompt p prompt))
          s s' miss got fresh
        ∙ law)

  failure-limited : (m : String) → failure py brand (rate_limit_exceeded m) ≡ limited brand m
  unfolding failure
  failure-limited m = elim brand as (λ x. failure py x (rate_limit_exceeded m) ≡ limited x m) [
    | groq ↦ refl
    | nvidia ↦ refl
    | gemini ↦ refl
  ]

  -- A request whose rate limit is exceeded makes Groq's and Gemini's adapters raise
  -- FinpipeRateLimitExceededError, but NVIDIA's FinpipeProviderDownError. Nothing is cached.
  pub generate_response-limited :
      (web : String → Json → ℕ → Result Json) (prompt m : String) (model : Option String)
      (o : Options) (now : F) (s : S)
      → (b.get now (answer_key py brand (model_or c model) (prepare_prompt p prompt)) s).0 ≡ none
      → ((x : Json) (n : ℕ) → web (model_or c model) x n ≡ raise (rate_limit_exceeded m))
      → generate_response reconcile py brand c b load dump p web prompt model o now s ≡ (
        raise (limited brand m),
        (b.get now (answer_key py brand (model_or c model) (prepare_prompt p prompt)) s).1,
      )
  unfolding generate_response ask
  generate_response-limited web prompt m model o now s miss refused =
      let key = answer_key py brand (model_or c model) (prepare_prompt p prompt) in
      through_cache_failed b key c.generate_response_sec load dump raise now (limited brand m)
        (ask reconcile py brand c web o (model_or c model) (prepare_prompt p prompt)) s
        (b.get now key s).1 miss
        (rw
          (
            refused (payload_of brand c o (model_or c model) (prepare_prompt p prompt)) (
                estimate_llm_token_usage (text_length (prepare_prompt p prompt))
                  (or_value c.max_tokens o.max_tokens)),
            failure-limited m,
          )
          refl)
