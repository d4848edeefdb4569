-- ===== src/Examples/Prompts.antt =====
-- Runs of the preparation of prompts and of the language models (src/core/llm_compress.py,
-- src/core/llm_prompt.py, src/providers/nvidia.py).
use finpipe.Base.{ℕ, ◌≡◌, refl, All, true, false, none, some, [], String, Dict, arith}
use finpipe.Errors.{Result, ok, raise, rate_limit_exceeded, network_error}
use finpipe.Float.{Float}
use finpipe.Json.{Json, str, arr, obj, nil, cons, end, field}
use finpipe.Cache.Backend.{Backend}
use finpipe.Cache.Memory.{memory_backend, memory_get}
use finpipe.Text.{words}
use finpipe.Text.Words.{all_words}
use finpipe.Llm.Chunks.{chunk_text}
use finpipe.Llm.Slices.{Fits}
use finpipe.Llm.Words.{chunk_text-words}
use finpipe.Llm.Compress.{Compression, prepare_llm_prompt, prepare_llm_prompt-words}
use finpipe.Llm.Payload.{
  nvidia, LlmConfig, Options, Preparation, Python, LlmResponse, prepare_prompt, chat_payload,
}
use finpipe.Llm.Generate.{
  answer_key, ask, generate_response, payload_of, read_answer, content_of, failure,
}
use finpipe.Llm.Repeated.{limited, generate_response-again, generate_response-limited}
use finpipe.Examples.Milli.{milli}
use finpipe.Examples.Setup.{unbounded, ascii}

instance thousandths : Float ℕ
thousandths = milli

chunk_text-words_example :
    (all_words ascii (chunk_text ascii "buy low\n\nsell high or hold\n" 3)
      ≡ words ascii "buy low\n\nsell high or hold\n")
    × All (Fits ascii 3) (chunk_text ascii "buy low\n\nsell high or hold\n" 3)
chunk_text-words_example = chunk_text-words ascii "buy low\n\nsell high or hold\n" 3 (omega arith)

abbrev unreachable : String → Result Json
unreachable chunk = raise (network_error "no route to host")

abbrev compression : Compression
compression = record {
  enabled = true;
  min_chars = 4;
  endpoint_url = some "https://compress.example";
}

prepare_llm_prompt-words_example :
    words ascii
      (prepare_llm_prompt ascii unreachable (λ s. s) compression "  the  outlook\nis good")
    ≡ words ascii "  the  outlook\nis good"
prepare_llm_prompt-words_example =
    prepare_llm_prompt-words ascii unreachable (λ s. s) compression "  the  outlook\nis good"
      (λ (chunk : String). (network_error "no route to host", refl))

abbrev config : LlmConfig
config = record {
  model = "m";
  temperature = str "0.3";
  max_tokens = 512;
  generate_response_sec = 5;
}

abbrev preparation : Preparation
preparation = record {
  unicode = ascii;
  service = unreachable;
  sanitize = λ s. s;
  compression = record { enabled = false; min_chars = 0; endpoint_url = none };
}

abbrev python : Python
python = record { hash = λ s. s; message = λ e. ""; plus = λ v w. ok v; count = λ v. ok none }

abbrev default_options : Options
default_options = record { temperature = none; max_tokens = none; extra = end }

abbrev hot : Options
hot = record { temperature = some (str "2.0"); max_tokens = some 9; extra = end }

abbrev answer : Json
answer = obj (
    field "choices"
      (arr (cons (obj (field "message" (obj (field "content" (str "up") end)) end)) nil)) end)

abbrev response : LlmResponse
response = record {
  model_name = "m";
  prompt_tokens = none;
  completion_tokens = none;
  content = "up";
  raw_response = answer;
}

abbrev answers : Backend (Dict (LlmResponse × ℕ)) LlmResponse ℕ
answers = memory_backend unbounded

abbrev generate :
    (String → Json → ℕ → Result Json)
    → Options
    → ℕ
    → Dict (LlmResponse × ℕ)
    → Result LlmResponse × Dict (LlmResponse × ℕ)
generate web o =
    generate_response (λ n v s. s) python nvidia config answers ok (λ r. r) preparation web
      "outlook" none o

abbrev answering : String → Json → ℕ → Result Json
answering model payload n = ok answer

abbrev limiting : String → Json → ℕ → Result Json
limiting model payload n = raise (rate_limit_exceeded "slow down")

generate_response-again_example :
    (generate limiting hot 5000 (generate answering default_options 0 []).1).0 ≡ ok response
unfolding thousandths memory_get prepare_prompt prepare_llm_prompt answer_key ask payload_of
    chat_payload read_answer content_of failure
generate_response-again_example =
    generate_response-again answers ok (λ r. r) (λ n v s. s) python nvidia config preparation
      answering limiting "outlook" "outlook" none default_options hot response 0 5000 [] [] refl
      refl refl refl refl

generate_response-limited_example :
    generate limiting hot 0 [] ≡ (raise (limited nvidia "slow down"), [])
unfolding thousandths memory_get
generate_response-limited_example =
    generate_response-limited answers ok (λ r. r) (λ n v s. s) python nvidia config preparation
      limiting "outlook" "slow down" none hot 0 [] refl (λ x n. refl)
