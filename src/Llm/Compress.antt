-- ===== src/Llm/Compress.antt =====
-- `compress_llm_text_for_sentiment` of src/core/llm_compress.py and `prepare_llm_prompt` of
-- src/core/llm_prompt.py. `service` is what the compression endpoint answers to a chunk: the JSON of its
-- response, or what was raised on the way. `sanitize` is `sanitize_llm_text`.
use finpipe.Base.{
  ℕ, ◌≡◌, refl, ap, ◌∙◌, Bool, true, Bool-cases, inl, inr, not, Option, none, some, List, [], ◌∷◌,
  String, join, map, ltb, if◌then◌else◌, arith,
}
use finpipe.Errors.{Exn, Result, ok, raise}
use finpipe.Json.{Json, str, obj, get}
use finpipe.Text.{Unicode, is_empty, words, strip, text_length}
use finpipe.Text.Words.{words-join}
use finpipe.Llm.Chunks.{chunk_text}
use finpipe.Llm.Words.{chunk_text-words}

-- `not endpoint_url`
abbrev pub is_missing : Option String → Bool
is_missing none = true
is_missing (some s) = is_empty s

-- the part of `LlmPromptCompressionConfig` that the preparation reads
pub record Compression : Type 0 where
  pub enabled : Bool
  pub min_chars : ℕ
  pub endpoint_url : Option String

module _ (u : Unicode) (service : String → Result Json) where
  -- `compressed if isinstance(compressed, str) and compressed.strip() else chunk`
  abbrev pub compressed_or : String → Option Json → String
  compressed_or chunk (some (str compressed)) =
      if is_empty (strip u compressed) then chunk else compressed
  compressed_or chunk _ = chunk

  -- `data.get("compressed_prompt")` raises where `data` is no dict, and the loop catches what is raised
  abbrev pub compressed_of : String → Result Json → String
  compressed_of chunk (ok (obj fields)) = compressed_or chunk (get "compressed_prompt" fields)
  compressed_of chunk _ = chunk

  unfoldable pub compress_chunk : String → String
  compress_chunk chunk = compressed_of chunk (service chunk)

  unfoldable pub compress_text : Option String → String → String
  unfolding compress_chunk
  compress_text endpoint_url text =
      if is_empty (strip u text)
      then text
      else (if is_missing endpoint_url
          then text
          else join "\n" (map compress_chunk (chunk_text u text 300)))

  -- The loop over the chunks catches what the requests raise, so the `except` clause here meets nothing.
  unfoldable pub prepare_llm_prompt : (String → String) → Compression → String → String
  unfolding compress_text
  prepare_llm_prompt sanitize compression text =
      let prepared = sanitize text in
      if not compression.enabled
      then prepared
      else (if ltb (text_length prepared) compression.min_chars
          then prepared
          else (if is_missing compression.endpoint_url
              then prepared
              else compress_text compression.endpoint_url prepared))

  all_words-compressed :
      ((chunk : String) → compress_chunk chunk ≡ chunk)
      → (chunks : List String) → map compress_chunk chunks ≡ chunks
  all_words-compressed kept [] = refl
  all_words-compressed kept (c ∷ cs) =
      ap (λ d. d ∷ map compress_chunk cs) (kept c)
      ∙ ap (λ ds. c ∷ ds) (all_words-compressed kept cs)

  compress_text-words :
      (endpoint_url : Option String) (text : String)
      → ((chunk : String) → compress_chunk chunk ≡ chunk)
      → words u (compress_text endpoint_url text) ≡ words u text
  unfolding compress_text
  compress_text-words endpoint_url text kept = elim (Bool-cases (is_empty (strip u text))) [
    | inl e ↦ rw e refl
    | inr e ↦ rw e (elim (Bool-cases (is_missing endpoint_url)) [
      | inl m ↦ rw m refl
      | inr m ↦ rw m (
          ap (λ cs. words u (join "\n" cs)) (all_words-compressed kept (chunk_text u text 300))
          ∙ words-join u _ (chunk_text u text 300) u.newline-is_space
          ∙ (chunk_text-words u text 300 (omega arith)).0)
    ])
  ]

  -- A chunk for which the request raises is kept.
  compress_chunk-failed :
      (chunk : String) (e : Exn) → service chunk ≡ raise e → compress_chunk chunk ≡ chunk
  unfolding compress_chunk
  compress_chunk-failed chunk e h = rw h refl

  -- Where every request to the compression service raises, the prepared prompt has the words of the sanitized one, in order, whatever the configuration.
  pub prepare_llm_prompt-words :
      (sanitize : String → String) (compression : Compression) (text : String)
      → ((chunk : String) → (e : Exn) × (service chunk ≡ raise e))
      → words u (prepare_llm_prompt sanitize compression text) ≡ words u (sanitize text)
  unfolding prepare_llm_prompt
  prepare_llm_prompt-words sanitize compression text unreachable = ground (
    arith,
    compress_text-words compression.endpoint_url (sanitize text) (λ (chunk : String).
        compress_chunk-failed chunk (unreachable chunk).0 (unreachable chunk).1),
  )
