-- ===== src/Llm/Chunks.antt =====
-- `_chunk_text` of src/core/llm_compress.py, for a `max_words` of at least one.
use finpipe.Base.{
  ℕ, zero, suc, ◌+◌, Bool, true, false, not, ◌&&◌, List, [], ◌∷◌, ◌++◌, String, join, map, filter,
  length, take, drop, ltb, if◌then◌else◌,
}
use finpipe.Text.{Unicode, is_empty, lines, words, strip}

-- `words[i:i + max_words]` for `i` in `range(0, len(words), max_words)`. There are at most as many slices
-- as words.
unfoldable pub slices : ℕ → ℕ → List String → List (List String)
slices fuel max_words [] = []
slices zero max_words (w ∷ ws) = []
slices (suc fuel) max_words (w ∷ ws) =
    take max_words (w ∷ ws) ∷ slices fuel max_words (drop max_words (w ∷ ws))

-- The state of the loop.
pub record Chunking : Type 0 where
  pub chunks : List String
  pub current_chunk : List String
  pub current_length : ℕ

abbrev pub is_open : List String → Bool
is_open [] = false
is_open (p ∷ ps) = true

unfoldable pub flush : Chunking → Chunking
flush s = record {
  chunks = s.chunks ++ join "\n" s.current_chunk ∷ [];
  current_chunk = [];
  current_length = 0;
}

unfoldable pub make_room : ℕ → ℕ → Chunking → Chunking
unfolding flush
make_room max_words p_len s =
    if ltb max_words (s.current_length + p_len) && is_open s.current_chunk then flush s else s

unfoldable pub finish : Chunking → List String
unfolding flush
finish s = if is_open s.current_chunk then (flush s).chunks else s.chunks

abbrev pub no_chunks : Chunking
no_chunks = record { chunks = []; current_chunk = []; current_length = 0 }

module _ (u : Unicode) where
  unfoldable pub paragraphs : String → List String
  paragraphs text = filter (λ p. not (is_empty p)) (map (strip u) (lines text))

  unfoldable pub sliced : ℕ → String → List String
  unfolding slices
  sliced max_words p = map (join " ") (slices (length (words u p)) max_words (words u p))

  unfoldable pub place : ℕ → String → Chunking → Chunking
  unfolding sliced
  place max_words p s =
      if ltb max_words (length (words u p))
      then record s { chunks = s.chunks ++ sliced max_words p }
      else record s {
        current_chunk = s.current_chunk ++ p ∷ [];
        current_length = s.current_length + length (words u p);
      }

  unfoldable pub chunk_step : ℕ → String → Chunking → Chunking
  unfolding make_room place
  chunk_step max_words p s = place max_words p (make_room max_words (length (words u p)) s)

  unfoldable pub chunk_loop : ℕ → List String → Chunking → Chunking
  unfolding chunk_step
  chunk_loop max_words [] s = s
  chunk_loop max_words (p ∷ ps) s = chunk_loop max_words ps (chunk_step max_words p s)

  unfoldable pub chunk_text : String → ℕ → List String
  unfolding paragraphs chunk_loop finish
  chunk_text text max_words = finish (chunk_loop max_words (paragraphs text) no_chunks)
