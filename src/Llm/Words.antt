-- ===== src/Llm/Words.antt =====
-- The chunks of a text have its words, in order, and none has too many (src/core/llm_compress.py).
use finpipe.Base.{
  ℕ, ◌+◌, ◌≤◌, ◌≡◌, refl, sym, ap, ◌∙◌, true, false, ◌&&◌, Bool-cases, inl, inr, ◌⊎◌, List, [], ◌∷◌,
  ◌++◌, String, length, ltb, All, All-append, length-append, arith,
}
use finpipe.Text.{Unicode, lines, words}
use finpipe.Text.Words.{all_words, all_words-append, all_words-paragraphs, all_words-lines}
use finpipe.Llm.Chunks.{
  paragraphs, sliced, Chunking, is_open, flush, make_room, place, chunk_step, chunk_loop, finish,
  no_chunks, chunk_text,
}
use finpipe.Llm.Slices.{Fits, words-join_newline, sliced_lem}
use mathlib.Core.List.{append_assoc, append-nil}

module _ (u : Unicode) where
  -- The words so far, in the chunks and in the one that is open.
  abbrev pub seen : Chunking → List String
  seen s = all_words u s.chunks ++ all_words u s.current_chunk

  pub record IsChunking (max_words : ℕ) (s : Chunking) : Type 0 where
    pub fits : All (Fits u max_words) s.chunks
    pub counted : s.current_length ≡ length (all_words u s.current_chunk)
    pub bounded : s.current_length ≤ max_words

  flush_lem :
      (max_words : ℕ) (s : Chunking)
      → IsChunking max_words s
      → (seen (flush s) ≡ seen s) × IsChunking max_words (flush s)
  unfolding flush
  flush_lem max_words s i = (
    ap (λ xs. xs ++ []) (all_words-append u s.chunks _)
        ∙ append-nil _
        ∙ ap (λ xs. all_words u s.chunks ++ xs)
            (append-nil _ ∙ words-join_newline u s.current_chunk),
    record {
      fits =
          All-append (Fits u max_words) s.chunks _ i.fits
            (rw (words-join_newline u s.current_chunk) (rw (← i.counted) i.bounded), tt);
      counted = refl;
      bounded = omega arith;
    },
  )

  -- There is room for a paragraph of that many words, or no chunk is open.
  abbrev pub Room : ℕ → ℕ → Chunking → Type 0
  Room max_words p_len s =
      (is_open s.current_chunk ≡ false) ⊎ (s.current_length + p_len ≤ max_words)

  flush_closed : (s : Chunking) → is_open (flush s).current_chunk ≡ false
  unfolding flush
  flush_closed s = refl

  make_room_lem :
      (max_words p_len : ℕ) (s : Chunking)
      → IsChunking max_words s
      → (seen (make_room max_words p_len s) ≡ seen s)
        × IsChunking max_words (make_room max_words p_len s)
        × Room max_words p_len (make_room max_words p_len s)
  unfolding make_room
  make_room_lem max_words p_len s i =
      elim (Bool-cases (ltb max_words (s.current_length + p_len) && is_open s.current_chunk)) [
        | inl e ↦
            rw (e, make_room)
              (let (same, kept) = flush_lem max_words s i in (same, kept, inl (flush_closed s)))
        | inr e ↦
            rw (e, make_room)
              (
                refl,
                i,
                elim (Bool-cases (is_open s.current_chunk)) [
                  | inl o ↦ inr (ground arith)
                  | inr o ↦ inl o
                ],
              )
      ]

  closed : (ps : List String) → is_open ps ≡ false → ps ≡ []
  closed [] h = refl
  closed (p ∷ ps) h = absurd (ground arith)

  empty_length :
      (max_words : ℕ) (s : Chunking)
      → IsChunking max_words s
      → is_open s.current_chunk ≡ false
      → s.current_length ≡ 0
  empty_length max_words s i h =
      i.counted ∙ ap (λ ps. length (all_words u ps)) (closed s.current_chunk h)

  place_lem :
      (max_words : ℕ) (p : String) (s : Chunking)
      → 1 ≤ max_words
      → IsChunking max_words s
      → Room max_words (length (words u p)) s
      → (seen (place u max_words p s) ≡ seen s ++ words u p)
        × IsChunking max_words (place u max_words p s)
  unfolding place
  place_lem max_words p s m i room = elim (Bool-cases (ltb max_words (length (words u p)))) [
    | inl e ↦
        let (same, fit) = sliced_lem u max_words p m in
        let none_open : s.current_chunk ≡ [] = closed s.current_chunk (not_room room e) in
        rw (e, place)
          (
            rw none_open (
                append-nil _
                ∙ all_words-append u s.chunks (sliced u max_words p)
                ∙ ap (λ xs. all_words u s.chunks ++ xs) same
                ∙ ap (λ xs. xs ++ words u p) (sym (append-nil (all_words u s.chunks)))),
            record {
              fits = All-append (Fits u max_words) s.chunks (sliced u max_words p) i.fits fit;
              counted = i.counted;
              bounded = i.bounded;
            },
          )
    | inr e ↦
        rw (e, place)
          (
            ap (λ xs. all_words u s.chunks ++ xs)
                  (all_words-append u s.current_chunk (p ∷ [])
                    ∙ ap (λ xs. all_words u s.current_chunk ++ xs) (append-nil (words u p)))
                ∙ sym
                    (append_assoc (all_words u s.chunks) (all_words u s.current_chunk) (words u p)),
            record {
              fits = i.fits;
              counted =
                  ap (λ n. n + length (words u p)) i.counted
                  ∙ sym (length-append (all_words u s.current_chunk) (words u p))
                  ∙ ap length (
                      sym (
                        all_words-append u s.current_chunk (p ∷ [])
                        ∙ ap (λ xs. all_words u s.current_chunk ++ xs) (append-nil (words u p))));
              bounded = within room e;
            },
          )
  ]
    where
      not_room :
          Room max_words (length (words u p)) s
          → ltb max_words (length (words u p)) ≡ true
          → is_open s.current_chunk ≡ false
      not_room (inl o) e = o
      not_room (inr r) e = absurd (ground arith)

      within :
          Room max_words (length (words u p)) s
          → ltb max_words (length (words u p)) ≡ false
          → s.current_length + length (words u p) ≤ max_words
      within (inl o) e = let z = empty_length max_words s i o in ground arith
      within (inr r) e = r

  chunk_loop_lem :
      (max_words : ℕ) (ps : List String) (s : Chunking)
      → 1 ≤ max_words
      → IsChunking max_words s
      → (seen (chunk_loop u max_words ps s) ≡ seen s ++ all_words u ps)
        × IsChunking max_words (chunk_loop u max_words ps s)
  unfolding chunk_loop chunk_step
  chunk_loop_lem max_words [] s m i = (sym (append-nil (seen s)), i)
  chunk_loop_lem max_words (p ∷ ps) s m i =
      let (same, kept, room) = make_room_lem max_words (length (words u p)) s i in
      let (placed, kept') =
        place_lem max_words p (make_room max_words (length (words u p)) s) m kept room in
      let (looped, kept'') = chunk_loop_lem max_words ps (chunk_step u max_words p s) m kept' in
      (
        looped
            ∙ ap (λ xs. xs ++ all_words u ps) (placed ∙ ap (λ xs. xs ++ words u p) same)
            ∙ append_assoc (seen s) (words u p) (all_words u ps),
        kept'',
      )

  finish_lem :
      (max_words : ℕ) (s : Chunking)
      → IsChunking max_words s
      → (all_words u (finish s) ≡ seen s) × All (Fits u max_words) (finish s)
  unfolding finish
  finish_lem max_words s i = elim (Bool-cases (is_open s.current_chunk)) [
    | inl e ↦
        rw (e, finish)
          (let (same, kept) = flush_lem max_words s i in (sym (append-nil _) ∙ same, kept.fits))
    | inr e ↦
        rw (e, finish)
          (
            sym (append-nil (all_words u s.chunks))
                ∙ ap (λ ps. all_words u s.chunks ++ all_words u ps)
                    (sym (closed s.current_chunk e)),
            i.fits,
          )
  ]

  -- For a `max_words` of at least one: the words of the chunks, in order, are the words of the text, so
  -- none is lost, doubled or moved; and no chunk has more than `max_words` of them.
  pub chunk_text-words :
      (text : String) (max_words : ℕ)
      → 1 ≤ max_words
      → (all_words u (chunk_text u text max_words) ≡ words u text)
        × All (Fits u max_words) (chunk_text u text max_words)
  unfolding chunk_text paragraphs
  chunk_text-words text max_words m =
      let start : IsChunking max_words no_chunks = record {
        fits = tt;
        counted = refl;
        bounded = omega arith;
      } in
      let (looped, kept) = chunk_loop_lem max_words (paragraphs u text) no_chunks m start in
      let (same, fits) =
        finish_lem max_words (chunk_loop u max_words (paragraphs u text) no_chunks) kept in
      (same ∙ looped ∙ all_words-paragraphs u (lines text) ∙ all_words-lines u text, fits)
