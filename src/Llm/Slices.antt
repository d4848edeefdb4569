-- ===== src/Llm/Slices.antt =====
-- The slices of a long paragraph have its words, in order (src/core/llm_compress.py).
use finpipe.Base.{
  ℕ, zero, suc, ◌≤◌, ◌≡◌, refl, ap, ◌∙◌, List, [], ◌∷◌, ◌++◌, String, join, map, length, take, drop,
  All, length-take-le, length-drop-le, take-drop, arith,
}
use finpipe.Text.{Unicode, words}
use finpipe.Text.Words.{all_words, words-join, IsWord, words-IsWord, all_words-IsWord}
use finpipe.Llm.Chunks.{slices, sliced}

module _ (u : Unicode) where
  -- A chunk of at most that many words.
  abbrev pub Fits : ℕ → String → Type 0
  Fits max_words chunk = length (words u chunk) ≤ max_words

  All-take : (n : ℕ) (ws : List String) → All (IsWord u) ws → All (IsWord u) (take n ws)
  All-take zero ws h = tt
  All-take (suc n) [] h = tt
  All-take (suc n) (w ∷ ws) (e, h) = (e, All-take n ws h)

  All-drop : (n : ℕ) (ws : List String) → All (IsWord u) ws → All (IsWord u) (drop n ws)
  All-drop zero ws h = h
  All-drop (suc n) [] h = tt
  All-drop (suc n) (w ∷ ws) (e, h) = All-drop n ws h

  words-join_blank : (ws : List String) → All (IsWord u) ws → words u (join " " ws) ≡ ws
  words-join_blank ws h = words-join u _ ws u.blank-is_space ∙ all_words-IsWord u ws h

  pub words-join_newline : (ps : List String) → words u (join "\n" ps) ≡ all_words u ps
  words-join_newline ps = words-join u _ ps u.newline-is_space

  -- Enough fuel: no more slices than words.
  slices_lem :
      (fuel max_words : ℕ) (ws : List String)
      → 1 ≤ max_words
      → length ws ≤ fuel
      → All (IsWord u) ws
      → (all_words u (map (join " ") (slices fuel max_words ws)) ≡ ws)
        × All (Fits max_words) (map (join " ") (slices fuel max_words ws))
  unfolding slices
  slices_lem fuel max_words [] m h k = (refl, tt)
  slices_lem zero max_words (w ∷ ws) m h k = absurd (omega arith)
  slices_lem (suc fuel) max_words (w ∷ ws) m h k =
      let first = words-join_blank (take max_words (w ∷ ws)) (All-take max_words (w ∷ ws) k) in
      let (rest, fits) =
        slices_lem fuel max_words (drop max_words (w ∷ ws)) m (shorter max_words m)
          (All-drop max_words (w ∷ ws) k) in
      (
        ap
              (λ xs.
                xs
                ++ all_words u (map (join " ") (slices fuel max_words (drop max_words (w ∷ ws)))))
              first
            ∙ ap (λ xs. take max_words (w ∷ ws) ++ xs) rest
            ∙ take-drop max_words (w ∷ ws),
        (rw first (length-take-le max_words (w ∷ ws)), fits),
      )
    where
      shorter : (n : ℕ) → 1 ≤ n → length (drop n (w ∷ ws)) ≤ fuel
      shorter zero l = absurd (omega arith)
      shorter (suc n) l = omega (arith, length-drop-le n ws)

  pub sliced_lem :
      (max_words : ℕ) (p : String)
      → 1 ≤ max_words
      → (all_words u (sliced u max_words p) ≡ words u p)
        × All (Fits max_words) (sliced u max_words p)
  unfolding sliced
  sliced_lem max_words p m =
      slices_lem (length (words u p)) max_words (words u p) m (omega arith) (words-IsWord u p)
