-- ===== src/Text/Words.antt =====
-- What the words of a text are: they are those of its lines, and stripping and joining keep them.
use Prim.Native.Char.{Char, code}
use finpipe.Base.{
  ℕ, ◌≡◌, refl, sym, ap, ◌∙◌, Bool, true, false, ◌&&◌, Bool-cases, inl, inr, ◌⊎◌, List, [], ◌∷◌,
  ◌++◌, String, eq_iff, ◌==◌, concat, filter, map, not, All, arith, join,
}
use finpipe.Text.{
  Unicode, is_empty, lines_from, lines, emit, words_from, words, lstrip, rstrip, strip,
}
use mathlib.Core.List.{append_assoc, append-nil}
use text.Mathlib.TextLemmas.{nil-append, cons-append}
use text.Mathlib.TextLemmas

module _ (u : Unicode) where
  -- the words of several texts, in order
  abbrev pub all_words : List String → List String
  all_words [] = []
  all_words (s ∷ ss) = words u s ++ all_words ss

  pub all_words-append : (xs ys : List String) → all_words (xs ++ ys) ≡ all_words xs ++ all_words ys
  all_words-append [] ys = refl
  all_words-append (x ∷ xs) ys =
      ap (λ zs. words u x ++ zs) (all_words-append xs ys)
      ∙ sym (append_assoc (words u x) (all_words xs) (all_words ys))

  emit-append :
      (word : String) (xs ys : List String) → emit u word (xs ++ ys) ≡ emit u word xs ++ ys
  emit-append String.[] xs ys = refl
  emit-append (String.◌∷◌ c word) xs ys = refl

  -- a space between two texts separates their words
  words_from-append :
      (word a b : String) (c : Char)
      → u.is_space (code c) ≡ true
      → words_from u word (concat a (String.◌∷◌ c b)) ≡ words_from u word a ++ words u b
  unfolding words_from
  words_from-append word String.[] b c h =
      rw (nil-append (String.◌∷◌ c b)) (rw (h, words_from) (emit-append word [] (words u b)))
  words_from-append word (String.◌∷◌ d a) b c h =
      rw (cons-append d a (String.◌∷◌ c b)) (elim (Bool-cases (u.is_space (code d))) [
        | inl e ↦
            rw (e, words_from)
              (ap (emit u word) (words_from-append "" a b c h)
                ∙ emit-append word (words u a) (words u b))
        | inr e ↦ rw (e, words_from) (words_from-append (concat word (String.◌∷◌ d "")) a b c h)
      ])

  words-append :
      (a b : String) (c : Char)
      → u.is_space (code c) ≡ true
      → words u (concat a (String.◌∷◌ c b)) ≡ words u a ++ words u b
  words-append a b c h = words_from-append "" a b c h

  is_newline : (n : ℕ) → (n == 10) ≡ true → u.is_space n ≡ true
  is_newline n h = let e : n ≡ 10 = ground arith in rw e u.newline-is_space

  concat_cons :
      (line : String) (c : Char) (s : String)
      → concat (concat line (String.◌∷◌ c "")) s ≡ concat line (String.◌∷◌ c s)
  concat_cons line c s =
      TextLemmas.append_assoc line (String.◌∷◌ c "") s
      ∙ ap (concat line) (cons-append c "" s ∙ ap (λ t. String.◌∷◌ c t) (nil-append s))

  words-lines_from : (line s : String) → all_words (lines_from line s) ≡ words u (concat line s)
  unfolding lines_from
  words-lines_from line String.[] =
      append-nil (words u line) ∙ ap (words u) (sym (TextLemmas.append-nil line))
  words-lines_from line (String.◌∷◌ c s) = elim (Bool-cases (code c == 10)) [
    | inl e ↦
        rw (e, lines_from)
          (ap (λ ws. words u line ++ ws) (words-lines_from "" s ∙ ap (words u) (nil-append s))
            ∙ sym (words-append line s c (is_newline (code c) e)))
    | inr e ↦
        rw (e, lines_from)
          (words-lines_from (concat line (String.◌∷◌ c "")) s ∙ ap (words u) (concat_cons line c s))
  ]

  words-lstrip : (s : String) → words u (lstrip u s) ≡ words u s
  unfolding lstrip words_from
  words-lstrip String.[] = refl
  words-lstrip (String.◌∷◌ c s) = elim (Bool-cases (u.is_space (code c))) [
    | inl e ↦ rw (e, lstrip, words_from) (words-lstrip s)
    | inr e ↦ rw (e, lstrip, words_from) (rw (e, words_from) refl)
  ]

  words-rstrip : (word s : String) → words_from u word (rstrip u s) ≡ words_from u word s
  unfolding rstrip words_from
  words-rstrip word String.[] = refl
  words-rstrip word (String.◌∷◌ c s) =
      elim (Bool-cases (is_empty (rstrip u s) && u.is_space (code c))) [
        | inl e ↦
            let blank : u.is_space (code c) ≡ true = ground arith in
            let gone : rstrip u s ≡ "" = ground (arith, eq_iff (rstrip u s) "") in
            rw (e, rstrip, blank, words_from)
              (ap (emit u word) (ap (words_from u "") (sym gone) ∙ words-rstrip "" s))
        | inr e ↦ rw (e, rstrip) (go (Bool-cases (u.is_space (code c))) (λ w. words-rstrip w s))
      ]
    where
      go :
          (u.is_space (code c) ≡ true) ⊎ (u.is_space (code c) ≡ false)
          → ((w : String) → words_from u w (rstrip u s) ≡ words_from u w s)
          → words_from u word (String.◌∷◌ c (rstrip u s)) ≡ words_from u word (String.◌∷◌ c s)
      go (inl e) ih = rw (e, words_from) (ap (emit u word) (ih ""))
      go (inr e) ih = rw (e, words_from) (ih (concat word (String.◌∷◌ c "")))

  words-strip : (s : String) → words u (strip u s) ≡ words u s
  words-strip s = words-rstrip "" (lstrip u s) ∙ words-lstrip s

  -- `[line.strip() for line in text.split("\n") if line.strip()]`
  pub all_words-paragraphs :
      (ls : List String)
      → all_words (filter (λ p. not (is_empty p)) (map (strip u) ls)) ≡ all_words ls
  unfolding words_from
  all_words-paragraphs [] = refl
  all_words-paragraphs (l ∷ ls) = elim (Bool-cases (is_empty (strip u l))) [
    | inl e ↦
        let gone : strip u l ≡ "" = (eq_iff (strip u l) "").0 e in
        rw e (
          all_words-paragraphs ls
          ∙ ap (λ ws. ws ++ all_words ls) (ap (words u) (sym gone) ∙ words-strip l))
    | inr e ↦ rw e (
        ap (λ ws. ws ++ all_words (filter (λ p. not (is_empty p)) (map (strip u) ls)))
          (words-strip l)
        ∙ ap (λ ws. words u l ++ ws) (all_words-paragraphs ls))
  ]

  pub all_words-lines : (s : String) → all_words (lines s) ≡ words u s
  all_words-lines s = words-lines_from "" s ∙ ap (words u) (nil-append s)

  -- a separator that begins with a space, and is that alone
  pub words-join :
      (c : Char) (texts : List String)
      → u.is_space (code c) ≡ true
      → words u (join (String.◌∷◌ c "") texts) ≡ all_words texts
  unfolding words_from
  words-join c [] h = refl
  words-join c (s ∷ []) h = sym (append-nil (words u s))
  words-join c (s ∷ t ∷ ss) h =
      ap (λ r. words u (concat s r)) (cons-append c "" _ ∙ ap (λ r. String.◌∷◌ c r) (nil-append _))
      ∙ words-append s (join (String.◌∷◌ c "") (t ∷ ss)) c h
      ∙ ap (λ ws. words u s ++ ws) (words-join c (t ∷ ss) h)

  -- A word is its own only word: `split` gives texts that `split` leaves alone.
  abbrev pub IsWord : String → Type 0
  IsWord w = words u w ≡ w ∷ []

  no_space : String → Bool
  no_space String.[] = true
  no_space (String.◌∷◌ c s) = not (u.is_space (code c)) && no_space s

  no_space-append :
      (word : String) (c : Char)
      → no_space word ≡ true
      → u.is_space (code c) ≡ false
      → no_space (concat word (String.◌∷◌ c "")) ≡ true
  unfolding no_space
  no_space-append String.[] c h k = rw (nil-append (String.◌∷◌ c "")) (ground arith)
  no_space-append (String.◌∷◌ d word) c h k =
      rw (cons-append d word (String.◌∷◌ c "")) (ground (arith, no_space-append word c))

  words_from-no_space :
      (v w : String) → no_space w ≡ true → words_from u v w ≡ emit u (concat v w) []
  unfolding no_space words_from
  words_from-no_space v String.[] h = ap (λ t. emit u t []) (sym (TextLemmas.append-nil v))
  words_from-no_space v (String.◌∷◌ c w) h =
      let e : u.is_space (code c) ≡ false = ground arith in
      rw (e, words_from)
        (words_from-no_space (concat v (String.◌∷◌ c "")) w (ground arith)
          ∙ ap (λ t. emit u t []) (concat_cons v c w))

  emit-IsWord :
      (word : String) (rest : List String)
      → no_space word ≡ true
      → All IsWord rest
      → All IsWord (emit u word rest)
  emit-IsWord String.[] rest w h = h
  emit-IsWord (String.◌∷◌ c word) rest w h = (
    words_from-no_space "" (String.◌∷◌ c word) w
        ∙ ap (λ t. emit u t []) (nil-append (String.◌∷◌ c word)),
    h,
  )

  words_from-IsWord : (word s : String) → no_space word ≡ true → All IsWord (words_from u word s)
  unfolding words_from no_space
  words_from-IsWord word String.[] w = emit-IsWord word [] w tt
  words_from-IsWord word (String.◌∷◌ c s) w = elim (Bool-cases (u.is_space (code c))) [
    | inl e ↦ rw (e, words_from) (emit-IsWord word (words u s) w (words_from-IsWord "" s refl))
    | inr e ↦
        rw (e, words_from)
          (words_from-IsWord (concat word (String.◌∷◌ c "")) s (no_space-append word c w e))
  ]

  pub words-IsWord : (s : String) → All IsWord (words u s)
  unfolding no_space
  words-IsWord s = words_from-IsWord "" s refl

  pub all_words-IsWord : (ws : List String) → All IsWord ws → all_words ws ≡ ws
  all_words-IsWord [] h = refl
  all_words-IsWord (w ∷ ws) (e, h) =
      ap (λ xs. xs ++ all_words ws) e ∙ ap (λ xs. w ∷ xs) (all_words-IsWord ws h)
