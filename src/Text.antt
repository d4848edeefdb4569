-- ===== src/Text.antt =====
-- The methods of Python's `str` that the program uses. What Unicode says of a character is a parameter.
pub mod Words
use Prim.Native.Char.{code}
use Prim.Native.String
use finpipe.Base.{
  ℕ, zero, suc, ◌/◌, ◌%◌, ◌≡◌, Bool, true, false, not, ◌&&◌, List, [], ◌∷◌, ◌++◌, String, str_eq,
  strip_prefix, some, none, ◌==◌, if◌then◌else◌, concat, filter, map,
}

-- `str.isspace` and `str.isalpha` of the character with a code point, `str.lower` and `str.upper`.
pub record Unicode : Type 0 where
  pub is_space : ℕ → Bool
  pub is_alpha : ℕ → Bool
  pub lower : String → String
  pub upper : String → String
  pub newline-is_space : is_space 10 ≡ true
  pub blank-is_space : is_space 32 ≡ true

abbrev pub is_empty : String → Bool
is_empty s = str_eq s ""

-- `len(s)`
unfoldable pub text_length : String → ℕ
text_length String.[] = 0
text_length (String.◌∷◌ c s) = suc (text_length s)

-- `str(n)`; a number has at most as many digits as it is, or one
abbrev pub digit : ℕ → String
digit n =
    if n == 0
    then "0"
    else (if n == 1
        then "1"
        else (if n == 2
            then "2"
            else (if n == 3
                then "3"
                else (if n == 4
                    then "4"
                    else (if n == 5
                        then "5"
                        else (if n == 6
                            then "6"
                            else (if n == 7 then "7" else (if n == 8 then "8" else "9"))))))))

unfoldable pub digits : ℕ → ℕ → String → String
digits zero n rest = rest
digits (suc fuel) n rest = elim (n / 10 == 0) [
  | true ↦ concat (digit n) rest
  | false ↦ digits fuel (n / 10) (concat (digit (n % 10)) rest)
]

abbrev pub show : ℕ → String
show n = digits (suc n) n ""

-- `s.split("\n")`, with the line that is being read
unfoldable pub lines_from : String → String → List String
lines_from line String.[] = line ∷ []
lines_from line (String.◌∷◌ c s) = elim (code c == 10) [
  | true ↦ line ∷ lines_from "" s
  | false ↦ lines_from (concat line (String.◌∷◌ c "")) s
]

abbrev pub lines : String → List String
lines s = lines_from "" s

-- `part in s`
unfoldable pub is_within : String → String → Bool
is_within part String.[] = str_eq part ""
is_within part (String.◌∷◌ c s) = elim (strip_prefix part (String.◌∷◌ c s)) [
  | some rest ↦ true
  | none ↦ is_within part s
]

module _ (u : Unicode) where
  -- a word that has been read, if there is one
  abbrev pub emit : String → List String → List String
  emit String.[] rest = rest
  emit (String.◌∷◌ c word) rest = String.◌∷◌ c word ∷ rest

  -- `s.split()`, with the word that is being read
  unfoldable pub words_from : String → String → List String
  words_from word String.[] = emit word []
  words_from word (String.◌∷◌ c s) = elim (u.is_space (code c)) [
    | true ↦ emit word (words_from "" s)
    | false ↦ words_from (concat word (String.◌∷◌ c "")) s
  ]

  abbrev pub words : String → List String
  words s = words_from "" s

  -- `s.lstrip()` and `s.rstrip()`
  unfoldable pub lstrip : String → String
  lstrip String.[] = ""
  lstrip (String.◌∷◌ c s) = elim (u.is_space (code c)) [ true ↦ lstrip s | false ↦ String.◌∷◌ c s ]

  unfoldable pub rstrip : String → String
  rstrip String.[] = ""
  rstrip (String.◌∷◌ c s) =
      let rest = rstrip s in if is_empty rest && u.is_space (code c) then "" else String.◌∷◌ c rest

  abbrev pub strip : String → String
  strip s = rstrip (lstrip s)

  -- `s.isalpha()` of a text that is not empty
  unfoldable pub all_alpha : String → Bool
  all_alpha String.[] = true
  all_alpha (String.◌∷◌ c s) = u.is_alpha (code c) && all_alpha s
