-- ===== src/Base/Text.antt =====
-- Prefixes of texts: `s.startswith(p)` with `s.removeprefix(p)`, and membership of prefixed texts.
use Prim.Native.Char.{code}
use Prim.Native.String
use Prim.Native.String.{String}
use finpipe.Base.Dicts.{Dict, contains, lookup}
use finpipe.Base.Lists.{all}
use finpipe.Base.Tests.{◌==◌, if◌then◌else◌, Bool-cases}
use mathlib.Core.Bool.{true}
use mathlib.Core.List.{List, [], ◌∷◌, map}
use mathlib.Core.Logic.{inl, inr}
use mathlib.Core.Option.{Option, none, some}
use mathlib.Core.Path.{◌≡◌, sym, ◌∙◌}
use native.Mathlib.Omega.{arith}
use text.Mathlib.Text.{◌==◌ as str_eq}
use text.Mathlib.TextEquality.{eq_iff, Char-path}
use text.Mathlib.TextLemmas.{nil-append, cons-append}

abbrev pub concat : String → String → String
concat a b = String.◌++◌ a b

-- `separator.join(texts)`
abbrev pub join : String → List String → String
join separator [] = ""
join separator (s ∷ []) = s
join separator (s ∷ t ∷ ss) = concat s (concat separator (join separator (t ∷ ss)))

-- The rest of the text behind the prefix, if it begins with it.
unfoldable pub strip_prefix : String → String → Option String
strip_prefix String.[] s = some s
strip_prefix (String.◌∷◌ c p) String.[] = none
strip_prefix (String.◌∷◌ c p) (String.◌∷◌ d s) = if code c == code d then strip_prefix p s else none

pub strip_prefix-append : (p s : String) {r : String} → strip_prefix p s ≡ some r → s ≡ concat p r
unfolding strip_prefix
strip_prefix-append String.[] s {r} h = let e : s ≡ r = ground arith in e ∙ sym (nil-append r)
strip_prefix-append (String.◌∷◌ c p) String.[] h = absurd (ground arith)
strip_prefix-append (String.◌∷◌ c p) (String.◌∷◌ d s) {r} h =
    let same : code c ≡ code d = ground arith in
    let rest : strip_prefix p s ≡ some r = ground arith in
    rw (← Char-path c d same, strip_prefix-append p s rest, cons-append)

pub contains_subset :
    (k : String) (xs ys : List String)
    → all (λ x. contains x ys) xs ≡ true
    → contains k xs ≡ true
    → contains k ys ≡ true
contains_subset k [] ys a h = absurd (ground arith)
contains_subset k (x ∷ xs) ys a h = elim (Bool-cases (str_eq x k)) [
  | inl e ↦ rw (← (eq_iff x k).0 e) (ground arith)
  | inr e ↦ contains_subset k xs ys (ground arith) (ground arith)
]

pub contains-map_append :
    (p k : String) (xs : List String)
    → contains k xs ≡ true
    → contains (concat p k) (map (λ x. concat p x) xs) ≡ true
contains-map_append p k [] h = absurd (ground arith)
contains-map_append p k (x ∷ xs) h = elim (Bool-cases (str_eq x k)) [
  | inl e ↦ rw ((eq_iff x k).0 e) (ground (arith, eq_iff (concat p k) (concat p k)))
  | inr e ↦ ground (arith, contains-map_append p k xs)
]

pub contains_of_lookup {ℓ} :
    {V : Type ℓ} (k : String) (v : V) (d : Dict V)
    → lookup k d ≡ some v
    → contains k (map (λ e. e.0) d) ≡ true
contains_of_lookup k v [] h = absurd (ground arith)
contains_of_lookup k v ((j, w) ∷ d) h = ground (arith, contains_of_lookup k v d)
