-- ===== src/Float.antt =====
-- Python's `float`, which the rates, the tokens and the clocks are. The operations are IEEE 754's and
-- not of this repository: a parameter, an instance of the record `Float`. Its laws are those that
-- rounding keeps on finite values. Sums and products are monotone only in the cases that are named,
-- and no law says that arithmetic is exact.
use finpipe.Base.{
  ℕ, zero, suc, refl, ◌∙◌, ◌*◌, ◌≤◌, ◌≡◌, ◌⊎◌, Bool, true, not, arith, if◌then◌else◌,
}

pub record Float (F : Type 0) : Type 0 where
  -- `a <= b`
  pub leb : F → F → Bool
  pub add : F → F → F
  pub sub : F → F → F
  pub mul : F → F → F
  pub div : F → F → F
  -- the float nearest to n / 10 ^ k, for a literal or a whole number
  pub lit : ℕ → ℕ → F
  -- `int(a)`
  pub trunc : F → ℕ
  pub le_total : (a b : F) → (leb a b ≡ true) ⊎ (leb b a ≡ true)
  pub le_trans : (a b c : F) → leb a b ≡ true → leb b c ≡ true → leb a c ≡ true
  -- the two zeros count as one value
  pub le_antisymm : (a b : F) → leb a b ≡ true → leb b a ≡ true → a ≡ b
  pub lit_mono : (n m k : ℕ) → n ≤ m → leb (lit n k) (lit m k) ≡ true
  pub trunc_mono : (a b : F) → leb a b ≡ true → trunc a ≤ trunc b
  pub le-add : (a d : F) → leb (lit 0 0) d ≡ true → leb a (add a d) ≡ true
  pub sub-nonneg : (a d : F) → leb d a ≡ true → leb (lit 0 0) (sub a d) ≡ true
  pub sub-le : (a d : F) → leb (lit 0 0) d ≡ true → leb (sub a d) a ≡ true
  pub mul-nonneg :
      (a b : F) → leb (lit 0 0) a ≡ true → leb (lit 0 0) b ≡ true → leb (lit 0 0) (mul a b) ≡ true
  pub mul-le : (a b : F) → leb (lit 0 0) a ≡ true → leb b (lit 1 0) ≡ true → leb (mul a b) a ≡ true
  pub lit_scale : (n k : ℕ) → lit (n * 10) (suc k) ≡ lit n k

module _ {F : Type 0} ⦃fl : Float F⦄ where
  -- `a < b`, on values that are no NaN
  abbrev pub less : F → F → Bool
  less a b = not (fl.leb b a)

  -- Python's `min(a, b)` and `max(a, b)`: the first unless the second is smaller, or greater
  unfoldable pub min : F → F → F
  min a b = if less b a then b else a

  unfoldable pub max : F → F → F
  max a b = if less a b then b else a

  -- a ≤ b as a statement
  abbrev pub Le : F → F → Type 0
  Le a b = fl.leb a b ≡ true

  pub le_refl : (a : F) → Le a a
  le_refl a = ground (arith, fl.le_total a a)

  pub min-le_left : (a b : F) → Le (min a b) a
  unfolding min
  min-le_left a b = ground (arith, fl.le_total a b, le_refl a)

  pub min-le_right : (a b : F) → Le (min a b) b
  unfolding min
  min-le_right a b = ground (arith, fl.le_total a b, le_refl b)

  pub le-min : (c a b : F) → Le c a → Le c b → Le c (min a b)
  unfolding min
  le-min c a b h k = ground arith

  pub le-max_left : (a b : F) → Le a (max a b)
  unfolding max
  le-max_left a b = ground (arith, fl.le_total a b, le_refl a)

  pub le-max_right : (a b : F) → Le b (max a b)
  unfolding max
  le-max_right a b = ground (arith, fl.le_total a b, le_refl b)

  pub max-le : (a b c : F) → Le a c → Le b c → Le (max a b) c
  unfolding max
  max-le a b c h k = ground arith

  pub le_of_less : (a b : F) → less a b ≡ true → Le a b
  le_of_less a b h = ground (arith, fl.le_total a b)

-- 0.1, 0.5, 0.75 and 1.0, as the program compares them.
module _ {F : Type 0} (fl : Float F) where
  pub tenth_le_one : Le ⦃fl = fl⦄ (fl.lit 1 1) (fl.lit 1 0)
  tenth_le_one = rw (← fl.lit_scale 1 0) (fl.lit_mono 1 10 1 (omega arith))

  pub half_le_one : Le ⦃fl = fl⦄ (fl.lit 5 1) (fl.lit 1 0)
  half_le_one = rw (← fl.lit_scale 1 0) (fl.lit_mono 5 10 1 (omega arith))

  pub three_quarters_le_one : Le ⦃fl = fl⦄ (fl.lit 75 2) (fl.lit 1 0)
  three_quarters_le_one =
      rw (← fl.lit_scale 1 0, ← fl.lit_scale 10 1) (fl.lit_mono 75 100 2 (omega arith))

  pub zero_le_lit : (n k : ℕ) → Le ⦃fl = fl⦄ (fl.lit 0 k) (fl.lit n k)
  zero_le_lit n k = fl.lit_mono 0 n k (omega arith)

  pub lit_zero : (k : ℕ) → fl.lit 0 k ≡ fl.lit 0 0
  lit_zero zero = refl
  lit_zero (suc k) = fl.lit_scale 0 k ∙ lit_zero k
