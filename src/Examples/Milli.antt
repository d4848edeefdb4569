-- ===== src/Examples/Milli.antt =====
-- A concrete instance of `Float`: thousandths, rounded down. It shows that the laws can hold.
use finpipe.Base.{ℕ, zero, suc, ◌+◌, ◌*◌, ◌/◌, ◌-◌, ◌≤◌, leb, arith, ap}
use finpipe.Float.{Float}
use native.Mathlib.Nat.{mul-le-mul_left}

abbrev pub shift : ℕ → ℕ → ℕ
shift x zero = x
shift x (suc k) = shift (x / 10) k

pub shift_mono : (x y k : ℕ) → x ≤ y → shift x k ≤ shift y k
shift_mono x y zero h = h
shift_mono x y (suc k) h = shift_mono (x / 10) (y / 10) k (omega arith)

pub milli_mul-le : (a b : ℕ) → b ≤ 1000 → a * b / 1000 ≤ a
milli_mul-le a b h = let k = mul-le-mul_left a h in omega arith

abbrev pub milli : Float ℕ
milli = record {
  leb = leb;
  add = λ a b. a + b;
  sub = λ a b. a - b;
  mul = λ a b. a * b / 1000;
  div = λ a b. a * 1000 / b;
  lit = λ n k. shift (n * 1000) k;
  trunc = λ a. a / 1000;
  le_total = λ a b. ground arith;
  le_trans = λ a b c h k. ground arith;
  le_antisymm = λ a b h k. ground arith;
  lit_mono = λ n m k h. let le = shift_mono (n * 1000) (m * 1000) k (omega arith) in ground arith;
  trunc_mono = λ a b h. ground arith;
  le-add = λ a d h. ground arith;
  sub-nonneg = λ a d h. ground arith;
  sub-le = λ a d h. ground arith;
  mul-nonneg = λ a b h k. ground arith;
  mul-le = λ a b h k. let le = milli_mul-le a b (ground arith) in ground arith;
  lit_scale = λ n k. ap (λ x. shift x k) (omega arith);
}
