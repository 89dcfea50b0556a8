-- ===== src/Tests/Floats.antt =====
-- A concrete instance of the floating-point parameter: fractions that are not negative.
use zkas_pool.Base.{ℕ, ◌+◌, ◌-◌, ◌*◌, ◌/◌, ◌≤◌, ◌<◌, ◌≡◌, false, not, arith, leb, ltb, ◌==◌}
use zkas_pool.Base.Float.{Float}

abbrev pub Fraction : Type 0
Fraction = ℕ × ℕ

div-le_of_lt : (n d r : ℕ) → n < r * d → n / d ≤ r
div-le_of_lt n d r h = grind arith

pub below : (r : ℕ) (x : Fraction) → leb (r * x.1) (x.0 * 1) ≡ false → x.0 / x.1 ≤ r
below r (n, d) h = div-le_of_lt n d r (ground arith)

abbrev pub fractions : Float
fractions = record {
  F = Fraction;
  zero_f = (0, 1);
  of_int = λ n. (n, 1);
  add = λ a b. (a.0 * b.1 + b.0 * a.1, a.1 * b.1);
  mul = λ a b. (a.0 * b.0, a.1 * b.1);
  div = λ a b. (a.0 * b.1, a.1 * b.0);
  floor = λ a. (a.0 / a.1, 1);
  ceil = λ a. ((a.0 + a.1 - 1) / a.1, 1);
  le = λ a b. leb (a.0 * b.1) (b.0 * a.1);
  lt = λ a b. ltb (a.0 * b.1) (b.0 * a.1);
  eq = λ a b. a.0 * b.1 == b.0 * a.1;
  is_finite = λ a. not (a.1 == 0);
  to_int = λ a. a.0 / a.1;
  to_int_below = below;
}
