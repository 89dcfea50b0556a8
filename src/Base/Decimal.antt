-- ===== src/Base/Decimal.antt =====
-- `to_string` of an unsigned integer: its decimal digits as the bytes of a text.
use Prim.Native.Nat.{ℕ, zero, suc, ◌+◌, ◌-◌, ◌*◌, ◌/◌, ◌%◌, ◌<◌}
use mathlib.Core.Path.{◌≡◌, sym, ap, ◌∙◌}
use mathlib.Core.Logic.{inl, inr}
use mathlib.Core.List.{List, [], ◌∷◌}
use native.Mathlib.Omega.{arith}
use zkas_pool.Base.Tests.{ltb, if◌then◌else◌, Bool-cases}

-- The digits of `n` before those that are there. More fuel than `n` is enough.
unfoldable pub digits_before : ℕ → ℕ → List ℕ → List ℕ
digits_before zero n rest = rest
digits_before (suc fuel) n rest =
    let more = digits_before fuel (n / 10) ((b'0' + n % 10) ∷ rest) in
    if ltb n 10 then (b'0' + n % 10) ∷ rest else more

unfoldable pub to_decimal : ℕ → List ℕ
unfolding digits_before
to_decimal n = digits_before (suc n) n []

-- The value of digits, after a number that stands before them.
unfoldable pub of_digits : ℕ → List ℕ → ℕ
of_digits acc [] = acc
of_digits acc (c ∷ cs) = of_digits (acc * 10 + (c - b'0')) cs

pub of_digits-digits_before :
    (fuel n : ℕ) (rest : List ℕ)
    → n < fuel
    → of_digits 0 (digits_before fuel n rest) ≡ of_digits n rest
unfolding of_digits digits_before
of_digits-digits_before zero n rest h = elim h [ ]
of_digits-digits_before (suc fuel) n rest h =
    let last : n / 10 * 10 + (b'0' + n % 10 - b'0') ≡ n = omega arith in
    elim (Bool-cases (ltb n 10)) [
      | inl e ↦ rw e (ap (λ (k : ℕ). of_digits k rest) (ground arith))
      | inr e ↦ rw e (
          of_digits-digits_before fuel (n / 10) ((b'0' + n % 10) ∷ rest) (ground arith)
          ∙ ap (λ (k : ℕ). of_digits k rest) last)
    ]

pub of_digits-to_decimal : (n : ℕ) → of_digits 0 (to_decimal n) ≡ n
unfolding to_decimal of_digits
of_digits-to_decimal n = of_digits-digits_before (suc n) n [] (omega arith)

pub to_decimal-inj : (m n : ℕ) → to_decimal m ≡ to_decimal n → m ≡ n
to_decimal-inj m n h = sym (of_digits-to_decimal m) ∙ ap (of_digits 0) h ∙ of_digits-to_decimal n
