-- ===== src/Api/Money/Reads.antt =====
-- api/src/money.rs: a decimal string is read back as the amount that it was made of.
use zkas_pool.Base.{
  ℕ, zero, suc, ◌+◌, ◌-◌, ◌*◌, ◌^◌, ◌/◌, ◌%◌, ◌≤◌, ◌<◌, ◌≡◌, refl, sym, ap, ◌∙◌, true, false, [],
  ◌∷◌, ◌++◌, length, ltb, ◌==◌, arith, Bool-cases, inl, inr,
}
use native.Mathlib.Nat.{div-add-mod', mod-lt}
use zkas_pool.Base.Int.{ℤ, pos, negsuc, neg_ℤ}
use zkas_pool.Base.Results.{ok, u64_max}
use zkas_pool.Base.Decimal.{to_decimal, digits_before, of_digits, of_digits-to_decimal}
use zkas_pool.Api.Money.{
  Text, unsigned_abs, sign, zeros, padded, trim_zeros, render, scaled_decimal_string,
}
use zkas_pool.Api.Money.Digits.{
  read_frac, read_whole, read_amount, read_whole-append, read_whole-digits_before, of_digits-shift,
  of_digits-zeros, read_frac-of_digits, read_frac-trim_zeros, length-digits_before, ltb_no, pow_suc,
}

eq_of : (n : ℕ) → (n == 0) ≡ true → n ≡ 0
eq_of n h = ground arith

pow_pos : (d : ℕ) → 1 ≤ 10 ^ d
pow_pos zero = omega arith
pow_pos (suc d) = omega (arith, pow_suc d, pow_pos d)

read_whole-whole : (d n : ℕ) → read_whole d 0 (to_decimal n) ≡ n * 10 ^ d
unfolding to_decimal read_whole
read_whole-whole d n = read_whole-digits_before d (suc n) n [] (omega arith)

length-zeros : (k : ℕ) (cs : Text) → length (zeros k ++ cs) ≡ k + length cs
length-zeros zero cs = omega arith
length-zeros (suc k) cs = omega (arith, length-zeros k cs)

-- The padded digits of a fraction fill its places, and are read as the fraction.
length-padded : (d f : ℕ) → f < 10 ^ d → 1 ≤ d → length (padded d f) ≡ d
unfolding padded to_decimal
length-padded d f h one =
    let short = length-digits_before (suc f) f d [] (omega arith) h one in
    omega (arith, length-zeros (d - length (to_decimal f)) (to_decimal f), short)

of_digits-padded : (d f : ℕ) → of_digits 0 (padded d f) ≡ f
unfolding padded
of_digits-padded d f =
    of_digits-zeros 0 (d - length (to_decimal f)) (to_decimal f)
    ∙ ap (λ (k : ℕ). of_digits k (to_decimal f)) (omega arith)
    ∙ of_digits-to_decimal f

read_frac-padded :
    (d whole f : ℕ)
    → f < 10 ^ d
    → 1 ≤ d
    → read_frac d whole (trim_zeros (padded d f)) ≡ whole * 10 ^ d + f
read_frac-padded d whole f h one =
    let full = length-padded d f h one in
    read_frac-trim_zeros d whole (padded d f) (omega (arith, full))
    ∙ ap (λ (k : ℕ). read_frac k whole (padded d f)) (sym full)
    ∙ read_frac-of_digits whole (padded d f)
    ∙ of_digits-shift whole (padded d f)
    ∙ ap (λ (k : ℕ). whole * 10 ^ k + of_digits 0 (padded d f)) full
    ∙ ap (λ (v : ℕ). whole * 10 ^ d + v) (of_digits-padded d f)

some_place : (m d : ℕ) → (m % 10 ^ d == 0) ≡ false → 1 ≤ d
some_place m zero h = ground arith
some_place m (suc d) h = omega arith

split_at : (m p : ℕ) → 1 ≤ p → (m / p * p + m % p ≡ m) × (m % p < p)
split_at m p h = (div-add-mod' m p, mod-lt m (omega (arith, h)))

read_whole-render : (m d : ℕ) → read_whole d 0 (render m d) ≡ m
unfolding render read_whole
read_whole-render m d =
    let whole = m / 10 ^ d in
    let frac = m % 10 ^ d in
    let (sum, small) = split_at m (10 ^ d) (pow_pos d) in
    elim (Bool-cases (frac == 0)) [
      | inl e ↦ rw e (read_whole-whole d whole ∙ omega (arith, sum, eq_of frac e))
      | inr e ↦ rw e (
          read_whole-append d whole (b'.' ∷ trim_zeros (padded d frac))
          ∙ read_frac-padded d whole frac small (some_place m d e)
          ∙ sum)
    ]

-- A number's text starts with a digit.
Starts : Text → Type 0
Starts t = (c : ℕ) × (cs : Text) × (t ≡ c ∷ cs) × ((c == b'-') ≡ false)

digit-Starts : (k : ℕ) (cs : Text) → k < 10 → Starts ((b'0' + k) ∷ cs)
unfolding Starts
digit-Starts k cs h = (b'0' + k, cs, refl, ground arith)

digits_before-Starts : (fuel n : ℕ) (rest : Text) → n < fuel → Starts (digits_before fuel n rest)
unfolding digits_before
digits_before-Starts zero n rest h = elim h [ ]
digits_before-Starts (suc fuel) n rest h = elim (Bool-cases (ltb n 10)) [
  | inl e ↦ rw e (digit-Starts (n % 10) rest (omega arith))
  | inr e ↦ rw e (
      digits_before-Starts fuel (n / 10) ((b'0' + n % 10) ∷ rest) (omega (arith, ltb_no n 10 e, h)))
]

append-Starts : (s t : Text) → Starts s → Starts (s ++ t)
unfolding Starts
append-Starts s t (c, cs, e, plain) = (c, cs ++ t, ap (λ (u : Text). u ++ t) e, plain)

render-Starts : (m d : ℕ) → Starts (render m d)
unfolding render to_decimal
render-Starts m d =
    let whole = m / 10 ^ d in
    let starts = digits_before-Starts (suc whole) whole [] (omega arith) in
    elim (Bool-cases (m % 10 ^ d == 0)) [
      | inl e ↦ rw e starts
      | inr e ↦ rw e (append-Starts _ _ starts)
    ]

read_positive : (d : ℕ) (t : Text) → Starts t → read_amount d t ≡ pos (read_whole d 0 t)
unfolding Starts read_amount
read_positive d t (c, cs, e, plain) =
    ap (read_amount d) e ∙ at_head ∙ ap (λ (u : Text). pos (read_whole d 0 u)) (sym e)
  where
    at_head : read_amount d (c ∷ cs) ≡ pos (read_whole d 0 (c ∷ cs))
    at_head = rw plain refl

read_signed :
    (units : ℤ) (d : ℕ) → read_amount d (sign units ++ render (unsigned_abs units) d) ≡ units
unfolding read_amount
read_signed (pos n) d =
    read_positive d (render n d) (render-Starts n d) ∙ ap pos (read_whole-render n d)
read_signed (negsuc n) d =
    ap (λ (k : ℕ). neg_ℤ (pos k)) (read_whole-render (suc n) d) ∙ ground arith

-- Where the divisor fits in 64 bits, the decimal string of an amount is made, and is read back as
-- the amount: its sign, the whole part and each place of the fraction are there.
pub scaled_decimal_string_round_trip :
    (units : ℤ) (decimals : ℕ)
    → 10 ^ decimals ≤ u64_max
    → (text : Text) × (scaled_decimal_string units decimals ≡ ok text)
      × (read_amount decimals text ≡ units)
unfolding scaled_decimal_string
scaled_decimal_string_round_trip units decimals h =
    (sign units ++ render (unsigned_abs units) decimals, ground arith, read_signed units decimals)
