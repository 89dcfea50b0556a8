-- ===== src/Api/Money/Digits.antt =====
-- api/src/money.rs: a reader of decimal strings, and what it makes of digits.
use zkas_pool.Base.{
  ℕ, zero, suc, ◌+◌, ◌-◌, ◌*◌, ◌^◌, ◌/◌, ◌%◌, ◌≤◌, ◌<◌, ◌≡◌, refl, sym, ap, ◌∙◌, true, false, ◌&&◌,
  [], ◌∷◌, ◌++◌, length, ltb, ◌==◌, if◌then◌else◌, arith, Bool-cases, inl, inr,
}
use zkas_pool.Base.Int.{ℤ, pos, neg_ℤ}
use zkas_pool.Base.Decimal.{to_decimal, digits_before, of_digits}
use zkas_pool.Api.Money.{Text, zeros, is_empty, trim_zeros}

-- A reader of fixed-point numbers, written apart from the printer: in units of `10 ^ -d`, the digits
-- after the point, for a number that stands before them; a digit beyond the last place is dropped.
unfoldable pub read_frac : ℕ → ℕ → Text → ℕ
read_frac d acc [] = acc * 10 ^ d
read_frac zero acc (c ∷ cs) = acc
read_frac (suc d) acc (c ∷ cs) = read_frac d (acc * 10 + (c - b'0')) cs

unfoldable pub read_whole : ℕ → ℕ → Text → ℕ
unfolding read_frac
read_whole d acc [] = acc * 10 ^ d
read_whole d acc (c ∷ cs) =
    let rest = read_whole d (acc * 10 + (c - b'0')) cs in
    if c == b'.' then read_frac d acc cs else rest

unfoldable pub read_amount : ℕ → Text → ℤ
unfolding read_whole
read_amount d [] = pos 0
read_amount d (c ∷ cs) =
    if c == b'-' then neg_ℤ (pos (read_whole d 0 cs)) else pos (read_whole d 0 (c ∷ cs))

-- One place more
pub pow_suc : (k : ℕ) → 10 ^ suc k ≡ 10 * 10 ^ k
pow_suc k = omega arith

times : (a c p : ℕ) → (a * 10 + c) * p ≡ a * (10 * p) + c * p
times a c p = grind arith

shift_place : (a c k : ℕ) → (a * 10 + c) * 10 ^ k ≡ a * 10 ^ suc k + c * 10 ^ k
shift_place a c k = times a c (10 ^ k) ∙ ap (λ (n : ℕ). a * n + c * 10 ^ k) (sym (pow_suc k))

-- The digits of a whole part
pub digits_before-append :
    (fuel n : ℕ) (rest tail : Text)
    → digits_before fuel n rest ++ tail ≡ digits_before fuel n (rest ++ tail)
unfolding digits_before
digits_before-append zero n rest tail = refl
digits_before-append (suc fuel) n rest tail = elim (Bool-cases (ltb n 10)) [
  | inl e ↦ rw e refl
  | inr e ↦ rw e (digits_before-append fuel (n / 10) ((b'0' + n % 10) ∷ rest) tail)
]

read_whole-digit :
    (d acc k : ℕ) (cs : Text)
    → k < 10
    → read_whole d acc ((b'0' + k) ∷ cs) ≡ read_whole d (acc * 10 + k) cs
unfolding read_whole
read_whole-digit d acc k cs h =
    let no_point : (b'0' + k == b'.') ≡ false = ground arith in
    let value : b'0' + k - b'0' ≡ k = omega arith in rw (no_point, value) refl

pub read_whole-digits_before :
    (d fuel n : ℕ) (rest : Text)
    → n < fuel
    → read_whole d 0 (digits_before fuel n rest) ≡ read_whole d n rest
unfolding digits_before
read_whole-digits_before d zero n rest h = elim h [ ]
read_whole-digits_before d (suc fuel) n rest h = elim (Bool-cases (ltb n 10)) [
  | inl e ↦ rw e (
      read_whole-digit d 0 (n % 10) rest (omega arith)
      ∙ ap (λ (k : ℕ). read_whole d k rest) (ground arith))
  | inr e ↦ rw e (
      read_whole-digits_before d fuel (n / 10) ((b'0' + n % 10) ∷ rest) (ground arith)
      ∙ read_whole-digit d (n / 10) (n % 10) rest (omega arith)
      ∙ ap (λ (k : ℕ). read_whole d k rest) (omega arith))
]

-- The digits after the point
pub of_digits-shift :
    (acc : ℕ) (cs : Text) → of_digits acc cs ≡ acc * 10 ^ length cs + of_digits 0 cs
unfolding of_digits
of_digits-shift acc [] = omega arith
of_digits-shift acc (c ∷ cs) =
    let here = of_digits-shift (acc * 10 + (c - b'0')) cs in
    let there = of_digits-shift (0 + (c - b'0')) cs in
    omega (arith, here, there, shift_place acc (c - b'0') (length cs))

pub of_digits-zeros :
    (acc k : ℕ) (cs : Text) → of_digits acc (zeros k ++ cs) ≡ of_digits (acc * 10 ^ k) cs
unfolding of_digits
of_digits-zeros acc zero cs = ap (λ (k : ℕ). of_digits k cs) (omega arith)
of_digits-zeros acc (suc k) cs =
    of_digits-zeros (acc * 10 + (b'0' - b'0')) k cs
    ∙ ap (λ (n : ℕ). of_digits n cs) (omega (arith, shift_place acc (b'0' - b'0') k))

pub read_frac-of_digits : (acc : ℕ) (cs : Text) → read_frac (length cs) acc cs ≡ of_digits acc cs
unfolding read_frac of_digits
read_frac-of_digits acc [] = omega arith
read_frac-of_digits acc (c ∷ cs) = read_frac-of_digits (acc * 10 + (c - b'0')) cs

is_empty_nil : (cs : Text) → is_empty cs ≡ true → cs ≡ []
is_empty_nil [] h = refl
is_empty_nil (c ∷ cs) h = cc

pub read_frac-trim_zeros :
    (d acc : ℕ) (cs : Text) → length cs ≤ d → read_frac d acc (trim_zeros cs) ≡ read_frac d acc cs
unfolding read_frac trim_zeros
read_frac-trim_zeros d acc [] h = refl
read_frac-trim_zeros zero acc (c ∷ cs) h = elim h [ ]
read_frac-trim_zeros (suc d) acc (c ∷ cs) h =
    let ih = read_frac-trim_zeros d (acc * 10 + (c - b'0')) cs (omega (arith, h)) in
    elim (Bool-cases (c == b'0' && is_empty (trim_zeros cs))) [
      | inl e ↦ rw e (
          let nil = is_empty_nil (trim_zeros cs) (ground arith) in
          let zero_here : c ≡ b'0' = ground arith in
          omega (arith, shift_place acc 0 d)
          ∙ ap (λ (n : ℕ). (acc * 10 + (n - b'0')) * 10 ^ d) (sym zero_here)
          ∙ ap (read_frac d (acc * 10 + (c - b'0'))) (sym nil)
          ∙ ih)
      | inr e ↦ rw e ih
    ]

pub ltb_no : (n k : ℕ) → ltb n k ≡ false → k ≤ n
ltb_no n k h = ground arith

-- Two digits need two places.
places : (n d : ℕ) → 10 ≤ n → n < 10 ^ suc d → 1 ≤ d
places n zero h k = omega (arith, h, k)
places n (suc d) h k = omega arith

pub length-digits_before :
    (fuel n d : ℕ) (rest : Text)
    → n < fuel
    → n < 10 ^ d
    → 1 ≤ d
    → length (digits_before fuel n rest) ≤ d + length rest
unfolding digits_before
length-digits_before zero n d rest h k one = elim h [ ]
length-digits_before (suc fuel) n zero rest h k one = elim one [ ]
length-digits_before (suc fuel) n (suc d) rest h k one = elim (Bool-cases (ltb n 10)) [
  | inl e ↦ rw e (omega (arith, one))
  | inr e ↦ rw e (
      let tens = ltb_no n 10 e in
      let fewer =
        length-digits_before fuel (n / 10) d ((b'0' + n % 10) ∷ rest) (omega (arith, tens, h))
          (omega (arith, k, pow_suc d)) (places n d tens k) in
      omega (arith, fewer))
]

pub read_whole-append :
    (d n : ℕ) (tail : Text) → read_whole d 0 (to_decimal n ++ tail) ≡ read_whole d n tail
unfolding to_decimal
read_whole-append d n tail =
    ap (read_whole d 0) (digits_before-append (suc n) n [] tail)
    ∙ read_whole-digits_before d (suc n) n tail (omega arith)
