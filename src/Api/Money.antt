-- ===== src/Api/Money.antt =====
-- api/src/money.rs: amounts as decimal strings, the bytes of a text.
pub mod Digits
pub mod Reads
use zkas_pool.Base.{
  ℕ, zero, suc, ◌-◌, ◌^◌, ◌/◌, ◌%◌, Bool, true, false, ◌&&◌, List, [], ◌∷◌, ◌++◌, length, leb, ◌==◌,
  if◌then◌else◌,
}
use zkas_pool.Base.Int.{ℤ, pos, negsuc}
use zkas_pool.Base.Results.{Result, ok, err, ◌>>=◌, Panic, overflow, u64_max}
use zkas_pool.Base.Decimal.{to_decimal}

abbrev pub Text : Type 0
Text = List ℕ

abbrev pub kas_decimals : ℕ
kas_decimals = 8

pub record KasAmount : Type 0 where
  pub sompi : Text
  pub kas : Text

abbrev pub unsigned_abs : ℤ → ℕ
unsigned_abs (pos n) = n
unsigned_abs (negsuc n) = suc n

abbrev pub sign : ℤ → Text
sign (pos n) = []
sign (negsuc n) = b'-' ∷ []

abbrev pub zeros : ℕ → Text
zeros zero = []
zeros (suc n) = b'0' ∷ zeros n

-- `{frac:0width$}`
unfoldable pub padded : ℕ → ℕ → Text
padded width frac = zeros (width - length (to_decimal frac)) ++ to_decimal frac

abbrev pub is_empty : Text → Bool
is_empty [] = true
is_empty (c ∷ cs) = false

-- `trim_end_matches('0')`
unfoldable pub trim_zeros : Text → Text
trim_zeros [] = []
trim_zeros (c ∷ cs) =
    let rest = trim_zeros cs in if c == b'0' && is_empty rest then [] else c ∷ rest

-- The text of a magnitude, once the divisor is known to fit
unfoldable pub render : ℕ → ℕ → Text
unfolding padded trim_zeros
render magnitude decimals =
    let whole = magnitude / 10 ^ decimals in
    let frac = magnitude % 10 ^ decimals in
    if frac == 0
    then to_decimal whole
    else to_decimal whole ++ b'.' ∷ trim_zeros (padded decimals frac)

-- `10_u64.pow` panics where the power does not fit.
unfoldable pub scaled_decimal_string : ℤ → ℕ → Result Panic Text
scaled_decimal_string units decimals =
    if leb (10 ^ decimals) u64_max
    then ok (sign units ++ render (unsigned_abs units) decimals)
    else err overflow

-- `to_string` of a signed integer
abbrev pub to_string : ℤ → Text
to_string n = sign n ++ to_decimal (unsigned_abs n)

unfoldable pub from_sompi : ℤ → Result Panic KasAmount
from_sompi sompi = scaled_decimal_string sompi kas_decimals >>= λ kas.
    ok (record { sompi = to_string sompi; kas = kas })

unfoldable pub kas_string : ℤ → Result Panic Text
kas_string sompi = scaled_decimal_string sompi kas_decimals
