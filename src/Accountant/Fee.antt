-- ===== src/Accountant/Fee.antt =====
-- accountant/src/config.rs: the fee model. `gross_sompi` is an i64, so it may be negative; the
-- constructor `FeeConfig::new` bounds the topline fee.
pub mod Bounds
use zkas_pool.Base.{
  ℕ, ◌+◌, ◌-◌, ◌*◌, ◌/◌, ◌≤◌, ◌<◌, ◌≡◌, Bool, true, false, List, [], ◌∷◌, ◌&&◌, arith, leb, ltb,
  ◌==◌, if◌then◌else◌,
}
use zkas_pool.Base.Int.{ℤ, pos, negsuc}
use zkas_pool.Base.Results.{Result, ok, err, ◌>>=◌, i64_max}

abbrev pub max_topline_bps : ℕ
max_topline_bps = 1_000

abbrev pub standard_rebate_bps : ℕ
standard_rebate_bps = 0

abbrev pub elite_rebate_bps : ℕ
elite_rebate_bps = 0

abbrev pub default_topline_bps : ℕ
default_topline_bps = 75

abbrev u16_max : ℕ
u16_max = 65_535

pub data WalletTier : Type 0 where
  standard elite : WalletTier

pub record FeeConfig : Type 0 where
  pub topline_bps : ℕ

pub data ConfigError : Type 0 where
  exceeds_max not_unicode not_a_u16 : ConfigError

pub new : ℕ → Result ConfigError FeeConfig
new bps = if ltb max_topline_bps bps then err exceeds_max else ok (record { topline_bps = bps })

-- `str::parse::<u16>` on the bytes of the text: digits, after one optional `+`, whose value fits.
parse_digits : ℕ → List ℕ → Result ConfigError ℕ
parse_digits acc [] = ok acc
parse_digits acc (c ∷ cs) =
    let rest = parse_digits (acc * 10 + (c - b'0')) cs in
    if leb b'0' c && leb c b'9' && leb (acc * 10 + (c - b'0')) u16_max then rest else err not_a_u16

parse_unsigned : List ℕ → Result ConfigError ℕ
unfolding parse_digits
parse_unsigned [] = err not_a_u16
parse_unsigned (c ∷ cs) = parse_digits 0 (c ∷ cs)

pub parse_bps : List ℕ → Result ConfigError ℕ
unfolding parse_unsigned
parse_bps [] = err not_a_u16
parse_bps (c ∷ cs) = if c == b'+' then parse_unsigned cs else parse_unsigned (c ∷ cs)

-- What `std::env::var` returns.
pub data Lookup : Type 0 where
  value : List ℕ → Lookup
  not_present not_valid : Lookup

pub from_lookup : Lookup → Result ConfigError FeeConfig
from_lookup (value raw) = parse_bps raw >>= λ bps. new bps
from_lookup not_present = new default_topline_bps
from_lookup not_valid = err not_unicode

unfoldable pub rebate_bps : WalletTier → ℕ
rebate_bps standard = standard_rebate_bps
rebate_bps elite = elite_rebate_bps

pub record Allocation : Type 0 where
  pub gross_sompi : ℕ
  pub pool_fee_sompi : ℕ
  pub nacho_accrual_sompi : ℕ
  pub net_payout_sompi : ℕ
  pub applied_topline_bps : ℕ
  pub applied_rebate_bps : ℕ
  pub applied_tier : WalletTier

unfoldable pub is_balanced : Allocation → Bool
is_balanced a = a.gross_sompi == a.pool_fee_sompi + a.nacho_accrual_sompi + a.net_payout_sompi

pub data AllocationError : Type 0 where
  negative_gross : ℤ → AllocationError
  overflow_fee_share overflow_nacho_accrual : AllocationError
  unbalanced : Allocation → AllocationError

-- `a.checked_mul(b).ok_or(e)`
unfoldable pub checked_mul : AllocationError → ℕ → ℕ → Result AllocationError ℕ
checked_mul e a b = if leb (a * b) i64_max then ok (a * b) else err e

unfoldable pub compute_allocation : FeeConfig → ℤ → WalletTier → Result AllocationError Allocation
unfolding checked_mul is_balanced
compute_allocation cfg (negsuc n) tier = err (negative_gross (negsuc n))
compute_allocation cfg (pos gross) tier = do
  fee_product ← checked_mul overflow_fee_share gross cfg.topline_bps
  let fee_share = fee_product / 10_000
  nacho_product ← checked_mul overflow_nacho_accrual fee_share (rebate_bps tier)
  let nacho_accrual = nacho_product / 10_000
  let allocation : Allocation = record {
    gross_sompi = gross;
    pool_fee_sompi = fee_share - nacho_accrual;
    nacho_accrual_sompi = nacho_accrual;
    net_payout_sompi = gross - fee_share;
    applied_topline_bps = cfg.topline_bps;
    applied_rebate_bps = rebate_bps tier;
    applied_tier = tier;
  }
  if is_balanced allocation then ok allocation else err (unbalanced allocation)
