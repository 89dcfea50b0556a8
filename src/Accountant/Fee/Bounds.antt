-- ===== src/Accountant/Fee/Bounds.antt =====
-- The fee model takes its share and no more.
use zkas_pool.Base.{
  ℕ, ◌+◌, ◌-◌, ◌*◌, ◌/◌, ◌≤◌, ◌≡◌, ◌<◌, ◌⊎◌, inl, inr, refl, Bool-cases, leb, arith,
}
use zkas_pool.Base.Int.{ℤ, pos, negsuc}
use zkas_pool.Base.Results.{ok, err, i64_max}
use zkas_pool.Accountant.Fee.{
  FeeConfig, WalletTier, standard, elite, Allocation, negative_gross, overflow_fee_share, Lookup,
  max_topline_bps, new, from_lookup, compute_allocation, rebate_bps,
}

abbrev pub fee_share : FeeConfig → ℕ → ℕ
fee_share cfg gross = gross * cfg.topline_bps / 10_000

-- The allocation that the documentation promises.
abbrev pub promised : FeeConfig → ℕ → WalletTier → Allocation
promised cfg gross tier = record {
  gross_sompi = gross;
  pool_fee_sompi = fee_share cfg gross;
  nacho_accrual_sompi = 0;
  net_payout_sompi = gross - fee_share cfg gross;
  applied_topline_bps = cfg.topline_bps;
  applied_rebate_bps = 0;
  applied_tier = tier;
}

-- A configuration that the constructor accepts.
abbrev pub IsValid : FeeConfig → Type 0
IsValid cfg = cfg.topline_bps ≤ max_topline_bps

pub new-IsValid :
    (bps : ℕ) {cfg : FeeConfig} → new bps ≡ ok cfg → IsValid cfg × (cfg.topline_bps ≡ bps)
unfolding new
new-IsValid bps h = ground arith

from_lookup-IsValid : (l : Lookup) {cfg : FeeConfig} → from_lookup l ≡ ok cfg → IsValid cfg
unfolding from_lookup new
from_lookup-IsValid l h = ground arith

fee_share-le : (cfg : FeeConfig) (g : ℕ) → IsValid cfg → fee_share cfg g * 10 ≤ g
fee_share-le cfg g v = grind arith

pub compute_allocation-promised :
    (cfg : FeeConfig) (g : ℕ) (tier : WalletTier)
    → IsValid cfg
    → g * cfg.topline_bps ≤ i64_max
    → compute_allocation cfg (pos g) tier ≡ ok (promised cfg g tier)
unfolding compute_allocation rebate_bps
compute_allocation-promised cfg g standard v h = ground (arith, fee_share-le cfg g v)
compute_allocation-promised cfg g elite v h = ground (arith, fee_share-le cfg g v)

-- A successful allocation under an accepted configuration is of a gross that is not negative; the
-- pool fee, the rebate and the net payout add up to that gross, and the miner keeps nine tenths of it
-- at least.
pub compute_allocation_balance :
    (cfg : FeeConfig) (gross : ℤ) (tier : WalletTier) {a : Allocation}
    → IsValid cfg
    → compute_allocation cfg gross tier ≡ ok a
    → (gross ≡ pos a.gross_sompi)
      × (a.pool_fee_sompi + a.nacho_accrual_sompi + a.net_payout_sompi ≡ a.gross_sompi)
      × (a.gross_sompi * 9 ≤ a.net_payout_sompi * 10)
unfolding compute_allocation rebate_bps
compute_allocation_balance cfg (negsuc n) tier v h = ground arith
compute_allocation_balance cfg (pos g) standard v h = ground (arith, fee_share-le cfg g v)
compute_allocation_balance cfg (pos g) elite v h = ground (arith, fee_share-le cfg g v)

-- Under an accepted configuration the call fails with two errors only: one for a gross that is
-- negative, which it names, and one for a gross whose product with the topline is no i64. Any other
-- gross is allocated as documented.
pub compute_allocation_fails :
    (cfg : FeeConfig) (gross : ℤ) (tier : WalletTier)
    → IsValid cfg
    → ((n : ℕ) × (gross ≡ negsuc n)
        × (compute_allocation cfg gross tier ≡ err (negative_gross gross)))
      ⊎ ((g : ℕ) × (gross ≡ pos g)
          × (i64_max < g * cfg.topline_bps)
          × (compute_allocation cfg gross tier ≡ err overflow_fee_share))
      ⊎ ((g : ℕ) × (gross ≡ pos g)
          × (g * cfg.topline_bps ≤ i64_max)
          × (compute_allocation cfg gross tier ≡ ok (promised cfg g tier)))
unfolding compute_allocation
compute_allocation_fails cfg (negsuc n) tier v = inl (n, refl, refl)
compute_allocation_fails cfg (pos g) tier v =
    elim (Bool-cases (leb (g * cfg.topline_bps) i64_max)) [
      | inl fits ↦
          inr (inr (g, refl, ground arith, compute_allocation-promised cfg g tier v (ground arith)))
      | inr over ↦ inr (inl (g, refl, ground arith, ground arith))
    ]
