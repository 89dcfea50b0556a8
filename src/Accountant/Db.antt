-- ===== src/Accountant/Db.antt =====
-- The tables that the allocation engine reads and writes (crates/katpool-db/src/repo and the
-- migrations), as lists of rows. Ids and DAA scores are `BIGINT` values that are not negative.
-- `F` is the type of a `DOUBLE PRECISION`.
use zkas_pool.Base.{ℕ, ◌+◌, Bool, true, List, [], ◌∷◌, Option, none, some, ◌==◌, if◌then◌else◌}
use zkas_pool.Accountant.Fee.{WalletTier}

pub record Share (F : Type 0) : Type 0 where
  pub wallet_id : ℕ
  pub difficulty : F
  pub daa_score : ℕ

pub record ShareWindow (F : Type 0) : Type 0 where
  pub wallet_id : ℕ
  pub daa_start : ℕ
  pub daa_end : ℕ
  pub total_weight : F
  pub share_count : ℕ

pub record CoinbaseReward : Type 0 where
  pub id : ℕ
  pub amount_sompi : ℕ
  -- `allocated_at.is_some()`
  pub is_allocated : Bool

-- A row of `share_allocation` without its reward: `NewAllocation`.
pub record NewAllocation (F : Type 0) : Type 0 where
  pub wallet_id : ℕ
  pub weight : F
  pub window_total : F
  pub gross_share_sompi : ℕ
  pub pool_fee_sompi : ℕ
  pub nacho_accrual_sompi : ℕ
  pub net_payout_sompi : ℕ
  pub applied_topline_bps : ℕ
  pub applied_rebate_bps : ℕ
  pub applied_tier : WalletTier

pub data AuditEntry : Type 0 where
  -- The reward, its value, the number of wallets, and the totals of fee, rebate and net payout.
  allocated : ℕ → ℕ → ℕ → ℕ → ℕ → ℕ → AuditEntry
  allocated_empty : ℕ → ℕ → AuditEntry

pub record Db (F : Type 0) : Type 0 where
  pub shares : List (Share F)
  pub share_windows : List (ShareWindow F)
  -- `wallet`: id and address
  pub wallets : List (ℕ × List ℕ)
  pub rewards : List CoinbaseReward
  -- `share_allocation`: the reward and the row
  pub allocations : List (ℕ × NewAllocation F)
  -- `nacho_rebate_accrual`: wallet and accrued sompi
  pub rebates : List (ℕ × ℕ)
  pub audit : List AuditEntry

-- `SELECT address FROM wallet WHERE id = $1`
unfoldable pub find_address : ℕ → List (ℕ × List ℕ) → Option (List ℕ)
find_address k [] = none
find_address k ((j, a) ∷ ws) = if j == k then some a else find_address k ws

-- `coinbase_reward::lock_for_allocation`
unfoldable pub lock_for_allocation : ℕ → List CoinbaseReward → Option CoinbaseReward
lock_for_allocation k [] = none
lock_for_allocation k (r ∷ rs) = if r.id == k then some r else lock_for_allocation k rs

-- `coinbase_reward::mark_allocated`
unfoldable pub mark_allocated : ℕ → List CoinbaseReward → List CoinbaseReward
mark_allocated k [] = []
mark_allocated k (r ∷ rs) =
    (if r.id == k then record r { is_allocated = true } else r) ∷ mark_allocated k rs

-- `nacho_rebate::accrue`, of a delta that is not negative
unfoldable pub accrue : ℕ → ℕ → List (ℕ × ℕ) → List (ℕ × ℕ)
accrue k delta [] = (k, delta) ∷ []
accrue k delta ((j, n) ∷ bs) = if j == k then (j, n + delta) ∷ bs else (j, n) ∷ accrue k delta bs
