-- ===== src/Accountant/Engine.antt =====
-- accountant/src/allocation.rs: `AllocationEngine::allocate_coinbase_reward`. `answered` says which
-- calls of the database succeed, and `TxEnd` how its two transactions end. The classifier (a network
-- service) is a parameter: `none` is its error.
mod Steps
pub mod Ends
pub mod Sums
pub mod Atomic
pub mod Conservation
use zkas_pool.Base.{
  ℕ, suc, ◌+◌, ◌≤◌, ◌<◌, ◌≡◌, Bool, true, false, not, List, [], ◌∷◌, ◌++◌, Option, none, some, ◌&&◌,
  ◌||◌, leb, ltb, ◌==◌, if◌then◌else◌, length, any,
}
use zkas_pool.Base.Int.{ℤ, pos, negsuc}
use zkas_pool.Base.Results.{Result, ok, err, ◌>>=◌}
use zkas_pool.Base.Float.{Float}
use zkas_pool.Accountant.Fee.{
  WalletTier, standard, FeeConfig, Allocation, negative_gross, compute_allocation,
}
use zkas_pool.Accountant.Db.{
  ShareWindow, CoinbaseReward, NewAllocation, AuditEntry, allocated, allocated_empty, Db,
  find_address, lock_for_allocation, mark_allocated, accrue,
}
use zkas_pool.Accountant.Window.{WindowError, close_window, list_for_window}
use zkas_pool.Accountant.Allocation.{
  AllocationOutcome, freshly_allocated, already_allocated, no_contributing_wallets, EngineError,
  window, db_failed, db_constraint, unknown_wallet, math, unknown_reward, invalid_window_weight,
  invalid_wallet_address, panicked, Totals, sum_totals, to_i16, total_of, grosses_of,
}
use zkas_pool.Domain.Address

-- `?` with a conversion of the error.
abbrev pub map_err {ℓ} : {E E' : Type 0} {A : Type ℓ} → (E → E') → Result E A → Result E' A
map_err f (ok a) = ok a
map_err f (err e) = err (f e)

-- The calls of the database beside the commits: `insert_rows` is the loop of `insert_batch`, and
-- `accrue_rebates` the loop over the rebates.
pub data Call : Type 0 where
  list_windows begin_tx lock_reward insert_rows accrue_rebates mark_reward append_audit : Call
  wallet_address : ℕ → Call

-- How a transaction ends when it is to be committed: the reply may be lost after it took effect.
pub data TxEnd : Type 0 where
  committed rolled_back unacknowledged : TxEnd

abbrev pub or_err {ℓ} : {E : Type 0} {A : Type ℓ} → Option A → E → Result E A
or_err none e = err e
or_err (some a) e = ok a

module _ (fl : Float) where
  open fl use {F, zero_f, of_int, le, is_finite}

  -- The balance check of `insert_batch` and the constraints of the table.
  unfoldable pub row_ok : NewAllocation F → Bool
  row_ok r =
      r.gross_share_sompi == r.pool_fee_sompi + r.nacho_accrual_sompi + r.net_payout_sompi
      && le zero_f r.weight
      && not (le r.window_total zero_f)
      && le r.weight r.window_total

  unfoldable pub has_row : ℕ → ℕ → List (ℕ × NewAllocation F) → Bool
  has_row reward wallet [] = false
  has_row reward wallet ((k, r) ∷ rows) =
      k == reward && r.wallet_id == wallet || has_row reward wallet rows

  -- `share_allocation::insert_batch`, with `UNIQUE (coinbase_reward_id, wallet_id)`
  unfoldable pub insert_batch :
      ℕ
      → List (NewAllocation F)
      → List (ℕ × NewAllocation F)
      → Result (EngineError F) (List (ℕ × NewAllocation F))
  unfolding row_ok has_row
  insert_batch reward [] table = ok table
  insert_batch reward (r ∷ rs) table =
      if row_ok r && not (has_row reward r.wallet_id table)
      then insert_batch reward rs ((reward, r) ∷ table)
      else err db_constraint

  -- The loop over the windows that accrues every positive rebate.
  unfoldable pub accrue_all : List (NewAllocation F) → List (ℕ × ℕ) → List (ℕ × ℕ)
  unfolding accrue
  accrue_all [] table = table
  accrue_all (r ∷ rs) table = accrue_all rs (
      if ltb 0 r.nacho_accrual_sompi then accrue r.wallet_id r.nacho_accrual_sompi table else table)

  -- One row of `new_rows`.
  unfoldable pub new_row : F → ShareWindow F → Allocation → NewAllocation F
  new_row total w a = record {
    wallet_id = w.wallet_id;
    weight = w.total_weight;
    window_total = total;
    gross_share_sompi = a.gross_sompi;
    pool_fee_sompi = a.pool_fee_sompi;
    nacho_accrual_sompi = a.nacho_accrual_sompi;
    net_payout_sompi = a.net_payout_sompi;
    applied_topline_bps = to_i16 a.applied_topline_bps;
    applied_rebate_bps = to_i16 a.applied_rebate_bps;
    applied_tier = a.applied_tier;
  }

  unfoldable pub new_rows : F → List (ShareWindow F) → List Allocation → List (NewAllocation F)
  unfolding new_row
  new_rows total (w ∷ ws) (a ∷ as') = new_row total w a ∷ new_rows total ws as'
  new_rows total _ _ = []

  module _ (cfg : FeeConfig) (classify : List ℕ → Option WalletTier) (answered : Call → Bool) where
    -- A call that is answered, or that fails
    unfoldable pub ask : Call → Result (EngineError F) (Unit {0})
    ask c = if answered c then ok tt else err db_failed

    -- `lookup_wallet_addr`, then the classifier with its fallback.
    unfoldable pub tier_of : Db F → ℕ → Result (EngineError F) WalletTier
    unfolding find_address ask
    tier_of db wallet = do
      found ← ask (wallet_address wallet)
      text ← or_err (find_address wallet db.wallets) (unknown_wallet wallet)
      addr ← map_err (λ _. invalid_wallet_address text) (Address.new text)
      ok (elim (classify addr) [ none ↦ standard | some t ↦ t ])

    unfoldable pub tiers_of : Db F → List (ShareWindow F) → Result (EngineError F) (List WalletTier)
    unfolding tier_of
    tiers_of db [] = ok []
    tiers_of db (w ∷ ws) = do t ← tier_of db w.wallet_id; ts ← tiers_of db ws; ok (t ∷ ts)

    -- The loop over the zip of windows, grosses and tiers.
    unfoldable pub allocations_of :
        List ℤ → List WalletTier → Result (EngineError F) (List Allocation)
    allocations_of (g ∷ gs) (t ∷ ts) = do
      a ← map_err math (compute_allocation cfg g t)
      rest ← allocations_of gs ts
      ok (a ∷ rest)
    allocations_of _ _ = ok []

    abbrev Outcome : Type 0
    Outcome = Result (EngineError F) (AllocationOutcome × Db F)

    -- The reward's row gates what the transaction writes.
    abbrev pub gated : Db F → Outcome → CoinbaseReward → Outcome
    gated db writes row = if row.is_allocated then ok (already_allocated, db) else writes

    unfoldable pub locked : Db F → ℕ → Outcome → Outcome
    unfolding ask
    locked db id writes = ask begin_tx >>= λ _. ask lock_reward >>= λ _.
        or_err (lock_for_allocation id db.rewards) (unknown_reward id) >>= gated db writes

    -- The rebates that are positive
    unfoldable pub ask_rebates : List (NewAllocation F) → Result (EngineError F) (Unit {0})
    unfolding ask
    ask_rebates rows =
        if any (λ r. ltb 0 r.nacho_accrual_sompi) rows then ask accrue_rebates else ok tt

    -- What the transaction of a window with shares writes.
    unfoldable pub write_rows : Db F → ℕ → ℕ → List (ShareWindow F) → List Allocation → ℤ → Outcome
    unfolding ask ask_rebates
    write_rows db id reward ws allocations residue =
        let rows = new_rows (total_of fl ws) ws allocations in
        let totals = sum_totals (record { pool_fee = 0; nacho = 0; net = 0 }) allocations in
        ask insert_rows >>= λ _. insert_batch id rows db.allocations >>= λ table.
        ask_rebates rows >>= λ _. ask mark_reward >>= λ _. ask append_audit >>= λ _. ok (
          freshly_allocated (length ws) totals.net totals.nacho totals.pool_fee residue,
          record db {
            allocations = table;
            rebates = accrue_all rows db.rebates;
            rewards = mark_allocated id db.rewards;
            audit =
                allocated id reward (length ws) totals.pool_fee totals.nacho totals.net ∷ db.audit;
          },
        )

    -- The transaction of a window with shares.
    unfoldable pub in_tx : Db F → ℕ → ℕ → List (ShareWindow F) → List Allocation → ℤ → Outcome
    unfolding locked write_rows
    in_tx db id reward ws allocations residue =
        locked db id (write_rows db id reward ws allocations residue)

    unfoldable pub write_empty : Db F → ℕ → ℕ → Outcome
    unfolding ask
    write_empty db id reward = ask mark_reward >>= λ _. ask append_audit >>= λ _. ok (
      no_contributing_wallets reward,
      record db {
        rewards = mark_allocated id db.rewards;
        audit = allocated_empty id reward ∷ db.audit;
      },
    )

    -- The transaction of an empty window.
    unfoldable pub finalise_empty : Db F → ℕ → ℕ → Outcome
    unfolding locked write_empty
    finalise_empty db id reward = locked db id (write_empty db id reward)

    -- Everything after the windows are read.
    unfoldable pub distribute : Db F → ℕ → ℕ → List (ShareWindow F) → Outcome
    distribute db id reward [] = finalise_empty db id reward
    distribute db id reward (w ∷ ws) =
        let total = total_of fl (w ∷ ws) in
        if not (is_finite total) || le total zero_f then err (invalid_window_weight total) else (do
          (grosses, residue) ← map_err panicked (grosses_of fl reward (w ∷ ws))
          tiers ← tiers_of db (w ∷ ws)
          allocations ← allocations_of grosses tiers
          in_tx db id reward (w ∷ ws) allocations residue)

    unfoldable pub read_and_distribute : Db F → ℕ → ℕ → ℕ → ℕ → Outcome
    unfolding ask
    read_and_distribute db id reward start end =
        ask list_windows >>= λ _. distribute db id reward (list_for_window fl db start end)

    abbrev pub ended :
        TxEnd → AllocationOutcome → Db F → Db F → Result (EngineError F) AllocationOutcome × Db F
    ended committed o db db' = (ok o, db')
    ended rolled_back o db db' = (err db_failed, db)
    ended unacknowledged o db db' = (err db_failed, db')

    -- The end of the transaction: an error before the commit drops it, and an allocated reward
    -- returns before the commit.
    abbrev pub commit : TxEnd → Db F → Outcome → Result (EngineError F) AllocationOutcome × Db F
    commit last db (ok (already_allocated, db')) = (ok already_allocated, db')
    commit last db (ok (freshly_allocated n net nacho fee residue, db')) =
        ended last (freshly_allocated n net nacho fee residue) db db'
    commit last db (ok (no_contributing_wallets kept, db')) =
        ended last (no_contributing_wallets kept) db db'
    commit last db (err e) = (err e, db)

    -- The close of the window is a transaction of its own.
    abbrev pub after_close :
        TxEnd
        → Db F
        → Db F
        → Result (EngineError F) AllocationOutcome × Db F
        → Result (EngineError F) AllocationOutcome × Db F
    after_close committed db closed next = next
    after_close rolled_back db closed next = (err db_failed, db)
    after_close unacknowledged db closed next = (err db_failed, closed)

    unfoldable pub allocate_coinbase_reward :
        TxEnd → TxEnd → Db F → ℕ → ℤ → ℕ → ℕ → Result (EngineError F) AllocationOutcome × Db F
    unfolding read_and_distribute
    allocate_coinbase_reward close last db id (negsuc n) start end =
        (err (math (negative_gross (negsuc n))), db)
    allocate_coinbase_reward close last db id (pos reward) start end =
        elim (close_window fl db start end) [
          | err e ↦ (err (window e), db)
          | ok closed ↦
              after_close close db closed
                (commit last closed (read_and_distribute closed id reward start end))
        ]
