-- ===== src/Accountant/Allocation.antt =====
-- accountant/src/allocation.rs: one matured coinbase reward is split among the wallets of its share
-- window.
-- The classifier (a network service) is a parameter: `none` is its error.
pub mod Grosses
use mathlib.Core.List.{map, foldl}
use zkas_pool.Base.{
  ℕ, zero, suc, ◌+◌, ◌-◌, ◌≤◌, ◌<◌, ◌≡◌, Bool, true, false, not, List, [], ◌∷◌, ◌++◌, Option, none,
  some, ◌&&◌, ◌||◌, min, leb, ltb, ◌==◌, if◌then◌else◌, length, any, retain, get_elem?, set,
  range_from, arith,
}
use zkas_pool.Base.Int.{ℤ, pos, negsuc, sub_ℕ, ◌+ℤ◌}
use zkas_pool.Base.Results.{Result, ok, err, ◌>>=◌, Panic, i64_max, sum_checked}
use zkas_pool.Base.Float.{Float}
use zkas_pool.Base.Sort.{sort_by}
use zkas_pool.Accountant.Fee.{
  WalletTier, standard, FeeConfig, Allocation, AllocationError, negative_gross, compute_allocation,
}
use zkas_pool.Accountant.Db.{
  ShareWindow, NewAllocation, AuditEntry, allocated, allocated_empty, Db, find_address,
  lock_for_allocation, mark_allocated, accrue,
}
use zkas_pool.Accountant.Window.{WindowError, close_window, list_for_window}
use zkas_pool.Domain.Address

-- `i64::saturating_add`
unfoldable pub saturate : ℤ → ℤ
saturate (pos n) = pos (min n i64_max)
saturate (negsuc n) = negsuc (min n i64_max)

pub data AllocationOutcome : Type 0 where
  -- Wallets, net payout, rebate, pool fee, residue.
  freshly_allocated : ℕ → ℕ → ℕ → ℕ → ℤ → AllocationOutcome
  already_allocated : AllocationOutcome
  no_contributing_wallets : ℕ → AllocationOutcome

pub data EngineError (F : Type 0) : Type 0 where
  window : WindowError → EngineError F
  -- A call of the database failed, or its reply was lost.
  db_failed : EngineError F
  -- A constraint of `share_allocation`, or an unbalanced row.
  db_constraint : EngineError F
  unknown_wallet : ℕ → EngineError F
  math : AllocationError → EngineError F
  unknown_reward : ℕ → EngineError F
  invalid_window_weight : F → EngineError F
  invalid_wallet_address : List ℕ → EngineError F
  panicked : Panic → EngineError F

-- The sums of the allocations, each `saturating_add`.
pub record Totals : Type 0 where
  pub pool_fee : ℕ
  pub nacho : ℕ
  pub net : ℕ

abbrev pub add_totals : Totals → Allocation → Totals
add_totals t a = record {
  pool_fee = min (t.pool_fee + a.pool_fee_sompi) i64_max;
  nacho = min (t.nacho + a.nacho_accrual_sompi) i64_max;
  net = min (t.net + a.net_payout_sompi) i64_max;
}

unfoldable pub sum_totals : Totals → List Allocation → Totals
sum_totals t [] = t
sum_totals t (a ∷ as') = sum_totals (add_totals t a) as'

-- `i16::try_from(bps).unwrap_or(i16::MAX)`
abbrev pub to_i16 : ℕ → ℕ
to_i16 n = if leb n 32_767 then n else 32_767

module _ (fl : Float) where
  open fl use {F, zero_f, of_int, add, mul, div, floor, le, eq, is_finite, to_int}

  unfoldable pub pro_rate : ℕ → F → F → ℕ
  pro_rate reward weight total =
      if eq weight zero_f || le total zero_f
      then 0
      else (let floored = floor (mul (of_int reward) (div weight total)) in
          if le floored zero_f
          then 0
          else if le (of_int reward) floored
          then reward
          else to_int floored)

  -- The sort key of the residue: `windows.get(i).map_or(i64::MAX, |w| w.wallet_id.0)`.
  unfoldable pub wallet_at : List (ShareWindow F) → ℕ → ℕ
  wallet_at ws i = elim (get_elem? ws i) [ none ↦ i64_max | some w ↦ w.wallet_id ]

  -- The indices of the windows by wallet id.
  unfoldable pub order : List (ShareWindow F) → List ℕ
  unfolding sort_by wallet_at
  order ws = sort_by (λ i j. leb (wallet_at ws i) (wallet_at ws j)) (range_from 0 (length ws))

  -- The residue goes to the window of the smallest wallet id.
  unfoldable pub award : List (ShareWindow F) → ℤ → List ℤ → List ℤ
  unfolding order saturate
  award ws residue grosses = elim (order ws) [
    | [] ↦ grosses
    | first ∷ rest ↦ elim (get_elem? grosses first) [
      | none ↦ grosses
      | some slot ↦ set grosses first (saturate (slot +ℤ residue))
    ]
  ]

  -- `windows.iter().map(|w| w.total_weight).sum()`
  unfoldable pub total_of : List (ShareWindow F) → F
  total_of ws = foldl (λ acc w. add acc w.total_weight) zero_f ws

  -- The grosses with the residue awarded, and the residue; `saturating_sub` of two values that are
  -- not negative does not saturate.
  unfoldable pub grosses_of : ℕ → List (ShareWindow F) → Result Panic (List ℤ × ℤ)
  unfolding pro_rate award sum_checked
  grosses_of reward ws =
      let shares = map (λ w. pro_rate reward w.total_weight (total_of ws)) ws in
      sum_checked i64_max (λ g. g) 0 shares >>= λ summed.
      let residue = sub_ℕ reward summed in ok (award ws residue (map pos shares), residue)
