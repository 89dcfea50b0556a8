-- ===== src/Tests/Accounts.antt =====
-- The accountant at concrete inputs: two wallets that share a reward of 101 sompi, and four credits
-- around the vesting cliff.
use mathlib.Core.List.{map, Mem}
use zkas_pool.Base.{
  ℕ, ◌+◌, ◌-◌, ◌*◌, ◌≤◌, ◌<◌, ◌≡◌, refl, Bool, true, false, not, List, [], ◌∷◌, ◌++◌, Option, none,
  ◌⊎◌, arith, length, sum_by, All,
}
use zkas_pool.Base.Int.{pos, negsuc, ◌+ℤ◌}
use zkas_pool.Base.Text.{codes, strip_prefix}
use zkas_pool.Base.Results.{Result, ok, err, i64_max}
use zkas_pool.Domain.Address
use zkas_pool.Accountant.Vesting.{vest_reward-promised, vest_reward_mono, promised, vesting_cliff}
use zkas_pool.Accountant.Vesting.Totals.{
  Credit, credited, vest_claim, vest_claim-sums, plus_sums, no_totals,
}
use zkas_pool.Accountant.Payout.{auto_sweep, signed_claim, plan_payout, has_auto_payable, is_empty}
use zkas_pool.Accountant.Payout.Sweep.{
  plan_payout-promised, promised_plan, sweep_then_claim, add_plans, deferred_only,
  has_auto_payable-is_empty,
}
use zkas_pool.Accountant.Fee
use zkas_pool.Accountant.Fee.{
  FeeConfig, WalletTier, standard, elite, Allocation, negative_gross, overflow_fee_share,
  compute_allocation,
}
use zkas_pool.Accountant.Fee.Bounds.{
  compute_allocation_balance, compute_allocation_fails, promised as promised_allocation,
}
use zkas_pool.Accountant.Db.{
  Share, Db, ShareWindow, lock_for_allocation, mark_allocated, find_address,
}
use zkas_pool.Accountant.Window.{close_window, list_for_window}
use zkas_pool.Accountant.Allocation.{
  AllocationOutcome, freshly_allocated, grosses_of, pro_rate, EngineError, sum_totals, total_of,
}
use zkas_pool.Accountant.Allocation.Grosses.{sum_ℤ, grosses_of_exact, pro_rate-le}
use zkas_pool.Accountant.Engine.{
  allocate_coinbase_reward, distribute, in_tx, insert_batch, new_rows, accrue_all, tiers_of,
  allocations_of, read_and_distribute, ask, locked, write_rows, ask_rebates, Call, committed,
  unacknowledged,
}
use zkas_pool.Accountant.Engine.Atomic.{allocate_twice}
use zkas_pool.Accountant.Engine.Ends.{SameMoney}
use zkas_pool.Accountant.Engine.Conservation.{allocate_conserves}
use zkas_pool.Accountant.Engine.Sums.{row_credit}
use zkas_pool.Tests.Floats.{fractions, Fraction}

-- One reward just under the cliff, one at it, one past it, and one fresh.
abbrev credits : List Credit
credits =
    (6_000_000_001, vesting_cliff - 1)
    ∷ (6_000_000_000, vesting_cliff)
    ∷ (7, vesting_cliff + 5)
    ∷ (3, 0)
    ∷ []

vest_reward_mono_example : 1 ≤ (promised 3 vesting_cliff).miner_sompi
vest_reward_mono_example =
    (vest_reward_mono 3 0 vesting_cliff {s = promised 3 0} {t = promised 3 vesting_cliff}
      (omega arith) (vest_reward-promised 3 0 (omega arith))
      (vest_reward-promised 3 vesting_cliff (omega arith))).0

vest_claim-sums_example : vest_claim (credited credits) ≡ ok (plus_sums no_totals credits)
vest_claim-sums_example = vest_claim-sums credits (omega arith) (omega arith)

plan_payout-promised_example :
    plan_payout (credited credits) auto_sweep ≡ ok (promised_plan auto_sweep credits)
plan_payout-promised_example = plan_payout-promised auto_sweep credits (omega arith) (omega arith)

sweep_then_claim_example :
    add_plans
      (promised_plan auto_sweep credits).totals
      (promised_plan signed_claim (deferred_only credits)).totals
    ≡ (promised_plan signed_claim credits).totals
sweep_then_claim_example =
    sweep_then_claim credits {swept = promised_plan auto_sweep credits}
      {rest = promised_plan signed_claim (deferred_only credits)}
      {whole = promised_plan signed_claim credits} (omega arith) (omega arith)
      (plan_payout-promised auto_sweep credits (omega arith) (omega arith))
      (plan_payout-promised signed_claim (deferred_only credits) (omega arith) (omega arith))
      (plan_payout-promised signed_claim credits (omega arith) (omega arith))

has_auto_payable-is_empty_example :
    has_auto_payable (map (λ c. c.1) credits) ≡ not (is_empty (promised_plan auto_sweep credits))
has_auto_payable-is_empty_example =
    has_auto_payable-is_empty credits {p = promised_plan auto_sweep credits} (omega arith)
      (omega arith) (plan_payout-promised auto_sweep credits (omega arith) (omega arith))

abbrev three_quarters : FeeConfig
three_quarters = record { topline_bps = 75 }

abbrev priced : Allocation
priced = record {
  gross_sompi = 6_000_000_001;
  pool_fee_sompi = 45_000_000;
  nacho_accrual_sompi = 0;
  net_payout_sompi = 5_955_000_001;
  applied_topline_bps = 75;
  applied_rebate_bps = 0;
  applied_tier = elite;
}

priced_lem : compute_allocation three_quarters (pos 6_000_000_001) elite ≡ ok priced
unfolding compute_allocation Fee.rebate_bps
priced_lem = refl

compute_allocation_balance_example :
    (pos 6_000_000_001 ≡ pos 6_000_000_001)
    × (45_000_000 + 0 + priced.net_payout_sompi ≡ 6_000_000_001)
    × (6_000_000_001 * 9 ≤ priced.net_payout_sompi * 10)
compute_allocation_balance_example =
    compute_allocation_balance three_quarters (pos 6_000_000_001) elite {a = priced} (omega arith)
      priced_lem

overflows : compute_allocation three_quarters (pos i64_max) standard ≡ err overflow_fee_share
unfolding compute_allocation
overflows = refl

compute_allocation_fails_example :
    ((n : ℕ) × (pos i64_max ≡ negsuc n)
      × (compute_allocation three_quarters (pos i64_max) standard
          ≡ err (negative_gross (pos i64_max))))
    ⊎ ((g : ℕ) × (pos i64_max ≡ pos g)
        × (i64_max < g * 75)
        × (compute_allocation three_quarters (pos i64_max) standard ≡ err overflow_fee_share))
    ⊎ ((g : ℕ) × (pos i64_max ≡ pos g)
        × (g * 75 ≤ i64_max)
        × (compute_allocation three_quarters (pos i64_max) standard
            ≡ ok (promised_allocation three_quarters g standard)))
compute_allocation_fails_example =
    compute_allocation_fails three_quarters (pos i64_max) standard (omega arith)

abbrev address : List ℕ
address = codes "zkas:pyfjy228l6gu"

address_ok : Address.new address ≡ ok address
unfolding Address.new strip_prefix
address_ok = refl

new_sound_example :
    (address ≡ address)
    × (13 ≤ length address)
    × (length address ≤ 110)
    × ((p : List ℕ) × (body : List ℕ) × Mem p Address.accepted_prefixes
        × (address ≡ p ++ body)
        × All (λ c. Address.is_body_char c ≡ true) body)
new_sound_example = Address.new_sound address {t = address} address_ok

abbrev share : ℕ → ℕ → ℕ → Share Fraction
share wallet difficulty daa = record {
  wallet_id = wallet;
  difficulty = (difficulty, 1);
  daa_score = daa;
}

-- Wallets 4 and 9 have weights 1 and 2 in the window [10, 20); one share lies beyond it.
abbrev ledger : Db Fraction
ledger = record {
  shares = share 9 1 10 ∷ share 4 1 12 ∷ share 9 1 19 ∷ share 4 5 20 ∷ [];
  share_windows = [];
  wallets = (4, address) ∷ (9, address) ∷ [];
  rewards = record { id = 7; amount_sompi = 101; is_allocated = false } ∷ [];
  allocations = [];
  rebates = [];
  audit = [];
}

abbrev every_call : Call → Bool
every_call c = true

abbrev no_answer : List ℕ → Option WalletTier
no_answer _ = none

-- 101 / 3 is 33 remainder 2 for wallet 4, and 67 remainder 1 for wallet 9: the sompi left over goes
-- to wallet 4.
abbrev run : Result (EngineError Fraction) AllocationOutcome × Db Fraction
run =
    allocate_coinbase_reward fractions three_quarters no_answer every_call committed committed
      ledger 7 (pos 101) 10 20

run_lem : run.0 ≡ ok (freshly_allocated 2 101 0 0 (pos 1))
unfolding allocate_coinbase_reward read_and_distribute ask locked close_window list_for_window
    distribute grosses_of tiers_of allocations_of compute_allocation Fee.rebate_bps in_tx write_rows
    ask_rebates insert_batch new_rows accrue_all sum_totals lock_for_allocation mark_allocated
    total_of find_address Address.new strip_prefix ◌+ℤ◌
run_lem = refl

run_eq : run ≡ (ok (freshly_allocated 2 101 0 0 (pos 1)), run.1)
run_eq = λ i. (run_lem i, run.1)

allocate_conserves_example :
    (sum_by (row_credit fractions three_quarters no_answer every_call) run.1.allocations ≡ 0 + 101)
    × (101 + 0 + 0 ≡ 101)
allocate_conserves_example =
    allocate_conserves fractions three_quarters no_answer every_call committed committed ledger 7
      101 10 20 (omega arith) (omega arith) run_eq

-- A second call, for another window and another value, changes nothing.
allocate_twice_example :
    SameMoney Fraction run.1
      (allocate_coinbase_reward fractions three_quarters no_answer every_call committed
        unacknowledged run.1 7
        (pos 500)
        20
        30).1
allocate_twice_example =
    allocate_twice fractions three_quarters no_answer every_call every_call committed committed
      committed unacknowledged ledger 7 (pos 101) (pos 500) 10 20 20 30 run_eq

-- The reply to the last commit is lost: an error, with all of it done.
abbrev unheard : Result (EngineError Fraction) AllocationOutcome × Db Fraction
unheard =
    allocate_coinbase_reward fractions three_quarters no_answer every_call committed unacknowledged
      ledger 7 (pos 101) 10 20

abbrev rollup : ℕ → ℕ → ShareWindow Fraction
rollup wallet weight = record {
  wallet_id = wallet;
  daa_start = 10;
  daa_end = 20;
  total_weight = (weight, 1);
  share_count = weight;
}

abbrev rollups : List (ShareWindow Fraction)
rollups = rollup 9 2 ∷ rollup 4 1 ∷ []

split_lem : grosses_of fractions 101 rollups ≡ ok (pos 67 ∷ pos 34 ∷ [], pos 1)
unfolding grosses_of total_of ◌+ℤ◌
split_lem = refl

grosses_of_exact_example : sum_ℤ (pos 67 ∷ pos 34 ∷ []) ≡ pos 101
grosses_of_exact_example =
    (grosses_of_exact fractions 101 rollups {grosses = pos 67 ∷ pos 34 ∷ []} {residue = pos 1}
      (omega arith) (omega arith) split_lem).1

pro_rate-le_example : pro_rate fractions 1_000 (200, 1) (100, 1) ≤ 1_000
pro_rate-le_example = pro_rate-le fractions 1_000 (200, 1) (100, 1)
