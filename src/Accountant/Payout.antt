-- ===== src/Accountant/Payout.antt =====
-- accountant/src/payout.rs: which rewards a payout run includes. The automatic sweep pays matured
-- rewards only; a signed claim pays all.
pub mod Sweep
use zkas_pool.Base.{
  ℕ, suc, ◌+◌, ◌-◌, ◌≤◌, ◌≡◌, refl, Bool, true, false, List, [], ◌∷◌, arith, length, any, leb, ◌==◌,
  min, if◌then◌else◌,
}
use zkas_pool.Base.Results.{Result, ok, ◌>>=◌, Panic, i64_max, u32_max, add_checked}
use zkas_pool.Accountant.Vesting.{VestedSplit, vest_reward, vesting_cliff}
use zkas_pool.Accountant.Vesting.Totals.{Reward, ClaimTotals, no_totals, vest_claim}

pub data PayoutTrigger : Type 0 where
  auto_sweep signed_claim : PayoutTrigger

pub requires_signature : PayoutTrigger → Bool
requires_signature signed_claim = true
requires_signature auto_sweep = false

pub record PayoutPlan : Type 0 where
  pub trigger : PayoutTrigger
  pub totals : ClaimTotals
  pub requires_signature : Bool
  pub included_count : ℕ
  pub deferred_count : ℕ

pub is_empty : PayoutPlan → Bool
is_empty p = p.included_count == 0

-- The variables of the loop of the automatic sweep.
pub record SweepState : Type 0 where
  pub totals : ClaimTotals
  pub included : ℕ
  pub deferred : ℕ

abbrev pub fresh_sweep : SweepState
fresh_sweep = record { totals = no_totals; included = 0; deferred = 0 }

-- `totals += split`, where the split is matured.
unfoldable pub add_matured : ClaimTotals → VestedSplit → Result Panic ClaimTotals
unfolding add_checked
add_matured t s = do
  gross ← add_checked i64_max t.gross_sompi s.gross_sompi
  miner ← add_checked i64_max t.miner_sompi s.miner_sompi
  forfeit ← add_checked i64_max t.forfeit_sompi s.forfeit_sompi
  matured ← add_checked u32_max t.matured_count 1
  ok (record t {
    gross_sompi = gross;
    miner_sompi = miner;
    forfeit_sompi = forfeit;
    matured_count = matured;
  })

-- One round of the loop.
unfoldable pub sweep_one : SweepState → Reward → Result Panic SweepState
unfolding add_checked
sweep_one st (gross, age) =
    if leb vesting_cliff age
    then (do
      split ← vest_reward gross age
      t ← add_matured st.totals split
      n ← add_checked u32_max st.included 1
      ok (record st { totals = t; included = n }))
    else (add_checked u32_max st.deferred 1 >>= λ n. ok (record st { deferred = n }))

pub sweep_all : SweepState → List Reward → Result Panic SweepState
sweep_all st [] = ok st
sweep_all st (r ∷ rs) = sweep_one st r >>= λ st'. sweep_all st' rs

pub plan_payout : List Reward → PayoutTrigger → Result Panic PayoutPlan
plan_payout rewards auto_sweep = do
  st ← sweep_all fresh_sweep rewards
  ok (record {
    trigger = auto_sweep;
    totals = st.totals;
    requires_signature = false;
    included_count = st.included;
    deferred_count = st.deferred;
  })
plan_payout rewards signed_claim = do
  totals ← vest_claim rewards
  ok (record {
    trigger = signed_claim;
    totals = totals;
    requires_signature = true;
    included_count = min (length rewards) u32_max;
    deferred_count = 0;
  })

-- `VESTING_CLIFF.saturating_sub(age)`
pub time_until_auto_payout : ℕ → ℕ
time_until_auto_payout age = vesting_cliff - age

pub has_auto_payable : List ℕ → Bool
has_auto_payable ages = any (λ age. leb vesting_cliff age) ages
