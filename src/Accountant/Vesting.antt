-- ===== src/Accountant/Vesting.antt =====
-- accountant/src/vesting.rs: the vesting cliff. A `Duration` is a number of nanoseconds; money is
-- in sompi. An `assert!` or an overflow is a `Panic`.
pub mod Totals
use zkas_pool.Base.{
  ℕ, ◌+◌, ◌-◌, ◌*◌, ◌/◌, ◌≤◌, ◌<◌, ◌≡◌, refl, Bool, true, false, List, [], ◌∷◌, arith, leb, ◌==◌,
  if◌then◌else◌, Bool-cases, inl, inr,
}
use zkas_pool.Base.Int.{ℤ, pos, negsuc}
use zkas_pool.Base.Results.{
  Result, ok, err, ◌>>=◌, Panic, assertion, overflow, i64_max, u32_max, add_checked,
}

abbrev pub vesting_cliff_days : ℕ
vesting_cliff_days = 10

-- `Duration::from_secs`, in nanoseconds.
abbrev pub from_secs : ℕ → ℕ
from_secs s = s * 1_000_000_000

abbrev pub vesting_cliff : ℕ
vesting_cliff = from_secs (vesting_cliff_days * 24 * 60 * 60)

abbrev pub early_payout_bps : ℕ
early_payout_bps = 5_000

abbrev pub full_payout_bps : ℕ
full_payout_bps = 10_000

pub data ForfeitPolicy : Type 0 where
  treasury redistribute burn : ForfeitPolicy

-- The amounts stand behind the assertion that the gross is not negative, so they are numbers.
pub record VestedSplit : Type 0 where
  pub gross_sompi : ℕ
  pub miner_sompi : ℕ
  pub forfeit_sompi : ℕ
  pub applied_bps : ℕ
  pub matured : Bool

abbrev pub is_matured : ℕ → Bool
is_matured age = leb vesting_cliff age

abbrev bps_at : ℕ → ℕ
bps_at age = if is_matured age then full_payout_bps else early_payout_bps

-- `floor(gross * bps / 10_000)`, computed in `i128`.
abbrev scaled : ℕ → ℕ → ℕ
scaled gross bps = gross * bps / full_payout_bps

unfoldable pub vest_reward : ℤ → ℕ → Result Panic VestedSplit
vest_reward (negsuc n) age = err assertion
vest_reward (pos gross) age =
    let bps = bps_at age in
    let miner = scaled gross bps in
    if leb miner i64_max
    then ok (record {
      gross_sompi = gross;
      miner_sompi = miner;
      forfeit_sompi = gross - miner;
      applied_bps = bps;
      matured = is_matured age;
    })
    else err assertion

-- What a reward pays, said without basis points: all of it from the cliff on, and half before.
abbrev pub due : ℕ → ℕ → ℕ
due gross age = if is_matured age then gross else gross / 2

-- The split that the policy promises.
abbrev pub promised : ℕ → ℕ → VestedSplit
promised gross age = record {
  gross_sompi = gross;
  miner_sompi = due gross age;
  forfeit_sompi = gross - due gross age;
  applied_bps = if is_matured age then full_payout_bps else early_payout_bps;
  matured = is_matured age;
}

scaled_full : (g : ℕ) → scaled g full_payout_bps ≡ g
scaled_full g = omega arith

scaled_half : (g : ℕ) → scaled g early_payout_bps ≡ g / 2
scaled_half g = omega arith

-- For every reward that is an i64 and not negative, `vest_reward` does not panic and returns the
-- promised split: the whole gross at or after the cliff, its half rounded down before it, and the
-- rest forfeited.
pub vest_reward-promised : (g age : ℕ) → g ≤ i64_max → vest_reward (pos g) age ≡ ok (promised g age)
unfolding vest_reward
vest_reward-promised g age h = ground (arith, scaled_full g, scaled_half g)

pub due-le : (g age : ℕ) → due g age ≤ g
due-le g age = ground arith

-- Waiting never costs: of two ages the later one pays at least as much, and no miner ever gets more
-- than the reward.
pub vest_reward_mono :
    (g age later : ℕ) {s t : VestedSplit}
    → age ≤ later
    → vest_reward (pos g) age ≡ ok s
    → vest_reward (pos g) later ≡ ok t
    → (s.miner_sompi ≤ t.miner_sompi) × (t.miner_sompi ≤ g)
unfolding vest_reward
vest_reward_mono g age later le p q = ground (arith, scaled_full g, scaled_half g)
