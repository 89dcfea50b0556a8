-- ===== src/StorageMass/Fee.antt =====
-- crates/katpool-storagemass/src/fee.rs: the network fee of a transaction and the dust test. The
-- masses of payouts are far below 2^53, where `as f64` is exact; `f64::min` is at finite values.
use zkas_pool.Base.{
  ℕ, ◌+◌, ◌-◌, ◌*◌, ◌/◌, ◌^◌, ◌≤◌, ◌≡◌, Bool, true, ◌&&◌, ◌||◌, min, max, arith, ltb, ◌==◌,
  if◌then◌else◌,
}
use zkas_pool.Base.Results.{u64_max}
use zkas_pool.Base.Float.{Float}
use zkas_pool.StorageMass.Mass.{Script, TxMass, Consensus, effective}

abbrev pub min_relay_tx_fee_sompi_per_kg : ℕ
min_relay_tx_fee_sompi_per_kg = 100_000

abbrev pub dust_input_serialized_size : ℕ
dust_input_serialized_size = 148

abbrev pub u128_max : ℕ
u128_max = 2 ^ 128 - 1

-- `u64::saturating_add` and `u64::saturating_mul`
abbrev pub saturating_add : ℕ → ℕ → ℕ
saturating_add a b = min (a + b) u64_max

abbrev pub saturating_mul : ℕ → ℕ → ℕ
saturating_mul a b = min (a * b) u64_max

unfoldable pub is_change_dust : Consensus → ℕ → Script → Bool
is_change_dust c value script =
    let size =
      saturating_add (c.output_size (record { value = value; script_public_key = script }))
        dust_input_serialized_size in
    ltb (min (value * 1000) u128_max / (3 * size)) min_relay_tx_fee_sompi_per_kg

module _ (fl : Float) where
  open fl use {F, zero_f, of_int, mul, ceil, le, lt, is_finite, to_int}

  pub record FeeRate : Type 0 where
    pub feerate_sompi_per_gram : F
    pub min_relay_sompi_per_kg : ℕ

  abbrev pub zero_rate : FeeRate
  zero_rate = record { feerate_sompi_per_gram = zero_f; min_relay_sompi_per_kg = 0 }

  unfoldable pub from_feerate : F → FeeRate
  from_feerate x = record {
    feerate_sompi_per_gram = if is_finite x && lt zero_f x then x else zero_f;
    min_relay_sompi_per_kg = min_relay_tx_fee_sompi_per_kg;
  }

  unfoldable pub reserves_fee : FeeRate → Bool
  reserves_fee rate = lt zero_f rate.feerate_sompi_per_gram || ltb 0 rate.min_relay_sompi_per_kg

  unfoldable pub minimum_relay_fee : FeeRate → ℕ → ℕ
  minimum_relay_fee rate compute_mass =
      let fee = saturating_mul compute_mass rate.min_relay_sompi_per_kg / 1000 in
      if fee == 0 then rate.min_relay_sompi_per_kg else fee

  -- `f64::min` of two values that are no NaN
  abbrev float_min : F → F → F
  float_min a b = if le a b then a else b

  unfoldable pub fee_for : FeeRate → TxMass → ℕ
  unfolding minimum_relay_fee effective
  fee_for rate mass =
      let scaled = mul rate.feerate_sompi_per_gram (of_int (effective mass)) in
      let estimate : ℕ =
        if is_finite scaled && lt zero_f scaled
        then to_int (float_min (ceil scaled) (of_int u64_max))
        else 0 in
      max estimate (minimum_relay_fee rate mass.compute_mass)

  -- The fee that the planner reserves.
  unfoldable pub fee_of : FeeRate → TxMass → ℕ
  unfolding reserves_fee fee_for
  fee_of rate mass = if reserves_fee rate then fee_for rate mass else 0

  -- A live policy reserves at least what the node asks to relay a transaction, whatever rate the
  -- node reported, where the product does not saturate.
  pub fee_of-live :
      (x : F) (mass : TxMass)
      → mass.compute_mass * min_relay_tx_fee_sompi_per_kg ≤ u64_max
      → (mass.compute_mass * 100 ≤ fee_of (from_feerate x) mass)
        × (reserves_fee (from_feerate x) ≡ true)
  unfolding fee_of from_feerate
  fee_of-live x mass h = ground arith
