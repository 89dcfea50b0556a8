-- ===== src/StorageMass/Consolidation.antt =====
-- crates/katpool-storagemass/src/consolidation.rs: many small coins of the treasury are merged by
-- transactions that send to it. A chunk's loop over the coins recurs on their number.
pub mod Search
pub mod Merges
use zkas_pool.Base.{
  ℕ, zero, suc, ◌+◌, ◌-◌, ◌*◌, ◌/◌, min, Bool, true, false, not, ◌&&◌, ◌||◌, List, [], ◌∷◌, Option,
  none, some, ltb, leb, ◌==◌, if◌then◌else◌, length, take, drop, retain,
}
use zkas_pool.Base.Results.{Result, ok, err, ◌>>=◌, Panic, u64_max, sum_checked}
use zkas_pool.Base.Sort.{sort_by}
use zkas_pool.Base.Float.{Float}
use zkas_pool.StorageMass.Mass.{
  Script, TreasuryUtxo, TxMass, PlannedBatch, MassEvaluator, build_populated, evaluate_populated,
  fitting, is_planning_virtual, max_standard_tx_mass,
}
use zkas_pool.StorageMass.Fee.{FeeRate, fee_for, reserves_fee}

abbrev pub min_consolidation_inputs : ℕ
min_consolidation_inputs = 2

abbrev pub value : TreasuryUtxo → ℕ
value u = u.entry.amount

unfoldable pub sort_utxos_asc : List TreasuryUtxo → List TreasuryUtxo
sort_utxos_asc = sort_by (λ a b. leb (value a) (value b))

abbrev pub is_real : TreasuryUtxo → Bool
is_real u = not (is_planning_virtual u)

unfoldable pub is_some : Option TxMass → Bool
is_some none = false
is_some (some m) = true

-- The binary search of `max_inputs_that_fit`, where `hi` is at most `lo` and the fuel.
unfoldable pub narrow : (ℕ → Result Panic Bool) → ℕ → ℕ → ℕ → Result Panic ℕ
narrow fits zero lo hi = ok lo
narrow fits (suc fuel) lo hi =
    let mid = lo + (hi - lo + 1) / 2 in
    let next = fits mid >>= λ b. elim b [
      | true ↦ narrow fits fuel mid hi
      | false ↦ narrow fits fuel lo (mid - 1)
    ] in
    if ltb lo hi then next else ok lo

-- `slice::chunks`
unfoldable pub chunks_by : ℕ → ℕ → List TreasuryUtxo → List (List TreasuryUtxo)
chunks_by zero size us = []
chunks_by (suc fuel) size [] = []
chunks_by (suc fuel) size (u ∷ us) = take size (u ∷ us) ∷ chunks_by fuel size (drop size (u ∷ us))

unfoldable pub chunks : ℕ → List TreasuryUtxo → List (List TreasuryUtxo)
unfolding chunks_by
chunks size us = chunks_by (length us) size us

module _ (ev : MassEvaluator) (script : Script) where
  unfoldable pub evaluate_self_send : List TreasuryUtxo → ℕ → Option TxMass
  evaluate_self_send inputs change =
      fitting max_standard_tx_mass (evaluate_populated ev (build_populated inputs [] script change))

  unfoldable pub fits_prefix : List TreasuryUtxo → ℕ → Result Panic (Option TxMass)
  fits_prefix utxos n =
      if ltb (length utxos) n
      then ok none
      else sum_checked u64_max value 0 (take n utxos) >>= λ input_sum.
          ok (evaluate_self_send (take n utxos) input_sum)

  unfoldable pub fits_at : List TreasuryUtxo → ℕ → Result Panic Bool
  unfolding is_some
  fits_at utxos n = fits_prefix utxos n >>= λ m. ok (is_some m)

  unfoldable pub max_inputs_that_fit : List TreasuryUtxo → ℕ → Result Panic ℕ
  max_inputs_that_fit utxos max_inputs_per_tx =
      let hi_bound = min max_inputs_per_tx (length utxos) in
      if hi_bound == 0
      then ok 0
      else fits_at utxos 1 >>= λ one. elim one [
        | true ↦ narrow (fits_at utxos) (hi_bound - 1) 1 hi_bound
        | false ↦ ok 0
      ]

module _ (fl : Float) (ev : MassEvaluator) (script : Script) (rate : FeeRate fl) (max_txs : ℕ) where
  abbrev merged : List TreasuryUtxo → ℕ → TxMass → PlannedBatch
  merged chunk input_sum mass = record {
    inputs = chunk;
    payouts = [];
    change_amount_sompi = input_sum;
    mass = mass;
  }

  -- The batch of a chunk, unless it does not fit or its fee would take all of it.
  unfoldable pub merge : List TreasuryUtxo → ℕ → Option TxMass → Option PlannedBatch
  merge chunk input_sum none = none
  merge chunk input_sum (some mass) =
      if reserves_fee fl rate && leb input_sum (fee_for fl rate mass)
      then none
      else some (merged chunk input_sum mass)

  -- The loop over the chunks, with the number of batches so far.
  unfoldable pub merge_chunks : ℕ → List (List TreasuryUtxo) → Result Panic (List PlannedBatch)
  merge_chunks count [] = ok []
  merge_chunks count (chunk ∷ rest) =
      elim (leb max_txs count || ltb (length chunk) min_consolidation_inputs) [
        | true ↦ ok []
        | false ↦ sum_checked u64_max value 0 chunk >>= λ input_sum.
            elim (merge chunk input_sum (evaluate_self_send ev script chunk input_sum)) [
              | none ↦ merge_chunks count rest
              | some batch ↦ merge_chunks (count + 1) rest >>= λ batches. ok (batch ∷ batches)
            ]
      ]

  unfoldable pub merge_sorted : List TreasuryUtxo → ℕ → Result Panic (List PlannedBatch)
  merge_sorted utxos max_inputs_per_tx =
      max_inputs_that_fit ev script utxos max_inputs_per_tx >>= λ cap.
      if ltb cap min_consolidation_inputs then ok [] else merge_chunks 0 (chunks cap utxos)

  unfoldable pub plan_consolidation : List TreasuryUtxo → ℕ → Result Panic (List PlannedBatch)
  unfolding sort_utxos_asc
  plan_consolidation utxos max_inputs_per_tx =
      let real = retain is_real utxos in
      if max_txs == 0
        || ltb max_inputs_per_tx min_consolidation_inputs
        || ltb (length real) min_consolidation_inputs
      then ok []
      else merge_sorted (sort_utxos_asc real) max_inputs_per_tx
