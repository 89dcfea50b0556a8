-- ===== src/Kas/Sign.antt =====
-- payout-kas/src/signer.rs, and `sign_batch_with_exact_fee` of execute.rs. The keys, the signatures
-- and the script engine are a parameter, `Signer`.
pub mod Pays
use zkas_pool.Base.{
  ℕ, ◌+◌, ◌-◌, ◌≡◌, Bool, true, false, not, ◌&&◌, ◌||◌, List, [], ◌∷◌, ◌++◌, map, Option, none,
  some, any, leb, ltb, ◌==◌, if◌then◌else◌,
}
use zkas_pool.Base.Results.{Result, ok, err, ◌>>=◌, u64_max, Panic, sum_checked}
use zkas_pool.Base.Float.{Float}
use zkas_pool.StorageMass.Mass.{
  Script, TransactionOutpoint, UtxoEntry, TreasuryUtxo, TransactionInput, Transaction, PlannedBatch,
  MassEvaluator, MassEvaluationError, TxMass, is_planning_virtual, payout_output, change_output,
  evaluate_populated,
}
use zkas_pool.StorageMass.Fee.{FeeRate, fee_for, reserves_fee, is_change_dust}
use zkas_pool.StorageMass.Planner.{coin, amount}
use zkas_pool.Kas.World.{SignError, virtual_input, empty_inputs, ExecuteError, sign, mass, panicked}

abbrev pub outpoints : Transaction → List TransactionOutpoint
outpoints tx = map (λ (i : TransactionInput). i.previous_outpoint) tx.inputs

pub record Signer : Type 0 where
  pub tx_version : ℕ
  pub native_subnetwork : List ℕ
  -- The signed and finalized transaction, after the script engine has run on each input.
  pub seal : Transaction → List UtxoEntry → Result SignError Transaction
  pub tx_id : Transaction → ℕ
  -- Signing fills in the scripts of the inputs.
  pub seal_pays :
      (t : Transaction) (es : List UtxoEntry) {t' : Transaction}
      → seal t es ≡ ok t'
      → (t'.outputs ≡ t.outputs) × (outpoints t' ≡ outpoints t)

pub record SignedBatch : Type 0 where
  pub tx : Transaction
  pub entries : List UtxoEntry

abbrev pub unsigned_input : TreasuryUtxo → TransactionInput
unsigned_input u = record {
  previous_outpoint = u.outpoint;
  signature_script = [];
  sequence = 0;
  sig_op_count = 1;
}

abbrev pub is_empty : List TreasuryUtxo → Bool
is_empty [] = true
is_empty (u ∷ us) = false

unfoldable pub lift_sign : {A : Type 0} → Result SignError A → Result ExecuteError A
lift_sign (ok a) = ok a
lift_sign (err e) = err (sign e)

unfoldable pub lift_mass : Result MassEvaluationError TxMass → Result ExecuteError TxMass
lift_mass (ok a) = ok a
lift_mass (err e) = err (mass e)

unfoldable pub lift_panic : {A : Type 0} → Result Panic A → Result ExecuteError A
lift_panic (ok a) = ok a
lift_panic (err p) = err (panicked p)

-- `checked_sub`, twice
unfoldable pub change_left : ℕ → ℕ → ℕ → Option ℕ
change_left input_sum payout_sum fee =
    if leb payout_sum input_sum && leb fee (input_sum - payout_sum)
    then some (input_sum - payout_sum - fee)
    else none

module _ (signer : Signer) (script : Script) where
  open signer use {tx_version, native_subnetwork, seal}

  unfoldable pub unsigned_tx : PlannedBatch → Transaction
  unfolding payout_output change_output
  unsigned_tx batch = record {
    version = tx_version;
    inputs = map unsigned_input batch.inputs;
    outputs = map payout_output batch.payouts ++ change_output script batch.change_amount_sompi;
    lock_time = 0;
    subnetwork_id = native_subnetwork;
    gas = 0;
    payload = [];
  }

  unfoldable pub build_unsigned : PlannedBatch → Result SignError (Transaction × List UtxoEntry)
  build_unsigned batch =
      if is_empty batch.inputs
      then err empty_inputs
      else if any is_planning_virtual batch.inputs
      then err virtual_input
      else ok (unsigned_tx batch, map (λ (u : TreasuryUtxo). u.entry) batch.inputs)

  unfoldable pub sign_batch : PlannedBatch → Result SignError SignedBatch
  unfolding build_unsigned
  sign_batch batch = build_unsigned batch >>= λ (tx, entries).
      seal tx entries >>= λ t. ok (record { tx = t; entries = entries })

  module _ (fl : Float) (ev : MassEvaluator) (rate : FeeRate fl) where
    -- A change that would be dust goes to the fee.
    unfoldable pub without_dust : ℕ → ℕ
    without_dust change =
        if not (change == 0) && is_change_dust ev.calculator change script then 0 else change

    unfoldable pub adjust : PlannedBatch → SignedBatch → Option ℕ → Result ExecuteError SignedBatch
    adjust batch provisional none = ok provisional
    adjust batch provisional (some change) =
        if without_dust change == batch.change_amount_sompi
        then ok provisional
        else lift_sign (sign_batch (record batch { change_amount_sompi = without_dust change }))

    unfoldable pub sign_batch_with_exact_fee : PlannedBatch → Result ExecuteError SignedBatch
    sign_batch_with_exact_fee batch = lift_sign (sign_batch batch) >>= λ provisional.
        if not (reserves_fee fl rate)
        then ok provisional
        else lift_mass (evaluate_populated ev (provisional.tx, provisional.entries)) >>= λ m.
            lift_panic (sum_checked u64_max coin 0 batch.inputs) >>= λ input_sum.
            lift_panic (sum_checked u64_max amount 0 batch.payouts) >>= λ payout_sum.
            adjust batch provisional (change_left input_sum payout_sum (fee_for fl rate m))
