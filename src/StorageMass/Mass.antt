-- ===== src/StorageMass/Mass.antt =====
-- crates/katpool-storagemass/src/types.rs, tx_build.rs and evaluator.rs: coins, recipients and
-- batches, the transaction of a batch, and its three masses. A script is its bytes, and a
-- transaction id the number that its 32 bytes write.
use Prim.Native.Nat.{zero, suc}
use zkas_pool.Base.{
  ℕ, ◌≡◌, Bool, true, List, [], ◌∷◌, ◌++◌, ◌&&◌, Option, none, some, map, max, leb, ltb, arith,
  ◌==◌, if◌then◌else◌, length,
}
use zkas_pool.Base.Results.{Result, ok, err}
use zkas_pool.Base.Table.{Key}

abbrev pub Script : Type 0
Script = List ℕ

pub record TransactionOutpoint : Type 0 where
  pub transaction_id : ℕ
  pub index : ℕ

pub record UtxoEntry : Type 0 where
  pub amount : ℕ
  pub script_public_key : Script
  pub block_daa_score : ℕ
  pub is_coinbase : Bool
  pub covenant_id : Option ℕ

pub record TreasuryUtxo : Type 0 where
  pub outpoint : TransactionOutpoint
  pub entry : UtxoEntry

pub record PayoutRecipient : Type 0 where
  pub id : List ℕ
  pub amount_sompi : ℕ
  pub script_public_key : Script

pub record TxMass : Type 0 where
  pub compute_mass : ℕ
  pub storage_mass : ℕ
  pub transient_mass : ℕ

pub record PlannedBatch : Type 0 where
  pub inputs : List TreasuryUtxo
  pub payouts : List PayoutRecipient
  pub change_amount_sompi : ℕ
  pub mass : TxMass

pub record PlanBatchesResult : Type 0 where
  pub batches : List PlannedBatch
  pub deferred_below_floor : List PayoutRecipient
  pub unpaid : List PayoutRecipient

abbrev pub planning_virtual_txid : ℕ
planning_virtual_txid = 1

unfoldable pub is_planning_virtual : TreasuryUtxo → Bool
is_planning_virtual u = u.outpoint.transaction_id == planning_virtual_txid

pub record TransactionInput : Type 0 where
  pub previous_outpoint : TransactionOutpoint
  pub signature_script : Script
  pub sequence : ℕ
  pub sig_op_count : ℕ

pub record TransactionOutput : Type 0 where
  pub value : ℕ
  pub script_public_key : Script

pub record Transaction : Type 0 where
  pub version : ℕ
  pub inputs : List TransactionInput
  pub outputs : List TransactionOutput
  pub lock_time : ℕ
  pub subnetwork_id : List ℕ
  pub gas : ℕ
  pub payload : List ℕ

-- What is used of the crate kaspa_consensus_core.
pub record Consensus : Type 0 where
  -- `calc_non_contextual_masses`: the compute and the transient mass.
  pub non_contextual : Transaction → ℕ × ℕ
  -- `calc_contextual_masses`: the storage mass.
  pub contextual : Transaction → List UtxoEntry → Option ℕ
  -- `transaction_output_estimated_serialized_size`
  pub output_size : TransactionOutput → ℕ
  -- `MAINNET_PARAMS.prior_block_mass_limits.compute`
  pub prior_compute_limit : ℕ

abbrev pub signed_p2pk_sig_script_len : ℕ
signed_p2pk_sig_script_len = 66

abbrev pub max_standard_tx_mass : ℕ
max_standard_tx_mass = 100_000

abbrev pub min_payout_output_sompi : ℕ
min_payout_output_sompi = 1_900_000

abbrev zeros : ℕ → List ℕ
zeros zero = []
zeros (suc n) = 0 ∷ zeros n

abbrev pub standard_subnetwork : List ℕ
standard_subnetwork = 1 ∷ 2 ∷ 3 ∷ 4 ∷ 5 ∷ 6 ∷ 7 ∷ 8 ∷ 9 ∷ 10 ∷ zeros 10

unfoldable pub tx_input : TreasuryUtxo → TransactionInput
tx_input u = record {
  previous_outpoint = u.outpoint;
  signature_script = zeros signed_p2pk_sig_script_len;
  sequence = 0;
  sig_op_count = 1;
}

unfoldable pub payout_output : PayoutRecipient → TransactionOutput
payout_output p = record { value = p.amount_sompi; script_public_key = p.script_public_key }

unfoldable pub change_output : Script → ℕ → List TransactionOutput
change_output script change =
    if ltb 0 change then record { value = change; script_public_key = script } ∷ [] else []

unfoldable pub build_populated :
    List TreasuryUtxo → List PayoutRecipient → Script → ℕ → Transaction × List UtxoEntry
unfolding tx_input payout_output change_output
build_populated inputs payouts script change = (
  record {
    version = 0;
    inputs = map tx_input inputs;
    outputs = map payout_output payouts ++ change_output script change;
    lock_time = 0;
    subnetwork_id = standard_subnetwork;
    gas = 0;
    payload = [];
  },
  map (λ (u : TreasuryUtxo). u.entry) inputs,
)

unfoldable pub effective : TxMass → ℕ
effective m = max (max m.compute_mass m.storage_mass) m.transient_mass

unfoldable pub fits_independently : TxMass → ℕ → Bool
fits_independently m limit =
    leb m.compute_mass limit && leb m.storage_mass limit && leb m.transient_mass limit

pub data MassEvaluationError : Type 0 where
  input_count_mismatch : ℕ → ℕ → MassEvaluationError
  storage_mass_incomputable : MassEvaluationError

pub record MassEvaluator : Type 0 where
  pub calculator : Consensus
  pub block_mass_limit : ℕ

unfoldable pub mainnet : Consensus → MassEvaluator
mainnet c = record { calculator = c; block_mass_limit = c.prior_compute_limit }

with_storage : ℕ × ℕ → Option ℕ → Result MassEvaluationError TxMass
with_storage (compute, transient) none = err storage_mass_incomputable
with_storage (compute, transient) (some storage) =
    ok (record { compute_mass = compute; storage_mass = storage; transient_mass = transient })

unfoldable pub evaluate_populated :
    MassEvaluator → Transaction × List UtxoEntry → Result MassEvaluationError TxMass
unfolding with_storage
evaluate_populated ev (tx, entries) =
    if length tx.inputs == length entries
    then with_storage (ev.calculator.non_contextual tx) (ev.calculator.contextual tx entries)
    else err (input_count_mismatch (length tx.inputs) (length entries))

-- `.ok()?`, then `.then_some(mass)` under a limit.
unfoldable pub fitting : ℕ → Result MassEvaluationError TxMass → Option TxMass
unfolding fits_independently
fitting limit (err e) = none
fitting limit (ok m) = if fits_independently m limit then some m else none

-- `evaluate_shape` of planner.rs
unfoldable pub evaluate_shape :
    MassEvaluator → List TreasuryUtxo → List PayoutRecipient → Script → ℕ → Option TxMass
unfolding fitting evaluate_populated build_populated
evaluate_shape ev inputs payouts script change =
    fitting ev.block_mass_limit
      (evaluate_populated ev (build_populated inputs payouts script change))

pub fitting-fits :
    (limit : ℕ) (r : Result MassEvaluationError TxMass) {m : TxMass}
    → fitting limit r ≡ some m
    → fits_independently m limit ≡ true
unfolding fitting
fitting-fits limit (err e) h = cc
fitting-fits limit (ok m) h = ground arith

unfoldable pub same_outpoint : TransactionOutpoint → TransactionOutpoint → Bool
same_outpoint a b = a.transaction_id == b.transaction_id && a.index == b.index

pub same_outpoint_sound : (a b : TransactionOutpoint) → same_outpoint a b ≡ true → a ≡ b
unfolding same_outpoint
same_outpoint_sound a b h = ground arith

pub same_outpoint_refl : (a : TransactionOutpoint) → same_outpoint a a ≡ true
unfolding same_outpoint
same_outpoint_refl a = ground arith

abbrev pub outpoint_key : Key TransactionOutpoint
outpoint_key = record {
  same = same_outpoint;
  same_sound = same_outpoint_sound;
  same_refl = same_outpoint_refl;
}
