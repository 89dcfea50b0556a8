-- ===== src/StorageMass/Planner.antt =====
-- crates/katpool-storagemass/src/planner.rs: recipients are packed greedily into batches that fit
-- the mass limits, each funded by the largest coins; the change of a batch may fund later ones.
pub mod Greedy
pub mod Batches
pub mod Partition
pub mod Loop
pub mod Starved
pub mod Coins
pub mod Sums
use zkas_pool.Base.{
  ℕ, zero, suc, ◌+◌, ◌-◌, ◌*◌, min, max, Bool, true, false, not, ◌&&◌, ◌||◌, List, [], ◌∷◌, ◌++◌,
  Option, none, some, ltb, leb, ◌==◌, if◌then◌else◌, length, take, retain, any, get_elem?,
}
use zkas_pool.Base.Results.{Result, ok, err, ◌>>=◌, Panic, overflow, u64_max, u32_max, sum_checked}
use zkas_pool.Base.Sort.{sort_by}
use zkas_pool.Base.Table.{bytes_key}
use zkas_pool.Base.Distinct.{kept_beside}
use zkas_pool.Base.Float.{Float}
use zkas_pool.StorageMass.Mass.{
  Script, TransactionOutpoint, TreasuryUtxo, PayoutRecipient, TxMass, PlannedBatch,
  PlanBatchesResult, MassEvaluator, evaluate_shape, min_payout_output_sompi, planning_virtual_txid,
  outpoint_key,
}
use zkas_pool.StorageMass.Fee.{FeeRate, fee_of, reserves_fee, is_change_dust, saturating_add}

abbrev pub max_outputs_per_input : ℕ
max_outputs_per_input = 10

abbrev pub coin : TreasuryUtxo → ℕ
coin u = u.entry.amount

abbrev pub amount : PayoutRecipient → ℕ
amount r = r.amount_sompi

abbrev pub id_of : PayoutRecipient → List ℕ
id_of r = r.id

abbrev pub outpoint_of : TreasuryUtxo → TransactionOutpoint
outpoint_of u = u.outpoint

abbrev pub is_payable : PayoutRecipient → Bool
is_payable r = leb min_payout_output_sompi r.amount_sompi

abbrev pub Parts : Type 0
Parts = List PayoutRecipient × List PayoutRecipient

unfoldable pub place : PayoutRecipient → Bool → Parts → Parts
place r true parts = (r ∷ parts.0, parts.1)
place r false parts = (parts.0, r ∷ parts.1)

unfoldable pub partition_by_floor : List PayoutRecipient → Parts
unfolding place
partition_by_floor [] = ([], [])
partition_by_floor (r ∷ rs) = place r (is_payable r) (partition_by_floor rs)

unfoldable pub sort_utxos_desc : List TreasuryUtxo → List TreasuryUtxo
sort_utxos_desc = sort_by (λ a b. leb (coin b) (coin a))

unfoldable pub sort_recipients_desc : List PayoutRecipient → List PayoutRecipient
sort_recipients_desc = sort_by (λ a b. leb (amount b) (amount a))

-- `indices.iter().filter_map(|&i| recipients.get(i))`
unfoldable pub pick : List PayoutRecipient → List ℕ → List PayoutRecipient
pick rs [] = []
pick rs (i ∷ is) = elim (get_elem? rs i) [ none ↦ pick rs is | some r ↦ r ∷ pick rs is ]

-- What a round of the search for a batch ends with: more inputs are tried, the search gives up, a
-- subtraction overflows, or there is a batch.
pub data Attempt : Type 0 where
  wider stop overflows : Attempt
  found : PlannedBatch → Attempt

unfoldable pub planning_change_utxo : Script → ℕ → ℕ → TreasuryUtxo
planning_change_utxo script batch_index amount_sompi = record {
  outpoint = record { transaction_id = planning_virtual_txid; index = batch_index };
  entry = record {
    amount = amount_sompi;
    script_public_key = script;
    block_daa_score = 0;
    is_coinbase = false;
    covenant_id = none;
  };
}

unfoldable pub remove_consumed : List TreasuryUtxo → List TreasuryUtxo → List TreasuryUtxo
remove_consumed utxos consumed = retain (kept_beside outpoint_key outpoint_of consumed) utxos

unfoldable pub remove_paid : List PayoutRecipient → List PayoutRecipient → List PayoutRecipient
remove_paid recipients paid = retain (kept_beside bytes_key id_of paid) recipients

-- The variables of the loop of `plan_batches`.
pub record PlanState : Type 0 where
  pub utxos : List TreasuryUtxo
  pub payable : List PayoutRecipient
  pub batches : List PlannedBatch

unfoldable pub add_change : Script → ℕ → ℕ → List TreasuryUtxo → List TreasuryUtxo
unfolding sort_utxos_desc planning_change_utxo
add_change script batch_index change utxos =
    if ltb 0 change && leb batch_index u32_max
    then sort_utxos_desc (utxos ++ planning_change_utxo script batch_index change ∷ [])
    else utxos

unfoldable pub commit_batch : Script → PlanState → PlannedBatch → PlanState
commit_batch script s batch = record {
  utxos =
      add_change script (length s.batches) batch.change_amount_sompi
        (remove_consumed s.utxos batch.inputs);
  payable = remove_paid s.payable batch.payouts;
  batches = s.batches ++ batch ∷ [];
}

abbrev pub is_done : PlanState → Bool
is_done s = elim s.payable [ [] ↦ true | r ∷ rs ↦ elim s.utxos [ [] ↦ true | u ∷ us ↦ false ] ]

unfoldable pub start : List TreasuryUtxo → List PayoutRecipient → PlanState
unfolding sort_utxos_desc sort_recipients_desc partition_by_floor
start utxos recipients = record {
  utxos = sort_utxos_desc utxos;
  payable = sort_recipients_desc (partition_by_floor recipients).0;
  batches = [];
}

unfoldable pub outcome :
    List PayoutRecipient → Result Panic PlanState → Result Panic PlanBatchesResult
outcome deferred (err p) = err p
outcome deferred (ok s) =
    ok (record { batches = s.batches; deferred_below_floor = deferred; unpaid = s.payable })

module _ (fl : Float) (ev : MassEvaluator) (script : Script) (rate : FeeRate fl) where
  module _ (inputs : List TreasuryUtxo) (input_sum : ℕ) (recipients : List PayoutRecipient) where
    -- The recipient is taken if the inputs still cover the fee of the resulting shape.
    unfoldable pub accept_mass : List ℕ → List ℕ → ℕ → Option TxMass → List ℕ
    accept_mass selected candidate candidate_sum none = selected
    accept_mass selected candidate candidate_sum (some mass) =
        if leb (saturating_add candidate_sum (fee_of fl rate mass)) input_sum
        then candidate
        else selected

    unfoldable pub accept : List ℕ → ℕ → ℕ → List ℕ
    unfolding accept_mass
    accept selected idx candidate_sum =
        let candidate = selected ++ idx ∷ [] in
        let payouts = pick recipients candidate in
        if ltb input_sum candidate_sum
        then selected
        else if length payouts == length candidate
        then accept_mass selected candidate candidate_sum
            (evaluate_shape ev inputs payouts script (input_sum - candidate_sum))
        else selected

    unfoldable pub consider : List ℕ → ℕ → PayoutRecipient → Result Panic (List ℕ)
    consider selected idx r = sum_checked u64_max amount 0 (pick recipients selected) >>= λ s.
        ok (accept selected idx (saturating_add s (amount r)))

    abbrev pub max_outputs : ℕ
    max_outputs = max (min (length inputs * max_outputs_per_input) u64_max) 1

    unfoldable pub greedy_loop : List ℕ → ℕ → List PayoutRecipient → Result Panic (List ℕ)
    greedy_loop selected idx [] = ok selected
    greedy_loop selected idx (r ∷ rest) = elim (leb max_outputs (length selected)) [
      | true ↦ ok selected
      | false ↦ consider selected idx r >>= λ s. greedy_loop s (idx + 1) rest
    ]

    unfoldable pub some_chosen : List ℕ → Option (List ℕ)
    some_chosen [] = none
    some_chosen (i ∷ is) = some (i ∷ is)

    unfoldable pub greedy_recipients_for_inputs : Result Panic (Option (List ℕ))
    unfolding some_chosen
    greedy_recipients_for_inputs =
        greedy_loop [] 0 recipients >>= λ selected. ok (some_chosen selected)

    abbrev pub batch_of : List PayoutRecipient → ℕ → TxMass → Attempt
    batch_of payouts change mass =
        found
          (record { inputs = inputs; payouts = payouts; change_amount_sompi = change; mass = mass })

    unfoldable pub without_change : List PayoutRecipient → Option TxMass → Attempt
    without_change payouts none = wider
    without_change payouts (some mass) = batch_of payouts 0 mass

    unfoldable pub drops_change : ℕ → Bool
    drops_change change =
        reserves_fee fl rate && (change == 0 || is_change_dust ev.calculator change script)

    unfoldable pub keep_change : List PayoutRecipient → ℕ → TxMass → Attempt
    unfolding drops_change without_change
    keep_change payouts change gross_mass =
        if drops_change change
        then without_change payouts (evaluate_shape ev inputs payouts script 0)
        else batch_of payouts change gross_mass

    unfoldable pub size_fee : List PayoutRecipient → ℕ → Option TxMass → Attempt
    size_fee payouts payout_sum none = wider
    size_fee payouts payout_sum (some gross_mass) =
        let fee = fee_of fl rate gross_mass in
        if ltb input_sum (saturating_add payout_sum fee)
        then wider
        else if ltb (input_sum - payout_sum) fee
        then overflows
        else keep_change payouts (input_sum - payout_sum - fee) gross_mass

    unfoldable pub size_batch : List ℕ → ℕ → Attempt
    unfolding size_fee
    size_batch selected payout_sum =
        let payouts = pick recipients selected in
        if ltb input_sum payout_sum
        then wider
        else if length payouts == length selected
        then size_fee payouts payout_sum
            (evaluate_shape ev inputs payouts script (input_sum - payout_sum))
        else wider

    unfoldable pub with_selected : Option (List ℕ) → Result Panic Attempt
    with_selected none = ok stop
    with_selected (some []) = ok wider
    with_selected (some (i ∷ is)) =
        sum_checked u64_max amount 0 (pick recipients (i ∷ is)) >>= λ payout_sum.
        ok (size_batch (i ∷ is) payout_sum)

  module _ (utxos : List TreasuryUtxo) (recipients : List PayoutRecipient) where
    -- One round of the `while` of `build_one_batch`.
    unfoldable pub try_inputs : ℕ → Result Panic Attempt
    try_inputs input_count =
        let inputs = take input_count utxos in
        if ltb (length utxos) input_count
        then ok stop
        else sum_checked u64_max coin 0 inputs >>= λ input_sum.
            greedy_recipients_for_inputs inputs input_sum recipients >>= λ selected.
            with_selected inputs input_sum recipients selected

    -- The rounds that are left, and the number of inputs to try.
    unfoldable pub search_batch : ℕ → ℕ → Result Panic (Option PlannedBatch)
    search_batch zero input_count = ok none
    search_batch (suc rounds) input_count = try_inputs input_count >>= λ attempt. elim attempt [
      | wider ↦ search_batch rounds (input_count + 1)
      | stop ↦ ok none
      | overflows ↦ err overflow
      | found batch ↦ ok (some batch)
    ]

    unfoldable pub build_one_batch : Result Panic (Option PlannedBatch)
    build_one_batch = search_batch (length utxos) 1

  -- The `while` of `plan_batches`, by fuel; `none` means that the fuel ran out.
  unfoldable pub plan_loop : ℕ → PlanState → Option (Result Panic PlanState)
  plan_loop zero s = none
  plan_loop (suc fuel) s = elim (is_done s) [
    | true ↦ some (ok s)
    | false ↦ elim (build_one_batch s.utxos s.payable) [
      | err p ↦ some (err p)
      | ok none ↦ some (ok s)
      | ok (some batch) ↦ plan_loop fuel (commit_batch script s batch)
    ]
  ]

  -- Each round pays a recipient, so one round for each and one to stop are enough.
  unfoldable pub plan_batches :
      List TreasuryUtxo → List PayoutRecipient → Option (Result Panic PlanBatchesResult)
  unfolding start outcome
  plan_batches utxos recipients =
      elim (plan_loop (suc (length recipients)) (start utxos recipients)) [
        | none ↦ none
        | some r ↦ some (outcome (partition_by_floor recipients).1 r)
      ]
