-- ===== src/Tests/Kas.antt =====
-- The KAS payout engine over three ticks at concrete inputs.
use zkas_pool.Base.{
  ℕ, ◌+◌, ◌≤◌, ◌≡◌, refl, arith, ◌↔◌, Option, true, false, none, some, List, [], ◌∷◌, length,
}
use zkas_pool.Base.Int.{pos, ◌+ℤ◌}
use zkas_pool.Base.Results.{ok, ok_inj, add_checked, sum_checked}
use zkas_pool.Base.Table.{lookup, insert, remove}
use zkas_pool.Base.Sort.{insert_by, sort_by}
use zkas_pool.Tests.Floats.{fractions}
use zkas_pool.Tests.Masses.{evaluator, coin_of, owed, relay}
use zkas_pool.Zkas.World.{Reply, done, live}
use zkas_pool.Base.Decimal.{to_decimal, digits_before}
use zkas_pool.Zkas.Db.{
  Payout, PayoutStatus, PayoutCycleStatus, is_planned, is_confirmed, is_failed, update, submit,
  address_of,
}
use zkas_pool.Zkas.Plan.{
  find_cycle, same_key, allocated_sompi, ensure_payout, has_payout, set_cycle_totals, richer,
}
use zkas_pool.Zkas.Cycle.{mark_cycle}
use zkas_pool.StorageMass.Mass.{
  Script, TreasuryUtxo, PlannedBatch, evaluate_shape, evaluate_populated, fitting, build_populated,
  is_planning_virtual, same_outpoint, payout_output, change_output, tx_input, effective,
  fits_independently,
}
use zkas_pool.StorageMass.Fee.{
  from_feerate, fee_of, fee_for, reserves_fee, is_change_dust, minimum_relay_fee,
}
use zkas_pool.StorageMass.Planner.{
  pick, accept, consider, greedy_loop, greedy_recipients_for_inputs, keep_change, size_batch,
  with_selected, try_inputs, search_batch, build_one_batch, remove_consumed, remove_paid,
  add_change, commit_batch, plan_loop, start, plan_batches, partition_by_floor, place,
}
use zkas_pool.Kas.World.{World, query, write}
use zkas_pool.Kas.Confirm.{classify_confirmation, is_spendable}
use zkas_pool.Kas.Sign.{
  Signer, SignedBatch, sign_batch_with_exact_fee, sign_batch, build_unsigned, unsigned_tx,
  lift_sign, lift_mass, lift_panic, change_left, without_dust, adjust,
}
use zkas_pool.Kas.Broadcast.{
  Node, broadcast_cycle, pending, gather, broadcast_gathered, in_flight_spend_tx_hashes, spendable,
  rows_of, mark_submitted, send_batches, send_batch, submit_signed, note_start,
}
use zkas_pool.Kas.Cycle.{
  plan_kas_cycle, plan_kas_rows, create_kas_cycle, ensure_wallets, list_kas_eligible_wallets,
  kas_eligible_of, kas_paid, in_kas_cycle, before_row, list_for_cycle, get_cycle, reconciled,
  derive_cycle_status, from_payouts, count_all,
}
use zkas_pool.Kas.Engine.{
  PayoutEngineConfig, Answers, run_ticks, run_once, run_locked, resume_or_plan_kas_cycle,
  plan_and_load, kas_window, drive_cycle, load_cycle, confirm_cycle, confirm_rows, confirm_row,
  advance, change_daa, in_flight_rows, reconcile_cycle_status,
}
use zkas_pool.Kas.Sign.Pays.{PaysWhole, sign_batch_with_exact_fee-PaysWhole}
use zkas_pool.Kas.Cycle.Status.{Each, derived_status_lem}
use zkas_pool.Kas.Safety.{paid, Safe}
use zkas_pool.Kas.Safety.Ticks.{kas_paid_once}

abbrev signer : Signer
signer = record {
  tx_version = 0;
  native_subnetwork = [];
  seal = λ t es. ok t;
  tx_id = λ t. 700 + length t.outputs;
  seal_pays = λ t es h. rw (ok_inj h) (refl, refl);
}

-- One miner is owed 5_000_000 sompi, and no cycle is planned.
abbrev owing : World
owing = record {
  store = record {
    wallets = (1, 4 ∷ []) ∷ [];
    credits = (1, 5_000_000) ∷ [];
    cycles = [];
    payouts = [];
    next_cycle = 0;
    next_payout = 0;
    inflight = none;
    cursor = none;
  };
  log = [];
  calls = 0;
}

abbrev node : Node fractions
node = record {
  virtual_daa_score = some 20_000;
  treasury_utxos = some (coin_of 0 3_000_000 ∷ coin_of 1 10_000_000 ∷ []);
  fee_estimate = some (0, 1);
  in_mempool = λ h. some false;
  krc20_hashes = [];
}

abbrev answers : Answers fractions
answers = record { at_start = some 20_000; broadcasting = node; confirming = node }

abbrev config : PayoutEngineConfig
config = record {
  cycle_span_daa = 3_600;
  threshold_sompi = pos 1;
  max_payout_sompi_per_cycle = none;
  mode = live;
}

abbrev reply : ℕ → Reply
reply n = done

abbrev addresses : List ℕ → Option Script
addresses a = some a

owing-Safe : Safe 0 owing
owing-Safe = record { once = omega arith; fresh = λ le. refl }

abbrev three_ticks : World
three_ticks =
    run_ticks reply addresses fractions signer evaluator (9 ∷ []) (λ log tx. true) config
      ((true, answers) ∷ (false, answers) ∷ (true, answers) ∷ []) owing

kas_paid_once_example : paid 0 three_ticks.log ≤ 1
kas_paid_once_example =
    kas_paid_once 0 reply addresses fractions signer evaluator (9 ∷ []) (λ log tx. true) config
      ((true, answers) ∷ (false, answers) ∷ (true, answers) ∷ []) owing owing-Safe

-- The chain in the next window, with the payout on its way still
abbrev next_window : Answers fractions
next_window =
    let coins : List TreasuryUtxo = coin_of 2 10_000_000 ∷ [] in
    let next : Node fractions = record node {
      virtual_daa_score = some 21_700;
      treasury_utxos = some coins;
    } in
    record { at_start = some 21_700; broadcasting = next; confirming = next }

abbrev two_windows : World
two_windows =
    run_ticks reply addresses fractions signer evaluator (9 ∷ []) (λ log tx. true) config
      ((true, answers) ∷ (true, next_window) ∷ []) owing

-- Within a window the credit is paid once, and again in the next one.
runs_pay :
    (paid 0 three_ticks.log ≡ 1) × (paid 0 two_windows.log ≡ 1) × (paid 1 two_windows.log ≡ 1)
unfolding run_ticks run_once run_locked resume_or_plan_kas_cycle plan_and_load query write
    find_cycle plan_kas_cycle plan_kas_rows create_kas_cycle ensure_wallets
    list_kas_eligible_wallets kas_eligible_of kas_paid kas_window sort_by insert_by allocated_sompi
    ◌+ℤ◌ ensure_payout get_cycle set_cycle_totals list_for_cycle drive_cycle broadcast_cycle pending
    gather broadcast_gathered in_flight_spend_tx_hashes spendable is_spendable rows_of
    mark_submitted send_batches send_batch submit_signed note_start sign_batch_with_exact_fee
    sign_batch build_unsigned unsigned_tx lift_sign lift_mass lift_panic change_left without_dust
    adjust load_cycle confirm_cycle confirm_rows confirm_row advance change_daa in_flight_rows
    classify_confirmation reconcile_cycle_status reconciled derive_cycle_status from_payouts
    count_all update submit mark_cycle address_of lookup insert remove to_decimal plan_batches
    plan_loop commit_batch remove_paid remove_consumed add_change build_one_batch search_batch
    try_inputs with_selected size_batch keep_change greedy_recipients_for_inputs greedy_loop
    consider accept pick evaluate_shape evaluate_populated build_populated fitting fee_of
    from_feerate sum_checked add_checked start partition_by_floor place is_change_dust payout_output
    change_output tx_input digits_before minimum_relay_fee fee_for reserves_fee effective
    fits_independently richer before_row same_key has_payout in_kas_cycle same_outpoint
    is_planning_virtual
runs_pay = (refl, refl, refl)

abbrev batch : PlannedBatch
batch = record {
  inputs = coin_of 1 10_000_000 ∷ [];
  payouts = owed 4 5_000_000 ∷ owed 1 4_000_000 ∷ [];
  change_amount_sompi = 987_000;
  mass = record { compute_mass = 130; storage_mass = 0; transient_mass = 0 };
}

abbrev signed : SignedBatch
signed = record {
  tx = unsigned_tx signer (9 ∷ []) batch;
  entries = (coin_of 1 10_000_000).entry ∷ [];
}

signing_runs : sign_batch_with_exact_fee signer (9 ∷ []) fractions evaluator relay batch ≡ ok signed
unfolding sign_batch_with_exact_fee sign_batch build_unsigned unsigned_tx lift_sign lift_mass
    lift_panic change_left without_dust adjust evaluate_populated from_feerate fee_for
    minimum_relay_fee reserves_fee is_change_dust payout_output change_output sum_checked
    add_checked is_planning_virtual effective
signing_runs = refl

sign_batch_with_exact_fee-PaysWhole_example :
    PaysWhole signer (9 ∷ []) fractions evaluator relay batch signed
sign_batch_with_exact_fee-PaysWhole_example =
    sign_batch_with_exact_fee-PaysWhole signer (9 ∷ []) fractions evaluator relay batch
      (omega arith) signing_runs

abbrev row : ℕ → PayoutStatus → Payout
row i s = record {
  id = i;
  cycle_id = 0;
  wallet_id = i;
  amount_sompi = pos 5;
  status = s;
  tx_hash = none;
  accepted_daa_score = none;
}

-- One row is confirmed and the other has failed: the cycle is none of the three.
abbrev mixed : List Payout
mixed = row 0 PayoutStatus.confirmed ∷ row 1 PayoutStatus.failed ∷ []

derived_status_lem_example :
    (derive_cycle_status (from_payouts mixed) ≡ PayoutCycleStatus.settled
      ↔ (1 ≤ length mixed) × Each is_confirmed mixed)
    × (derive_cycle_status (from_payouts mixed) ≡ PayoutCycleStatus.failed
        ↔ (1 ≤ length mixed) × Each is_failed mixed)
    × (derive_cycle_status (from_payouts mixed) ≡ PayoutCycleStatus.planned ↔ Each is_planned mixed)
derived_status_lem_example = derived_status_lem mixed
