-- ===== src/Tests/Masses.antt =====
-- The planners of crates/katpool-storagemass at concrete inputs.
use mathlib.Core.List.{Perm}
use zkas_pool.Base.Distinct.{Distinct, Sub}
use zkas_pool.Base.{
  ℕ, zero, suc, min, retain, ◌⊎◌, ◌+◌, ◌*◌, ◌≤◌, ◌≡◌, ◌≢◌, refl, arith, true, false, none, some,
  List, [], ◌∷◌, ◌++◌, length, All, leb,
}
use zkas_pool.Base.Results.{ok, add_checked, sum_checked}
use zkas_pool.Base.Sort.{insert_by, sort_by}
use zkas_pool.Tests.Floats.{fractions}
use zkas_pool.StorageMass.Mass.{
  TreasuryUtxo, PayoutRecipient, Consensus, MassEvaluator, PlannedBatch, PlanBatchesResult,
  evaluate_shape, evaluate_populated, fitting, build_populated, is_planning_virtual, same_outpoint,
}
use zkas_pool.StorageMass.Fee.{
  FeeRate, from_feerate, fee_of, fee_for, fee_of-live, reserves_fee, is_change_dust,
}
use zkas_pool.StorageMass.Planner.{
  pick, accept, consider, greedy_loop, greedy_recipients_for_inputs, keep_change, size_batch,
  with_selected, try_inputs, search_batch, build_one_batch, remove_consumed, remove_paid,
  add_change, commit_batch, plan_loop, start, plan_batches, partition_by_floor, place,
  sort_recipients_desc, id_of, outpoint_of,
}
use zkas_pool.StorageMass.Planner.Partition.{paid_of}
use zkas_pool.StorageMass.Planner.Loop.{plan_batches-partition, plan_batches_total}
use zkas_pool.StorageMass.Planner.Coins.{spent_of, plan_batches-spends_once}
use zkas_pool.StorageMass.Planner.Starved.{plan_batches-starved}
use zkas_pool.StorageMass.Consolidation.{
  sort_utxos_asc, is_real, narrow, chunks, evaluate_self_send, fits_prefix, fits_at,
  max_inputs_that_fit, merge, merge_chunks, merge_sorted, plan_consolidation,
}
use zkas_pool.StorageMass.Consolidation.Search.{Greatest, max_inputs_that_fit-Greatest}
use zkas_pool.StorageMass.Consolidation.Merges.{IsMerge, plan_consolidation-AreMerges}

-- A transaction weighs 100 for each input and 10 for each output.
abbrev weighing : Consensus
weighing = record {
  non_contextual = λ tx. (100 * length tx.inputs + 10 * length tx.outputs, 0);
  contextual = λ tx entries. some 0;
  output_size = λ o. 52;
  prior_compute_limit = 500_000;
}

abbrev pub evaluator : MassEvaluator
evaluator = record { calculator = weighing; block_mass_limit = 500_000 }

abbrev pub coin_of : ℕ → ℕ → TreasuryUtxo
coin_of i n = record {
  outpoint = record { transaction_id = 7; index = i };
  entry = record {
    amount = n;
    script_public_key = 9 ∷ [];
    block_daa_score = 5;
    is_coinbase = false;
    covenant_id = none;
  };
}

abbrev pub owed : ℕ → ℕ → PayoutRecipient
owed i n = record { id = i ∷ []; amount_sompi = n; script_public_key = i ∷ [] }

abbrev pub relay : FeeRate fractions
relay = from_feerate fractions (0, 1)

abbrev coins : List TreasuryUtxo
coins = coin_of 0 3_000_000 ∷ coin_of 1 10_000_000 ∷ []

abbrev miners : List PayoutRecipient
miners = owed 1 4_000_000 ∷ owed 2 1_000_000 ∷ owed 3 50_000_000 ∷ owed 4 5_000_000 ∷ []

abbrev planned : PlanBatchesResult
planned = record {
  batches =
      record {
        inputs = coin_of 1 10_000_000 ∷ [];
        payouts = owed 4 5_000_000 ∷ owed 1 4_000_000 ∷ [];
        change_amount_sompi = 987_000;
        mass = record { compute_mass = 130; storage_mass = 0; transient_mass = 0 };
      }
      ∷ [];
  deferred_below_floor = owed 2 1_000_000 ∷ [];
  unpaid = owed 3 50_000_000 ∷ [];
}

-- The largest coin pays the two that it can; what is left goes to nobody.
plan_runs : plan_batches fractions evaluator (9 ∷ []) relay coins miners ≡ some (ok planned)
unfolding plan_batches plan_loop commit_batch remove_paid remove_consumed add_change build_one_batch
    search_batch try_inputs with_selected size_batch keep_change greedy_recipients_for_inputs
    greedy_loop consider accept pick evaluate_shape evaluate_populated build_populated fitting
    fee_of from_feerate sort_by insert_by sum_checked add_checked start partition_by_floor place
    is_change_dust same_outpoint
plan_runs = refl

miners_differ : Distinct id_of miners
miners_differ = (
  (λ e. cc (e), (λ e. cc (e), (λ e. cc (e), tt))),
  ((λ e. cc (e), (λ e. cc (e), tt)), ((λ e. cc (e), tt), (tt, tt))),
)

coins_differ : Distinct outpoint_of coins
coins_differ = ((λ e. cc (e), tt), (tt, tt))

real_coins : All (λ u. is_planning_virtual u ≡ false) coins
unfolding is_planning_virtual
real_coins = (refl, (refl, tt))

plan_batches-partition_example :
    Perm (paid_of planned.batches ++ planned.unpaid ++ planned.deferred_below_floor) miners
plan_batches-partition_example =
    plan_batches-partition fractions evaluator (9 ∷ []) relay coins miners miners_differ plan_runs

plan_batches_total_example : plan_batches fractions evaluator (9 ∷ []) relay coins miners ≢ none
plan_batches_total_example = plan_batches_total fractions evaluator (9 ∷ []) relay coins miners

plan_batches-spends_once_example :
    Distinct outpoint_of (spent_of planned.batches)
    × All
        (λ u. is_planning_virtual u ≡ false → u.outpoint.transaction_id ≡ 7)
        (spent_of planned.batches)
plan_batches-spends_once_example =
    plan_batches-spends_once fractions evaluator (9 ∷ []) relay (λ u. u.outpoint.transaction_id ≡ 7)
      coins miners coins_differ real_coins (refl, (refl, tt)) plan_runs

-- Two coins of 5 together cover a payout of 8, and are not tried together.
plan_batches-starved_example :
    plan_batches fractions evaluator
      (9 ∷ [])
      relay
      (coin_of 0 5_000_000 ∷ coin_of 1 5_000_000 ∷ [])
      (owed 1 8_000_000 ∷ [])
    ≡ some (
        ok (record {
          batches = [];
          deferred_below_floor = (partition_by_floor (owed 1 8_000_000 ∷ [])).1;
          unpaid = sort_recipients_desc (partition_by_floor (owed 1 8_000_000 ∷ [])).0;
        }))
plan_batches-starved_example =
    plan_batches-starved fractions evaluator (9 ∷ []) relay 5_000_000
      (coin_of 0 5_000_000 ∷ coin_of 1 5_000_000 ∷ []) (owed 1 8_000_000 ∷ []) (omega arith)
      (omega arith, (omega arith, tt)) ((omega arith, omega arith), tt)

-- Three coins and up to two inputs: the smallest two are merged.
abbrev merged_batch : PlannedBatch
merged_batch = record {
  inputs = coin_of 2 2_000_000 ∷ coin_of 0 3_000_000 ∷ [];
  payouts = [];
  change_amount_sompi = 5_000_000;
  mass = record { compute_mass = 210; storage_mass = 0; transient_mass = 0 };
}

abbrev some_coins : List TreasuryUtxo
some_coins = coin_of 0 3_000_000 ∷ coin_of 1 10_000_000 ∷ coin_of 2 2_000_000 ∷ []

consolidation_runs :
    plan_consolidation fractions evaluator (9 ∷ []) relay 5 some_coins 2 ≡ ok (merged_batch ∷ [])
unfolding plan_consolidation merge_sorted merge_chunks merge chunks max_inputs_that_fit fits_at
    fits_prefix narrow evaluate_self_send evaluate_populated build_populated fitting fee_for
    from_feerate reserves_fee sort_by insert_by sum_checked add_checked is_planning_virtual
consolidation_runs = refl

plan_consolidation-AreMerges_example :
    All (IsMerge fractions evaluator (9 ∷ []) relay 5 2) (merged_batch ∷ [])
    × (length (merged_batch ∷ []) ≤ 5)
    × Sub (spent_of (merged_batch ∷ [])) (sort_utxos_asc (retain is_real some_coins))
plan_consolidation-AreMerges_example =
    plan_consolidation-AreMerges fractions evaluator (9 ∷ []) relay 5 some_coins 2
      consolidation_runs

fits_three : (n : ℕ) → n ≤ 2 → fits_at evaluator (9 ∷ []) some_coins n ≡ ok (leb n 400)
unfolding fits_at fits_prefix evaluate_self_send evaluate_populated build_populated fitting
    sum_checked add_checked
fits_three zero h = refl
fits_three (suc zero) h = refl
fits_three (suc (suc zero)) h = refl
fits_three (suc (suc (suc n))) h = absurd (omega arith)

up_to_400 : (a b : ℕ) → a ≤ b → leb b 400 ≡ true → leb a 400 ≡ true
up_to_400 a b le h = ground arith

max_inputs_that_fit-Greatest_example :
    (k : ℕ) × (max_inputs_that_fit evaluator (9 ∷ []) some_coins 2 ≡ ok k)
    × (((k ≡ 0) × ((min 2 (length some_coins) ≡ 0) ⊎ (leb 1 400 ≡ false)))
        ⊎ Greatest (λ n. leb n 400) 1 (min 2 (length some_coins)) k)
max_inputs_that_fit-Greatest_example =
    max_inputs_that_fit-Greatest evaluator (9 ∷ []) some_coins 2 (λ n. leb n 400) up_to_400
      fits_three

fee_of-live_example :
    (100 * 100
      ≤ fee_of fractions
          (from_feerate fractions (1, 2))
          (record { compute_mass = 100; storage_mass = 3; transient_mass = 4 }))
    × (reserves_fee fractions (from_feerate fractions (1, 2)) ≡ true)
fee_of-live_example =
    fee_of-live fractions (1, 2)
      (record { compute_mass = 100; storage_mass = 3; transient_mass = 4 }) (omega arith)
