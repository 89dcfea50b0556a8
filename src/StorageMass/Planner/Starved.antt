-- ===== src/StorageMass/Planner/Starved.antt =====
-- planner.rs, `build_one_batch`: the search gives up when the first coin alone pays nobody, since the
-- selection of nobody is `None` and the `?` after it returns.
use zkas_pool.Base.{
  ℕ, suc, ◌+◌, ◌≤◌, ◌<◌, ◌≡◌, refl, ap, Bool, true, false, List, [], ◌∷◌, Option, none, some, arith,
  leb, length, All,
}
use zkas_pool.Base.Results.{Result, Panic, ok, err, ◌>>=◌, u64_max, sum_checked, add_checked}
use zkas_pool.Base.Sort.{sort_by-All}
use zkas_pool.Base.Float.{Float}
use zkas_pool.StorageMass.Mass.{
  Script, TreasuryUtxo, PayoutRecipient, PlannedBatch, PlanBatchesResult, MassEvaluator,
}
use zkas_pool.StorageMass.Fee.{FeeRate}
use zkas_pool.StorageMass.Planner.{
  amount, coin, pick, accept, consider, greedy_loop, greedy_recipients_for_inputs, with_selected,
  try_inputs, search_batch, build_one_batch, partition_by_floor, sort_recipients_desc,
  sort_utxos_desc, PlanState, commit_batch, start, outcome, is_done, plan_loop, plan_batches,
  max_outputs,
}
use zkas_pool.StorageMass.Planner.Partition.{partition-All}

-- Amounts of the type `u64`, each above what one coin holds.
abbrev pub Above : ℕ → PayoutRecipient → Type 0
Above n r = (n < amount r) × (amount r ≤ u64_max)

module _ (fl : Float) (ev : MassEvaluator) (script : Script) (rate : FeeRate fl) where
  module _ (inputs : List TreasuryUtxo) (input_sum : ℕ) (recipients : List PayoutRecipient) where
    consider-Above :
        (idx : ℕ) (r : PayoutRecipient)
        → Above input_sum r
        → consider fl ev script rate inputs input_sum recipients [] idx r ≡ ok []
    unfolding consider accept pick sum_checked
    consider-Above idx r h = ground arith

    greedy_loop-Above :
        (idx : ℕ) (rest : List PayoutRecipient)
        → All (Above input_sum) rest
        → greedy_loop fl ev script rate inputs input_sum recipients [] idx rest ≡ ok []
    unfolding greedy_loop
    greedy_loop-Above idx [] h = refl
    greedy_loop-Above idx (r ∷ rest) h =
        split (consider-Above idx r h.0) (greedy_loop-Above (idx + 1) rest h.1)
          (leb (max_outputs fl ev script rate inputs input_sum recipients) 0)
      where
        split :
            consider fl ev script rate inputs input_sum recipients [] idx r ≡ ok []
            → greedy_loop fl ev script rate inputs input_sum recipients [] (idx + 1) rest ≡ ok []
            → (b : Bool)
            → (elim b [
              | true ↦ ok []
              | false ↦ consider fl ev script rate inputs input_sum recipients [] idx r >>= λ s.
                  greedy_loop fl ev script rate inputs input_sum recipients s (idx + 1) rest
            ])
              ≡ ok []
        split c ih true = refl
        split c ih false = rw c ih

    greedy-Above :
        All (Above input_sum) recipients
        → greedy_recipients_for_inputs fl ev script rate inputs input_sum recipients ≡ ok none
    unfolding greedy_recipients_for_inputs
    greedy-Above h = rw (greedy_loop-Above 0 recipients h) refl

  -- Whatever the other coins hold.
  build_one_batch-Above :
      (u : TreasuryUtxo) (us : List TreasuryUtxo) (recipients : List PayoutRecipient)
      → All (Above (coin u)) recipients
      → coin u ≤ u64_max
      → build_one_batch fl ev script rate (u ∷ us) recipients ≡ ok none
  unfolding build_one_batch search_batch try_inputs with_selected sum_checked add_checked
  build_one_batch-Above u us recipients h le =
      ground (arith, greedy-Above (u ∷ []) (coin u) recipients h)

  Above-below : (n k : ℕ) (rs : List PayoutRecipient) → k ≤ n → All (Above n) rs → All (Above k) rs
  Above-below n k [] le h = tt
  Above-below n k (r ∷ rs) le h = ((omega arith, h.0.1), Above-below n k rs le h.1)

  build-Above :
      (n : ℕ) (utxos : List TreasuryUtxo) (recipients : List PayoutRecipient)
      → n ≤ u64_max
      → All (λ u. coin u ≤ n) utxos
      → All (Above n) recipients
      → build_one_batch fl ev script rate utxos recipients ≡ ok none
  unfolding build_one_batch search_batch
  build-Above n [] recipients top small above = refl
  build-Above n (u ∷ us) recipients top small above =
      build_one_batch-Above u us recipients (Above-below n (coin u) recipients small.0 above)
        (omega arith)

  plan_loop-stopped :
      (fuel : ℕ) (s : PlanState)
      → build_one_batch fl ev script rate s.utxos s.payable ≡ ok none
      → plan_loop fl ev script rate (suc fuel) s ≡ some (ok s)
  unfolding plan_loop
  plan_loop-stopped fuel s e =
      split (is_done s) (build_one_batch fl ev script rate s.utxos s.payable) e
    where
      split :
          (over : Bool)
          → (m : Result Panic (Option PlannedBatch)) → m ≡ ok none
          → ◌≡◌ {A = Option (Result Panic PlanState)}
              (elim over [
                | true ↦ some (ok s)
                | false ↦ elim m [
                  | err p ↦ some (err p)
                  | ok none ↦ some (ok s)
                  | ok (some batch) ↦ plan_loop fl ev script rate fuel (commit_batch script s batch)
                ]
              ])
              (some (ok s))
      split true m e = refl
      split false (err p) e = cc
      split false (ok none) e = refl
      split false (ok (some batch)) e = cc

  -- Where each recipient is owed more than any one coin holds, nobody is paid, even if a few coins
  -- together would cover all of it: the plan has no batch, and all above the floor stay unpaid.
  pub plan_batches-starved :
      (n : ℕ) (utxos : List TreasuryUtxo) (rs : List PayoutRecipient)
      → n ≤ u64_max
      → All (λ u. coin u ≤ n) utxos
      → All (Above n) rs
      → plan_batches fl ev script rate utxos rs
        ≡ some (
            ok (record {
              batches = [];
              deferred_below_floor = (partition_by_floor rs).1;
              unpaid = sort_recipients_desc (partition_by_floor rs).0;
            }))
  unfolding plan_batches start sort_utxos_desc sort_recipients_desc outcome
  plan_batches-starved n utxos rs top small above =
      ap
        (λ (o : Option (Result Panic PlanState)).
          elim o as (λ _. Option (Result Panic PlanBatchesResult)) [
            | none ↦ none
            | some r ↦ some (outcome (partition_by_floor rs).1 r)
          ])
        (plan_loop-stopped (length rs) (start utxos rs) (
          build-Above n (sort_utxos_desc utxos) (sort_recipients_desc (partition_by_floor rs).0) top
            (sort_by-All (λ a b. leb (coin b) (coin a)) (λ u. coin u ≤ n) utxos small)
            (sort_by-All (λ a b. leb (amount b) (amount a)) (Above n) (partition_by_floor rs).0
              (partition-All (Above n) rs above))))
