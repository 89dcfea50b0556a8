-- ===== src/StorageMass/Planner/Loop.antt =====
-- planner.rs, `plan_batches` as a whole.
use mathlib.Core.List.{append_assoc, Perm, perm-append_left_iff}
use mathlib.Core.List.Perm
use zkas_pool.Base.{
  ℕ, zero, suc, ◌+◌, ◌≤◌, ◌<◌, ◌≡◌, ◌≢◌, refl, Bool, true, false, List, [], ◌∷◌, ◌++◌, Option, none,
  some, arith, length, sum_by, retain, All, leb,
}
use zkas_pool.Base.Results.{Result, Panic, ok, err, OnOk}
use zkas_pool.Base.Sort.{sort_by-perm, sort_by-length}
use zkas_pool.Base.Table.{bytes_key}
use zkas_pool.Base.Distinct.{
  Distinct, Distinct-retain, Distinct-sort_by, Sub, kept_beside, Sub-retain-perm, kept_beside-first,
}
use zkas_pool.Base.Float.{Float}
use zkas_pool.StorageMass.Mass.{
  Script, TreasuryUtxo, PayoutRecipient, PlannedBatch, PlanBatchesResult, MassEvaluator,
  fits_independently, TxMass, fitting, evaluate_populated, build_populated,
}
use zkas_pool.StorageMass.Fee.{FeeRate, fee_of, reserves_fee, is_change_dust}
use zkas_pool.StorageMass.Planner.{
  id_of, amount, coin, partition_by_floor, sort_recipients_desc, remove_paid, PlanState,
  commit_batch, is_done, build_one_batch, plan_loop, start, outcome, plan_batches,
}
use zkas_pool.StorageMass.Planner.Batches.{Built, build_one_batch-Built}
use zkas_pool.StorageMass.Planner.Partition.{
  paid_of, paid_of-snoc, partition-perm, partition-Distinct, partition-length, length-retain-lt,
  AtEnd, plan_loop-AtEnd,
}

module _ (fl : Float) (ev : MassEvaluator) (script : Script) (rate : FeeRate fl) where
  -- Who is paid or waits, in the end as at first, and the ids still differ.
  record SamePeople (people : List PayoutRecipient) (s : PlanState) : Type 0 where
    pub same : Perm (paid_of s.batches ++ s.payable) people
    pub distinct : Distinct id_of s.payable

  commit_batch-SamePeople :
      (people : List PayoutRecipient) (s : PlanState) (b : PlannedBatch)
      → SamePeople people s
      → Built fl ev script rate s.utxos s.payable (some b)
      → SamePeople people (commit_batch script s b)
  unfolding commit_batch remove_paid
  commit_batch-SamePeople people s b h (k, pos, sound) =
      let kept = retain (kept_beside bytes_key id_of b.payouts) s.payable in
      record {
        same =
            rw (paid_of-snoc s.batches b, append_assoc (paid_of s.batches) b.payouts kept)
              (Perm.trans
                ((perm-append_left_iff (paid_of s.batches)).1
                  (Sub-retain-perm bytes_key id_of sound.chosen h.distinct))
                h.same);
        distinct =
            Distinct-retain id_of (kept_beside bytes_key id_of b.payouts) s.payable h.distinct;
      }

  start-SamePeople :
      (utxos : List TreasuryUtxo) (rs : List PayoutRecipient)
      → Distinct id_of rs
      → SamePeople (partition_by_floor rs).0 (start utxos rs)
  unfolding start sort_recipients_desc
  start-SamePeople utxos rs d = record {
    same = sort_by-perm _ (partition_by_floor rs).0;
    distinct = Distinct-sort_by id_of _ (partition_by_floor rs).0 (partition-Distinct rs d);
  }

  -- The loop of a plan that returned ended in a state with the batches and the unpaid of the result.
  pub plan_batches-inv {κ} :
      (P : PlanState → Type κ) (utxos : List TreasuryUtxo) (rs : List PayoutRecipient)
      {r : PlanBatchesResult}
      → AtEnd fl ev script rate P (plan_loop fl ev script rate (suc (length rs)) (start utxos rs))
      → plan_batches fl ev script rate utxos rs ≡ some (ok r)
      → (s : PlanState) × P s
        × (r.batches ≡ s.batches)
        × (r.unpaid ≡ s.payable)
        × (r.deferred_below_floor ≡ (partition_by_floor rs).1)
  unfolding plan_batches outcome
  plan_batches-inv P utxos rs {r} =
      split (plan_loop fl ev script rate (suc (length rs)) (start utxos rs))
    where
      split :
          (o : Option (Result Panic PlanState))
          → AtEnd fl ev script rate P o
          → (elim o [ none ↦ none | some q ↦ some (outcome (partition_by_floor rs).1 q) ])
            ≡ some (ok r)
          → (s : PlanState) × P s
            × (r.batches ≡ s.batches)
            × (r.unpaid ≡ s.payable)
            × (r.deferred_below_floor ≡ (partition_by_floor rs).1)
      split none a h = cc
      split (some (err p)) a h = cc
      split (some (ok s)) a h = (s, a, ground arith, ground arith, ground arith)

  -- With recipients of different ids, a plan that returns divides them: each is paid by one batch
  -- and once, is below the floor, or is left unpaid, and nobody else is.
  pub plan_batches-partition :
      (utxos : List TreasuryUtxo) (rs : List PayoutRecipient) {r : PlanBatchesResult}
      → Distinct id_of rs
      → plan_batches fl ev script rate utxos rs ≡ some (ok r)
      → Perm (paid_of r.batches ++ r.unpaid ++ r.deferred_below_floor) rs
  plan_batches-partition utxos rs {r} d e =
      let (s, h, b, u, f) =
        plan_batches-inv (SamePeople (partition_by_floor rs).0) utxos rs {r = r}
          (plan_loop-AtEnd fl ev script rate (SamePeople (partition_by_floor rs).0)
            (commit_batch-SamePeople (partition_by_floor rs).0) (suc (length rs)) (start utxos rs)
            (start-SamePeople utxos rs d))
          e in
      rw (b, u, f)
        (Perm.trans (Perm.append_right (partition_by_floor rs).1 h.same) (partition-perm rs))

  -- The mass of the transaction of a batch with such a change, where it fits the limit.
  abbrev pub measure : PlannedBatch → ℕ → Option TxMass
  measure b change =
      fitting ev.block_mass_limit
        (evaluate_populated ev (build_populated b.inputs b.payouts script change))

  -- What is right about a batch by itself.
  pub record Settles (b : PlannedBatch) : Type 0 where
    pub pays : 0 < length b.payouts
    pub fits : fits_independently b.mass ev.block_mass_limit ≡ true
    pub measured :
        0 < b.change_amount_sompi
        → measure b (b.change_amount_sompi + fee_of fl rate b.mass) ≡ some b.mass
    pub remeasured : b.change_amount_sompi ≡ 0 → measure b 0 ≡ some b.mass
    pub covered : sum_by amount b.payouts + b.change_amount_sompi ≤ sum_by coin b.inputs
    pub exact_fee :
        0 < b.change_amount_sompi
        → sum_by coin b.inputs
          ≡ sum_by amount b.payouts + b.change_amount_sompi + fee_of fl rate b.mass
    pub no_dust :
        reserves_fee fl rate ≡ true
        → 0 < b.change_amount_sompi
        → is_change_dust ev.calculator b.change_amount_sompi script ≡ false

  AllSettle : PlanState → Type 0
  AllSettle s = All Settles s.batches

  commit_batch-length :
      (s : PlanState) (b : PlannedBatch)
      → Built fl ev script rate s.utxos s.payable (some b)
      → length (commit_batch script s b).payable < length s.payable
  unfolding commit_batch remove_paid
  commit_batch-length s b (k, pos, sound) = shorter b.payouts sound.chosen sound.pays
    where
      shorter :
          (ps : List PayoutRecipient)
          → Sub ps s.payable
          → 0 < length ps
          → length (retain (kept_beside bytes_key id_of ps) s.payable) < length s.payable
      shorter [] c p = elim p [ ]
      shorter (q ∷ qs) c p =
          length-retain-lt (kept_beside bytes_key id_of (q ∷ qs)) q c
            (kept_beside-first bytes_key id_of q qs)

  plan_loop-ne-none :
      (fuel : ℕ) (s : PlanState)
      → length s.payable < fuel
      → plan_loop fl ev script rate fuel s ≢ none
  unfolding plan_loop
  plan_loop-ne-none zero s h = elim h [ ]
  plan_loop-ne-none (suc fuel) s h =
      split (λ t. plan_loop-ne-none fuel t) (is_done s)
        (build_one_batch fl ev script rate s.utxos s.payable)
        (build_one_batch-Built fl ev script rate s.utxos s.payable)
    where
      split :
          ((t : PlanState) → length t.payable < fuel → plan_loop fl ev script rate fuel t ≢ none)
          → (over : Bool) → (m : Result Panic (Option PlannedBatch))
          → OnOk (Built fl ev script rate s.utxos s.payable) m
          → (elim over [
            | true ↦ some (ok s)
            | false ↦ elim m [
              | err p ↦ some (err p)
              | ok none ↦ some (ok s)
              | ok (some batch) ↦ plan_loop fl ev script rate fuel (commit_batch script s batch)
            ]
          ])
            ≢ none
      split ih true m b = cc
      split ih false (err p) b = cc
      split ih false (ok none) b = cc
      split ih false (ok (some batch)) b =
          ih (commit_batch script s batch) (omega (arith, commit_batch-length s batch b))

  -- The loop ends within its fuel, for any coins and recipients: the planner always returns.
  pub plan_batches_total :
      (utxos : List TreasuryUtxo) (rs : List PayoutRecipient)
      → plan_batches fl ev script rate utxos rs ≢ none
  unfolding plan_batches start sort_recipients_desc
  plan_batches_total utxos rs = split _ (
      plan_loop-ne-none (suc (length rs)) (start utxos rs) (
        omega (
          arith,
          sort_by-length (λ a b. leb (amount b) (amount a)) (partition_by_floor rs).0,
          partition-length rs,
        )))
    where
      split :
          (o : Option (Result Panic PlanState))
          → o ≢ none
          → (elim o [ none ↦ none | some q ↦ some (outcome (partition_by_floor rs).1 q) ]) ≢ none
      split none h = absurd (h refl)
      split (some q) h = cc
