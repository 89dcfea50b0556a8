-- ===== src/StorageMass/Planner/Sums.antt =====
-- planner.rs, `plan_batches`: a measure of the recipients that the batches pay is at most that of all
-- recipients, also where ids repeat.
use zkas_pool.Base.{
  ℕ, suc, ◌+◌, ◌≤◌, ◌≡◌, Bool, true, false, List, [], ◌∷◌, some, arith, length, retain, sum_by,
  sum_by-append, leb,
}
use zkas_pool.Base.Results.{ok}
use zkas_pool.Base.Sort.{sort_by-sum}
use zkas_pool.Base.Table.{bytes_key}
use zkas_pool.Base.Distinct.{Sub, done, keep, skip, kept_beside, kept_beside-first, retain-false}
use zkas_pool.Base.Float.{Float}
use zkas_pool.StorageMass.Mass.{
  Script, TreasuryUtxo, PayoutRecipient, PlannedBatch, PlanBatchesResult, MassEvaluator,
}
use zkas_pool.StorageMass.Fee.{FeeRate}
use zkas_pool.StorageMass.Planner.{
  Parts, place, amount, is_payable, id_of, partition_by_floor, sort_recipients_desc, remove_paid,
  PlanState, commit_batch, start, plan_batches,
}
use zkas_pool.StorageMass.Planner.Batches.{Built}
use zkas_pool.StorageMass.Planner.Partition.{paid_of, paid_of-snoc, plan_loop-AtEnd}
use zkas_pool.StorageMass.Planner.Loop.{plan_batches-inv}

module _ (f : PayoutRecipient → ℕ) where
  retain-sum_mono :
      (p q : PayoutRecipient → Bool)
      → ((r : PayoutRecipient) → p r ≡ true → q r ≡ true)
      → (rs : List PayoutRecipient) → sum_by f (retain p rs) ≤ sum_by f (retain q rs)
  retain-sum_mono p q h [] = omega arith
  retain-sum_mono p q h (r ∷ rs) = ground (arith, h r, retain-sum_mono p q h rs)

  retain-sum_cons :
      (p : PayoutRecipient → Bool) (r : PayoutRecipient) (rs : List PayoutRecipient)
      → sum_by f (retain p (r ∷ rs)) ≤ f r + sum_by f (retain p rs)
  retain-sum_cons p r rs = ground arith

  fewer_kept :
      (x : PayoutRecipient) (gone : List PayoutRecipient) (r : PayoutRecipient)
      → kept_beside bytes_key id_of (x ∷ gone) r ≡ true
      → kept_beside bytes_key id_of gone r ≡ true
  fewer_kept x gone r h = ground arith

  Sub-retain-sum :
      {ys xs : List PayoutRecipient}
      → Sub ys xs
      → sum_by f ys + sum_by f (retain (kept_beside bytes_key id_of ys) xs) ≤ sum_by f xs
  Sub-retain-sum done = omega arith
  Sub-retain-sum (keep x {ys} {xs} s) =
      rw
        (retain-false (kept_beside bytes_key id_of (x ∷ ys)) x xs
          (kept_beside-first bytes_key id_of x ys))
        (omega (
          arith,
          Sub-retain-sum s,
          retain-sum_mono (kept_beside bytes_key id_of (x ∷ ys)) (kept_beside bytes_key id_of ys)
              (fewer_kept x ys) xs,
        ))
  Sub-retain-sum (skip x {ys} {xs} s) =
      omega (arith, Sub-retain-sum s, retain-sum_cons (kept_beside bytes_key id_of ys) x xs)

  place-sum :
      (r : PayoutRecipient) (b : Bool) (parts : Parts)
      → sum_by f (place r b parts).0 ≤ f r + sum_by f parts.0
  unfolding place
  place-sum r true parts = omega arith
  place-sum r false parts = omega arith

  partition-sum : (rs : List PayoutRecipient) → sum_by f (partition_by_floor rs).0 ≤ sum_by f rs
  unfolding partition_by_floor
  partition-sum [] = omega arith
  partition-sum (r ∷ rs) =
      omega (arith, place-sum r (is_payable r) (partition_by_floor rs), partition-sum rs)

  module _ (fl : Float) (ev : MassEvaluator) (script : Script) (rate : FeeRate fl) (n : ℕ) where
    record Within (s : PlanState) : Type 0 where
      pub bound : sum_by f (paid_of s.batches) + sum_by f s.payable ≤ n

    commit_batch-Within :
        (s : PlanState) (b : PlannedBatch)
        → Within s
        → Built fl ev script rate s.utxos s.payable (some b)
        → Within (commit_batch script s b)
    unfolding commit_batch remove_paid
    commit_batch-Within s b h (k, pos, sound) = record {
      bound = rw (paid_of-snoc s.batches b) (
          omega (
            arith,
            h.bound,
            Sub-retain-sum sound.chosen,
            sum_by-append f (paid_of s.batches) b.payouts,
          ));
    }

    start-Within :
        (utxos : List TreasuryUtxo) (rs : List PayoutRecipient)
        → sum_by f rs ≤ n
        → Within (start utxos rs)
    unfolding start sort_recipients_desc
    start-Within utxos rs h = record {
      bound = omega (
        arith,
        h,
        partition-sum rs,
        sort_by-sum (λ a b. leb (amount b) (amount a)) f (partition_by_floor rs).0,
      );
    }

    pub plan_batches-sum :
        (utxos : List TreasuryUtxo) (rs : List PayoutRecipient) {r : PlanBatchesResult}
        → sum_by f rs ≤ n
        → plan_batches fl ev script rate utxos rs ≡ some (ok r)
        → sum_by f (paid_of r.batches) ≤ n
    plan_batches-sum utxos rs {r} h e =
        let (s, inv, b, u, g) =
          plan_batches-inv fl ev script rate Within utxos rs {r = r}
            (plan_loop-AtEnd fl ev script rate Within commit_batch-Within (suc (length rs))
              (start utxos rs) (start-Within utxos rs h))
            e in
        rw b (omega (arith, inv.bound))
